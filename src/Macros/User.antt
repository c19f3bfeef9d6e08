-- ===== src/Macros/User.antt =====
-- src/macro.c: `macros_collect_user`, which registers a closure for each [defmacro name [params...] body].
-- Each parameter is given the type Any. The body is the item behind the parameters: a `defmacro` without one
-- passes the test of its length, and reads past its items.
use sqale.Prelude.{ℕ, Option, some, List, codes, if◌then◌else◌}
use sqale.Ast.{Node, Nodes, list, symbol, nil, cons}
use sqale.Forms.{is_sym, name_ptr}
use sqale.TypeCheck.{Context}
use sqale.Runtime.{Value}
use sqale.Machine.{Run, ◌>>=◌, pure, undefined, defined}
use sqale.Eval.{Library}
use sqale.Program.{eval_form}
use sqale.Macros.{Macro, macro_env_add_closure}

abbrev pub any_type : Nodes → Nodes
any_type rest = cons (symbol (codes ":") 0 0) (cons (symbol (codes "Any") 0 0) rest)

-- [name : Any] for each parameter
unfoldable pub typed_params : Nodes → Nodes
typed_params nil = nil
typed_params (cons p ps) = cons (list 0 0 (cons p (any_type nil))) (typed_params ps)

-- [fn [[p1 : Any] ...] : Any body]
unfoldable pub macro_fn : Nodes → Node → Node
unfolding typed_params
macro_fn params body = list 0 0 (
    cons (symbol (codes "fn") 0 0)
      (cons (list 0 0 (typed_params params)) (any_type (cons body nil))))

-- a form that does not type-check, or gives no closure, is passed over
unfoldable pub register_macro :
    List Macro → Node → Option Value × Context → Run (List Macro × Context)
unfolding macro_env_add_closure
register_macro env name (some (Value.closure c), Γ) = do
  x ← defined (name_ptr name)
  pure (macro_env_add_closure x c env, Γ)
register_macro env name (_, Γ) = pure (env, Γ)

unfoldable pub collect_macro :
    ℕ → Library → List Macro → Context → Node → Node → Nodes → Run (List Macro × Context)
unfolding eval_form macro_fn register_macro
collect_macro f lib env Γ name (list line col params) (cons body more) =
    eval_form f lib Γ (macro_fn params body) >>= register_macro env name
collect_macro f lib env Γ name params rest = undefined

-- one form of the program
unfoldable pub collect_form : ℕ → Library → List Macro → Context → Node → Run (List Macro × Context)
unfolding is_sym collect_macro
collect_form f lib env Γ (list line col (cons head (cons name (cons params rest)))) =
    let collected = collect_macro f lib env Γ name params rest in
    if is_sym head (codes "defmacro") then collected else pure (env, Γ)
collect_form f lib env Γ form = pure (env, Γ)

unfoldable pub collect_forms :
    ℕ → Library → List Macro → Context → Nodes → Run (List Macro × Context)
unfolding collect_form
collect_forms f lib env Γ nil = pure (env, Γ)
collect_forms f lib env Γ (cons n ns) = do
  r ← collect_form f lib env Γ n
  collect_forms f lib r.0 r.1 ns

unfoldable pub macros_collect_user :
    ℕ → Library → List Macro → Context → Node → Run (List Macro × Context)
unfolding collect_forms
macros_collect_user f lib env Γ (list line col forms) = collect_forms f lib env Γ forms
macros_collect_user f lib env Γ program = undefined
