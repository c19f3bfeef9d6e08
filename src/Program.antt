-- ===== src/Program.antt =====
-- src/eval.c: a new VM (`vm_new`), and a whole program in it (`eval_program`, `eval_form`).
-- The checker's global environment and the evaluator's are two views of one: its names with their types,
-- and its names with their boxes. What the checker adds to the one it adds to the other, without a box, once it has
-- checked a form; a form that is rejected leaves its entries too. The types of the entries that the evaluator adds
-- are left out: they are those of expressions that the checker compared with the declared types.
-- Loading a module changes both, and is a parameter.
pub mod WellTyped
pub mod NewVm
pub mod Keeping
pub mod Imports
pub mod Candidates
pub mod Unloaded
pub mod Loading
use sqale.Prelude.{
  ℕ, zero, suc, ◌+◌, Bool, true, false, ◌&&◌, Option, none, some, List, [], ◌∷◌, Bytes, codes,
  c_string, take, length, ◌-◌, get_elem?, if◌then◌else◌,
}
use sqale.Ast.{Node, Nodes, list, symbol, string, nil, cons}
use sqale.Forms.{is_sym}
use sqale.TypeCheck.{
  Checked, running, fault, rejected, accepted, Typed, Context, bind, typecheck_node,
}
use sqale.Runtime.{Value, FloatOps}
use sqale.Machine.{Machine, Run, ◌>>=◌, pure, undefined, spent, new_env, define, declare}
use sqale.Eval.{Library, eval_node}
use sqale.Builtins.{Builtin, Outside, builtins}

abbrev pub empty_machine : Machine
empty_machine = record { envs = []; cells = []; objects = [] }

-- the place of the global environment
abbrev pub global_env : ℕ
global_env = 0

-- the functions from number `i`, each in a box of its own
unfoldable pub register : ℕ → List Builtin → Run (Unit {0})
unfolding define
register i [] = pure tt
register i (b ∷ bs) = do ok ← define global_env b.name (Value.func i); register (suc i) bs

unfoldable pub vm_new : List Builtin → Run ℕ
unfolding new_env register
vm_new bs = do e ← new_env none; ok ← register 0 bs; pure e

-- the names with their types
unfoldable pub typed_names : List Builtin → Context → Context
unfolding bind
typed_names [] Γ = Γ
typed_names (b ∷ bs) Γ = typed_names bs (bind b.name (some b.type) Γ)

-- the function with this number, where `import` is loading a module while the program runs
unfoldable pub library : List Builtin → (Bytes → Run (Unit {0})) → Library
library bs load = record {
  native = λ f e args. elim (get_elem? bs f) [ none ↦ undefined | some b ↦ b.code args ];
  import = load;
}

-- [import "name"]
unfoldable pub import_name : Node → Option Bytes
unfolding is_sym
import_name (list line col (cons head (cons (string path l c) nil))) =
    if is_sym head (codes "import") then some (c_string (take 1023 path)) else none
import_name _ = none

-- entries of the checker in the machine, the last one first, without boxes
unfoldable pub declare_all : Context → Run (Unit {0})
unfolding declare
declare_all [] = pure tt
declare_all (en ∷ rest) = do ok ← declare_all rest; declare global_env en.name

-- what the checker put in front of `Γ`
unfoldable pub declare_new : Context → Context → Run (Unit {0})
unfolding declare_all
declare_new Γ Γ₁ = declare_all (take (length Γ₁ - length Γ) Γ₁)

-- behind the check of one form
abbrev pub check_next :
    Context → Checked Typed → (Context → Run (Option Context)) → Run (Option Context)
check_next Γ running k = spent
check_next Γ fault k = undefined
check_next Γ (rejected Γ₁) k = declare_new Γ Γ₁ >>= λ ok. pure none
check_next Γ (accepted r) k = declare_new Γ r.1 >>= λ ok. k r.1

abbrev pub load_or :
    (Bytes → Run Context)
    → Option Bytes
    → (Context → Run (Option Context))
    → Context
    → Checked Typed
    → Run (Option Context)
load_or load (some x) k Γ r = load x >>= k
load_or load none k Γ r = check_next Γ r k

-- The checks of the forms, which come before all evaluation: `none` if a form does not type-check.
unfoldable pub check_forms :
    ℕ → (Bytes → Context → Run Context) → Context → Nodes → Run (Option Context)
unfolding import_name typecheck_node declare_new
check_forms f load Γ nil = pure (some Γ)
check_forms f load Γ (cons n ns) =
    load_or (λ x. load x Γ) (import_name n) (λ Γ₁. check_forms f load Γ₁ ns) Γ
      (typecheck_node f Γ n)

unfoldable pub eval_forms : ℕ → Library → Nodes → Run (Unit {0})
unfolding eval_node
eval_forms f lib nil = pure tt
eval_forms f lib (cons n ns) = do v ← eval_node f lib global_env n; eval_forms f lib ns

-- the evaluation, which is reached if every form was accepted
unfoldable pub eval_checked : ℕ → Library → Nodes → Option Context → Run ℕ
unfolding eval_forms
eval_checked f lib forms none = pure 1
eval_checked f lib forms (some Γ) = eval_forms f lib forms >>= λ ok. pure 0

unfoldable pub eval_program : ℕ → Library → (Bytes → Context → Run Context) → Context → Node → Run ℕ
unfolding check_forms eval_checked
eval_program f lib load Γ (list line col forms) =
    check_forms f load Γ forms >>= eval_checked f lib forms
eval_program f lib load Γ _ = undefined

-- One form, as the prompt reads it: its value, `none` if it does not type-check, and the checker's
-- environment that it leaves.
unfoldable pub eval_form : ℕ → Library → Context → Node → Run (Option Value × Context)
unfolding typecheck_node eval_node declare_new
eval_form f lib Γ n = elim (typecheck_node f Γ n) [
  | running ↦ spent
  | fault ↦ undefined
  | rejected Γ₁ ↦ declare_new Γ Γ₁ >>= λ ok. pure (none, Γ₁)
  | accepted r ↦
      declare_new Γ r.1 >>= λ ok. eval_node f lib global_env n >>= λ v. pure (some v, r.1)
]
