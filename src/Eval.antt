-- ===== src/Eval.antt =====
-- src/eval.c: the evaluator, `eval_node`, `eval_list` and `vm_call_closure`.
-- The evaluator calls itself through `ev`, the evaluator with one less fuel. The fuel bounds how deep
-- calls nest, and the rounds of a `while`. The library functions, and what `import` does, are parameters.
mod Items
pub mod Valid
pub mod Changes
pub mod Safe
pub mod Keeping
pub mod Names
unfoldable pub use Items.*
use sqale.Prelude.{
  ℕ, zero, suc, ◌+◌, Bool, true, false, Option, none, some, List, [], ◌∷◌, ◌++◌, Bytes, codes,
  c_string, if◌then◌else◌, take,
}
use sqale.Prelude.Int.{pos}
use sqale.Ast.{Node, Nodes, list, symbol, int, float, string, bool, nil, cons, count}
use sqale.Types.{Ty}
use sqale.Forms.{
  is_sym, name_ptr, Form, defmacro, def, fn, quote, quasiquote, do_, import, let_, if_, while, set,
  vec, struct_new, defstruct, defenum, call, form_of,
}
use sqale.TypeCheck.{Checked, running, fault, rejected, accepted, check_fields, variant_names}
use sqale.Runtime.{Value}
use sqale.Machine.{
  Object, vector, val_list, closure_val, Run, ◌>>=◌, pure, undefined, spent, defined, new_env,
  declare, define, box_of, read, write, alloc, object,
}

-- the bindings of a `let`, in its environment
unfoldable pub eval_binding : Evaluator → ℕ → Node → Option Node → Run (Unit {0})
unfolding define
eval_binding ev e name expr = do v ← eval_item ev e expr; x ← defined (name_ptr name); define e x v

unfoldable pub eval_bindings : Evaluator → ℕ → Nodes → Run (Unit {0})
unfolding eval_binding is_sym
eval_bindings ev e nil = pure tt
eval_bindings ev e (cons (list l c (cons name (cons expr nil))) more) = do
  ok ← eval_binding ev e name (some expr)
  eval_bindings ev e more
eval_bindings ev e (cons (list l c (cons name (cons m (cons ty nil)))) nil) =
    eval_binding ev e name (if is_sym m (codes ":") then none else some m)
eval_bindings ev e (cons (list l c (cons name (cons m (cons ty nil)))) (cons next more)) =
    let apart = do ok ← eval_binding ev e name (some next); eval_bindings ev e more
    in let plain = do ok ← eval_binding ev e name (some m); eval_bindings ev e (cons next more)
      in if is_sym m (codes ":") then apart else plain
eval_bindings ev e (cons (list l c (cons name (cons m (cons ty (cons expr rest))))) more) = do
  ok ← eval_binding ev e name (some (if is_sym m (codes ":") then expr else m))
  eval_bindings ev e more
eval_bindings ev e (cons _ more) = eval_bindings ev e more

unfoldable pub eval_let : Evaluator → ℕ → Nodes → Run Value
unfolding new_env eval_bindings eval_seq
eval_let ev e (cons (list line col bindings) (cons n body)) = do
  child ← new_env (some e)
  ok ← eval_bindings ev child bindings
  eval_seq ev child Value.unit (cons n body)
eval_let ev e (cons binds (cons n body)) = undefined
eval_let ev e _ = pure Value.unit

abbrev pub holds : Value → Bool
holds (Value.bool b) = b
holds _ = false

unfoldable pub eval_if : Evaluator → ℕ → Nodes → Run Value
eval_if ev e (cons test (cons yes_ (cons no_ nil))) = do
  cond ← ev e test
  ev e (if holds cond then yes_ else no_)
eval_if ev e _ = pure Value.unit

unfoldable pub eval_while : ℕ → Evaluator → ℕ → Value → Node → Nodes → Run Value
unfolding eval_seq
eval_while zero ev e last test body = spent
eval_while (suc fuel) ev e last test body = do
  cond ← ev e test
  let again = do w ← eval_seq ev e last body; eval_while fuel ev e w test body
  if holds cond then again else pure last

unfoldable pub set_box : Evaluator → ℕ → Node → Option ℕ → Run Value
unfolding write
set_box ev e expr none = pure Value.unit
set_box ev e expr (some b) = do v ← ev e expr; ok ← write b v; pure Value.unit

unfoldable pub eval_set : Evaluator → ℕ → Nodes → Run Value
unfolding box_of set_box
eval_set ev e (cons (symbol name line col) (cons expr nil)) = do
  box ← box_of e (c_string (take 255 name))
  set_box ev e expr box
eval_set ev e _ = pure Value.unit

unfoldable pub eval_import : Library → Nodes → Run Value
eval_import lib (cons (string path line col) nil) = do
  ok ← lib.import (c_string (take 1023 path))
  pure Value.unit
eval_import lib _ = pure Value.unit

unfoldable pub eval_defstruct : ℕ → Nodes → Run Value
unfolding check_fields declare
eval_defstruct e (cons (symbol name line col) (cons (list l c fields) rest)) = do
  ty ← of_checked (check_fields fields)
  ok ← declare e (c_string name)
  pure Value.unit
eval_defstruct e (cons (symbol name line col) (cons _ rest)) = undefined
eval_defstruct e _ = pure Value.unit

-- the variants from tag `i`
unfoldable pub define_variants : ℕ → ℕ → List Bytes → Run (Unit {0})
unfolding define
define_variants e i [] = pure tt
define_variants e i (x ∷ xs) = do ok ← define e x (Value.int (pos i)); define_variants e (suc i) xs

unfoldable pub eval_defenum : ℕ → Nodes → Run Value
unfolding variant_names declare define_variants
eval_defenum e (cons (symbol name line col) (cons (list l c variants) rest)) = do
  xs ← of_checked (variant_names variants)
  ok ← declare e (c_string name)
  ok' ← define_variants e 0 xs
  pure Value.unit
eval_defenum e (cons (symbol name line col) (cons _ rest)) = undefined
eval_defenum e _ = pure Value.unit

-- as many parameters as there are arguments for
unfoldable pub bind_args : ℕ → Nodes → List Value → Run (Unit {0})
unfolding define
bind_args e nil vs = pure tt
bind_args e (cons p ps) [] = pure tt
bind_args e (cons (list l c (cons name more)) ps) (v ∷ vs) = do
  x ← defined (name_ptr name)
  ok ← define e x v
  bind_args e ps vs
bind_args e (cons _ ps) (v ∷ vs) = undefined

-- the body of a function, behind its parameters: the return type is skipped
unfoldable pub body_of : Nodes → Nodes
unfolding is_sym
body_of nil = nil
body_of (cons m nil) = if is_sym m (codes ":") then nil else cons m nil
body_of (cons m (cons ty body)) = if is_sym m (codes ":") then body else cons m (cons ty body)

unfoldable pub call_object : Evaluator → List Value → Object → Run Value
unfolding new_env bind_args eval_seq body_of
call_object ev args (closure_val (cons (list line col params) body) e) = do
  callenv ← new_env (some e)
  ok ← bind_args callenv params args
  eval_seq ev callenv Value.unit (body_of body)
call_object ev args _ = undefined

unfoldable pub vm_call_closure : Evaluator → ℕ → List Value → Run Value
unfolding object call_object
vm_call_closure ev a args = do c ← object a; call_object ev args c

unfoldable pub apply_value : Library → Evaluator → ℕ → Value → List Value → Run Value
unfolding vm_call_closure
apply_value lib ev e (Value.func f) args = lib.native f e args
apply_value lib ev e (Value.closure a) args = vm_call_closure ev a args
apply_value lib ev e _ args = pure Value.unit

-- a call
unfoldable pub eval_call : Library → Evaluator → ℕ → Node → Nodes → Run Value
unfolding eval_all apply_value
eval_call lib ev e head args = do
  fval ← ev e head
  argv ← eval_all ev e args
  apply_value lib ev e fval argv

-- `eval_list` of [head rest...]
unfoldable pub eval_list : ℕ → Library → Evaluator → ℕ → Form → Node → Nodes → Run Value
unfolding eval_def eval_quote qq_eval eval_let eval_if eval_seq eval_while eval_set eval_import
    eval_defstruct eval_defenum alloc eval_call
eval_list f lib ev e defmacro head rest = pure Value.unit
eval_list f lib ev e def head rest = eval_def ev e rest
eval_list f lib ev e quote head rest = eval_quote ev e rest
eval_list f lib ev e quasiquote head nil = pure Value.unit
eval_list f lib ev e quasiquote head (cons q rest) = qq_eval ev e q
eval_list f lib ev e let_ head rest = eval_let ev e rest
eval_list f lib ev e if_ head rest = eval_if ev e rest
eval_list f lib ev e do_ head rest = eval_seq ev e Value.unit rest
eval_list f lib ev e while head nil = pure Value.unit
eval_list f lib ev e while head (cons test body) = eval_while f ev e Value.unit test body
eval_list f lib ev e set head rest = eval_set ev e rest
eval_list f lib ev e import head rest = eval_import lib rest
eval_list f lib ev e defstruct head rest = eval_defstruct e rest
eval_list f lib ev e defenum head rest = eval_defenum e rest
eval_list f lib ev e fn head rest = do a ← alloc (closure_val rest e); pure (Value.closure a)
eval_list f lib ev e _ head rest = eval_call lib ev e head rest

-- one step of `eval_node`, with `f` for the rounds of a `while`
unfoldable pub eval_step : ℕ → Library → Evaluator → Evaluator
unfolding eval_symbol eval_list
eval_step f lib ev e (int z line col) = pure (Value.int z)
eval_step f lib ev e (float d line col) = pure (Value.float d)
eval_step f lib ev e (bool b line col) = pure (Value.bool b)
eval_step f lib ev e (string s line col) = pure (Value.str (some s))
eval_step f lib ev e (symbol name line col) = eval_symbol e (c_string name)
eval_step f lib ev e (list line col nil) = pure Value.unit
eval_step f lib ev e (list line col (cons head rest)) =
    eval_list f lib ev e (form_of head) head rest

unfoldable pub eval_node : ℕ → Library → Evaluator
unfolding eval_step
eval_node zero lib e n = spent
eval_node (suc f) lib e n = eval_step f lib (eval_node f lib) e n
