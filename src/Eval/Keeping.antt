-- ===== src/Eval/Keeping.antt =====
-- src/eval.c: the whole evaluator on machines whose environments are in order.
use sqale.Prelude.{
  ℕ, zero, suc, ◌<◌, ◌≡◌, refl, ap, ◌∙◌, Option, none, some, List, Bytes, codes, c_string, take,
  if◌then◌else◌, length, get_elem?, Option-cases, inl, inr,
}
use sqale.Ast.{Node, Nodes, list, symbol, int, float, string, bool, nil, cons}
use sqale.Forms.{
  is_sym, name_ptr, Form, defmacro, def, fn, quote, quasiquote, do_, import, let_, if_, while, set,
  vec, struct_new, defstruct, defenum, call, form_of,
}
use sqale.Runtime.{Value}
use sqale.Machine.{Object, closure_val, Machine, ◌>>=◌, object}
use sqale.Eval.Items.{Evaluator, Library, eval_seq}
use sqale.Eval.{
  eval_binding, eval_bindings, eval_let, holds, eval_if, eval_while, set_box, eval_set, eval_import,
  bind_args, body_of, call_object, vm_call_closure, apply_value, eval_call, eval_list, eval_step,
  eval_node,
}
use sqale.Eval.Valid.{Good, Kept, Keeps, pure_Keeps, undefined_Keeps, ◌⟫◌, write_Keeps}
use sqale.Eval.Changes.{define_Keeps, closure_Keeps, child_Keeps}
use sqale.Eval.Safe.{
  if_Keeps, defined_Keeps, box_of_Keeps, symbol_Keeps, args_Keeps, defstruct_Keeps, defenum_Keeps,
  seq_Keeps, all_Keeps, item_Keeps, def_Keeps, quote_Keeps, qq_Keeps,
}

-- the library functions and `import` keep good machines
pub record KeepsLibrary (lib : Library) : Type 0 where
  pub native : (f e : ℕ) (args : List Value) → Keeps e (lib.native f e args)
  pub import : (e : ℕ) (name : Bytes) → Keeps e (lib.import name)

module _ (ev : Evaluator) (safe : (e : ℕ) (n : Node) → Keeps e (ev e n)) where
  binding_Keeps : (e : ℕ) (n : Node) (o : Option Node) → Keeps e (eval_binding ev e n o)
  unfolding eval_binding
  binding_Keeps e n o =
      item_Keeps ev safe e o ⟫ λ v. defined_Keeps e (name_ptr n) ⟫ λ x. define_Keeps e x v

  bindings_Keeps : (e : ℕ) (ns : Nodes) → Keeps e (eval_bindings ev e ns)
  unfolding eval_bindings
  bindings_Keeps e nil = pure_Keeps e tt
  bindings_Keeps e (cons (list l c (cons name (cons expr nil))) rest) =
      binding_Keeps e name (some expr) ⟫ λ _. bindings_Keeps e rest
  bindings_Keeps e (cons (list l c (cons name (cons m (cons ty nil)))) nil) =
      binding_Keeps e name (if is_sym m (codes ":") then none else some m)
  bindings_Keeps e (cons (list l c (cons name (cons m (cons ty nil)))) (cons next rest)) =
      if_Keeps e (is_sym m (codes ":"))
        (binding_Keeps e name (some next) ⟫ λ _. bindings_Keeps e rest)
        (binding_Keeps e name (some m) ⟫ λ _. bindings_Keeps e (cons next rest))
  bindings_Keeps e (cons (list l c (cons name (cons m (cons ty (cons expr r))))) rest) =
      binding_Keeps e name (some (if is_sym m (codes ":") then expr else m)) ⟫ λ _.
      bindings_Keeps e rest
  bindings_Keeps e (cons _ rest) = bindings_Keeps e rest

  let_Keeps : (e : ℕ) (ns : Nodes) → Keeps e (eval_let ev e ns)
  unfolding eval_let
  let_Keeps e (cons (list line col bindings) (cons n body)) =
      child_Keeps e
        (λ child.
          eval_bindings ev child bindings >>= λ _. eval_seq ev child Value.unit (cons n body))
        (λ child.
          bindings_Keeps child bindings ⟫ λ _. seq_Keeps ev safe child Value.unit (cons n body))
  let_Keeps e (cons _ (cons n body)) = undefined_Keeps e
  let_Keeps e _ = pure_Keeps e Value.unit

  eval_if_Keeps : (e : ℕ) (ns : Nodes) → Keeps e (eval_if ev e ns)
  unfolding eval_if
  eval_if_Keeps e (cons test (cons y (cons n nil))) =
      safe e test ⟫ λ v. safe e (if holds v then y else n)
  eval_if_Keeps e _ = pure_Keeps e Value.unit

  while_Keeps :
      (f e : ℕ) (v : Value) (test : Node) (body : Nodes) → Keeps e (eval_while f ev e v test body)
  unfolding eval_while
  while_Keeps zero e v test body = λ m g lt. Kept.runs
  while_Keeps (suc f) e v test body = safe e test ⟫ λ c.
      if_Keeps e (holds c) (seq_Keeps ev safe e v body ⟫ λ w. while_Keeps f e w test body)
        (pure_Keeps e v)

  set_box_Keeps : (e : ℕ) (n : Node) (box : Option ℕ) → Keeps e (set_box ev e n box)
  unfolding set_box
  set_box_Keeps e n none = pure_Keeps e Value.unit
  set_box_Keeps e n (some b) = safe e n ⟫ λ v. write_Keeps e b v ⟫ λ _. pure_Keeps e Value.unit

  set_Keeps : (e : ℕ) (ns : Nodes) → Keeps e (eval_set ev e ns)
  unfolding eval_set
  set_Keeps e (cons (symbol name line col) (cons expr nil)) =
      box_of_Keeps e (c_string (take 255 name)) ⟫ λ box. set_box_Keeps e expr box
  set_Keeps e _ = pure_Keeps e Value.unit

  called :
      (m : Machine) (vs : List Value) (o : Object)
      → Good m
      → ((code : Nodes) (i : ℕ) → o ≡ closure_val code i → i < length m.envs)
      → Kept (length m.envs) ((call_object ev vs o).run m)
  unfolding call_object
  called m vs (closure_val (cons (list line col params) body) i) g there =
      child_Keeps i
        (λ callenv.
          bind_args callenv params vs >>= λ _. eval_seq ev callenv Value.unit (body_of body))
        (λ callenv.
          args_Keeps callenv params vs ⟫ λ _. seq_Keeps ev safe callenv Value.unit (body_of body))
        m g (there (cons (list line col params) body) i refl)
  called m vs _ g there = Kept.faults

  call_Keeps : (e a : ℕ) (vs : List Value) → Keeps e (vm_call_closure ev a vs)
  unfolding vm_call_closure object
  call_Keeps e a vs m g lt = elim (Option-cases (get_elem? m.objects a)) [
    | inl h ↦ rw (object, h) Kept.faults
    | inr (o, h) ↦
        rw (object, h) (called m vs o g (λ code i q. g.closures a code i (h ∙ ap some q)))
  ]

  module _ (lib : Library) (keeps : KeepsLibrary lib) where
    apply_Keeps : (e : ℕ) (f : Value) (vs : List Value) → Keeps e (apply_value lib ev e f vs)
    unfolding apply_value
    apply_Keeps e (Value.func f) vs = keeps.native f e vs
    apply_Keeps e (Value.closure a) vs = call_Keeps e a vs
    apply_Keeps e _ vs = pure_Keeps e Value.unit

    general_Keeps : (e : ℕ) (h : Node) (rest : Nodes) → Keeps e (eval_call lib ev e h rest)
    unfolding eval_call
    general_Keeps e h rest = safe e h ⟫ λ f. all_Keeps ev safe e rest ⟫ λ vs. apply_Keeps e f vs

    import_Keeps : (e : ℕ) (rest : Nodes) → Keeps e (eval_import lib rest)
    unfolding eval_import
    import_Keeps e (cons (string path line col) nil) =
        keeps.import e (c_string (take 1023 path)) ⟫ λ _. pure_Keeps e Value.unit
    import_Keeps e _ = pure_Keeps e Value.unit

    form_Keeps :
        (f e : ℕ) (form : Form) (h : Node) (rest : Nodes)
        → Keeps e (eval_list f lib ev e form h rest)
    unfolding eval_list
    form_Keeps f e defmacro h rest = pure_Keeps e Value.unit
    form_Keeps f e def h rest = def_Keeps ev safe e rest
    form_Keeps f e quote h rest = quote_Keeps ev safe e rest
    form_Keeps f e quasiquote h nil = pure_Keeps e Value.unit
    form_Keeps f e quasiquote h (cons q rest) = qq_Keeps ev safe e q
    form_Keeps f e let_ h rest = let_Keeps e rest
    form_Keeps f e if_ h rest = eval_if_Keeps e rest
    form_Keeps f e do_ h rest = seq_Keeps ev safe e Value.unit rest
    form_Keeps f e while h nil = pure_Keeps e Value.unit
    form_Keeps f e while h (cons test body) = while_Keeps f e Value.unit test body
    form_Keeps f e set h rest = set_Keeps e rest
    form_Keeps f e import h rest = import_Keeps e rest
    form_Keeps f e defstruct h rest = defstruct_Keeps e rest
    form_Keeps f e defenum h rest = defenum_Keeps e rest
    form_Keeps f e fn h rest = closure_Keeps e rest ⟫ λ a. pure_Keeps e (Value.closure a)
    form_Keeps f e vec h rest = general_Keeps e h rest
    form_Keeps f e struct_new h rest = general_Keeps e h rest
    form_Keeps f e call h rest = general_Keeps e h rest

    step_Keeps : (f e : ℕ) (n : Node) → Keeps e (eval_step f lib ev e n)
    unfolding eval_step
    step_Keeps f e (int z line col) = pure_Keeps e (Value.int z)
    step_Keeps f e (float d line col) = pure_Keeps e (Value.float d)
    step_Keeps f e (bool b line col) = pure_Keeps e (Value.bool b)
    step_Keeps f e (string s line col) = pure_Keeps e (Value.str (some s))
    step_Keeps f e (symbol name line col) = symbol_Keeps e (c_string name)
    step_Keeps f e (list line col nil) = pure_Keeps e Value.unit
    step_Keeps f e (list line col (cons h rest)) = form_Keeps f e (form_of h) h rest

pub node_Keeps :
    (lib : Library) (keeps : KeepsLibrary lib) (f e : ℕ) (n : Node) → Keeps e (eval_node f lib e n)
unfolding eval_node
node_Keeps lib keeps zero e n = λ m g lt. Kept.runs
node_Keeps lib keeps (suc f) e n =
    step_Keeps (eval_node f lib) (node_Keeps lib keeps f) lib keeps f e n
