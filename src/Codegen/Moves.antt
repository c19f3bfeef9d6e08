-- ===== src/Codegen/Moves.antt =====
-- src/eval.c: single steps of the evaluator on the forms that the generator compiles.
use sqale.Prelude.{
  ℕ, zero, suc, ◌<◌, ◌≡◌, refl, ap, ◌∙◌, Bool, some, List, [], ◌∷◌, Bytes, codes, length, arith,
  if◌then◌else◌,
}
use sqale.Ast
use sqale.Ast.{Node, Nodes}
use sqale.Forms.{is_sym, name_ptr, form_of, call, if_, let_}
use sqale.Runtime.{Value, FloatOps}
use sqale.Machine.{Machine, done, new_env, define}
use sqale.Eval.{
  Evaluator, Library, eval_seq, eval_all, eval_binding, eval_bindings, eval_let, eval_if,
  apply_value, eval_call, eval_list, eval_step, eval_node,
}
use sqale.Codegen.Sees.{Sees, symbol-Sees, with_child, with_name}
use sqale.Codegen.Source.{Operator, text_of, function_of, form-call, Clean, text-Clean}
use sqale.Codegen.Matches.{HasOperators}

module _ (fl : FloatOps) (lib : Library) (number : Operator → ℕ) where
  pub symbol_runs :
      (f e : ℕ) (m : Machine) (x : Bytes) (v : Value)
      → 0 < f
      → Clean x
      → Sees m x v e
      → (eval_node f lib e (Ast.symbol x 0 0)).run m ≡ done v m
  unfolding eval_node eval_step
  symbol_runs zero e m x v pos cl s = absurd (omega arith)
  symbol_runs (suc f) e m x v pos cl s = rw cl (symbol-Sees m x v e s)

  -- one step into a list
  pub list_step :
      (f e : ℕ) (head : Node) (rest : Nodes)
      → eval_node (suc f) lib e (Ast.list 0 0 (Ast.cons head rest))
        ≡ eval_list f lib (eval_node f lib) e (form_of head) head rest
  unfolding eval_node eval_step
  list_step f e head rest = refl

  module _ (ops : HasOperators fl lib number) where
    apply_runs :
        (f : ℕ) (ev : Evaluator) (e : ℕ) (m m' : Machine) (o : Operator) (head : Node)
        (args : Nodes) (vs : List Value) (u : Value)
        → (ev e head).run m ≡ done (Value.func (number o)) m
        → (eval_all ev e args).run m ≡ done vs m'
        → function_of fl o vs ≡ some u
        → (eval_list f lib ev e call head args).run m ≡ done u m'
    unfolding eval_list eval_call apply_value
    apply_runs f ev e m m' o head args vs u fun all val =
        let last_ : (lib.native (number o) e vs).run m' ≡ done u m' =
          rw (ops.native o e vs, val) refl in
        rw (fun, all) last_

    pub operator_runs :
        (f e : ℕ) (m m' : Machine) (o : Operator) (args : Nodes) (vs : List Value) (u : Value)
        → 0 < f
        → Sees m (text_of o) (Value.func (number o)) e
        → (eval_all (eval_node f lib) e args).run m ≡ done vs m'
        → function_of fl o vs ≡ some u
        → (eval_node (suc f) lib e (Ast.list 0 0 (Ast.cons (Ast.symbol (text_of o) 0 0) args))).run
            m
          ≡ done u m'
    operator_runs f e m m' o args vs u pos s all val =
        let head : Node = Ast.symbol (text_of o) 0 0 in
        let fun = symbol_runs f e m (text_of o) (Value.func (number o)) pos (text-Clean o) s in
        ap (λ r. r.run m) (list_step f e head args)
        ∙ (ap (λ form. (eval_list f lib (eval_node f lib) e form head args).run m) (form-call o)
            ∙ apply_runs f (eval_node f lib) e m m' o head args vs u fun all val)

    pub all_two :
        (ev : Evaluator) (e : ℕ) (m m₁ m₂ : Machine) (a b : Node) (v w : Value)
        → (ev e a).run m ≡ done v m₁
        → (ev e b).run m₁ ≡ done w m₂
        → (eval_all ev e (Ast.cons a (Ast.cons b Ast.nil))).run m ≡ done (v ∷ w ∷ []) m₂
    unfolding eval_all
    all_two ev e m m₁ m₂ a b v w h k = rw (h, k) refl

    pub all_one :
        (ev : Evaluator) (e : ℕ) (m m₁ : Machine) (a : Node) (v : Value)
        → (ev e a).run m ≡ done v m₁
        → (eval_all ev e (Ast.cons a Ast.nil)).run m ≡ done (v ∷ []) m₁
    unfolding eval_all
    all_one ev e m m₁ a v h = rw h refl

  module _ (f e : ℕ) where
    pub block_step :
        (rest : Nodes)
        → eval_node (suc f) lib e (Ast.list 0 0 (Ast.cons (Ast.symbol (codes "do") 0 0) rest))
          ≡ eval_seq (eval_node f lib) e Value.unit rest
    unfolding eval_node eval_step eval_list form_of is_sym
    block_step rest = refl

    pub if_runs :
        (m m₁ m₂ : Machine) (t a b : Node) (c : Bool) (v : Value)
        → (eval_node f lib e t).run m ≡ done (Value.bool c) m₁
        → (eval_node f lib e (if c then a else b)).run m₁ ≡ done v m₂
        → (eval_list f lib
              (eval_node f lib)
              e
              if_
              (Ast.symbol (codes "if") 0 0)
              (Ast.cons t (Ast.cons a (Ast.cons b Ast.nil)))).run
            m
          ≡ done v m₂
    unfolding eval_list eval_if
    if_runs m m₁ m₂ t a b c v h k = rw h k

    pub let_runs :
        (m m₁ m₂ : Machine) (bs body : Nodes) (v : Value)
        → 0 < Ast.count body
        → (eval_bindings (eval_node f lib) (length m.envs) bs).run (with_child e m) ≡ done tt m₁
        → (eval_seq (eval_node f lib) (length m.envs) Value.unit body).run m₁ ≡ done v m₂
        → (eval_list f lib
              (eval_node f lib)
              e
              let_
              (Ast.symbol (codes "let") 0 0)
              (Ast.cons (Ast.list 0 0 bs) body)).run
            m
          ≡ done v m₂
    unfolding eval_list eval_let new_env
    let_runs m m₁ m₂ bs Ast.nil v some_ h k = absurd (unfold Ast.count in omega arith)
    let_runs m m₁ m₂ bs (Ast.cons n body) v some_ h k = rw h k

    pub binding_runs :
        (m m₁ m₂ : Machine) (x : Bytes) (v : Value) (n : Node) (more_ : Nodes)
        → Clean x
        → (eval_node f lib e n).run m ≡ done v m₁
        → (eval_bindings (eval_node f lib) e more_).run (with_name e x v m₁) ≡ done tt m₂
        → (eval_bindings (eval_node f lib) e (
              Ast.cons (Ast.list 0 0 (Ast.cons (Ast.symbol x 0 0) (Ast.cons n Ast.nil))) more_)).run
            m
          ≡ done tt m₂
    unfolding eval_bindings eval_binding define name_ptr
    binding_runs m m₁ m₂ x v n more_ cl h k = rw (h, cl) k
