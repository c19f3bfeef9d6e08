-- ===== src/Codegen/Sequences.antt =====
-- src/eval.c: the evaluator on blocks, conditionals and bindings, once it is known to end on their parts.
use sqale.Prelude.{
  ℕ, zero, suc, ◌<◌, ◌≡◌, refl, sym, ap, ◌∙◌, Bool, true, false, Option, ◌∷◌, Bytes, codes, length,
  arith, if◌then◌else◌,
}
use sqale.Ast
use sqale.Ast.{Node, Nodes}
use sqale.Env.Chains.{get_elem?-lt}
use sqale.Forms.{is_sym, form_of}
use sqale.Types.{Ty}
use sqale.Runtime.{Value, FloatOps}
use sqale.Machine.{Machine, done}
use sqale.Eval.{Library, eval_seq, eval_bindings, eval_node}
use sqale.Codegen.Tree.{Tree, Trees, list, symbol, nil, cons}
use sqale.Codegen.Means.{Values}
use sqale.Codegen.Sees.{
  Frame, refl_Frame, trans_Frame, weaken_Frame, with_child, child-Frame, with_name, name-Frame,
}
use sqale.Codegen.Source.{node_of, nodes_of, depth, depths, Operator}
use sqale.Codegen.Matches.{
  Free, HasOperators, Matches, Matches-in, Matches-Frame, Matches-child, Matches-name,
}
use sqale.Codegen.Moves.{list_step, block_step, if_runs, let_runs, binding_runs}
use sqale.Codegen.Evaluated.{Ends, EndsLast, EndsBound}

module _ (fl : FloatOps) (lib : Library) (number : Operator → ℕ)
    (ops : HasOperators fl lib number) where
  branch_depth :
      (c : Bool) (t a b : Tree) (f : ℕ)
      → depths (cons t (cons a (cons b nil))) < f
      → depth (if c then a else b) < f
  unfolding depths
  branch_depth true t a b f h = omega arith
  branch_depth false t a b f h = omega arith

  branch_node :
      (c : Bool) (a b : Tree) → node_of (if c then a else b) ≡ (if c then node_of a else node_of b)
  branch_node true a b = refl
  branch_node false a b = refl

  module _ (ρ : Values) (ty hty : Option Ty) where
    pub block-Ends :
        (es : Trees) (v : Value)
        → EndsLast fl lib number ops ρ es v
        → Ends fl lib number ops ρ (list ty (cons (symbol hty (codes "do")) es)) v
    unfolding node_of nodes_of depth depths
    block-Ends es v hs zero e m lt h = absurd (omega arith)
    block-Ends es v hs (suc f) e m lt h =
        let (m₁, r, f₁) = hs f e m Value.unit (omega arith) h in
        (m₁, ap (λ r. r.run m) (block_step fl lib number f e (nodes_of es)) ∙ r, f₁)

    pub branch-Ends :
        (t a b : Tree) (c : Bool) (v : Value)
        → Ends fl lib number ops ρ t (Value.bool c)
        → Ends fl lib number ops ρ (if c then a else b) v
        → Ends fl lib number ops ρ
            (list ty (cons (symbol hty (codes "if")) (cons t (cons a (cons b nil)))))
            v
    unfolding node_of nodes_of depth depths form_of is_sym
    branch-Ends t a b c v ht hx zero e m lt h = absurd (omega arith)
    branch-Ends t a b c v ht hx (suc f) e m lt h =
        let (m₁, r₁, f₁) = ht f e m (omega arith) h in
        let h₁ = Matches-Frame fl lib number (Matches-in fl lib number h) f₁ h in
        let (m₂, r₂, f₂) = hx f e m₁ (branch_depth c t a b f (omega arith)) h₁ in
        (
          m₂,
          ap (λ r. r.run m) (list_step fl lib number f e (Ast.symbol (codes "if") 0 0) _)
              ∙ if_runs fl lib number f e m m₁ m₂ (node_of t) (node_of a) (node_of b) c v r₁
                  (ap (λ n. (eval_node f lib e n).run m₁) (sym (branch_node c a b)) ∙ r₂),
          trans_Frame f₁.no_fewer f₁ f₂,
        )

    pub let-Ends :
        (bty : Option Ty) (ρ' : Values) (bs es : Trees) (v : Value)
        → 0 < Ast.count (nodes_of es)
        → EndsBound fl lib number ops ρ bs ρ'
        → EndsLast fl lib number ops ρ' es v
        → Ends fl lib number ops ρ
            (list ty (cons (symbol hty (codes "let")) (cons (list bty bs) es)))
            v
    unfolding node_of nodes_of depth depths form_of is_sym
    let-Ends bty ρ' bs es v some_ hb hs zero e m lt h = absurd (omega arith)
    let-Ends bty ρ' bs es v some_ hb hs (suc f) e m lt h =
        let c = length m.envs in
        let child = child-Frame e m in
        let (m₁, r₁, f₁, h₁) =
          hb f c (with_child e m) (omega arith) (Matches-child fl lib number h) in
        let (m₂, r₂, f₂) = hs f c m₁ Value.unit (omega arith) h₁ in
        (
          m₂,
          ap (λ r. r.run m) (list_step fl lib number f e (Ast.symbol (codes "let") 0 0) _)
              ∙ let_runs fl lib number f e m m₁ m₂ (nodes_of bs) (nodes_of es) v some_ r₁ r₂,
          trans_Frame (omega arith) child
              (trans_Frame (omega (arith, child.no_fewer, f₁.no_fewer)) f₁ f₂),
        )

  pub last_Ends :
      (ρ : Values) (t : Tree) (v : Value)
      → Ends fl lib number ops ρ t v
      → EndsLast fl lib number ops ρ (cons t nil) v
  unfolding nodes_of depths eval_seq
  last_Ends ρ t v he f e m w lt h =
      let (m₁, r, f₁) = he f e m (omega arith) h in (m₁, rw r refl, f₁)

  pub more_Ends :
      (ρ : Values) (t : Tree) (es : Trees) (u v : Value)
      → Ends fl lib number ops ρ t u
      → EndsLast fl lib number ops ρ es v
      → EndsLast fl lib number ops ρ (cons t es) v
  unfolding nodes_of depths eval_seq
  more_Ends ρ t es u v he hs f e m w lt h =
      let (m₁, r₁, f₁) = he f e m (omega arith) h in
      let h₁ = Matches-Frame fl lib number (Matches-in fl lib number h) f₁ h in
      let (m₂, r₂, f₂) = hs f e m₁ u (omega arith) h₁ in
      (m₂, rw r₁ r₂, trans_Frame f₁.no_fewer f₁ f₂)

  pub none_Ends : (ρ : Values) → EndsBound fl lib number ops ρ nil ρ
  unfolding nodes_of eval_bindings
  none_Ends ρ f e m lt h = (m, refl, refl_Frame e m, h)

  -- one binding, and those behind it
  module _ (ρ ρ' : Values) (x : Bytes) (t : Tree) (v : Value) (bs : Trees) (free : Free x)
      (he : Ends fl lib number ops ρ t v)
      (hs : EndsBound fl lib number ops ((x, v) ∷ ρ) bs ρ') where
    binding-Ends :
        (f e : ℕ) (m : Machine)
        → depth t < f
        → depths bs < f
        → Matches fl lib number ρ m e
        → (m' : Machine) × ((eval_bindings (eval_node f lib) e (
                Ast.cons
                  (Ast.list 0 0 (Ast.cons (Ast.symbol x 0 0) (Ast.cons (node_of t) Ast.nil)))
                  (nodes_of bs))).run
              m
            ≡ done tt m')
          × Frame e m m'
          × Matches fl lib number ρ' m' e
    binding-Ends f e m lt lt' h =
        let (m₁, r₁, f₁) = he f e m lt h in
        let lt_e = Matches-in fl lib number h in
        let h₁ = Matches-Frame fl lib number lt_e f₁ h in
        let (env, here) = get_elem?-lt m₁.envs e (Matches-in fl lib number h₁) in
        let (m₂, r₂, f₂, h₂) =
          hs f e (with_name e x v m₁) lt' (Matches-name fl lib number x v free h₁) in
        (
          m₂,
          binding_runs fl lib number f e m m₁ m₂ x v (node_of t) (nodes_of bs) free.0 r₁ r₂,
          trans_Frame (omega arith) (weaken_Frame (omega arith) f₁)
              (trans_Frame (omega arith) (name-Frame m₁ e x v env here) f₂),
          h₂,
        )

    pub bound_Ends :
        (ty xty : Option Ty)
        → EndsBound fl lib number ops ρ (cons (list ty (cons (symbol xty x) (cons t nil))) bs) ρ'
    unfolding node_of nodes_of depth depths
    bound_Ends ty xty f e m lt h = binding-Ends f e m (omega arith) (omega arith) h

    pub bound_as_Ends :
        (ty xty cty : Option Ty) (type : Tree)
        → EndsBound fl lib number ops ρ
            (cons
              (list ty
                (cons (symbol xty x) (cons (symbol cty (codes ":")) (cons type (cons t nil)))))
              bs)
            ρ'
    unfolding node_of nodes_of depth depths eval_bindings is_sym
    bound_as_Ends ty xty cty type f e m lt h =
        let (m', r, f', h') = binding-Ends f e m (omega arith) (omega arith) h in (m', r, f', h')
