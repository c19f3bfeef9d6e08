-- ===== src/Codegen/Evaluated.antt =====
-- src/eval.c: the evaluator on constants, names and operators, once it is known to end on the operands.
use sqale.Prelude.{ℕ, zero, suc, ◌<◌, ◌≡◌, refl, Bool, Option, some, [], ◌∷◌, Bytes, length, arith}
use sqale.Prelude.Int.{ℤ}
use sqale.Types.{Ty}
use sqale.Runtime.{Value, FloatOps}
use sqale.Machine.{Machine, done, Run}
use sqale.Eval.{Library, eval_seq, eval_bindings, eval_step, eval_node}
use sqale.Codegen.Tree.{Tree, Trees, list, symbol, nil, cons}
use sqale.Codegen.Means.{Values, find}
use sqale.Codegen.Sees.{Frame, refl_Frame, trans_Frame}
use sqale.Codegen.Source.{node_of, nodes_of, depth, depths, Operator, text_of, function_of, Clean}
use sqale.Codegen.Matches.{HasOperators, Matches, Matches-in, Matches-Frame}
use sqale.Codegen.Moves.{symbol_runs, operator_runs, all_two, all_one}

module _ (fl : FloatOps) (lib : Library) (number : Operator → ℕ)
    (ops : HasOperators fl lib number) where
  -- The code returns, and the environments that were there and the boxes are as before.
  abbrev pub Returns : {A : Type 0} → Run A → A → Machine → Type 0
  Returns r v m = (m' : Machine) × (r.run m ≡ done v m') × Frame (length m.envs) m m'

  -- Any fuel above the depth is enough, in every environment that matches.
  abbrev pub Ends : Values → Tree → Value → Type 0
  Ends ρ t v =
      (f e : ℕ) (m : Machine)
      → depth t < f
      → Matches fl lib number ρ m e
      → Returns (eval_node f lib e (node_of t)) v m

  abbrev pub EndsLast : Values → Trees → Value → Type 0
  EndsLast ρ es v =
      (f e : ℕ) (m : Machine) (w : Value)
      → depths es < f
      → Matches fl lib number ρ m e
      → Returns (eval_seq (eval_node f lib) e w (nodes_of es)) v m

  abbrev pub EndsBound : Values → Trees → Values → Type 0
  EndsBound ρ bs ρ' =
      (f e : ℕ) (m : Machine)
      → depths bs < f
      → Matches fl lib number ρ m e
      → (m' : Machine) × ((eval_bindings (eval_node f lib) e (nodes_of bs)).run m ≡ done tt m')
        × Frame e m m'
        × Matches fl lib number ρ' m' e

  pub int-Ends : (ρ : Values) (ty : Option Ty) (i : ℤ) → Ends ρ (Tree.int ty i) (Value.int i)
  unfolding eval_node eval_step node_of
  int-Ends ρ ty i zero e m lt h = absurd (omega arith)
  int-Ends ρ ty i (suc f) e m lt h = (m, refl, refl_Frame _ m)

  pub bool-Ends : (ρ : Values) (ty : Option Ty) (b : Bool) → Ends ρ (Tree.bool ty b) (Value.bool b)
  unfolding eval_node eval_step node_of
  bool-Ends ρ ty b zero e m lt h = absurd (omega arith)
  bool-Ends ρ ty b (suc f) e m lt h = (m, refl, refl_Frame _ m)

  pub name-Ends :
      (ρ : Values) (ty : Option Ty) (x : Bytes) (v : Value)
      → Clean x
      → find ρ x ≡ some v
      → Ends ρ (symbol ty x) v
  unfolding node_of depth
  name-Ends ρ ty x v cl q f e m lt h =
      (m, symbol_runs fl lib number f e m x v (omega arith) cl (h.names x v cl q), refl_Frame _ m)

  -- an operator, once its operands have been evaluated
  module _ (ρ : Values) (ty hty : Option Ty) (o : Operator) where
    pub two-Ends :
        (a b : Tree) (v w u : Value)
        → Ends ρ a v
        → Ends ρ b w
        → function_of fl o (v ∷ w ∷ []) ≡ some u
        → Ends ρ (list ty (cons (symbol hty (text_of o)) (cons a (cons b nil)))) u
    unfolding node_of nodes_of depth depths
    two-Ends a b v w u ha hb q zero e m lt h = absurd (omega arith)
    two-Ends a b v w u ha hb q (suc f) e m lt h =
        let (m₁, r₁, f₁) = ha f e m (omega arith) h in
        let h₁ = Matches-Frame fl lib number (Matches-in fl lib number h) f₁ h in
        let (m₂, r₂, f₂) = hb f e m₁ (omega arith) h₁ in
        let all =
          all_two fl lib number ops (eval_node f lib) e m m₁ m₂ (node_of a) (node_of b) v w r₁ r₂ in
        (
          m₂,
          operator_runs fl lib number ops f e m m₂ o _ (v ∷ w ∷ []) u (omega arith) (h.operators o)
              all q,
          trans_Frame f₁.no_fewer f₁ f₂,
        )

    pub one-Ends :
        (a : Tree) (v u : Value)
        → Ends ρ a v
        → function_of fl o (v ∷ []) ≡ some u
        → Ends ρ (list ty (cons (symbol hty (text_of o)) (cons a nil))) u
    unfolding node_of nodes_of depth depths
    one-Ends a v u ha q zero e m lt h = absurd (omega arith)
    one-Ends a v u ha q (suc f) e m lt h =
        let (m₁, r₁, f₁) = ha f e m (omega arith) h in
        let all = all_one fl lib number ops (eval_node f lib) e m m₁ (node_of a) v r₁ in
        (
          m₁,
          operator_runs fl lib number ops f e m m₁ o _ (v ∷ []) u (omega arith) (h.operators o) all
              q,
          f₁,
        )
