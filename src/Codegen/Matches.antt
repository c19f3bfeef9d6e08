-- ===== src/Codegen/Matches.antt =====
-- src/codegen_llvm.c beside src/eval.c: environments that give the names and the operators of an expression the
-- values that they mean.
use sqale.Prelude.{
  ℕ, ◌<◌, ◌≡◌, refl, sym, ◌∙◌, subst, Bool, true, false, some, List, ◌∷◌, Bytes, bytes_eq,
  bytes_eq→eq, length, Bool-cases, inl, inr,
}
use sqale.Env.Chains.{get_elem?-lt}
use sqale.Runtime.{Value, FloatOps}
use sqale.Machine.{Machine, defined}
use sqale.Eval.{Library}
use sqale.Codegen.Tree.{Tree, Trees}
use sqale.Codegen.Means.{
  Values, find, Means, MeansLast, MeansBound, int_lit, bool_lit, name, binop, negation, opposite,
  block, let_in, branch, last, more, none_left, bound, bound_as,
}
use sqale.Codegen.Context.{sym_eq}
use sqale.Codegen.Sees.{
  Sees, Frame, Sees-Frame, env_in, with_child, child-Sees, with_name, name-Sees, other-Sees,
}
use sqale.Codegen.Source.{Operator, not_, text_of, function_of, Clean, sym_eq-bytes_eq}

-- a name that hides no operator
abbrev pub Free : Bytes → Type 0
Free x = Clean x × ((o : Operator) → bytes_eq x (text_of o) ≡ false)

module _ (fl : FloatOps) where
  -- No name that the expression binds on the way to its value hides an operator, and names have no
  -- zero byte.
  unfoldable mutual
    pub Unshadowed :
        {flat : Bool} {ρ : Values} {t : Tree} {v : Value} → Means fl flat ρ t v → Type 0
    Unshadowed (int_lit flat ρ ty i _) = Unit
    Unshadowed (bool_lit flat ρ ty b) = Unit
    Unshadowed (name flat ρ ty x v h) = Clean x
    Unshadowed (binop flat ρ ty hty o a b v w u ha hb hd ho) = Unshadowed ha × Unshadowed hb
    Unshadowed (negation flat ρ ty hty a b u ha ho) = Unshadowed ha
    Unshadowed (opposite flat ρ ty hty a i u ha nf ho) = Unshadowed ha
    Unshadowed (block flat ρ ty hty es v hs) = UnshadowedLast hs
    Unshadowed (let_in flat ρ ρ' ty hty bty bs es v hb hs) = UnshadowedBound hb × UnshadowedLast hs
    Unshadowed (branch flat ρ ty hty t a b c v fe ht hx nu ot pa pb _ _ _ _ _) =
        Unshadowed ht × Unshadowed hx

    pub UnshadowedLast :
        {flat : Bool} {ρ : Values} {es : Trees} {v : Value} → MeansLast fl flat ρ es v → Type 0
    UnshadowedLast (last flat ρ e v he) = Unshadowed he
    UnshadowedLast (more flat ρ e es w v he hs) = Unshadowed he × UnshadowedLast hs

    pub UnshadowedBound :
        {flat : Bool} {ρ ρ' : Values} {bs : Trees} → MeansBound fl flat ρ bs ρ' → Type 0
    UnshadowedBound (none_left flat ρ) = Unit
    UnshadowedBound (bound flat ρ ρ' ty xty x e v bs he hs) =
        Free x × Unshadowed he × UnshadowedBound hs
    UnshadowedBound (bound_as flat ρ ρ' ty xty cty x type e v bs he hs) =
        Free x × Unshadowed he × UnshadowedBound hs

  module _ (lib : Library) (number : Operator → ℕ) where
    -- The library has the operators under these numbers.
    pub record HasOperators : Type 0 where
      pub native :
          (o : Operator) (e : ℕ) (args : List Value)
          → lib.native (number o) e args ≡ defined (function_of fl o args)

    -- The environment gives the names their values, and the operators their functions.
    pub record Matches (ρ : Values) (m : Machine) (e : ℕ) : Type 0 where
      pub names : (x : Bytes) (v : Value) → Clean x → find ρ x ≡ some v → Sees m x v e
      pub operators : (o : Operator) → Sees m (text_of o) (Value.func (number o)) e

    pub Matches-in : {ρ : Values} {m : Machine} {e : ℕ} → Matches ρ m e → e < length m.envs
    Matches-in {m} {e} h = env_in m (text_of not_) (Value.func (number not_)) e (h.operators not_)

    pub Matches-Frame :
        {ρ : Values} {m m' : Machine} {e c : ℕ}
        → e < c
        → Frame c m m'
        → Matches ρ m e
        → Matches ρ m' e
    Matches-Frame {e} lt f h = record {
      names = λ x v cl q. Sees-Frame x v e f lt (h.names x v cl q);
      operators = λ o. Sees-Frame (text_of o) (Value.func (number o)) e f lt (h.operators o);
    }

    pub Matches-child :
        {ρ : Values} {m : Machine} {e : ℕ}
        → Matches ρ m e
        → Matches ρ (with_child e m) (length m.envs)
    Matches-child {m} {e} h = record {
      names = λ x v cl q. child-Sees m x v e (h.names x v cl q);
      operators = λ o. child-Sees m (text_of o) (Value.func (number o)) e (h.operators o);
    }

    pub Matches-name :
        {ρ : Values} {m : Machine} {e : ℕ} (x : Bytes) (v : Value)
        → Free x
        → Matches ρ m e
        → Matches ((x, v) ∷ ρ) (with_name e x v m) e
    Matches-name {ρ} {m} {e} x v (cl, free) h =
        let (env, here) = get_elem?-lt m.envs e (Matches-in h) in
        record {
          names = λ y w cy q. elim (Bool-cases (bytes_eq x y)) [
            | inl t ↦
                let e₁ : x ≡ y = bytes_eq→eq x y t in
                let eq : sym_eq x y ≡ true = sym_eq-bytes_eq x y cl ∙ t in
                let found : find ((x, v) ∷ ρ) y ≡ some v = rw eq refl in
                let e₂ : v ≡ w = cc (found, q) in
                subst (λ z. Sees (with_name e x v m) z w e) e₁
                  (subst (λ z. Sees (with_name e x v m) x z e) e₂ (name-Sees m e x v env here))
            | inr t ↦
                let ne : sym_eq x y ≡ false = sym_eq-bytes_eq x y cl ∙ t in
                let found : find ((x, v) ∷ ρ) y ≡ find ρ y = rw ne refl in
                other-Sees m e x v env here y w t (h.names y w cy (sym found ∙ q))
          ];
          operators = λ o.
              other-Sees m e x v env here (text_of o) (Value.func (number o)) (free o)
                (h.operators o);
        }
