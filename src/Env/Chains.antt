-- ===== src/Env/Chains.antt =====
-- src/env.c: lookups along the chain of parents.
use sqale.Prelude.{
  ℕ, zero, suc, ◌≤◌, ◌<◌, ◌≡◌, refl, ap, ◌∙◌, sym, Option, none, some, List, [], ◌∷◌, arith, Bytes,
  length, get_elem?, Option-cases, inl, inr,
}
use sqale.Env.{Env, Store, find, env_lookup}

-- A parent was created before its children.
abbrev pub Older : Option ℕ → ℕ → Type 0
Older none e = Unit
Older (some p) e = p < e

pub record Scoped {ℓ} {A : Type ℓ} (envs : Store A) : Type ℓ where
  pub parents : (e : ℕ) (env : Env A) → get_elem? envs e ≡ some env → Older env.parent e

abbrev pub resolve {ℓ} : {A : Type ℓ} → Option A → Option (Option A) → Option (Option A)
resolve none outer = outer
resolve (some v) outer = some (some v)

pub get_elem?-lt {ℓ} :
    {A : Type ℓ} (xs : List A) (i : ℕ) → i < length xs → (x : A) × (get_elem? xs i ≡ some x)
get_elem?-lt [] i h = absurd (omega arith)
get_elem?-lt (x ∷ xs) zero h = (x, refl)
get_elem?-lt (x ∷ xs) (suc i) h = get_elem?-lt xs i (omega arith)

module _ {ℓ} {A : Type ℓ} where
  pub lookup-suc :
      (f e : ℕ) (name : Bytes) (envs : Store A) (env : Env A)
      → get_elem? envs e ≡ some env
      → env_lookup (suc f) (some e) name envs
        ≡ resolve (find env.entries name) (env_lookup f env.parent name envs)
  unfolding env_lookup
  lookup-suc f e name envs env h = elim (Option-cases (find env.entries name)) [
    | inl q ↦ rw (env_lookup, h, q) refl
    | inr (v, q) ↦ rw (env_lookup, h, q) refl
  ]

  pub lookup-none :
      (f : ℕ) (name : Bytes) (envs : Store A) → env_lookup f none name envs ≡ some none
  unfolding env_lookup
  lookup-none zero name envs = refl
  lookup-none (suc f) name envs = refl

  -- Two stores that agree below `b` agree on every lookup from there.
  pub lookup-agree :
      (f : ℕ) (envs envs' : Store A) (p : Option ℕ) (b : ℕ) (name : Bytes)
      → Scoped envs
      → Older p b
      → b ≤ length envs
      → ((i : ℕ) → i < b → get_elem? envs' i ≡ get_elem? envs i)
      → env_lookup f p name envs' ≡ env_lookup f p name envs
  lookup-agree f envs envs' none b name s o le same =
      lookup-none f name envs' ∙ sym (lookup-none f name envs)
  lookup-agree zero envs envs' (some e) b name s o le same = unfold env_lookup in refl
  lookup-agree (suc f) envs envs' (some e) b name s o le same =
      let (env, h) = get_elem?-lt envs e (omega arith) in
      let outer =
        lookup-agree f envs envs' env.parent e name s (s.parents e env h) (omega arith)
          (λ i lt. same i (omega arith)) in
      lookup-suc f e name envs' env (same e o ∙ h)
      ∙ (ap (resolve (find env.entries name)) outer ∙ sym (lookup-suc f e name envs env h))

  pub lookup-total :
      (f b : ℕ) (envs : Store A) (p : Option ℕ) (name : Bytes)
      → Scoped envs
      → Older p b
      → b ≤ length envs
      → b ≤ f
      → (r : Option A) × (env_lookup f p name envs ≡ some r)
  lookup-total f b envs none name s o le lt = (none, lookup-none f name envs)
  lookup-total zero b envs (some e) name s o le lt = absurd (omega arith)
  lookup-total (suc f) b envs (some e) name s o le lt =
      let (env, h) = get_elem?-lt envs e (omega arith) in
      let (r, q) =
        lookup-total f e envs env.parent name s (s.parents e env h) (omega arith) (omega arith) in
      let t = lookup-suc f e name envs env h in
      elim (Option-cases (find env.entries name)) [
        | inl n ↦ (r, t ∙ rw (n, q) refl)
        | inr (v, n) ↦ (some v, t ∙ rw n refl)
      ]
