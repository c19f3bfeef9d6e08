-- ===== src/Env/Scoping.antt =====
-- src/env.c: which binding a lookup finds.
use native.Mathlib.Decide.{ℕ_discrete}
use sqale.Prelude.{
  get_elem?-append, get_elem?-last, get_elem?-beyond, ℕ, suc, ◌≤◌, ◌<◌, ◌≡◌, refl, ap, ◌∙◌, sym,
  true, false, ◌&&◌, ◌==◌, Option, some, [], ◌∷◌, ◌++◌, arith, Bytes, bytes_eq, if◌then◌else◌,
  length, get_elem?, set, get_elem?-set_self, get_elem?-set_ne, length-append, Bool-cases,
  Option-cases, inl, inr, ltb, subst,
}
use sqale.Env.{Env, Store, env_new, env_set, find, env_lookup}
use sqale.Env.Chains.{Older, Scoped, resolve, get_elem?-lt, lookup-suc, lookup-agree, lookup-total}

module _ {ℓ} {A : Type ℓ} where
  set-Scoped :
      (envs : Store A) (e : ℕ) (name : Bytes) (v : A) → Scoped envs → Scoped (env_set e name v envs)
  unfolding env_set
  set-Scoped envs e name v s = elim (Option-cases (get_elem? envs e)) [
    | inl h ↦ rw (env_set, h) s
    | inr (env, h) ↦
        let env' : Env A = record env {
          entries = record { name = name; value = v } ∷ env.entries;
        } in
        rw (env_set, h)
          (record {
            parents = λ i env₁ q. elim (ℕ_discrete e i) [
              | yes t ↦
                  let lt : e < length envs = elim (Bool-cases (ltb e (length envs))) [
                    | inl l ↦ ground arith
                    | inr l ↦ absurd (cc (get_elem?-beyond envs e (ground arith), h))
                  ] in
                  let w : some env' ≡ some env₁ =
                    sym (get_elem?-set_self envs e env' lt)
                    ∙ (ap (get_elem? (set envs e env')) t ∙ q) in
                  let same : env.parent ≡ env₁.parent = cc in
                  subst (λ p. Older p i) same (subst (Older env.parent) t (s.parents e env h))
              | no ne ↦ s.parents i env₁ (sym (get_elem?-set_ne envs env' ne) ∙ q)
            ];
          })
  ]

  pub set-found :
      (envs : Store A) (e : ℕ) (name : Bytes) (v : A) (env : Env A)
      → get_elem? envs e ≡ some env
      → env_set e name v envs
        ≡ set envs e (record env { entries = record { name = name; value = v } ∷ env.entries })
  unfolding env_set
  set-found envs e name v env h = rw (env_set, h) refl

  set-here :
      (f : ℕ) (envs : Store A) (e : ℕ) (name name' : Bytes) (v : A)
      → Scoped envs
      → e < length envs
      → env_lookup (suc f) (some e) name' (env_set e name v envs)
        ≡ (if bytes_eq name name' then some (some v) else env_lookup (suc f) (some e) name' envs)
  unfolding find
  set-here f envs e name name' v s lt =
      let (env, h) = get_elem?-lt envs e lt in
      let env' : Env A = record env { entries = record { name = name; value = v } ∷ env.entries } in
      let t = lookup-suc f e name' (set envs e env') env' (get_elem?-set_self envs e env' lt) in
      let outer =
        lookup-agree f envs (set envs e env') env.parent e name' s (s.parents e env h) (omega arith)
          (λ i le. get_elem?-set_ne envs env' (λ q. absurd (omega arith))) in
      ap (env_lookup (suc f) (some e) name') (set-found envs e name v env h)
      ∙ (t ∙ (elim (Bool-cases (bytes_eq name name')) [
        | inl b ↦ rw b refl
        | inr b ↦
            rw (b, lookup-suc f e name' envs env h) (ap (resolve (find env.entries name')) outer)
      ]))

  -- After `env_set` in environment `e`, the name is found in `e` with its new value, over every binding that
  -- was there, and nothing else changes there or in the environments older than `e`, the
  -- parents among them. Parents stay older than their children.
  pub env_set_lem :
      (f : ℕ) (envs : Store A) (e e' : ℕ) (name name' : Bytes) (v : A)
      → Scoped envs
      → e < length envs
      → e' ≤ e
      → Scoped (env_set e name v envs)
        × (env_lookup (suc f) (some e') name' (env_set e name v envs) ≡ (
            if e' == e && bytes_eq name name'
            then some (some v)
            else env_lookup (suc f) (some e') name' envs))
  env_set_lem f envs e e' name name' v s lt le =
      let (env, h) = get_elem?-lt envs e lt in
      let env' : Env A = record env { entries = record { name = name; value = v } ∷ env.entries } in
      (
        set-Scoped envs e name v s,
        elim (ℕ_discrete e' e) [
          | yes q ↦
              let b : (e' == e) ≡ true = ground arith in
              rw (b, q) (set-here f envs e name name' v s lt)
          | no ne ↦
              let b : (e' == e) ≡ false = ground arith in
              rw (b, set-found envs e name v env h)
                (lookup-agree (suc f) envs (set envs e env') (some e') e name' s (omega arith)
                  (omega arith) (λ i l. get_elem?-set_ne envs env' (λ q. absurd (omega arith))))
        ],
      )

  -- A new environment sees what its parent sees, and nothing changes for the older ones. Parents stay
  -- older than their children.
  pub env_new_lem :
      (f : ℕ) (envs : Store A) (parent : Option ℕ) (e : ℕ) (name : Bytes)
      → Scoped envs
      → Older parent (length envs)
      → e < length envs
      → Scoped (env_new parent envs)
        × (env_lookup (suc f) (some (length envs)) name (env_new parent envs)
            ≡ env_lookup f parent name envs)
        × (env_lookup f (some e) name (env_new parent envs) ≡ env_lookup f (some e) name envs)
  unfolding env_new find
  env_new_lem f envs parent e name s o lt =
      let env : Env A = record { entries = []; parent = parent } in
      (
        record {
          parents = λ i env₁ q. elim (Bool-cases (ltb i (length envs))) [
            | inl l ↦ s.parents i env₁ (sym (get_elem?-append envs (env ∷ []) i (ground arith)) ∙ q)
            | inr l ↦ elim (ℕ_discrete i (length envs)) [
              | yes t ↦
                  let w : some env ≡ some env₁ =
                    sym (get_elem?-last envs env)
                    ∙ (ap (get_elem? (envs ++ env ∷ [])) (sym t) ∙ q) in
                  let same : parent ≡ env₁.parent = cc in
                  subst (λ p. Older p i) same (subst (Older parent) (sym t) o)
              | no ne ↦ absurd (
                  cc (
                    q,
                    get_elem?-beyond (envs ++ env ∷ []) i
                        (ground (arith, length-append envs (env ∷ []))),
                  ))
            ]
          ];
        },
        lookup-suc f (length envs) name (envs ++ env ∷ []) env (get_elem?-last envs env)
            ∙ lookup-agree f envs (envs ++ env ∷ []) parent (length envs) name s o (omega arith)
                (λ i l. get_elem?-append envs (env ∷ []) i l),
        lookup-agree f envs (envs ++ env ∷ []) (some e) (length envs) name s lt (omega arith)
            (λ i l. get_elem?-append envs (env ∷ []) i l),
      )

  -- A lookup ends: the chain of parents is no longer than the store.
  pub env_lookup_total :
      (envs : Store A) (e : ℕ) (name : Bytes)
      → Scoped envs
      → e < length envs
      → (r : Option A) × (env_lookup (length envs) (some e) name envs ≡ some r)
  env_lookup_total envs e name s lt =
      lookup-total (length envs) (length envs) envs (some e) name s lt (omega arith) (omega arith)
