-- ===== src/Program/Unloaded.antt =====
-- src/eval.c: how many files are still to be loaded, which every load makes fewer.
use sqale.Prelude.{
  ℕ, suc, ◌+◌, ◌≤◌, ◌<◌, ◌≡◌, refl, sym, ◌∙◌, subst, true, false, List, [], ◌∷◌, length, Bytes,
  bytes_eq, bytes_eq_refl, bytes_eq→eq, arith, inl, inr, Bool-cases, if◌then◌else◌,
}
use sqale.Program.Imports.{already_imported}

-- how many of the files on the disk are still to be loaded
pub unloaded : List Bytes → List Bytes → ℕ
unloaded [] imported = 0
unloaded (d ∷ disk) imported =
    (if already_imported imported d then 0 else 1) + unloaded disk imported

unloaded_nil : (imported : List Bytes) → unloaded [] imported ≡ 0
unfolding unloaded
unloaded_nil imported = refl

unloaded-old :
    (disk imported : List Bytes) (d : Bytes)
    → already_imported imported d ≡ true
    → unloaded (d ∷ disk) imported ≡ unloaded disk imported
unfolding unloaded
unloaded-old disk imported d h = rw h (omega arith)

unloaded-new :
    (disk imported : List Bytes) (d : Bytes)
    → already_imported imported d ≡ false
    → unloaded (d ∷ disk) imported ≡ suc (unloaded disk imported)
unfolding unloaded
unloaded-new disk imported d h = rw h (omega arith)

-- one file counts for at most one
unloaded-step :
    (disk imported : List Bytes) (d : Bytes)
    → (unloaded disk imported ≤ unloaded (d ∷ disk) imported)
      × (unloaded (d ∷ disk) imported ≤ suc (unloaded disk imported))
unloaded-step disk imported d = elim (Bool-cases (already_imported imported d)) [
  | inl h ↦ let e = unloaded-old disk imported d h in (omega arith, omega arith)
  | inr h ↦ let e = unloaded-new disk imported d h in (omega arith, omega arith)
]

pub unloaded_le : (disk imported : List Bytes) → unloaded disk imported ≤ length disk
unloaded_le [] imported = let e : unloaded [] imported ≡ 0 = unloaded_nil imported in omega arith
unloaded_le (d ∷ disk) imported =
    let ih = unloaded_le disk imported in let s = (unloaded-step disk imported d).1 in omega arith

module _ (imported : List Bytes) (p : Bytes) where
  already-cons :
      (d : Bytes) → already_imported imported d ≡ true → already_imported (p ∷ imported) d ≡ true
  unfolding already_imported
  already-cons d h = elim (Bool-cases (bytes_eq p d)) [ inl t ↦ rw t refl | inr f ↦ rw f h ]

  already_self : already_imported (p ∷ imported) p ≡ true
  unfolding already_imported
  already_self = rw (bytes_eq_refl p) refl

  pub unloaded-cons_le : (disk : List Bytes) → unloaded disk (p ∷ imported) ≤ unloaded disk imported
  unloaded-cons_le [] =
      let a = unloaded_nil imported in let b = unloaded_nil (p ∷ imported) in omega arith
  unloaded-cons_le (d ∷ disk) =
      let ih = unloaded-cons_le disk in
      elim (Bool-cases (already_imported imported d)) [
        | inl h ↦
            let a = unloaded-old disk imported d h in
            let b = unloaded-old disk (p ∷ imported) d (already-cons d h) in omega arith
        | inr h ↦
            let a = unloaded-new disk imported d h in
            let b = (unloaded-step disk (p ∷ imported) d).1 in omega arith
      ]

  pub unloaded-cons_lt :
      (disk : List Bytes)
      → already_imported imported p ≡ false
      → already_imported disk p ≡ true
      → unloaded disk (p ∷ imported) < unloaded disk imported
  unfolding already_imported
  unloaded-cons_lt [] new h = absurd (cc h)
  unloaded-cons_lt (d ∷ disk) new h = elim (Bool-cases (bytes_eq d p)) [
    | inl t ↦
        let e : p ≡ d = sym (bytes_eq→eq d p t) in
        let a =
          unloaded-new disk imported d (subst (λ x. already_imported imported x ≡ false) e new) in
        let b =
          unloaded-old disk (p ∷ imported) d
            (subst (λ x. already_imported (p ∷ imported) x ≡ true) e already_self) in
        let le = unloaded-cons_le disk in omega arith
    | inr f ↦
        let there : already_imported disk p ≡ true = sym (rw f refl) ∙ h in
        let ih = unloaded-cons_lt disk new there in
        elim (Bool-cases (already_imported imported d)) [
          | inl k ↦
              let a = unloaded-old disk imported d k in
              let b = unloaded-old disk (p ∷ imported) d (already-cons d k) in omega arith
          | inr k ↦
              let a = unloaded-new disk imported d k in
              let b = (unloaded-step disk (p ∷ imported) d).1 in omega arith
        ]
  ]
