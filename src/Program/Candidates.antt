-- ===== src/Program/Candidates.antt =====
-- src/eval.c: the file that `vm_import_resolve_and_load` finds.
use sqale.Prelude.{
  ◌≡◌, refl, sym, ◌∙◌, subst, true, false, ◌||◌, Option, none, some, List, [], ◌∷◌, ◌++◌, map,
  Bytes, codes, strstr, arith, inl, inr, Bool-cases, if◌then◌else◌,
}
use sqale.Program.Imports.{
  Files, already_imported, new_file, module_path, candidate, bases, path_dirs, resolve_direct,
  resolve_bases, resolve_dirs, resolve,
}

-- a file that an import may load now
abbrev pub IsNew : Files → List Bytes → Bytes → Type 0
IsNew files imported path =
    (already_imported imported path ≡ false) × (files.file_exists path ≡ true)

-- The paths that an import may stand for, in order.
pub candidates : Files → Bytes → List Bytes
candidates files name =
    (if strstr name (codes "/") || strstr name (codes ".sq") then candidate name ∷ [] else [])
    ++ (map (λ base. candidate (base ++ (module_path name ++ codes ".sq"))) bases
        ++ map (λ dir. candidate (dir ++ (codes "/" ++ (module_path name ++ codes ".sq"))))
            (path_dirs files.sqale_path))

module _ (files : Files) (imported : List Bytes) where
  -- the first new file among the paths
  pub first_new : List Bytes → Option Bytes
  first_new [] = none
  first_new (path ∷ paths) =
      let rest = first_new paths in if new_file files imported path then some path else rest

  new_file-IsNew : (path : Bytes) → new_file files imported path ≡ true → IsNew files imported path
  new_file-IsNew path h = elim (Bool-cases (already_imported imported path)) [
    | inl old ↦ absurd (ground (arith, old, h))
    | inr new ↦ (new, ground (arith, new, h))
  ]

  first_new-IsNew :
      (paths : List Bytes) (path : Bytes) → first_new paths ≡ some path → IsNew files imported path
  unfolding first_new
  first_new-IsNew [] path h = absurd (cc h)
  first_new-IsNew (p ∷ paths) path h = elim (Bool-cases (new_file files imported p)) [
    | inl t ↦
        let q : first_new (p ∷ paths) ≡ some p = rw t refl in
        let e : p ≡ path = cc (q, h) in subst (IsNew files imported) e (new_file-IsNew p t)
    | inr f ↦
        let q : first_new (p ∷ paths) ≡ first_new paths = rw f refl in
        first_new-IsNew paths path (sym q ∙ h)
  ]

  first_new-append :
      (xs ys : List Bytes)
      → first_new (xs ++ ys) ≡ (elim (first_new xs) [ some p ↦ some p | none ↦ first_new ys ])
  unfolding first_new
  first_new-append [] ys = refl
  first_new-append (x ∷ xs) ys = elim (Bool-cases (new_file files imported x)) [
    | inl h ↦ rw h refl
    | inr h ↦ rw h (first_new-append xs ys)
  ]

  bases_lem :
      (mod_ : Bytes) (dirs : List Bytes)
      → resolve_bases files imported mod_ dirs
        ≡ first_new (map (λ base. candidate (base ++ (mod_ ++ codes ".sq"))) dirs)
  unfolding resolve_bases first_new
  bases_lem mod_ [] = refl
  bases_lem mod_ (dir ∷ dirs) = rw (bases_lem mod_ dirs) refl

  dirs_lem :
      (mod_ : Bytes) (dirs : List Bytes)
      → resolve_dirs files imported mod_ dirs
        ≡ first_new (map (λ dir. candidate (dir ++ (codes "/" ++ (mod_ ++ codes ".sq")))) dirs)
  unfolding resolve_dirs first_new
  dirs_lem mod_ [] = refl
  dirs_lem mod_ (dir ∷ dirs) = rw (dirs_lem mod_ dirs) refl

  direct_lem :
      (name : Bytes)
      → resolve_direct files imported name
        ≡ first_new (
            if strstr name (codes "/") || strstr name (codes ".sq")
            then candidate name ∷ []
            else [])
  unfolding resolve_direct first_new
  direct_lem name = elim (Bool-cases (strstr name (codes "/") || strstr name (codes ".sq"))) [
    | inl h ↦ rw h refl
    | inr h ↦ rw h refl
  ]

  one_after_other :
      (xs ys zs : List Bytes) (x y z : Option Bytes)
      → x ≡ first_new xs
      → y ≡ first_new ys
      → z ≡ first_new zs
      → (elim x [ some p ↦ some p | none ↦ elim y [ some p ↦ some p | none ↦ z ] ])
        ≡ first_new (xs ++ (ys ++ zs))
  one_after_other xs ys zs none none z hx hy hz =
      rw (first_new-append xs (ys ++ zs), ← hx, first_new-append ys zs, ← hy) hz
  one_after_other xs ys zs none (some p) z hx hy hz =
      rw (first_new-append xs (ys ++ zs), ← hx, first_new-append ys zs, ← hy) refl
  one_after_other xs ys zs (some p) y z hx hy hz = rw (first_new-append xs (ys ++ zs), ← hx) refl

  -- The three searches of an import together find the first of the paths that it may stand for whose
  -- file is there and was not loaded.
  pub resolve-first :
      (name : Bytes) → resolve files imported name ≡ first_new (candidates files name)
  unfolding resolve candidates
  resolve-first name =
      one_after_other _ _ _ _ _ _ (direct_lem name) (bases_lem (module_path name) bases)
        (dirs_lem (module_path name) (path_dirs files.sqale_path))

  pub resolve-IsNew :
      (name path : Bytes) → resolve files imported name ≡ some path → IsNew files imported path
  resolve-IsNew name path h =
      first_new-IsNew (candidates files name) path (sym (resolve-first name) ∙ h)
