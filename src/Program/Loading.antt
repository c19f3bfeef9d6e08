-- ===== src/Program/Loading.antt =====
-- src/eval.c: which paths an import loads, and that it ends, also when modules import one another in circles.
use sqale.Prelude.{
  ℕ, zero, suc, ◌≤◌, ◌<◌, ◌≡◌, refl, true, false, Option, some, List, [], ◌∷◌, length, Bytes, arith,
  inl, inr, Option-cases,
}
use sqale.Program.Imports.{Files, already_imported, resolve, each, import_resolve_and_load}
use sqale.Program.Candidates.{resolve-IsNew}
use sqale.Program.Unloaded.{unloaded, unloaded_le, unloaded-cons_le, unloaded-cons_lt}

-- From the files that were loaded first to those that were loaded in the end: each one was there, and not loaded
-- before.
pub data Loaded (files : Files) : List Bytes → List Bytes → Type 0 where
  same : {imported : List Bytes} → Loaded files imported imported
  more :
      {imported imported' : List Bytes} {path : Bytes}
      → already_imported imported path ≡ false
      → files.file_exists path ≡ true
      → Loaded files (path ∷ imported) imported'
      → Loaded files imported imported'

Loaded-trans :
    {files : Files} {a b c : List Bytes} → Loaded files a b → Loaded files b c → Loaded files a c
Loaded-trans Loaded.same k = k
Loaded-trans (Loaded.more new there h) k = Loaded.more new there (Loaded-trans h k)

-- what an import, or a sequence of them, ends with
abbrev Ends : Files → List Bytes → Option (List Bytes) → Type 0
Ends files imported r = (after : List Bytes) × (r ≡ some after) × Loaded files imported after

module _ (files : Files) (disk : List Bytes)
    (on_disk : (path : Bytes) → files.file_exists path ≡ true → already_imported disk path ≡ true)
    (asks : Bytes → List Bytes) where
  Loaded-le : {a b : List Bytes} → Loaded files a b → unloaded disk b ≤ unloaded disk a
  Loaded-le Loaded.same = omega arith
  Loaded-le (Loaded.more {imported} {path} new there h) =
      let ih = Loaded-le h in let le = unloaded-cons_le imported path disk in omega arith

  each-Ends :
      (f : ℕ) (load : List Bytes → Bytes → Option (List Bytes))
      → ((imported : List Bytes) (name : Bytes)
          → unloaded disk imported < f
          → Ends files imported (load imported name))
      → (names imported : List Bytes) → unloaded disk imported < f
      → Ends files imported (each load imported names)
  unfolding each
  each-Ends f load h [] imported lt = (imported, refl, Loaded.same)
  each-Ends f load h (name ∷ names) imported lt =
      let (next, e, l) = h imported name lt in
      let le = Loaded-le l in
      let (after, e', l') = each-Ends f load h names next (omega arith) in
      (after, rw e e', Loaded-trans l l')

  import-Ends :
      (f : ℕ) (imported : List Bytes) (name : Bytes)
      → unloaded disk imported < f
      → Ends files imported (import_resolve_and_load f files asks imported name)
  unfolding import_resolve_and_load
  import-Ends zero imported name lt = absurd (omega arith)
  import-Ends (suc f) imported name lt = elim (Option-cases (resolve files imported name)) [
    | inl h ↦ (imported, rw (import_resolve_and_load, h) refl, Loaded.same)
    | inr (path, h) ↦
        let (new, there) = resolve-IsNew files imported name path h in
        let less = unloaded-cons_lt imported path disk new (on_disk path there) in
        let (after, e, l) =
          each-Ends f (import_resolve_and_load f files asks) (import-Ends f) (asks path)
            (path ∷ imported) (omega arith) in
        (after, rw (import_resolve_and_load, h) e, Loaded.more new there l)
  ]

  -- Where every path at which there is a file is one of `disk`, an import ends, whatever the files ask for, in
  -- circles too: modules nest at most as deep as there are paths. At each path that was loaded there was a file,
  -- and no path was loaded twice.
  pub import_ends :
      (f : ℕ) (imported : List Bytes) (name : Bytes)
      → length disk < f
      → (after : List Bytes) × (import_resolve_and_load f files asks imported name ≡ some after)
        × Loaded files imported after
  import_ends f imported name lt =
      let le = unloaded_le disk imported in import-Ends f imported name (omega arith)
