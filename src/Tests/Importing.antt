-- ===== src/Tests/Importing.antt =====
-- Imports at work.
use sqale.Prelude.{◌≡◌, refl, some, List, [], ◌∷◌, Bytes, bytes_eq, codes, arith, if◌then◌else◌}
use sqale.Program.Imports.{Files, already_imported, replace_char, strtok, import_resolve_and_load}
use sqale.Program.Loading.{Loaded, import_ends}

-- two modules that import one another, and a third in a directory of SQALE_PATH
abbrev disk : List Bytes
disk = codes "./a.sq" ∷ codes "std/a.sq" ∷ codes "lib/c.sq" ∷ []

abbrev files : Files
files = record { file_exists = already_imported disk; sqale_path = some (codes "x::lib") }

-- ./a.sq asks for itself and for c, which asks for a
abbrev asks : Bytes → List Bytes
asks path = if bytes_eq path (codes "./a.sq") then codes "a" ∷ codes "c" ∷ [] else codes "a" ∷ []

import_ends_example :
    (after : List Bytes) × (import_resolve_and_load 4 files asks [] (codes "a") ≡ some after)
    × Loaded files [] after
import_ends_example = import_ends files disk (λ path h. h) asks 4 [] (codes "a") (omega arith)

-- The second import of a loads another file than the first.
loads_both :
    import_resolve_and_load 4 files asks [] (codes "a")
    ≡ some (codes "lib/c.sq" ∷ codes "std/a.sq" ∷ codes "./a.sq" ∷ [])
unfolding import_resolve_and_load already_imported replace_char strtok
loads_both = refl
