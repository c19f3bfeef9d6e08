-- ===== src/Program/Imports.antt =====
-- src/eval.c: `vm_import_resolve_and_load`, which looks for a module in files and loads the first one that is
-- there and was not loaded before.
-- The files that are there, the variable SQALE_PATH, and what a file asks for while it is loaded are
-- parameters. The last is a list of the names that it imports, in order and with repetitions: those of the checks
-- and those of the evaluation, which asks for each name at the top level once more. The paths that were
-- loaded are `vm->imported`, and they are compared as strings: two paths of one file are two. What the function returns is left out, since no call of it looks.
use sqale.Prelude.{
  ℕ, zero, suc, Bool, true, false, ◌&&◌, ◌||◌, not, ◌==◌, Option, none, some, ◌>>=◌, List, [], ◌∷◌,
  ◌++◌, Bytes, bytes_eq, codes, strstr, take, if◌then◌else◌,
}

-- the environment of the process: the files that `fopen` finds, and `getenv("SQALE_PATH")`
pub record Files : Type 0 where
  pub file_exists : Bytes → Bool
  pub sqale_path : Option Bytes

unfoldable pub replace_char : ℕ → ℕ → Bytes → Bytes
replace_char a b [] = []
replace_char a b (c ∷ cs) = (if c == a then b else c) ∷ replace_char a b cs

unfoldable pub already_imported : List Bytes → Bytes → Bool
already_imported [] path = false
already_imported (p ∷ imported) path =
    let more = already_imported imported path in if bytes_eq p path then true else more

-- dots become slashes
abbrev pub module_path : Bytes → Bytes
module_path name = replace_char b'.' b'/' (take 511 name)

-- `snprintf(candidate, 1024, ...)`
abbrev pub candidate : Bytes → Bytes
candidate text = take 1023 text

abbrev pub bases : List Bytes
bases =
    codes "./"
    ∷ codes "packages/"
    ∷ codes "std/"
    ∷ codes "sqale/packages/"
    ∷ codes "sqale/std/"
    ∷ []

-- the bytes before the first `:`, put in front of the tokens behind it
abbrev pub token : Bytes → List Bytes → List Bytes
token [] tokens = tokens
token word tokens = word ∷ tokens

-- `strtok(buf, ":")`: the parts between colons, less the empty ones. `word` is the part so far.
unfoldable pub strtok : Bytes → Bytes → List Bytes
strtok word [] = token word []
strtok word (c ∷ cs) =
    let here = token word (strtok [] cs) in
    let more = strtok (word ++ c ∷ []) cs in if c == b':' then here else more

abbrev pub new_file : Files → List Bytes → Bytes → Bool
new_file files imported path = not (already_imported imported path) && files.file_exists path

-- the name itself, if it is a path
unfoldable pub resolve_direct : Files → List Bytes → Bytes → Option Bytes
resolve_direct files imported name =
    if (strstr name (codes "/") || strstr name (codes ".sq"))
      && new_file files imported (candidate name)
    then some (candidate name)
    else none

-- the loop over the directories that are built in
unfoldable pub resolve_bases : Files → List Bytes → Bytes → List Bytes → Option Bytes
resolve_bases files imported mod_ [] = none
resolve_bases files imported mod_ (base ∷ more) =
    let rest = resolve_bases files imported mod_ more in
    let path = candidate (base ++ (mod_ ++ codes ".sq")) in
    if new_file files imported path then some path else rest

-- the loop over the directories of SQALE_PATH
unfoldable pub resolve_dirs : Files → List Bytes → Bytes → List Bytes → Option Bytes
resolve_dirs files imported mod_ [] = none
resolve_dirs files imported mod_ (dir ∷ more) =
    let rest = resolve_dirs files imported mod_ more in
    let path = candidate (dir ++ (codes "/" ++ (mod_ ++ codes ".sq"))) in
    if new_file files imported path then some path else rest

abbrev pub path_dirs : Option Bytes → List Bytes
path_dirs none = []
path_dirs (some text) = strtok [] (take 2047 text)

-- the file that is loaded, if there is one
unfoldable pub resolve : Files → List Bytes → Bytes → Option Bytes
unfolding resolve_direct resolve_bases resolve_dirs
resolve files imported name = elim (resolve_direct files imported name) [
  | some path ↦ some path
  | none ↦ elim (resolve_bases files imported (module_path name) bases) [
    | some path ↦ some path
    | none ↦ resolve_dirs files imported (module_path name) (path_dirs files.sqale_path)
  ]
]

unfoldable pub each :
    (List Bytes → Bytes → Option (List Bytes)) → List Bytes → List Bytes → Option (List Bytes)
each load imported [] = some imported
each load imported (name ∷ names) = do imported' ← load imported name; each load imported' names

-- The file is marked before it is loaded. The fuel bounds how deep modules import one another.
unfoldable pub import_resolve_and_load :
    ℕ → Files → (Bytes → List Bytes) → List Bytes → Bytes → Option (List Bytes)
unfolding resolve each
import_resolve_and_load zero files asks imported name = none
import_resolve_and_load (suc f) files asks imported name = elim (resolve files imported name) [
  | none ↦ some imported
  | some path ↦ each (import_resolve_and_load f files asks) (path ∷ imported) (asks path)
]
