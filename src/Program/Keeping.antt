-- ===== src/Program/Keeping.antt =====
-- src/eval.c: the library functions that `vm_new` registers, on machines whose environments are in order.
use sqale.Prelude.{ℕ, zero, suc, Option, List, [], ◌∷◌, Bytes, codes}
use sqale.Eval.Keeping.{KeepsLibrary}
use sqale.Eval.Safe.{defined_Keeps}
use sqale.Eval.Valid.{Keeps, undefined_Keeps}
use sqale.Builtins.{Builtin, Outside, numbers}
use sqale.Machine.{Run, defined}
use sqale.Program.{library}
use sqale.Runtime.{Value, FloatOps}

abbrev pub AllKeep : List Builtin → Type 0
AllKeep [] = Unit
AllKeep (b ∷ bs) = ((e : ℕ) (args : List Value) → Keeps e (b.code args)) × AllKeep bs

pub library-KeepsLibrary :
    (bs : List Builtin) (load : Bytes → Run (Unit {0}))
    → AllKeep bs
    → ((e : ℕ) (name : Bytes) → Keeps e (load name))
    → KeepsLibrary (library bs load)
unfolding library
library-KeepsLibrary bs load keep imports = record { native = at bs keep; import = imports }
  where
    at :
        (cs : List Builtin)
        → AllKeep cs
        → (f e : ℕ) (args : List Value) → Keeps e ((library cs load).native f e args)
    at [] h f e args = undefined_Keeps e
    at (c ∷ cs) (h, hs) zero e args = h e args
    at (c ∷ cs) (h, hs) (suc f) e args = at cs hs f e args

kept : (f : List Value → Option Value) (e : ℕ) (args : List Value) → Keeps e (defined (f args))
kept f e args = defined_Keeps e (f args)

-- the functions on numbers, if printing does
pub numbers-AllKeep :
    (fl : FloatOps) (out : Outside)
    → ((e : ℕ) (args : List Value) → Keeps e (out.native (codes "print") args))
    → AllKeep (numbers fl out)
unfolding numbers
numbers-AllKeep fl out prints = (
  prints,
  (
    kept _,
    (
      kept _,
      (
        kept _,
        (
          kept _,
          (
            kept _,
            (
              kept _,
              (
                kept _,
                (
                  kept _,
                  (
                    kept _,
                    (kept _, (kept _, (kept _, (kept _, (kept _, (kept _, (kept _, tt))))))),
                  ),
                ),
              ),
            ),
          ),
        ),
      ),
    ),
  ),
)
