-- ===== src/Runtime/Order.antt =====
-- src/runtime.c: how the comparisons fit together.
use sqale.Prelude.{◌≡◌, refl, not, Option, none, some, List, [], ◌∷◌, arith}
use sqale.Prelude.Int.{ℤ}
use sqale.Ast.{Double}
use sqale.Runtime.{Value, FloatOps, int, float, bool, str, unit}
use sqale.Runtime.Compare.{rt_eq, rt_ne, rt_lt, rt_gt, rt_le, rt_ge, rt_not, rt_or}

-- `[not (= ...)]`, when `=` does not fail
abbrev pub negated : Option Value → Option Value
negated none = none
negated (some v) = rt_not (v ∷ [])

-- Whatever the arguments and however many, `rt_ne` answers the opposite of `rt_eq` and fails where it
-- fails, given that `!=` on floats is the opposite of `==`.
pub rt_ne-negated :
    (fl : FloatOps)
    → ((a b : Double) → fl.ne a b ≡ not (fl.eq a b))
    → (args : List Value) → rt_ne fl args ≡ negated (rt_eq fl args)
unfolding rt_ne rt_eq rt_not
rt_ne-negated fl h (int a ∷ int b ∷ []) = refl
rt_ne-negated fl h (float a ∷ float b ∷ []) = rw (h a b) refl
rt_ne-negated fl h (bool a ∷ bool b ∷ []) = ground arith
rt_ne-negated fl h (str (some a) ∷ str (some b) ∷ []) = refl
rt_ne-negated fl h (str none ∷ str b ∷ []) = refl
rt_ne-negated fl h (str (some a) ∷ str none ∷ []) = refl
rt_ne-negated fl h (unit ∷ unit ∷ []) = refl
rt_ne-negated fl h _ = refl

abbrev pub either : Option Value → Option Value → Option Value
either (some v) (some w) = rt_or (v ∷ w ∷ [])
either _ _ = none

-- On two integers the six comparisons are one order: `<=` is `<` or `=`, `>` is `<` the other way round and
-- not `<=`, and `>=` is not `<`.
pub int_order :
    (fl : FloatOps) (a b : ℤ)
    → let args = int a ∷ int b ∷ [] in
      (rt_le fl args ≡ either (rt_lt fl args) (rt_eq fl args))
      × (rt_gt fl args ≡ rt_lt fl (int b ∷ int a ∷ []))
      × (rt_gt fl args ≡ negated (rt_le fl args))
      × (rt_ge fl args ≡ negated (rt_lt fl args))
unfolding rt_eq rt_lt rt_le rt_gt rt_ge rt_or rt_not
int_order fl a b = (ground arith, refl, ground arith, refl)
