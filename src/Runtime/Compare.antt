-- ===== src/Runtime/Compare.antt =====
-- src/runtime.c: `rt_eq` to `rt_ne`, and the logical operators.
use sqale.Prelude.{
  Bool, true, false, not, ◌&&◌, ◌||◌, Option, none, some, List, [], ◌∷◌, Bytes, bytes_eq,
}
use sqale.Prelude.Int.{ℤ, ltb_ℤ}
use sqale.Runtime.{Value, FloatOps, int, float, bool, str, unit}

abbrev pub eqb_ℤ : ℤ → ℤ → Bool
eqb_ℤ a b = not (ltb_ℤ a b) && not (ltb_ℤ b a)

-- equal lengths and `memcmp`; a NULL string is undefined
abbrev pub same_string : Option Bytes → Option Bytes → Option Bool
same_string (some a) (some b) = some (bytes_eq a b)
same_string _ _ = none

abbrev pub as_bool : Option Bool → Option Value
as_bool none = none
as_bool (some b) = some (bool b)

abbrev pub as_not : Option Bool → Option Value
as_not none = none
as_not (some b) = some (bool (not b))

module _ (fl : FloatOps) where
  unfoldable pub rt_eq : List Value → Option Value
  rt_eq (int a ∷ int b ∷ []) = some (bool (eqb_ℤ a b))
  rt_eq (float a ∷ float b ∷ []) = some (bool (fl.eq a b))
  rt_eq (bool a ∷ bool b ∷ []) = some (bool ((a && b) || (not a && not b)))
  rt_eq (str a ∷ str b ∷ []) = as_bool (same_string a b)
  rt_eq (unit ∷ unit ∷ []) = some (bool true)
  rt_eq _ = some (bool false)

  unfoldable pub rt_ne : List Value → Option Value
  rt_ne (int a ∷ int b ∷ []) = some (bool (not (eqb_ℤ a b)))
  rt_ne (float a ∷ float b ∷ []) = some (bool (fl.ne a b))
  rt_ne (bool a ∷ bool b ∷ []) = some (bool ((a && not b) || (not a && b)))
  rt_ne (str a ∷ str b ∷ []) = as_not (same_string a b)
  rt_ne (unit ∷ unit ∷ []) = some (bool false)
  rt_ne _ = some (bool true)

  unfoldable pub rt_lt : List Value → Option Value
  rt_lt (int a ∷ int b ∷ []) = some (bool (ltb_ℤ a b))
  rt_lt (float a ∷ float b ∷ []) = some (bool (fl.lt a b))
  rt_lt _ = some (bool false)

  -- on floats, `a > b` is `b < a`
  unfoldable pub rt_gt : List Value → Option Value
  rt_gt (int a ∷ int b ∷ []) = some (bool (ltb_ℤ b a))
  rt_gt (float a ∷ float b ∷ []) = some (bool (fl.lt b a))
  rt_gt _ = some (bool false)

  unfoldable pub rt_le : List Value → Option Value
  rt_le (int a ∷ int b ∷ []) = some (bool (not (ltb_ℤ b a)))
  rt_le (float a ∷ float b ∷ []) = some (bool (fl.le a b))
  rt_le _ = some (bool false)

  unfoldable pub rt_ge : List Value → Option Value
  rt_ge (int a ∷ int b ∷ []) = some (bool (not (ltb_ℤ a b)))
  rt_ge (float a ∷ float b ∷ []) = some (bool (fl.le b a))
  rt_ge _ = some (bool false)

unfoldable pub rt_not : List Value → Option Value
rt_not (bool a ∷ []) = some (bool (not a))
rt_not _ = some (bool false)

unfoldable pub rt_and : List Value → Option Value
rt_and (bool a ∷ bool b ∷ []) = some (bool (a && b))
rt_and _ = some (bool false)

unfoldable pub rt_or : List Value → Option Value
rt_or (bool a ∷ bool b ∷ []) = some (bool (a || b))
rt_or _ = some (bool false)
