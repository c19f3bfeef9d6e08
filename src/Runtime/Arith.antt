-- ===== src/Runtime/Arith.antt =====
-- src/runtime.c: arithmetic. `/` and `%` of C round towards zero.
use sqale.Prelude.{
  ℕ, zero, suc, ◌/◌, ◌%◌, Bool, false, Option, none, some, List, [], ◌∷◌, if◌then◌else◌, ◌==◌,
}
use sqale.Prelude.Int.{ℤ, pos, negsuc, ◌+ℤ◌, ◌-ℤ◌, ◌*ℤ◌, ltb_ℤ}
use sqale.Runtime.{Value, FloatOps, checked, int, float, unit}

-- -n
abbrev pub neg_ℕ : ℕ → ℤ
neg_ℕ zero = pos 0
neg_ℕ (suc n) = negsuc n

-- `a / b` and `a % b` for b not 0
unfoldable pub quot : ℤ → ℤ → ℤ
quot (pos a) (pos b) = pos (a / b)
quot (pos a) (negsuc b) = neg_ℕ (a / suc b)
quot (negsuc a) (pos b) = neg_ℕ (suc a / b)
quot (negsuc a) (negsuc b) = pos (suc a / suc b)

unfoldable pub rem : ℤ → ℤ → ℤ
rem (pos a) (pos b) = pos (a % b)
rem (pos a) (negsuc b) = pos (a % suc b)
rem (negsuc a) (pos b) = neg_ℕ (suc a % b)
rem (negsuc a) (negsuc b) = neg_ℕ (suc a % suc b)

abbrev pub is_zero : ℤ → Bool
is_zero (pos n) = n == 0
is_zero (negsuc n) = false

module _ (fl : FloatOps) where
  unfoldable pub rt_add : List Value → Option Value
  rt_add (int a ∷ int b ∷ []) = checked (a +ℤ b)
  rt_add (float a ∷ float b ∷ []) = some (float (fl.add a b))
  rt_add _ = some unit

  unfoldable pub rt_sub : List Value → Option Value
  rt_sub (int a ∷ int b ∷ []) = checked (a -ℤ b)
  rt_sub (float a ∷ float b ∷ []) = some (float (fl.sub a b))
  rt_sub _ = some unit

  unfoldable pub rt_mul : List Value → Option Value
  rt_mul (int a ∷ int b ∷ []) = checked (a *ℤ b)
  rt_mul (float a ∷ float b ∷ []) = some (float (fl.mul a b))
  rt_mul _ = some unit

  -- There is no test for a zero divisor.
  unfoldable pub rt_div : List Value → Option Value
  unfolding quot
  rt_div (int a ∷ int b ∷ []) = if is_zero b then none else checked (quot a b)
  rt_div (float a ∷ float b ∷ []) = some (float (fl.div a b))
  rt_div _ = some unit

  unfoldable pub rt_neg : List Value → Option Value
  rt_neg (int a ∷ []) = checked (pos 0 -ℤ a)
  rt_neg (float a ∷ []) = some (float (fl.neg a))
  rt_neg _ = some (int (pos 0))

  unfoldable pub rt_min : List Value → Option Value
  rt_min (int a ∷ int b ∷ []) = some (int (if ltb_ℤ a b then a else b))
  rt_min (float a ∷ float b ∷ []) = some (float (if fl.lt a b then a else b))
  rt_min _ = some (int (pos 0))

  unfoldable pub rt_max : List Value → Option Value
  rt_max (int a ∷ int b ∷ []) = some (int (if ltb_ℤ b a then a else b))
  rt_max (float a ∷ float b ∷ []) = some (float (if fl.lt b a then a else b))
  rt_max _ = some (int (pos 0))

-- INT64_MIN % -1 overflows as the quotient does.
unfoldable pub rt_mod : List Value → Option Value
unfolding rem quot
rt_mod (int a ∷ int b ∷ []) =
    if is_zero b
    then some (int (pos 0))
    else elim (checked (quot a b)) [ none ↦ none | some q ↦ some (int (rem a b)) ]
rt_mod _ = some (int (pos 0))
