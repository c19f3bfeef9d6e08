-- ===== src/Runtime/Bits.antt =====
-- src/runtime.c: the library functions on the bits of an `int64_t`, in two's complement.
use sqale.Prelude.{
  ℕ, zero, suc, ◌+◌, ◌-◌, ◌*◌, ◌/◌, ◌%◌, ◌^◌, Option, none, some, List, [], ◌∷◌, ltb, if◌then◌else◌,
  max,
}
use sqale.Prelude.Int.{ℤ, pos, negsuc}
use sqale.Ast.{Double}
use sqale.Runtime.{Value, int, float, checked}

-- the 64 bits of an `int64_t`, and back
unfoldable pub to_word : ℤ → ℕ
to_word (pos n) = n
to_word (negsuc n) = 2 ^ 64 - 1 - n

unfoldable pub of_word : ℕ → ℤ
of_word w = if ltb w (2 ^ 63) then pos w else negsuc (2 ^ 64 - 1 - w)

-- an operation on each of the lowest `n` bits
unfoldable pub bitwise : (ℕ → ℕ → ℕ) → ℕ → ℕ → ℕ → ℕ
bitwise op zero a b = 0
bitwise op (suc n) a b = op (a % 2) (b % 2) + 2 * bitwise op n (a / 2) (b / 2)

abbrev pub and_bit : ℕ → ℕ → ℕ
and_bit a b = a * b

abbrev pub or_bit : ℕ → ℕ → ℕ
or_bit a b = max a b

abbrev pub xor_bit : ℕ → ℕ → ℕ
xor_bit a b = (a + b) % 2

abbrev on_words : (ℕ → ℕ → ℕ) → ℤ → ℤ → Value
on_words op a b = int (of_word (bitwise op 64 (to_word a) (to_word b)))

unfoldable pub rt_bit_and : List Value → Option Value
unfolding to_word of_word bitwise
rt_bit_and (int a ∷ int b ∷ []) = some (on_words and_bit a b)
rt_bit_and _ = some (int (pos 0))

unfoldable pub rt_bit_or : List Value → Option Value
unfolding to_word of_word bitwise
rt_bit_or (int a ∷ int b ∷ []) = some (on_words or_bit a b)
rt_bit_or _ = some (int (pos 0))

unfoldable pub rt_bit_xor : List Value → Option Value
unfolding to_word of_word bitwise
rt_bit_xor (int a ∷ int b ∷ []) = some (on_words xor_bit a b)
rt_bit_xor _ = some (int (pos 0))

unfoldable pub rt_bit_not : List Value → Option Value
rt_bit_not (int (pos n) ∷ []) = some (int (negsuc n))
rt_bit_not (int (negsuc n) ∷ []) = some (int (pos n))
rt_bit_not _ = some (int (pos 0))

-- A shift by a negative number or by 64 and more is undefined, and so is a left shift of a negative number
-- or out of range.
unfoldable pub rt_shl : List Value → Option Value
rt_shl (int (pos a) ∷ int (pos b) ∷ []) = if ltb b 64 then checked (pos (a * 2 ^ b)) else none
rt_shl (int a ∷ int b ∷ []) = none
rt_shl _ = some (int (pos 0))

-- A right shift rounds down, as compilers for two's complement do.
unfoldable pub rt_shr : List Value → Option Value
rt_shr (int (pos a) ∷ int (pos b) ∷ []) = if ltb b 64 then some (int (pos (a / 2 ^ b))) else none
rt_shr (int (negsuc a) ∷ int (pos b) ∷ []) =
    if ltb b 64 then some (int (negsuc (a / 2 ^ b))) else none
rt_shr (int a ∷ int b ∷ []) = none
rt_shr _ = some (int (pos 0))

-- The absolute value of a `double` is the parameter.
unfoldable pub rt_abs : (Double → Double) → List Value → Option Value
rt_abs fabs (int (pos n) ∷ []) = some (int (pos n))
rt_abs fabs (int (negsuc n) ∷ []) = checked (pos (suc n))
rt_abs fabs (float d ∷ []) = some (float (fabs d))
rt_abs fabs _ = some (int (pos 0))
