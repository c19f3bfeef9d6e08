-- ===== src/Runtime/Numbers.antt =====
-- src/runtime.c: conversions between numbers and text. `atoll` and `%lld` of the C library are written
-- out; `atof` and `%g` are parameters. A number that `atoll` cannot represent is undefined, `none`.
use sqale.Prelude.{
  ℕ, ◌+◌, ◌*◌, ◌-◌, Bool, ◌&&◌, ◌||◌, Option, none, some, List, [], ◌∷◌, Bytes, leb, ◌==◌,
  if◌then◌else◌, take, c_string,
}
use sqale.Prelude.Int.{ℤ, pos}
use sqale.Prelude.Decimal.{decimal_int}
use sqale.Ast.{Double}
use sqale.Runtime.{Value, int, float, str, checked}
use sqale.Runtime.Arith.{neg_ℕ}

abbrev pub is_digit : ℕ → Bool
is_digit c = leb 48 c && leb c 57

-- `isspace`
abbrev pub is_space : ℕ → Bool
is_space c = c == 32 || (leb 9 c && leb c 13)

unfoldable pub skip_space : Bytes → Bytes
skip_space [] = []
skip_space (c ∷ cs) = let rest = skip_space cs in if is_space c then rest else c ∷ cs

-- the number that the digits in front write behind `acc`
unfoldable pub digits_value : ℕ → Bytes → ℕ
digits_value acc [] = acc
digits_value acc (c ∷ cs) =
    let rest = digits_value (acc * 10 + (c - 48)) cs in if is_digit c then rest else acc

-- the number behind its sign
unfoldable pub signed_value : Bytes → ℤ
unfolding digits_value
signed_value [] = pos 0
signed_value (c ∷ cs) =
    if c == b'-'
    then neg_ℕ (digits_value 0 cs)
    else if c == b'+'
    then pos (digits_value 0 cs)
    else pos (digits_value 0 (c ∷ cs))

unfoldable pub atoll : Bytes → Option Value
unfolding signed_value skip_space
atoll s = checked (signed_value (skip_space s))

-- The copy in `tmp` has 63 bytes at most, and ends at a zero byte.
abbrev pub tmp_copy : Bytes → Bytes
tmp_copy s = c_string (take 63 s)

unfoldable pub rt_str_to_int : List Value → Option Value
unfolding atoll
rt_str_to_int (str (some s) ∷ []) = atoll (tmp_copy s)
rt_str_to_int (str none ∷ []) = none
rt_str_to_int _ = some (int (pos 0))

unfoldable pub rt_int_to_str : List Value → Option Value
unfolding decimal_int
rt_int_to_str (int i ∷ []) = some (str (some (decimal_int i)))
rt_int_to_str _ = some (str none)

unfoldable pub rt_str_to_float : (Bytes → Double) → List Value → Option Value
rt_str_to_float atof (str (some s) ∷ []) = some (float (atof (tmp_copy s)))
rt_str_to_float atof (str none ∷ []) = none
rt_str_to_float atof _ = some (float 0)

-- the text of `%g` is shorter than the 64 bytes of `buf`
unfoldable pub rt_float_to_str : (Double → Bytes) → List Value → Option Value
rt_float_to_str show (float f ∷ []) = some (str (some (show f)))
rt_float_to_str show _ = some (str none)
