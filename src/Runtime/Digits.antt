-- ===== src/Runtime/Digits.antt =====
-- src/runtime.c: an integer that is written as text is read back.
use sqale.Prelude.{
  ℕ, zero, suc, ◌+◌, ◌*◌, ◌/◌, ◌%◌, ◌≤◌, ◌<◌, ◌^◌, ◌≡◌, refl, ap, ◌∙◌, true, false, Option, none,
  some, [], ◌∷◌, Bytes, ltb, ◌==◌, take, length, c_string, arith, Bool-cases, inl, inr, ltb→lt,
}
use sqale.Prelude.Int.{ℤ, pos, negsuc}
use sqale.Prelude.Decimal.{digits, decimal, decimal_int}
use sqale.Runtime.{Value, int, fits}
use sqale.Runtime.Numbers.{
  is_digit, is_space, skip_space, digits_value, signed_value, atoll, rt_str_to_int, rt_int_to_str,
}

-- all bytes are digits
AllDigits : Bytes → Type 0
AllDigits [] = Unit {0}
AllDigits (c ∷ cs) = (48 ≤ c) × (c < 58) × AllDigits cs

digits-AllDigits : (f n : ℕ) (acc : Bytes) → AllDigits acc → AllDigits (digits f n acc)
unfolding digits AllDigits
digits-AllDigits zero n acc h = h
digits-AllDigits (suc f) n acc h = elim (Bool-cases (ltb n 10)) [
  | inl e ↦ rw e (omega arith, ground (arith, e), h)
  | inr e ↦ rw e (digits-AllDigits f (n / 10) ((48 + n % 10) ∷ acc) (omega arith, omega arith, h))
]

is_digit-true : (d : ℕ) → d < 10 → is_digit (48 + d) ≡ true
is_digit-true d h = ground arith

-- The digits of a number are read as the number, and reading goes on behind them.
digits_value-digits :
    (f n : ℕ) (acc : Bytes) → n < f → digits_value 0 (digits f n acc) ≡ digits_value n acc
unfolding digits digits_value
digits_value-digits zero n acc h = absurd (omega arith)
digits_value-digits (suc f) n acc h = elim (Bool-cases (ltb n 10)) [
  | inl e ↦ rw (e, is_digit-true n (ltb→lt n 10 e)) (ap (λ m. digits_value m acc) (omega arith))
  | inr e ↦ rw e (
      digits_value-digits f (n / 10) ((48 + n % 10) ∷ acc) (ground (arith, e))
      ∙ rw (is_digit-true (n % 10) (omega arith)) (ap (λ m. digits_value m acc) (omega arith)))
]

pow10 : ℕ → ℕ
pow10 zero = 1
pow10 (suc k) = 10 * pow10 k

digits-length :
    (k f n : ℕ) (acc : Bytes)
    → n < pow10 (suc k)
    → n < f
    → length (digits f n acc) ≤ suc k + length acc
unfolding digits pow10
digits-length k zero n acc h l = absurd (omega arith)
digits-length zero (suc f) n acc h l =
    let e : ltb n 10 ≡ true = ground (arith, h) in rw e (omega arith)
digits-length (suc k) (suc f) n acc h l = elim (Bool-cases (ltb n 10)) [
  | inl e ↦ rw e (omega arith)
  | inr e ↦ rw e (
      omega (
        arith,
        digits-length k f (n / 10) ((48 + n % 10) ∷ acc) (omega (arith, h)) (ground (arith, e)),
      ))
]

-- Digits are taken as they are: there is no zero byte among them.
copy-digits : (m : ℕ) (s : Bytes) → AllDigits s → length s ≤ m → c_string (take m s) ≡ s
unfolding AllDigits
copy-digits zero [] h l = refl
copy-digits (suc m) [] h l = refl
copy-digits zero (c ∷ s) h l = absurd (omega arith)
copy-digits (suc m) (c ∷ s) h l =
    let e : (c == 0) ≡ false = ground (arith, h.0) in
    rw e (ap (λ t. c ∷ t) (copy-digits m s h.2 (omega arith)))

plain_value : (s : Bytes) → AllDigits s → signed_value (skip_space s) ≡ pos (digits_value 0 s)
unfolding AllDigits skip_space signed_value
plain_value [] h = refl
plain_value (c ∷ s) h =
    let space : is_space c ≡ false = ground (arith, h.0, h.1) in
    let minus : (c == 45) ≡ false = ground (arith, h.0) in
    let plus : (c == 43) ≡ false = ground (arith, h.0) in rw (space, signed_value, minus, plus) refl

-- what is read of the digits of a number below 2 ^ 63, or of that number itself
decimal_lem :
    (n : ℕ)
    → n ≤ 2 ^ 63
    → AllDigits (decimal n) × (digits_value 0 (decimal n) ≡ n) × (length (decimal n) ≤ 19)
unfolding decimal AllDigits digits_value pow10
decimal_lem n h = (
  digits-AllDigits (suc n) n [] tt,
  digits_value-digits (suc n) n [] (omega arith),
  digits-length 18 (suc n) n [] (omega (arith, h)) (omega arith),
)

abbrev pub written : Option Value → Option Value
written none = none
written (some v) = rt_str_to_int (v ∷ [])

-- An integer in the range of `int64_t` that is written as text is read back as itself.
pub rt_str_to_int-rt_int_to_str :
    (z : ℤ) → fits z ≡ true → written (rt_int_to_str (int z ∷ [])) ≡ some (int z)
unfolding rt_int_to_str rt_str_to_int atoll decimal_int
rt_str_to_int-rt_int_to_str (pos n) h =
    let (all, value, short) = decimal_lem n (ground (arith, h)) in
    rw
      (copy-digits 63 (decimal n) all (omega (arith, short)), plain_value (decimal n) all, value, h)
      refl
rt_str_to_int-rt_int_to_str (negsuc n) h =
    let (all, value, short) = decimal_lem (suc n) (ground (arith, h)) in
    rw (copy-digits 62 (decimal (suc n)) all (omega (arith, short)), value, h) refl
