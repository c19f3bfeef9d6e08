-- ===== src/Runtime/Division.antt =====
-- src/runtime.c: quotients and remainders.
use sqale.Prelude.{
  ℕ, zero, suc, ◌+◌, ◌*◌, ◌/◌, ◌%◌, ◌<◌, ◌≡◌, refl, ap, ◌∙◌, true, false, some, [], ◌∷◌, arith,
}
use sqale.Prelude.Int.{ℤ, pos, negsuc, ◌+ℤ◌, ◌*ℤ◌, pos_part, neg_part, sub_ℕ}
use sqale.Runtime.{FloatOps, fits, int}
use sqale.Runtime.Arith.{neg_ℕ, quot, rem, is_zero, rt_div, rt_mod}

abbrev pub abs : ℤ → ℕ
abs z = pos_part z + neg_part z

nat_law : (a b : ℕ) → (a / suc b) * suc b + a % suc b ≡ a
nat_law a b = omega arith

abs-neg_ℕ : (n : ℕ) → abs (neg_ℕ n) ≡ n
abs-neg_ℕ zero = refl
abs-neg_ℕ (suc n) = omega arith

pos_part-neg_ℕ : (n : ℕ) → pos_part (neg_ℕ n) ≡ 0
pos_part-neg_ℕ zero = refl
pos_part-neg_ℕ (suc n) = refl

neg_part-neg_ℕ : (n : ℕ) → neg_part (neg_ℕ n) ≡ n
neg_part-neg_ℕ zero = refl
neg_part-neg_ℕ (suc n) = refl

sub_ℕ-zero : (m : ℕ) → sub_ℕ m 0 ≡ pos m
sub_ℕ-zero m = ground arith

sub_ℕ-neg : (m : ℕ) → sub_ℕ 0 m ≡ neg_ℕ m
sub_ℕ-neg zero = ground arith
sub_ℕ-neg (suc m) = ground arith

sub_ℕ-ap : (m m' n n' : ℕ) → m ≡ m' → n ≡ n' → sub_ℕ m n ≡ sub_ℕ m' n'
sub_ℕ-ap m m' n n' h k = rw (h, k) refl

-- Products and sums of numbers whose signs are known.
pos-mul : (q s : ℕ) → pos q *ℤ pos s ≡ pos (q * s)
unfolding ◌*ℤ◌
pos-mul q s = sub_ℕ-ap _ (q * s) _ 0 (omega arith) (omega arith) ∙ sub_ℕ-zero (q * s)

pos-mul_neg : (q b : ℕ) → neg_ℕ q *ℤ negsuc b ≡ pos (q * suc b)
unfolding ◌*ℤ◌
pos-mul_neg q b =
    sub_ℕ-ap _ (q * suc b) _ 0 (omega (arith, ap (λ n. n * suc b) (neg_part-neg_ℕ q)))
      (omega (arith, ap (λ n. n * suc b) (pos_part-neg_ℕ q)))
    ∙ sub_ℕ-zero (q * suc b)

neg-mul_left : (q s : ℕ) → neg_ℕ q *ℤ pos s ≡ neg_ℕ (q * s)
unfolding ◌*ℤ◌
neg-mul_left q s =
    sub_ℕ-ap _ 0 _ (q * s) (omega (arith, ap (λ n. n * s) (pos_part-neg_ℕ q)))
      (omega (arith, ap (λ n. n * s) (neg_part-neg_ℕ q)))
    ∙ sub_ℕ-neg (q * s)

neg-mul_right : (q b : ℕ) → pos q *ℤ negsuc b ≡ neg_ℕ (q * suc b)
unfolding ◌*ℤ◌
neg-mul_right q b = sub_ℕ-ap _ 0 _ (q * suc b) (omega arith) (omega arith) ∙ sub_ℕ-neg (q * suc b)

pos-add : (m n : ℕ) → pos m +ℤ pos n ≡ pos (m + n)
unfolding ◌+ℤ◌
pos-add m n = sub_ℕ-ap _ (m + n) _ 0 refl (omega arith) ∙ sub_ℕ-zero (m + n)

neg-add : (m n : ℕ) → neg_ℕ m +ℤ neg_ℕ n ≡ neg_ℕ (m + n)
unfolding ◌+ℤ◌
neg-add m n =
    sub_ℕ-ap _ 0 _ (m + n) (omega (arith, pos_part-neg_ℕ m, pos_part-neg_ℕ n))
      (omega (arith, neg_part-neg_ℕ m, neg_part-neg_ℕ n))
    ∙ sub_ℕ-neg (m + n)

quot-rem_law :
    (a b : ℤ) → is_zero b ≡ false → (quot a b *ℤ b +ℤ rem a b ≡ a) × (abs (rem a b) < abs b)
unfolding quot rem
quot-rem_law (pos a) (pos (suc b)) h = (
  rw (pos-mul (a / suc b) (suc b), pos-add (a / suc b * suc b) (a % suc b), nat_law a b) refl,
  omega arith,
)
quot-rem_law (pos a) (pos zero) h = absurd (cc h)
quot-rem_law (pos a) (negsuc b) h = (
  rw (pos-mul_neg (a / suc b) b, pos-add (a / suc b * suc b) (a % suc b), nat_law a b) refl,
  omega arith,
)
quot-rem_law (negsuc a) (pos zero) h = absurd (cc h)
quot-rem_law (negsuc a) (pos (suc b)) h = (
  rw
      (
        neg-mul_left (suc a / suc b) (suc b),
        neg-add (suc a / suc b * suc b) (suc a % suc b),
        nat_law (suc a) b,
      )
      refl,
  omega (arith, abs-neg_ℕ (suc a % suc b)),
)
quot-rem_law (negsuc a) (negsuc b) h = (
  rw
      (
        neg-mul_right (suc a / suc b) b,
        neg-add (suc a / suc b * suc b) (suc a % suc b),
        nat_law (suc a) b,
      )
      refl,
  omega (arith, abs-neg_ℕ (suc a % suc b)),
)

-- zero, or of the sign of `a`
abbrev pub SignOf : ℤ → ℤ → Type 0
SignOf (pos a) r = neg_part r ≡ 0
SignOf (negsuc a) r = pos_part r ≡ 0

rem-SignOf : (a b : ℤ) → SignOf a (rem a b)
unfolding rem
rem-SignOf (pos a) (pos b) = refl
rem-SignOf (pos a) (negsuc b) = refl
rem-SignOf (negsuc a) (pos b) = pos_part-neg_ℕ (suc a % b)
rem-SignOf (negsuc a) (negsuc b) = pos_part-neg_ℕ (suc a % suc b)

-- For a divisor other than zero and a quotient in the range of `int64_t`, `rt_div` and `rt_mod` return q and r with
-- q * b + r = a, where r is smaller than b in absolute value and has the sign of a or is zero.
pub rt_div-rt_mod :
    (fl : FloatOps) (a b : ℤ)
    → is_zero b ≡ false
    → fits (quot a b) ≡ true
    → (q : ℤ) × (r : ℤ) × (rt_div fl (int a ∷ int b ∷ []) ≡ some (int q))
      × (rt_mod (int a ∷ int b ∷ []) ≡ some (int r))
      × (q *ℤ b +ℤ r ≡ a)
      × (abs r < abs b)
      × SignOf a r
unfolding rt_div rt_mod
rt_div-rt_mod fl a b h k =
    let (e, lt) = quot-rem_law a b h in
    (quot a b, rem a b, rw (h, k) refl, rw (h, k) refl, e, lt, rem-SignOf a b)
