-- ===== src/Ast/Powers.antt =====
-- src/ast.c: the test `(cnt & (cnt - 1)) == 0`, which finds the powers of two.
use native.Mathlib.Decide.{ℕ_discrete}
use native.Mathlib.Nat.{pow-le-pow_right, pow-succ'}
use sqale.Prelude.{
  ℕ, zero, suc, ◌-◌, ◌*◌, ◌/◌, ◌%◌, ◌^◌, ◌<◌, ◌≡◌, refl, sym, ap, ◌∙◌, subst, arith,
}
use sqale.Runtime.Bits.{bitwise, and_bit}

pow-pos : (j : ℕ) → 0 < 2 ^ j
pow-pos j = pow-le-pow_right {n = 2} (omega arith) {i = 0} {j = j} (omega arith)

and_zero : (n x : ℕ) → bitwise and_bit n 0 x ≡ 0
unfolding bitwise
and_zero zero x = refl
and_zero (suc n) x = rw (and_zero n (x / 2)) (omega arith)

bit_square : (b : ℕ) → b < 2 → b * b ≡ b
bit_square zero h = omega arith
bit_square (suc zero) h = omega arith
bit_square (suc (suc b)) h = absurd (omega arith)

and_self : (n x : ℕ) → x < 2 ^ n → bitwise and_bit n x x ≡ x
unfolding bitwise
and_self zero x h = omega arith
and_self (suc n) x h =
    let q : 2 ^ suc n ≡ 2 * 2 ^ n = pow-succ' 2 n in
    rw (and_self n (x / 2) (omega arith), bit_square (x % 2) (omega arith)) (omega arith)

-- half of an even number, and of an odd one
and_even :
    (n x : ℕ)
    → 0 < x
    → bitwise and_bit (suc n) (2 * x) (2 * x - 1) ≡ 2 * bitwise and_bit n x (x - 1)
unfolding bitwise
and_even n x pos =
    let a : 2 * x % 2 ≡ 0 = omega arith in
    let b : 2 * x / 2 ≡ x = omega arith in
    let c : (2 * x - 1) / 2 ≡ x - 1 = omega arith in rw (a, b, c) (omega arith)

and_odd : (n x : ℕ) → x < 2 ^ n → bitwise and_bit (suc n) (suc (2 * x)) (2 * x) ≡ 2 * x
unfolding bitwise
and_odd n x h =
    let a : 2 * x % 2 ≡ 0 = omega arith in
    let b : suc (2 * x) / 2 ≡ x = omega arith in
    let c : 2 * x / 2 ≡ x = omega arith in rw (a, b, c, and_self n x h) (omega arith)

pub power-one_bit : (n j : ℕ) → bitwise and_bit n (2 ^ j) (2 ^ j - 1) ≡ 0
unfolding bitwise
power-one_bit zero j = refl
power-one_bit (suc n) zero = rw (and_zero n 0) refl
power-one_bit (suc n) (suc j) =
    let q : 2 ^ suc j ≡ 2 * 2 ^ j = pow-succ' 2 j in
    let half : bitwise and_bit (suc n) (2 * 2 ^ j) (2 * 2 ^ j - 1) ≡ 0 =
      and_even n (2 ^ j) (pow-pos j) ∙ omega (arith, power-one_bit n j) in
    subst (λ x. bitwise and_bit (suc n) x (x - 1) ≡ 0) (sym q) half

pub one_bit-power :
    (n x : ℕ) → 0 < x → x < 2 ^ n → bitwise and_bit n x (x - 1) ≡ 0 → (j : ℕ) × (x ≡ 2 ^ j)
one_bit-power zero x pos h e = absurd (omega arith)
one_bit-power (suc n) x pos h e =
    let q : 2 ^ suc n ≡ 2 * 2 ^ n = pow-succ' 2 n in
    elim (ℕ_discrete (x % 2) 0) [
      | yes even ↦
          let d : x ≡ 2 * (x / 2) = omega arith in
          let e' =
            sym (and_even n (x / 2) (omega arith))
            ∙ (sym (ap (λ y. bitwise and_bit (suc n) y (y - 1)) d) ∙ e) in
          let (j, p) = one_bit-power n (x / 2) (omega arith) (omega arith) (omega arith) in
          let r : 2 ^ suc j ≡ 2 * 2 ^ j = pow-succ' 2 j in (suc j, omega arith)
      | no odd ↦
          let d : x ≡ suc (2 * (x / 2)) = omega arith in
          let e' : bitwise and_bit (suc n) (suc (2 * (x / 2))) (suc (2 * (x / 2)) - 1) ≡ 0 =
            sym (ap (λ y. bitwise and_bit (suc n) y (y - 1)) d) ∙ e in
          let e'' = and_odd n (x / 2) (omega arith) in
          let less : suc (2 * (x / 2)) - 1 ≡ 2 * (x / 2) = omega arith in
          let none_ : 2 * (x / 2) ≡ 0 =
            sym e'' ∙ (sym (ap (bitwise and_bit (suc n) (suc (2 * (x / 2)))) less) ∙ e') in
          (0, omega arith)
    ]
