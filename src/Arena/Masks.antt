-- ===== src/Arena/Masks.antt =====
-- src/arena.c: rounding up with a mask.
use native.Mathlib.Nat.{
  div-div-eq-div-mul, pow-succ', pow-le-pow_right, mul_left_comm, mul_comm, mod-lt, mod-add-div,
  mul-mod_left,
}
use sqale.Prelude.{
  ℕ, zero, suc, ◌+◌, ◌-◌, ◌*◌, ◌/◌, ◌%◌, ◌^◌, ◌≤◌, ◌<◌, ◌≡◌, refl, ap, ◌∙◌, sym, subst, arith,
}
use sqale.Runtime.Bits.{bitwise, and_bit}
use sqale.Arena.{round_up}

-- the mask of all bits leaves a number as it is
mask_all : (n x p : ℕ) → p ≡ 2 ^ n → x < p → bitwise and_bit n x (p - 1) ≡ x
unfolding bitwise
mask_all zero x p e h = omega arith
mask_all (suc n) x p e h =
    let q : p ≡ 2 * 2 ^ n = e ∙ pow-succ' 2 n in
    let pos : 0 < 2 ^ n = omega arith in
    let rest : bitwise and_bit n (x / 2) (2 ^ n - 1) ≡ x / 2 =
      mask_all n (x / 2) (2 ^ n) refl (omega arith) in
    let half : (p - 1) / 2 ≡ 2 ^ n - 1 = omega arith in
    let bit : (p - 1) % 2 ≡ 1 = omega arith in rw (half, bit, rest) omega arith

-- clearing the lowest `k` bits rounds down to a multiple of 2 ^ k
pub mask_down :
    (n k x : ℕ) → k ≤ n → x < 2 ^ n → bitwise and_bit n x (2 ^ n - 2 ^ k) ≡ x / 2 ^ k * 2 ^ k
unfolding bitwise
mask_down zero zero x le h = omega arith
mask_down zero (suc k) x le h = absurd (omega arith)
mask_down (suc n) zero x le h = mask_all (suc n) x (2 ^ suc n) refl h ∙ omega arith
mask_down (suc n) (suc k) x le h =
    let p : 2 ^ suc n ≡ 2 * 2 ^ n = pow-succ' 2 n in
    let q : 2 ^ suc k ≡ 2 * 2 ^ k = pow-succ' 2 k in
    let small : 2 ^ k ≤ 2 ^ n = pow-le-pow_right {n = 2} (omega arith) (omega arith) in
    let mask : (2 ^ suc n - 2 ^ suc k) / 2 ≡ 2 ^ n - 2 ^ k = omega arith in
    let bit : (2 ^ suc n - 2 ^ suc k) % 2 ≡ 0 = omega arith in
    let rest : bitwise and_bit n (x / 2) (2 ^ n - 2 ^ k) ≡ x / 2 / 2 ^ k * 2 ^ k =
      mask_down n k (x / 2) (omega arith) (omega arith) in
    let whole : x / 2 / 2 ^ k ≡ x / 2 ^ suc k =
      div-div-eq-div-mul x 2 (2 ^ k) ∙ ap (λ d. x / d) (sym q) in
    let out : 2 * (x / 2 ^ suc k * 2 ^ k) ≡ x / 2 ^ suc k * 2 ^ suc k =
      mul_left_comm 2 (x / 2 ^ suc k) (2 ^ k) ∙ ap (λ t. x / 2 ^ suc k * t) (sym q) in
    rw (mask, bit, rest, whole) (omega (arith, out))

pow_bounds : (k : ℕ) → k ≤ 62 → (1 ≤ 2 ^ k) × (2 ^ k ≤ 2 ^ 62)
pow_bounds k le = (
  pow-le-pow_right {n = 2} (omega arith) {i = 0} {j = k} (omega arith),
  pow-le-pow_right {n = 2} (omega arith) le,
)

abbrev pub FirstMultiple : ℕ → ℕ → ℕ → Type 0
FirstMultiple used align r = (r % align ≡ 0) × (used ≤ r) × (r < used + align)

rounded : (used a : ℕ) → 1 ≤ a → FirstMultiple used a ((used + (a - 1)) / a * a)
rounded used a pos =
    let x : ℕ = used + (a - 1) in
    let split : x % a + a * (x / a) ≡ x = mod-add-div x a in
    let turn : a * (x / a) ≡ x / a * a = mul_comm a (x / a) in
    let lt : x % a < a = mod-lt x (omega arith) in
    (mul-mod_left (x / a) a, omega arith, omega arith)

mask_is : (a : ℕ) → 1 ≤ a → a ≤ 2 ^ 62 → 2 ^ 64 - 1 - (a - 1) ≡ 2 ^ 64 - a
mask_is a pos le = omega arith

sum_small : (used a : ℕ) → used < 2 ^ 63 → a ≤ 2 ^ 62 → used + (a - 1) < 2 ^ 64
sum_small used a h le = omega arith

masked :
    (used k : ℕ)
    → k ≤ 62
    → used < 2 ^ 63
    → round_up used (2 ^ k) ≡ (used + (2 ^ k - 1)) / 2 ^ k * 2 ^ k
unfolding round_up
masked used k le small =
    let (pos, top) = pow_bounds k le in
    ap (bitwise and_bit 64 (used + (2 ^ k - 1))) (mask_is (2 ^ k) pos top)
    ∙ mask_down 64 k (used + (2 ^ k - 1)) (far k le) (sum_small used (2 ^ k) small top)
  where
    far : (k : ℕ) → k ≤ 62 → k ≤ 64
    far k le = omega arith

-- The place that `arena_alloc` computes is the first multiple of the alignment at or behind the used part.
pub round_up_lem :
    (used k : ℕ) → k ≤ 62 → used < 2 ^ 63 → FirstMultiple used (2 ^ k) (round_up used (2 ^ k))
round_up_lem used k le small =
    subst (FirstMultiple used (2 ^ k)) (sym (masked used k le small))
      (rounded used (2 ^ k) (pow_bounds k le).0)
