-- ===== src/Buffers/Growth.antt =====
-- src/vec.c: the doubling of a capacity.
use sqale.Prelude.{
  ℕ, zero, suc, ◌*◌, ◌%◌, ◌^◌, ◌≤◌, ◌<◌, ◌≡◌, refl, ap, ◌∙◌, false, some, arith, ltb, Bool-cases,
  inl, inr, ◌⊎◌,
}
use native.Mathlib.Nat.{mod-eq_of_lt}
use sqale.Buffers.{double_until}

abbrev doubled : ℕ → ℕ → ℕ
doubled zero n = n
doubled (suc f) n = doubled f (n * 2)

doubled-le : (f m n : ℕ) → m ≤ n → doubled f m ≤ doubled f n
doubled-le zero m n h = h
doubled-le (suc f) m n h = doubled-le f (m * 2) (n * 2) (omega arith)

double_until-doubled :
    (f nc need : ℕ)
    → 0 < nc
    → need ≤ 2 ^ 63
    → need ≤ doubled f nc
    → (r : ℕ) × (double_until (suc f) nc need ≡ some r)
      × (need ≤ r)
      × (nc ≤ r)
      × ((nc ≡ r) ⊎ (r < 2 * need))
unfolding double_until
double_until-doubled zero nc need pos small h =
    let t : ltb nc need ≡ false = ground arith in (nc, rw t refl, h, omega arith, inl refl)
double_until-doubled (suc f) nc need pos small h = elim (Bool-cases (ltb nc need)) [
  | inr t ↦ (nc, rw t refl, ground arith, omega arith, inl refl)
  | inl t ↦
      let lt : nc < need = ground arith in
      let w : nc * 2 % 2 ^ 64 ≡ nc * 2 = mod-eq_of_lt (omega arith) in
      let (r, e, le, le', b) = double_until-doubled f (nc * 2) need (omega arith) small h in
      (
        r,
        rw t (ap (λ n. double_until (suc f) n need) w ∙ e),
        le,
        omega arith,
        elim b [ inl q ↦ inr (omega arith) | inr q ↦ inr q ],
      )
]

-- Sixty-four doublings of any capacity make room for 2 ^ 63.
pub double_until_lem :
    (nc need : ℕ)
    → 0 < nc
    → need ≤ 2 ^ 63
    → (r : ℕ) × (double_until 65 nc need ≡ some r)
      × (need ≤ r)
      × (nc ≤ r)
      × ((nc ≡ r) ⊎ (r < 2 * need))
double_until_lem nc need pos small =
    double_until-doubled 64 nc need pos small (omega (arith, doubled-le 64 1 nc (omega arith)))
