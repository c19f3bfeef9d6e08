-- ===== src/Runtime/Search.antt =====
-- src/runtime.c: where `rt_str_index` finds the needle.
use native.Mathlib.Decide.{ℕ_discrete}
use sqale.Prelude.{
  ℕ, zero, suc, ◌+◌, ◌-◌, ◌<◌, ◌≡◌, refl, Bool, true, false, some, [], ◌∷◌, arith, ◌==◌, Bytes,
  bytes_eq, ltb, length, length-drop, length-take, take, drop, Bool-cases, inl, inr,
}
use sqale.Prelude.Int.{ℤ, pos, negsuc}
use sqale.Runtime.{int, str}
use sqale.Runtime.Strings.{index_from, index_of, rt_str_index}

-- The needle stands at offset `i`.
abbrev pub found_at : Bytes → Bytes → ℕ → Bool
found_at hay needle i = bytes_eq (take (length needle) (drop i hay)) needle

-- The first offset of the needle, or a negative number when it has none.
abbrev pub IsFirst : Bytes → Bytes → ℤ → Type 0
IsFirst hay needle (pos i) =
    (found_at hay needle i ≡ true) × ((j : ℕ) → j < i → found_at hay needle j ≡ false)
IsFirst hay needle (negsuc n) = (j : ℕ) → found_at hay needle j ≡ false

length-bytes_eq : (xs ys : Bytes) → bytes_eq xs ys ≡ true → length xs ≡ length ys
length-bytes_eq [] [] h = refl
length-bytes_eq [] (y ∷ ys) h = cc
length-bytes_eq (x ∷ xs) [] h = cc
length-bytes_eq (x ∷ xs) (y ∷ ys) h = ground (arith, length-bytes_eq xs ys)

not_beyond :
    (hay needle : Bytes) (j : ℕ)
    → 0 < length needle
    → length hay < j + length needle
    → found_at hay needle j ≡ false
not_beyond hay needle j h lt = elim (Bool-cases (found_at hay needle j)) [
  | inr e ↦ e
  | inl e ↦
      let l = length-bytes_eq (take (length needle) (drop j hay)) needle e in
      absurd (omega (arith, l, length-take (length needle) (drop j hay), length-drop j hay))
]

index_from-IsFirst :
    (n : ℕ) (hay needle : Bytes) (i : ℕ)
    → 0 < length needle
    → length hay < i + n + length needle
    → ((j : ℕ) → j < i → found_at hay needle j ≡ false)
    → IsFirst hay needle (index_from n hay needle i)
unfolding index_from
index_from-IsFirst zero hay needle i h le before = λ j. elim (Bool-cases (ltb j i)) [
  | inl lt ↦ before j (ground arith)
  | inr ge ↦ not_beyond hay needle j h (ground arith)
]
index_from-IsFirst (suc n) hay needle i h le before = elim (Bool-cases (found_at hay needle i)) [
  | inl e ↦ rw e (e, before)
  | inr e ↦ rw e (
      index_from-IsFirst n hay needle (i + 1) h (omega arith)
        (λ j lt. elim (ℕ_discrete j i) [ yes q ↦ rw q e | no ne ↦ before j (omega arith) ]))
]

index_of-IsFirst : (hay needle : Bytes) → IsFirst hay needle (index_of hay needle)
unfolding index_of
index_of-IsFirst hay [] = (refl, λ j lt. absurd (omega arith))
index_of-IsFirst hay (c ∷ cs) =
    let more : (length (c ∷ cs) == 0) ≡ false = ground arith in
    elim (Bool-cases (ltb (length hay) (length (c ∷ cs)))) [
      | inl e ↦ rw (more, e) (λ j. not_beyond hay (c ∷ cs) j (omega arith) (ground arith))
      | inr e ↦
          rw (more, e)
            (index_from-IsFirst (length hay - length (c ∷ cs) + 1) hay (c ∷ cs) 0 (omega arith)
              (ground arith) (λ j lt. absurd (omega arith)))
    ]

-- `rt_str_index` of two strings returns the first offset at which the needle stands in the other string, and a
-- negative number when it stands nowhere.
pub rt_str_index-IsFirst :
    (hay needle : Bytes)
    → (z : ℤ) × (rt_str_index (str (some hay) ∷ str (some needle) ∷ []) ≡ some (int z))
      × IsFirst hay needle z
unfolding rt_str_index
rt_str_index-IsFirst hay needle = (index_of hay needle, refl, index_of-IsFirst hay needle)
