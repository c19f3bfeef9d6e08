-- ===== src/Runtime/Slices.antt =====
-- src/runtime.c: slices put together again.
use sqale.Prelude.{
  ℕ, zero, suc, ◌-◌, ◌≤◌, ◌<◌, ◌≡◌, ap, some, [], ◌∷◌, ◌++◌, append-nil, arith, ◌>>=◌, Bytes, ltb,
  length, length-drop, take, drop, take-all, take-append-drop, Bool-cases, inl, inr,
}
use sqale.Prelude.Int.{ℤ, pos, negsuc}
use sqale.Runtime.{int, str}
use sqale.Runtime.Strings.{slice, rt_str_slice, rt_str_concat}

slice_before : (s : Bytes) (n : ℕ) → n ≤ length s → slice s (pos 0) (pos n) ≡ take n s
unfolding slice
slice_before s zero h = ground arith
slice_before s (suc n) h = ground arith

slice_behind : (s : Bytes) (n : ℕ) → n ≤ length s → slice s (pos n) (pos (length s)) ≡ drop n s
unfolding slice
slice_behind s n h = ground (
  arith,
  take-all (length s - n) (drop n s) (omega (arith, length-drop n s)),
  take-all 0 (drop n s),
  length-drop n s,
)

slice_outside : (s : Bytes) (n : ℕ) → length s < n → slice s (pos 0) (pos n) ≡ s
unfolding slice
slice_outside s n h = ground (arith, take-all (length s) s (omega arith), take-all 0 s)

slice_empty : (s : Bytes) (n : ℕ) → length s < n → slice s (pos n) (pos (length s)) ≡ []
unfolding slice
slice_empty s n h = ground arith

slice_negative :
    (s : Bytes) (n : ℕ)
    → (slice s (pos 0) (negsuc n) ≡ [])
      × (slice s (negsuc n) (pos (length s)) ≡ slice s (pos 0) (pos (length s)))
unfolding slice
slice_negative s n = (ground arith, ground arith)

append-slice : (s : Bytes) (k : ℤ) → slice s (pos 0) k ++ slice s k (pos (length s)) ≡ s
append-slice s (negsuc n) =
    rw ((slice_negative s n).0, (slice_negative s n).1) (slice_behind s 0 (omega arith))
append-slice s (pos n) = elim (Bool-cases (ltb (length s) n)) [
  | inl h ↦ rw (slice_outside s n (ground arith), slice_empty s n (ground arith)) (append-nil s)
  | inr h ↦
      rw (slice_before s n (ground arith), slice_behind s n (ground arith)) (take-append-drop n s)
]

-- Cutting a string at any integer, also one outside it, and concatenating the two slices gives the string back.
pub rt_str_concat-slice :
    (s : Bytes) (k : ℤ)
    → (rt_str_slice (str (some s) ∷ int (pos 0) ∷ int k ∷ []) >>= λ left.
        rt_str_slice (str (some s) ∷ int k ∷ int (pos (length s)) ∷ []) >>= λ right.
        rt_str_concat (left ∷ right ∷ []))
      ≡ some (str (some s))
unfolding rt_str_slice rt_str_concat
rt_str_concat-slice s k = ap (λ t. some (str (some t))) (append-slice s k)
