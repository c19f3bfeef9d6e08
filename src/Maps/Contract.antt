-- ===== src/Maps/Contract.antt =====
-- src/runtime.c: a map as a finite function from strings to integers.
use sqale.Prelude.{
  ℕ, zero, suc, ◌+◌, ◌%◌, ◌≤◌, ◌<◌, ◌≡◌, ◌≢◌, refl, ap, ◌∙◌, sym, false, none, some, List, [], ◌∷◌,
  arith, if◌then◌else◌, Bool-cases, inl, inr, Bytes, bytes_eq, bytes_eq→eq, length, ltb,
  Option-cases, replicate, length-replicate,
}
use sqale.Prelude.Int.{ℤ}
use sqale.Maps.{MapEntry, Map, map_new_gc, hash_str, home, set_from, map_set_pair, map_get_pair}
use sqale.Maps.Probing.{has_key, slot}
use sqale.Maps.Lookup.{used, Valid, written, set_from-Probe}
use sqale.Maps.Finite.{locate, written-Valid, get-Probe, get-missing, get-written}

used-le : (es : List MapEntry) → used es ≤ length es
used-le [] = omega arith
used-le (none ∷ es) = omega (arith, used-le es)
used-le (some x ∷ es) = omega (arith, used-le es)

used-replicate : (n : ℕ) → used (replicate n none) ≡ 0
used-replicate zero = refl
used-replicate (suc n) = used-replicate n

get_or-replicate : (n i : ℕ) → slot (replicate n none) i ≡ none
get_or-replicate zero i = refl
get_or-replicate (suc n) zero = refl
get_or-replicate (suc n) (suc i) = get_or-replicate n i

-- In a valid map with a free slot `map_set_pair` ends within `cap` steps. It leaves a valid map of the same
-- capacity, in which the key reads as the new value and every other key as before.
pub map_set_pair_lem :
    (m : Map) (k : Bytes) (val : ℤ)
    → Valid m
    → m.len < m.cap
    → (m' : Map) × (map_set_pair m.cap m k val ≡ some m')
      × Valid m'
      × (m'.cap ≡ m.cap)
      × ((k' : Bytes)
          → map_get_pair m.cap m' k'
            ≡ (if bytes_eq k k' then some (some val) else map_get_pair m.cap m k'))
unfolding map_set_pair home
map_set_pair_lem m k val v room =
    let (n, j, p, lt, hj) = locate m k v room in
    (
      written m k val j,
      set_from-Probe n m.cap m k val (hash_str k % m.cap) j p lt,
      written-Valid m k val n j v p lt hj,
      refl,
      λ k'. get-written m k val n j k' v room p lt hj,
    )

slot-used : (es : List MapEntry) (i : ℕ) → used es ≡ length es → i < length es → slot es i ≢ none
slot-used [] i u lt = absurd (omega arith)
slot-used (none ∷ es) i u lt = absurd (omega (arith, used-le es))
slot-used (some x ∷ es) zero u lt = λ e. cc
slot-used (some x ∷ es) (suc i) u lt = slot-used es i (omega arith) (omega arith)

set_from_endless :
    (f : ℕ) (m : Map) (k : Bytes) (val : ℤ) (i : ℕ)
    → Valid m
    → m.len ≡ m.cap
    → ((i' : ℕ) → has_key (slot m.slots i') k ≡ false)
    → i < m.cap
    → set_from f m k val i ≡ none
unfolding set_from
set_from_endless zero m k val i v full absent lt = refl
set_from_endless (suc f) m k val i v full absent lt =
    let next =
      set_from_endless f m k val ((i + 1) % m.cap) v full absent (omega (arith, v.positive)) in
    elim (Option-cases (slot m.slots i)) [
      | inl h ↦
          absurd (slot-used m.slots i (v.counted ∙ (full ∙ sym v.size)) (omega (arith, v.size)) h)
      | inr ((key, old), h) ↦
          let b : bytes_eq key k ≡ false = rw h at (absent i) in rw (set_from, h, b, next) refl
    ]

-- When every slot of a valid map is used and `map_get_pair` does not find a key, `map_set_pair` of that
-- key does not return, whatever the fuel.
pub map_set_pair_endless :
    (f : ℕ) (m : Map) (k : Bytes) (val : ℤ)
    → Valid m
    → m.len ≡ m.cap
    → map_get_pair m.cap m k ≡ some none
    → map_set_pair f m k val ≡ none
unfolding map_set_pair home
map_set_pair_endless f m k val v full e =
    set_from_endless f m k val (hash_str k % m.cap) v full
      (λ i. elim (Option-cases (slot m.slots i)) [
        | inl h ↦ rw h
        | inr ((key, old), h) ↦ elim (Bool-cases (bytes_eq key k)) [
          | inl b ↦
              let s = h ∙ ap (λ x. some (x, old)) (bytes_eq→eq key k b) in
              let (n, p, lt) = v.reach i k old s in
              absurd (cc (e, get-Probe m k m.cap n i old p lt s))
          | inr b ↦ rw (h, b)
        ]
      ])
      (omega (arith, v.positive))

-- A new map is valid and holds no key.
pub map_new_gc_lem :
    (c : ℕ) (k : Bytes)
    → Valid (map_new_gc c)
      × ((map_new_gc c).len ≡ 0)
      × (8 ≤ (map_new_gc c).cap)
      × (map_get_pair (map_new_gc c).cap (map_new_gc c) k ≡ some none)
unfolding map_new_gc
map_new_gc_lem c k =
    let size = if ltb 8 c then c else 8 in
    let pos : 0 < size = ground arith in
    (
      record {
        positive = pos;
        size = length-replicate size none;
        counted = used-replicate size;
        reach = λ i k' v' e. absurd (cc (e, get_or-replicate size i));
      },
      refl,
      ground arith,
      get-missing (map_new_gc c) k pos (λ i. rw (get_or-replicate size i)),
    )
