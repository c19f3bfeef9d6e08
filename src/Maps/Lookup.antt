-- ===== src/Maps/Lookup.antt =====
-- src/runtime.c: the invariant of a map, and the two loops along a search.
use native.Mathlib.Decide.{ℕ_discrete}
use sqale.Prelude.{
  ℕ, zero, suc, ◌+◌, ◌-◌, ◌%◌, ◌≤◌, ◌<◌, ◌≡◌, ◌≢◌, refl, sym, true, false, none, some, List, [],
  ◌∷◌, arith, if◌then◌else◌, Bool-cases, inl, inr, Bytes, bytes_eq, bytes_eq_refl, bytes_eq→eq,
  length, ltb, Option-cases, set,
}
use sqale.Prelude.Int.{ℤ}
use sqale.Prelude.Wrap.{mod-eq-wrap, tail-suc}
use sqale.Maps.{MapEntry, Map, set_from, get_from}
use sqale.Maps.Probing.{has_key, slot, Probe, Probe-unique}
use sqale.Maps.{hash_str}

abbrev pub used : List MapEntry → ℕ
used [] = 0
used (none ∷ es) = used es
used (some e ∷ es) = suc (used es)

-- Each key in the map is found by a search from its home.
pub record Valid (m : Map) : Type 0 where
  pub positive : 0 < m.cap
  pub size : length m.slots ≡ m.cap
  pub counted : used m.slots ≡ m.len
  pub reach :
      (i : ℕ) (k : Bytes) (v : ℤ)
      → slot m.slots i ≡ some (k, v)
      → (n : ℕ) × Probe m.cap m.slots k n (hash_str k % m.cap) i × (n < m.cap)

-- what `map_set_pair` leaves, when its search ends at slot `j`
abbrev pub written : Map → Bytes → ℤ → ℕ → Map
written m k val j = record m {
  slots = set m.slots j (some (k, val));
  len = if has_key (slot m.slots j) k then m.len else m.len + 1;
}

pub free_slot :
    (es : List MapEntry) → used es < length es → (e : ℕ) × (e < length es) × (slot es e ≡ none)
free_slot [] h = absurd (omega arith)
free_slot (none ∷ es) h = (0, omega arith, refl)
free_slot (some x ∷ es) h = let (e, lt, q) = free_slot es (omega arith) in (suc e, omega arith, q)

-- Every slot is some number of steps ahead of every other.
pub ahead : (size i e : ℕ) → i < size → e < size → (d : ℕ) × (d < size) × ((i + d) % size ≡ e)
ahead size i e hi he = elim (Bool-cases (ltb e i)) [
  | inl h ↦ (
    e + size - i,
    ground arith,
    ground (arith, mod-eq-wrap size (i + (e + size - i)) (omega arith)),
  )
  | inr h ↦ (e - i, ground arith, ground (arith, mod-eq-wrap size (i + (e - i)) (omega arith)))
]

pub set_from-Probe :
    (n f : ℕ) (m : Map) (k : Bytes) (val : ℤ) (i j : ℕ)
    → Probe m.cap m.slots k n i j
    → n < f
    → set_from f m k val i ≡ some (written m k val j)
unfolding set_from
set_from-Probe n zero m k val i j p lt = absurd (omega arith)
set_from-Probe zero (suc f) m k val i j (e, s) lt = elim (Option-cases (slot m.slots i)) [
  | inl h ↦ rw (sym e, set_from, h) refl
  | inr ((key, old), h) ↦
      let q : bytes_eq key k ≡ true = rw h at s in
      rw (sym e, set_from, h, bytes_eq→eq key k q, bytes_eq_refl k) refl
]
set_from-Probe (suc n) (suc f) m k val i j (p, q) lt =
    ground (arith, set_from-Probe n f m k val ((i + 1) % m.cap) j q (omega arith))

-- The search of `map_get_pair` ends before it comes round to its start.
pub get_from-Probe :
    (n f : ℕ) (m : Map) (k : Bytes) (start i j last : ℕ) (v : ℤ) {N : ℕ}
    → Probe m.cap m.slots k n i j
    → Probe m.cap m.slots k N start last
    → n ≤ N
    → n < f
    → slot m.slots j ≡ some (k, v)
    → get_from f m k start i ≡ some (some v)
unfolding get_from
get_from-Probe n zero m k start i j last v p w le lt h = absurd (omega arith)
get_from-Probe zero (suc f) m k start i j last v (e, s) w le lt h =
    rw (e, get_from, h, bytes_eq_refl k) refl
get_from-Probe (suc n) (suc f) m k start i j last v {N} (p, q) w le lt h =
    let ne : (i + 1) % m.cap ≢ start = λ e.
      let t : n ≡ N = (Probe-unique m.cap m.slots k n N start j last (rw e at q) w).0 in
      omega arith in
    ground (
      arith,
      ne,
      get_from-Probe n f m k start ((i + 1) % m.cap) j last v q w (omega arith) (omega arith) h,
    )

-- Without the key the search ends at a free slot, or when it comes round.
pub get_from-missing :
    (f : ℕ) (m : Map) (k : Bytes) (start d : ℕ)
    → ((i : ℕ) → has_key (slot m.slots i) k ≡ false)
    → start < m.cap
    → d < m.cap
    → m.cap ≤ d + f
    → get_from f m k start ((start + d) % m.cap) ≡ some none
unfolding get_from
get_from-missing zero m k start d h hs hd le = absurd (omega arith)
get_from-missing (suc f) m k start d h hs hd le =
    let t = tail-suc m.cap start d hs hd in
    let q = h ((start + d) % m.cap) in
    elim (ℕ_discrete (d + 1) m.cap) [
      | yes e ↦ ground (arith, q, t, mod-eq-wrap m.cap (start + (d + 1)) (omega arith))
      | no ne ↦
          ground
            (arith, q, t, get_from-missing f m k start (d + 1) h hs (omega arith) (omega arith))
    ]
