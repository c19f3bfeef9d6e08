-- ===== src/Maps/Finite.antt =====
-- src/runtime.c: what a search finds before and after a key is written.
use native.Mathlib.Decide.{ℕ_discrete}
use sqale.Prelude.{
  ℕ, zero, suc, ◌+◌, ◌%◌, ◌<◌, ◌≡◌, ◌≢◌, refl, ap, ◌∙◌, sym, true, false, none, some, List, [], ◌∷◌,
  arith, if◌then◌else◌, Bool-cases, inl, inr, Bytes, bytes_eq, bytes_eq_refl, bytes_eq→eq, length,
  Option-cases, set, get_or-set_self, get_or-set_ne, length-set,
}
use sqale.Prelude.Int.{ℤ}
use sqale.Prelude.Wrap.{mod-eq-wrap}
use sqale.Maps.{MapEntry, Map, hash_str, home, map_get_pair}
use sqale.Maps.Probing.{
  stops, has_key, slot, Probe, Probe-unique, Probe-stops, Probe-total, Probe-set_self, Probe-set_ne,
}
use sqale.Maps.Lookup.{used, Valid, written, free_slot, ahead, get_from-Probe, get_from-missing}

used-set :
    (es : List MapEntry) (j : ℕ) (k : Bytes) (val : ℤ)
    → j < length es
    → stops (slot es j) k ≡ true
    → used (set es j (some (k, val))) ≡ (if has_key (slot es j) k then used es else used es + 1)
used-set [] j k val lt s = absurd (omega arith)
used-set (none ∷ es) zero k val lt s = omega arith
used-set (some x ∷ es) zero k val lt s = rw s refl
used-set (none ∷ es) (suc j) k val lt s = used-set es j k val (omega arith) s
used-set (some x ∷ es) (suc j) k val lt s = ground (arith, used-set es j k val (omega arith) s)

-- The search for a key ends within `cap` slots when the map is not full.
pub locate :
    (m : Map) (k : Bytes)
    → Valid m
    → m.len < m.cap
    → (n j : ℕ) × Probe m.cap m.slots k n (hash_str k % m.cap) j × (n < m.cap) × (j < m.cap)
locate m k v lt =
    let (e, he, q) = free_slot m.slots (omega (arith, v.counted, v.size)) in
    let (d, hd, t) =
      ahead m.cap (hash_str k % m.cap) e (omega (arith, v.positive)) (omega (arith, v.size)) in
    let (n, j, p, le, hj) =
      Probe-total m.cap m.slots k d (hash_str k % m.cap) (omega (arith, v.positive)) hd
        (ap (slot m.slots) t ∙ q) in
    (n, j, p, omega arith, hj)

written-reach :
    (m : Map) (k : Bytes) (val : ℤ) (n j : ℕ)
    → Valid m
    → Probe m.cap m.slots k n (hash_str k % m.cap) j
    → n < m.cap
    → j < m.cap
    → (i : ℕ) (k' : Bytes) (v' : ℤ) → slot (set m.slots j (some (k, val))) i ≡ some (k', v')
    → (n' : ℕ) × Probe m.cap (set m.slots j (some (k, val))) k' n' (hash_str k' % m.cap) i
      × (n' < m.cap)
written-reach m k val n j v p lt hj i k' v' e =
    let size = v.size in
    elim (ℕ_discrete j i) [
      | yes q ↦
          let w = get_or-set_self m.slots j (some (k, val)) none (omega arith) in
          let same : k ≡ k' = cc in
          let p' = Probe-set_self m.cap m.slots k val n (hash_str k % m.cap) j (omega arith) p in
          (n, rw (sym same, sym q) p', lt)
      | no ne ↦
          let w = get_or-set_ne m.slots j i (some (k, val)) none ne in
          let (n', p', lt') = v.reach i k' v' (sym w ∙ e) in
          elim (Bool-cases (bytes_eq k k')) [
            | inl b ↦
                let same : k' ≡ k = sym (bytes_eq→eq k k' b) in
                absurd (
                  ne
                    (Probe-unique m.cap m.slots k n n' (hash_str k % m.cap) j i p
                      (rw same at p')).1)
            | inr b ↦ (
              n',
              Probe-set_ne m.cap m.slots k val k' n' (hash_str k' % m.cap) j i b (omega arith) ne
                  p',
              lt',
            )
          ]
    ]

pub written-Valid :
    (m : Map) (k : Bytes) (val : ℤ) (n j : ℕ)
    → Valid m
    → Probe m.cap m.slots k n (hash_str k % m.cap) j
    → n < m.cap
    → j < m.cap
    → Valid (written m k val j)
written-Valid m k val n j v p lt hj = record {
  positive = v.positive;
  size = length-set m.slots j (some (k, val)) ∙ v.size;
  counted =
      rw (sym v.counted)
        (used-set m.slots j k val (omega (arith, v.size)) (Probe-stops m.cap m.slots k n _ j p));
  reach = written-reach m k val n j v p lt hj;
}

-- A key whose search ends at a free slot is in no slot.
no_slot :
    (m : Map) (k : Bytes) (n j : ℕ)
    → Valid m
    → Probe m.cap m.slots k n (hash_str k % m.cap) j
    → slot m.slots j ≡ none
    → (i : ℕ) → has_key (slot m.slots i) k ≡ false
no_slot m k n j v p e i = elim (Option-cases (slot m.slots i)) [
  | inl h ↦ rw h
  | inr ((key, val), h) ↦ elim (Bool-cases (bytes_eq key k)) [
    | inl b ↦
        let same : key ≡ k = bytes_eq→eq key k b in
        let (n', p', lt') = v.reach i k val (rw same at h) in
        let q : j ≡ i = (Probe-unique m.cap m.slots k n n' (hash_str k % m.cap) j i p p').1 in
        absurd (cc (q, h, e))
    | inr b ↦ rw (h, b)
  ]
]

pub get-Probe :
    (m : Map) (k : Bytes) (f n j : ℕ) (val : ℤ)
    → Probe m.cap m.slots k n (hash_str k % m.cap) j
    → n < f
    → slot m.slots j ≡ some (k, val)
    → map_get_pair f m k ≡ some (some val)
unfolding map_get_pair home
get-Probe m k f n j val p lt h =
    get_from-Probe n f m k (hash_str k % m.cap) (hash_str k % m.cap) j j val {N = n} p p
      (omega arith) lt h

pub get-missing :
    (m : Map) (k : Bytes)
    → 0 < m.cap
    → ((i : ℕ) → has_key (slot m.slots i) k ≡ false)
    → map_get_pair m.cap m k ≡ some none
unfolding map_get_pair home
get-missing m k pos h =
    let s = hash_str k % m.cap in
    let z : (s + 0) % m.cap ≡ s = ground (arith, mod-eq-wrap m.cap (s + 0) (omega arith)) in
    let g = get_from-missing m.cap m k s 0 h (omega arith) pos (omega arith) in rw z at g

pub get-written :
    (m : Map) (k : Bytes) (val : ℤ) (n j : ℕ) (k' : Bytes)
    → Valid m
    → m.len < m.cap
    → Probe m.cap m.slots k n (hash_str k % m.cap) j
    → n < m.cap
    → j < m.cap
    → map_get_pair m.cap (written m k val j) k'
      ≡ (if bytes_eq k k' then some (some val) else map_get_pair m.cap m k')
get-written m k val n j k' v room p lt hj =
    let size = v.size in
    let at_j = get_or-set_self m.slots j (some (k, val)) none (omega arith) in
    let p' = Probe-set_self m.cap m.slots k val n (hash_str k % m.cap) j (omega arith) p in
    elim (Bool-cases (bytes_eq k k')) [
      | inl b ↦
          let same : k ≡ k' = bytes_eq→eq k k' b in
          rw (b, sym same) (get-Probe (written m k val j) k m.cap n j val p' lt at_j)
      | inr b ↦
          let (n', j', q, lt', hj') = locate m k' v room in
          elim (Option-cases (slot m.slots j')) [
            | inl h ↦
                let absent = no_slot m k' n' j' v q h in
                rw (b, get-missing m k' v.positive absent)
                  (get-missing (written m k val j) k' v.positive (λ i. elim (ℕ_discrete j i) [
                    | yes e ↦ rw (sym e, at_j) b
                    | no ne ↦ rw (get_or-set_ne m.slots j i (some (k, val)) none ne) (absent i)
                  ]))
            | inr ((key, old), h) ↦
                let is_key : key ≡ k' =
                  bytes_eq→eq key k'
                    (rw h at (Probe-stops m.cap m.slots k' n' (hash_str k' % m.cap) j' q)) in
                let ne : j ≢ j' = λ e.
                  let s = Probe-stops m.cap m.slots k n (hash_str k % m.cap) j p in
                  let is_k : key ≡ k = bytes_eq→eq key k (rw (e, h) at s) in
                  cc (b, is_key, is_k, bytes_eq_refl k) in
                let q' =
                  Probe-set_ne m.cap m.slots k val k' n' (hash_str k' % m.cap) j j' b (omega arith)
                    ne q in
                let e =
                  get_or-set_ne m.slots j j' (some (k, val)) none ne
                  ∙ (h ∙ ap (λ x. some (x, old)) is_key) in
                rw (b, get-Probe m k' m.cap n' j' old q lt' (h ∙ ap (λ x. some (x, old)) is_key))
                  (get-Probe (written m k val j) k' m.cap n' j' old q' lt' e)
          ]
    ]
