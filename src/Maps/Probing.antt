-- ===== src/Maps/Probing.antt =====
-- src/runtime.c: where a search through the slots ends.
use native.Mathlib.Decide.{ℕ_discrete}
use sqale.Prelude.{
  ℕ, zero, suc, ◌+◌, ◌%◌, ◌≤◌, ◌<◌, ◌≡◌, ◌≢◌, refl, ap, ◌∙◌, sym, Bool, true, false, none, some,
  List, arith, Bool-cases, inl, inr, Bytes, bytes_eq, bytes_eq_refl, length, get_or, set,
  get_or-set_self, get_or-set_ne,
}
use sqale.Prelude.Int.{ℤ}
use sqale.Prelude.Wrap.{mod-eq-wrap, slot-suc}
use sqale.Maps.{MapEntry}

-- A search for `k` ends at a free slot and at one with this key.
abbrev pub stops : MapEntry → Bytes → Bool
stops none k = true
stops (some (key, val)) k = bytes_eq key k

abbrev pub has_key : MapEntry → Bytes → Bool
has_key none k = false
has_key (some (key, val)) k = bytes_eq key k

abbrev pub slot : List MapEntry → ℕ → MapEntry
slot slots i = get_or slots i none

-- From slot `i` the search for `k` goes on `n` times and ends at slot `j`.
abbrev pub Probe : ℕ → List MapEntry → Bytes → ℕ → ℕ → ℕ → Type 0
Probe cap slots k zero i j = (i ≡ j) × (stops (slot slots i) k ≡ true)
Probe cap slots k (suc n) i j =
    (stops (slot slots i) k ≡ false) × Probe cap slots k n ((i + 1) % cap) j

module _ (cap : ℕ) (slots : List MapEntry) (k : Bytes) where
  pub Probe-unique :
      (n n' i j j' : ℕ) → Probe cap slots k n i j → Probe cap slots k n' i j' → (n ≡ n') × (j ≡ j')
  Probe-unique zero zero i j j' (e, s) (e', s') = (refl, sym e ∙ e')
  Probe-unique zero (suc n') i j j' (e, s) (p', q') = cc
  Probe-unique (suc n) zero i j j' (p, q) (e', s') = cc
  Probe-unique (suc n) (suc n') i j j' (p, q) (p', q') =
      let (e, e') = Probe-unique n n' ((i + 1) % cap) j j' q q' in (ap suc e, e')

  pub Probe-stops : (n i j : ℕ) → Probe cap slots k n i j → stops (slot slots j) k ≡ true
  Probe-stops zero i j (e, s) = rw (sym e) s
  Probe-stops (suc n) i j (p, q) = Probe-stops n ((i + 1) % cap) j q

  -- A free slot `d` further on ends the search.
  pub Probe-total :
      (d i : ℕ)
      → i < cap
      → d < cap
      → slot slots ((i + d) % cap) ≡ none
      → (n j : ℕ) × Probe cap slots k n i j × (n ≤ d) × (j < cap)
  Probe-total zero i hi hd e =
      let z : (i + 0) % cap ≡ i = ground (arith, mod-eq-wrap cap (i + 0) (omega arith)) in
      (0, i, (refl, ap (λ x. stops x k) (ap (slot slots) (sym z) ∙ e)), omega arith, hi)
  Probe-total (suc d) i hi hd e = elim (Bool-cases (stops (slot slots i) k)) [
    | inl s ↦ (0, i, (refl, s), omega arith, hi)
    | inr p ↦
        let (n, j, q, le, lt) =
          Probe-total d ((i + 1) % cap) (omega arith) (omega arith)
            (ap (slot slots) (slot-suc cap i d hi (omega arith)) ∙ e) in
        (suc n, j, (p, q), omega arith, lt)
  ]

module _ (cap : ℕ) (slots : List MapEntry) (k : Bytes) (val : ℤ) where
  -- Writing the key where its search ends does not change where the search ends.
  pub Probe-set_self :
      (n i j : ℕ)
      → j < length slots
      → Probe cap slots k n i j
      → Probe cap (set slots j (some (k, val))) k n i j
  Probe-set_self zero i j lt (e, s) =
      let w = get_or-set_self slots j (some (k, val)) none lt in (e, rw (e, w) (bytes_eq_refl k))
  Probe-set_self (suc n) i j lt (p, q) =
      let ne : j ≢ i = λ e. cc (p, e, Probe-stops cap slots k n ((i + 1) % cap) j q) in
      let w = get_or-set_ne slots j i (some (k, val)) none ne in
      (rw w p, Probe-set_self n ((i + 1) % cap) j lt q)

  -- Nor does it for another key, unless its search ended there.
  pub Probe-set_ne :
      (k' : Bytes) (n i j j' : ℕ)
      → bytes_eq k k' ≡ false
      → j < length slots
      → j ≢ j'
      → Probe cap slots k' n i j'
      → Probe cap (set slots j (some (k, val))) k' n i j'
  Probe-set_ne k' zero i j j' b lt ne (e, s) =
      let w = get_or-set_ne slots j i (some (k, val)) none (λ h. ne (h ∙ e)) in (e, rw w s)
  Probe-set_ne k' (suc n) i j j' b lt ne (p, q) =
      let rest = Probe-set_ne k' n ((i + 1) % cap) j j' b lt ne q in
      elim (ℕ_discrete j i) [
        | yes e ↦ let w = get_or-set_self slots j (some (k, val)) none lt in (rw (sym e, w) b, rest)
        | no h ↦ let w = get_or-set_ne slots j i (some (k, val)) none h in (rw w p, rest)
      ]
