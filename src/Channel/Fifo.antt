-- ===== src/Channel/Fifo.antt =====
-- src/channel.c: a channel as a queue of messages.
use native.Mathlib.Decide.{ℕ_discrete}
use sqale.Prelude.{
  get_elem?-append, get_elem?-last, ℕ, suc, ◌+◌, ◌-◌, ◌%◌, ◌≤◌, ◌<◌, ◌≡◌, ◌≢◌, refl, ap, ◌∙◌, sym,
  none, some, List, [], ◌∷◌, ◌++◌, arith, get_or, set, length, length-set, length-append,
  length-replicate, get_elem?,
}
use sqale.Prelude.{get_or-set_self, get_or-set_ne}
use sqale.Prelude.Wrap.{mod-eq-wrap, slot_ne, slot-suc, tail-suc}
use sqale.Channel.{Channel, rt_channel_new, put, next, drop_head}

tail-pred :
    (cap h n : ℕ) → h < cap → 0 < n → n ≤ cap → (h + n) % cap ≡ ((h + 1) % cap + (n - 1)) % cap
tail-pred cap h n hh hn le =
    let e : suc (n - 1) ≡ n = omega arith in
    sym (slot-suc cap h (n - 1) hh (omega arith) ∙ ap (λ k. (h + k) % cap) e)

module _ {ℓ} {A : Type ℓ} where
  -- The channel `c` holds exactly the messages `q`, oldest first.
  pub record Holds (c : Channel A) (q : List A) : Type ℓ where
    pub size : length c.buf ≡ c.cap
    pub head_in : c.head < c.cap
    pub tail_is : c.tail ≡ (c.head + c.count) % c.cap
    pub count_is : c.count ≡ length q
    pub bounded : c.count ≤ c.cap
    pub slots : (i : ℕ) → i < length q → get_or c.buf ((c.head + i) % c.cap) none ≡ get_elem? q i

  put-slots :
      {c : Channel A} {q : List A} (m : A)
      → Holds c q
      → c.count < c.cap
      → (i : ℕ) → i < length (q ++ m ∷ [])
      → get_or (set c.buf c.tail (some m)) ((c.head + i) % c.cap) none ≡ get_elem? (q ++ m ∷ []) i
  put-slots {c} {q} m h lt i hi = elim (ℕ_discrete i (length q)) [
    | yes e ↦
        let t : (c.head + i) % c.cap ≡ c.tail =
          ap (λ k. (c.head + k) % c.cap) (e ∙ sym h.count_is) ∙ sym h.tail_is in
        rw (t, e, get_elem?-last q m) (get_or-set_self c.buf c.tail (some m) none (omega arith))
    | no ne ↦
        let hq : i < length q = omega (arith, length-append q (m ∷ [])) in
        let t : c.tail ≢ (c.head + i) % c.cap =
          rw h.tail_is (slot_ne c.cap c.head i c.count h.head_in (omega arith) lt) in
        get_or-set_ne c.buf c.tail _ (some m) none t
        ∙ (h.slots i hq ∙ sym (get_elem?-append q (m ∷ []) i hq))
  ]

  -- A message is written behind the others, into a slot that none of them uses.
  pub put-Holds :
      {c : Channel A} {q : List A} (m : A)
      → Holds c q
      → c.count ≢ c.cap
      → Holds (put m c) (q ++ m ∷ [])
  unfolding put
  put-Holds {c} {q} m h ne = record {
    size = length-set c.buf c.tail (some m) ∙ h.size;
    head_in = h.head_in;
    tail_is = rw h.tail_is (tail-suc c.cap c.head c.count h.head_in (omega (arith, h.bounded)));
    count_is = omega (arith, h.count_is, length-append q (m ∷ []));
    bounded = omega (arith, h.bounded);
    slots = put-slots m h (omega (arith, h.bounded));
  }

  -- The oldest message is read, and the others stay in order.
  pub next-Holds :
      {c : Channel A} (m : A) {q : List A}
      → Holds c (m ∷ q)
      → (next c ≡ some m) × Holds (drop_head c) q
  unfolding next drop_head
  next-Holds {c} m {q} h =
      let e : c.head ≡ (c.head + 0) % c.cap =
        ground (arith, mod-eq-wrap c.cap (c.head + 0) (omega (arith, h.head_in)), h.head_in) in
      (
        rw e (h.slots 0 (omega arith)),
        record {
          size = h.size;
          head_in = omega (arith, h.head_in);
          tail_is =
              h.tail_is
              ∙ tail-pred c.cap c.head c.count h.head_in (omega (arith, h.count_is)) h.bounded;
          count_is = omega (arith, h.count_is);
          bounded = omega (arith, h.bounded);
          slots = λ i hi.
              ap (λ k. get_or c.buf k none)
                (slot-suc c.cap c.head i h.head_in (omega (arith, h.count_is, h.bounded)))
              ∙ h.slots (suc i) (omega arith);
        },
      )

  -- A new channel is empty.
  pub new-Holds : (n : ℕ) → 0 < n → Holds (rt_channel_new n) []
  unfolding rt_channel_new
  new-Holds n h = record {
    size = length-replicate n none;
    head_in = h;
    tail_is = ground (arith, mod-eq-wrap n 0 (omega arith));
    count_is = refl;
    bounded = omega arith;
    slots = λ i hi. absurd (omega arith);
  }

  pub cap-put : (m : A) (c : Channel A) → (put m c).cap ≡ c.cap
  unfolding put
  cap-put m c = refl

  pub cap-drop_head : (c : Channel A) → (drop_head c).cap ≡ c.cap
  unfolding drop_head
  cap-drop_head c = refl
