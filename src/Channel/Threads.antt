-- ===== src/Channel/Threads.antt =====
-- Threads on one channel: any interleaving of sends and receives, each under the mutex. A thread whose
-- wait is over calls the loop again on the channel that it finds.
use mathlib.Core.List.{map-append}
use sqale.Prelude.{
  ℕ, ◌≤◌, ◌<◌, ◌≡◌, ◌≢◌, refl, ◌∙◌, sym, Bool, true, Option, some, ◌↔◌, List, [], ◌∷◌, ◌++◌, map,
  arith, ◌==◌, length, append_assoc, Bool-cases, inl, inr,
}
use sqale.Channel.{
  Channel, waiting, returned, rt_channel_new, put, next, drop_head, rt_channel_send,
  rt_channel_recv,
}
use sqale.Channel.Fifo.{Holds, cap-put, cap-drop_head, put-Holds, next-Holds, new-Holds}

-- the channel, what was sent over it and what was received, oldest first
pub record Traffic {ℓ} (A : Type ℓ) : Type ℓ where
  pub chan : Channel A
  pub sent : List A
  pub received : List (Option A)

module _ {ℓ} {A : Type ℓ} where
  pub data Step (s : Traffic A) : Traffic A → Type ℓ where
    sends :
        (msg : A) (ok : Bool) (c : Channel A)
        → rt_channel_send msg s.chan [] ≡ returned ok c
        → Step s (record { chan = c; sent = s.sent ++ msg ∷ []; received = s.received })
    receives :
        (m : Option A) (c : Channel A)
        → rt_channel_recv s.chan [] ≡ returned m c
        → Step s (record { chan = c; sent = s.sent; received = s.received ++ m ∷ [] })

  pub data Reach (s : Traffic A) : Traffic A → Type ℓ where
    here : Reach s s
    step : {t u : Traffic A} → Reach s t → Step t u → Reach s u

  abbrev pub start : ℕ → Traffic A
  start n = record { chan = rt_channel_new n; sent = []; received = [] }

  -- The messages that are sent and not yet received.
  pub record InFlight (n : ℕ) (s : Traffic A) : Type ℓ where
    pub cap_is : s.chan.cap ≡ n
    pub queue : List A
    pub holds : Holds s.chan queue
    pub order : map some s.sent ≡ s.received ++ map some queue

  send_inv :
      (msg : A) (c : Channel A) {c' : Channel A} {ok : Bool}
      → rt_channel_send msg c [] ≡ returned ok c'
      → (c.count ≢ c.cap) × (c' ≡ put msg c)
  unfolding rt_channel_send
  send_inv msg c e = ground arith

  recv_inv :
      (c : Channel A) {c' : Channel A} {m : Option A}
      → rt_channel_recv c [] ≡ returned m c'
      → (c.count ≢ 0) × (c' ≡ drop_head c) × (m ≡ next c)
  unfolding rt_channel_recv
  recv_inv c e = ground arith

  recv-InFlight :
      {n : ℕ} (s : Traffic A) (q : List A) {c : Channel A} {m : Option A}
      → s.chan.cap ≡ n
      → Holds s.chan q
      → map some s.sent ≡ s.received ++ map some q
      → rt_channel_recv s.chan [] ≡ returned m c
      → InFlight n (record { chan = c; sent = s.sent; received = s.received ++ m ∷ [] })
  recv-InFlight s [] k h o e = absurd ((recv_inv s.chan e).0 h.count_is)
  recv-InFlight s (x ∷ q) k h o e =
      let (ne, ec, em) = recv_inv s.chan e in
      let (en, h') = next-Holds x h in
      record {
        cap_is = rw ec (cap-drop_head s.chan ∙ k);
        queue = q;
        holds = rw ec h';
        order = o ∙ (rw (em, en) (sym (append_assoc s.received (some x ∷ []) (map some q))));
      }

  Step-InFlight : {n : ℕ} {s t : Traffic A} → Step s t → InFlight n s → InFlight n t
  Step-InFlight {s} (sends msg ok c e) i =
      let (ne, ec) = send_inv msg s.chan e in
      record {
        cap_is = rw ec (cap-put msg s.chan ∙ i.cap_is);
        queue = i.queue ++ msg ∷ [];
        holds = rw ec (put-Holds msg i.holds ne);
        order =
            rw (map-append, map-append, i.order)
              (append_assoc s.received (map some i.queue) (some msg ∷ []));
      }
  Step-InFlight {s} (receives m c e) i = recv-InFlight s i.queue i.cap_is i.holds i.order e

  Reach-InFlight : {n : ℕ} {s t : Traffic A} → Reach s t → InFlight n s → InFlight n t
  Reach-InFlight here i = i
  Reach-InFlight (step r st) i = Step-InFlight st (Reach-InFlight r i)

  -- In whatever order threads send and receive on a new channel of positive capacity, what was received
  -- is what was sent, in order and with nothing lost, repeated or made up, up to a queue of messages
  -- still in the channel, which never holds more than the capacity.
  pub fifo :
      (n : ℕ) {t : Traffic A}
      → 0 < n
      → Reach (start n) t
      → (queue : List A) × (map some t.sent ≡ t.received ++ map some queue)
        × Holds t.chan queue
        × (length queue ≤ n)
  fifo n h r =
      let i = Reach-InFlight {n = n} r (record {
        cap_is = unfold rt_channel_new in refl;
        queue = [];
        holds = new-Holds n h;
        order = refl;
      }) in
      (i.queue, i.order, i.holds, omega (arith, i.holds.count_is, i.holds.bounded, i.cap_is))

-- Every channel that the waiting thread finds holds a queue.
abbrev pub AllHold {ℓ} : {A : Type ℓ} → Channel A → List (ℕ × Channel A) → Type ℓ
AllHold {A = A} c [] = (q : List A) × Holds c q
AllHold {A = A} c ((code, c') ∷ wakes) = ((q : List A) × Holds c q) × AllHold c' wakes

-- `c` is the channel at the call, or one that a wake-up brings.
pub data Found {ℓ} {A : Type ℓ} (d : Channel A) : Channel A → List (ℕ × Channel A) → Type ℓ where
  now : {wakes : List (ℕ × Channel A)} → Found d d wakes
  later :
      {c c' : Channel A} {code : ℕ} {wakes : List (ℕ × Channel A)}
      → Found d c' wakes
      → Found d c ((code, c') ∷ wakes)

module _ {ℓ} {A : Type ℓ} where
  AllHold-Found :
      (d c : Channel A) (wakes : List (ℕ × Channel A))
      → AllHold c wakes
      → Found d c wakes
      → (q : List A) × Holds d q
  AllHold-Found d c [] a now = a
  AllHold-Found d c (w ∷ wakes) a now = a.0
  AllHold-Found d c ((code, c') ∷ wakes) a (later f) = AllHold-Found d c' wakes a.1 f

  send-Found :
      (msg : A) (c : Channel A) (wakes : List (ℕ × Channel A)) {c' : Channel A} {ok : Bool}
      → rt_channel_send msg c wakes ≡ returned ok c'
      → (d : Channel A) × Found d c wakes × (d.count ≢ d.cap) × (c' ≡ put msg d) × (ok ≡ true)
  unfolding rt_channel_send
  send-Found msg c [] e = (c, now, ground arith, ground arith, ground arith)
  send-Found msg c ((code, w) ∷ wakes) e = elim (Bool-cases (c.count == c.cap)) [
    | inr t ↦ (c, now, ground arith, ground arith, ground arith)
    | inl t ↦ elim (Bool-cases (code == 0)) [
      | inl z ↦
          let (d, f, ne, p, k) = send-Found msg w wakes (rw (t, z) at e) in (d, later f, ne, p, k)
      | inr z ↦ absurd (ground arith)
    ]
  ]

  -- However often a sender is woken and whatever it finds, when its send returns it returns true, and the
  -- message was appended to the queue of a channel that it found with room.
  pub send_lem :
      (msg : A) (c : Channel A) (wakes : List (ℕ × Channel A)) {c' : Channel A} {ok : Bool}
      → AllHold c wakes
      → rt_channel_send msg c wakes ≡ returned ok c'
      → (ok ≡ true)
        × (d : Channel A) × (q : List A) × Found d c wakes
        × Holds d q
        × (length q < d.cap)
        × Holds c' (q ++ msg ∷ [])
  send_lem msg c wakes a e =
      let (d, f, ne, p, k) = send-Found msg c wakes e in
      let (q, h) = AllHold-Found d c wakes a f in
      (k, d, q, f, h, omega (arith, h.count_is, h.bounded), rw p (put-Holds msg h ne))

  -- A call that meets no wake-up waits exactly when the queue is full (for a send) or empty (for a
  -- receive).
  pub waits_iff :
      (msg : A) (c : Channel A) (q : List A)
      → Holds c q
      → ((rt_channel_send msg c [] ≡ waiting c) ↔ (length q ≡ c.cap))
        × ((rt_channel_recv c [] ≡ waiting c) ↔ (q ≡ []))
  unfolding rt_channel_send rt_channel_recv
  waits_iff msg c [] h = (
    ((λ e. ground (arith, h.count_is)), (λ e. ground (arith, h.count_is))),
    ((λ e. refl), (λ e. ground (arith, h.count_is))),
  )
  waits_iff msg c (x ∷ q) h = (
    ((λ e. ground (arith, h.count_is)), (λ e. ground (arith, h.count_is))),
    ((λ e. absurd (ground (arith, h.count_is))), (λ e. cc)),
  )
