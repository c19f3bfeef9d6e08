-- ===== src/Channel/Delivery.antt =====
-- src/channel.c: messages that were sent can be received.
use sqale.Prelude.{
  ℕ, suc, ◌<◌, ◌≤◌, ◌≡◌, refl, ◌∙◌, sym, Option, some, List, [], ◌∷◌, ◌++◌, map, arith, length,
  append-nil, append_assoc,
}
use sqale.Channel.{Channel, returned, next, drop_head, rt_channel_recv}
use sqale.Channel.Fifo.{Holds, next-Holds}
use sqale.Channel.Threads.{Traffic, Reach, start, fifo}

module _ {ℓ} {A : Type ℓ} where
  recv_returns :
      (c : Channel A) (x : A) (q : List A)
      → Holds c (x ∷ q)
      → rt_channel_recv c [] ≡ returned (next c) (drop_head c)
  unfolding rt_channel_recv
  recv_returns c x q h = ground (arith, h.count_is)

  -- a run that only receives, with the number of its steps
  pub data Receives : ℕ → Traffic A → Traffic A → Type ℓ where
    none_more : {s : Traffic A} → Receives 0 s s
    and_then :
        {n : ℕ} {s u : Traffic A} {m : Option A} {c : Channel A}
        → rt_channel_recv s.chan [] ≡ returned m c
        → Receives n (record { chan = c; sent = s.sent; received = s.received ++ m ∷ [] }) u
        → Receives (suc n) s u

  -- a run of receives that has delivered everything that was sent
  abbrev pub Drained : ℕ → Traffic A → Type ℓ
  Drained n s =
      (u : Traffic A) × Receives n s u × (u.sent ≡ s.sent) × (u.received ≡ map some s.sent)

  drains :
      (q : List A) (s : Traffic A)
      → Holds s.chan q
      → map some s.sent ≡ s.received ++ map some q
      → Drained (length q) s
  drains [] s h o = (s, Receives.none_more, refl, sym (append-nil s.received) ∙ sym o)
  drains (x ∷ q) s h o =
      let (e, h') = next-Holds x h in
      let t : Traffic A = record {
        chan = drop_head s.chan;
        sent = s.sent;
        received = s.received ++ next s.chan ∷ [];
      } in
      let o' : map some s.sent ≡ t.received ++ map some q =
        o ∙ (rw e (sym (append_assoc s.received (some x ∷ []) (map some q)))) in
      let (u, r, same, all) = drains q t h' o' in
      (u, Receives.and_then (recv_returns s.chan x q h) r, same, all)

  -- Whatever threads did on a new channel of positive capacity, everything that was sent can still be
  -- delivered: some number of receives, at most the capacity, each of which returns without waiting,
  -- ends with all messages received, in the order in which they were sent.
  pub delivers :
      (n : ℕ) {s : Traffic A} → 0 < n → Reach (start n) s → (k : ℕ) × (k ≤ n) × Drained k s
  delivers n {s} pos r = let (q, o, h, le) = fifo n pos r in (length q, le, drains q s h o)
