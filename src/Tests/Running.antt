-- ===== src/Tests/Running.antt =====
-- Channels and the collector at work.
use sqale.Prelude.{
  ℕ, ◌≡◌, ◌≤◌, ◌<◌, refl, true, false, some, List, [], ◌∷◌, ◌++◌, arith, map, ◌↔◌, length,
}
use sqale.Channel.{
  Channel, waiting, rt_channel_new, put, next, drop_head, rt_channel_send, rt_channel_recv,
}
use sqale.Channel.Fifo.{Holds, put-Holds, new-Holds}
use sqale.Channel.Delivery.{Drained, delivers}
use sqale.Channel.Threads.{
  Traffic, sends, receives, Reach, here, step, start, Found, fifo, send_lem, waits_iff,
}
use sqale.Gc.{Obj, Gc, addresses, gc_alloc, gc_collect}
use sqale.Gc.Sweep.{AllUnmarked, gc_collect_lem, gc_alloc_lem}

-- a channel of two with one message in it
abbrev one_message : Channel ℕ
one_message = put 5 (rt_channel_new 2)

abbrev traffic : Traffic ℕ
traffic = record { chan = drop_head one_message; sent = 5 ∷ []; received = some 5 ∷ [] }

traffic_reached : Reach (start 2) traffic
unfolding rt_channel_send rt_channel_recv rt_channel_new put next drop_head
traffic_reached = step (step here (sends 5 true _ refl)) (receives (some 5) _ refl)

fifo_example :
    (queue : List ℕ) × (map some (5 ∷ []) ≡ (some 5 ∷ []) ++ map some queue)
    × Holds (drop_head one_message) queue
    × (length queue ≤ 2)
fifo_example = fifo 2 (omega arith) traffic_reached

-- One message is in flight.
abbrev in_flight : Traffic ℕ
in_flight = record { chan = one_message; sent = 5 ∷ []; received = [] }

in_flight_reached : Reach (start 2) in_flight
unfolding rt_channel_send rt_channel_new put
in_flight_reached = step here (sends 5 true _ refl)

delivers_example : (k : ℕ) × (k ≤ 2) × Drained k in_flight
delivers_example = delivers 2 (omega arith) in_flight_reached

one_message-Holds : Holds one_message (5 ∷ [])
one_message-Holds =
    put-Holds 5 (new-Holds 2 (omega arith)) (unfold rt_channel_new in λ e. omega arith)

-- a full channel of one, and the same once it has been emptied
abbrev one_five : List ℕ
one_five = 5 ∷ []

abbrev full : Channel ℕ
full = put 5 (rt_channel_new 1)

full-Holds : Holds full (5 ∷ [])
full-Holds = put-Holds 5 (new-Holds 1 (omega arith)) (unfold rt_channel_new in λ e. omega arith)

-- A sender waits on the full channel and is woken once when it is empty.
send_lem_example :
    (true ≡ true)
    × (d : Channel ℕ) × (q : List ℕ) × Found d full ((0, rt_channel_new 1) ∷ [])
    × Holds d q
    × (length q < d.cap)
    × Holds (put 6 (rt_channel_new 1)) (q ++ 6 ∷ [])
unfolding rt_channel_send rt_channel_new put
send_lem_example =
    send_lem 6 full ((0, rt_channel_new 1) ∷ [])
      ((5 ∷ [], full-Holds), ([], new-Holds 1 (omega arith))) refl

waits_iff_example :
    ((rt_channel_send 6 full [] ≡ waiting full) ↔ (1 ≡ full.cap))
    × ((rt_channel_recv full [] ≡ waiting full) ↔ (one_five ≡ []))
waits_iff_example = waits_iff 6 full (5 ∷ []) full-Holds

abbrev unmarked : ℕ → Obj
unmarked a = record { addr = a; marked = false; tag = 1 }

-- three objects, of which the callback marks the second; 1048570 bytes were allocated
abbrev heap : Gc
heap = record {
  objects = unmarked 30 ∷ unmarked 20 ∷ unmarked 10 ∷ [];
  bytes_allocated = 1048570;
  next_threshold = 1048576;
  mark_root_cb = some (20 ∷ []);
  freed = [];
}

gc_collect_lem_example :
    (addresses (gc_collect heap).objects ≡ 20 ∷ [])
    × ((gc_collect heap).freed ≡ 30 ∷ 10 ∷ [])
    × AllUnmarked (gc_collect heap).objects
gc_collect_lem_example = gc_collect_lem heap (refl, (refl, (refl, tt)))

gc_alloc_lem_example :
    (addresses (gc_alloc 40 24 1 heap).objects ≡ 20 ∷ [])
    × ((gc_alloc 40 24 1 heap).freed ≡ 40 ∷ 30 ∷ 10 ∷ [])
    × ((gc_alloc 40 24 1 heap).next_threshold ≡ 2097152)
    × AllUnmarked (gc_alloc 40 24 1 heap).objects
gc_alloc_lem_example = gc_alloc_lem 40 24 1 heap (refl, (refl, (refl, tt)))
