-- ===== src/Channel.antt =====
-- src/channel.c and include/thread.h: bounded channels between threads.
-- Everything between the lock and the unlock of the mutex is one step. What a wait on a condition
-- variable brings is the environment's: a list of wake-ups, each with the code that `wait_ms` returns
-- and the channel as the waiting thread finds it then.
pub mod Fifo
pub mod Threads
pub mod Delivery
use sqale.Prelude.{
  ℕ, zero, suc, ◌+◌, ◌-◌, ◌%◌, Bool, true, false, Option, none, some, List, [], ◌∷◌, ◌==◌,
  if◌then◌else◌, get_or, set, replicate,
}

-- A slot that was never written is `none`.
pub record Channel {ℓ} (A : Type ℓ) : Type ℓ where
  pub buf : List (Option A)
  pub cap : ℕ
  pub head : ℕ
  pub tail : ℕ
  pub count : ℕ

-- How a call ends: it still waits when the wake-ups are used up, it gives up, or it is done.
pub data Outcome {ℓ κ} (A : Type ℓ) (R : Type κ) : Type (ℓ ⊔ κ) where
  waiting : Channel A → Outcome A R
  timed_out : Channel A → Outcome A R
  returned : R → Channel A → Outcome A R

module _ {ℓ} {A : Type ℓ} where
  unfoldable pub rt_channel_new : ℕ → Channel A
  rt_channel_new capacity = record {
    buf = replicate capacity none;
    cap = capacity;
    head = 0;
    tail = 0;
    count = 0;
  }

  -- the body of `rt_channel_send` behind its loop
  unfoldable pub put : A → Channel A → Channel A
  put msg c = record c {
    buf = set c.buf c.tail (some msg);
    tail = (c.tail + 1) % c.cap;
    count = c.count + 1;
  }

  -- the message that `rt_channel_recv` reads, and the channel that it leaves; it runs at `count ≢ 0`
  unfoldable pub next : Channel A → Option A
  next c = get_or c.buf c.head none

  unfoldable pub drop_head : Channel A → Channel A
  drop_head c = record c { head = (c.head + 1) % c.cap; count = c.count - 1 }

  unfoldable pub rt_channel_send : A → Channel A → List (ℕ × Channel A) → Outcome A Bool
  rt_channel_send msg c [] = if c.count == c.cap then waiting c else returned true (put msg c)
  rt_channel_send msg c ((code, c') ∷ wakes) =
      let again = rt_channel_send msg c' wakes in
      if c.count == c.cap
      then (if code == 0 then again else timed_out c')
      else returned true (put msg c)

  unfoldable pub rt_channel_recv : Channel A → List (ℕ × Channel A) → Outcome A (Option A)
  rt_channel_recv c [] = if c.count == 0 then waiting c else returned (next c) (drop_head c)
  rt_channel_recv c ((code, c') ∷ wakes) =
      let again = rt_channel_recv c' wakes in
      if c.count == 0
      then (if code == 0 then again else timed_out c')
      else returned (next c) (drop_head c)
