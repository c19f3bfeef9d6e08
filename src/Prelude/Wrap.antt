-- ===== src/Prelude/Wrap.antt =====
-- Indices that go round a buffer of `cap` slots.
use Prim.Native.Nat.{ℕ, suc, ◌+◌, ◌-◌, ◌%◌, ◌<◌}
use mathlib.Core.Path.{◌≡◌}
use mathlib.Core.Logic.{◌≢◌}
use native.Mathlib.Decide.{dec_lt}
use native.Mathlib.Nat.{mod-eq_of_lt, mod-eq-sub-mod}
use native.Mathlib.Omega.{arith}
use sqale.Prelude.Tests.{ltb, if◌then◌else◌}

-- an index that has gone round at most once
abbrev pub wrap : ℕ → ℕ → ℕ
wrap cap x = if ltb x cap then x else x - cap

pub mod-eq-wrap : (cap x : ℕ) → x < cap + cap → x % cap ≡ wrap cap x
mod-eq-wrap cap x h = elim (dec_lt x cap) [
  | yes lt ↦ ground (arith, mod-eq_of_lt lt)
  | no ge ↦ ground (
    arith,
    mod-eq-sub-mod {n = x} {m = cap} (omega arith),
    mod-eq_of_lt {n = x - cap} {m = cap} (omega arith),
  )
]

-- Two places less than `cap` apart are two slots.
pub slot_ne : (cap h i n : ℕ) → h < cap → i < n → n < cap → (h + n) % cap ≢ (h + i) % cap
slot_ne cap h i n hh hi hn =
    ground (arith, mod-eq-wrap cap (h + i) (omega arith), mod-eq-wrap cap (h + n) (omega arith))

-- The slot `i` behind the next head is the slot `i + 1` behind this one.
pub slot-suc :
    (cap h i : ℕ) → h < cap → i + 1 < cap + 1 → ((h + 1) % cap + i) % cap ≡ (h + suc i) % cap
slot-suc cap h i hh hi = ground (
  arith,
  mod-eq-wrap cap (h + 1) (omega arith),
  mod-eq-wrap cap (h + suc i) (omega arith),
  mod-eq-wrap cap ((h + 1) % cap + i) (omega arith),
)

-- The slot behind the slot `n` places on is the slot `n + 1` places on.
pub tail-suc : (cap h n : ℕ) → h < cap → n < cap → ((h + n) % cap + 1) % cap ≡ (h + (n + 1)) % cap
tail-suc cap h n hh hn = ground (
  arith,
  mod-eq-wrap cap (h + n) (omega arith),
  mod-eq-wrap cap (h + (n + 1)) (omega arith),
  mod-eq-wrap cap ((h + n) % cap + 1) (omega arith),
)
