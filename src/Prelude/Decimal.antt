-- ===== src/Prelude/Decimal.antt =====
-- Numbers in decimal digits, as `printf` writes them.
use Prim.Native.Nat.{ℕ, zero, suc, ◌+◌, ◌/◌, ◌%◌}
use mathlib.Core.List.{[], ◌∷◌}
use sqale.Prelude.Tests.{Bytes, ltb, if◌then◌else◌}
use sqale.Prelude.Int.{ℤ, pos, negsuc}

-- the digits of `n` in front of `acc`
unfoldable pub digits : ℕ → ℕ → Bytes → Bytes
digits zero n acc = acc
digits (suc f) n acc =
    let rest = digits f (n / 10) ((48 + n % 10) ∷ acc) in if ltb n 10 then (48 + n) ∷ acc else rest

unfoldable pub decimal : ℕ → Bytes
unfolding digits
decimal n = digits (suc n) n []

unfoldable pub decimal_int : ℤ → Bytes
unfolding decimal
decimal_int (pos n) = decimal n
decimal_int (negsuc n) = b'-' ∷ decimal (suc n)
