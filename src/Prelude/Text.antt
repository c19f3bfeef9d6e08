-- ===== src/Prelude/Text.antt =====
-- C strings: literals, the bytes before the terminating zero, `strncmp` and `strstr`.
use Prim.Native.Nat.{ℕ, zero, suc}
use Prim.Native.String.{String}
use Prim.Native.Char.{code}
use mathlib.Core.Bool.{Bool, true, false, ◌&&◌}
use mathlib.Core.Option.{Option, none, some}
use mathlib.Core.List.{[], ◌∷◌}
use sqale.Prelude.Tests.{Bytes, ◌==◌, if◌then◌else◌}

-- the bytes of an ASCII literal
abbrev pub codes : String → Bytes
codes String.[] = []
codes (String.◌∷◌ c s) = code c ∷ codes s

-- what a function on C strings reads of a buffer
abbrev pub c_string : Bytes → Bytes
c_string [] = []
c_string (c ∷ cs) = let rest = c_string cs in if c == 0 then [] else c ∷ rest

-- `strncmp(a, b, n) == 0`, where both end in a zero byte
abbrev pub strncmp_eq : ℕ → Bytes → Bytes → Bool
strncmp_eq zero a b = true
strncmp_eq (suc n) [] [] = true
strncmp_eq (suc n) [] (d ∷ b) = d == 0
strncmp_eq (suc n) (c ∷ a) [] = c == 0
strncmp_eq (suc n) (c ∷ a) (d ∷ b) =
    let rest = strncmp_eq n a b in if c == d then (if c == 0 then true else rest) else false

abbrev pub starts_with : Bytes → Bytes → Bool
starts_with [] s = true
starts_with (c ∷ cs) [] = false
starts_with (c ∷ cs) (d ∷ ds) = c == d && starts_with cs ds

abbrev pub put_first : ℕ → Option (Bytes × Bytes) → Option (Bytes × Bytes)
put_first c none = none
put_first c (some (a, b)) = some (c ∷ a, b)

-- `strstr`: the text before the first place where `needle` stands, and the text from there on
abbrev pub split_at : Bytes → Bytes → Option (Bytes × Bytes)
split_at needle [] = if starts_with needle [] then some ([], []) else none
split_at needle (c ∷ cs) =
    let rest = put_first c (split_at needle cs) in
    if starts_with needle (c ∷ cs) then some ([], c ∷ cs) else rest

abbrev pub strstr : Bytes → Bytes → Bool
strstr text needle = elim (split_at needle text) [ none ↦ false | some parts ↦ true ]
