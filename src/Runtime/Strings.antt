-- ===== src/Runtime/Strings.antt =====
-- src/runtime.c: strings.
use sqale.Prelude.{
  ℕ, zero, suc, ◌+◌, ◌-◌, Bool, ◌||◌, Option, none, some, List, [], ◌∷◌, ◌++◌, if◌then◌else◌, ◌==◌,
  Bytes, bytes_eq, ltb, length, take, drop,
}
use sqale.Prelude.Int.{ℤ, pos, negsuc, ltb_ℤ, pos_part}
use sqale.Runtime.{Value, int, str}

unfoldable pub rt_str_concat : List Value → Option Value
rt_str_concat (str (some a) ∷ str (some b) ∷ []) = some (str (some (a ++ b)))
rt_str_concat (str a ∷ str b ∷ []) = none
rt_str_concat _ = some (str none)

unfoldable pub rt_str_len : List Value → Option Value
rt_str_len (str (some a) ∷ []) = some (int (pos (length a)))
rt_str_len (str none ∷ []) = none
rt_str_len _ = some (int (pos 0))

-- the bytes from `start` to `end` after both are brought into the string; `end` may stay negative
unfoldable pub slice : Bytes → ℤ → ℤ → Bytes
slice s start end =
    let from : ℕ = pos_part start in
    let to : ℤ = if ltb_ℤ (pos (length s)) end then pos (length s) else end in
    if ltb_ℤ (pos from) to then take (pos_part to - from) (drop from s) else []

unfoldable pub rt_str_slice : List Value → Option Value
unfolding slice
rt_str_slice (str (some s) ∷ int start ∷ int end ∷ []) = some (str (some (slice s start end)))
rt_str_slice (str none ∷ int start ∷ int end ∷ []) = none
rt_str_slice _ = some (str none)

-- the loop of `rt_str_index` from offset `i` on, with `n` offsets left
unfoldable pub index_from : ℕ → Bytes → Bytes → ℕ → ℤ
index_from zero hay needle i = negsuc 0
index_from (suc n) hay needle i =
    let next = index_from n hay needle (i + 1) in
    if bytes_eq (take (length needle) (drop i hay)) needle then pos i else next

unfoldable pub index_of : Bytes → Bytes → ℤ
unfolding index_from
index_of hay needle =
    if length needle == 0
    then pos 0
    else if ltb (length hay) (length needle)
    then negsuc 0
    else index_from (length hay - length needle + 1) hay needle 0

unfoldable pub rt_str_index : List Value → Option Value
unfolding index_of
rt_str_index (str (some hay) ∷ str (some needle) ∷ []) = some (int (index_of hay needle))
rt_str_index (str none ∷ str (some needle) ∷ []) =
    if length needle == 0 then some (int (pos 0)) else none
rt_str_index (str hay ∷ str none ∷ []) = none
rt_str_index _ = some (int (negsuc 0))

abbrev pub is_ws : ℕ → Bool
is_ws c = c == b' ' || c == b'\n' || c == b'\t' || c == b'\r'

-- The two inner loops of `rt_str_split_ws`, and the outer one: the words in the rest of the string. A word
-- is kept when it is not empty.
unfoldable pub skip_ws : Bytes → Bytes
skip_ws [] = []
skip_ws (c ∷ cs) = if is_ws c then skip_ws cs else c ∷ cs

unfoldable pub split_word : Bytes → Bytes × Bytes
split_word [] = ([], [])
split_word (c ∷ cs) =
    let (word, rest) = split_word cs in if is_ws c then ([], c ∷ cs) else (c ∷ word, rest)

unfoldable pub split_ws : ℕ → Bytes → Option (List Bytes)
unfolding skip_ws split_word
split_ws f [] = some []
split_ws zero (c ∷ cs) = none
split_ws (suc f) (c ∷ cs) =
    let (word, rest) = split_word (skip_ws (c ∷ cs)) in
    elim (split_ws f rest) [
      | none ↦ none
      | some words ↦ some (if length word == 0 then words else word ∷ words)
    ]

-- the bytes of the strings in the vector that the C function returns
unfoldable pub rt_str_split_ws : Bytes → Option (List Bytes)
unfolding split_ws
rt_str_split_ws s = split_ws (length s) s
