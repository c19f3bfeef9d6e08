-- ===== src/Maps.antt =====
-- src/runtime.c and include/value.h: the map from strings to integers, with linear probing.
-- A slot with `used` 0 is `none`; a used one is its key's bytes and its value. A loop that is still
-- going when its fuel is spent gives `none`.
pub mod Probing
pub mod Lookup
pub mod Finite
pub mod Contract
use sqale.Prelude.{
  ℕ, zero, suc, ◌+◌, ◌*◌, ◌/◌, ◌%◌, ◌^◌, Bool, true, false, Option, none, some, List, [], ◌∷◌, ltb,
  ◌==◌, if◌then◌else◌, ◌>>=◌, Bytes, bytes_eq, get_or, set, replicate,
}
use sqale.Prelude.Int.{ℤ, pos}

abbrev pub MapEntry : Type 0
MapEntry = Option (Bytes × ℤ)

pub record Map : Type 0 where
  pub slots : List MapEntry
  pub cap : ℕ
  pub len : ℕ

-- the exclusive or of the lowest `n` bits
unfoldable pub xor : ℕ → ℕ → ℕ → ℕ
xor zero a b = 0
xor (suc n) a b = (a + b) % 2 + 2 * xor n (a / 2) (b / 2)

-- the loop of `hash_str`, from the hash so far
unfoldable pub hash_bytes : ℕ → Bytes → ℕ
unfolding xor
hash_bytes h [] = h
hash_bytes h (c ∷ cs) = hash_bytes (xor 64 h c * 1099511628211 % 2 ^ 64) cs

unfoldable pub hash_str : Bytes → ℕ
unfolding hash_bytes
hash_str s = hash_bytes 1469598103934665603 s

unfoldable pub map_new_gc : ℕ → Map
map_new_gc cap =
    let c = if ltb 8 cap then cap else 8 in record { slots = replicate c none; cap = c; len = 0 }

-- the slot where the search for a key begins
unfoldable pub home : Map → Bytes → ℕ
unfolding hash_str
home m k = hash_str k % m.cap

-- the loop of `map_set_pair` at slot `i`, and the insertion behind it
unfoldable pub set_from : ℕ → Map → Bytes → ℤ → ℕ → Option Map
set_from zero m k val i = none
set_from (suc f) m k val i =
    let next = set_from f m k val ((i + 1) % m.cap) in
    elim (get_or m.slots i none) [
      | none ↦ some (record m { slots = set m.slots i (some (k, val)); len = m.len + 1 })
      | some (key, old) ↦
          if bytes_eq key k
          then some (record m { slots = set m.slots i (some (key, val)) })
          else next
    ]

unfoldable pub map_set_pair : ℕ → Map → Bytes → ℤ → Option Map
unfolding set_from home
map_set_pair f m k val = set_from f m k val (home m k)

-- the loop of `map_get_pair` at slot `i`: the inner option is the result with its `out`
unfoldable pub get_from : ℕ → Map → Bytes → ℕ → ℕ → Option (Option ℤ)
get_from zero m k start i = none
get_from (suc f) m k start i =
    let j = (i + 1) % m.cap in
    let next = get_from f m k start j in
    elim (get_or m.slots i none) [
      | none ↦ some none
      | some (key, val) ↦
          if bytes_eq key k then some (some val) else if j == start then some none else next
    ]

unfoldable pub map_get_pair : ℕ → Map → Bytes → Option (Option ℤ)
unfolding get_from home
map_get_pair f m k = get_from f m k (home m k) (home m k)

unfoldable pub rt_map_new : Map
unfolding map_new_gc
rt_map_new = map_new_gc 16

-- `rt_map_get` of a map and a string: an absent key reads as 0
unfoldable pub rt_map_get : ℕ → Map → Bytes → Option ℤ
unfolding map_get_pair
rt_map_get f m k = do
  found ← map_get_pair f m k
  some (elim found [ none ↦ pos 0 | some val ↦ val ])

-- `rt_map_set` of a map, a string and an integer
unfoldable pub rt_map_set : ℕ → Map → Bytes → ℤ → Option Map
unfolding map_set_pair
rt_map_set f m k val = map_set_pair f m k val

unfoldable pub rt_map_len : Map → ℤ
rt_map_len m = pos m.len
