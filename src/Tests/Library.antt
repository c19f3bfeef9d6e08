-- ===== src/Tests/Library.antt =====
-- The library functions at work: maps, comparisons and strings.
use sqale.Prelude.{
  ℕ, zero, suc, ◌+◌, ◌*◌, ◌≡◌, ◌≤◌, ◌<◌, refl, sym, not, Option, none, some, List, [], ◌∷◌, ◌++◌,
  arith, ◌==◌, ltb, leb, if◌then◌else◌, ◌>>=◌, Bytes, bytes_eq, bytes_eq_refl, ◌%◌,
}
use sqale.Prelude.Int.{ℤ, pos, negsuc}
use sqale.Maps.{
  Map, xor, hash_bytes, hash_str, home, map_new_gc, map_set_pair, map_get_pair, set_from, get_from,
}
use sqale.Maps.Probing.{slot, Probe}
use sqale.Maps.Lookup.{Valid}
use sqale.Maps.Contract.{map_set_pair_lem, map_set_pair_endless, map_new_gc_lem}
use sqale.Runtime.{Value, FloatOps, int, str}
use sqale.Runtime.Compare.{rt_eq, rt_lt, rt_gt, rt_le, rt_ge}
use sqale.Runtime.Order.{negated, either, int_order}
use sqale.Prelude.{◌<◌}
use sqale.Prelude.Int.{◌+ℤ◌, ◌*ℤ◌}
use sqale.Runtime.Arith.{quot, rt_div, rt_mod}
use sqale.Runtime.Division.{abs, SignOf, rt_div-rt_mod}
use sqale.Runtime.Strings.{rt_str_slice, rt_str_concat, rt_str_index, rt_str_split_ws}
use sqale.Runtime.Slices.{rt_str_concat-slice}
use sqale.Runtime.Search.{IsFirst, rt_str_index-IsFirst}
use sqale.Runtime.Words.{rt_str_split_ws-words}

abbrev key_a : Bytes
key_a = b'a' ∷ []

abbrev key_b : Bytes
key_b = b'b' ∷ []

new_map-Valid :
    Valid (map_new_gc 16)
    × ((map_new_gc 16).len ≡ 0)
    × (8 ≤ (map_new_gc 16).cap)
    × (map_get_pair (map_new_gc 16).cap (map_new_gc 16) key_a ≡ some none)
new_map-Valid = map_new_gc_lem 16 key_a

map_set_pair_lem_example :
    (m' : Map) × (map_set_pair (map_new_gc 16).cap (map_new_gc 16) key_a (pos 7) ≡ some m')
    × Valid m'
    × (m'.cap ≡ (map_new_gc 16).cap)
    × ((k' : Bytes)
        → map_get_pair (map_new_gc 16).cap m' k' ≡ (
            if bytes_eq key_a k'
            then some (some (pos 7))
            else map_get_pair (map_new_gc 16).cap (map_new_gc 16) k'))
map_set_pair_lem_example =
    map_set_pair_lem (map_new_gc 16) key_a (pos 7) new_map-Valid.0
      (unfold map_new_gc in omega arith)

-- a map with one slot, which is used
abbrev full_map : Map
full_map = record { slots = some (key_a, pos 7) ∷ []; cap = 1; len = 1 }

full_map_reach :
    (i : ℕ) (k : Bytes) (v : ℤ)
    → slot full_map.slots i ≡ some (k, v)
    → (n : ℕ) × Probe 1 full_map.slots k n (hash_str k % 1) i × (n < 1)
full_map_reach zero k v e =
    let same : key_a ≡ k = cc in
    let h : hash_str k % 1 ≡ 0 = omega arith in
    (0, (h, rw (h, sym same) (bytes_eq_refl key_a)), omega arith)
full_map_reach (suc i) k v e = absurd (cc e)

full_map-Valid : Valid full_map
full_map-Valid = record {
  positive = omega arith;
  size = refl;
  counted = refl;
  reach = full_map_reach;
}

map_set_pair_endless_example : map_set_pair 1000 full_map key_b (pos 8) ≡ none
unfolding map_get_pair get_from home hash_str hash_bytes xor
map_set_pair_endless_example =
    map_set_pair_endless 1000 full_map key_b (pos 8) full_map-Valid refl refl

-- Sixteen keys in a new map, and a seventeenth, on fuel 100.
abbrev set_all : ℕ → Option Map → Option Map
set_all zero m = m
set_all (suc n) m = do m' ← set_all n m; map_set_pair 100 m' (n ∷ []) (pos n)

abbrev sixteen : Option Map
sixteen = set_all 16 (some (map_new_gc 16))

abbrev cap_len : Option Map → ℕ × ℕ
cap_len none = (0, 0)
cap_len (some m) = (m.cap, m.len)

sixteen_fit : cap_len sixteen ≡ (16, 16)
unfolding map_new_gc map_set_pair set_from home hash_str hash_bytes xor
sixteen_fit = refl

seventeenth : set_all 17 (some (map_new_gc 16)) ≡ none
unfolding map_new_gc map_set_pair set_from home hash_str hash_bytes xor
seventeenth = refl

-- a stand-in for the arithmetic of `double`, on non-negative numbers
abbrev float_ops : FloatOps
float_ops = record {
  add = λ a b. a + b;
  sub = λ a b. a;
  mul = λ a b. a * b;
  div = λ a b. a;
  neg = λ a. a;
  eq = λ a b. a == b;
  ne = λ a b. not (a == b);
  lt = ltb;
  le = leb;
}

abbrev two_ints : List Value
two_ints = int (negsuc 4) ∷ int (pos 3) ∷ []

int_order_example :
    (rt_le float_ops two_ints ≡ either (rt_lt float_ops two_ints) (rt_eq float_ops two_ints))
    × (rt_gt float_ops two_ints ≡ rt_lt float_ops (int (pos 3) ∷ int (negsuc 4) ∷ []))
    × (rt_gt float_ops two_ints ≡ negated (rt_le float_ops two_ints))
    × (rt_ge float_ops two_ints ≡ negated (rt_lt float_ops two_ints))
int_order_example = int_order float_ops (negsuc 4) (pos 3)

rt_str_concat-slice_example :
    (rt_str_slice (str (some (key_a ++ key_b)) ∷ int (pos 0) ∷ int (pos 1) ∷ []) >>= λ left.
    rt_str_slice (str (some (key_a ++ key_b)) ∷ int (pos 1) ∷ int (pos 2) ∷ []) >>= λ right.
    rt_str_concat (left ∷ right ∷ []))
    ≡ some (str (some (key_a ++ key_b)))
rt_str_concat-slice_example = rt_str_concat-slice (key_a ++ key_b) (pos 1)

rt_str_index-IsFirst_example :
    (z : ℤ) × (rt_str_index (str (some (key_a ++ key_b)) ∷ str (some key_b) ∷ []) ≡ some (int z))
    × IsFirst (key_a ++ key_b) key_b z
rt_str_index-IsFirst_example = rt_str_index-IsFirst (key_a ++ key_b) key_b

rt_str_split_ws-words_example :
    rt_str_split_ws (32 ∷ 97 ∷ 98 ∷ 10 ∷ 99 ∷ 32 ∷ []) ≡ some ((97 ∷ 98 ∷ []) ∷ (99 ∷ []) ∷ [])
rt_str_split_ws-words_example = rt_str_split_ws-words (32 ∷ 97 ∷ 98 ∷ 10 ∷ 99 ∷ 32 ∷ [])

rt_div-rt_mod_example :
    (q : ℤ) × (r : ℤ) × (rt_div float_ops (int (negsuc 6) ∷ int (pos 2) ∷ []) ≡ some (int q))
    × (rt_mod (int (negsuc 6) ∷ int (pos 2) ∷ []) ≡ some (int r))
    × (q *ℤ pos 2 +ℤ r ≡ negsuc 6)
    × (abs r < 2)
    × SignOf (negsuc 6) r
unfolding quot
rt_div-rt_mod_example = rt_div-rt_mod float_ops (negsuc 6) (pos 2) refl refl
