-- ===== src/Collections/Slots.antt =====
-- src/runtime.c: the array of a vector. The fields of `Vector` are those of the `Vec` of src/vec.c, and an append
-- writes as it does there; a slot that was never written is `none`. The capacity is an `int32_t`, whose
-- overflow is undefined, and so is the read of a slot that is not there or was never written. `malloc` and
-- `realloc` succeed.
use sqale.Prelude.{
  ◌>>=◌, ℕ, ◌*◌, ◌^◌, Option, none, some, List, [], ◌∷◌, ◌++◌, ltb, ◌==◌, if◌then◌else◌, get_or,
  replicate,
}
use sqale.Prelude.Int.{ℤ, pos, negsuc}
use sqale.Buffers.{Vec, append}
use sqale.Runtime.{Value, unit}

-- an empty vector with `cap` slots, or four
unfoldable pub vec_new_gc : ℕ → Vec Value
vec_new_gc cap =
    let slots = if cap == 0 then 4 else cap in
    record { data_of = replicate slots none; len = 0; cap = slots }

-- `realloc` to twice the capacity when the array is full
unfoldable pub vec_room : Vec Value → Option (Vec Value)
vec_room v =
    if v.len == v.cap
    then if ltb (v.cap * 2) (2 ^ 31)
      then some (record v { data_of = v.data_of ++ replicate v.cap none; cap = v.cap * 2 })
      else none
    else some v

unfoldable pub push_item : Value → Vec Value → Option (Vec Value)
unfolding vec_room append
push_item x v = do w ← vec_room v; append x w

-- the items of a new vector that has room for them
unfoldable pub put_items : List Value → Vec Value → Option (Vec Value)
unfolding append
put_items [] v = some v
put_items (x ∷ xs) v = do w ← append x v; put_items xs w

unfoldable pub push_items : List Value → Vec Value → Option (Vec Value)
unfolding push_item
push_items [] v = some v
push_items (x ∷ xs) v = do w ← push_item x v; push_items xs w

-- the item at an index of type `int64_t`: unit out of range
unfoldable pub vec_at : Vec Value → ℤ → Option Value
vec_at v (pos i) = if ltb i v.len then get_or v.data_of i none else some unit
vec_at v (negsuc i) = some unit
