-- ===== src/Buffers.antt =====
-- src/vec.c and include/vec.h: the growing array of pointers.
-- `data` has one slot for each of the `cap` pointers that were allocated, and a slot that was never
-- written is `none`. `realloc` keeps the slots, and whether it succeeds is an argument. A result
-- `none` is a loop still going when its fuel is spent, or a write outside the array.
pub mod Growth
pub mod Vectors
use sqale.Prelude.{
  ℕ, zero, suc, ◌+◌, ◌-◌, ◌*◌, ◌%◌, ◌^◌, Bool, true, false, Option, none, some, List, [], ◌∷◌, ◌++◌,
  ltb, leb, ◌==◌, if◌then◌else◌, ◌>>=◌, length, get_or, set, replicate,
}

pub record Vec {ℓ} (A : Type ℓ) : Type ℓ where
  pub data_of : List (Option A)
  pub len : ℕ
  pub cap : ℕ

-- `while (nc < need) nc *= 2` on `size_t`
unfoldable pub double_until : ℕ → ℕ → ℕ → Option ℕ
double_until zero nc need = none
double_until (suc f) nc need =
    let more = double_until f (nc * 2 % 2 ^ 64) need in if ltb nc need then more else some nc

module _ {ℓ} {A : Type ℓ} where
  unfoldable pub vec_init : Vec A
  vec_init = record { data_of = []; len = 0; cap = 0 }

  unfoldable pub vec_reserve : Bool → ℕ → Vec A → Option (Vec A)
  unfolding double_until
  vec_reserve ok need v =
      let grown : Option (Vec A) = do
        nc ← double_until 65 (if v.cap == 0 then 8 else v.cap) need
        some (
            if ok
            then record v { data_of = v.data_of ++ replicate (nc - v.cap) none; cap = nc }
            else v)
      in if leb need v.cap then some v else grown

  -- `v->data[v->len++] = item`
  unfoldable pub append : A → Vec A → Option (Vec A)
  append item v =
      if ltb v.len v.cap
      then some (record v { data_of = set v.data_of v.len (some item); len = v.len + 1 })
      else none

  unfoldable pub vec_push : Bool → A → Vec A → Option (Vec A)
  unfolding vec_reserve append
  vec_push ok item v = do
    v' ← (if ltb v.cap (v.len + 1) then vec_reserve ok (v.len + 1) v else some v)
    append item v'

  -- NULL is `none`.
  unfoldable pub vec_get : ℕ → Vec A → Option A
  vec_get i v = if ltb i v.len then get_or v.data_of i none else none

  unfoldable pub vec_set : ℕ → A → Vec A → Vec A
  vec_set i item v = if ltb i v.len then record v { data_of = set v.data_of i (some item) } else v

  unfoldable pub vec_free : Vec A → Vec A
  vec_free v = record { data_of = []; len = 0; cap = 0 }
