-- ===== src/Collections.antt =====
-- src/runtime.c: the library functions on vectors, lists, symbols, options, results and structs.
-- A function takes its arguments as a list. An address of an object of another kind, and a NULL that is
-- followed, are undefined. The lengths of
-- lists stay below 2^31.
pub mod Slots
pub mod Options
pub mod Vectors
pub mod Lists
use sqale.Prelude.{
  ℕ, ◌+◌, ◌-◌, Bool, true, false, not, Option, none, some, List, [], ◌∷◌, ◌++◌, c_string,
  strncmp_eq, length, ltb, get_elem?, set, ◌==◌, if◌then◌else◌,
}
use sqale.Prelude.Int.{ℤ, pos, negsuc}
use sqale.Runtime.{Value, int, bool, str, unit, symbol, list, vec, option, result, struct}
use sqale.Buffers.{Vec}
use sqale.Collections.Slots.{vec_new_gc, put_items, push_item, vec_at}
use sqale.Machine.{
  Object, vector, val_list, option_val, result_val, struct_val, Run, ◌>>=◌, pure, undefined,
  defined, alloc, object, update,
}

-- the array of a vector, the items of a list (which may be NULL), and those of a struct
abbrev pub array_of : Object → Run (Vec Value)
array_of (vector v) = pure v
array_of _ = undefined

unfoldable pub vec_array : Option ℕ → Run (Vec Value)
unfolding object
vec_array none = undefined
vec_array (some a) = object a >>= array_of

abbrev pub list_items_of : Object → Run (List Value)
list_items_of (val_list vs) = pure vs
list_items_of _ = undefined

unfoldable pub list_items : Option ℕ → Run (List Value)
unfolding object
list_items none = pure []
list_items (some a) = object a >>= list_items_of

abbrev pub field_items : Object → Run (List Value)
field_items (struct_val name vs) = pure vs
field_items _ = undefined

abbrev pub new_list : List Value → Run Value
new_list vs = alloc (val_list vs) >>= λ a. pure (list (some a))

-- the field at an index of type `int64_t`
unfoldable pub item_at : List Value → ℤ → Value
item_at vs (pos i) = elim (get_elem? vs i) [ none ↦ unit | some v ↦ v ]
item_at vs (negsuc i) = unit

unfoldable pub rt_vec_new : List Value → Run Value
unfolding alloc vec_new_gc put_items
rt_vec_new args = do
  v ← defined (put_items args (vec_new_gc (length args)))
  a ← alloc (vector v)
  pure (vec (some a))

unfoldable pub rt_vec_push : List Value → Run Value
unfolding object update push_item
rt_vec_push (vec (some a) ∷ x ∷ []) = do
  v ← object a >>= array_of
  w ← defined (push_item x v)
  ok ← update a (vector w)
  pure unit
rt_vec_push (vec none ∷ x ∷ []) = undefined
rt_vec_push _ = pure unit

unfoldable pub rt_vec_get : List Value → Run Value
unfolding vec_array vec_at
rt_vec_get (vec a ∷ int i ∷ []) = do v ← vec_array a; defined (vec_at v i)
rt_vec_get _ = pure unit

unfoldable pub rt_vec_len : List Value → Run Value
unfolding vec_array
rt_vec_len (vec a ∷ []) = do v ← vec_array a; pure (int (pos v.len))
rt_vec_len _ = pure (int (pos 0))

unfoldable pub rt_is_list : List Value → Run Value
rt_is_list (list l ∷ []) = pure (bool true)
rt_is_list _ = pure (bool false)

unfoldable pub rt_is_symbol : List Value → Run Value
rt_is_symbol (symbol s ∷ []) = pure (bool true)
rt_is_symbol _ = pure (bool false)

unfoldable pub rt_symbol_eq : List Value → Run Value
rt_symbol_eq (symbol s ∷ symbol t ∷ []) =
    pure (bool (if length s == length t then strncmp_eq (length s) s t else false))
rt_symbol_eq _ = pure (bool false)

unfoldable pub rt_list_len : List Value → Run Value
unfolding list_items
rt_list_len (list l ∷ []) = do vs ← list_items l; pure (int (pos (length vs)))
rt_list_len _ = pure (int (pos 0))

abbrev pub first : List Value → Value
first [] = unit
first (v ∷ vs) = v

abbrev pub behind : List Value → List Value
behind [] = []
behind (v ∷ vs) = vs

unfoldable pub rt_list_head : List Value → Run Value
unfolding list_items
rt_list_head (list l ∷ []) = do vs ← list_items l; pure (first vs)
rt_list_head _ = pure unit

unfoldable pub rt_list_tail : List Value → Run Value
unfolding list_items alloc
rt_list_tail (list none ∷ []) = pure (list none)
rt_list_tail (list (some a) ∷ []) = do vs ← list_items (some a); new_list (behind vs)
rt_list_tail _ = pure (list none)

unfoldable pub rt_list_cons : List Value → Run Value
unfolding list_items alloc
rt_list_cons (v ∷ list l ∷ []) = do vs ← list_items l; new_list (v ∷ vs)
rt_list_cons _ = pure (list none)

unfoldable pub rt_list_append : List Value → Run Value
unfolding list_items alloc
rt_list_append (list l ∷ list r ∷ []) = do vs ← list_items l; ws ← list_items r; new_list (vs ++ ws)
rt_list_append _ = pure (list none)

unfoldable pub rt_struct_new : List Value → Run Value
unfolding alloc
rt_struct_new (str (some name) ∷ fields) = alloc (struct_val name fields) >>= λ a. pure (struct a)
rt_struct_new (str none ∷ fields) = undefined
rt_struct_new _ = pure unit

unfoldable pub rt_struct_get : List Value → Run Value
unfolding object item_at
rt_struct_get (struct a ∷ int i ∷ []) = do vs ← object a >>= field_items; pure (item_at vs i)
rt_struct_get _ = pure unit

-- a field out of range is left alone
unfoldable pub set_field : ℕ → ℤ → Value → Object → Run Value
unfolding update
set_field a (pos i) v (struct_val name vs) = do
  ok ← update a (struct_val name (set vs i v))
  pure unit
set_field a (negsuc i) v (struct_val name vs) = pure unit
set_field a i v _ = undefined

unfoldable pub rt_struct_set : List Value → Run Value
unfolding object set_field
rt_struct_set (struct a ∷ int i ∷ v ∷ []) = object a >>= set_field a i v
rt_struct_set _ = pure unit

unfoldable pub rt_struct_get_field : List Value → Run Value
rt_struct_get_field args = pure unit
