-- ===== src/Ast/Items.antt =====
-- src/ast.c: the array of a list's items, in an arena, which never gives memory back: `node_new_list` and
-- `node_list_push`. The nodes of Ast keep the sequence of the items alone.
use sqale.Prelude.{
  ℕ, ◌+◌, ◌-◌, Bool, ◌||◌, Option, none, some, ◌>>=◌, List, [], ◌∷◌, ◌++◌, length, ltb, ◌==◌,
  if◌then◌else◌,
}
use sqale.Buffers.{double_until}
use sqale.Runtime.Bits.{bitwise, and_bit}

-- The items, and how many the array has room for.
pub record ListItems {ℓ} (A : Type ℓ) : Type ℓ where
  pub items : List A
  pub slots : ℕ

-- `(cnt & (cnt - 1)) == 0`
unfoldable pub one_bit : ℕ → Bool
unfolding bitwise
one_bit cnt = bitwise and_bit 64 cnt (cnt - 1) == 0

module _ {ℓ} {A : Type ℓ} where
  unfoldable pub node_new_list : ℕ → ListItems A
  node_new_list cap_hint = record { items = []; slots = if cap_hint == 0 then 4 else cap_hint }

  -- `items[cnt] = item`, which must be inside the array
  unfoldable pub put_item : A → ListItems A → Option (ListItems A)
  put_item x l =
      if ltb (length l.items) l.slots then some (record l { items = l.items ++ x ∷ [] }) else none

  unfoldable pub node_list_push : A → ListItems A → Option (ListItems A)
  unfolding double_until one_bit put_item
  node_list_push x l =
      let cnt = length l.items in
      do
        cap ← double_until 65 (if cnt == 0 then 4 else cnt) (cnt + 1)
        put_item x (if cnt == 0 || one_bit cnt then record l { slots = cap } else l)
