-- ===== src/Runtime/Print.antt =====
-- src/runtime.c: `rt_print`, as the bytes that it writes. `%g` of the C library is a parameter, and so are
-- the items of a vector, which another file keeps; a NULL string or vector is undefined, `none`.
use sqale.Prelude.{
  ℕ, Bool, Option, none, some, List, [], ◌∷◌, ◌++◌, Bytes, codes, c_string, if◌then◌else◌, ◌>>=◌,
}
use sqale.Prelude.Decimal.{decimal_int}
use sqale.Ast.{Double}
use sqale.Runtime.{Value, int, float, bool, str, unit, vec}

abbrev pub bool_text : Bool → Bytes
bool_text b = if b then codes "true" else codes "false"

-- an item of a vector
unfoldable pub print_item : Value → Option Bytes
unfolding decimal_int
print_item (int i) = some (decimal_int i)
print_item (str (some s)) = some (34 ∷ (c_string s ++ (34 ∷ [])))
print_item (str none) = none
print_item (bool b) = some (bool_text b)
print_item _ = some (codes "_")

unfoldable pub print_items : List Value → Option Bytes
unfolding print_item
print_items [] = some []
print_items (v ∷ []) = print_item v
print_items (v ∷ w ∷ vs) = do s ← print_item v; rest ← print_items (w ∷ vs); some (s ++ (32 ∷ rest))

module _ (show : Double → Bytes) (items : ℕ → Option (List Value)) where
  unfoldable pub print_value : Value → Option Bytes
  unfolding print_items decimal_int
  print_value (int i) = some (decimal_int i)
  print_value (float f) = some (show f)
  print_value (bool b) = some (bool_text b)
  print_value (str (some s)) = some (c_string s)
  print_value (str none) = none
  print_value (vec none) = none
  print_value (vec (some a)) = do vs ← items a; s ← print_items vs; some (91 ∷ (s ++ (93 ∷ [])))
  print_value unit = some (codes "()")
  print_value _ = some (codes "<val>")

  unfoldable pub rt_print : List Value → Option Bytes
  unfolding print_value
  rt_print [] = some (10 ∷ [])
  rt_print (v ∷ []) = do s ← print_value v; some (s ++ (10 ∷ []))
  rt_print (v ∷ w ∷ vs) = do s ← print_value v; rest ← rt_print (w ∷ vs); some (s ++ (32 ∷ rest))
