-- ===== src/Builtins.antt =====
-- src/eval.c: the table of `vm_new`, the names that a new VM knows.
-- What a function does that is not modelled, among them input and output, threads, conversions and the functions of the
-- C library on floats, is a parameter. The functions on maps and channels are too: their objects stand apart.
use sqale.Prelude.{none, some, List, [], ◌∷◌, ◌++◌, Bytes, codes, map}
use sqale.Ast.{Double}
use sqale.Types.{Ty, Tys}
use sqale.Runtime.{Value, FloatOps}
use sqale.Runtime.Arith.{rt_add, rt_sub, rt_mul, rt_div, rt_neg, rt_min, rt_max, rt_mod}
use sqale.Runtime.Compare.{rt_eq, rt_ne, rt_lt, rt_gt, rt_le, rt_ge, rt_not, rt_and, rt_or}
use sqale.Runtime.Strings.{rt_str_concat, rt_str_len, rt_str_slice, rt_str_index, rt_str_split_ws}
use sqale.Runtime.Bits.{rt_bit_and, rt_bit_or, rt_bit_xor, rt_bit_not, rt_shl, rt_shr, rt_abs}
use sqale.Collections.{
  rt_is_list, rt_is_symbol, rt_list_append, rt_list_cons, rt_list_head, rt_list_len, rt_list_tail,
  rt_struct_get, rt_struct_new, rt_struct_set, rt_symbol_eq, rt_vec_get, rt_vec_len, rt_vec_new,
  rt_vec_push,
}
use sqale.Collections.Slots.{vec_new_gc, push_items}
use sqale.Collections.Options.{
  rt_err_val, rt_is_err, rt_is_none, rt_is_ok, rt_is_some, rt_none_val, rt_ok_val, rt_some,
  rt_unwrap, rt_unwrap_err, rt_unwrap_or,
}
use sqale.Machine.{vector, Run, ◌>>=◌, pure, undefined, defined, alloc}

-- what is not modelled here
pub record Outside : Type 0 where
  pub native : Bytes → List Value → Run Value
  pub fabs : Double → Double

pub record Builtin : Type 0 where
  pub name : Bytes
  pub type : Ty
  pub code : List Value → Run Value

abbrev tys : List Ty → Tys
tys [] = Tys.nil
tys (t ∷ ts) = Tys.cons t (tys ts)

abbrev native : Bytes → List Ty → Ty → (List Value → Run Value) → Builtin
native name params ret code = record { name = name; type = Ty.func (tys params) ret; code = code }

abbrev int : Ty
int = Ty.int

abbrev float : Ty
float = Ty.float

abbrev bool : Ty
bool = Ty.bool

abbrev str : Ty
str = Ty.str

abbrev unit : Ty
unit = Ty.unit

abbrev any : Ty
any = Ty.any

abbrev opt : Ty
opt = Ty.option Ty.any

abbrev res : Ty
res = Ty.result Ty.any Ty.any

abbrev thunk : Ty
thunk = Ty.func Tys.nil Ty.unit

abbrev ints : Ty
ints = Ty.chan Ty.int

abbrev values : Ty
values = Ty.vec Ty.any

abbrev table : Ty
table = Ty.map Ty.str Ty.int

-- `rt_str_split_ws` on values
unfoldable pub split_ws_value : List Value → Run Value
unfolding rt_str_split_ws alloc vec_new_gc push_items
split_ws_value (Value.str (some s) ∷ []) = do
  words ← defined (rt_str_split_ws s)
  v ← defined (push_items (map (λ w. Value.str (some w)) words) (vec_new_gc 8))
  a ← alloc (vector v)
  pure (Value.vec (some a))
split_ws_value (Value.str none ∷ []) = undefined
split_ws_value _ = pure (Value.vec none)

module _ (fl : FloatOps) (out : Outside) where
  unfoldable pub numbers : List Builtin
  numbers =
      native (codes "print") (any ∷ []) unit (out.native (codes "print"))
      ∷ native (codes "+") (int ∷ int ∷ []) int (λ args. defined (rt_add fl args))
      ∷ native (codes "-") (int ∷ int ∷ []) int (λ args. defined (rt_sub fl args))
      ∷ native (codes "*") (int ∷ int ∷ []) int (λ args. defined (rt_mul fl args))
      ∷ native (codes "/") (int ∷ int ∷ []) int (λ args. defined (rt_div fl args))
      ∷ native (codes "=") (any ∷ any ∷ []) bool (λ args. defined (rt_eq fl args))
      ∷ native (codes "<") (int ∷ int ∷ []) bool (λ args. defined (rt_lt fl args))
      ∷ native (codes ">") (int ∷ int ∷ []) bool (λ args. defined (rt_gt fl args))
      ∷ native (codes "<=") (int ∷ int ∷ []) bool (λ args. defined (rt_le fl args))
      ∷ native (codes ">=") (int ∷ int ∷ []) bool (λ args. defined (rt_ge fl args))
      ∷ native (codes "!=") (any ∷ any ∷ []) bool (λ args. defined (rt_ne fl args))
      ∷ native (codes "not") (bool ∷ []) bool (λ args. defined (rt_not args))
      ∷ native (codes "and") (bool ∷ bool ∷ []) bool (λ args. defined (rt_and args))
      ∷ native (codes "or") (bool ∷ bool ∷ []) bool (λ args. defined (rt_or args))
      ∷ native (codes "mod") (int ∷ int ∷ []) int (λ args. defined (rt_mod args))
      ∷ native (codes "%") (int ∷ int ∷ []) int (λ args. defined (rt_mod args))
      ∷ native (codes "neg") (int ∷ []) int (λ args. defined (rt_neg fl args))
      ∷ []

  unfoldable pub strings_and_bits : List Builtin
  strings_and_bits =
      native (codes "str-concat") (str ∷ str ∷ []) str (λ args. defined (rt_str_concat args))
      ∷ native (codes "str-len") (str ∷ []) int (λ args. defined (rt_str_len args))
      ∷ native (codes "str-slice") (str ∷ int ∷ int ∷ []) str (λ args. defined (rt_str_slice args))
      ∷ native (codes "str-index") (str ∷ str ∷ []) int (λ args. defined (rt_str_index args))
      ∷ native (codes "bit-and") (int ∷ int ∷ []) int (λ args. defined (rt_bit_and args))
      ∷ native (codes "bit-or") (int ∷ int ∷ []) int (λ args. defined (rt_bit_or args))
      ∷ native (codes "bit-xor") (int ∷ int ∷ []) int (λ args. defined (rt_bit_xor args))
      ∷ native (codes "bit-not") (int ∷ []) int (λ args. defined (rt_bit_not args))
      ∷ native (codes "shl") (int ∷ int ∷ []) int (λ args. defined (rt_shl args))
      ∷ native (codes "shr") (int ∷ int ∷ []) int (λ args. defined (rt_shr args))
      ∷ []

  unfoldable pub more_numbers : List Builtin
  more_numbers =
      native (codes "abs") (int ∷ []) int (λ args. defined (rt_abs out.fabs args))
      ∷ native (codes "min") (int ∷ int ∷ []) int (λ args. defined (rt_min fl args))
      ∷ native (codes "max") (int ∷ int ∷ []) int (λ args. defined (rt_max fl args))
      ∷ native (codes "pow") (float ∷ float ∷ []) float (out.native (codes "pow"))
      ∷ native (codes "sqrt") (float ∷ []) float (out.native (codes "sqrt"))
      ∷ native (codes "floor") (float ∷ []) float (out.native (codes "floor"))
      ∷ native (codes "ceil") (float ∷ []) float (out.native (codes "ceil"))
      ∷ native (codes "round") (float ∷ []) float (out.native (codes "round"))
      ∷ native (codes "str-to-int") (str ∷ []) int (out.native (codes "str-to-int"))
      ∷ native (codes "int-to-str") (int ∷ []) str (out.native (codes "int-to-str"))
      ∷ native (codes "str-to-float") (str ∷ []) float (out.native (codes "str-to-float"))
      ∷ native (codes "float-to-str") (float ∷ []) str (out.native (codes "float-to-str"))
      ∷ []

  unfoldable pub concurrency : List Builtin
  concurrency =
      native (codes "chan") [] ints (out.native (codes "chan"))
      ∷ native (codes "send") (ints ∷ int ∷ []) bool (out.native (codes "send"))
      ∷ native (codes "recv") (ints ∷ []) int (out.native (codes "recv"))
      ∷ native (codes "spawn") (thunk ∷ []) unit (out.native (codes "spawn"))
      ∷ []

  unfoldable pub collections : List Builtin
  collections =
      native (codes "vec") [] values rt_vec_new
      ∷ native (codes "vec-push") (values ∷ any ∷ []) unit rt_vec_push
      ∷ native (codes "vec-get") (values ∷ int ∷ []) any rt_vec_get
      ∷ native (codes "vec-len") (values ∷ []) int rt_vec_len
      ∷ native (codes "list?") (any ∷ []) bool rt_is_list
      ∷ native (codes "symbol?") (any ∷ []) bool rt_is_symbol
      ∷ native (codes "symbol=") (any ∷ any ∷ []) bool rt_symbol_eq
      ∷ native (codes "list-len") (any ∷ []) int rt_list_len
      ∷ native (codes "list-head") (any ∷ []) any rt_list_head
      ∷ native (codes "list-tail") (any ∷ []) any rt_list_tail
      ∷ native (codes "list-cons") (any ∷ any ∷ []) any rt_list_cons
      ∷ native (codes "list-append") (any ∷ any ∷ []) any rt_list_append
      ∷ native (codes "str-split-ws") (any ∷ []) (Ty.vec str) split_ws_value
      ∷ native (codes "map") [] table (out.native (codes "map"))
      ∷ native (codes "map-set") (table ∷ str ∷ int ∷ []) unit (out.native (codes "map-set"))
      ∷ native (codes "map-get") (table ∷ str ∷ []) int (out.native (codes "map-get"))
      ∷ native (codes "map-len") (table ∷ []) int (out.native (codes "map-len"))
      ∷ []

  unfoldable pub options : List Builtin
  options =
      native (codes "some") (any ∷ []) opt rt_some
      ∷ native (codes "none") [] opt rt_none_val
      ∷ native (codes "some?") (opt ∷ []) bool rt_is_some
      ∷ native (codes "none?") (opt ∷ []) bool rt_is_none
      ∷ native (codes "unwrap") (any ∷ []) any rt_unwrap
      ∷ native (codes "unwrap-or") (any ∷ any ∷ []) any rt_unwrap_or
      ∷ native (codes "ok") (any ∷ []) res rt_ok_val
      ∷ native (codes "err") (any ∷ []) res rt_err_val
      ∷ native (codes "ok?") (res ∷ []) bool rt_is_ok
      ∷ native (codes "err?") (res ∷ []) bool rt_is_err
      ∷ native (codes "unwrap-err") (res ∷ []) any rt_unwrap_err
      ∷ native (codes "struct-new") (any ∷ []) any rt_struct_new
      ∷ native (codes "struct-get") (any ∷ int ∷ []) any rt_struct_get
      ∷ native (codes "struct-set") (any ∷ int ∷ any ∷ []) unit rt_struct_set
      ∷ []

  unfoldable pub builtins : List Builtin
  unfolding numbers strings_and_bits more_numbers concurrency collections options
  builtins = numbers ++ strings_and_bits ++ more_numbers ++ concurrency ++ collections ++ options
