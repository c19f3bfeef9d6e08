-- ===== src/Compiled.antt =====
-- src/runtime_llvm.c: the functions that compiled programs call. A string is its bytes before the zero
-- byte; `none` is NULL. Allocation always succeeds.
pub mod Vectors
use sqale.Prelude.{
  ◌>>=◌, ℕ, suc, ◌+◌, ◌*◌, ◌^◌, Bool, true, false, ◌||◌, not, Option, none, some, List, [], ◌∷◌,
  ◌++◌, Bytes, length, take, codes, c_string, leb, ltb, if◌then◌else◌, get_or, replicate, set,
}
use sqale.Prelude.Int.{ℤ, pos, negsuc, ltb_ℤ}
use sqale.Prelude.Decimal.{decimal_int}
use sqale.Ast.{Double}
use sqale.Runtime.Compare.{eqb_ℤ}

-- what is printed
unfoldable pub sq_print_i64 : ℤ → Bytes
unfolding decimal_int
sq_print_i64 v = decimal_int v

abbrev pub sq_print_f64 : (Double → Bytes) → Double → Bytes
sq_print_f64 show v = show v

abbrev pub sq_print_bool : Bool → Bytes
sq_print_bool v = if v then codes "true" else codes "false"

abbrev pub sq_print_cstr : Option Bytes → Bytes
sq_print_cstr none = []
sq_print_cstr (some s) = s

abbrev pub sq_print_newline : Bytes
sq_print_newline = 10 ∷ []

-- a code pointer, an environment and the number of parameters
pub record SqClosure : Type 0 where
  pub fn : ℕ
  pub env : Option ℕ
  pub arity : ℤ

unfoldable pub sq_alloc_closure : ℕ → Option ℕ → ℤ → SqClosure
sq_alloc_closure fn env arity = record { fn = fn; env = env; arity = arity }

abbrev pub sq_closure_get_fn : Option SqClosure → Option ℕ
sq_closure_get_fn none = none
sq_closure_get_fn (some c) = some c.fn

abbrev pub sq_closure_get_env : Option SqClosure → Option ℕ
sq_closure_get_env none = none
sq_closure_get_env (some c) = c.env

abbrev pub sq_closure_get_arity : Option SqClosure → ℤ
sq_closure_get_arity none = pos 0
sq_closure_get_arity (some c) = c.arity

-- The copy ends at its first zero byte; without bytes to copy its content is undefined.
unfoldable pub sq_string_new : Option Bytes → ℕ → Option Bytes
sq_string_new (some text) n = some (c_string (take n text))
sq_string_new none n = none

abbrev pub or_empty : Option Bytes → Bytes
or_empty none = []
or_empty (some s) = s

unfoldable pub sq_string_concat : Option Bytes → Option Bytes → Bytes
sq_string_concat a b = or_empty a ++ or_empty b

unfoldable pub sq_string_len : Option Bytes → ℕ
sq_string_len s = length (or_empty s)

-- the cells up to `cap`, of which the first `len` are items
pub record SqVec : Type 0 where
  pub items : List ℤ
  pub len : ℕ
  pub cap : ℕ

unfoldable pub sq_vec_new : SqVec
sq_vec_new = record { items = replicate 8 (pos 0); len = 0; cap = 8 }

-- `realloc` to twice the capacity: the new cells hold anything, here what is given
abbrev pub grown : List ℤ → SqVec → SqVec
grown fresh v = record v { items = v.items ++ fresh; cap = v.cap * 2 }

-- room for one more item: the capacity is an `int32_t`, whose overflow is undefined
unfoldable pub with_room : List ℤ → SqVec → Option SqVec
with_room fresh v =
    if leb v.cap v.len
    then if ltb (v.cap * 2) (2 ^ 31) then some (grown fresh v) else none
    else some v

-- the write of the item, which outside the cells is a fault
abbrev pub put_item : ℤ → SqVec → Option SqVec
put_item val v =
    if ltb v.len (length v.items)
    then some (record v { items = set v.items v.len val; len = suc v.len })
    else none

-- A push onto NULL, which does nothing, is left out.
unfoldable pub sq_vec_push : List ℤ → SqVec → ℤ → Option SqVec
unfolding with_room
sq_vec_push fresh v val = do u ← with_room fresh v; put_item val u

abbrev pub item_or_0 : SqVec → ℤ → ℤ
item_or_0 v (pos i) = if ltb i v.len then get_or v.items i (pos 0) else pos 0
item_or_0 v (negsuc i) = pos 0

unfoldable pub sq_vec_get : Option SqVec → ℤ → ℤ
sq_vec_get none idx = pos 0
sq_vec_get (some v) idx = item_or_0 v idx

unfoldable pub sq_vec_len : Option SqVec → ℕ
sq_vec_len none = 0
sq_vec_len (some v) = v.len

abbrev pub sq_eq_i64 : ℤ → ℤ → Bool
sq_eq_i64 a b = eqb_ℤ a b

abbrev pub sq_lt_i64 : ℤ → ℤ → Bool
sq_lt_i64 a b = ltb_ℤ a b

abbrev pub sq_gt_i64 : ℤ → ℤ → Bool
sq_gt_i64 a b = ltb_ℤ b a
