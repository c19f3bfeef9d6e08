-- ===== src/Runtime.antt =====
-- include/value.h and src/runtime.c: values, and the library functions on numbers, truth values and strings.
-- A function takes its arguments as a list, so `nargs` is the list's length. `none` is undefined
-- behaviour: a signed overflow, a division by zero, or a string that is NULL. Strings never change, so
-- a string is its bytes; the other objects are addresses. Allocation always succeeds.
pub mod Arith
pub mod Division
pub mod Compare
pub mod Order
pub mod Strings
pub mod Slices
pub mod Search
pub mod Words
pub mod Bits
pub mod Numbers
pub mod Print
pub mod Digits
use sqale.Prelude.{
  ℕ, ◌+◌, ◌*◌, ◌^◌, Bool, true, false, ◌&&◌, Option, none, some, Bytes, ltb, if◌then◌else◌,
}
use sqale.Prelude.Int.{ℤ, pos, negsuc, ltb_ℤ}
use sqale.Ast.{Double}

-- A string value made after an error is NULL, as are some lists and options.
pub data Value : Type 0 where
  int : ℤ → Value
  float : Double → Value
  bool : Bool → Value
  str : Option Bytes → Value
  func : ℕ → Value
  closure : ℕ → Value
  unit : Value
  chan : ℕ → Value
  symbol : Bytes → Value
  list : Option ℕ → Value
  vec : Option ℕ → Value
  map : ℕ → Value
  option : Option ℕ → Value
  result : ℕ → Value
  struct : ℕ → Value

-- the arithmetic of `double`
pub record FloatOps : Type 0 where
  pub add : Double → Double → Double
  pub sub : Double → Double → Double
  pub mul : Double → Double → Double
  pub div : Double → Double → Double
  pub neg : Double → Double
  pub eq : Double → Double → Bool
  pub ne : Double → Double → Bool
  pub lt : Double → Double → Bool
  pub le : Double → Double → Bool

-- the range of `int64_t`
abbrev pub fits : ℤ → Bool
fits (pos n) = ltb n (2 ^ 63)
fits (negsuc n) = ltb n (2 ^ 63)

-- the value of an `int64_t` operation, which is undefined out of range
abbrev pub checked : ℤ → Option Value
checked z = if fits z then some (int z) else none
