-- ===== src/Codegen/Operators.antt =====
-- src/codegen_llvm.c: the instruction of an operator does what the library function of that name does.
use sqale.Prelude.{
  ◌≡◌, refl, Bool, true, false, Option, none, some, [], ◌∷◌, arith, Bool-cases, inl, inr,
}
use sqale.Prelude.Int.{ℤ, pos, negsuc, ◌+ℤ◌, ◌-ℤ◌, ◌*ℤ◌}
use sqale.Ast.{Double}
use sqale.Types.{Ty}
use sqale.Runtime.{Value, FloatOps, int, float, bool, checked, fits}
use sqale.Runtime.Arith.{rt_add, rt_sub, rt_mul, rt_div, rt_mod, is_zero}
use sqale.Runtime.Compare.{rt_eq, rt_ne, rt_lt, rt_gt, rt_le, rt_ge, rt_and, rt_or}
use sqale.Runtime.Bits.{of_word}
use sqale.Codegen.Chunks
use sqale.Codegen.Chunks.{Llvm, i64, double, Instr, type_to_llvm}
use sqale.Codegen.Pieces.{or_int, is_float, instr_of}
use sqale.Codegen.Llvm.{wrap_int, on_ints, on_floats, instr_value}
use sqale.Codegen.Means.{
  BinOp, plus, minus, times, over, percent, mod_, equal, unequal, less, greater, at_most, at_least,
  both, either, op_name, is_int, by_type, is_rem, compares, compares_floats, logical, Handled,
  int_op, int_rem, int_compare, float_op, float_compare, bool_op, op_value,
}

-- In range, the 64 bits of a number are the number.
pub wrap_int-fits : (z : ℤ) → fits z ≡ true → wrap_int z ≡ z
unfolding wrap_int of_word
wrap_int-fits (pos n) h = ground arith
wrap_int-fits (negsuc n) h = ground arith

pub wrapped-checked : (z : ℤ) (u : Value) → checked z ≡ some u → some (int (wrap_int z)) ≡ some u
wrapped-checked z u h = elim (Bool-cases (fits z)) [
  | inl e ↦ ground (arith, wrap_int-fits z e)
  | inr e ↦ ground arith
]

pub int_type : (ty : Option Ty) → is_int ty ≡ true → or_int ty ≡ some Ty.int
int_type none h = refl
int_type (some Ty.int) h = refl
int_type (some t) h = cc

pub float_type : (ty : Option Ty) → is_float ty ≡ true → ty ≡ some Ty.float
float_type none h = cc
float_type (some Ty.float) h = refl
float_type (some t) h = cc

-- the instruction of an operator, and its value
abbrev pub Instructs : FloatOps → BinOp → Option Ty → Option Ty → Value → Value → Value → Type 0
Instructs fl o ty left v w u =
    (i : Instr) × (t : Llvm) × (instr_of (op_name o) ty left ≡ some (i, t))
    × (instr_value fl i t v w ≡ some u)

module _ (fl : FloatOps) where
  int_op-Instructs :
      (o : BinOp) (left : Option Ty) (a b : ℤ) (u : Value)
      → by_type o ≡ true
      → op_value fl o (int a ∷ int b ∷ []) ≡ some u
      → Instructs fl o (some Ty.int) left (int a) (int b) u
  unfolding op_name op_value instr_of instr_value on_ints rt_add rt_sub rt_mul rt_div
  int_op-Instructs plus left a b u h e = (Chunks.add, i64, refl, wrapped-checked (a +ℤ b) u e)
  int_op-Instructs minus left a b u h e = (Chunks.sub, i64, refl, wrapped-checked (a -ℤ b) u e)
  int_op-Instructs times left a b u h e = (Chunks.mul, i64, refl, wrapped-checked (a *ℤ b) u e)
  int_op-Instructs over left a b u h e = (Chunks.sdiv, i64, refl, e)
  int_op-Instructs o left a b u h e = cc

  int_rem-Instructs :
      (o : BinOp) (left : Option Ty) (a b : ℤ) (u : Value)
      → is_rem o ≡ true
      → is_zero b ≡ false
      → op_value fl o (int a ∷ int b ∷ []) ≡ some u
      → Instructs fl o (some Ty.int) left (int a) (int b) u
  unfolding op_name op_value instr_of instr_value on_ints rt_mod
  int_rem-Instructs percent left a b u h z e = (Chunks.srem, i64, refl, ground arith)
  int_rem-Instructs mod_ left a b u h z e = (Chunks.srem, i64, refl, ground arith)
  int_rem-Instructs o left a b u h z e = cc

  int_compare-Instructs :
      (o : BinOp) (ty left : Option Ty) (a b : ℤ) (u : Value)
      → compares o ≡ true
      → is_float left ≡ false
      → op_value fl o (int a ∷ int b ∷ []) ≡ some u
      → Instructs fl o ty left (int a) (int b) u
  unfolding op_name op_value instr_of instr_value on_ints rt_eq rt_ne rt_lt rt_gt rt_le rt_ge
  int_compare-Instructs equal ty left a b u h z e = (Chunks.eq, i64, rw z refl, e)
  int_compare-Instructs unequal ty left a b u h z e = (Chunks.ne, i64, rw z refl, e)
  int_compare-Instructs less ty left a b u h z e = (Chunks.slt, i64, rw z refl, e)
  int_compare-Instructs greater ty left a b u h z e = (Chunks.sgt, i64, rw z refl, e)
  int_compare-Instructs at_most ty left a b u h z e = (Chunks.sle, i64, rw z refl, e)
  int_compare-Instructs at_least ty left a b u h z e = (Chunks.sge, i64, rw z refl, e)
  int_compare-Instructs o ty left a b u h z e = cc

  float_op-Instructs :
      (o : BinOp) (left : Option Ty) (a b : Double) (u : Value)
      → by_type o ≡ true
      → op_value fl o (float a ∷ float b ∷ []) ≡ some u
      → Instructs fl o (some Ty.float) left (float a) (float b) u
  unfolding op_name op_value instr_of instr_value on_floats rt_add rt_sub rt_mul rt_div
  float_op-Instructs plus left a b u h e = (Chunks.fadd, double, refl, e)
  float_op-Instructs minus left a b u h e = (Chunks.fsub, double, refl, e)
  float_op-Instructs times left a b u h e = (Chunks.fmul, double, refl, e)
  float_op-Instructs over left a b u h e = (Chunks.fdiv, double, refl, e)
  float_op-Instructs o left a b u h e = cc

  float_compare-Instructs :
      (o : BinOp) (ty left : Option Ty) (a b : Double) (u : Value)
      → compares_floats o ≡ true
      → is_float left ≡ true
      → op_value fl o (float a ∷ float b ∷ []) ≡ some u
      → Instructs fl o ty left (float a) (float b) u
  unfolding op_name op_value instr_of instr_value on_floats rt_eq rt_lt rt_gt rt_le rt_ge
  float_compare-Instructs equal ty left a b u h z e = (Chunks.oeq, double, rw z refl, e)
  float_compare-Instructs less ty left a b u h z e = (Chunks.olt, double, rw z refl, e)
  float_compare-Instructs greater ty left a b u h z e = (Chunks.ogt, double, rw z refl, e)
  float_compare-Instructs at_most ty left a b u h z e = (Chunks.ole, double, rw z refl, e)
  float_compare-Instructs at_least ty left a b u h z e = (Chunks.oge, double, rw z refl, e)
  float_compare-Instructs o ty left a b u h z e = cc

  bool_op-Instructs :
      (o : BinOp) (ty left : Option Ty) (a b : Bool) (u : Value)
      → logical o ≡ true
      → op_value fl o (bool a ∷ bool b ∷ []) ≡ some u
      → Instructs fl o ty left (bool a) (bool b) u
  unfolding op_name op_value instr_of instr_value rt_and rt_or
  bool_op-Instructs both ty left a b u h e = (Chunks.and, Chunks.i1, refl, e)
  bool_op-Instructs either ty left a b u h e = (Chunks.or, Chunks.i1, refl, e)
  bool_op-Instructs o ty left a b u h e = cc

  -- Where the operands are handled, the instruction gives the value that the library function gives.
  pub Handled-Instructs :
      (o : BinOp) (ty left : Option Ty) (v w u : Value)
      → Handled o ty left v w
      → op_value fl o (v ∷ w ∷ []) ≡ some u
      → Instructs fl o (or_int ty) left v w u
  Handled-Instructs o ty left v w u (int_op _ _ _ a b h t) e =
      rw (int_type ty t) (int_op-Instructs o left a b u h e)
  Handled-Instructs o ty left v w u (int_rem _ _ _ a b h t z) e =
      rw (int_type ty t) (int_rem-Instructs o left a b u h z e)
  Handled-Instructs o ty left v w u (int_compare _ _ _ a b h z) e =
      int_compare-Instructs o (or_int ty) left a b u h z e
  Handled-Instructs o ty left v w u (float_op _ _ _ a b h t) e =
      rw (float_type ty t) (float_op-Instructs o left a b u h e)
  Handled-Instructs o ty left v w u (float_compare _ _ _ a b h z) e =
      float_compare-Instructs o (or_int ty) left a b u h z e
  Handled-Instructs o ty left v w u (bool_op _ _ _ a b h) e =
      bool_op-Instructs o (or_int ty) left a b u h e
