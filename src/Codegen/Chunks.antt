-- ===== src/Codegen/Chunks.antt =====
-- src/codegen_llvm.c: what the text generator appends. A chunk is one call of `ir_append` or
-- `ir_appendf`, with the values that its format names; a temporary is the number in `%t…`, and
-- `none` is the number -1.
use sqale.Prelude.{ℕ, Bool, Option, some, Bytes, codes}
use sqale.Prelude.Int.{ℤ}
use sqale.Ast.{Double}
use sqale.Types.{Ty}

-- the type names of `type_to_llvm`
pub data Llvm : Type 0 where
  i64 double i1 i8_ptr void : Llvm

unfoldable pub type_to_llvm : Option Ty → Llvm
type_to_llvm (some Ty.float) = double
type_to_llvm (some Ty.bool) = i1
type_to_llvm (some Ty.str) = i8_ptr
type_to_llvm (some Ty.unit) = void
type_to_llvm (some Ty.any) = i8_ptr
type_to_llvm (some (Ty.func ps r)) = i8_ptr
type_to_llvm (some (Ty.chan t)) = i8_ptr
type_to_llvm (some (Ty.vec t)) = i8_ptr
type_to_llvm (some (Ty.map k v)) = i8_ptr
type_to_llvm _ = i64

-- the instructions with two operands; the comparisons of `icmp` and `fcmp` by their condition
pub data Instr : Type 0 where
  add sub mul sdiv srem fadd fsub fmul fdiv eq ne slt sgt sle sge oeq one olt ogt ole oge and or :
      Instr

pub data Chunk : Type 0 where
  raw : Bytes → Chunk
  source_filename : Bytes → Chunk
  const_int : ℕ → ℤ → Chunk
  const_float : ℕ → Double → Chunk
  const_bool : ℕ → Bool → Chunk
  const_str : ℕ → ℕ → ℕ → Chunk
  binary : ℕ → Instr → Llvm → ℕ → ℕ → Chunk
  xor_1 : ℕ → ℕ → Chunk
  fneg : ℕ → ℕ → Chunk
  sub_0 : ℕ → ℕ → Chunk
  print : Llvm → ℕ → Chunk
  print_newline : Chunk
  br_if : ℕ → ℕ → ℕ → Chunk
  br_merge : ℕ → Chunk
  then_label else_label merge_label : ℕ → Chunk
  phi : ℕ → Llvm → ℕ → ℕ → ℕ → ℕ → Chunk
  string_concat : ℕ → ℕ → ℕ → Chunk
  string_len : ℕ → ℕ → Chunk
  call_void : Bytes → Chunk
  call : ℕ → Llvm → Bytes → Chunk
  arg : Llvm → Option ℕ → Chunk
  comma close : Chunk
  define : Llvm → Bytes → Chunk
  param : Llvm → ℕ → Chunk
  ret_void : Chunk
  ret : Llvm → ℕ → Chunk
  ret_zero : Llvm → Chunk

unfoldable pub llvm_text : Llvm → Bytes
llvm_text i64 = codes "i64"
llvm_text double = codes "double"
llvm_text i1 = codes "i1"
llvm_text i8_ptr = codes "i8*"
llvm_text void = codes "void"

unfoldable pub instr_text : Instr → Bytes
instr_text add = codes "add"
instr_text sub = codes "sub"
instr_text mul = codes "mul"
instr_text sdiv = codes "sdiv"
instr_text srem = codes "srem"
instr_text fadd = codes "fadd"
instr_text fsub = codes "fsub"
instr_text fmul = codes "fmul"
instr_text fdiv = codes "fdiv"
instr_text eq = codes "icmp eq"
instr_text ne = codes "icmp ne"
instr_text slt = codes "icmp slt"
instr_text sgt = codes "icmp sgt"
instr_text sle = codes "icmp sle"
instr_text sge = codes "icmp sge"
instr_text oeq = codes "fcmp oeq"
instr_text one = codes "fcmp one"
instr_text olt = codes "fcmp olt"
instr_text ogt = codes "fcmp ogt"
instr_text ole = codes "fcmp ole"
instr_text oge = codes "fcmp oge"
instr_text and = codes "and"
instr_text or = codes "or"
