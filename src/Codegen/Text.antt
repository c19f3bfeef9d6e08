-- ===== src/Codegen/Text.antt =====
-- src/codegen_llvm.c: the text of a chunk, by the format that the source gives it. `ir_appendf` keeps
-- the first 1023 bytes of what it formats. How `%g` writes a `double` is `show`.
use sqale.Prelude.{ℕ, Option, none, some, List, [], ◌∷◌, ◌++◌, Bytes, codes, if◌then◌else◌, take}
use sqale.Prelude.Decimal.{decimal, decimal_int}
use sqale.Ast.{Double}
use sqale.Codegen.Chunks.{
  Llvm, llvm_text, instr_text, Chunk, raw, source_filename, const_int, const_float, const_bool,
  const_str, binary, xor_1, fneg, sub_0, print, print_newline, br_if, br_merge, then_label,
  else_label, merge_label, phi, string_concat, string_len, call_void, call, arg, comma, close,
  define, param, ret_void, ret, ret_zero,
}

abbrev newline : Bytes
newline = 10 ∷ []

unfoldable pub concat : List Bytes → Bytes
concat [] = []
concat (s ∷ ss) = s ++ concat ss

-- `%t%d`
unfoldable pub tmp : ℕ → Bytes
unfolding decimal
tmp t = codes "%t" ++ decimal t

-- `  %t%d = `
unfoldable pub sets : ℕ → Bytes
unfolding tmp
sets t = codes "  " ++ (tmp t ++ codes " = ")

-- a temporary that may be -1
unfoldable pub tmp_or : Option ℕ → Bytes
unfolding tmp
tmp_or none = codes "%t-1"
tmp_or (some t) = tmp t

-- the function that prints a value of the type
abbrev printer : Llvm → Bytes
printer Llvm.double = codes "f64(double "
printer Llvm.i1 = codes "bool(i1 "
printer Llvm.i8_ptr = codes "cstr(i8* "
printer _ = codes "i64(i64 "

module _ (show : Double → Bytes) where
  -- what `vsnprintf` formats
  unfoldable pub format : Chunk → Bytes
  unfolding concat tmp sets tmp_or decimal decimal_int llvm_text instr_text
  format (raw s) = s
  format (source_filename name) =
      concat (codes "source_filename = \"" ∷ name ∷ codes "\"" ∷ newline ∷ [])
  format (const_int t i) = concat (sets t ∷ codes "add i64 0, " ∷ decimal_int i ∷ newline ∷ [])
  format (const_float t f) = concat (sets t ∷ codes "fadd double 0.0, " ∷ show f ∷ newline ∷ [])
  format (const_bool t b) =
      concat (sets t ∷ codes "add i1 0, " ∷ (if b then codes "1" else codes "0") ∷ newline ∷ [])
  format (const_str t n s) = concat (
      sets t
      ∷ codes "getelementptr inbounds ["
      ∷ decimal n
      ∷ codes " x i8], ["
      ∷ decimal n
      ∷ codes " x i8]* @.str"
      ∷ decimal s
      ∷ codes ", i64 0, i64 0"
      ∷ newline
      ∷ [])
  format (binary t i ty l r) = concat (
      sets t
      ∷ instr_text i
      ∷ codes " "
      ∷ llvm_text ty
      ∷ codes " "
      ∷ tmp l
      ∷ codes ", "
      ∷ tmp r
      ∷ newline
      ∷ [])
  format (xor_1 t a) = concat (sets t ∷ codes "xor i1 " ∷ tmp a ∷ codes ", 1" ∷ newline ∷ [])
  format (fneg t a) = concat (sets t ∷ codes "fneg double " ∷ tmp a ∷ newline ∷ [])
  format (sub_0 t a) = concat (sets t ∷ codes "sub i64 0, " ∷ tmp a ∷ newline ∷ [])
  format (print ty t) =
      concat (codes "  call void @sq_print_" ∷ printer ty ∷ tmp t ∷ codes ")" ∷ newline ∷ [])
  format print_newline = codes "  call void @sq_print_newline()" ++ newline
  format (br_if t n e) = concat (
      codes "  br i1 "
      ∷ tmp t
      ∷ codes ", label %then"
      ∷ decimal n
      ∷ codes ", label %else"
      ∷ decimal e
      ∷ newline
      ∷ [])
  format (br_merge m) = concat (codes "  br label %merge" ∷ decimal m ∷ newline ∷ [])
  format (then_label n) = concat (codes "then" ∷ decimal n ∷ codes ":" ∷ newline ∷ [])
  format (else_label n) = concat (codes "else" ∷ decimal n ∷ codes ":" ∷ newline ∷ [])
  format (merge_label n) = concat (codes "merge" ∷ decimal n ∷ codes ":" ∷ newline ∷ [])
  format (phi t ty x n y e) = concat (
      sets t
      ∷ codes "phi "
      ∷ llvm_text ty
      ∷ codes " [ "
      ∷ tmp x
      ∷ codes ", %then"
      ∷ decimal n
      ∷ codes " ], [ "
      ∷ tmp y
      ∷ codes ", %else"
      ∷ decimal e
      ∷ codes " ]"
      ∷ newline
      ∷ [])
  format (string_concat t a b) = concat (
      sets t
      ∷ codes "call i8* @sq_string_concat(i8* "
      ∷ tmp a
      ∷ codes ", i8* "
      ∷ tmp b
      ∷ codes ")"
      ∷ newline
      ∷ [])
  format (string_len t a) =
      concat (sets t ∷ codes "call i64 @sq_string_len(i8* " ∷ tmp a ∷ codes ")" ∷ newline ∷ [])
  format (call_void f) = concat (codes "  call void @" ∷ f ∷ codes "(" ∷ [])
  format (call t ty f) =
      concat (sets t ∷ codes "call " ∷ llvm_text ty ∷ codes " @" ∷ f ∷ codes "(" ∷ [])
  format (arg ty a) = concat (llvm_text ty ∷ codes " " ∷ tmp_or a ∷ [])
  format comma = codes ", "
  format close = codes ")" ++ newline
  format (define ty f) = concat (codes "define " ∷ llvm_text ty ∷ codes " @" ∷ f ∷ codes "(" ∷ [])
  format (param ty t) = concat (llvm_text ty ∷ codes " " ∷ tmp t ∷ [])
  format ret_void = codes "  ret void" ++ newline
  format (ret ty t) = concat (codes "  ret " ∷ llvm_text ty ∷ codes " " ∷ tmp t ∷ newline ∷ [])
  format (ret_zero ty) = concat (codes "  ret " ∷ llvm_text ty ∷ codes " 0" ∷ newline ∷ [])

  -- a literal goes to `ir_append` whole, a format through the buffer of 1024 bytes
  unfoldable pub chunk_text : Chunk → Bytes
  unfolding format
  chunk_text (raw s) = s
  chunk_text x = take 1023 (format x)

  unfoldable pub ir_text : List Chunk → Bytes
  unfolding chunk_text
  ir_text [] = []
  ir_text (x ∷ xs) = chunk_text x ++ ir_text xs
