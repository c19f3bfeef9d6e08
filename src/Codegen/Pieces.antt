-- ===== src/Codegen/Pieces.antt =====
-- src/codegen_llvm.c: what the code for each form is made of, given the code for its parts.
use sqale.Prelude.{
  ℕ, ◌+◌, Bool, true, false, Option, none, some, Bytes, bytes_eq, codes, c_string, if◌then◌else◌,
  length, take,
}
use sqale.Prelude.Int.{pos}
use sqale.Types.{Ty}
use sqale.Codegen.Tree.{Tree, symbol, string, type_of}
use sqale.Codegen.Chunks.{
  Llvm, i64, double, i1, i8_ptr, type_to_llvm, Instr, add, sub, mul, sdiv, srem, fadd, fsub, fmul,
  fdiv, eq, ne, slt, sgt, sle, sge, oeq, one, olt, ogt, ole, oge, and, or, Chunk, const_int,
  const_str, binary, xor_1, fneg, sub_0, print, br_if, br_merge, then_label, else_label,
  merge_label, phi,
}
use sqale.Codegen.Context.{
  Cg, CgSymbol, pure, fault, ◌>>=◌, ◌>>◌, emit, emit_const, new_tmp, new_label, new_str,
  cg_scope_push, cg_scope_pop, cg_scope_define, cg_scope_lookup, scopes_now,
}

unfoldable pub is_sym : Tree → Bytes → Bool
is_sym (symbol ty name) s = bytes_eq name s
is_sym _ s = false

-- `n->as.sym.ptr` with its length, which a string node has at the same place
unfoldable pub name_of : Tree → Option Bytes
name_of (symbol ty name) = some name
name_of (string ty text) = some text
name_of _ = none

-- `snprintf(fname, 256, "%.*s", …)`
unfoldable pub fname_of : Bytes → Bytes
fname_of name = take 255 (c_string name)

abbrev pub is_float : Option Ty → Bool
is_float (some Ty.float) = true
is_float _ = false

abbrev pub is_unit : Option Ty → Bool
is_unit (some Ty.unit) = true
is_unit _ = false

abbrev pub or_int : Option Ty → Option Ty
or_int none = some Ty.int
or_int (some t) = some t

-- the instruction of an operator for the types of the form and of its left operand
unfoldable pub instr_of : Bytes → Option Ty → Option Ty → Option (Instr × Llvm)
unfolding type_to_llvm
instr_of op ty left =
    let by : Bool → Instr → Instr → Llvm → Option (Instr × Llvm) =
      λ float_op f i t. some (if float_op then f else i, t) in
    let operands = if is_float left then double else i64 in
    if bytes_eq op (codes "+")
    then by (is_float ty) fadd add (type_to_llvm ty)
    else if bytes_eq op (codes "-")
    then by (is_float ty) fsub sub (type_to_llvm ty)
    else if bytes_eq op (codes "*")
    then by (is_float ty) fmul mul (type_to_llvm ty)
    else if bytes_eq op (codes "/")
    then by (is_float ty) fdiv sdiv (type_to_llvm ty)
    else if bytes_eq op (codes "%")
    then some (srem, type_to_llvm ty)
    else if bytes_eq op (codes "=")
    then by (is_float left) oeq eq operands
    else if bytes_eq op (codes "<")
    then by (is_float left) olt slt operands
    else if bytes_eq op (codes ">")
    then by (is_float left) ogt sgt operands
    else if bytes_eq op (codes "<=")
    then by (is_float left) ole sle operands
    else if bytes_eq op (codes ">=")
    then by (is_float left) oge sge operands
    else if bytes_eq op (codes "!=")
    then by (is_float left) one ne operands
    else if bytes_eq op (codes "mod")
    then some (srem, i64)
    else if bytes_eq op (codes "and")
    then some (and, i1)
    else if bytes_eq op (codes "or")
    then some (or, i1)
    else none

-- a new temporary, and the chunk that assigns it
unfoldable pub assign : (ℕ → Chunk) → Cg (Option ℕ)
assign f = do t ← new_tmp; emit (f t); pure (some t)

abbrev pub operate : Option (Instr × Llvm) → ℕ → ℕ → Cg (Option ℕ)
operate none l r = new_tmp >> pure none
operate (some (i, ty)) l r = assign (λ t. binary t i ty l r)

-- the code for two results that must both be there
abbrev pub with_both : Option ℕ → Option ℕ → (ℕ → ℕ → Cg (Option ℕ)) → Cg (Option ℕ)
with_both (some l) (some r) k = k l r
with_both _ _ k = pure none

abbrev pub with_one : Option ℕ → (ℕ → Cg (Option ℕ)) → Cg (Option ℕ)
with_one (some a) k = k a
with_one none k = pure none

-- `not` and `neg`, the names that `cg_call_text` passes on
unfoldable pub cg_unop : Bytes → Option Ty → ℕ → Cg (Option ℕ)
unfolding assign
cg_unop op ty a =
    if bytes_eq op (codes "not")
    then assign (λ t. xor_1 t a)
    else assign (λ t. if is_float ty then fneg t a else sub_0 t a)

-- the type that `print` reads an argument as
abbrev pub print_type : Option Ty → Llvm
print_type (some Ty.float) = double
print_type (some Ty.bool) = i1
print_type (some Ty.str) = i8_ptr
print_type _ = i64

abbrev pub print_one : Option Ty → Option ℕ → Cg (Unit {0})
print_one ty none = pure tt
print_one ty (some t) = emit (print (print_type ty) t)

-- the temporary of a branch of an `if` that has a value: 0 where the branch has none
abbrev pub branch_end : Option ℕ → Cg ℕ
branch_end (some v) = pure v
branch_end none = do t ← new_tmp; emit (const_int t (pos 0)); pure t

-- the value of a symbol that may be missing
abbrev pub value_of : Option CgSymbol → Option ℕ
value_of none = none
value_of (some sym) = sym.value

unfoldable pub cg_symbol : Bytes → Cg (Option ℕ)
cg_symbol name = do ss ← scopes_now; pure (value_of (cg_scope_lookup ss name))

-- one branch of a conditional: its label, its code, the temporary of its value, and the jump
unfoldable pub cg_branch : {A : Type 0} → Chunk → ℕ → Bool → Cg (Option ℕ) → (ℕ → Cg A) → Cg A
cg_branch label m unit code f =
    emit label
    >> (code >>= λ v. (if unit then pure 0 else branch_end v) >>= λ x. emit (br_merge m) >> f x)

-- a conditional with the type of its value, where that is not Unit: its labels, its branches, and
-- what joins them
unfoldable pub cg_branches : Bool → Llvm → ℕ → Cg (Option ℕ) → Cg (Option ℕ) → Cg (Option ℕ)
unfolding assign cg_branch
cg_branches unit ty test true_code false_code = do
  n ← new_label
  e ← new_label
  m ← new_label
  emit (br_if test n e)
  cg_branch (then_label n) m unit true_code (λ x.
      cg_branch (else_label e) m unit false_code
        (λ y. emit (merge_label m) >> (if unit then pure none else assign (λ t. phi t ty x n y e))))

unfoldable pub cg_string : Bytes → Cg (Option ℕ)
unfolding assign
cg_string text = do
  sid ← new_str
  emit_const (record { id = sid; text = text })
  assign (λ t. const_str t (length text + 1) sid)

-- `cg_let_text` defines the name of a binding whatever the result.
unfoldable pub cg_define : Tree → Option Ty → Option ℕ → Cg (Unit {0})
cg_define name ty v = elim (name_of name) [ none ↦ fault | some x ↦ cg_scope_define x v ty ]

unfoldable pub cg_defined : Tree → Tree → Cg (Option ℕ) → Cg (Unit {0})
unfolding cg_define type_of
cg_defined name expr code = do v ← code; cg_define name (type_of expr) v

-- a `let`: the bindings and the body in a scope of their own
unfoldable pub cg_scoped : Cg (Unit {0}) → Cg (Option ℕ) → Cg (Option ℕ)
cg_scoped bindings body = do cg_scope_push; bindings; v ← body; cg_scope_pop; pure v
