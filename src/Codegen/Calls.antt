-- ===== src/Codegen/Calls.antt =====
-- src/codegen_llvm.c: the code of a call, and how a list is read as a form or as a call.
use sqale.Prelude.{
  ℕ, Bool, false, ◌&&◌, ◌||◌, Option, none, some, List, [], ◌∷◌, ◌==◌, Bytes, bytes_eq, codes,
  if◌then◌else◌,
}
use sqale.Types.{Ty}
use sqale.Codegen.Tree.{Tree, symbol}
use sqale.Codegen.Chunks.{
  Llvm, type_to_llvm, Chunk, print_newline, string_len, call_void, call, comma, close,
}
use sqale.Codegen.Context.{
  Cg, CgSymbol, pure, ◌>>=◌, ◌>>◌, emit, new_tmp, cg_scope_lookup, scopes_now,
}
use sqale.Codegen.Pieces.{fname_of, is_unit, assign}

abbrev pub result_type : Option Ty → Option Ty
result_type (some (Ty.func ps r)) = some r
result_type _ = none

-- the result type of a name that is bound to a function
abbrev pub callee : Option CgSymbol → Option Ty
callee none = none
callee (some sym) = result_type sym.type

-- the arguments of a call, after they are computed: `none` is written as the temporary -1
unfoldable pub emit_args : List (Llvm × Option ℕ) → Cg (Unit {0})
emit_args [] = pure tt
emit_args ((ty, a) ∷ []) = emit (Chunk.arg ty a)
emit_args ((ty, a) ∷ rest) = do emit (Chunk.arg ty a); emit comma; emit_args rest

-- The call takes a temporary also where the function returns no value.
unfoldable pub emit_call : Bytes → Ty → List (Llvm × Option ℕ) → Cg (Option ℕ)
unfolding emit_args type_to_llvm
emit_call fname ret args = do
  t ← new_tmp
  emit (if is_unit (some ret) then call_void fname else call t (type_to_llvm (some ret)) fname)
  emit_args args
  emit close
  pure (if is_unit (some ret) then none else some t)

abbrev pub one_of : List Bytes → Bytes → Bool
one_of [] name = false
one_of (s ∷ ss) name = bytes_eq name s || one_of ss name

abbrev pub binary_names : List Bytes
binary_names =
    codes "+"
    ∷ codes "-"
    ∷ codes "*"
    ∷ codes "/"
    ∷ codes "%"
    ∷ codes "mod"
    ∷ codes "="
    ∷ codes "!="
    ∷ codes "<"
    ∷ codes ">"
    ∷ codes "<="
    ∷ codes ">="
    ∷ codes "and"
    ∷ codes "or"
    ∷ []

-- the forms that have no code where an expression stands
abbrev pub silent_names : List Bytes
silent_names =
    codes "def"
    ∷ codes "fn"
    ∷ codes "quote"
    ∷ codes "quasiquote"
    ∷ codes "defmacro"
    ∷ codes "import"
    ∷ []

-- a call of a name that is bound to a function; of any other there is no code
unfoldable pub call_user : Bytes → Option Ty → Cg (List (Llvm × Option ℕ)) → Cg (Option ℕ)
unfolding emit_call
call_user fname none args = pure none
call_user fname (some ret) args = do vs ← args; emit_call fname ret vs

unfoldable pub cg_user : Bytes → Cg (List (Llvm × Option ℕ)) → Cg (Option ℕ)
unfolding call_user cg_scope_lookup fname_of
cg_user name args = do
  ss ← scopes_now
  call_user (fname_of name) (callee (cg_scope_lookup ss name)) args

abbrev pub head_text : Tree → Bytes
head_text (symbol ty name) = name
head_text _ = []

unfoldable pub cg_len : Option Ty → ℕ → Cg (Option ℕ)
unfolding assign
cg_len ty a = assign (λ t. string_len t a)

-- the code of a list, read as each of the forms
pub record Forms : Type 0 where
  pub on_if : Cg (Option ℕ)
  pub on_let : Cg (Option ℕ)
  pub on_do : Cg (Option ℕ)
  pub on_binop : Cg (Option ℕ)
  pub on_unop : Cg (Option ℕ)
  pub on_print : Cg (Unit {0})
  pub on_concat : Cg (Option ℕ)
  pub on_len : Cg (Option ℕ)
  pub on_user : Cg (List (Llvm × Option ℕ))

-- `cg_call_text`, for a head that is a symbol and `n` arguments
unfoldable pub choose_call : Bytes → ℕ → Forms → Cg (Option ℕ)
unfolding fname_of cg_user
choose_call name n forms =
    let fname = fname_of name in
    if one_of binary_names fname && n == 2
    then forms.on_binop
    else if one_of (codes "not" ∷ codes "neg" ∷ []) fname && n == 1
    then forms.on_unop
    else if bytes_eq fname (codes "print")
    then forms.on_print >> (emit print_newline >> pure none)
    else if bytes_eq fname (codes "str-concat") && n == 2
    then forms.on_concat
    else if bytes_eq fname (codes "str-len") && n == 1
    then forms.on_len
    else cg_user name forms.on_user

-- `cg_list_text`, for a list that is not empty
unfoldable pub choose : Tree → ℕ → Forms → Cg (Option ℕ)
unfolding choose_call
choose (symbol ty name) n forms =
    if bytes_eq name (codes "if")
    then forms.on_if
    else if bytes_eq name (codes "let")
    then forms.on_let
    else if bytes_eq name (codes "do")
    then forms.on_do
    else if one_of silent_names name
    then pure none
    else choose_call name n forms
choose _ n forms = pure none
