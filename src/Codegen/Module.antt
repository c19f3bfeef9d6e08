-- ===== src/Codegen/Module.antt =====
-- src/codegen_llvm.c: functions, programs, and the module's text (`codegen_emit_ir` with USE_LLVM 0).
use sqale.Prelude.{
  ℕ, Bool, true, false, ◌&&◌, ◌||◌, not, Option, none, some, List, [], ◌∷◌, ◌++◌, Bytes, codes,
  if◌then◌else◌,
}
use sqale.Types.{Ty, Tys}
use sqale.Codegen.Tree.{Tree, Trees, list, nil, cons, type_of}
use sqale.Codegen.Chunks.{
  type_to_llvm, raw, source_filename, comma, define, param, ret_void, ret, ret_zero,
}
use sqale.Codegen.Context.{
  Cg, pure, fault, ◌>>=◌, ◌>>◌, emit, new_tmp, cg_scope_push, cg_scope_pop, cg_scope_define,
}
use sqale.Codegen.Pieces.{is_sym, name_of, fname_of, is_unit}
use sqale.Codegen.Expr.{cg_seq}

-- include/codegen.h, `CodegenOpts`; a module name may be NULL
pub record CodegenOpts : Type 0 where
  pub module_name : Option Bytes
  pub use_llvm : Bool
  pub for_exe : Bool
  pub opt_level : ℕ
  pub emit_debug : Bool

abbrev pub lines : List Bytes → Bytes
lines [] = []
lines (s ∷ ss) = s ++ (10 ∷ lines ss)

abbrev line : Bytes → Cg (Unit {0})
line s = emit (raw (s ++ (10 ∷ [])))

-- `emit_runtime_decls`, as one chunk
unfoldable pub runtime_decls : Bytes
runtime_decls = lines (
    codes "; Runtime function declarations"
    ∷ codes "declare void @sq_print_i64(i64)"
    ∷ codes "declare void @sq_print_f64(double)"
    ∷ codes "declare void @sq_print_bool(i1)"
    ∷ codes "declare void @sq_print_cstr(i8*)"
    ∷ codes "declare void @sq_print_newline()"
    ∷ codes "declare i8* @sq_alloc(i64)"
    ∷ codes "declare i8* @sq_alloc_closure(i8*, i8*, i32)"
    ∷ codes "; String operations"
    ∷ codes "declare i8* @sq_string_new(i8*, i64)"
    ∷ codes "declare i8* @sq_string_concat(i8*, i8*)"
    ∷ codes "declare i64 @sq_string_len(i8*)"
    ∷ []
    ∷ [])

abbrev pub named : Tree → (Bytes → Cg (Unit {0})) → Cg (Unit {0})
named n f = elim (name_of n) [ none ↦ fault | some x ↦ f x ]

abbrev pub return_type : Option Ty → Option Ty
return_type (some (Ty.func ps r)) = some r
return_type _ = some Ty.int

-- the type of the parameter at a place of which `ts` are left, Int where there is none
abbrev pub first_type : Tys → Option Ty
first_type Tys.nil = some Ty.int
first_type (Tys.cons t ts) = some t

abbrev pub other_types : Tys → Tys
other_types Tys.nil = Tys.nil
other_types (Tys.cons t ts) = ts

-- The type of an `fn` is a function's; of any other type the source would read the arity of a field.
abbrev pub param_types : Option Ty → Tys
param_types (some (Ty.func ps r)) = ps
param_types _ = Tys.nil

abbrev pub is_last : Trees → Bool
is_last nil = true
is_last _ = false

-- one parameter, which gets a temporary
unfoldable pub cg_param : Tree → Option Ty → Bool → Cg (Unit {0})
unfolding name_of type_to_llvm
cg_param name ty at_end = do
  t ← new_tmp
  emit (param (type_to_llvm ty) t)
  u ← if at_end then pure tt else emit comma
  named name (λ x. cg_scope_define x (some t) ty)

-- [[param : T] ...]; an item with fewer than three parts is passed over with its type
unfoldable pub cg_params : Trees → Tys → Cg (Unit {0})
unfolding cg_param
cg_params nil ts = pure tt
cg_params (cons (list ty (cons name (cons colon (cons type rest)))) more) ts = do
  cg_param name (first_type ts) (is_last more)
  cg_params more (other_types ts)
cg_params (cons p more) ts = cg_params more (other_types ts)

-- the body, behind `: RetType` where that is there
abbrev pub body_of : Trees → Trees
body_of (cons colon (cons type body)) =
    if is_sym colon (codes ":") then body else cons colon (cons type body)
body_of (cons colon nil) = if is_sym colon (codes ":") then nil else cons colon nil
body_of nil = nil

abbrev pub cg_return : Option Ty → Option ℕ → Cg (Unit {0})
cg_return ty r = if is_unit ty then emit ret_void else elim r [
  | none ↦ emit (ret_zero (type_to_llvm ty))
  | some t ↦ emit (ret (type_to_llvm ty) t)
]

-- the parameters, the body and the return of a function that is called `x`
unfoldable pub cg_function_body : Bytes → Option Ty → Trees → Trees → Cg (Unit {0})
unfolding cg_params cg_seq type_to_llvm is_sym
cg_function_body x fn_type params body = do
  cg_params params (param_types fn_type)
  line (codes ") {")
  line (codes "entry:")
  cg_scope_define x (some 0) fn_type
  r ← cg_seq none (body_of body)
  cg_return (return_type fn_type) r
  line (codes "}" ++ (10 ∷ []))

-- `cg_function_text`, from the name, the type, the parameters and what is behind them
unfoldable pub cg_function : Bytes → Option Ty → Trees → Trees → Cg (Unit {0})
unfolding cg_function_body fname_of type_to_llvm
cg_function x fn_type params body = do
  emit (define (type_to_llvm (return_type fn_type)) (fname_of x))
  cg_scope_push
  cg_function_body x fn_type params body
  cg_scope_pop

-- the parameters of a function must be a list
abbrev pub cg_with_params : Tree → Option Ty → Tree → Trees → Cg (Unit {0})
cg_with_params name fn_type (list ty params) body =
    named name (λ x. cg_function x fn_type params body)
cg_with_params name fn_type _ body = fault

-- the code of a definition, where what it defines is [fn params first ...]
abbrev pub cg_form : Bool → Tree → Tree → Cg (Unit {0})
cg_form is_def name (list fty (cons fn (cons params (cons first body)))) =
    if is_def && is_sym fn (codes "fn")
    then cg_with_params name fty params (cons first body)
    else pure tt
cg_form is_def name _ = pure tt

-- the functions of a program, in order: of the items with five parts or more, those that are
-- definitions
unfoldable pub cg_functions : Trees → Cg (Unit {0})
unfolding cg_function is_sym name_of
cg_functions nil = pure tt
cg_functions
      (cons (list ty (cons def (cons name (cons colon (cons type (cons value rest)))))) more) =
    do cg_form (is_sym def (codes "def")) name value; cg_functions more
cg_functions (cons form more) = cg_functions more

-- the first pass: the name of each definition, with the type of what it defines
unfoldable pub register_functions : Trees → Cg (Unit {0})
unfolding is_sym name_of
register_functions nil = pure tt
register_functions
      (cons (list ty (cons def (cons name (cons colon (cons type (cons value rest)))))) more) =
    let others = register_functions more in
    if is_sym def (codes "def")
    then (named name (λ x. cg_scope_define x (some 0) (type_of value)) >> others)
    else others
register_functions (cons form more) = register_functions more

-- `find_main_fn`: is there a definition of main
unfoldable pub has_main : Trees → Bool
unfolding is_sym
has_main nil = false
has_main (cons (list ty (cons def (cons name (cons colon (cons type (cons value rest)))))) more) =
    (is_sym def (codes "def") && is_sym name (codes "main")) || has_main more
has_main (cons form more) = has_main more

abbrev pub module_or : Option Bytes → Bytes
module_or none = codes "sqale"
module_or (some name) = name

-- the main that a program without one gets
abbrev pub stub_main : Bool → Cg (Unit {0})
stub_main false = pure tt
stub_main true = emit (
    raw (
      lines (codes "define i32 @main() {" ∷ codes "entry:" ∷ codes "  ret i32 0" ∷ codes "}" ∷ [])))

unfoldable pub cg_program : CodegenOpts → Trees → Cg (Unit {0})
unfolding register_functions cg_functions has_main runtime_decls
cg_program opts program = do
  line (codes "; ModuleID = 'sqale'")
  emit (source_filename (module_or opts.module_name))
  line (codes "target triple = \"x86_64-unknown-linux-gnu\"" ++ (10 ∷ []))
  emit (raw runtime_decls)
  register_functions program
  cg_functions program
  stub_main (not (has_main program) && opts.for_exe)
