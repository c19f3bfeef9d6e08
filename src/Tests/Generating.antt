-- ===== src/Tests/Generating.antt =====
-- Generated code at concrete inputs.
use sqale.Prelude.{
  ℕ, ◌≡◌, refl, arith, true, false, Option, none, some, List, [], ◌∷◌, ◌++◌, codes, Bytes,
}
use sqale.Prelude.Int.{pos, ◌+ℤ◌}
use sqale.Ast.{Double}
use sqale.Types.{Ty}
use sqale.Runtime
use sqale.Runtime.Arith.{rt_add}
use sqale.Runtime.Compare.{rt_lt}
use sqale.Runtime.{Value, FloatOps}
use sqale.Codegen.Tree.{Tree, Trees, list, symbol, int, bool, nil, cons, type_of}
use sqale.Types
use sqale.Codegen.Chunks.{Chunk, type_to_llvm}
use sqale.Codegen.Pieces.{is_sym, name_of}
use sqale.Codegen.Context.{
  Const, Out, cg_context_new, sym_eq, ◌>>=◌, ◌>>◌, new_tmp, emit, pure, new_label,
}
use sqale.Codegen.Expr.{cg_expr}
use sqale.Codegen.Grows.{targets, labels, Ascending, Within}
use sqale.Codegen.Llvm.{start, exec}
use sqale.Codegen.Means.{
  Means, name, binop, branch, let_in, last, none_left, bound_as, less, plus, op_value, op_name,
  int_op, int_compare,
}
use sqale.Codegen.Shape.{Proper, AllProper}
use sqale.Codegen.Module.{cg_program, runtime_decls}
use sqale.Codegen.Emit.{no_opts, codegen_emit_ir}
use sqale.Codegen.Programs.{ProperProgram, ParamsNamed, cg_program-once}
use sqale.Codegen.Escape.{escaped}
use sqale.Codegen.Text.{ir_text}
use sqale.Codegen.Buffer.{TextBuffer, ir_buffer, append_all, HasRoom, append_all-ir_text}

abbrev int_ty : Option Ty
int_ty = some Ty.int

abbrev num : ℕ → Tree
num n = int int_ty (pos n)

abbrev ref : Bytes → Tree
ref x = symbol int_ty x

abbrev form : Option Ty → Bytes → Trees → Tree
form ty head args = list ty (cons (symbol none head) args)

-- [let [[x : Int 5]] [if [< x 10] [+ x 1] 0]]
abbrev test_expr : Tree
test_expr = form (some Ty.bool) (codes "<") (cons (ref (codes "x")) (cons (num 10) nil))

abbrev then_expr : Tree
then_expr = form int_ty (codes "+") (cons (ref (codes "x")) (cons (num 1) nil))

abbrev if_expr : Tree
if_expr = form int_ty (codes "if") (cons test_expr (cons then_expr (cons (num 0) nil)))

abbrev binding : Tree
binding = list none (
    cons (ref (codes "x"))
      (cons (symbol none (codes ":")) (cons (symbol none (codes "Int")) (cons (num 5) nil))))

abbrev pub let_expr : Tree
let_expr = form int_ty (codes "let") (cons (list none (cons binding nil)) (cons if_expr nil))

abbrev pub no_floats : FloatOps
no_floats = record {
  add = λ a b. 0;
  sub = λ a b. 0;
  mul = λ a b. 0;
  div = λ a b. 0;
  neg = λ a. a;
  eq = λ a b. false;
  ne = λ a b. true;
  lt = λ a b. false;
  le = λ a b. false;
}

abbrev five : List (Bytes × Value)
five = (codes "x", Runtime.int (pos 5)) ∷ []

unfoldable pub then_means : Means no_floats true five then_expr (Runtime.int (pos 6))
unfolding op_value sym_eq rt_add type_of ◌+ℤ◌ op_name
then_means =
    binop true five int_ty none plus (ref (codes "x")) (num 1) (Runtime.int (pos 5))
      (Runtime.int (pos 1)) (Runtime.int (pos 6))
      (name true five int_ty (codes "x") (Runtime.int (pos 5)) refl)
      (Means.int_lit true five int_ty (pos 1) refl)
      (int_op plus int_ty int_ty (pos 5) (pos 1) refl refl) refl

unfoldable pub test_means : Means no_floats false five test_expr (Runtime.bool true)
unfolding op_value sym_eq rt_lt type_of op_name
test_means =
    binop false five (some Ty.bool) none less (ref (codes "x")) (num 10) (Runtime.int (pos 5))
      (Runtime.int (pos 10)) (Runtime.bool true)
      (name false five int_ty (codes "x") (Runtime.int (pos 5)) refl)
      (Means.int_lit false five int_ty (pos 10) refl)
      (int_compare less (some Ty.bool) int_ty (pos 5) (pos 10) refl refl) refl

pub then_Proper : Proper then_expr
unfolding Proper AllProper is_sym
then_Proper = (λ h. cc h, tt, (tt, (tt, tt)))

unfoldable pub let_means : Means no_floats false [] let_expr (Runtime.int (pos 6))
unfolding Proper type_to_llvm
let_means =
    let_in false [] five int_ty none none (cons binding nil) (cons if_expr nil)
      (Runtime.int (pos 6))
      (bound_as false [] five none int_ty none (codes "x") (symbol none (codes "Int")) (num 5)
        (Runtime.int (pos 5)) nil (Means.int_lit false [] int_ty (pos 5) refl)
        (none_left false five))
      (last false five if_expr (Runtime.int (pos 6)) (
        branch false five int_ty none test_expr then_expr (num 0) true (Runtime.int (pos 6)) refl
          test_means then_means refl refl then_Proper tt five (Runtime.int (pos 0)) (refl, refl, tt)
          (Means.int_lit true five int_ty (pos 0) refl) refl))

-- [def f : Int [fn [[x : Int]] : Int [let [[x : Int 5]] ...]]]
abbrev colon : Tree
colon = symbol none (codes ":")

abbrev int_name : Tree
int_name = symbol none (codes "Int")

abbrev function : Tree
function = list none (
    cons (symbol none (codes "def")) (
      cons (symbol none (codes "f")) (
        cons colon (
          cons int_name (
            cons
              (list (some (Ty.func (Types.Tys.cons Ty.int Types.Tys.nil) Ty.int)) (
                cons (symbol none (codes "fn")) (
                  cons
                    (list none (
                      cons
                        (list none
                          (cons (symbol none (codes "x")) (cons colon (cons int_name nil))))
                        nil))
                    (cons colon (cons int_name (cons then_expr nil))))))
              nil)))))

abbrev program : Trees
program = cons function nil

program_Proper : ProperProgram program
unfolding ProperProgram ParamsNamed name_of AllProper Proper is_sym
program_Proper = ((codes "f", refl), (((codes "x", refl), tt), (tt, (tt, (then_Proper, tt)))), tt)

cg_program-once_example :
    (o : Out (Unit {0})) × (cg_program no_opts program cg_context_new ≡ some o)
    × Ascending 0 (targets o.code) o.next.tmp_id
    × Within 0 (labels o.code) o.next.label_id
cg_program-once_example = cg_program-once no_opts program program_Proper

-- a"\ and a byte above 127
abbrev odd_text : Bytes
odd_text = 97 ∷ 34 ∷ 92 ∷ 200 ∷ []

abbrev odd_const : Const
odd_const = record { id = 2; text = odd_text }

odd_text-escaped : escaped odd_text ≡ codes "a\\22\\5C\\C8"
unfolding escaped
odd_text-escaped = refl

abbrev no_show : Double → Bytes
no_show f = codes "0"

abbrev two_chunks : List Chunk
two_chunks = Chunk.const_int 0 (pos 7) ∷ Chunk.ret_void ∷ []

append_all-ir_text_example :
    (b : TextBuffer) × (append_all no_show two_chunks ir_buffer ≡ some b)
    × (b.text ≡ ir_buffer.text ++ ir_text no_show two_chunks)
    × HasRoom b
append_all-ir_text_example = append_all-ir_text no_show two_chunks ir_buffer (omega arith)

two_chunks_text :
    ir_text no_show two_chunks
    ≡ codes "  %t0 = add i64 0, 7" ++ (10 ∷ (codes "  ret void" ++ (10 ∷ [])))
unfolding ir_text
two_chunks_text = refl

-- [if true [if true 1 2] 2]: the outer `phi` names the block `then0`, and the branch ends in `merge5`,
-- so that the code has no value.
abbrev if_true : Tree → Tree
if_true a = form int_ty (codes "if") (cons (bool (some Ty.bool) true) (cons a (cons (num 2) nil)))

abbrev code_of : Option (Out (Option ℕ)) → List Chunk
code_of none = []
code_of (some o) = o.code

nested_if_stops :
    exec no_floats
      (code_of (cg_expr (if_true (if_true (num 1))) cg_context_new))
      (start (λ r. none))
    ≡ none
unfolding cg_expr cg_context_new exec ◌>>=◌ new_tmp ◌>>◌ emit pure new_label
nested_if_stops = refl

-- the module of a program without functions
empty_module :
    codegen_emit_ir no_show none nil
    ≡ some (
        codes "; ModuleID = 'sqale'"
        ++ (10 ∷ codes "source_filename = \"sqale\"")
        ++ (10 ∷ [])
        ++ codes "target triple = \"x86_64-unknown-linux-gnu\""
        ++ (10 ∷ 10 ∷ [])
        ++ runtime_decls)
unfolding codegen_emit_ir runtime_decls ◌>>◌ emit pure
empty_module = refl
