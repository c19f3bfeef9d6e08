-- ===== src/Codegen/Expr.antt =====
-- src/codegen_llvm.c: the code for expressions. A result is the number of a temporary, and `none`
-- is -1: no value, or a form that the generator has no code for.
use sqale.Prelude.{ℕ, Option, none, List, [], ◌∷◌, Bytes, codes, if◌then◌else◌}
use sqale.Types.{Ty}
use sqale.Codegen.Tree.{
  Tree, Trees, list, symbol, int, float, string, bool, nil, cons, type_of, count,
}
use sqale.Codegen.Chunks.{Llvm, type_to_llvm, const_int, const_float, const_bool, string_concat}
use sqale.Codegen.Context.{Cg, pure, fault, ◌>>=◌, ◌>>◌, cg_scope_lookup}
use sqale.Codegen.Pieces.{
  is_sym, is_unit, name_of, fname_of, or_int, instr_of, assign, operate, with_both, with_one,
  cg_unop, print_one, cg_symbol, cg_branches, cg_string, cg_define, cg_scoped, cg_defined,
}
use sqale.Codegen.Calls.{emit_call, head_text, choose, cg_len}

unfoldable mutual
  unfolding choose type_to_llvm cg_len cg_scoped cg_defined is_sym name_of fname_of instr_of assign
      cg_unop cg_symbol emit_call cg_branches cg_string cg_define count type_of cg_scope_lookup

  pub cg_expr : Tree → Cg (Option ℕ)
  cg_expr (int ty i) = assign (λ t. const_int t i)
  cg_expr (float ty f) = assign (λ t. const_float t f)
  cg_expr (bool ty b) = assign (λ t. const_bool t b)
  cg_expr (string ty s) = cg_string s
  cg_expr (symbol ty name) = cg_symbol name
  cg_expr (list ty nil) = pure none
  cg_expr (list ty (cons head args)) =
      let on_if = cg_if ty args in
      let on_let = cg_let args in
      let on_do = cg_seq none args in
      let on_binop = cg_binop (fname_of (head_text head)) (or_int ty) args in
      let on_unop = cg_first (cg_unop (fname_of (head_text head))) args in
      let on_print = cg_prints args in
      let on_concat = cg_concat args in
      let on_len = cg_first cg_len args in
      let on_user = cg_args args in
      choose head (count args) (record {
        on_if = on_if;
        on_let = on_let;
        on_do = on_do;
        on_binop = on_binop;
        on_unop = on_unop;
        on_print = on_print;
        on_concat = on_concat;
        on_len = on_len;
        on_user = on_user;
      })

  pub cg_if : Option Ty → Trees → Cg (Option ℕ)
  cg_if ty (cons test (cons on_true (cons on_false nil))) = do
    t ← cg_expr test
    with_one t
        (λ b. cg_branches (is_unit ty) (type_to_llvm ty) b (cg_expr on_true) (cg_expr on_false))
  cg_if ty _ = pure none

  -- [let [[name : Type expr] ...] body...]
  pub cg_let : Trees → Cg (Option ℕ)
  cg_let nil = pure none
  cg_let (cons bindings nil) = pure none
  cg_let (cons (list ty bindings) (cons first body)) =
      cg_scoped (cg_bindings bindings) (cg_seq none (cons first body))
  cg_let (cons _ (cons first body)) = fault

  pub cg_bindings : Trees → Cg (Unit {0})
  cg_bindings nil = pure tt
  cg_bindings (cons b more) = do cg_binding b; cg_bindings more

  -- [name : Type expr] or [name expr]; any other item is passed over
  pub cg_binding : Tree → Cg (Unit {0})
  cg_binding (list ty (cons name (cons colon (cons type (cons expr rest))))) =
      let typed = cg_defined name expr (cg_expr expr) in
      let plain = cg_defined name colon (cg_expr colon) in
      if is_sym colon (codes ":") then typed else plain
  cg_binding (list ty (cons name (cons expr rest))) = cg_defined name expr (cg_expr expr)
  cg_binding _ = pure tt

  -- the value of the last expression
  pub cg_seq : Option ℕ → Trees → Cg (Option ℕ)
  cg_seq last nil = pure last
  cg_seq last (cons e es) = do v ← cg_expr e; cg_seq v es

  pub cg_prints : Trees → Cg (Unit {0})
  cg_prints nil = pure tt
  cg_prints (cons a as_) = do v ← cg_expr a; print_one (type_of a) v; cg_prints as_

  pub cg_args : Trees → Cg (List (Llvm × Option ℕ))
  cg_args nil = pure []
  cg_args (cons a more) = do
    v ← cg_expr a
    vs ← cg_args more
    pure ((type_to_llvm (type_of a), v) ∷ vs)

  pub cg_binop : Bytes → Option Ty → Trees → Cg (Option ℕ)
  cg_binop op ty (cons left (cons right rest)) = do
    l ← cg_expr left
    r ← cg_expr right
    with_both l r (operate (instr_of op ty (type_of left)))
  cg_binop op ty _ = pure none

  pub cg_concat : Trees → Cg (Option ℕ)
  cg_concat (cons left (cons right rest)) = do
    l ← cg_expr left
    r ← cg_expr right
    with_both l r (λ a b. assign (λ t. string_concat t a b))
  cg_concat _ = pure none

  pub cg_first : (Option Ty → ℕ → Cg (Option ℕ)) → Trees → Cg (Option ℕ)
  cg_first k (cons a rest) = do v ← cg_expr a; with_one v (k (type_of a))
  cg_first k nil = pure none
