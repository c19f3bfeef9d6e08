-- ===== src/Codegen/Total.antt =====
-- src/codegen_llvm.c: the generator ends on each expression whose `let`s have the shape that it reads.
use sqale.Prelude.{ℕ, ◌≤◌, refl, Option, none, Bytes, [], codes}
use sqale.Types.{Ty}
use sqale.Codegen.Tree.{
  Tree, Trees, list, symbol, int, float, string, bool, nil, cons, type_of, count,
}
use sqale.Codegen.Chunks.{
  type_to_llvm, const_int, const_float, const_bool, string_concat, string_len,
}
use sqale.Codegen.Context.{Cg, ◌>>◌, outer}
use sqale.Codegen.Pieces.{is_sym, is_unit, fname_of, or_int, cg_unop, print_one}
use sqale.Codegen.Calls.{head_text, cg_len}
use sqale.Codegen.Expr.{
  cg_expr, cg_if, cg_let, cg_bindings, cg_binding, cg_seq, cg_prints, cg_args, cg_binop, cg_concat,
  cg_first,
}
use sqale.Codegen.Good.{Good, same, bind-Good, pure-Good, weaken-Good}
use sqale.Codegen.Scoped.{cg_defined-Good, cg_scoped-Good}
use sqale.Codegen.Shape.{Named, AllNamed, LetShape, Proper, AllProper, items-Proper}
use sqale.Codegen.Choices.{either-Good, choose-Good}
use sqale.Codegen.Steps.{
  assign-Good, operate-Good, with_both-Good, with_one-Good, cg_unop-Good, print_one-Good,
  cg_symbol-Good, cg_string-Good, cg_branches-Good,
}

mutual
  unfolding cg_expr cg_if cg_let cg_bindings cg_binding cg_seq cg_prints cg_args cg_binop cg_concat
      cg_first cg_len Proper AllProper AllNamed ◌>>◌

  -- From each context with a scope the generator ends on an expression: it assigns new temporaries,
  -- in increasing order and so each once; it places only labels that were not taken; and it leaves
  -- the scopes as they were.
  pub cg_expr-Good : (lo k : ℕ) → lo ≤ k → (t : Tree) → Proper t → Good same lo k (cg_expr t)
  cg_expr-Good lo k le (int ty i) p = assign-Good lo k (λ t. const_int t i) (λ t. refl) (λ t. refl)
  cg_expr-Good lo k le (float ty f) p =
      assign-Good lo k (λ t. const_float t f) (λ t. refl) (λ t. refl)
  cg_expr-Good lo k le (bool ty b) p =
      assign-Good lo k (λ t. const_bool t b) (λ t. refl) (λ t. refl)
  cg_expr-Good lo k le (string ty s) p = cg_string-Good lo k s
  cg_expr-Good lo k le (symbol ty name) p = cg_symbol-Good lo k name
  cg_expr-Good lo k le (list ty nil) p = pure-Good same lo k none
  cg_expr-Good lo k le (list ty (cons head args)) p = choose-Good lo k head (count args) _ (record {
    on_if = cg_if-Good lo k le ty args p.2;
    on_let = λ h. cg_let-Good lo k le args (p.0 h) p.2;
    on_do = cg_seq-Good lo k le none args p.2;
    on_binop = cg_binop-Good lo k le (fname_of (head_text head)) (or_int ty) args p.2;
    on_unop =
        cg_first-Good lo k le (cg_unop (fname_of (head_text head)))
          (cg_unop-Good lo k (fname_of (head_text head))) args p.2;
    on_print = cg_prints-Good lo k le args p.2;
    on_concat = cg_concat-Good lo k le args p.2;
    on_len =
        cg_first-Good lo k le cg_len
          (λ u a. assign-Good lo k (λ t. string_len t a) (λ t. refl) (λ t. refl)) args p.2;
    on_user = cg_args-Good lo k le args p.2;
  })

  cg_if-Good :
      (lo k : ℕ)
      → lo ≤ k
      → (ty : Option Ty) (args : Trees) → AllProper args
      → Good same lo k (cg_if ty args)
  cg_if-Good lo k le ty (cons test (cons on_true (cons on_false nil))) p =
      bind-Good same lo k (cg_expr test) _ (cg_expr-Good lo k le test p.0) (λ t.
        with_one-Good lo k t _ (λ b.
          cg_branches-Good lo k (is_unit ty) (type_to_llvm ty) b (cg_expr on_true)
            (cg_expr on_false) le (λ k' le'. cg_expr-Good lo k' le' on_true p.1.0)
            (λ k' le'. cg_expr-Good lo k' le' on_false p.1.1.0)))
  cg_if-Good lo k le ty nil p = pure-Good same lo k none
  cg_if-Good lo k le ty (cons a nil) p = pure-Good same lo k none
  cg_if-Good lo k le ty (cons a (cons b nil)) p = pure-Good same lo k none
  cg_if-Good lo k le ty (cons a (cons b (cons c (cons d more)))) p = pure-Good same lo k none

  cg_let-Good :
      (lo k : ℕ)
      → lo ≤ k
      → (args : Trees) → LetShape args
      → AllProper args
      → Good same lo k (cg_let args)
  cg_let-Good lo k le (cons (list ty bindings) (cons first body)) s p =
      cg_scoped-Good lo k (cg_bindings bindings) (cg_seq none (cons first body))
        (cg_bindings-Good lo k le bindings s (items-Proper ty bindings p.0))
        (weaken-Good lo k _ (cg_seq-Good lo k le none (cons first body) p.1))
  cg_let-Good lo k le nil s p = pure-Good same lo k none
  cg_let-Good lo k le (cons a nil) s p = pure-Good same lo k none
  cg_let-Good lo k le (cons a (cons first body)) s p = absurd s

  cg_bindings-Good :
      (lo k : ℕ)
      → lo ≤ k
      → (bs : Trees) → AllNamed bs
      → AllProper bs
      → Good outer lo k (cg_bindings bs)
  cg_bindings-Good lo k le nil s p = pure-Good outer lo k tt
  cg_bindings-Good lo k le (cons b more) s p =
      bind-Good outer lo k (cg_binding b) _ (cg_binding-Good lo k le b s.0 p.0)
        (λ u. cg_bindings-Good lo k le more s.1 p.1)

  cg_binding-Good :
      (lo k : ℕ) → lo ≤ k → (b : Tree) → Named b → Proper b → Good outer lo k (cg_binding b)
  cg_binding-Good lo k le (list ty (cons name (cons colon (cons type (cons expr rest))))) s p =
      either-Good outer lo k (is_sym colon (codes ":")) _ _
        (λ h.
          cg_defined-Good lo k name expr s.0 (cg_expr expr) s.1
            (weaken-Good lo k _ (cg_expr-Good lo k le expr p.2.1.1.0)))
        (cg_defined-Good lo k name colon s.0 (cg_expr colon) s.1
          (weaken-Good lo k _ (cg_expr-Good lo k le colon p.2.0)))
  cg_binding-Good lo k le (list ty (cons name (cons expr nil))) s p =
      cg_defined-Good lo k name expr s.0 (cg_expr expr) s.1
        (weaken-Good lo k _ (cg_expr-Good lo k le expr p.2.0))
  cg_binding-Good lo k le (list ty (cons name (cons expr (cons more nil)))) s p =
      cg_defined-Good lo k name expr s.0 (cg_expr expr) s.1
        (weaken-Good lo k _ (cg_expr-Good lo k le expr p.2.0))
  cg_binding-Good lo k le b s p = pure-Good outer lo k tt

  pub cg_seq-Good :
      (lo k : ℕ)
      → lo ≤ k
      → (last : Option ℕ) (es : Trees) → AllProper es
      → Good same lo k (cg_seq last es)
  cg_seq-Good lo k le last nil p = pure-Good same lo k last
  cg_seq-Good lo k le last (cons e es) p =
      bind-Good same lo k (cg_expr e) _ (cg_expr-Good lo k le e p.0)
        (λ v. cg_seq-Good lo k le v es p.1)

  cg_prints-Good : (lo k : ℕ) → lo ≤ k → (es : Trees) → AllProper es → Good same lo k (cg_prints es)
  cg_prints-Good lo k le nil p = pure-Good same lo k tt
  cg_prints-Good lo k le (cons e es) p =
      bind-Good same lo k (cg_expr e) _ (cg_expr-Good lo k le e p.0) (λ v.
        bind-Good same lo k (print_one (type_of e) v) _ (print_one-Good lo k (type_of e) v)
          (λ u. cg_prints-Good lo k le es p.1))

  cg_args-Good : (lo k : ℕ) → lo ≤ k → (es : Trees) → AllProper es → Good same lo k (cg_args es)
  cg_args-Good lo k le nil p = pure-Good same lo k []
  cg_args-Good lo k le (cons e es) p =
      bind-Good same lo k (cg_expr e) _ (cg_expr-Good lo k le e p.0) (λ v.
        bind-Good same lo k (cg_args es) _ (cg_args-Good lo k le es p.1)
          (λ vs. pure-Good same lo k _))

  cg_binop-Good :
      (lo k : ℕ)
      → lo ≤ k
      → (op : Bytes) (ty : Option Ty) (es : Trees) → AllProper es
      → Good same lo k (cg_binop op ty es)
  cg_binop-Good lo k le op ty (cons a (cons b rest)) p =
      bind-Good same lo k (cg_expr a) _ (cg_expr-Good lo k le a p.0) (λ l.
        bind-Good same lo k (cg_expr b) _ (cg_expr-Good lo k le b p.1.0)
          (λ r. with_both-Good lo k l r _ (operate-Good lo k _)))
  cg_binop-Good lo k le op ty nil p = pure-Good same lo k none
  cg_binop-Good lo k le op ty (cons a nil) p = pure-Good same lo k none

  cg_concat-Good : (lo k : ℕ) → lo ≤ k → (es : Trees) → AllProper es → Good same lo k (cg_concat es)
  cg_concat-Good lo k le (cons a (cons b rest)) p =
      bind-Good same lo k (cg_expr a) _ (cg_expr-Good lo k le a p.0) (λ l.
        bind-Good same lo k (cg_expr b) _ (cg_expr-Good lo k le b p.1.0) (λ r.
          with_both-Good lo k l r _
            (λ x y. assign-Good lo k (λ t. string_concat t x y) (λ t. refl) (λ t. refl))))
  cg_concat-Good lo k le nil p = pure-Good same lo k none
  cg_concat-Good lo k le (cons a nil) p = pure-Good same lo k none

  cg_first-Good :
      (lo k : ℕ)
      → lo ≤ k
      → (f : Option Ty → ℕ → Cg (Option ℕ)) → ((ty : Option Ty) (a : ℕ) → Good same lo k (f ty a))
      → (es : Trees) → AllProper es
      → Good same lo k (cg_first f es)
  cg_first-Good lo k le f h (cons a rest) p =
      bind-Good same lo k (cg_expr a) _ (cg_expr-Good lo k le a p.0)
        (λ v. with_one-Good lo k v _ (h (type_of a)))
  cg_first-Good lo k le f h nil p = pure-Good same lo k none
