-- ===== src/Codegen/Correct.antt =====
-- src/codegen_llvm.c: compiled expressions compute what the library functions of src/runtime.c compute.
use sqale.Prelude.{ℕ, ◌≡◌, refl, ap, ◌∙◌, Bool, true, false, Option, none, some, ◌∷◌, arith, codes}
use sqale.Prelude.Int.{pos, ◌-ℤ◌}
use sqale.Runtime.{Value, FloatOps, int, bool}
use sqale.Runtime.Arith.{rt_neg}
use sqale.Runtime.Compare.{rt_not}
use sqale.Codegen.Tree.{Tree, Trees, symbol, type_of, count}
use sqale.Codegen.Chunks.{const_int, const_bool, xor_1, sub_0}
use sqale.Codegen.Context.{CgContext, Out}
use sqale.Codegen.Pieces.{or_int, cg_unop, name_of, is_sym}
use sqale.Codegen.Calls.{choose}
use sqale.Codegen.Expr.{cg_expr, cg_if, cg_let, cg_bindings, cg_binding, cg_seq, cg_binop, cg_first}
use sqale.Codegen.Total.{cg_expr-Good}
use sqale.Codegen.Agrees.{Keeps}
use sqale.Codegen.Llvm.{State, exec, step, assigned, instr_value, on_ints}
use sqale.Codegen.Means.{
  Values, Means, MeansLast, MeansBound, int_lit, bool_lit, name, binop, negation, opposite, block,
  let_in, branch, last, more, none_left, bound, bound_as,
}
use sqale.Codegen.Operators.{Handled-Instructs, wrapped-checked}
use sqale.Codegen.Runs.{Runs, Gives, Runs-then, Runs-pure, Runs-weaken, Runs-assign}
use sqale.Codegen.OpNames.{choose-op_name, fname_of-op_name}
use sqale.Codegen.Ready.{
  Ready, Ready-next, Gives-from, operate-Runs, unop-Runs, cg_symbol-Runs, Bound, cg_scoped-Runs,
  binding-Runs, let-Runs, cg_if-Runs,
}

module _ (fl : FloatOps) where
  mutual
    unfolding cg_expr cg_if cg_let cg_bindings cg_binding cg_seq cg_binop cg_first choose cg_unop
        step is_sym name_of count instr_value on_ints rt_not rt_neg

    -- The code of an expression that has a value runs to its end, from each state in which the
    -- scopes give temporaries with the values of the names. It leaves the value in the temporary that
    -- the generator names, and the temporaries that were in use as they were.
    pub cg_expr-Means :
        (flat : Bool) (ρ : Values) (t : Tree) (v : Value)
        → Means fl flat ρ t v
        → (c : CgContext) (st : State) → Ready ρ c st
        → Runs (Option ℕ) fl flat (cg_expr t) c st (Gives v c)
    cg_expr-Means flat ρ t v (int_lit _ _ ty i _) c st h =
        Runs-assign fl flat (λ t. const_int t i) c st (int i) h.going (λ t. refl)
    cg_expr-Means flat ρ t v (bool_lit _ _ ty b) c st h =
        Runs-assign fl flat (λ t. const_bool t b) c st (bool b) h.going (λ t. refl)
    cg_expr-Means flat ρ t v (name _ _ ty x _ e) c st h = cg_symbol-Runs fl flat ρ x v c st h e
    cg_expr-Means flat ρ t v (binop _ _ ty hty o a b x y _ ha hb ok e) c st h =
        rw (choose-op_name, fname_of-op_name)
          (Runs-then fl flat (cg_expr a) _ c st (Gives x c) (Gives v c)
            (cg_expr-Means flat ρ a x ha c st h)
            (λ l d e₁ g le k.
              Runs-then fl flat (cg_expr b) _ d e₁ (Gives y d) (Gives v c)
                (cg_expr-Means flat ρ b y hb d e₁ (Ready-next ρ c d st e₁ x l h g le k))
                (λ r d' e₂ g' le' k'.
                  Runs-weaken fl flat _ d' e₂ (Gives v d') (Gives v c)
                    (operate-Runs fl flat o (or_int ty) (type_of a) x y v l r g.0 g'.0 d' e₂
                      (Handled-Instructs fl o ty (type_of a) x y v ok e) g.1 g'.1 (k' g.0 g.2 ∙ g.3)
                      g'.3 g'.5)
                    (λ z d₃ e₃ g₃.
                      Gives-from x v c d d₃ l z e₁ e₃ g (Gives-from y v d d' d₃ r z e₂ e₃ g' g₃)))))
    cg_expr-Means flat ρ t v (negation _ _ ty hty a b _ ha e) c st h =
        Runs-then fl flat (cg_expr a) _ c st (Gives (bool b) c) (Gives v c)
          (cg_expr-Means flat ρ a (bool b) ha c st h)
          (λ l d e₁ g le k.
            Runs-weaken fl flat _ d e₁ (Gives v d) (Gives v c)
              (unop-Runs fl flat (codes "not") (type_of a) l g.0 (λ t. xor_1 t g.0) v d e₁ refl g.1
                g.5 (λ t. rw (g.3) (ap (assigned e₁ t) e)))
              (λ z d₃ e₃ g₃. Gives-from (bool b) v c d d₃ l z e₁ e₃ g g₃))
    cg_expr-Means flat ρ t v (opposite _ _ ty hty a i _ ha nf e) c st h =
        Runs-then fl flat (cg_expr a) _ c st (Gives (int i) c) (Gives v c)
          (cg_expr-Means flat ρ a (int i) ha c st h)
          (λ l d e₁ g le k.
            Runs-weaken fl flat _ d e₁ (Gives v d) (Gives v c)
              (unop-Runs fl flat (codes "neg") (type_of a) l g.0 (λ t. sub_0 t g.0) v d e₁
                (rw nf refl) g.1 g.5
                (λ t. rw (g.3) (ap (assigned e₁ t) (wrapped-checked (pos 0 -ℤ i) v e))))
              (λ z d₃ e₃ g₃. Gives-from (int i) v c d d₃ l z e₁ e₃ g g₃))
    cg_expr-Means flat ρ t v (block _ _ ty hty es _ hs) c st h =
        cg_seq-Means flat ρ es v hs none c st h
    cg_expr-Means flat ρ t v (let_in _ _ ρ' ty hty bty bs es _ hb hs) c st h =
        let-Runs fl flat ρ' ty hty bty bs es v c st (Gives v c) hs (
          cg_scoped-Runs fl flat ρ ρ' v (cg_bindings bs) (cg_seq none es) c st h
            (λ d r. cg_bindings-Means flat ρ bs ρ' hb d st r)
            (λ d e r. cg_seq-Means flat ρ' es v hs none d e r))
    cg_expr-Means flat ρ t v (branch _ _ ty hty a x y true _ fe ha hx nu ot px py _ _ _ _ _) c st
          h =
        rw fe (
          cg_if-Runs fl ρ ty true v (cg_expr a) (cg_expr x) (cg_expr y) c st h nu ot
            (rw fe at (cg_expr-Means flat ρ a (bool true) ha c st h))
            (λ d e r. cg_expr-Means true ρ x v hx d e r) (λ k. cg_expr-Good k k (omega arith) x px)
            (λ k. cg_expr-Good k k (omega arith) y py))
    cg_expr-Means flat ρ t v (branch _ _ ty hty a x y false _ fe ha hx nu ot px py _ _ _ _ _) c st
          h =
        rw fe (
          cg_if-Runs fl ρ ty false v (cg_expr a) (cg_expr x) (cg_expr y) c st h nu ot
            (rw fe at (cg_expr-Means flat ρ a (bool false) ha c st h))
            (λ d e r. cg_expr-Means true ρ y v hx d e r) (λ k. cg_expr-Good k k (omega arith) x px)
            (λ k. cg_expr-Good k k (omega arith) y py))

    -- a sequence: the value of the last expression
    cg_seq-Means :
        (flat : Bool) (ρ : Values) (es : Trees) (v : Value)
        → MeansLast fl flat ρ es v
        → (r : Option ℕ) (c : CgContext) (st : State) → Ready ρ c st
        → Runs (Option ℕ) fl flat (cg_seq r es) c st (Gives v c)
    cg_seq-Means flat ρ es v (last _ _ e _ he) r c st h =
        Runs-then fl flat (cg_expr e) _ c st (Gives v c) (Gives v c)
          (cg_expr-Means flat ρ e v he c st h)
          (λ l d e₁ g le k. Runs-pure fl flat l d e₁ (Gives v c) g)
    cg_seq-Means flat ρ es v (more _ _ e rest w _ he hs) r c st h =
        Runs-then fl flat (cg_expr e) _ c st (Gives w c) (Gives v c)
          (cg_expr-Means flat ρ e w he c st h)
          (λ l d e₁ g le k.
            Runs-weaken fl flat _ d e₁ (Gives v d) (Gives v c)
              (cg_seq-Means flat ρ rest v hs l d e₁ (Ready-next ρ c d st e₁ w l h g le k))
              (λ z d₃ e₃ g₃. Gives-from w v c d d₃ l z e₁ e₃ g g₃))

    -- the bindings of a `let`
    cg_bindings-Means :
        (flat : Bool) (ρ : Values) (bs : Trees) (ρ' : Values)
        → MeansBound fl flat ρ bs ρ'
        → (c : CgContext) (st : State) → Ready ρ c st
        → Runs (Unit {0}) fl flat (cg_bindings bs) c st (Bound fl flat ρ' c)
    cg_bindings-Means flat ρ bs ρ' (none_left _ _) c st h =
        Runs-pure fl flat tt c st (Bound fl flat ρ' c) (h, refl, refl, omega arith)
    cg_bindings-Means flat ρ bs ρ' (bound _ _ _ ty xty x e v rest he hs) c st h =
        binding-Runs fl flat ρ ρ' (symbol xty x) e x v (cg_expr e) (cg_bindings rest) c st h refl
          (cg_expr-Means flat ρ e v he c st h)
          (λ d e₁ r. cg_bindings-Means flat ((x, v) ∷ ρ) rest ρ' hs d e₁ r)
    cg_bindings-Means flat ρ bs ρ' (bound_as _ _ _ ty xty cty x type e v rest he hs) c st h =
        binding-Runs fl flat ρ ρ' (symbol xty x) e x v (cg_expr e) (cg_bindings rest) c st h refl
          (cg_expr-Means flat ρ e v he c st h)
          (λ d e₁ r. cg_bindings-Means flat ((x, v) ∷ ρ) rest ρ' hs d e₁ r)

  pub cg_expr-exec :
      (flat : Bool) (ρ : Values) (t : Tree) (v : Value) (c : CgContext) (st : State)
      → Means fl flat ρ t v
      → Ready ρ c st
      → (o : Out (Option ℕ)) × (e : State) × (r : ℕ) × (cg_expr t c ≡ some o)
        × (o.value ≡ some r)
        × (exec fl o.code st ≡ some e)
        × (e.regs r ≡ some v)
        × Keeps c.tmp_id st.regs e.regs
        × (o.next.scopes ≡ c.scopes)
  cg_expr-exec flat ρ t v c st m h =
      let p = cg_expr-Means flat ρ t v m c st h in
      (p.out, p.end, p.holds.0, p.ends, p.holds.1, p.run, p.holds.3, p.keeps, p.holds.4)
