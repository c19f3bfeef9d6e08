-- ===== src/Codegen/Ready.antt =====
-- src/codegen_llvm.c: the code of the forms that are not conditionals, given that the parts' code runs.
use sqale.Prelude.{
  ℕ, ◌≤◌, ◌<◌, ◌≡◌, refl, ap, sym, ◌∙◌, Bool, true, false, Option, none, some, [], ◌∷◌, Bytes,
  arith, if◌then◌else◌, length, codes, subst,
}
use sqale.Types.{Ty}
use sqale.Runtime.{Value, FloatOps, bool}
use sqale.Codegen.Tree.{Tree, Trees, list, symbol, cons, type_of}
use sqale.Codegen.Chunks.{Chunk, type_to_llvm, binary}
use sqale.Codegen.Context.{
  Cg, CgContext, CgSymbol, pure, ◌>>=◌, ◌>>◌, join, scopes_now, cg_scope_lookup, cg_scope_push,
  cg_scope_pop, cg_scope_define, outer,
}
use sqale.Codegen.Pieces.{
  assign, operate, with_both, with_one, instr_of, is_unit, cg_unop, cg_symbol, cg_define,
  cg_defined, cg_scoped, cg_branches, name_of, value_of,
}
use sqale.Codegen.Calls.{choose}
use sqale.Codegen.Expr.{cg_expr, cg_bindings, cg_seq}
use sqale.Codegen.Scoped.{nonempty, cg_scope_define_lem}
use sqale.Codegen.Good.{Good, same}
use sqale.Codegen.Agrees.{Agrees, Agrees-keep, Agrees-push, Agrees-define, Keeps}
use sqale.Codegen.Llvm.{State, exec, step, assigned, of_type}
use sqale.Codegen.Means.{BinOp, op_name, Values, find, MeansLast, last, more}
use sqale.Codegen.Operators.{Instructs}
use sqale.Codegen.Runs.{
  Runs, Gives, Runs-first, Runs-then, Runs-pure, Runs-weaken, Runs-assign, Runs-silent,
}
use sqale.Codegen.Conditional.{branches-Runs}

-- what is known where an expression's code starts
pub record Ready (ρ : Values) (c : CgContext) (st : State) : Type 0 where
  pub going : st.jump ≡ none
  pub depth : 0 < length c.scopes
  pub agrees : Agrees ρ c.scopes c.tmp_id st.regs

-- It stays so behind a step that gives a value.
pub Ready-next :
    (ρ : Values) (c d : CgContext) (st e : State) (v : Value) (r : Option ℕ)
    → Ready ρ c st
    → Gives v c r d e
    → c.tmp_id ≤ d.tmp_id
    → Keeps c.tmp_id st.regs e.regs
    → Ready ρ d e
Ready-next ρ c d st e v r h g le k = record {
  going = g.5;
  depth = omega (arith, h.depth, ap length g.4);
  agrees = rw g.4 (Agrees-keep ρ c.scopes c.tmp_id d.tmp_id st.regs e.regs h.agrees le k);
}

pub Gives-from :
    (v w : Value) (c d d' : CgContext) (r r' : Option ℕ) (e e' : State)
    → Gives v c r d e
    → Gives w d r' d' e'
    → Gives w c r' d' e'
Gives-from v w c d d' r r' e e' g h = (h.0, h.1, h.2, h.3, h.4 ∙ g.4, h.5, omega (arith, g.6, h.6))

module _ (fl : FloatOps) (flat : Bool) where
  -- an operator on two temporaries with the operands
  pub operate-Runs :
      (o : BinOp) (ty left : Option Ty) (v w u : Value) (l r : Option ℕ) (x y : ℕ) (d : CgContext)
      (e : State)
      → Instructs fl o ty left v w u
      → l ≡ some x
      → r ≡ some y
      → e.regs x ≡ some v
      → e.regs y ≡ some w
      → e.jump ≡ none
      → Runs
          (Option ℕ)
          fl
          flat
          (with_both l r (operate (instr_of (op_name o) ty left)))
          d
          e
          (Gives u d)
  unfolding step
  operate-Runs o ty left v w u l r x y d e (i, t, hi, hv) hl hr hx hy j =
      rw (hl, hr, hi)
        (Runs-assign fl flat (λ z. binary z i t x y) d e u j (λ z. rw (hx, hy, hv) refl))

  pub unop-Runs :
      (op : Bytes) (ty : Option Ty) (a : Option ℕ) (x : ℕ) (f : ℕ → Chunk) (u : Value)
      (d : CgContext) (e : State)
      → cg_unop op ty x ≡ assign f
      → a ≡ some x
      → e.jump ≡ none
      → ((t : ℕ) → step fl (f t) e ≡ assigned e t (some u))
      → Runs (Option ℕ) fl flat (with_one a (cg_unop op ty)) d e (Gives u d)
  unop-Runs op ty a x f u d e hf ha j hs = rw (ha, hf) (Runs-assign fl flat f d e u j hs)

  pub cg_symbol-Runs :
      (ρ : Values) (x : Bytes) (v : Value) (c : CgContext) (st : State)
      → Ready ρ c st
      → find ρ x ≡ some v
      → Runs (Option ℕ) fl flat (cg_symbol x) c st (Gives v c)
  unfolding cg_symbol ◌>>=◌ join pure scopes_now
  cg_symbol-Runs ρ x v c st h e =
      let (t, ht, lt, hr) = h.agrees x v e in
      Runs-silent fl flat (cg_symbol x) (value_of (cg_scope_lookup c.scopes x)) c c st (Gives v c)
        refl (omega arith) (t, ht, lt, hr, refl, h.going, omega arith)

  -- what is known behind a binding, of which only the innermost scope is new
  abbrev pub Bound : Values → CgContext → Unit {0} → CgContext → State → Type 0
  Bound ρ c u d e =
      Ready ρ d e
      × (outer d.scopes ≡ outer c.scopes)
      × (length d.scopes ≡ length c.scopes)
      × (c.label_id ≤ d.label_id)

  -- a binding: the name gets the temporary of the value
  pub cg_defined-Runs :
      (ρ : Values) (n expr : Tree) (x : Bytes) (v : Value) (code : Cg (Option ℕ)) (c : CgContext)
      (st : State)
      → Ready ρ c st
      → name_of n ≡ some x
      → Runs (Option ℕ) fl flat code c st (Gives v c)
      → Runs (Unit {0}) fl flat (cg_defined n expr code) c st (Bound ((x, v) ∷ ρ) c)
  unfolding cg_defined cg_define
  cg_defined-Runs ρ n expr x v code c st h hn p =
      Runs-then fl flat code _ c st (Gives v c) (Bound ((x, v) ∷ ρ) c) p (λ r d e g le k.
        let ready = Ready-next ρ c d st e v r h g le k in
        let (s, rest, hs) = nonempty d.scopes ready.depth in
        let symb : CgSymbol = record { name = x; value = some g.0; type = type_of expr } in
        let d' = record d { scopes = (symb ∷ s) ∷ rest } in
        let old = subst (λ ss. Agrees ρ ss d.tmp_id e.regs) (hs) ready.agrees in
        rw (hn, cg_define, g.1)
          (Runs-silent fl flat (cg_scope_define x (some g.0) (type_of expr)) tt d d' e
            (Bound ((x, v) ∷ ρ) c) (cg_scope_define_lem x (some g.0) (type_of expr) d s rest hs)
            (omega arith)
            (
              record {
                going = g.5;
                depth = omega arith;
                agrees = Agrees-define ρ s rest d.tmp_id e.regs x v g.0 (type_of expr) old g.2 g.3;
              },
              ap outer (sym hs) ∙ ap outer g.4,
              ap length (sym hs) ∙ ap length g.4,
              g.6,
            )))

  -- a `let`: the bindings and the body run in a scope of their own
  pub cg_scoped-Runs :
      (ρ ρ' : Values) (v : Value) (bindings : Cg (Unit {0})) (body : Cg (Option ℕ)) (c : CgContext)
      (st : State)
      → Ready ρ c st
      → ((d : CgContext) → Ready ρ d st → Runs (Unit {0}) fl flat bindings d st (Bound ρ' d))
      → ((d : CgContext) (e : State) → Ready ρ' d e → Runs (Option ℕ) fl flat body d e (Gives v d))
      → Runs (Option ℕ) fl flat (cg_scoped bindings body) c st (Gives v c)
  unfolding cg_scoped ◌>>◌ cg_scope_push cg_scope_pop exec
  cg_scoped-Runs ρ ρ' v bindings body c st h hb hv =
      let c' = record c { scopes = [] ∷ c.scopes } in
      let ready : Ready ρ c' st = record {
        going = h.going;
        depth = omega arith;
        agrees = Agrees-push ρ c.scopes c.tmp_id st.regs h.agrees;
      } in
      let leave = λ (r : Option ℕ). cg_scope_pop >>= λ u. pure r in
      Runs-first fl flat cg_scope_push (λ u. bindings >>= λ u. body >>= leave) c st _ st (Gives v c)
        refl refl (omega arith) (λ r h. refl) (λ h. refl)
        (Runs-then fl flat bindings (λ u. body >>= leave) c' st (Bound ρ' c') (Gives v c)
          (hb c' ready)
          (λ u d e b le k.
            Runs-then fl flat body leave d e (Gives v d) (Gives v c) (hv d e b.0)
              (λ r d' e' g le' k'.
                Runs-first fl flat cg_scope_pop (λ u. pure r) d' e' _ e' (Gives v c) refl refl
                  (omega arith) (λ r h. refl) (λ h. refl)
                  (Runs-pure fl flat r (record d' { scopes = outer d'.scopes }) e' (Gives v c)
                    (g.0, g.1, g.2, g.3, ap outer g.4 ∙ b.1, g.5, omega (arith, g.6, b.3))))))

  Bound-from :
      (ρ ρ' : Values) (c d d' : CgContext) (e e' : State) (u : Unit {0})
      → Bound ρ c tt d e
      → Bound ρ' d u d' e'
      → Bound ρ' c u d' e'
  Bound-from ρ ρ' c d d' e e' u b b' = (b'.0, b'.1 ∙ b.1, b'.2 ∙ b.2, omega (arith, b.3, b'.3))

  -- a binding and those behind it
  pub binding-Runs :
      (ρ ρ' : Values) (n expr : Tree) (x : Bytes) (v : Value) (code : Cg (Option ℕ))
      (others : Cg (Unit {0})) (c : CgContext) (st : State)
      → Ready ρ c st
      → name_of n ≡ some x
      → Runs (Option ℕ) fl flat code c st (Gives v c)
      → ((d : CgContext) (e : State)
          → Ready ((x, v) ∷ ρ) d e
          → Runs (Unit {0}) fl flat others d e (Bound ρ' d))
      → Runs (Unit {0}) fl flat (cg_defined n expr code >> others) c st (Bound ρ' c)
  unfolding ◌>>◌
  binding-Runs ρ ρ' n expr x v code others c st h hn p k =
      Runs-then fl flat (cg_defined n expr code) (λ u. others) c st (Bound ((x, v) ∷ ρ) c)
        (Bound ρ' c) (cg_defined-Runs ρ n expr x v code c st h hn p)
        (λ u d e b le ks.
          Runs-weaken fl flat others d e (Bound ρ' d) (Bound ρ' c) (k d e b.0)
            (λ u d' e' b'. Bound-from ((x, v) ∷ ρ) ρ' c d d' e e' u b b'))

  -- the shape of a `let` whose body has a value
  pub let-Runs :
      (ρ : Values) (ty hty bty : Option Ty) (bs es : Trees) (v : Value) (c : CgContext) (st : State)
      (P : Option ℕ → CgContext → State → Type 0)
      → MeansLast fl flat ρ es v
      → Runs (Option ℕ) fl flat (cg_scoped (cg_bindings bs) (cg_seq none es)) c st P
      → Runs
          (Option ℕ)
          fl
          flat
          (cg_expr (list ty (cons (symbol hty (codes "let")) (cons (list bty bs) es))))
          c
          st
          P
  unfolding cg_expr choose
  let-Runs ρ ty hty bty bs es v c st P (last _ _ e _ he) p = p
  let-Runs ρ ty hty bty bs es v c st P (more _ _ e rest w _ he hs) p = p

-- a conditional, from its test and the branch that the test chooses
pub cg_if-Runs :
    (fl : FloatOps) (ρ : Values) (ty : Option Ty) (b : Bool) (v : Value)
    (test true_code false_code : Cg (Option ℕ)) (c : CgContext) (st : State)
    → Ready ρ c st
    → is_unit ty ≡ false
    → of_type (type_to_llvm ty) v ≡ some v
    → Runs (Option ℕ) fl false test c st (Gives (bool b) c)
    → ((d : CgContext) (e : State)
        → Ready ρ d e
        → Runs (Option ℕ) fl true (if b then true_code else false_code) d e (Gives v d))
    → ((k : ℕ) → Good same k k true_code)
    → ((k : ℕ) → Good same k k false_code)
    → Runs
        (Option ℕ)
        fl
        false
        (test >>= λ t.
          with_one t (λ z. cg_branches (is_unit ty) (type_to_llvm ty) z true_code false_code))
        c
        st
        (Gives v c)
cg_if-Runs fl ρ ty b v test true_code false_code c st h nu ot p run gt gf =
    Runs-then fl false test _ c st (Gives (bool b) c) (Gives v c) p (λ l d e g le k.
      let ready = Ready-next ρ c d st e (bool b) l h g le k in
      rw (g.1, nu)
        (Runs-weaken fl false _ d e (Gives v d) (Gives v c)
          (branches-Runs fl (type_to_llvm ty) g.0 true_code false_code d e v b g.5 g.3 ot
            ready.depth
            (λ d' e' sc le' rs j. run d' e' (record {
              going = j;
              depth = omega (arith, ready.depth, ap length sc);
              agrees = rw sc (
                  Agrees-keep ρ d.scopes d.tmp_id d'.tmp_id e.regs e'.regs ready.agrees le'
                    (λ r lt. ap (λ f. f r) rs));
            }))
            gt gf)
          (λ z d₃ e₃ g₃. Gives-from (bool b) v c d d₃ l z e e₃ g g₃)))
