-- ===== src/Codegen/Branches.antt =====
-- src/codegen_llvm.c: the code of a conditional runs the branch that its test chooses.
use sqale.Prelude.{
  ℕ, suc, ◌≤◌, ◌<◌, ◌≡◌, refl, ◌∙◌, true, false, Option, none, some, [], ◌∷◌, arith, inl, length,
}
use sqale.Prelude.Int.{pos}
use sqale.Runtime.{Value, FloatOps}
use sqale.Codegen.Chunks.{Chunk, br_merge, const_int}
use sqale.Codegen.Context.{Cg, CgContext, pure, ◌>>=◌, ◌>>◌, join, emit, new_tmp}
use sqale.Codegen.Pieces.{cg_branch, branch_end}
use sqale.Codegen.Grows.{tmp-le}
use sqale.Codegen.Good.{Good, same}
use sqale.Codegen.Passing.{exec-skip, number}
use sqale.Codegen.Llvm.{State, Block, exec, step, merged, jumped}
use sqale.Codegen.Runs.{Runs, Gives, Runs-first, exec-one}

branch_end-none :
    (c : CgContext)
    → branch_end none c
      ≡ some (record {
        value = c.tmp_id;
        next = record c { tmp_id = suc c.tmp_id };
        code = const_int c.tmp_id (pos 0) ∷ [];
        consts = [];
      })
unfolding ◌>>◌ ◌>>=◌ join emit pure new_tmp
branch_end-none c = refl

module _ (fl : FloatOps) {A : Type 0} where
  -- the end of a branch that is passed over: the value that it may lack, and the jump
  end-skip :
      (m : ℕ) (v : Option ℕ) (f : ℕ → Cg A) (b : Block) (c : CgContext) (st : State)
      (Q : A → CgContext → State → Type 0)
      → ((x : ℕ) (d : CgContext)
          → d.scopes ≡ c.scopes
          → c.tmp_id ≤ d.tmp_id
          → d.label_id ≡ c.label_id
          → Runs A fl false (f x) d (jumped st b) Q)
      → Runs A fl false (branch_end v >>= λ x. emit (br_merge m) >> f x) c (jumped st b) Q
  unfolding ◌>>◌ emit pure exec
  end-skip m (some v) f b c st Q k =
      Runs-first fl false (pure v) (λ x. emit (br_merge m) >> f x) c (jumped st b) _ (jumped st b) Q
        refl refl (omega arith) (λ r h. refl) (λ h. cc)
        (Runs-first fl false (emit (br_merge m)) (λ u. f v) c (jumped st b) _ (jumped st b) Q refl
          refl (omega arith) (λ r h. refl) (λ h. cc) (k v c refl (omega arith) refl))
  end-skip m none f b c st Q k =
      Runs-first fl false (branch_end none) (λ x. emit (br_merge m) >> f x) c (jumped st b) _
        (jumped st b) Q (branch_end-none c) refl (omega arith) (λ r h. refl) (λ h. cc)
        (Runs-first fl false (emit (br_merge m)) (λ u. f c.tmp_id)
          (record c { tmp_id = suc c.tmp_id }) (jumped st b) _ (jumped st b) Q refl refl
          (omega arith) (λ r h. refl) (λ h. cc)
          (k c.tmp_id (record c { tmp_id = suc c.tmp_id }) refl (omega arith) refl))

  -- A branch that is passed over on the way to `b`.
  pub branch-skip :
      (label : Chunk) (m lo : ℕ) (code : Cg (Option ℕ)) (f : ℕ → Cg A) (b : Block) (c : CgContext)
      (st : State) (Q : A → CgContext → State → Type 0)
      → exec fl (label ∷ []) (jumped st b) ≡ some (jumped st b)
      → Good same lo lo code
      → 0 < length c.scopes
      → lo ≤ c.label_id
      → number b < lo
      → ((x : ℕ) (d : CgContext)
          → d.scopes ≡ c.scopes
          → c.tmp_id ≤ d.tmp_id
          → c.label_id ≤ d.label_id
          → Runs A fl false (f x) d (jumped st b) Q)
      → Runs A fl false (cg_branch label m false code f) c (jumped st b) Q
  unfolding cg_branch ◌>>◌ emit
  branch-skip label m lo code f b c st Q hl g d le lt k =
      let after = λ (r : Option ℕ). branch_end r >>= λ x. emit (br_merge m) >> f x in
      let q = g c d le in
      Runs-first fl false (emit label) (λ u. code >>= after) c (jumped st b) _ (jumped st b) Q refl
        hl (omega arith) (λ r h. refl) (λ h. cc)
        (Runs-first fl false code after c (jumped st b) q.out (jumped st b) Q q.ends
          (exec-skip fl q.out.code b lo q.out.next.label_id st q.grows.labels_lem (inl lt))
          (tmp-le q.grows) (λ r h. refl) (λ h. cc)
          (end-skip m q.out.value f b q.out.next st Q (λ x e s t l.
            k x e (s ∙ q.grows.scopes) (omega (arith, tmp-le q.grows))
              (omega (arith, q.grows.label_le)))))

  -- A branch that is run: it ends in its own block, with its value in a temporary, and goes on to
  -- what joins the branches.
  pub branch-run :
      (label : Chunk) (m : ℕ) (code : Cg (Option ℕ)) (f : ℕ → Cg A) (b : Block) (v : Value)
      (c : CgContext) (st : State) (Q : A → CgContext → State → Type 0)
      → exec fl (label ∷ []) (jumped st b)
        ≡ some (record st { block = b; from = st.block; jump = none })
      → Runs
          (Option ℕ)
          fl
          true
          code
          c
          (record st { block = b; from = st.block; jump = none })
          (Gives v c)
      → ((x : ℕ) (d : CgContext) (e : State)
          → d.scopes ≡ c.scopes
          → c.tmp_id ≤ d.tmp_id
          → c.label_id ≤ d.label_id
          → e.regs x ≡ some v
          → e.block ≡ b
          → Runs A fl false (f x) d (jumped e (merged m)) Q)
      → Runs A fl false (cg_branch label m false code f) c (jumped st b) Q
  unfolding cg_branch ◌>>◌ emit pure step exec
  branch-run label m code f b v c st Q hl p k =
      let after = λ (r : Option ℕ). branch_end r >>= λ x. emit (br_merge m) >> f x in
      let at = record st { block = b; from = st.block; jump = none } in
      let (t, value, below, held, scopes, going, labels) = p.holds in
      Runs-first fl false (emit label) (λ u. code >>= after) c (jumped st b) _ at Q refl hl
        (omega arith) (λ r h. refl) (λ h. cc)
        (Runs-first fl false code after c at p.out p.end Q p.ends p.run p.le p.keeps (λ h. cc)
          (Runs-first fl false (branch_end p.out.value) (λ x. emit (br_merge m) >> f x) p.out.next
            p.end (record { value = t; next = p.out.next; code = []; consts = [] }) p.end Q
            (rw value refl) refl (omega arith) (λ r h. refl) (λ h. cc)
            (Runs-first fl false (emit (br_merge m)) (λ u. f t) p.out.next p.end _
              (jumped p.end (merged m)) Q refl (exec-one fl false (br_merge m) p.end _ going refl)
              (omega arith) (λ r h. refl) (λ h. cc)
              (k t p.out.next p.end scopes p.le labels held (p.block refl)))))
