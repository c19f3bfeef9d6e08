-- ===== src/Codegen/Conditional.antt =====
-- src/codegen_llvm.c: `cg_if_text` where the test has a value: the branch that it chooses runs, and
-- `phi` takes that branch's value.
use sqale.Prelude.{
  ℕ, suc, ◌≤◌, ◌<◌, ◌≡◌, refl, ap, ◌∙◌, Bool, true, false, Option, none, some, [], ◌∷◌, ◌==◌, arith,
  if◌then◌else◌, length,
}
use sqale.Runtime.{Value, FloatOps, bool}
use sqale.Codegen.Chunks.{Chunk, Llvm, br_if, then_label, else_label, merge_label, phi}
use sqale.Codegen.Context.{Cg, CgContext, ◌>>=◌, ◌>>◌, emit, new_label}
use sqale.Codegen.Pieces.{assign, cg_branch, cg_branches}
use sqale.Codegen.Good.{Good, same}
use sqale.Codegen.Llvm
use sqale.Codegen.Llvm.{
  State, Block, exec, step, same_block, on_true, on_false, merged, jumped, of_type, typed, assigned,
}
use sqale.Codegen.Runs.{Runs, Gives, Runs-first, Runs-weaken, Runs-assign, exec-one}
use sqale.Codegen.Branches.{branch-skip, branch-run}

==_refl : (n : ℕ) → (n == n) ≡ true
==_refl n = ground arith

module _ (fl : FloatOps) where
  arrived :
      (label : Chunk) (b : Block) (st : State)
      → Llvm.block_of label ≡ some b
      → same_block b b ≡ true
      → exec fl (label ∷ []) (jumped st b)
        ≡ some (record st { block = b; from = st.block; jump = none })
  unfolding exec
  arrived label b st h e = rw (h, e) refl

  -- what joins the branches, when the one before has its value in the temporary that `phi` reads
  joined :
      (ty : Llvm) (x n y e m z : ℕ) (b : Block) (v : Value) (c d : CgContext) (st : State)
      → st.block ≡ b
      → st.regs z ≡ some v
      → of_type ty v ≡ some v
      → ((s : State)
          → s.from ≡ b
          → s.regs z ≡ some v
          → (t : ℕ) → step fl (phi t ty x n y e) s ≡ assigned s t (some v))
      → d.scopes ≡ c.scopes
      → c.label_id ≤ d.label_id
      → Runs
          (Option ℕ)
          fl
          false
          (emit (merge_label m) >> assign (λ t. phi t ty x n y e))
          d
          (jumped st (merged m))
          (Gives v c)
  unfolding ◌>>◌ emit
  joined ty x n y e m z b v c d st hb hz ht hs s l =
      let at = record st { block = merged m; from = st.block; jump = none } in
      Runs-first fl false (emit (merge_label m)) (λ u. assign (λ t. phi t ty x n y e)) d
        (jumped st (merged m)) _ at (Gives v c) refl
        (arrived (merge_label m) (merged m) st refl (==_refl m)) (omega arith) (λ r h. refl)
        (λ h. cc)
        (Runs-weaken fl false _ d at (Gives v d) (Gives v c)
          (Runs-assign fl false (λ t. phi t ty x n y e) d at v refl (hs at hb hz))
          (λ r d' e' g. (g.0, g.1, g.2, g.3, g.4 ∙ s, g.5, omega (arith, g.6))))

  phi-true :
      (ty : Llvm) (x n y e : ℕ) (v : Value) (s : State)
      → of_type ty v ≡ some v
      → s.from ≡ on_true n
      → s.regs x ≡ some v
      → (t : ℕ) → step fl (phi t ty x n y e) s ≡ assigned s t (some v)
  unfolding step
  phi-true ty x n y e v s ht hf hx t = rw (hf, ==_refl n, hx, ht) refl

  phi-false :
      (ty : Llvm) (x n y e : ℕ) (v : Value) (s : State)
      → of_type ty v ≡ some v
      → s.from ≡ on_false e
      → s.regs y ≡ some v
      → (t : ℕ) → step fl (phi t ty x n y e) s ≡ assigned s t (some v)
  unfolding step
  phi-false ty x n y e v s ht hf hy t = rw (hf, ==_refl e, hy, ht) refl

  module _ (ty : Llvm) (test : ℕ) (true_code false_code : Cg (Option ℕ)) (c : CgContext)
      (st : State) (v : Value) where
    abbrev three_labels : CgContext
    three_labels = record c { label_id = suc (suc (suc c.label_id)) }

    -- the two branches and what joins them, with their labels
    abbrev arms : ℕ → ℕ → ℕ → Cg (Option ℕ)
    arms n e m = cg_branch (then_label n) m false true_code (λ x.
        cg_branch (else_label e) m false false_code
          (λ y. emit (merge_label m) >> assign (λ t. phi t ty x n y e)))

    -- the labels are taken, and the branch goes to the one that the test chooses
    head-run :
        (b : Bool)
        → st.jump ≡ none
        → st.regs test ≡ some (bool b)
        → Runs
            (Option ℕ)
            fl
            false
            (arms c.label_id (suc c.label_id) (suc (suc c.label_id)))
            three_labels
            (jumped st (if b then on_true c.label_id else on_false (suc c.label_id)))
            (Gives v c)
        → Runs (Option ℕ) fl false (cg_branches false ty test true_code false_code) c st (Gives v c)
    unfolding cg_branches ◌>>◌ emit new_label step exec
    head-run b j h q =
        let n = c.label_id in
        Runs-first fl false new_label
          (λ n. new_label >>= λ e. new_label >>= λ m. emit (br_if test n e) >> arms n e m) c st _ st
          (Gives v c) refl refl (omega arith) (λ r h. refl) (λ h. refl)
          (Runs-first fl false new_label
            (λ e. new_label >>= λ m. emit (br_if test n e) >> arms n e m)
            (record c { label_id = suc n }) st _ st (Gives v c) refl refl (omega arith)
            (λ r h. refl) (λ h. refl)
            (Runs-first fl false new_label (λ m. emit (br_if test n (suc n)) >> arms n (suc n) m)
              (record c { label_id = suc (suc n) }) st _ st (Gives v c) refl refl (omega arith)
              (λ r h. refl) (λ h. refl)
              (Runs-first fl false (emit (br_if test n (suc n))) (λ u. arms n (suc n) (suc (suc n)))
                three_labels st _ _ (Gives v c) refl
                (exec-one fl false (br_if test n (suc n)) st _ j (rw h refl)) (omega arith)
                (λ r h. refl) (λ h. cc) q)))

    -- A branch that is run starts in its own block.
    abbrev Starts : Cg (Option ℕ) → Type 0
    Starts code =
        (d : CgContext) (e : State)
        → d.scopes ≡ c.scopes
        → c.tmp_id ≤ d.tmp_id
        → e.regs ≡ st.regs
        → e.jump ≡ none
        → Runs (Option ℕ) fl true code d e (Gives v d)

    branches-true :
        st.jump ≡ none
        → st.regs test ≡ some (bool true)
        → of_type ty v ≡ some v
        → 0 < length c.scopes
        → Starts true_code
        → ((k : ℕ) → Good same k k false_code)
        → Runs (Option ℕ) fl false (cg_branches false ty test true_code false_code) c st (Gives v c)
    unfolding exec
    branches-true j h ht d run other =
        let n = c.label_id in
        let e = suc n in
        let m = suc e in
        head-run true j h (
          branch-run fl (then_label n) m true_code _ (on_true n) v three_labels st (Gives v c)
            (arrived (then_label n) (on_true n) st refl (==_refl n))
            (run three_labels (record st { block = on_true n; from = st.block; jump = none }) refl
              (omega arith) refl refl)
            (λ x d' s sc le lab held hb.
              branch-skip fl (else_label e) m (suc m) false_code _ (merged m) d' s (Gives v c) refl
                (other (suc m)) (omega (arith, ap length sc, d)) (omega arith) (omega arith)
                (λ y d'' sc' le' lab'.
                  joined ty x n y e m x (on_true n) v c d'' s hb held ht
                    (λ s' hf hx t. phi-true ty x n y e v s' ht hf hx t) (sc' ∙ sc) (omega arith))))

    branches-false :
        st.jump ≡ none
        → st.regs test ≡ some (bool false)
        → of_type ty v ≡ some v
        → 0 < length c.scopes
        → Starts false_code
        → ((k : ℕ) → Good same k k true_code)
        → Runs (Option ℕ) fl false (cg_branches false ty test true_code false_code) c st (Gives v c)
    unfolding exec
    branches-false j h ht d run other =
        let n = c.label_id in
        let e = suc n in
        let m = suc e in
        head-run false j h (
          branch-skip fl (then_label n) m (suc m) true_code _ (on_false e) three_labels st
            (Gives v c) refl (other (suc m)) d (omega arith) (omega arith)
            (λ x d' sc le lab.
              branch-run fl (else_label e) m false_code _ (on_false e) v d' st (Gives v c)
                (arrived (else_label e) (on_false e) st refl (==_refl e))
                (run d' (record st { block = on_false e; from = st.block; jump = none }) sc le refl
                  refl)
                (λ y d'' s sc' le' lab' held hb.
                  joined ty x n y e m y (on_false e) v c d'' s hb held ht
                    (λ s' hf hy t. phi-false ty x n y e v s' ht hf hy t) (sc' ∙ sc) (omega arith))))

    -- The code of a conditional gives the value of the branch that its test chooses.
    pub branches-Runs :
        (b : Bool)
        → st.jump ≡ none
        → st.regs test ≡ some (bool b)
        → of_type ty v ≡ some v
        → 0 < length c.scopes
        → Starts (if b then true_code else false_code)
        → ((k : ℕ) → Good same k k true_code)
        → ((k : ℕ) → Good same k k false_code)
        → Runs (Option ℕ) fl false (cg_branches false ty test true_code false_code) c st (Gives v c)
    branches-Runs true j h ht d run t f = branches-true j h ht d run f
    branches-Runs false j h ht d run t f = branches-false j h ht d run t
