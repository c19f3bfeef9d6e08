-- ===== src/Codegen/Steps.antt =====
-- src/codegen_llvm.c: the pieces of the code for the forms end, given that the parts do.
use sqale.Prelude.{
  ℕ, suc, ◌+◌, ◌≤◌, ◌<◌, ◌≡◌, refl, Bool, true, false, Option, none, some, List, [], ◌∷◌, Bytes,
  arith, length, Bool-cases, inl, inr, codes, if◌then◌else◌, bytes_eq,
}
use sqale.Prelude.Int.{pos}
use sqale.Types.{Ty}
use sqale.Codegen.Chunks.{
  Llvm, Instr, i64, type_to_llvm, Chunk, const_int, const_float, const_bool, const_str, binary,
  xor_1, fneg, sub_0, print, print_newline, br_if, br_merge, then_label, else_label, merge_label,
  phi, string_concat, string_len, call, call_void, comma, close,
}
use sqale.Codegen.Chunks
use sqale.Codegen.Context.{Cg, pure, ◌>>=◌, ◌>>◌, emit, emit_const, new_tmp, new_str, scopes_now}
use sqale.Codegen.Pieces.{
  assign, operate, with_both, with_one, cg_unop, print_one, print_type, cg_symbol, cg_branch,
  cg_branches, branch_end, cg_string, is_unit, is_float,
}
use sqale.Codegen.Calls.{emit_call, emit_args, cg_user, call_user}
use sqale.Codegen.Good.{
  Good, same, bind-Good, pure-Good, new_label-Good, emit-Good, label-Good, fresh-Good,
  fresh_then-Good, skipped_tmp-Good, new_str-Good, emit_const-Good, scopes_now-Good,
}
use sqale.Codegen.Grows

module _ (lo k : ℕ) where
  pub assign-Good :
      (f : ℕ → Chunk)
      → ((t : ℕ) → Grows.target (f t) ≡ some t)
      → ((t : ℕ) → Grows.label_number (f t) ≡ none)
      → Good same lo k (assign f)
  unfolding assign
  assign-Good f t n = fresh-Good same lo k f some t n

  pub operate-Good : (i : Option (Instr × Llvm)) (l r : ℕ) → Good same lo k (operate i l r)
  unfolding ◌>>◌
  operate-Good none l r =
      skipped_tmp-Good same lo k (λ t. pure none) (λ t. pure-Good same lo k none)
  operate-Good (some (i, ty)) l r = assign-Good (λ t. binary t i ty l r) (λ t. refl) (λ t. refl)

  pub with_both-Good :
      (a b : Option ℕ) (f : ℕ → ℕ → Cg (Option ℕ))
      → ((l r : ℕ) → Good same lo k (f l r))
      → Good same lo k (with_both a b f)
  with_both-Good (some l) (some r) f h = h l r
  with_both-Good (some l) none f h = pure-Good same lo k none
  with_both-Good none b f h = pure-Good same lo k none

  pub with_one-Good :
      (a : Option ℕ) (f : ℕ → Cg (Option ℕ))
      → ((l : ℕ) → Good same lo k (f l))
      → Good same lo k (with_one a f)
  with_one-Good (some l) f h = h l
  with_one-Good none f h = pure-Good same lo k none

  pub cg_unop-Good : (op : Bytes) (ty : Option Ty) (a : ℕ) → Good same lo k (cg_unop op ty a)
  unfolding cg_unop
  cg_unop-Good op ty a = elim (Bool-cases (bytes_eq op (codes "not"))) [
    | inl h ↦ rw h (assign-Good (λ t. xor_1 t a) (λ t. refl) (λ t. refl))
    | inr h ↦ rw h (
        assign-Good (λ t. if is_float ty then fneg t a else sub_0 t a) (λ t. ground arith)
          (λ t. ground arith))
  ]

  pub print_one-Good : (ty : Option Ty) (v : Option ℕ) → Good same lo k (print_one ty v)
  print_one-Good ty none = pure-Good same lo k tt
  print_one-Good ty (some t) = emit-Good same lo k (print (print_type ty) t) refl refl

  pub cg_symbol-Good : (name : Bytes) → Good same lo k (cg_symbol name)
  unfolding cg_symbol
  cg_symbol-Good name =
      bind-Good same lo k scopes_now _ (scopes_now-Good same lo k) (λ ss. pure-Good same lo k _)

  pub cg_string-Good : (s : Bytes) → Good same lo k (cg_string s)
  unfolding cg_string ◌>>◌
  cg_string-Good s = bind-Good same lo k new_str _ (new_str-Good same lo k) (λ sid.
      bind-Good same lo k (emit_const _) _ (emit_const-Good same lo k _)
        (λ u. assign-Good (λ t. const_str t (length s + 1) sid) (λ t. refl) (λ t. refl)))

  emit_args-Good : (args : List (Llvm × Option ℕ)) → Good same lo k (emit_args args)
  unfolding emit_args ◌>>◌
  emit_args-Good [] = pure-Good same lo k tt
  emit_args-Good ((ty, a) ∷ []) = emit-Good same lo k (Chunks.Chunk.arg ty a) refl refl
  emit_args-Good ((ty, a) ∷ (uy, b) ∷ rest) =
      bind-Good same lo k (emit _) _ (emit-Good same lo k (Chunks.Chunk.arg ty a) refl refl) (λ u.
        bind-Good same lo k (emit comma) _ (emit-Good same lo k comma refl refl)
          (λ u. emit_args-Good ((uy, b) ∷ rest)))

  -- the temporary of a call, which is taken first and assigned only where there is a value
  opened_call-Good :
      (unit : Bool) (ty : Llvm) (fname : Bytes) (f : ℕ → Cg (Option ℕ))
      → ((t : ℕ) → Good same lo k (f t))
      → Good same lo k
          (new_tmp >>= λ t. emit (if unit then call_void fname else call t ty fname) >> f t)
  unfolding ◌>>◌
  opened_call-Good true ty fname f h = skipped_tmp-Good same lo k _ (λ t.
      bind-Good same lo k (emit (call_void fname)) _
        (emit-Good same lo k (call_void fname) refl refl) (λ u. h t))
  opened_call-Good false ty fname f h =
      fresh_then-Good same lo k (λ t. call t ty fname) f (λ t. refl) (λ t. refl) h

  branch_end-Good : (v : Option ℕ) → Good same lo k (branch_end v)
  branch_end-Good (some v) = pure-Good same lo k v
  branch_end-Good none =
      fresh-Good same lo k (λ t. const_int t (pos 0)) (λ t. t) (λ t. refl) (λ t. refl)

  emit_call-Good :
      (fname : Bytes) (ret : Ty) (args : List (Llvm × Option ℕ))
      → Good same lo k (emit_call fname ret args)
  unfolding emit_call ◌>>◌
  emit_call-Good fname ret args =
      opened_call-Good (is_unit (some ret)) (type_to_llvm (some ret)) fname _ (λ t.
        bind-Good same lo k (emit_args args) _ (emit_args-Good args) (λ u.
          bind-Good same lo k (emit close) _ (emit-Good same lo k close refl refl)
            (λ u. pure-Good same lo k _)))

  call_user-Good :
      (fname : Bytes) (ret : Option Ty) (args : Cg (List (Llvm × Option ℕ)))
      → Good same lo k args
      → Good same lo k (call_user fname ret args)
  unfolding call_user
  call_user-Good fname none args h = pure-Good same lo k none
  call_user-Good fname (some ret) args h = bind-Good same lo k args _ h (emit_call-Good fname ret)

  pub cg_user-Good :
      (name : Bytes) (args : Cg (List (Llvm × Option ℕ)))
      → Good same lo k args
      → Good same lo k (cg_user name args)
  unfolding cg_user
  cg_user-Good name args h =
      bind-Good same lo k scopes_now _ (scopes_now-Good same lo k) (λ ss. call_user-Good _ _ args h)

  -- the value of a branch, where the `if` has one
  branch_value-Good :
      (unit : Bool) (v : Option ℕ) → Good same lo k (if unit then pure 0 else branch_end v)
  branch_value-Good true v = pure-Good same lo k 0
  branch_value-Good false v = branch_end-Good v

  joined-Good :
      (unit : Bool) (ty : Llvm) (x n y e : ℕ)
      → Good same lo k (if unit then pure none else assign (λ t. phi t ty x n y e))
  joined-Good true ty x n y e = pure-Good same lo k none
  joined-Good false ty x n y e = assign-Good (λ t. phi t ty x n y e) (λ t. refl) (λ t. refl)

  -- a branch, whose label is below the bound
  pub cg_branch-Good :
      (label : Chunk) (n m : ℕ) (unit : Bool) (code : Cg (Option ℕ)) (f : ℕ → Cg (Option ℕ))
      → Grows.target label ≡ none
      → Grows.label_number label ≡ some n
      → lo ≤ n
      → n < k
      → Good same lo k code
      → ((x : ℕ) → Good same lo k (f x))
      → Good same lo k (cg_branch label m unit code f)
  unfolding ◌>>◌ cg_branch
  cg_branch-Good label n m unit code f t l le lt hc hf =
      bind-Good same lo k (emit label) _ (label-Good same lo k label n t l le lt) (λ u.
        bind-Good same lo k code _ hc (λ a. bind-Good same lo k _ _ (branch_value-Good unit a) (λ x.
          bind-Good same lo k (emit (br_merge m)) _ (emit-Good same lo k (br_merge m) refl refl)
            (λ u. hf x))))

-- The labels of a conditional are new, and so are those of its branches.
pub cg_branches-Good :
    (lo k : ℕ) (unit : Bool) (ty : Llvm) (test : ℕ) (true_code false_code : Cg (Option ℕ))
    → lo ≤ k
    → ((k : ℕ) → lo ≤ k → Good same lo k true_code)
    → ((k : ℕ) → lo ≤ k → Good same lo k false_code)
    → Good same lo k (cg_branches unit ty test true_code false_code)
unfolding cg_branches ◌>>◌
cg_branches-Good lo k unit ty test true_code false_code le ht hf =
    new_label-Good same lo k _ (λ n hn. new_label-Good same lo (suc n) _ (λ e he.
      new_label-Good same lo (suc e) _ (λ m hm.
        bind-Good same lo (suc m) (emit (br_if test n e)) _
          (emit-Good same lo (suc m) (br_if test n e) refl refl)
          (λ u.
            cg_branch-Good lo (suc m) (then_label n) n m unit true_code _ refl refl (omega arith)
              (omega arith) (ht (suc m) (omega arith))
              (λ x.
                cg_branch-Good lo (suc m) (else_label e) e m unit false_code _ refl refl
                  (omega arith) (omega arith) (hf (suc m) (omega arith))
                  (λ y.
                    bind-Good same lo (suc m) (emit (merge_label m)) _
                      (label-Good same lo (suc m) (merge_label m) m refl refl (omega arith)
                        (omega arith))
                      (λ u. joined-Good lo (suc m) unit ty x n y e)))))))
