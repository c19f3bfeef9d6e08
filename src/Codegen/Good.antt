-- ===== src/Codegen/Good.antt =====
-- src/codegen_llvm.c: rules for steps that end without a fault and only add to the context.
use sqale.Prelude.{ℕ, suc, ◌≤◌, ◌<◌, ◌≡◌, refl, ap, none, some, [], ◌∷◌, ◌++◌, arith, length}
use sqale.Codegen.Chunks.{Chunk}
use sqale.Codegen.Context.{
  Scopes, Cg, CgContext, Const, Out, pure, ◌>>=◌, ◌>>◌, join, emit, emit_const, new_tmp, new_label,
  new_str, scopes_now, outer,
}
use sqale.Codegen.Grows.{
  Grows, Grows-append, Ascending, Ascending-lower, Within, targets, labels, target, label_number,
}

-- the step's end, and what it does
pub record Ends (A : Type 0) (view : Scopes → Scopes) (lo : ℕ) (c : CgContext) (m : Cg A)
    : Type 0 where
  pub out : Out A
  pub ends : m c ≡ some out
  pub grows : Grows view lo c out.code out.next

-- From each context with a scope, and with labels up to `k` taken, the step ends.
abbrev pub Good : {A : Type 0} → (Scopes → Scopes) → ℕ → ℕ → Cg A → Type 0
Good {A} view lo k m = (c : CgContext) → 0 < length c.scopes → k ≤ c.label_id → Ends A view lo c m

abbrev pub same : Scopes → Scopes
same s = s

-- what a step leaves in place when it appends nothing
pub Grows-same : (view : Scopes → Scopes) (lo : ℕ) (c : CgContext) → Grows view lo c [] c
unfolding Ascending Within targets labels
Grows-same view lo c = record {
  tmps = omega arith;
  labels_lem = tt;
  label_le = omega arith;
  depth = refl;
  scopes = refl;
}

module _ {A B : Type 0} (view : Scopes → Scopes) (lo k : ℕ) where
  pub bind-Good :
      (m : Cg A) (f : A → Cg B)
      → Good view lo k m
      → ((a : A) → Good view lo k (f a))
      → Good view lo k (m >>= f)
  unfolding ◌>>=◌ join
  bind-Good m f hm hf c d l =
      let p = hm c d l in
      let q =
        hf p.out.value p.out.next (omega (arith, p.grows.depth))
          (omega (arith, p.grows.label_le)) in
      record {
        out = record q.out {
          code = p.out.code ++ q.out.code;
          consts = p.out.consts ++ q.out.consts;
        };
        ends = ground (arith, p.ends, q.ends);
        grows = Grows-append p.grows q.grows;
      }

module _ {A : Type 0} (view : Scopes → Scopes) (lo k : ℕ) where
  pub pure-Good : (a : A) → Good view lo k (pure a)
  unfolding pure
  pure-Good a c d l = record {
    out = record { value = a; next = c; code = []; consts = [] };
    ends = refl;
    grows = Grows-same view lo c;
  }

  -- The next label lies above the bound, and the bound goes up.
  pub new_label-Good :
      (f : ℕ → Cg A)
      → ((n : ℕ) → k ≤ n → Good view lo (suc n) (f n))
      → Good view lo k (new_label >>= f)
  unfolding ◌>>=◌ join new_label Ascending Within targets labels
  new_label-Good f h c d l =
      let c' = record c { label_id = suc c.label_id } in
      let q = h c.label_id l c' d (omega arith) in
      record {
        out = q.out;
        ends = ground (arith, q.ends);
        grows = record {
          tmps = q.grows.tmps;
          labels_lem = q.grows.labels_lem;
          label_le = omega (arith, q.grows.label_le);
          depth = q.grows.depth;
          scopes = q.grows.scopes;
        };
      }

module _ (view : Scopes → Scopes) (lo k : ℕ) where
  pub emit-Good : (x : Chunk) → target x ≡ none → label_number x ≡ none → Good view lo k (emit x)
  unfolding emit Ascending Within targets labels
  emit-Good x t n c d l = record {
    out = record { value = tt; next = c; code = x ∷ []; consts = [] };
    ends = refl;
    grows = record {
      tmps = rw t (omega arith);
      labels_lem = rw n tt;
      label_le = omega arith;
      depth = refl;
      scopes = refl;
    };
  }

  -- A label is placed below the bound.
  pub label-Good :
      (x : Chunk) (n : ℕ)
      → target x ≡ none
      → label_number x ≡ some n
      → lo ≤ n
      → n < k
      → Good view lo k (emit x)
  unfolding emit Ascending Within targets labels
  label-Good x n t e le lt c d l = record {
    out = record { value = tt; next = c; code = x ∷ []; consts = [] };
    ends = refl;
    grows = record {
      tmps = rw t (omega arith);
      labels_lem = rw e (le, omega arith, tt);
      label_le = omega arith;
      depth = refl;
      scopes = refl;
    };
  }

  -- A new temporary, the chunk that assigns it, and the steps that follow.
  pub fresh_then-Good :
      {A : Type 0} (f : ℕ → Chunk) (g : ℕ → Cg A)
      → ((t : ℕ) → target (f t) ≡ some t)
      → ((t : ℕ) → label_number (f t) ≡ none)
      → ((t : ℕ) → Good view lo k (g t))
      → Good view lo k (new_tmp >>= λ t. emit (f t) >> g t)
  unfolding ◌>>=◌ ◌>>◌ join new_tmp emit Ascending targets labels
  fresh_then-Good f g t n h c d l =
      let q = h c.tmp_id (record c { tmp_id = suc c.tmp_id }) d l in
      record {
        out = record q.out { code = f c.tmp_id ∷ q.out.code };
        ends = ground (arith, q.ends);
        grows = record {
          tmps = rw (t c.tmp_id) (omega arith, q.grows.tmps);
          labels_lem = rw (n c.tmp_id) q.grows.labels_lem;
          label_le = q.grows.label_le;
          depth = q.grows.depth;
          scopes = q.grows.scopes;
        };
      }

  pub fresh-Good :
      {A : Type 0} (f : ℕ → Chunk) (g : ℕ → A)
      → ((t : ℕ) → target (f t) ≡ some t)
      → ((t : ℕ) → label_number (f t) ≡ none)
      → Good view lo k (new_tmp >>= λ t. emit (f t) >> pure (g t))
  fresh-Good f g t n = fresh_then-Good f (λ t. pure (g t)) t n (λ t. pure-Good view lo k (g t))

  -- A temporary may be taken and never assigned.
  pub skipped_tmp-Good :
      {A : Type 0} (f : ℕ → Cg A)
      → ((t : ℕ) → Good view lo k (f t))
      → Good view lo k (new_tmp >>= f)
  unfolding ◌>>=◌ join new_tmp
  skipped_tmp-Good f h c d l =
      let q = h c.tmp_id (record c { tmp_id = suc c.tmp_id }) d l in
      record {
        out = q.out;
        ends = ground (arith, q.ends);
        grows = record {
          tmps =
              Ascending-lower c.tmp_id (suc c.tmp_id) (targets q.out.code) q.out.next.tmp_id
                (omega arith) q.grows.tmps;
          labels_lem = q.grows.labels_lem;
          label_le = q.grows.label_le;
          depth = q.grows.depth;
          scopes = q.grows.scopes;
        };
      }

  pub new_str-Good : Good view lo k new_str
  unfolding new_str Ascending Within targets labels
  new_str-Good c d l = record {
    out = record {
      value = c.str_id;
      next = record c { str_id = suc c.str_id };
      code = [];
      consts = [];
    };
    ends = refl;
    grows = record {
      tmps = omega arith;
      labels_lem = tt;
      label_le = omega arith;
      depth = refl;
      scopes = refl;
    };
  }

  pub emit_const-Good : (x : Const) → Good view lo k (emit_const x)
  unfolding emit_const
  emit_const-Good x c d l = record {
    out = record { value = tt; next = c; code = []; consts = x ∷ [] };
    ends = refl;
    grows = Grows-same view lo c;
  }

  pub scopes_now-Good : Good view lo k scopes_now
  unfolding scopes_now
  scopes_now-Good c d l = record {
    out = record { value = c.scopes; next = c; code = []; consts = [] };
    ends = refl;
    grows = Grows-same view lo c;
  }

module _ (lo k : ℕ) where
  -- a step of which only the outer scopes are followed
  pub weaken-Good : {A : Type 0} (m : Cg A) → Good same lo k m → Good outer lo k m
  weaken-Good m h c d l =
      let q = h c d l in
      record {
        out = q.out;
        ends = q.ends;
        grows = record {
          tmps = q.grows.tmps;
          labels_lem = q.grows.labels_lem;
          label_le = q.grows.label_le;
          depth = q.grows.depth;
          scopes = ap outer q.grows.scopes;
        };
      }
