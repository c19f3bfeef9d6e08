-- ===== src/Codegen/Runs.antt =====
-- Steps of the generator whose code runs to its end, and what holds there.
use sqale.Prelude.{
  ℕ, suc, ◌≤◌, ◌<◌, ◌≡◌, refl, ◌∙◌, Bool, true, Option, none, some, [], ◌∷◌, ◌++◌, ◌==◌, arith,
  if◌then◌else◌,
}
use sqale.Runtime.{Value, FloatOps}
use sqale.Codegen.Chunks.{Chunk}
use sqale.Codegen.Context.{Cg, CgContext, Out, pure, ◌>>=◌, ◌>>◌, >>=_lem, join, emit, new_tmp}
use sqale.Codegen.Pieces.{assign}
use sqale.Codegen.Agrees.{Keeps}
use sqale.Codegen.Llvm.{State, exec, exec_then, step, assigned}

-- The step ends, its code runs to its end, and `P` holds of the result, the context and the state
-- there; the temporaries that were in use keep their values. Where `flat` is true, the block stays.
pub record Runs (A : Type 0) (fl : FloatOps) (flat : Bool) (m : Cg A) (c : CgContext) (st : State)
    (P : A → CgContext → State → Type 0) : Type 0 where
  pub out : Out A
  pub ends : m c ≡ some out
  pub end : State
  pub run : exec fl out.code st ≡ some end
  pub le : c.tmp_id ≤ out.next.tmp_id
  pub keeps : Keeps c.tmp_id st.regs end.regs
  pub block : flat ≡ true → end.block ≡ st.block
  pub holds : P out.value out.next end

-- the code after this runs too, the result is a temporary with the value, and the scopes are as they
-- were
abbrev pub Gives : Value → CgContext → Option ℕ → CgContext → State → Type 0
Gives v c r d e =
    (t : ℕ) × (r ≡ some t)
    × (t < d.tmp_id)
    × (e.regs t ≡ some v)
    × (d.scopes ≡ c.scopes)
    × (e.jump ≡ none)
    × (c.label_id ≤ d.label_id)

module _ {A B : Type 0} (fl : FloatOps) (flat : Bool) where
  -- A step that gives `o` and whose code ends in `e`, and then the others.
  pub Runs-first :
      (m : Cg A) (f : A → Cg B) (c : CgContext) (st : State) (o : Out A) (e : State)
      (Q : B → CgContext → State → Type 0)
      → m c ≡ some o
      → exec fl o.code st ≡ some e
      → c.tmp_id ≤ o.next.tmp_id
      → Keeps c.tmp_id st.regs e.regs
      → (flat ≡ true → e.block ≡ st.block)
      → Runs B fl flat (f o.value) o.next e Q
      → Runs B fl flat (m >>= f) c st Q
  Runs-first m f c st o e Q h x le k b q = record {
    out = record q.out { code = o.code ++ q.out.code; consts = o.consts ++ q.out.consts };
    ends = >>=_lem m f c o q.out h q.ends;
    end = q.end;
    run = exec_then fl o.code q.out.code st e q.end x q.run;
    le = omega (arith, le, q.le);
    keeps = λ r lt. q.keeps r (omega (arith, le)) ∙ k r lt;
    block = λ h. q.block h ∙ b h;
    holds = q.holds;
  }

  -- One step after another: the second starts where the first ends.
  pub Runs-then :
      (m : Cg A) (f : A → Cg B) (c : CgContext) (st : State) (P : A → CgContext → State → Type 0)
      (Q : B → CgContext → State → Type 0)
      → Runs A fl flat m c st P
      → ((a : A) (d : CgContext) (e : State)
          → P a d e
          → c.tmp_id ≤ d.tmp_id
          → Keeps c.tmp_id st.regs e.regs
          → Runs B fl flat (f a) d e Q)
      → Runs B fl flat (m >>= f) c st Q
  Runs-then m f c st P Q p k =
      Runs-first m f c st p.out p.end Q p.ends p.run p.le p.keeps p.block
        (k p.out.value p.out.next p.end p.holds p.le p.keeps)

module _ (fl : FloatOps) (flat : Bool) where
  pub Runs-pure :
      {A : Type 0} (a : A) (c : CgContext) (st : State) (P : A → CgContext → State → Type 0)
      → P a c st
      → Runs A fl flat (pure a) c st P
  unfolding pure exec
  Runs-pure a c st P h = record {
    out = record { value = a; next = c; code = []; consts = [] };
    ends = refl;
    end = st;
    run = refl;
    le = omega arith;
    keeps = λ r lt. refl;
    block = λ h. refl;
    holds = h;
  }

  pub exec-one :
      (x : Chunk) (st st' : State)
      → st.jump ≡ none
      → step fl x st ≡ some st'
      → exec fl (x ∷ []) st ≡ some st'
  unfolding exec
  exec-one x st st' j h = ground (arith, j, h)

  -- A new temporary with a value.
  pub Runs-assign :
      (f : ℕ → Chunk) (c : CgContext) (st : State) (v : Value)
      → st.jump ≡ none
      → ((t : ℕ) → step fl (f t) st ≡ assigned st t (some v))
      → Runs (Option ℕ) fl flat (assign f) c st (Gives v c)
  unfolding assign ◌>>=◌ ◌>>◌ join new_tmp emit pure assigned
  Runs-assign f c st v j h = record {
    out = record {
      value = some c.tmp_id;
      next = record c { tmp_id = suc c.tmp_id };
      code = f c.tmp_id ∷ [];
      consts = [];
    };
    ends = refl;
    end = record st { regs = λ r. if r == c.tmp_id then some v else st.regs r };
    run = exec-one (f c.tmp_id) st _ j (h c.tmp_id);
    le = omega arith;
    keeps = λ r lt. ground arith;
    block = λ h. refl;
    holds = (c.tmp_id, refl, omega arith, ground arith, refl, j, omega arith);
  }

  pub Runs-weaken :
      {A : Type 0} (m : Cg A) (c : CgContext) (st : State) (P Q : A → CgContext → State → Type 0)
      → Runs A fl flat m c st P
      → ((a : A) (d : CgContext) (e : State) → P a d e → Q a d e)
      → Runs A fl flat m c st Q
  Runs-weaken m c st P Q p k = record {
    out = p.out;
    ends = p.ends;
    end = p.end;
    run = p.run;
    le = p.le;
    keeps = p.keeps;
    block = p.block;
    holds = k p.out.value p.out.next p.end p.holds;
  }

  -- a step that appends nothing
  pub Runs-silent :
      {A : Type 0} (m : Cg A) (a : A) (c d : CgContext) (st : State)
      (P : A → CgContext → State → Type 0)
      → m c ≡ some (record { value = a; next = d; code = []; consts = [] })
      → c.tmp_id ≤ d.tmp_id
      → P a d st
      → Runs A fl flat m c st P
  unfolding exec
  Runs-silent m a c d st P h le p = record {
    out = record { value = a; next = d; code = []; consts = [] };
    ends = h;
    end = st;
    run = refl;
    le = le;
    keeps = λ r lt. refl;
    block = λ h. refl;
    holds = p;
  }
