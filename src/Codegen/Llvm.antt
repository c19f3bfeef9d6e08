-- ===== src/Codegen/Llvm.antt =====
-- What the text that src/codegen_llvm.c writes does when LLVM accepts and runs it: the instructions
-- for numbers and truth values, the branches, the labels and `phi`. The other chunks are not run.
-- The types and the entry of `phi` are checked where the code runs. What LLVM asks of code that is passed
-- over is not checked here; `Means` leaves out the expressions whose code does not have it.
-- All branches of the generated text go forward, so one pass over it runs it: after a branch the
-- chunks up to the label are passed over.
use sqale.Prelude.{
  ℕ, ◌^◌, ◌-◌, ◌%◌, ◌≡◌, refl, Bool, true, false, not, ◌&&◌, ◌||◌, Option, none, some, List, [],
  ◌∷◌, ◌++◌, ◌==◌, ◌>>=◌, if◌then◌else◌, Option-cases, inl, inr,
}
use sqale.Prelude.Int.{ℤ, pos, negsuc, ◌+ℤ◌, ◌-ℤ◌, ◌*ℤ◌, ltb_ℤ}
use sqale.Runtime.{Value, FloatOps, int, float, bool, checked}
use sqale.Runtime.Arith.{quot, rem, is_zero}
use sqale.Runtime.Compare.{eqb_ℤ}
use sqale.Runtime.Bits.{of_word}
use sqale.Codegen.Chunks.{
  Llvm, i64, double, i1, Instr, add, sub, mul, sdiv, srem, fadd, fsub, fmul, fdiv, eq, ne, slt, sgt,
  sle, sge, oeq, one, olt, ogt, ole, oge, and, or, Chunk, const_int, const_bool, binary, xor_1,
  fneg, sub_0, br_if, br_merge, then_label, else_label, merge_label, phi,
}

-- the 64 bits of an integer, read as a signed number
unfoldable pub wrap_int : ℤ → ℤ
unfolding of_word
wrap_int (pos n) = of_word (n % 2 ^ 64)
wrap_int (negsuc n) = of_word (2 ^ 64 - 1 - n % 2 ^ 64)

abbrev pub wrapped : ℤ → Option Value
wrapped z = some (int (wrap_int z))

-- A division by zero, and a quotient out of range, are undefined.
unfoldable pub on_ints : Instr → ℤ → ℤ → Option Value
unfolding wrap_int quot rem
on_ints add a b = wrapped (a +ℤ b)
on_ints sub a b = wrapped (a -ℤ b)
on_ints mul a b = wrapped (a *ℤ b)
on_ints sdiv a b = if is_zero b then none else checked (quot a b)
on_ints srem a b = if is_zero b then none else (checked (quot a b) >>= λ q. some (int (rem a b)))
on_ints eq a b = some (bool (eqb_ℤ a b))
on_ints ne a b = some (bool (not (eqb_ℤ a b)))
on_ints slt a b = some (bool (ltb_ℤ a b))
on_ints sgt a b = some (bool (ltb_ℤ b a))
on_ints sle a b = some (bool (not (ltb_ℤ b a)))
on_ints sge a b = some (bool (not (ltb_ℤ a b)))
on_ints _ a b = none

abbrev pub on_bools : Instr → Bool → Bool → Option Value
on_bools and a b = some (bool (a && b))
on_bools or a b = some (bool (a || b))
on_bools _ a b = none

-- the place where a branch can go: the two branches of a conditional, and what joins them
pub data Block : Type 0 where
  entry : Block
  on_true on_false merged : ℕ → Block

abbrev pub same_block : Block → Block → Bool
same_block entry entry = true
same_block (on_true n) (on_true m) = n == m
same_block (on_false n) (on_false m) = n == m
same_block (merged n) (merged m) = n == m
same_block _ _ = false

-- the block that a chunk begins
abbrev pub block_of : Chunk → Option Block
block_of (then_label n) = some (on_true n)
block_of (else_label n) = some (on_false n)
block_of (merge_label n) = some (merged n)
block_of _ = none

-- the temporaries, the block that runs, the one before it, and the target of a branch that is taken
pub record State : Type 0 where
  pub regs : ℕ → Option Value
  pub block : Block
  pub from : Block
  pub jump : Option Block

unfoldable pub assigned : State → ℕ → Option Value → Option State
assigned st t none = none
assigned st t (some v) = some (record st { regs = λ r. if r == t then some v else st.regs r })

abbrev pub jumped : State → Block → State
jumped st b = record st { jump = some b }

-- a value is of the type that `phi` names
abbrev pub of_type : Llvm → Value → Option Value
of_type i64 (int a) = some (int a)
of_type double (float a) = some (float a)
of_type i1 (bool a) = some (bool a)
of_type _ v = none

abbrev pub with_bool : Option Value → (Bool → Option State) → Option State
with_bool (some (bool b)) f = f b
with_bool _ f = none

-- the end of the passing over, when the chunk begins the block
abbrev pub arrive : Option Block → Block → State → State
arrive none b st = st
arrive (some b') b st =
    if same_block b' b then record st { block = b; from = st.block; jump = none } else st

module _ (fl : FloatOps) where
  unfoldable pub on_floats : Instr → ℕ → ℕ → Option Value
  on_floats fadd a b = some (float (fl.add a b))
  on_floats fsub a b = some (float (fl.sub a b))
  on_floats fmul a b = some (float (fl.mul a b))
  on_floats fdiv a b = some (float (fl.div a b))
  on_floats oeq a b = some (bool (fl.eq a b))
  on_floats one a b = some (bool (fl.lt a b || fl.lt b a))
  on_floats olt a b = some (bool (fl.lt a b))
  on_floats ogt a b = some (bool (fl.lt b a))
  on_floats ole a b = some (bool (fl.le a b))
  on_floats oge a b = some (bool (fl.le b a))
  on_floats _ a b = none

  unfoldable pub instr_value : Instr → Llvm → Value → Value → Option Value
  unfolding on_ints on_floats
  instr_value i i64 (int a) (int b) = on_ints i a b
  instr_value i double (float a) (float b) = on_floats i a b
  instr_value i i1 (bool a) (bool b) = on_bools i a b
  instr_value i _ _ _ = none

  abbrev pub negated : Option Value → Option Value
  negated (some (float a)) = some (float (fl.neg a))
  negated _ = none

  abbrev pub complement : Option Value → Option Value
  complement (some (bool b)) = some (bool (not b))
  complement _ = none

  abbrev pub typed : Llvm → Option Value → Option Value
  typed ty none = none
  typed ty (some v) = of_type ty v

  -- one chunk of the block that runs; there is no way into a block but a branch
  unfoldable pub step : Chunk → State → Option State
  unfolding instr_value assigned
  step (const_int t i) st = assigned st t (some (int i))
  step (const_bool t b) st = assigned st t (some (bool b))
  step (binary t i ty l r) st =
      assigned st t (st.regs l >>= λ v. st.regs r >>= λ w. instr_value i ty v w)
  step (xor_1 t a) st = assigned st t (complement (st.regs a))
  step (fneg t a) st = assigned st t (negated (st.regs a))
  step (sub_0 t a) st = assigned st t (st.regs a >>= λ v. instr_value sub i64 (int (pos 0)) v)
  step (br_if t n e) st =
      with_bool (st.regs t) (λ b. some (jumped st (if b then on_true n else on_false e)))
  step (br_merge m) st = some (jumped st (merged m))
  step (phi t ty x n y e) st = assigned st t (
      if same_block st.from (on_true n)
      then typed ty (st.regs x)
      else if same_block st.from (on_false e)
      then typed ty (st.regs y)
      else none)
  step _ st = none

  abbrev pub step_at : Option Block → Chunk → State → Option State
  step_at none x st = step x st
  step_at (some b) x st = some (arrive (block_of x) b st)

  unfoldable pub exec : List Chunk → State → Option State
  unfolding step
  exec [] st = some st
  exec (x ∷ xs) st = step_at st.jump x st >>= exec xs

  pub exec-append :
      (xs ys : List Chunk) (st : State) → exec (xs ++ ys) st ≡ (exec xs st >>= exec ys)
  unfolding exec
  exec-append [] ys st = refl
  exec-append (x ∷ xs) ys st = elim (Option-cases (step_at st.jump x st)) [
    | inl h ↦ rw h refl
    | inr (st', h) ↦ rw h (exec-append xs ys st')
  ]

  -- two runs in a row
  pub exec_then :
      (xs ys : List Chunk) (a b c : State)
      → exec xs a ≡ some b
      → exec ys b ≡ some c
      → exec (xs ++ ys) a ≡ some c
  exec_then xs ys a b c h k = rw (exec-append, h) k

-- before the first chunk of a function, with the arguments in their temporaries
abbrev pub start : (ℕ → Option Value) → State
start regs = record { regs = regs; block = entry; from = entry; jump = none }
