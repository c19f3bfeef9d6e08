-- ===== src/Program/WellTyped.antt =====
-- src/eval.c: what is evaluated was type-checked first.
use sqale.Prelude.{
  ℕ, ◌-◌, ◌≡◌, refl, ap, sym, ◌∙◌, subst, Option, none, some, [], ◌∷◌, ◌++◌, append_assoc, Bytes,
  length, take, length-append, arith, ◌⊎◌, inl, inr,
}
use sqale.Env.{env_set}
use sqale.Ast.{Node, Nodes, list, nil, cons}
use sqale.Types.{Ty}
use sqale.TypeCheck.{Checked, rejected, Context, Typed, unit_type, typecheck_node}
use sqale.TypeCheck.Rules.{SeqTyping, done, andthen}
use sqale.TypeCheck.Result.{Post}
use sqale.TypeCheck.Bodies.{Gives}
use sqale.TypeCheck.Extends.{typing-Extends}
use sqale.TypeCheck.Sound.{typecheck_node-IsSound}
use sqale.Machine.{Machine, Ran, Run, run_next, pure}
use sqale.Eval.{Library}
use sqale.Program.{
  import_name, check_next, declare_all, declare_new, check_forms, eval_forms, eval_checked,
  eval_program, global_env,
}

-- No form is an `import`.
abbrev pub NoImports : Nodes → Type 0
NoImports nil = Unit
NoImports (cons n ns) = (import_name n ≡ none) × NoImports ns

-- the machine with the names of the entries declared in the global environment, without values
unfoldable pub declared : Context → Machine → Machine
unfolding env_set
declared [] m = m
declared (en ∷ rest) m =
    let m₁ = declared rest m in record m₁ { envs = env_set global_env en.name none m₁.envs }

declare_all-run :
    (new : Context) (m : Machine) → (declare_all new).run m ≡ Ran.done tt (declared new m)
unfolding declare_all declared
declare_all-run [] m = refl
declare_all-run (en ∷ rest) m = rw (declare_all-run rest m) refl

declared-append : (a b : Context) (m : Machine) → declared (a ++ b) m ≡ declared a (declared b m)
unfolding declared
declared-append [] b m = refl
declared-append (en ∷ a) b m = rw (declared-append a b m) refl

take-front : (a b : Context) → take (length (a ++ b) - length b) (a ++ b) ≡ a
take-front a b =
    let n : length (a ++ b) - length b ≡ length a = omega (arith, length-append a b) in
    rw (n) (front a)
  where
    front : (xs : Context) → take (length xs) (xs ++ b) ≡ xs
    front [] = refl
    front (x ∷ xs) = ap (λ ys. x ∷ ys) (front xs)

declare_new-run :
    (new Γ Γ₁ : Context) (m : Machine)
    → Γ₁ ≡ new ++ Γ
    → (declare_new Γ Γ₁).run m ≡ Ran.done tt (declared new m)
unfolding declare_new
declare_new-run new Γ Γ₁ m e = rw (e, take-front new Γ) (declare_all-run new m)

-- The forms have types up to one that is rejected, and these are the entries that the checker added.
pub data Stops (f : ℕ) : Context → Nodes → Context → Type 0 where
  here :
      {Γ Γ₁ : Context} {n : Node} {ns : Nodes}
      → typecheck_node f Γ n ≡ rejected Γ₁
      → Stops f Γ (cons n ns) (take (length Γ₁ - length Γ) Γ₁)
  later :
      {Γ Γ₁ : Context} {u : Option Ty} {n : Node} {ns : Nodes} (a b : Context)
      → Gives Γ n (u, Γ₁)
      → Γ₁ ≡ a ++ Γ
      → Stops f Γ₁ ns b
      → Stops f Γ (cons n ns) (b ++ a)

-- The outcome of the checks from `m`: the machine has new names, and the forms have types if there is a result.
data Checking (f : ℕ) (Γ : Context) (t : Option Ty) (ns : Nodes) (m : Machine)
    : Ran (Option Context) → Type 0 where
  runs : Checking f Γ t ns m Ran.running
  faults : Checking f Γ t ns m Ran.fault
  rejects :
      (new : Context) → Stops f Γ ns new → Checking f Γ t ns m (Ran.done none (declared new m))
  accepts :
      {u : Option Ty} {Γ' : Context} (new : Context)
      → SeqTyping Γ t ns u Γ'
      → Γ' ≡ new ++ Γ
      → Checking f Γ t ns m (Ran.done (some Γ') (declared new m))

next_Checking :
    {f : ℕ} {Γ Γ₁ : Context} {t u : Option Ty} {n : Node} {ns : Nodes} {m : Machine} (a : Context)
    {r : Ran (Option Context)}
    → Gives Γ n (u, Γ₁)
    → Γ₁ ≡ a ++ Γ
    → Checking f Γ₁ u ns (declared a m) r
    → Checking f Γ t (cons n ns) m r
next_Checking a d e Checking.runs = Checking.runs
next_Checking a d e Checking.faults = Checking.faults
next_Checking {f} {Γ} {t} {n} {ns} {m} a d e (Checking.rejects b st) =
    subst (λ m₁. Checking f Γ t (cons n ns) m (Ran.done none m₁)) (declared-append b a m)
      (Checking.rejects (b ++ a) (Stops.later a b d e st))
next_Checking {f} {Γ} {t} {n} {ns} {m} a d e (Checking.accepts {Γ'} b ds e') =
    let whole : Γ' ≡ (b ++ a) ++ Γ = e' ∙ ap (λ Δ. b ++ Δ) e ∙ sym (append_assoc b a Γ) in
    subst (λ m₁. Checking f Γ t (cons n ns) m (Ran.done (some Γ') m₁)) (declared-append b a m)
      (Checking.accepts (b ++ a) (andthen d ds) whole)

check_next-Checking :
    {f : ℕ} {Γ : Context} {t : Option Ty} {n : Node} {ns : Nodes} {m : Machine}
    (k : Context → Run (Option Context)) {r : Checked Typed}
    → typecheck_node f Γ n ≡ r
    → Post (Gives Γ n) r
    → ((u : Option Ty) (Γ₁ : Context) (m₁ : Machine) → Checking f Γ₁ u ns m₁ ((k Γ₁).run m₁))
    → Checking f Γ t (cons n ns) m ((check_next Γ r k).run m)
check_next-Checking k q Post.runs h = Checking.runs
check_next-Checking k q Post.faults h = Checking.faults
check_next-Checking {Γ} {m} k q (Post.rejects {Γ = Γ₁}) h =
    let new = take (length Γ₁ - length Γ) Γ₁ in
    let e : (declare_new Γ Γ₁).run m ≡ Ran.done tt (declared new m) =
      unfold declare_new in declare_all-run new m in
    rw (e) (Checking.rejects new (Stops.here q))
check_next-Checking {Γ} {m} k q (Post.accepts {a} d) h =
    let (new, e) = typing-Extends d in
    rw (declare_new-run new Γ a.1 m e) (next_Checking new d e (h a.0 a.1 (declared new m)))

check_forms-Checking :
    (f : ℕ) (load : Bytes → Context → Run Context) (Γ : Context) (t : Option Ty) (ns : Nodes)
    (m : Machine)
    → NoImports ns
    → Checking f Γ t ns m ((check_forms f load Γ ns).run m)
unfolding check_forms
check_forms-Checking f load Γ t nil m h = unfold declared in Checking.accepts [] done refl
check_forms-Checking f load Γ t (cons n ns) m (none_, more) =
    let behind : Context → Run (Option Context) = λ Γ₁. check_forms f load Γ₁ ns in
    let checked : Checking f Γ t (cons n ns) m
        ((check_next Γ (typecheck_node f Γ n) behind).run m) =
      check_next-Checking behind refl (typecheck_node-IsSound f Γ n)
        (λ u Γ₁ m₁. check_forms-Checking f load Γ₁ u ns m₁ more) in
    rw (none_) checked

module _ (f : ℕ) (lib : Library) (Γ : Context) (forms : Nodes) (m m' : Machine) (code : ℕ) where
  -- The forms have types, one after the other, and are evaluated in the machine with the names that the typing
  -- adds, which have no values yet.
  abbrev pub IsRun : Type 0
  IsRun =
      (t : Option Ty) × (Γ' : Context) × (new : Context) × SeqTyping Γ unit_type forms t Γ'
      × (Γ' ≡ new ++ Γ)
      × ((eval_forms f lib forms).run (declared new m) ≡ Ran.done tt m')

  -- both ends of `eval_program`
  abbrev pub RunOrRejected : Type 0
  RunOrRejected =
      ((code ≡ 0) × IsRun)
      ⊎ ((code ≡ 1) × (new : Context) × Stops f Γ forms new × (m' ≡ declared new m))

  ran_whole :
      (r : Ran (Unit {0}))
      → run_next r (λ ok. pure 0) ≡ Ran.done code m'
      → (code ≡ 0) × (r ≡ Ran.done tt m')
  ran_whole (Ran.done tt m₁) h = (cc, cc)
  ran_whole Ran.running h = cc
  ran_whole Ran.fault h = cc

  outcome :
      {r : Ran (Option Context)}
      → Checking f Γ unit_type forms m r
      → run_next r (eval_checked f lib forms) ≡ Ran.done code m'
      → RunOrRejected
  unfolding eval_checked
  outcome Checking.runs e = cc
  outcome Checking.faults e = cc
  outcome (Checking.rejects new st) e = inr (cc, new, st, cc)
  outcome (Checking.accepts {u} {Γ'} new ds q) e =
      let p = ran_whole ((eval_forms f lib forms).run (declared new m)) e in
      inl (p.0, (u, Γ', new, ds, q, p.1))

-- A program without imports that returns is either evaluated whole and returns 0: its forms were typed by the rules
-- one after the other, and the evaluation starts with the names that the typing added declared in the
-- global environment without values. Or it returns 1, and nothing was evaluated: the machine is as
-- it was but for the names that the checker added, up to the form that it rejected and with those of that form,
-- which are declared there without values.
pub eval_program_lem :
    (f : ℕ) (lib : Library) (load : Bytes → Context → Run Context) (Γ : Context) (l c : ℕ)
    (forms : Nodes) (m m' : Machine) (code : ℕ)
    → NoImports forms
    → (eval_program f lib load Γ (list l c forms)).run m ≡ Ran.done code m'
    → RunOrRejected f lib Γ forms m m' code
unfolding eval_program
eval_program_lem f lib load Γ l c forms m m' code plain h =
    outcome f lib Γ forms m m' code (check_forms-Checking f load Γ unit_type forms m plain) h
