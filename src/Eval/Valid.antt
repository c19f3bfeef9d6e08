-- ===== src/Eval/Valid.antt =====
-- include/env.h, src/eval.c: machines whose environments are in order: parents, boxes and the environments of closures are there.
use sqale.Prelude.{
  ℕ, ◌≤◌, ◌<◌, ◌≡◌, Option, none, some, List, [], ◌∷◌, arith, length, get_elem?, set, length-set,
  Option-cases, inl, inr,
}
use sqale.Ast.{Nodes}
use sqale.Env.{EnvEntry, Env}
use sqale.Env.Chains.{Scoped}
use sqale.Runtime.{Value}
use sqale.Machine.{
  closure_val, Machine, Ran, running, fault, done, Run, ◌>>=◌, pure, undefined, read, write,
  run_next,
}

-- a box that is there, or none
abbrev pub BoxIn : ℕ → Option ℕ → Type 0
BoxIn n none = Unit
BoxIn n (some b) = b < n

abbrev pub Boxed : ℕ → List (EnvEntry (Option ℕ)) → Type 0
Boxed n [] = Unit
Boxed n (en ∷ rest) = BoxIn n en.value × Boxed n rest

-- Parents are older than their children, and the boxes of all names and the environments of all closures are there.
pub record Good (m : Machine) : Type 0 where
  pub scoped : Scoped m.envs
  pub boxes :
      (e : ℕ) (env : Env (Option ℕ))
      → get_elem? m.envs e ≡ some env
      → Boxed (length m.cells) env.entries
  pub closures :
      (a : ℕ) (code : Nodes) (e : ℕ)
      → get_elem? m.objects a ≡ some (closure_val code e)
      → e < length m.envs

-- what happens to a good machine: it stays one, and loses no environment
pub data Kept {ℓ} {A : Type ℓ} (n : ℕ) : Ran A → Type ℓ where
  runs : Kept n running
  faults : Kept n fault
  leaves : {a : A} {m : Machine} → Good m → n ≤ length m.envs → Kept n (done a m)

-- code that keeps good machines in which the environment `e` is there
abbrev pub Keeps {ℓ} : {A : Type ℓ} → ℕ → Run A → Type ℓ
Keeps e r = (m : Machine) → Good m → e < length m.envs → Kept (length m.envs) (r.run m)

module _ {ℓ} {A : Type ℓ} where
  pub pure_Keeps : (e : ℕ) (a : A) → Keeps e (pure a)
  pure_Keeps e a m g lt = Kept.leaves g (omega arith)

  pub undefined_Keeps : (e : ℕ) → Keeps {A = A} e undefined
  undefined_Keeps e m g lt = Kept.faults

  pub more : {r : Ran A} {n k : ℕ} → n ≤ k → Kept k r → Kept n r
  more le Kept.runs = Kept.runs
  more le Kept.faults = Kept.faults
  more le (Kept.leaves g h) = Kept.leaves g (omega arith)

  pub next_Kept :
      {B : Type ℓ} {e n : ℕ} {x : Ran B} (k : B → Run A)
      → e < n
      → Kept n x
      → ((b : B) → Keeps e (k b))
      → Kept n (run_next x k)
  next_Kept k lt Kept.runs h = Kept.runs
  next_Kept k lt Kept.faults h = Kept.faults
  next_Kept k lt (Kept.leaves {a} {m} g le) h = more le (h a m g (omega arith))

  infixl 1 ◌⟫◌
  pub ◌⟫◌ :
      {B : Type ℓ} {e : ℕ} {r : Run B} {k : B → Run A}
      → Keeps e r
      → ((b : B) → Keeps e (k b))
      → Keeps e (r >>= k)
  (p ⟫ h) m g lt = next_Kept _ lt (p m g lt) h

pub Boxed-suc : (n k : ℕ) (xs : List (EnvEntry (Option ℕ))) → n ≤ k → Boxed n xs → Boxed k xs
Boxed-suc n k [] le h = tt
Boxed-suc n k (en ∷ xs) le (h, hs) = (box n k en.value le h, Boxed-suc n k xs le hs)
  where
    box : (n k : ℕ) (b : Option ℕ) → n ≤ k → BoxIn n b → BoxIn k b
    box n k none le h = tt
    box n k (some b) le h = omega arith

pub write_Keeps : (e b : ℕ) (v : Value) → Keeps e (write b v)
unfolding write
write_Keeps e b v m g lt =
    Kept.leaves
      (record {
        scoped = g.scoped;
        boxes = λ i env h.
            Boxed-suc (length m.cells) (length (set m.cells b v)) env.entries
              (let q = length-set m.cells b v in omega arith) (g.boxes i env h);
        closures = g.closures;
      })
      (omega arith)

pub read_Keeps : (e b : ℕ) → Keeps e (read b)
unfolding read
read_Keeps e b m g lt = elim (Option-cases (get_elem? m.cells b)) [
  | inl h ↦ rw (read, h) Kept.faults
  | inr (v, h) ↦ rw (read, h) (Kept.leaves g (omega arith))
]
