-- ===== src/Machine.antt =====
-- include/runtime.h, include/value.h and src/eval.c: the state that a running program changes.
-- Environments, the boxes of their values, and the objects that values point at: a pointer is a place in
-- the list of its kind. The type of an entry of an environment is left out, since running a program
-- never reads it. A library function allocates an object when its items are known: nothing sees it earlier.
-- Nothing is ever collected. So it is in the C code as long as all objects, strings too, take at most 1 MiB, the first threshold of
-- `gc_alloc`; the collection behind that frees all objects, since no root callback is set (module Gc).
use sqale.Prelude.{ℕ, Bool, Option, none, some, List, [], ◌∷◌, ◌++◌, Bytes, length, get_elem?, set}
use sqale.Ast.{Nodes}
use sqale.Buffers.{Vec}
use sqale.Env.{Store, env_new, env_set, env_lookup}
use sqale.Runtime.{Value}

-- the items of a `Vector` or a `ValList`; a closure has the items behind `fn` and its environment
pub data Object : Type 0 where
  vector : Vec Value → Object
  val_list : List Value → Object
  option_val : Value → Object
  result_val : Bool → Value → Object
  struct_val : Bytes → List Value → Object
  closure_val : Nodes → ℕ → Object

pub record Machine : Type 0 where
  pub envs : Store (Option ℕ)
  pub cells : List Value
  pub objects : List Object

-- The fuel is spent; a fault, which is undefined behaviour; a result, with the state it leaves.
pub data Ran {ℓ} (A : Type ℓ) : Type ℓ where
  running fault : Ran A
  done : A → Machine → Ran A

-- code that runs in a machine
pub record Run {ℓ} (A : Type ℓ) : Type ℓ where
  pub run : Machine → Ran A

module _ {ℓ κ} {A : Type ℓ} {B : Type κ} where
  abbrev pub run_next : Ran A → (A → Run B) → Ran B
  run_next running k = running
  run_next fault k = fault
  run_next (done a m) k = (k a).run m

  infixl 1 ◌>>=◌
  abbrev pub ◌>>=◌ : Run A → (A → Run B) → Run B
  r >>= k = record { run = λ m. run_next (r.run m) k }

abbrev pub pure {ℓ} : {A : Type ℓ} → A → Run A
pure a = record { run = λ m. done a m }

abbrev pub undefined {ℓ} : {A : Type ℓ} → Run A
undefined = record { run = λ m. fault }

abbrev pub spent {ℓ} : {A : Type ℓ} → Run A
spent = record { run = λ m. running }

-- what must not be NULL, or past an end
abbrev pub defined {ℓ} : {A : Type ℓ} → Option A → Run A
defined none = undefined
defined (some a) = pure a

unfoldable pub new_env : Option ℕ → Run ℕ
unfolding env_new
new_env parent = record {
  run = λ m. done (length m.envs) (record m { envs = env_new parent m.envs });
}

-- `env_set` of a name without a value
unfoldable pub declare : ℕ → Bytes → Run (Unit {0})
unfolding env_set
declare e name = record { run = λ m. done tt (record m { envs = env_set e name none m.envs }) }

-- a new box for the value, and `env_set`
unfoldable pub define : ℕ → Bytes → Value → Run (Unit {0})
unfolding env_set
define e name v = record {
  run = λ m. done tt (record m {
    envs = env_set e name (some (length m.cells)) m.envs;
    cells = m.cells ++ v ∷ [];
  });
}

-- the box of a name: `none` if the name is not bound, or has no box
unfoldable pub box_of : ℕ → Bytes → Run (Option ℕ)
unfolding env_lookup
box_of e name = record {
  run = λ m. elim (env_lookup (length m.envs) (some e) name m.envs) [
    | none ↦ fault
    | some none ↦ done none m
    | some (some box) ↦ done box m
  ];
}

unfoldable pub read : ℕ → Run Value
read box = record { run = λ m. elim (get_elem? m.cells box) [ none ↦ fault | some v ↦ done v m ] }

unfoldable pub write : ℕ → Value → Run (Unit {0})
write box v = record { run = λ m. done tt (record m { cells = set m.cells box v }) }

unfoldable pub alloc : Object → Run ℕ
alloc o = record { run = λ m. done (length m.objects) (record m { objects = m.objects ++ o ∷ [] }) }

unfoldable pub object : ℕ → Run Object
object a = record { run = λ m. elim (get_elem? m.objects a) [ none ↦ fault | some o ↦ done o m ] }

unfoldable pub update : ℕ → Object → Run (Unit {0})
update a o = record { run = λ m. done tt (record m { objects = set m.objects a o }) }
