-- ===== src/Collections/Vectors.antt =====
-- src/runtime.c: pushing to a vector and reading it.
use sqale.Prelude.{
  ℕ, zero, suc, ◌<◌, ◌≡◌, refl, some, List, [], ◌∷◌, length, ltb, get_elem?, set, ◌==◌,
  if◌then◌else◌, arith, get_or,
}
use sqale.Prelude.Int.{ℤ, pos, negsuc}
use sqale.Buffers.{Vec}
use sqale.Runtime.{Value, unit}
use sqale.Machine.{Object, vector, Machine, done, object}

-- what stands at an index after `x` was pushed to `vs`
abbrev pub pushed_item : List Value → Value → ℤ → Value
pushed_item vs x (pos i) =
    if ltb i (length vs) then get_or vs i unit else if i == length vs then x else unit
pushed_item vs x (negsuc i) = unit

pub get_elem?-in :
    {A : Type 0} (xs : List A) (i : ℕ) (x : A) → get_elem? xs i ≡ some x → i < length xs
get_elem?-in [] i x h = cc
get_elem?-in (y ∷ xs) zero x h = omega arith
get_elem?-in (y ∷ xs) (suc i) x h = let p : i < length xs = get_elem?-in xs i x h in omega arith

pub object_run :
    (m : Machine) (a : ℕ) (o : Object)
    → get_elem? m.objects a ≡ some o
    → (object a).run m ≡ done o m
unfolding object
object_run m a o h = rw (object, h) refl

-- the machine in which the vector has the array
abbrev pub with_array : Machine → ℕ → Vec Value → Machine
with_array m a v = record m { objects = set m.objects a (vector v) }
