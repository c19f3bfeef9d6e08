-- ===== src/Codegen/Standard.antt =====
-- src/eval.c: a new VM has the operators that the generator compiles.
use sqale.Prelude.{
  ℕ, suc, ◌<◌, ◌≡◌, refl, subst, Option, none, some, List, [], ◌∷◌, Bytes, bytes_eq, bytes_eq→eq,
  length, arith, Option-cases, Bool-cases, inl, inr, if◌then◌else◌,
}
use sqale.Env.Chains.{get_elem?-lt}
use sqale.Runtime.{Value, FloatOps}
use sqale.Machine.{Machine, done, Run, defined, new_env, define}
use sqale.Eval.{Library}
use sqale.Builtins.{Builtin, Outside, builtins}
use sqale.Program.{empty_machine, global_env, register, vm_new, library}
use sqale.Codegen.Means.{
  plus, minus, times, over, percent, mod_, equal, unequal, less, greater, at_most, at_least, both,
  either, op_name, op_value,
}
use sqale.Codegen.Sees.{Sees, with_name, name-Frame, name-Sees, other-Sees}
use sqale.Codegen.Source.{Operator, binary, not_, neg_, text_of, function_of}
use sqale.Codegen.Matches.{HasOperators, Matches}

-- the operator's place in the table
unfoldable pub place_of : Operator → ℕ
place_of (binary plus) = 1
place_of (binary minus) = 2
place_of (binary times) = 3
place_of (binary over) = 4
place_of (binary equal) = 5
place_of (binary less) = 6
place_of (binary greater) = 7
place_of (binary at_most) = 8
place_of (binary at_least) = 9
place_of (binary unequal) = 10
place_of not_ = 11
place_of (binary both) = 12
place_of (binary either) = 13
place_of (binary mod_) = 14
place_of (binary percent) = 15
place_of neg_ = 16

module _ (fl : FloatOps) (out : Outside) (load : Bytes → Run (Unit {0})) where
  abbrev pub standard : Library
  standard = library (builtins fl out) load

  native_lem :
      (o : Operator) (e : ℕ) (args : List Value)
      → standard.native (place_of o) e args ≡ defined (function_of fl o args)
  unfolding place_of function_of library builtins op_value
  native_lem (binary plus) e args = refl
  native_lem (binary minus) e args = refl
  native_lem (binary times) e args = refl
  native_lem (binary over) e args = refl
  native_lem (binary equal) e args = refl
  native_lem (binary less) e args = refl
  native_lem (binary greater) e args = refl
  native_lem (binary at_most) e args = refl
  native_lem (binary at_least) e args = refl
  native_lem (binary unequal) e args = refl
  native_lem not_ e args = refl
  native_lem (binary both) e args = refl
  native_lem (binary either) e args = refl
  native_lem (binary mod_) e args = refl
  native_lem (binary percent) e args = refl
  native_lem neg_ e args = refl

  pub standard-HasOperators : HasOperators fl standard place_of
  standard-HasOperators = record { native = native_lem }

-- the number of the last function with this name, where the first one has the number `i`
unfoldable pub place : ℕ → List Builtin → Bytes → Option ℕ
place i [] x = none
place i (b ∷ bs) x = elim (place (suc i) bs x) [
  | some j ↦ some j
  | none ↦ if bytes_eq b.name x then some i else none
]

-- the machine with the empty global environment
abbrev first_machine : Machine
first_machine = record {
  envs = record { entries = []; parent = none } ∷ [];
  cells = [];
  objects = [];
}

-- what the machine after the registration shows in the global environment
pub record Registered (i : ℕ) (bs : List Builtin) (m m' : Machine) : Type 0 where
  pub returns : (register i bs).run m ≡ done tt m'
  pub there : global_env < length m'.envs
  pub shows : (x : Bytes) (j : ℕ) → place i bs x ≡ some j → Sees m' x (Value.func j) global_env
  pub others :
      (x : Bytes) (v : Value) → place i bs x ≡ none → Sees m x v global_env → Sees m' x v global_env

register-Registered :
    (i : ℕ) (bs : List Builtin) (m : Machine)
    → global_env < length m.envs
    → (m' : Machine) × Registered i bs m m'
unfolding register place define
register-Registered i [] m lt = (
  m,
  record { returns = refl; there = lt; shows = λ x j h. absurd (cc h); others = λ x v h s. s },
)
register-Registered i (b ∷ bs) m lt =
    let (env, here) = get_elem?-lt m.envs global_env lt in
    let m₁ = with_name global_env b.name (Value.func i) m in
    let frame = name-Frame m global_env b.name (Value.func i) env here in
    let (m', r) = register-Registered (suc i) bs m₁ (omega (arith, frame.no_fewer)) in
    (
      m',
      record {
        returns = r.returns;
        there = r.there;
        shows = λ x j h. elim (Option-cases (place (suc i) bs x)) [
          | inr (k, q) ↦
              let p : place i (b ∷ bs) x ≡ some k = rw q refl in r.shows x j (cc (p, h, q))
          | inl q ↦ elim (Bool-cases (bytes_eq b.name x)) [
            | inl t ↦
                let p : place i (b ∷ bs) x ≡ some i = rw (q, t) refl in
                let e : i ≡ j = cc (p, h) in
                let s = name-Sees m global_env b.name (Value.func i) env here in
                r.others x (Value.func j) q (
                  subst (λ y. Sees m₁ y (Value.func j) global_env) (bytes_eq→eq b.name x t)
                    (subst (λ k. Sees m₁ b.name (Value.func k) global_env) e s))
            | inr t ↦ let p : place i (b ∷ bs) x ≡ none = rw (q, t) refl in absurd (cc (p, h))
          ]
        ];
        others = λ x v h s. elim (Option-cases (place (suc i) bs x)) [
          | inr (k, q) ↦ let p : place i (b ∷ bs) x ≡ some k = rw q refl in absurd (cc (p, h))
          | inl q ↦ elim (Bool-cases (bytes_eq b.name x)) [
            | inl t ↦ let p : place i (b ∷ bs) x ≡ some i = rw (q, t) refl in absurd (cc (p, h))
            | inr t ↦
                r.others x v q (other-Sees m global_env b.name (Value.func i) env here x v t s)
          ]
        ];
      },
    )

module _ (fl : FloatOps) (out : Outside) where
  operator_place : (o : Operator) → place 0 (builtins fl out) (text_of o) ≡ some (place_of o)
  unfolding place place_of text_of op_name builtins
  operator_place (binary plus) = refl
  operator_place (binary minus) = refl
  operator_place (binary times) = refl
  operator_place (binary over) = refl
  operator_place (binary equal) = refl
  operator_place (binary less) = refl
  operator_place (binary greater) = refl
  operator_place (binary at_most) = refl
  operator_place (binary at_least) = refl
  operator_place (binary unequal) = refl
  operator_place not_ = refl
  operator_place (binary both) = refl
  operator_place (binary either) = refl
  operator_place (binary mod_) = refl
  operator_place (binary percent) = refl
  operator_place neg_ = refl

  -- `vm_new`, with the table of the functions, makes a machine whose global environment shows each
  -- operator that the generator compiles as the library's function for it.
  pub vm_new-Matches :
      (load : Bytes → Run (Unit {0}))
      → (m : Machine) × ((vm_new (builtins fl out)).run empty_machine ≡ done global_env m)
        × Matches fl (standard fl out load) place_of [] m global_env
  unfolding vm_new new_env
  vm_new-Matches load =
      let (m, r) = register-Registered 0 (builtins fl out) first_machine (omega arith) in
      (
        m,
        rw (r.returns) refl,
        record {
          names = λ x v cl h. absurd (cc h);
          operators = λ o. r.shows (text_of o) (place_of o) (operator_place o);
        },
      )
