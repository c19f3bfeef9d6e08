-- ===== src/Eval/Names.antt =====
-- src/eval.c: names in the machines that the evaluator leaves.
use sqale.Prelude.{
  ℕ, zero, suc, ◌≤◌, ◌<◌, ◌≡◌, refl, ap, ◌∙◌, Option, none, some, List, [], ◌∷◌, Bytes, bytes_eq,
  arith, length, get_elem?, Option-cases, Bool-cases, inl, inr, subst, sym,
}
use sqale.Ast.{Node}
use sqale.Runtime.{Value}
use sqale.Env.{EnvEntry, find, env_lookup}
use sqale.Env.Scoping.{env_lookup_total}
use sqale.Env.Chains.{resolve, lookup-suc, get_elem?-lt}
use sqale.Machine.{Machine, done, box_of, read}
use sqale.Eval.Items.{Library, eval_symbol, box_value}
use sqale.Eval.{eval_node}
use sqale.Eval.Valid.{Good, Kept}
use sqale.Eval.Keeping.{KeepsLibrary, node_Keeps}
use sqale.Eval.Valid.{BoxIn, Boxed}

find-Boxed :
    (n : ℕ) (xs : List (EnvEntry (Option ℕ))) (name : Bytes) (b : Option ℕ)
    → Boxed n xs
    → find xs name ≡ some b
    → BoxIn n b
unfolding find
find-Boxed n [] name b h q = cc
find-Boxed n (en ∷ xs) name b (h, hs) q = elim (Bool-cases (bytes_eq en.name name)) [
  | inl t ↦
      let w : find (en ∷ xs) name ≡ some en.value = rw (find, t) refl in
      let same : en.value ≡ b = cc in subst (BoxIn n) same h
  | inr t ↦
      let w : find (en ∷ xs) name ≡ find xs name = rw (find, t) refl in
      find-Boxed n xs name b hs (sym w ∙ q)
]

-- a name's box is there
lookup_Boxed :
    (f : ℕ) (m : Machine) (p : Option ℕ) (name : Bytes) (b : Option ℕ)
    → Good m
    → env_lookup f p name m.envs ≡ some (some b)
    → BoxIn (length m.cells) b
unfolding env_lookup
lookup_Boxed zero m none name b g q = cc
lookup_Boxed (suc f) m none name b g q = cc
lookup_Boxed zero m (some e) name b g q = cc
lookup_Boxed (suc f) m (some e) name b g q = elim (Option-cases (get_elem? m.envs e)) [
  | inl h ↦ let w : env_lookup (suc f) (some e) name m.envs ≡ none = rw (env_lookup, h) refl in cc
  | inr (env, h) ↦
      let outer = env_lookup f env.parent name m.envs in
      let w : resolve (find env.entries name) outer ≡ some (some b) =
        sym (lookup-suc f e name m.envs env h) ∙ q in
      elim (Option-cases (find env.entries name)) [
        | inl t ↦ lookup_Boxed f m env.parent name b g (sym (ap (λ o. resolve o outer) t) ∙ w)
        | inr (v, t) ↦
            let w' : some (some v) ≡ some (some b) = sym (ap (λ o. resolve o outer) t) ∙ w in
            let same : v ≡ b = cc in
            find-Boxed (length m.cells) env.entries name b (g.boxes e env h) (t ∙ ap some same)
      ]
]

box_value_defined :
    (m : Machine) (b : Option ℕ)
    → BoxIn (length m.cells) b
    → (v : Value) × ((box_value b).run m ≡ done v m)
unfolding read
box_value_defined m none h = (Value.unit, refl)
box_value_defined m (some b) h = let (v, q) = get_elem?-lt m.cells b h in (v, rw (read, q) refl)

-- every name has a value, unit if nothing binds it
symbol_defined :
    (m : Machine) (e : ℕ) (name : Bytes)
    → Good m
    → e < length m.envs
    → (v : Value) × ((eval_symbol e name).run m ≡ done v m)
unfolding eval_symbol box_of
symbol_defined m e name g lt = found (env_lookup_total m.envs e name g.scoped lt)
  where
    found :
        (p : (r : Option (Option ℕ)) × (env_lookup (length m.envs) (some e) name m.envs ≡ some r))
        → (v : Value) × ((eval_symbol e name).run m ≡ done v m)
    found (none, h) = (Value.unit, rw (eval_symbol, box_of, h) refl)
    found (some b, h) =
        let (v, q) = box_value_defined m b (lookup_Boxed (length m.envs) m (some e) name b g h) in
        (v, rw (eval_symbol, box_of, h) q)

pub of_Kept :
    {A : Type 0} {n : ℕ} {a : A} {m : Machine} → Kept n (done a m) → Good m × (n ≤ length m.envs)
of_Kept (Kept.leaves g le) = (g, le)

-- When an evaluation in an environment returns, and in the machine before it the parents of environments were older than
-- their children and the boxes of all names and the environments of all closures were there, and the library functions
-- and imports keep that so, then it is so afterwards. No environment is lost, and every name can be looked
-- up afterwards, which neither faults nor runs out of fuel. Addresses of objects in values are not covered.
pub eval_node-Good :
    (lib : Library) (f e : ℕ) (n : Node) (m m' : Machine) (v : Value)
    → KeepsLibrary lib
    → Good m
    → e < length m.envs
    → (eval_node f lib e n).run m ≡ done v m'
    → Good m'
      × (length m.envs ≤ length m'.envs)
      × ((name : Bytes) → (w : Value) × ((eval_symbol e name).run m' ≡ done w m'))
eval_node-Good lib f e n m m' v keeps g lt h =
    let (good, le) = of_Kept (subst (Kept (length m.envs)) h (node_Keeps lib keeps f e n m g lt)) in
    (good, le, λ name. symbol_defined m' e name good (omega arith))
