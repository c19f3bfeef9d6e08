-- ===== src/Eval/Changes.antt =====
-- src/env.c, src/eval.c: what one change does to a machine whose environments are in order.
use sqale.Prelude.{
  ℕ, ◌+◌, ◌≤◌, ◌<◌, ◌≡◌, ◌≢◌, ap, ◌∙◌, sym, subst, Option, none, some, List, [], ◌∷◌, ◌++◌, arith,
  Bytes, length, get_elem?, set, get_elem?-set_self, get_elem?-set_ne, get_elem?-append,
  get_elem?-last, get_elem?-beyond, length-append, length-set, Bool-cases, Option-cases, inl, inr,
  ltb,
}
use native.Mathlib.Decide.{ℕ_discrete}
use sqale.Ast.{Nodes}
use sqale.Env.{Env, env_new, env_set}
use sqale.Env.Chains.{get_elem?-lt}
use sqale.Env.Scoping.{env_set_lem, env_new_lem, set-found}
use sqale.Runtime.{Value}
use sqale.Machine.{
  Object, closure_val, Machine, Run, ◌>>=◌, new_env, declare, define, alloc, object,
}
use sqale.Eval.Valid.{BoxIn, Boxed, Boxed-suc, Good, Kept, Keeps, more}

module _ (m : Machine) (g : Good m) (e : ℕ) (lt : e < length m.envs) where
  -- after `env_set` of a name with a box that is there
  pub bound_Good :
      (name : Bytes) (b : Option ℕ) (cells : List Value)
      → length m.cells ≤ length cells
      → BoxIn (length cells) b
      → Good (record m { envs = env_set e name b m.envs; cells = cells })
  bound_Good name b cells le inside =
      let (env, h) = get_elem?-lt m.envs e lt in
      let env' : Env (Option ℕ) = record env {
        entries = record { name = name; value = b } ∷ env.entries;
      } in
      let same : env_set e name b m.envs ≡ set m.envs e env' = set-found m.envs e name b env h in
      record {
        scoped = (env_set_lem 0 m.envs e e name name b g.scoped lt (omega arith)).0;
        boxes = λ i env₁ q. elim (ℕ_discrete e i) [
          | yes t ↦
              let w : some env' ≡ some env₁ =
                sym (get_elem?-set_self m.envs e env' lt)
                ∙ (ap (get_elem? (set m.envs e env')) t
                    ∙ (ap (λ envs. get_elem? envs i) (sym same) ∙ q)) in
              let entries : env'.entries ≡ env₁.entries = cc in
              subst (Boxed (length cells)) entries
                (inside, Boxed-suc (length m.cells) (length cells) env.entries le (g.boxes e env h))
          | no ne ↦ Boxed-suc (length m.cells) (length cells) env₁.entries le (
              g.boxes i env₁ (
                sym (get_elem?-set_ne m.envs env' ne)
                ∙ (ap (λ envs. get_elem? envs i) (sym same) ∙ q)))
        ];
        closures = λ a code i q.
            let l = g.closures a code i q in
            let len = ap length same ∙ length-set m.envs e env' in omega arith;
      }

  pub length-env_set :
      (name : Bytes) (b : Option ℕ) → length (env_set e name b m.envs) ≡ length m.envs
  length-env_set name b =
      let (env, h) = get_elem?-lt m.envs e lt in
      ap length (set-found m.envs e name b env h) ∙ length-set m.envs e _

  -- after the child of `e` was made
  pub child_Good : Good (record m { envs = env_new (some e) m.envs })
  unfolding env_new
  child_Good =
      let child : Env (Option ℕ) = record { entries = []; parent = some e } in
      record {
        scoped = (env_new_lem 0 m.envs (some e) e [] g.scoped lt lt).0;
        boxes = λ i env₁ q. elim (Bool-cases (ltb i (length m.envs))) [
          | inl l ↦ g.boxes i env₁ (sym (get_elem?-append m.envs (child ∷ []) i (ground arith)) ∙ q)
          | inr l ↦ elim (ℕ_discrete i (length m.envs)) [
            | yes t ↦
                let w : some child ≡ some env₁ =
                  sym (get_elem?-last m.envs child)
                  ∙ (ap (get_elem? (m.envs ++ child ∷ [])) (sym t) ∙ q) in
                let entries : [] ≡ env₁.entries = cc in subst (Boxed (length m.cells)) entries tt
            | no ne ↦ absurd (
                cc (
                  q,
                  get_elem?-beyond (m.envs ++ child ∷ []) i
                      (ground (arith, length-append m.envs (child ∷ []))),
                ))
          ]
        ];
        closures = λ a code i q.
            let l = g.closures a code i q in
            let len = length-append m.envs (child ∷ []) in omega arith;
      }

  -- after an object was made, which has an environment that is there if it is a closure
  pub object_Good :
      (o : Object)
      → ((code : Nodes) (i : ℕ) → o ≡ closure_val code i → i < length m.envs)
      → Good (record m { objects = m.objects ++ o ∷ [] })
  object_Good o fresh = record {
    scoped = g.scoped;
    boxes = g.boxes;
    closures = λ a code i q. elim (Bool-cases (ltb a (length m.objects))) [
      | inl l ↦ g.closures a code i (sym (get_elem?-append m.objects (o ∷ []) a (ground arith)) ∙ q)
      | inr l ↦ elim (ℕ_discrete a (length m.objects)) [
        | yes t ↦
            let w : some o ≡ some (closure_val code i) =
              sym (get_elem?-last m.objects o)
              ∙ (ap (get_elem? (m.objects ++ o ∷ [])) (sym t) ∙ q) in
            fresh code i cc
        | no ne ↦ absurd (
            cc (
              q,
              get_elem?-beyond (m.objects ++ o ∷ []) a
                  (ground (arith, length-append m.objects (o ∷ []))),
            ))
      ]
    ];
  }

pub define_Keeps : (e : ℕ) (name : Bytes) (v : Value) → Keeps e (define e name v)
unfolding define
define_Keeps e name v m g lt =
    let len : length (m.cells ++ v ∷ []) ≡ length m.cells + 1 = length-append m.cells (v ∷ []) in
    let envs : length (env_set e name (some (length m.cells)) m.envs) ≡ length m.envs =
      length-env_set m g e lt name (some (length m.cells)) in
    Kept.leaves
      (bound_Good m g e lt name (some (length m.cells)) (m.cells ++ v ∷ []) (omega arith)
        (omega arith))
      (omega arith)

pub declare_Keeps : (e : ℕ) (name : Bytes) → Keeps e (declare e name)
unfolding declare
declare_Keeps e name m g lt =
    let envs : length (env_set e name none m.envs) ≡ length m.envs =
      length-env_set m g e lt name none in
    Kept.leaves (bound_Good m g e lt name none m.cells (omega arith) tt) (omega arith)

-- any object but a closure
pub alloc_Keeps :
    (e : ℕ) (o : Object) → ((code : Nodes) (i : ℕ) → o ≢ closure_val code i) → Keeps e (alloc o)
unfolding alloc
alloc_Keeps e o plain m g lt =
    Kept.leaves (object_Good m g e lt o (λ code i q. absurd (plain code i q))) (omega arith)

pub closure_Keeps : (e : ℕ) (code : Nodes) → Keeps e (alloc (closure_val code e))
unfolding alloc
closure_Keeps e code m g lt =
    Kept.leaves
      (object_Good m g e lt (closure_val code e)
        (λ code' i q. let same : e ≡ i = cc in omega arith))
      (omega arith)

pub object_Keeps : (e a : ℕ) → Keeps e (object a)
unfolding object
object_Keeps e a m g lt = elim (Option-cases (get_elem? m.objects a)) [
  | inl h ↦ rw (object, h) Kept.faults
  | inr (o, h) ↦ rw (object, h) (Kept.leaves g (omega arith))
]

-- code in the child of `e`
pub child_Keeps :
    {A : Type 0} (e : ℕ) (k : ℕ → Run A)
    → ((c : ℕ) → Keeps c (k c))
    → Keeps e (new_env (some e) >>= k)
unfolding new_env env_new
child_Keeps e k h m g lt =
    let len : length (m.envs ++ record { entries = []; parent = some e } ∷ []) ≡ length m.envs + 1 =
      length-append m.envs (record { entries = []; parent = some e } ∷ []) in
    more (omega arith) (h (length m.envs) _ (child_Good m g e lt) (omega arith))
