-- ===== src/Env.antt =====
-- src/env.c and include/env.h: environments, for types and for values.
-- Environments are shared: closures and child scopes point at them, and `env_set` changes them in place.
-- So they stand in a store, in the order of their creation, and a pointer is a place in it. What a
-- name is bound to (its type and value) is a parameter, and `aux` is left out: it is handed down and
-- never read here. A lookup takes fuel for the chain of parents.
pub mod Chains
pub mod Scoping
use sqale.Prelude.{
  ℕ, zero, suc, Option, none, some, List, [], ◌∷◌, ◌++◌, Bytes, bytes_eq, if◌then◌else◌, length,
  get_elem?, set,
}

pub record EnvEntry {ℓ} (A : Type ℓ) : Type ℓ where
  pub name : Bytes
  pub value : A

pub record Env {ℓ} (A : Type ℓ) : Type ℓ where
  pub entries : List (EnvEntry A)
  pub parent : Option ℕ

abbrev pub Store {ℓ} : Type ℓ → Type ℓ
Store A = List (Env A)

module _ {ℓ} {A : Type ℓ} where
  -- the store with the new environment, whose place is the old store's length
  unfoldable pub env_new : Option ℕ → Store A → Store A
  env_new parent envs = envs ++ record { entries = []; parent = parent } ∷ []

  unfoldable pub env_set : ℕ → Bytes → A → Store A → Store A
  env_set e name value envs = elim (get_elem? envs e) [
    | none ↦ envs
    | some env ↦
        set envs e (record env { entries = record { name = name; value = value } ∷ env.entries })
  ]

  -- the inner loop
  unfoldable pub find : List (EnvEntry A) → Bytes → Option A
  find [] name = none
  find (en ∷ rest) name = if bytes_eq en.name name then some en.value else find rest name

  -- the outer loop from environment `e`: the inner option is the NULL of the C function
  unfoldable pub env_lookup : ℕ → Option ℕ → Bytes → Store A → Option (Option A)
  unfolding find
  env_lookup f none name envs = some none
  env_lookup zero (some e) name envs = none
  env_lookup (suc f) (some e) name envs = elim (get_elem? envs e) [
    | none ↦ none
    | some env ↦
        let outer = env_lookup f env.parent name envs in
        elim (find env.entries name) [ some v ↦ some (some v) | none ↦ outer ]
  ]
