-- ===== src/Tests/Scopes.antt =====
-- Environments at work.
use sqale.Prelude.{ℕ, zero, suc, ◌≡◌, refl, none, some, [], ◌∷◌, arith, Bytes, get_elem?, subst}
use sqale.Env.{Env, Store, env_set, find, env_lookup}
use sqale.Env.Chains.{Older, Scoped}
use sqale.Env.Scoping.{env_set_lem}

-- an environment that binds x to 1, and an empty child of it
abbrev x : Bytes
x = b'x' ∷ []

abbrev scopes : Store ℕ
scopes =
    record { entries = record { name = x; value = 1 } ∷ []; parent = none }
    ∷ record { entries = []; parent = some 0 }
    ∷ []

scopes-Scoped : Scoped scopes
scopes-Scoped = record { parents = older }
  where
    older : (e : ℕ) (env : Env ℕ) → get_elem? scopes e ≡ some env → Older env.parent e
    older zero env h = let q : none ≡ env.parent = cc in subst (λ p. Older p 0) q tt
    older (suc zero) env h =
        let q : some 0 ≡ env.parent = cc in subst (λ p. Older p 1) q (omega arith)
    older (suc (suc e)) env h = absurd (cc h)

-- A child's binding hides its parent's, in the child alone.
env_set_lem_example :
    Scoped (env_set 1 x 2 scopes)
    × (env_lookup 2 (some 0) x (env_set 1 x 2 scopes) ≡ env_lookup 2 (some 0) x scopes)
env_set_lem_example = env_set_lem 1 scopes 1 0 x x 2 scopes-Scoped (omega arith) (omega arith)

hidden : env_lookup 2 (some 1) x (env_set 1 x 2 scopes) ≡ some (some 2)
unfolding env_lookup env_set find
hidden = refl
