-- ===== src/Codegen/Agrees.antt =====
-- src/codegen_llvm.c: the scopes give, for each name, a temporary that holds the name's value.
use sqale.Prelude.{
  ℕ, ◌≤◌, ◌<◌, ◌≡◌, refl, ◌∙◌, Option, some, List, [], ◌∷◌, Bytes, arith, Bool-cases, inl, inr,
}
use sqale.Types.{Ty}
use sqale.Runtime.{Value}
use sqale.Codegen.Context.{Scopes, CgSymbol, sym_eq, cg_scope_lookup}
use sqale.Codegen.Pieces.{value_of}
use sqale.Codegen.Means.{Values, find}

-- where the value of a name is: in a temporary that is not new
abbrev pub Held : Option ℕ → ℕ → (ℕ → Option Value) → Value → Type 0
Held o tmp regs v = (t : ℕ) × (o ≡ some t) × (t < tmp) × (regs t ≡ some v)

abbrev pub Agrees : Values → Scopes → ℕ → (ℕ → Option Value) → Type 0
Agrees ρ ss tmp regs =
    (x : Bytes) (v : Value) → find ρ x ≡ some v → Held (value_of (cg_scope_lookup ss x)) tmp regs v

-- Temporaries that are not new keep their values.
abbrev pub Keeps : ℕ → (ℕ → Option Value) → (ℕ → Option Value) → Type 0
Keeps tmp regs regs' = (r : ℕ) → r < tmp → regs' r ≡ regs r

pub Agrees-keep :
    (ρ : Values) (ss : Scopes) (tmp tmp' : ℕ) (regs regs' : ℕ → Option Value)
    → Agrees ρ ss tmp regs
    → tmp ≤ tmp'
    → Keeps tmp regs regs'
    → Agrees ρ ss tmp' regs'
Agrees-keep ρ ss tmp tmp' regs regs' a le k x v h =
    let (t, e, lt, r) = a x v h in (t, e, omega arith, k t lt ∙ r)

-- A new scope changes nothing.
pub Agrees-push :
    (ρ : Values) (ss : Scopes) (tmp : ℕ) (regs : ℕ → Option Value)
    → Agrees ρ ss tmp regs
    → Agrees ρ ([] ∷ ss) tmp regs
unfolding cg_scope_lookup
Agrees-push ρ ss tmp regs a = a

-- A definition adds the name's value.
pub Agrees-define :
    (ρ : Values) (s : List CgSymbol) (ss : Scopes) (tmp : ℕ) (regs : ℕ → Option Value) (y : Bytes)
    (w : Value) (t : ℕ) (ty : Option Ty)
    → Agrees ρ (s ∷ ss) tmp regs
    → t < tmp
    → regs t ≡ some w
    → Agrees ((y, w) ∷ ρ) ((record { name = y; value = some t; type = ty } ∷ s) ∷ ss) tmp regs
unfolding cg_scope_lookup
Agrees-define ρ s ss tmp regs y w t ty a lt r x v h = elim (Bool-cases (sym_eq y x)) [
  | inl e ↦ rw e (t, refl, lt, r ∙ (rw e at h))
  | inr e ↦ rw e (a x v (rw e at h))
]
