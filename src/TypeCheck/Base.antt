-- ===== src/TypeCheck/Base.antt =====
-- src/eval.c, include/env.h: the checker's environments and results.
use sqale.Prelude.{ℕ, Bool, true, false, Option, none, some, List, ◌∷◌, Bytes}
use sqale.Ast.{Node}
use sqale.Types.{Ty, Tys, ty_eq}
use sqale.Env.{EnvEntry}

-- what a name is bound to: its type, which may be NULL, and the cell of its value, NULL until it is evaluated
pub record Slot : Type 0 where
  pub type : Option Ty
  pub cell : Option ℕ

abbrev pub Context : Type 0
Context = List (EnvEntry Slot)

-- The fuel is spent; a fault; the C function returns 0, with the environment as it is then; it returns 1.
pub data Checked {ℓ} (A : Type ℓ) : Type ℓ where
  running fault : Checked A
  rejected : Context → Checked A
  accepted : A → Checked A

module _ {ℓ κ} {A : Type ℓ} {B : Type κ} where
  infixl 1 ◌>>=◌
  abbrev pub ◌>>=◌ : Checked A → (A → Checked B) → Checked B
  running >>= k = running
  fault >>= k = fault
  rejected Γ >>= k = rejected Γ
  accepted a >>= k = k a

-- the node's type and the environment
abbrev pub Typed : Type 0
Typed = Option Ty × Context

abbrev pub Checker : Type 0
Checker = Context → Node → Checked Typed

abbrev pub known {ℓ} : {A : Type ℓ} → Option A → Checked A
known none = fault
known (some a) = accepted a

abbrev pub require : Bool → Context → Checked (Unit {0})
require true Γ = accepted tt
require false Γ = rejected Γ

-- a name that must be bound, and a type that must be a function's
abbrev pub bound_in {ℓ} : {A : Type ℓ} → Context → Option A → Checked A
bound_in Γ none = rejected Γ
bound_in Γ (some a) = accepted a

abbrev pub func_in : Context → Option Ty → Checked (Tys × Ty)
func_in Γ (some (Ty.func ts ret)) = accepted (ts, ret)
func_in Γ _ = rejected Γ

-- `ty_eq` on pointers that may be NULL
unfoldable pub same_type : Option Ty → Option Ty → Bool
same_type none none = true
same_type (some a) (some b) = ty_eq a b
same_type _ _ = false

unfoldable pub bind : Bytes → Option Ty → Context → Context
bind name ty Γ = record { name = name; value = record { type = ty; cell = none } } ∷ Γ

-- the end of a form that made the child of `Γ`
abbrev pub leave : Context → Checked (Option Ty) → Checked Typed
leave Γ running = running
leave Γ fault = fault
leave Γ (rejected _) = rejected Γ
leave Γ (accepted t) = accepted (t, Γ)

abbrev pub unit_type : Option Ty
unit_type = some Ty.unit
