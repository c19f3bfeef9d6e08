-- ===== src/TypeCheck/Ends.antt =====
-- src/eval.c
-- Checks that end within their fuel, and the size of a form.
use sqale.Prelude.{ℕ, suc, ◌+◌, Bool, true, false, Option, none, some, if◌then◌else◌}
use sqale.Ast.{Node, Nodes, list, nil, cons}
use sqale.Types.{Ty}
use sqale.Forms.{name_ptr, parse_type_node}
use sqale.TypeCheck.{
  Context, Checked, fault, rejected, accepted, ◌>>=◌, known, bound_in, func_in, require, bind,
  leave, check_params, check_fields, variant_names,
}

-- the number of nodes
unfoldable mutual
  pub size : Node → ℕ
  size (list line col items) = suc (sizes items)
  size _ = 1

  pub sizes : Nodes → ℕ
  sizes nil = 0
  sizes (cons n ns) = size n + sizes ns

-- the check ends within its fuel
pub data Ends {ℓ} {A : Type ℓ} : Checked A → Type ℓ where
  faults : Ends fault
  rejects : {Γ : Context} → Ends (rejected Γ)
  accepts : {a : A} → Ends (accepted a)

module _ {ℓ} {A : Type ℓ} where
  infixl 1 ◌⟫◌
  pub ◌⟫◌ :
      {B : Type ℓ} {r : Checked A} {k : A → Checked B}
      → Ends r
      → ((a : A) → Ends (k a))
      → Ends (r >>= k)
  faults ⟫ h = faults
  rejects ⟫ h = rejects
  accepts {a} ⟫ h = h a

  pub Ends-if : (b : Bool) {x y : Checked A} → Ends x → Ends y → Ends (if b then x else y)
  Ends-if true h k = h
  Ends-if false h k = k

  pub Ends-known : (o : Option A) → Ends (known o)
  Ends-known none = faults
  Ends-known (some a) = accepts

  pub Ends-bound_in : (Γ : Context) (o : Option A) → Ends (bound_in Γ o)
  Ends-bound_in Γ none = rejects
  Ends-bound_in Γ (some a) = accepts

pub Ends-func_in : (Γ : Context) (u : Option Ty) → Ends (func_in Γ u)
Ends-func_in Γ (some (Ty.func ts ret)) = accepts
Ends-func_in Γ _ = rejects

pub Ends-require : (b : Bool) (Γ : Context) → Ends (require b Γ)
Ends-require true Γ = accepts
Ends-require false Γ = rejects

pub Ends-leave : (Γ : Context) {r : Checked (Option Ty)} → Ends r → Ends (leave Γ r)
Ends-leave Γ faults = faults
Ends-leave Γ rejects = rejects
Ends-leave Γ accepts = accepts

pub Ends-params : (Γ : Context) (ps : Nodes) → Ends (check_params Γ ps)
unfolding check_params
Ends-params Γ nil = accepts
Ends-params Γ (cons (list line col (cons name (cons colon (cons ty more)))) ps) =
    Ends-known (name_ptr name) ⟫ λ x.
    Ends-known (parse_type_node ty) ⟫ λ t. Ends-params (bind x (some t) Γ) ps ⟫ λ r. accepts
Ends-params Γ (cons _ ps) = faults

pub Ends-fields : (fs : Nodes) → Ends (check_fields fs)
unfolding check_fields
Ends-fields nil = accepts
Ends-fields (cons (list line col (cons name (cons colon (cons ty more)))) fs) =
    Ends-known (name_ptr name) ⟫ λ x.
    Ends-known (parse_type_node ty) ⟫ λ t. Ends-fields fs ⟫ λ r. accepts
Ends-fields (cons (list line col (cons name nil)) fs) =
    Ends-known (name_ptr name) ⟫ λ x. Ends-fields fs ⟫ λ r. accepts
Ends-fields (cons (list line col (cons name (cons colon nil))) fs) =
    Ends-known (name_ptr name) ⟫ λ x. Ends-fields fs ⟫ λ r. accepts
Ends-fields (cons _ fs) = faults

pub Ends-variants : (ns : Nodes) → Ends (variant_names ns)
unfolding variant_names
Ends-variants nil = accepts
Ends-variants (cons n ns) = Ends-known (name_ptr n) ⟫ λ x. Ends-variants ns ⟫ λ r. accepts
