-- ===== src/TypeCheck/Result.antt =====
-- Postconditions of the checker, with rules for what it is put together from.
use sqale.Prelude.{Bool, true, false, ◌≡◌, refl, Option, none, some, if◌then◌else◌}
use sqale.Types.{Ty}
use sqale.TypeCheck.{
  Checked, running, fault, rejected, accepted, ◌>>=◌, Context, known, bound_in, func_in, require,
  leave,
}

-- If the checker accepts, `P` holds of what it returns.
pub data Post {ℓ κ} {A : Type ℓ} (P : A → Type κ) : Checked A → Type (ℓ ⊔ κ) where
  runs : Post P running
  faults : Post P fault
  rejects : {Γ : Context} → Post P (rejected Γ)
  accepts : {a : A} → P a → Post P (accepted a)

module _ {ℓ κ} {A : Type ℓ} {P : A → Type κ} where
  infixl 1 ◌⟫◌
  pub ◌⟫◌ :
      {B : Type ℓ} {Q : B → Type κ} {r : Checked A} {k : A → Checked B}
      → Post P r
      → ((a : A) → P a → Post Q (k a))
      → Post Q (r >>= k)
  runs ⟫ h = runs
  faults ⟫ h = faults
  rejects ⟫ h = rejects
  accepts {a} p ⟫ h = h a p

  pub of_accepted : {a : A} → Post P (accepted a) → P a
  of_accepted (accepts p) = p

  pub Post-if :
      (b : Bool) {x y : Checked A}
      → (b ≡ true → Post P x)
      → (b ≡ false → Post P y)
      → Post P (if b then x else y)
  Post-if true h k = h refl
  Post-if false h k = k refl

pub weaken {ℓ κ κ'} :
    {A : Type ℓ} {P : A → Type κ} {Q : A → Type κ'} {r : Checked A}
    → ((a : A) → P a → Q a)
    → Post P r
    → Post Q r
weaken h runs = runs
weaken h faults = faults
weaken h rejects = rejects
weaken h (accepts {a} p) = accepts (h a p)

pub Post-known {ℓ} : {A : Type ℓ} (o : Option A) → Post (λ a. o ≡ some a) (known o)
Post-known none = faults
Post-known (some a) = accepts refl

pub Post-bound_in {ℓ} :
    {A : Type ℓ} (Γ : Context) (o : Option A) → Post (λ a. o ≡ some a) (bound_in Γ o)
Post-bound_in Γ none = rejects
Post-bound_in Γ (some a) = accepts refl

pub Post-func_in :
    (Γ : Context) (u : Option Ty) → Post (λ (ts, ret). u ≡ some (Ty.func ts ret)) (func_in Γ u)
Post-func_in Γ (some (Ty.func ts ret)) = accepts refl
Post-func_in Γ _ = rejects

pub Post-require : (b : Bool) (Γ : Context) → Post (λ u. b ≡ true) (require b Γ)
Post-require true Γ = accepts refl
Post-require false Γ = rejects

pub Post-leave :
    (P : Option Ty → Type 0) (Γ : Context) {r : Checked (Option Ty)}
    → Post P r
    → Post (λ (t, Γ'). P t × (Γ' ≡ Γ)) (leave Γ r)
Post-leave P Γ runs = runs
Post-leave P Γ faults = faults
Post-leave P Γ rejects = rejects
Post-leave P Γ (accepts p) = accepts (p, refl)
