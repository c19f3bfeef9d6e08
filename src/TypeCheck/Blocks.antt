-- ===== src/TypeCheck/Blocks.antt =====
-- src/eval.c: `let`, `if` and `while` in the checker, beside the typing rules.
use sqale.Prelude.{ℕ, ◌≡◌, refl, sym, subst, true, Option, none, some, Bytes, codes}
use sqale.Ast.{Node, Nodes, list, nil, cons}
use sqale.Types.{Ty}
use sqale.Forms.{is_sym, name_ptr, Form, parse_type_node}
use sqale.TypeCheck.{
  Context, Checker, same_type, bind, unit_type, is_bool, declared_or, check_binding, check_bindings,
  check_let, check_if, check_while,
}
use sqale.TypeCheck.Result.{
  Post, faults, rejects, accepts, ◌⟫◌, Post-if, weaken, Post-known, Post-require, Post-leave,
}
use sqale.TypeCheck.Rules.{IsColon, Denotes, Names, Typing, FormTyping, LetTyping}
use sqale.TypeCheck.Bodies.{Agree-same, FormGives, IsSound, seq_sound}

is_bool-true : (t : Option Ty) → is_bool t ≡ true → t ≡ some Ty.bool
is_bool-true (some Ty.bool) h = refl
is_bool-true none h = cc
is_bool-true (some t) h = cc

-- what one binding of a `let` gives
data Bound (Γ : Context) (name : Node) (d : Option Ty) (e : Node) (Γ' : Context) : Type 0 where
  bound :
      {x : Bytes} {u : Option Ty} {Γ₁ : Context}
      → Names name x
      → Typing Γ e u Γ₁
      → same_type u (declared_or u d) ≡ true
      → Γ' ≡ bind x (declared_or u d) Γ₁
      → Bound Γ name d e Γ'

module _ {Γ Γ₁ Γ₂ : Context} {name e : Node} {bs : Nodes} {l c : ℕ} where
  Bound-plain :
      {r : Nodes}
      → Bound Γ name none e Γ₁
      → LetTyping Γ₁ bs Γ₂
      → LetTyping Γ (cons (list l c (cons name (cons e r))) bs) Γ₂
  Bound-plain (bound named d same eq) rest =
      LetTyping.plain named d (subst (λ Γ'. LetTyping Γ' bs Γ₂) eq rest)

  Bound-declared :
      {colon ty : Node} {r : Nodes} {t : Ty}
      → IsColon colon
      → Denotes ty t
      → Bound Γ name (some t) e Γ₁
      → LetTyping Γ₁ bs Γ₂
      → LetTyping Γ (cons (list l c (cons name (cons colon (cons ty (cons e r))))) bs) Γ₂
  Bound-declared {t} colon denotes (bound {u} named d same eq) rest =
      LetTyping.declared named colon denotes d (Agree-same u (some t) same)
        (subst (λ Γ'. LetTyping Γ' bs Γ₂) eq rest)

  Bound-apart :
      {colon ty : Node} {t : Ty}
      → IsColon colon
      → Denotes ty t
      → Bound Γ name (some t) e Γ₁
      → LetTyping Γ₁ bs Γ₂
      → LetTyping Γ (cons (list l c (cons name (cons colon (cons ty nil)))) (cons e bs)) Γ₂
  Bound-apart {t} colon denotes (bound {u} named d same eq) rest =
      LetTyping.apart named colon denotes d (Agree-same u (some t) same)
        (subst (λ Γ'. LetTyping Γ' bs Γ₂) eq rest)

module _ (chk : Checker) (sound : IsSound chk) where
  binding_sound :
      (Γ : Context) (name : Node) (d : Option Ty) (e : Node)
      → Post (Bound Γ name d e) (check_binding chk Γ name d e)
  unfolding check_binding
  binding_sound Γ name d e = Post-known (name_ptr name) ⟫ λ x named. sound Γ e ⟫ λ (u, Γ₁) t.
      Post-require (same_type u (declared_or u d)) Γ₁ ⟫ λ _ same.
      accepts (Bound.bound named t same refl)

  bindings_sound : (Γ : Context) (bs : Nodes) → Post (LetTyping Γ bs) (check_bindings chk Γ bs)
  unfolding check_bindings
  bindings_sound Γ nil = accepts LetTyping.no_bindings
  bindings_sound Γ (cons (list l c (cons name (cons e nil))) more) =
      binding_sound Γ name none e ⟫ λ Γ₁ b.
      weaken (λ Γ₂ d. Bound-plain b d) (bindings_sound Γ₁ more)
  bindings_sound Γ (cons (list l c (cons name (cons m (cons ty nil)))) nil) =
      Post-if (is_sym m (codes ":"))
        (λ e. Post-known (name_ptr name) ⟫ λ _ _. Post-known (parse_type_node ty) ⟫ λ _ _. rejects)
        (λ e. weaken (λ Γ₁ b. Bound-plain b LetTyping.no_bindings) (binding_sound Γ name none m))
  bindings_sound Γ (cons (list l c (cons name (cons m (cons ty nil)))) (cons next more)) =
      Post-if (is_sym m (codes ":"))
        (λ colon. Post-known (parse_type_node ty) ⟫ λ t denotes.
          binding_sound Γ name (some t) next ⟫ λ Γ₁ b.
          weaken (λ Γ₂ d. Bound-apart colon denotes b d) (bindings_sound Γ₁ more))
        (λ e. binding_sound Γ name none m ⟫ λ Γ₁ b.
          weaken (λ Γ₂ d. Bound-plain b d) (bindings_sound Γ₁ (cons next more)))
  bindings_sound Γ (cons (list l c (cons name (cons m (cons ty (cons e rest))))) more) =
      Post-if (is_sym m (codes ":"))
        (λ colon. Post-known (parse_type_node ty) ⟫ λ t denotes.
          binding_sound Γ name (some t) e ⟫ λ Γ₁ b.
          weaken (λ Γ₂ d. Bound-declared colon denotes b d) (bindings_sound Γ₁ more))
        (λ h. binding_sound Γ name none m ⟫ λ Γ₁ b.
          weaken (λ Γ₂ d. Bound-plain b d) (bindings_sound Γ₁ more))
  bindings_sound Γ (cons _ more) = faults

  pub let_sound :
      (Γ : Context) (h : Node) (rest : Nodes)
      → Post (FormGives Γ Form.let_ h rest) (check_let chk Γ rest)
  unfolding check_let
  let_sound Γ h (cons (list l c bs) body) =
      let rest = cons (list l c bs) body in
      weaken (λ (t, Γ') (d, e). subst (λ Γ'. FormTyping Γ Form.let_ h rest t Γ') (sym e) d)
        (Post-leave (λ t. FormTyping Γ Form.let_ h rest t Γ) Γ
          (bindings_sound Γ bs ⟫ λ Γ₁ ds.
            seq_sound chk sound unit_type Γ₁ body ⟫ λ (t, Γ₂) d. accepts (FormTyping.let_ ds d)))
  let_sound Γ h _ = faults

  pub if_sound :
      (Γ : Context) (h : Node) (rest : Nodes)
      → Post (FormGives Γ Form.if_ h rest) (check_if chk Γ rest)
  unfolding check_if
  if_sound Γ h nil = faults
  if_sound Γ h (cons test nil) = sound Γ test ⟫ λ _ _. faults
  if_sound Γ h (cons test (cons y nil)) = sound Γ test ⟫ λ (u, Γ₁) _. sound Γ₁ y ⟫ λ _ _. faults
  if_sound Γ h (cons test (cons y (cons n r))) = sound Γ test ⟫ λ (u, Γ₁) d₁.
      sound Γ₁ y ⟫ λ (t, Γ₂) d₂. sound Γ₂ n ⟫ λ (e, Γ₃) d₃.
      Post-require (same_type t e) Γ₃ ⟫ λ _ same.
      accepts (FormTyping.if_ d₁ d₂ d₃ (Agree-same t e same))

  pub while_sound :
      (Γ : Context) (h : Node) (rest : Nodes)
      → Post (FormGives Γ Form.while h rest) (check_while chk Γ rest)
  unfolding check_while
  while_sound Γ h nil = rejects
  while_sound Γ h (cons test body) = sound Γ test ⟫ λ (u, Γ₁) d.
      Post-require (is_bool u) Γ₁ ⟫ λ _ yes_. seq_sound chk sound unit_type Γ₁ body ⟫ λ (t, Γ₂) ds.
      accepts (FormTyping.while (subst (λ u. Typing Γ test u Γ₁) (is_bool-true u yes_) d) ds)
