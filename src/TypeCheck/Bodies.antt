-- ===== src/TypeCheck/Bodies.antt =====
-- src/eval.c: sequences, definitions and functions in the checker, beside the typing rules.
use sqale.Prelude.{◌≡◌, ◌≢◌, sym, subst, true, not, Option, none, some, codes}
use sqale.Ast.{Node, Nodes, list, nil, cons}
use sqale.Types.{Ty, Tys}
use sqale.Types.Equality.{ty_eq_decides}
use sqale.Forms.{is_sym, name_ptr, Form, parse_type_node}
use sqale.TypeCheck.{
  Context, Typed, Checker, same_type, bind, unit_type, is_error, may_hold, check_seq, check_def,
  check_params, check_body, check_fn_from, check_fn,
}
use sqale.TypeCheck.Result.{
  Post, faults, rejects, accepts, ◌⟫◌, Post-if, weaken, Post-known, Post-require, Post-leave,
}
use sqale.TypeCheck.Rules.{Agree, MayHold, Params, Typing, FormTyping, SeqTyping, BodyTyping}

pub Agree-same : (a b : Option Ty) → same_type a b ≡ true → Agree a b
unfolding same_type
Agree-same none none h = Agree.missing
Agree-same (some a) (some b) h = Agree.both ((ty_eq_decides a b).0 h)
Agree-same none (some b) h = cc
Agree-same (some a) none h = cc

pub MayHold-may_hold : (d t : Option Ty) → may_hold d t ≡ true → MayHold d t
MayHold-may_hold none t h = MayHold.any
MayHold-may_hold (some d) t h = MayHold.typed (Agree-same (some d) t h)

-- what is to be shown of the result for one node
abbrev pub Gives : Context → Node → Typed → Type 0
Gives Γ n r = Typing Γ n r.0 r.1

abbrev pub FormGives : Context → Form → Node → Nodes → Typed → Type 0
FormGives Γ f h rest r = FormTyping Γ f h rest r.0 r.1

not_error : (t : Ty) → not (is_error t) ≡ true → t ≢ Ty.error
not_error t h e = cc

pub Params-sound : (Γ : Context) (ps : Nodes) → Post (λ r. Params Γ ps r.0 r.1) (check_params Γ ps)
unfolding check_params
Params-sound Γ nil = accepts Params.nil
Params-sound Γ (cons (list line col (cons name (cons colon (cons ty more)))) ps) =
    Post-known (name_ptr name) ⟫ λ x named. Post-known (parse_type_node ty) ⟫ λ t denotes.
    Params-sound (bind x (some t) Γ) ps ⟫ λ r d. accepts (Params.cons named denotes d)
Params-sound Γ (cons _ ps) = faults

-- a checker whose answers the rules give
abbrev pub IsSound : Checker → Type 0
IsSound chk = (Γ : Context) (n : Node) → Post (Gives Γ n) (chk Γ n)

module _ (chk : Checker) (sound : IsSound chk) where
  pub seq_sound :
      (t : Option Ty) (Γ : Context) (ns : Nodes)
      → Post (λ r. SeqTyping Γ t ns r.0 r.1) (check_seq chk t Γ ns)
  unfolding check_seq
  seq_sound t Γ nil = accepts SeqTyping.done
  seq_sound t Γ (cons n ns) =
      sound Γ n ⟫ λ (u, Γ₁) d. weaken (λ r ds. SeqTyping.andthen d ds) (seq_sound u Γ₁ ns)

  pub def_sound :
      (Γ : Context) (h : Node) (rest : Nodes)
      → Post (FormGives Γ Form.def h rest) (check_def chk Γ rest)
  unfolding check_def
  def_sound Γ h (cons name (cons colon (cons ty (cons e r)))) =
      Post-known (name_ptr name) ⟫ λ x named. Post-known (parse_type_node ty) ⟫ λ decl denotes.
      Post-require (not (is_error decl)) Γ ⟫ λ _ good. sound (bind x (some decl) Γ) e ⟫ λ (u, Γ₁) d.
      Post-require (same_type u (some decl)) Γ₁ ⟫ λ _ same.
      accepts (FormTyping.def named denotes (not_error decl good) d (Agree-same u (some decl) same))
  def_sound Γ h _ = rejects

  body_sound :
      (Γ : Context) (last : Node) (body : Nodes)
      → Post (λ r. BodyTyping Γ last body r.0 r.1) (check_body chk Γ last body)
  unfolding check_body
  body_sound Γ last nil = weaken (λ r d. BodyTyping.empty d) (sound Γ last)
  body_sound Γ last (cons n ns) =
      weaken (λ r d. BodyTyping.items d) (seq_sound unit_type Γ (cons n ns))

  -- a function's type by the rules, whichever rule gives it
  fn_from_sound :
      (Γ : Context) (params : Nodes) (ret : Ty) (last : Node) (body : Nodes) {rest : Nodes}
      {h : Node}
      (rule : (Γ₁ Γ₂ : Context) (ts : Tys) (u : Option Ty)
        → Params Γ params ts Γ₁
        → BodyTyping Γ₁ last body u Γ₂
        → Agree u (some ret)
        → FormTyping Γ Form.fn h rest (some (Ty.func ts ret)) Γ)
      → Post (FormGives Γ Form.fn h rest) (check_fn_from chk Γ params ret last body)
  unfolding check_fn_from
  fn_from_sound Γ params ret last body {rest} {h} rule =
      let P : Option Ty → Type 0 = λ t. FormTyping Γ Form.fn h rest t Γ in
      weaken (λ (t, Γ') (d, e). subst (λ Γ'. FormTyping Γ Form.fn h rest t Γ') (sym e) d)
        (Post-leave P Γ (
          Params-sound Γ params ⟫ λ (ts, Γ₁) ps. body_sound Γ₁ last body ⟫ λ (u, Γ₂) d.
          Post-require (same_type u (some ret)) Γ ⟫ λ _ same.
          accepts (rule Γ₁ Γ₂ ts u ps d (Agree-same u (some ret) same))))

  pub fn_sound :
      (Γ : Context) (h : Node) (rest : Nodes)
      → Post (FormGives Γ Form.fn h rest) (check_fn chk Γ rest)
  unfolding check_fn
  fn_sound Γ h (cons (list line col params) nil) =
      fn_from_sound Γ params Ty.unit (list line col params) nil (λ Γ₁ Γ₂ ts u. FormTyping.fn)
  fn_sound Γ h (cons (list line col params) (cons n nil)) =
      Post-if (is_sym n (codes ":")) (λ e. faults)
        (λ e.
          fn_from_sound Γ params Ty.unit (list line col params) (cons n nil)
            (λ Γ₁ Γ₂ ts u. FormTyping.fn))
  fn_sound Γ h (cons (list line col params) (cons n (cons ty body))) =
      Post-if (is_sym n (codes ":"))
        (λ colon. Post-known (parse_type_node ty) ⟫ λ ret denotes.
          fn_from_sound Γ params ret ty body (λ Γ₁ Γ₂ ts u. FormTyping.fn_returning colon denotes))
        (λ e.
          fn_from_sound Γ params Ty.unit (list line col params) (cons n (cons ty body))
            (λ Γ₁ Γ₂ ts u. FormTyping.fn))
  fn_sound Γ h _ = faults
