-- ===== src/TypeCheck/Sound.antt =====
-- src/eval.c: the other forms in the checker, and the whole checker, beside the typing rules.
use sqale.Prelude.{ℕ, zero, suc, ◌≡◌, refl, subst, Option, some, c_string, take, arith, ◌==◌, ==→eq}
use sqale.Ast.{Node, Nodes, list, symbol, int, float, string, bool, nil, cons, count}
use sqale.Types.{Ty, Tys, arity}
use sqale.Env.{find}
use sqale.Forms.{Form, form_of}
use sqale.TypeCheck.{
  Context, Checked, running, fault, rejected, accepted, Checker, same_type, unit_type, may_hold,
  check_set, check_fields, check_defstruct, variant_names, check_defenum, check_import, check_args,
  check_call, typecheck_list, check_node, typecheck_node,
}
use sqale.TypeCheck.Result.{
  Post, runs, faults, rejects, accepts, ◌⟫◌, of_accepted, weaken, Post-bound_in, Post-func_in,
  Post-require,
}
use sqale.TypeCheck.Rules.{Typing, FormTyping, ArgsTyping}
use sqale.TypeCheck.Bodies.{
  Agree-same, MayHold-may_hold, Gives, FormGives, IsSound, seq_sound, def_sound, fn_sound,
}
use sqale.TypeCheck.Blocks.{let_sound, if_sound, while_sound}

import_sound :
    (Γ : Context) (h : Node) (rest : Nodes)
    → Post (FormGives Γ Form.import h rest) (check_import Γ rest)
unfolding check_import
import_sound Γ h (cons (string path line col) nil) = accepts FormTyping.import
import_sound Γ h _ = rejects

-- the result itself
returned : {A : Type 0} (r : Checked A) → Post (λ a. r ≡ accepted a) r
returned running = runs
returned fault = faults
returned (rejected Γ) = rejects
returned (accepted a) = accepts refl

defstruct_sound :
    (Γ : Context) (h : Node) (rest : Nodes)
    → Post (FormGives Γ Form.defstruct h rest) (check_defstruct Γ rest)
unfolding check_defstruct
defstruct_sound Γ h (cons (symbol name line col) (cons (list l c fields) rest)) =
    returned (check_fields fields) ⟫ λ (ts, xs) e. accepts (FormTyping.defstruct e)
defstruct_sound Γ h (cons (symbol name line col) (cons _ rest)) = faults
defstruct_sound Γ h _ = rejects

defenum_sound :
    (Γ : Context) (h : Node) (rest : Nodes)
    → Post (FormGives Γ Form.defenum h rest) (check_defenum Γ rest)
unfolding check_defenum
defenum_sound Γ h (cons (symbol name line col) (cons (list l c variants) rest)) =
    returned (variant_names variants) ⟫ λ xs e. accepts (FormTyping.defenum e)
defenum_sound Γ h (cons (symbol name line col) (cons _ rest)) = faults
defenum_sound Γ h _ = rejects

module _ (chk : Checker) (sound : IsSound chk) where
  set_sound :
      (Γ : Context) (h : Node) (rest : Nodes)
      → Post (FormGives Γ Form.set h rest) (check_set chk Γ rest)
  unfolding check_set
  set_sound Γ h (cons (symbol name line col) (cons e nil)) =
      Post-bound_in Γ (find Γ (c_string (take 255 name))) ⟫ λ slot found. sound Γ e ⟫ λ (u, Γ₁) d.
      Post-require (may_hold slot.type u) Γ₁ ⟫ λ _ holds.
      accepts (FormTyping.set found d (MayHold-may_hold slot.type u holds))
  set_sound Γ h _ = rejects

  args_sound :
      (Γ : Context) (ts : Tys) (ns : Nodes)
      → arity ts ≡ count ns
      → Post (ArgsTyping Γ ts ns) (check_args chk Γ ts ns)
  unfolding check_args arity count
  args_sound Γ Tys.nil nil e = accepts ArgsTyping.no_args
  args_sound Γ Tys.nil (cons n ns) e = absurd (omega arith)
  args_sound Γ (Tys.cons t ts) nil e = absurd (omega arith)
  args_sound Γ (Tys.cons t ts) (cons n ns) e = sound Γ n ⟫ λ (u, Γ₁) d.
      Post-require (same_type (some t) u) Γ₁ ⟫ λ _ same.
      weaken (λ Γ₂ ds. ArgsTyping.arg d (Agree-same (some t) u same) ds)
        (args_sound Γ₁ ts ns (omega arith))

  call_sound :
      (Γ : Context) (h : Node) (rest : Nodes)
      → Post (FormGives Γ Form.call h rest) (check_call chk Γ h rest)
  unfolding check_call
  call_sound Γ h rest = sound Γ h ⟫ λ (u, Γ₁) d. Post-func_in Γ₁ u ⟫ λ (ts, ret) e.
      Post-require (arity ts == count rest) Γ₁ ⟫ λ _ same.
      args_sound Γ₁ ts rest (==→eq (arity ts) (count rest) same) ⟫ λ Γ₂ ds.
      accepts (FormTyping.call (subst (λ u. Typing Γ h u Γ₁) e d) ds)

  list_sound :
      (Γ : Context) (f : Form) (h : Node) (rest : Nodes)
      → Post (FormGives Γ f h rest) (typecheck_list chk Γ f h rest)
  unfolding typecheck_list
  list_sound Γ Form.defmacro h rest = accepts FormTyping.defmacro
  list_sound Γ Form.def h rest = def_sound chk sound Γ h rest
  list_sound Γ Form.fn h rest = fn_sound chk sound Γ h rest
  list_sound Γ Form.quote h rest = accepts FormTyping.quote
  list_sound Γ Form.quasiquote h rest = accepts FormTyping.quasiquote
  list_sound Γ Form.do_ h rest =
      weaken (λ r d. FormTyping.do_ d) (seq_sound chk sound unit_type Γ rest)
  list_sound Γ Form.import h rest = import_sound Γ h rest
  list_sound Γ Form.let_ h rest = let_sound chk sound Γ h rest
  list_sound Γ Form.if_ h rest = if_sound chk sound Γ h rest
  list_sound Γ Form.while h rest = while_sound chk sound Γ h rest
  list_sound Γ Form.set h rest = set_sound Γ h rest
  list_sound Γ Form.vec h rest =
      seq_sound chk sound unit_type Γ rest ⟫ λ (t, Γ₁) d. accepts (FormTyping.vec d)
  list_sound Γ Form.struct_new h rest =
      seq_sound chk sound unit_type Γ rest ⟫ λ (t, Γ₁) d. accepts (FormTyping.struct_new d)
  list_sound Γ Form.defstruct h rest = defstruct_sound Γ h rest
  list_sound Γ Form.defenum h rest = defenum_sound Γ h rest
  list_sound Γ Form.call h rest = call_sound Γ h rest

  node-IsSound : IsSound (check_node chk)
  unfolding check_node
  node-IsSound Γ (int z line col) = accepts (Typing.int z line col)
  node-IsSound Γ (float d line col) = accepts (Typing.float d line col)
  node-IsSound Γ (bool b line col) = accepts (Typing.bool b line col)
  node-IsSound Γ (string s line col) = accepts (Typing.string s line col)
  node-IsSound Γ (symbol name line col) = Post-bound_in Γ (find Γ (c_string name)) ⟫ λ slot found.
      accepts (Typing.symbol name line col found)
  node-IsSound Γ (list line col nil) = accepts (Typing.unit line col)
  node-IsSound Γ (list line col (cons head rest)) =
      weaken (λ r d. Typing.form line col d) (list_sound Γ (form_of head) head rest)

pub typecheck_node-IsSound : (f : ℕ) → IsSound (typecheck_node f)
unfolding typecheck_node
typecheck_node-IsSound zero Γ n = runs
typecheck_node-IsSound (suc f) Γ n = node-IsSound (typecheck_node f) (typecheck_node-IsSound f) Γ n

-- What the checker accepts, at any fuel, is typed by the rules: with the type and the environment that the
-- checker returns.
pub typecheck_node-Typing :
    (f : ℕ) (Γ : Context) (n : Node) (t : Option Ty) (Γ' : Context)
    → typecheck_node f Γ n ≡ accepted (t, Γ')
    → Typing Γ n t Γ'
typecheck_node-Typing f Γ n t Γ' e =
    of_accepted (subst (Post (Gives Γ n)) e (typecheck_node-IsSound f Γ n))
