-- ===== src/TypeCheck/Extends.antt =====
-- src/eval.c: what the checker adds to its environment: a form's typing leaves new entries in front.
use sqale.Prelude.{◌≡◌, refl, ap, ◌∙◌, sym, Option, List, [], ◌∷◌, ◌++◌, append_assoc, Bytes}
use sqale.Ast.{Node, Nodes}
use sqale.Types.{Ty, Tys}
use sqale.Forms.{Form}
use sqale.TypeCheck.{Context, bind, bind_variants}
use sqale.TypeCheck.Rules.{Typing, FormTyping, SeqTyping, ArgsTyping}

-- the entries of the first environment behind new ones
abbrev pub Extends : Context → Context → Type 0
Extends Γ Γ' = (new : Context) × (Γ' ≡ new ++ Γ)

same_Extends : {Γ : Context} → Extends Γ Γ
same_Extends = ([], refl)

pub trans_Extends : {Γ Γ₁ Γ₂ : Context} → Extends Γ Γ₁ → Extends Γ₁ Γ₂ → Extends Γ Γ₂
trans_Extends {Γ} (a, p) (b, q) = (b ++ a, q ∙ ap (λ Δ. b ++ Δ) p ∙ sym (append_assoc b a Γ))

bind-Extends : {Γ : Context} (x : Bytes) (t : Option Ty) → Extends Γ (bind x t Γ)
unfolding bind
bind-Extends x t = (_ ∷ [], refl)

variants_Extend : {Γ : Context} (xs : List Bytes) → Extends Γ (bind_variants xs Γ)
unfolding bind_variants bind
variants_Extend [] = same_Extends
variants_Extend (x ∷ xs) = trans_Extends (bind-Extends x _) (variants_Extend xs)

mutual
  pub typing-Extends : {Γ Γ' : Context} {n : Node} {t : Option Ty} → Typing Γ n t Γ' → Extends Γ Γ'
  typing-Extends (Typing.int z l c) = same_Extends
  typing-Extends (Typing.float d l c) = same_Extends
  typing-Extends (Typing.string s l c) = same_Extends
  typing-Extends (Typing.bool b l c) = same_Extends
  typing-Extends (Typing.symbol x l c found) = same_Extends
  typing-Extends (Typing.unit l c) = same_Extends
  typing-Extends (Typing.form l c d) = form-Extends d

  form-Extends :
      {Γ Γ' : Context} {f : Form} {h : Node} {r : Nodes} {t : Option Ty}
      → FormTyping Γ f h r t Γ'
      → Extends Γ Γ'
  form-Extends FormTyping.defmacro = same_Extends
  form-Extends (FormTyping.def named denotes good d agree) =
      trans_Extends (bind-Extends _ _) (typing-Extends d)
  form-Extends (FormTyping.fn ps body agree) = same_Extends
  form-Extends (FormTyping.fn_returning colon denotes ps body agree) = same_Extends
  form-Extends FormTyping.quote = same_Extends
  form-Extends FormTyping.quasiquote = same_Extends
  form-Extends (FormTyping.do_ ds) = seq-Extends ds
  form-Extends FormTyping.import = same_Extends
  form-Extends (FormTyping.let_ bs body) = same_Extends
  form-Extends (FormTyping.if_ test yes_ no_ agree) =
      trans_Extends (typing-Extends test) (trans_Extends (typing-Extends yes_) (typing-Extends no_))
  form-Extends (FormTyping.while test body) = trans_Extends (typing-Extends test) (seq-Extends body)
  form-Extends (FormTyping.set found d may) = typing-Extends d
  form-Extends (FormTyping.vec ds) = seq-Extends ds
  form-Extends (FormTyping.struct_new ds) = seq-Extends ds
  form-Extends (FormTyping.defstruct fields) = bind-Extends _ _
  form-Extends (FormTyping.defenum {xs} variants) =
      trans_Extends (bind-Extends _ _) (variants_Extend xs)
  form-Extends (FormTyping.call head args) = trans_Extends (typing-Extends head) (args-Extends args)

  pub seq-Extends :
      {Γ Γ' : Context} {t u : Option Ty} {ns : Nodes} → SeqTyping Γ t ns u Γ' → Extends Γ Γ'
  seq-Extends SeqTyping.done = same_Extends
  seq-Extends (SeqTyping.andthen d ds) = trans_Extends (typing-Extends d) (seq-Extends ds)

  args-Extends : {Γ Γ' : Context} {ts : Tys} {ns : Nodes} → ArgsTyping Γ ts ns Γ' → Extends Γ Γ'
  args-Extends ArgsTyping.no_args = same_Extends
  args-Extends (ArgsTyping.arg d agree ds) = trans_Extends (typing-Extends d) (args-Extends ds)
