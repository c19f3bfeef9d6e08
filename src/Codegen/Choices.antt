-- ===== src/Codegen/Choices.antt =====
-- src/codegen_llvm.c: `cg_list_text` and `cg_call_text` end when the form that they choose does.
use sqale.Prelude.{
  ℕ, ◌≡◌, refl, Bool, true, false, none, Bytes, ◌∷◌, [], codes, if◌then◌else◌, bytes_eq, ◌&&◌, ◌==◌,
}
use sqale.Codegen.Tree.{Tree, symbol}
use sqale.Codegen.Chunks.{print_newline}
use sqale.Codegen.Context.{Cg, pure, ◌>>◌, emit, Scopes}
use sqale.Codegen.Pieces.{is_sym, fname_of}
use sqale.Codegen.Calls.{one_of, binary_names, silent_names, choose, choose_call, Forms}
use sqale.Codegen.Good.{Good, same, bind-Good, pure-Good, emit-Good}
use sqale.Codegen.Steps.{cg_user-Good}

pub either-Good :
    {A : Type 0} (view : Scopes → Scopes) (lo k : ℕ) (b : Bool) (m n : Cg A)
    → (b ≡ true → Good view lo k m)
    → Good view lo k n
    → Good view lo k (if b then m else n)
either-Good view lo k true m n h g = h refl
either-Good view lo k false m n h g = g

-- what each form needs
pub record GoodForms (lo k : ℕ) (head : Tree) (forms : Forms) : Type 0 where
  pub on_if : Good same lo k forms.on_if
  pub on_let : is_sym head (codes "let") ≡ true → Good same lo k forms.on_let
  pub on_do : Good same lo k forms.on_do
  pub on_binop : Good same lo k forms.on_binop
  pub on_unop : Good same lo k forms.on_unop
  pub on_print : Good same lo k forms.on_print
  pub on_concat : Good same lo k forms.on_concat
  pub on_len : Good same lo k forms.on_len
  pub on_user : Good same lo k forms.on_user

choose_call-Good :
    (lo k : ℕ) (head : Tree) (name : Bytes) (n : ℕ) (forms : Forms)
    → GoodForms lo k head forms
    → Good same lo k (choose_call name n forms)
unfolding choose_call ◌>>◌
choose_call-Good lo k head name n forms g =
    let print : Good same lo k (forms.on_print >> (emit print_newline >> pure none)) =
      bind-Good same lo k forms.on_print _ g.on_print (λ u.
        bind-Good same lo k (emit print_newline) _ (emit-Good same lo k print_newline refl refl)
          (λ u. pure-Good same lo k none)) in
    either-Good same lo k (one_of binary_names (fname_of name) && n == 2) forms.on_binop _
      (λ h. g.on_binop)
      (either-Good same lo k (one_of (codes "not" ∷ codes "neg" ∷ []) (fname_of name) && n == 1)
        forms.on_unop _ (λ h. g.on_unop)
        (either-Good same lo k (bytes_eq (fname_of name) (codes "print")) _ _ (λ h. print)
          (either-Good same lo k (bytes_eq (fname_of name) (codes "str-concat") && n == 2)
            forms.on_concat _ (λ h. g.on_concat)
            (either-Good same lo k (bytes_eq (fname_of name) (codes "str-len") && n == 1)
              forms.on_len _ (λ h. g.on_len) (cg_user-Good lo k name forms.on_user g.on_user)))))

pub choose-Good :
    (lo k : ℕ) (head : Tree) (n : ℕ) (forms : Forms)
    → GoodForms lo k head forms
    → Good same lo k (choose head n forms)
unfolding choose is_sym
choose-Good lo k (symbol ty name) n forms g =
    either-Good same lo k (bytes_eq name (codes "if")) forms.on_if _ (λ h. g.on_if)
      (either-Good same lo k (bytes_eq name (codes "let")) forms.on_let _ g.on_let (
        either-Good same lo k (bytes_eq name (codes "do")) forms.on_do _ (λ h. g.on_do)
          (either-Good same lo k (one_of silent_names name) _ _ (λ h. pure-Good same lo k none)
            (choose_call-Good lo k (symbol ty name) name n forms g))))
choose-Good lo k head n forms g = pure-Good same lo k none
