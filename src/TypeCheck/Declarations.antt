-- ===== src/TypeCheck/Declarations.antt =====
-- src/eval.c: `defstruct`, `defenum` and `import` in the checker.
use sqale.Prelude.{some, List, [], ◌∷◌, Bytes, c_string}
use sqale.Ast.{Nodes, list, symbol, string, nil, cons}
use sqale.Types.{Ty, Tys}
use sqale.Forms.{name_ptr, parse_type_node}
use sqale.TypeCheck.Base.{
  Context, Checked, fault, rejected, accepted, ◌>>=◌, Typed, known, bind, unit_type,
}

-- the fields of a struct: [name : Type], or [name] for one of any type
unfoldable pub check_fields : Nodes → Checked (Tys × List Bytes)
check_fields nil = accepted (Tys.nil, [])
check_fields (cons (list line col (cons name (cons colon (cons ty more)))) fs) = do
  x ← known (name_ptr name)
  t ← known (parse_type_node ty)
  (ts, xs) ← check_fields fs
  accepted (Tys.cons t ts, x ∷ xs)
check_fields (cons (list line col (cons name more)) fs) = do
  x ← known (name_ptr name)
  (ts, xs) ← check_fields fs
  accepted (Tys.cons Ty.any ts, x ∷ xs)
check_fields (cons _ fs) = fault

unfoldable pub check_defstruct : Context → Nodes → Checked Typed
unfolding check_fields bind
check_defstruct Γ (cons (symbol name line col) (cons (list l c fields) rest)) = do
  (ts, xs) ← check_fields fields
  accepted (unit_type, bind (c_string name) (some (Ty.struct (c_string name) ts xs)) Γ)
check_defstruct Γ (cons (symbol name line col) (cons _ rest)) = fault
check_defstruct Γ _ = rejected Γ

unfoldable pub variant_names : Nodes → Checked (List Bytes)
variant_names nil = accepted []
variant_names (cons n ns) = do x ← known (name_ptr n); xs ← variant_names ns; accepted (x ∷ xs)

unfoldable pub bind_variants : List Bytes → Context → Context
unfolding bind
bind_variants [] Γ = Γ
bind_variants (x ∷ xs) Γ = bind_variants xs (bind x (some Ty.int) Γ)

unfoldable pub check_defenum : Context → Nodes → Checked Typed
unfolding variant_names bind_variants bind
check_defenum Γ (cons (symbol name line col) (cons (list l c variants) rest)) = do
  xs ← variant_names variants
  accepted
      (unit_type, bind_variants xs (bind (c_string name) (some (Ty.enum (c_string name) xs)) Γ))
check_defenum Γ (cons (symbol name line col) (cons _ rest)) = fault
check_defenum Γ _ = rejected Γ

unfoldable pub check_import : Context → Nodes → Checked Typed
check_import Γ (cons (string path line col) nil) = accepted (unit_type, Γ)
check_import Γ _ = rejected Γ
