-- ===== src/Tests/Typing.antt =====
-- The type checker at work.
use sqale.Prelude.{◌≡◌, ◌≢◌, refl, true, Option, some, List, [], ◌∷◌, Bytes, codes, arith}
use sqale.Prelude.Int.{pos}
use sqale.Ast.{Node, Nodes, list, symbol, int, bool, nil, cons}
use sqale.Types.{Ty, Tys, ty_eq}
use sqale.Types.Text.{ty_to_string}
use sqale.Forms.{parse_type_node, form_of, name_ptr}
use sqale.TypeCheck.{accepted, rejected, fault, running, typecheck_node}
use sqale.TypeCheck.Rules.{Typing}
use sqale.TypeCheck.Sound.{typecheck_node-Typing}
use sqale.TypeCheck.Ends.{size}
use sqale.TypeCheck.Depth.{typecheck_node_ends}

abbrev sym : Bytes → Node
sym s = symbol s 1 1

abbrev form : List Node → Nodes
form [] = nil
form (n ∷ ns) = cons n (form ns)

abbrev lst : List Node → Node
lst ns = list 1 1 (form ns)

abbrev int_type : Node
int_type = sym (codes "Int")

abbrev colon : Node
colon = sym (codes ":")

-- [fn [[x : Int]] : Int [if true x 2]]
abbrev choice : Node
choice = lst (
    sym (codes "fn")
    ∷ lst (lst (sym (codes "x") ∷ colon ∷ int_type ∷ []) ∷ [])
    ∷ colon
    ∷ int_type
    ∷ lst (sym (codes "if") ∷ bool true 1 1 ∷ sym (codes "x") ∷ int (pos 2) 1 1 ∷ [])
    ∷ [])

abbrev choice_type : Option Ty
choice_type = some (Ty.func (Tys.cons Ty.int Tys.nil) Ty.int)

choice_accepted : typecheck_node 3 [] choice ≡ accepted (choice_type, [])
unfolding typecheck_node form_of parse_type_node name_ptr ty_eq
choice_accepted = refl

typecheck_node-Typing_example : Typing [] choice choice_type []
typecheck_node-Typing_example = typecheck_node-Typing 3 [] choice choice_type [] choice_accepted

typecheck_node_ends_example : typecheck_node 20 [] choice ≢ running
unfolding size
typecheck_node_ends_example = typecheck_node_ends 20 [] choice (omega arith)

-- A `def` needs its type: [def y 3] is rejected.
def_needs_type :
    typecheck_node 9 [] (lst (sym (codes "def") ∷ sym (codes "y") ∷ int (pos 3) 1 1 ∷ []))
    ≡ rejected []
unfolding typecheck_node form_of
def_needs_type = refl

-- Any beginning of the name of a primitive type is that type.
prefix_is_type : parse_type_node (sym (codes "F")) ≡ some Ty.float
unfolding parse_type_node
prefix_is_type = refl

-- [if 1 2] has no third part to check.
short_if :
    typecheck_node 9 [] (lst (sym (codes "if") ∷ int (pos 1) 1 1 ∷ int (pos 2) 1 1 ∷ [])) ≡ fault
unfolding typecheck_node form_of
short_if = refl

-- (Int Int -> Bool)
abbrev comparison : Ty
comparison = Ty.func (Tys.cons Ty.int (Tys.cons Ty.int Tys.nil)) Ty.bool

comparison_text : ty_to_string 64 comparison ≡ some (codes "(Int Int -> Bool)")
unfolding ty_to_string
comparison_text = refl

-- In a map the text of a type is cut to 31 bytes, its closing bracket with it.
nested_text :
    ty_to_string 64 (Ty.map Ty.int (Ty.chan (Ty.chan (Ty.chan (Ty.chan (Ty.chan Ty.int))))))
    ≡ some (codes "(Map Int (Chan (Chan (Chan (Chan (Chan I)")
unfolding ty_to_string
nested_text = refl
