-- ===== src/Forms.antt =====
-- src/eval.c: what the type checker and the evaluator share: the special forms, names, and type
-- annotations (`is_sym`, `parse_type_node`). A read past a list's items, or of a field that the node
-- does not have, is a fault, `none`.
use sqale.Prelude.{
  Bool, false, Option, none, some, Bytes, bytes_eq, codes, c_string, strncmp_eq, if◌then◌else◌,
  length,
}
use sqale.Ast.{Node, Nodes, list, symbol, string, nil, cons}
use sqale.Types.{Ty, Tys}

unfoldable pub is_sym : Node → Bytes → Bool
is_sym (symbol name line col) s = bytes_eq name s
is_sym _ s = false

-- `n->as.sym.ptr` as a C string: a string node has its text at the same place
unfoldable pub name_ptr : Node → Option Bytes
name_ptr (symbol name line col) = some (c_string name)
name_ptr (string text line col) = some (c_string text)
name_ptr _ = none

-- the special forms, in the order in which the checker asks for them
pub data Form : Type 0 where
  defmacro def fn quote quasiquote do_ import let_ if_ while set vec struct_new defstruct defenum
        call :
      Form

unfoldable pub form_of : Node → Form
unfolding is_sym
form_of head =
    if is_sym head (codes "defmacro")
    then defmacro
    else if is_sym head (codes "def")
    then def
    else if is_sym head (codes "fn")
    then fn
    else if is_sym head (codes "quote")
    then quote
    else if is_sym head (codes "quasiquote")
    then quasiquote
    else if is_sym head (codes "do")
    then do_
    else if is_sym head (codes "import")
    then import
    else if is_sym head (codes "let")
    then let_
    else if is_sym head (codes "if")
    then if_
    else if is_sym head (codes "while")
    then while
    else if is_sym head (codes "set!")
    then set
    else if is_sym head (codes "vec")
    then vec
    else if is_sym head (codes "struct-new")
    then struct_new
    else if is_sym head (codes "defstruct")
    then defstruct
    else if is_sym head (codes "defenum")
    then defenum
    else call

-- the primitive types: `strncmp` over the length of the symbol alone
unfoldable pub primitive : Bytes → Ty
primitive name =
    let named : Bytes → Bool = λ s. strncmp_eq (length name) name s in
    if named (codes "Int")
    then Ty.int
    else if named (codes "Float")
    then Ty.float
    else if named (codes "Bool")
    then Ty.bool
    else if named (codes "Str")
    then Ty.str
    else if named (codes "Unit")
    then Ty.unit
    else if named (codes "Any")
    then Ty.any
    else Ty.error

-- the types before the first `->`, and the one behind it; the inner `none` is no `->`
abbrev pub ArrowType : Type 0
ArrowType = Option (Option (Tys × Ty))

abbrev pub arrow_of : ArrowType → Option Ty
arrow_of none = none
arrow_of (some none) = some Ty.error
arrow_of (some (some (ps, r))) = some (Ty.func ps r)

abbrev pub add_param : Option Ty → ArrowType → ArrowType
add_param p none = none
add_param p (some none) = some none
add_param none (some (some t)) = none
add_param (some p) (some (some (ps, r))) = some (some (Tys.cons p ps, r))

abbrev pub arrow_result : Option Ty → ArrowType
arrow_result none = none
arrow_result (some r) = some (some (Tys.nil, r))

abbrev pub map_of : Option Ty → Option Ty → Option Ty
map_of (some k) (some v) = some (Ty.map k v)
map_of _ _ = none

abbrev pub apply : (Ty → Ty) → Option Ty → Option Ty
apply f none = none
apply f (some t) = some (f t)

unfoldable mutual
  unfolding is_sym primitive

  pub parse_type_node : Node → Option Ty
  parse_type_node (symbol name line col) = some (primitive name)
  parse_type_node (list line col (cons head (cons elem nil))) =
      let chan = apply Ty.chan (parse_type_node elem) in
      let vec = apply Ty.vec (parse_type_node elem) in
      let arrow = arrow_of (arrow_type (cons head (cons elem nil))) in
      if is_sym head (codes "Chan") then chan else if is_sym head (codes "Vec") then vec else arrow
  parse_type_node (list line col (cons head (cons key (cons val nil)))) =
      let pair = map_of (parse_type_node key) (parse_type_node val) in
      let arrow = arrow_of (arrow_type (cons head (cons key (cons val nil)))) in
      if is_sym head (codes "Map") then pair else arrow
  parse_type_node (list line col items) = arrow_of (arrow_type items)
  parse_type_node _ = some Ty.error

  -- the parameters before the first `->`, and the type behind it
  pub arrow_type : Nodes → ArrowType
  arrow_type nil = some none
  arrow_type (cons n rest) =
      let here = type_behind rest in
      let later = add_param (parse_type_node n) (arrow_type rest) in
      if is_sym n (codes "->") then here else later

  pub type_behind : Nodes → ArrowType
  type_behind nil = none
  type_behind (cons n rest) = arrow_result (parse_type_node n)
