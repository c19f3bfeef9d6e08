-- ===== src/Codegen/Source.antt =====
-- src/codegen_llvm.c beside src/eval.c: the node of a tree, the operators as functions of the library, and the
-- names that the two read alike.
use sqale.Prelude.{
  ℕ, suc, ◌≡◌, refl, ap, max, true, false, ◌==◌, Option, List, [], ◌∷◌, Bytes, bytes_eq,
  bytes_eq→eq, codes, c_string, strncmp_eq, length, arith, Bool-cases, inl, inr,
}
use sqale.Ast
use sqale.Ast.{Node, Nodes}
use sqale.Forms.{call, form_of}
use sqale.Runtime.{Value, FloatOps}
use sqale.Runtime.Arith.{rt_neg}
use sqale.Runtime.Compare.{rt_not}
use sqale.Codegen.Tree.{Tree, Trees, list, symbol, int, float, string, bool, nil, cons}
use sqale.Codegen.Context.{sym_eq}
use sqale.Codegen.Means.{
  BinOp, plus, minus, times, over, percent, mod_, equal, unequal, less, greater, at_most, at_least,
  both, either, op_name, op_value,
}

-- the node, without its annotations; places play no part
unfoldable mutual
  pub node_of : Tree → Node
  node_of (list ty items) = Ast.list 0 0 (nodes_of items)
  node_of (symbol ty name) = Ast.symbol name 0 0
  node_of (int ty i) = Ast.int i 0 0
  node_of (float ty f) = Ast.float f 0 0
  node_of (string ty s) = Ast.string s 0 0
  node_of (bool ty b) = Ast.bool b 0 0

  pub nodes_of : Trees → Nodes
  nodes_of nil = Ast.nil
  nodes_of (cons t ts) = Ast.cons (node_of t) (nodes_of ts)

-- how deep lists nest
unfoldable mutual
  pub depth : Tree → ℕ
  depth (list ty items) = suc (depths items)
  depth t = 0

  pub depths : Trees → ℕ
  depths nil = 0
  depths (cons t ts) = max (depth t) (depths ts)

-- an operator that both the generator and the library have
pub data Operator : Type 0 where
  binary : BinOp → Operator
  not_ neg_ : Operator

unfoldable pub text_of : Operator → Bytes
unfolding op_name
text_of (binary o) = op_name o
text_of not_ = codes "not"
text_of neg_ = codes "neg"

unfoldable pub function_of : FloatOps → Operator → List Value → Option Value
unfolding op_value
function_of fl (binary o) = op_value fl o
function_of fl not_ = rt_not
function_of fl neg_ = rt_neg fl

-- an operator is no special form
pub form-call : (o : Operator) → form_of (Ast.symbol (text_of o) 0 0) ≡ call
unfolding form_of text_of op_name
form-call (binary plus) = refl
form-call (binary minus) = refl
form-call (binary times) = refl
form-call (binary over) = refl
form-call (binary percent) = refl
form-call (binary mod_) = refl
form-call (binary equal) = refl
form-call (binary unequal) = refl
form-call (binary less) = refl
form-call (binary greater) = refl
form-call (binary at_most) = refl
form-call (binary at_least) = refl
form-call (binary both) = refl
form-call (binary either) = refl
form-call not_ = refl
form-call neg_ = refl

-- A text without a zero byte, which a C string keeps.
abbrev pub Clean : Bytes → Type 0
Clean x = c_string x ≡ x

pub text-Clean : (o : Operator) → Clean (text_of o)
unfolding text_of op_name
text-Clean (binary plus) = refl
text-Clean (binary minus) = refl
text-Clean (binary times) = refl
text-Clean (binary over) = refl
text-Clean (binary percent) = refl
text-Clean (binary mod_) = refl
text-Clean (binary equal) = refl
text-Clean (binary unequal) = refl
text-Clean (binary less) = refl
text-Clean (binary greater) = refl
text-Clean (binary at_most) = refl
text-Clean (binary at_least) = refl
text-Clean (binary both) = refl
text-Clean (binary either) = refl
text-Clean not_ = refl
text-Clean neg_ = refl

Clean-tail : (c : ℕ) (x : Bytes) → Clean (c ∷ x) → ((c == 0) ≡ false) × Clean x
Clean-tail c x h = elim (Bool-cases (c == 0)) [
  | inl t ↦ let q : c_string (c ∷ x) ≡ [] = rw t refl in absurd (cc (q, h))
  | inr t ↦ let q : c_string (c ∷ x) ≡ c ∷ c_string x = rw t refl in (t, cc (q, h))
]

same_text : (a b : Bytes) → Clean a → length a ≡ length b → strncmp_eq (length a) a b ≡ bytes_eq a b
same_text [] [] h e = refl
same_text [] (d ∷ b) h e = absurd (omega arith)
same_text (c ∷ a) [] h e = absurd (omega arith)
same_text (c ∷ a) (d ∷ b) h e =
    let (nz, h') = Clean-tail c a h in
    elim (Bool-cases (c == d)) [
      | inl t ↦ rw (t, nz) (same_text a b h' (omega arith))
      | inr t ↦ rw t refl
    ]

bytes_eq-length : (a b : Bytes) → bytes_eq a b ≡ true → (length a == length b) ≡ true
bytes_eq-length a b h = ground (arith, ap length (bytes_eq→eq a b h))

-- The generator and the environments compare names alike.
pub sym_eq-bytes_eq : (a b : Bytes) → Clean a → sym_eq a b ≡ bytes_eq a b
unfolding sym_eq
sym_eq-bytes_eq a b h = elim (Bool-cases (length a == length b)) [
  | inl t ↦ rw t (same_text a b h (ground arith))
  | inr f ↦ elim (Bool-cases (bytes_eq a b)) [
    | inl t ↦ absurd (cc (f, bytes_eq-length a b t))
    | inr q ↦ rw (f, q) refl
  ]
]
