-- ===== src/Ast.antt =====
-- include/ast.h: the nodes that the parser builds. A node carries its line and column; the type
-- annotation `ty` is the type checker's, and stays unset here. A list's items are kept as the
-- sequence that `node_list_push` builds up; its array is in Ast/Items, and Ast/Room shows that it has room.
pub mod Items
pub mod Powers
pub mod Room
use sqale.Prelude.{ℕ, suc, Bool, Bytes, ◌≡◌, refl}
use sqale.Prelude.Int.{ℤ}

-- A `double` is its 64-bit pattern.
abbrev pub Double : Type 0
Double = ℕ

mutual
  pub data Node : Type 0 where
    list : ℕ → ℕ → Nodes → Node
    symbol : Bytes → ℕ → ℕ → Node
    int : ℤ → ℕ → ℕ → Node
    float : Double → ℕ → ℕ → Node
    string : Bytes → ℕ → ℕ → Node
    bool : Bool → ℕ → ℕ → Node

  pub data Nodes : Type 0 where
    nil : Nodes
    cons : Node → Nodes → Nodes

-- `node_list_push` at the end of the items
unfoldable pub push : Nodes → Node → Nodes
push nil n = cons n nil
push (cons m ms) n = cons m (push ms n)

unfoldable pub append : Nodes → Nodes → Nodes
append nil ns = ns
append (cons m ms) ns = cons m (append ms ns)

unfoldable pub count : Nodes → ℕ
count nil = 0
count (cons m ms) = suc (count ms)

pub append-push :
    (ms : Nodes) (n : Node) (ns : Nodes) → append (push ms n) ns ≡ append ms (cons n ns)
unfolding append push
append-push nil n ns = refl
append-push (cons m ms) n ns = λ i. cons m (append-push ms n ns i)

pub append-nil : (ms : Nodes) → append ms nil ≡ ms
unfolding append
append-nil nil = refl
append-nil (cons m ms) = λ i. cons m (append-nil ms i)
