-- ===== src/Codegen/Tree.antt =====
-- include/ast.h as the code generator reads it: the nodes with the type annotation `ty` that the
-- checker leaves, `none` where it is NULL. The generator reads no positions, so they are left out.
use sqale.Prelude.{ℕ, suc, Bool, Option, Bytes}
use sqale.Prelude.Int.{ℤ}
use sqale.Ast.{Double}
use sqale.Types.{Ty}

mutual
  pub data Tree : Type 0 where
    list : Option Ty → Trees → Tree
    symbol : Option Ty → Bytes → Tree
    int : Option Ty → ℤ → Tree
    float : Option Ty → Double → Tree
    string : Option Ty → Bytes → Tree
    bool : Option Ty → Bool → Tree

  pub data Trees : Type 0 where
    nil : Trees
    cons : Tree → Trees → Trees

-- `node->ty`
unfoldable pub type_of : Tree → Option Ty
type_of (list ty items) = ty
type_of (symbol ty name) = ty
type_of (int ty i) = ty
type_of (float ty f) = ty
type_of (string ty s) = ty
type_of (bool ty b) = ty

unfoldable pub count : Trees → ℕ
count nil = 0
count (cons t ts) = suc (count ts)
