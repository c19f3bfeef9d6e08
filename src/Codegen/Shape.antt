-- ===== src/Codegen/Shape.antt =====
-- src/codegen_llvm.c: the shape that the generator reads a `let` in.
use sqale.Prelude.{◌≡◌, true, Option, some, Bytes, codes}
use sqale.Types.{Ty}
use sqale.Codegen.Tree.{Tree, Trees, list, nil, cons}
use sqale.Codegen.Pieces.{is_sym, name_of}

-- A binding with an expression has a name in front.
abbrev pub Named : Tree → Type 0
Named (list ty (cons name (cons expr rest))) = (x : Bytes) × (name_of name ≡ some x)
Named _ = Unit {0}

unfoldable pub AllNamed : Trees → Type 0
AllNamed nil = Unit {0}
AllNamed (cons b more) = Named b × AllNamed more

-- The bindings of a `let` with a body are a list.
abbrev pub LetShape : Trees → Type 0
LetShape nil = Unit {0}
LetShape (cons bindings nil) = Unit {0}
LetShape (cons (list ty bindings) (cons first body)) = AllNamed bindings
LetShape (cons _ (cons first body)) = ⊥

unfoldable mutual
  unfolding is_sym AllNamed

  -- Each `let` in the tree has the shape that the generator reads.
  pub Proper : Tree → Type 0
  Proper (list ty (cons head args)) =
      (is_sym head (codes "let") ≡ true → LetShape args) × Proper head × AllProper args
  Proper _ = Unit {0}

  pub AllProper : Trees → Type 0
  AllProper nil = Unit {0}
  AllProper (cons t ts) = Proper t × AllProper ts

pub items-Proper : (ty : Option Ty) (items : Trees) → Proper (list ty items) → AllProper items
unfolding Proper AllProper
items-Proper ty nil p = tt
items-Proper ty (cons t ts) p = (p.1, p.2)
