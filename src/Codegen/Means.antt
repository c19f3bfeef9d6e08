-- ===== src/Codegen/Means.antt =====
-- src/codegen_llvm.c: what an expression means, by the library functions of src/runtime.c. These are
-- the expressions without calls and strings, with the annotations that the type checker gives them. They
-- have no value where the generator goes wrong: at a remainder by zero, at `=` or `!=` on truth values, at
-- `!=` on floats, and at a conditional in a branch of a conditional. Left out too are `neg` on floats and
-- conditionals of type Unit.
use sqale.Prelude.{
  ◌≡◌, Bool, true, false, Option, none, some, List, [], ◌∷◌, Bytes, codes, if◌then◌else◌,
}
use sqale.Prelude.Int.{ℤ}
use sqale.Ast.{Double}
use sqale.Types.{Ty}
use sqale.Runtime.{Value, FloatOps, int, float, bool, fits}
use sqale.Runtime.Arith.{rt_add, rt_sub, rt_mul, rt_div, rt_mod, rt_neg, is_zero}
use sqale.Runtime.Compare.{rt_eq, rt_ne, rt_lt, rt_gt, rt_le, rt_ge, rt_not, rt_and, rt_or}
use sqale.Codegen.Tree.{Tree, Trees, list, symbol, nil, cons, type_of}
use sqale.Codegen.Chunks.{type_to_llvm}
use sqale.Codegen.Context.{sym_eq}
use sqale.Codegen.Pieces.{is_float, is_unit}
use sqale.Codegen.Shape.{Proper}
use sqale.Codegen.Llvm.{of_type}

pub data BinOp : Type 0 where
  plus minus times over percent mod_ equal unequal less greater at_most at_least both either : BinOp

unfoldable pub op_name : BinOp → Bytes
op_name plus = codes "+"
op_name minus = codes "-"
op_name times = codes "*"
op_name over = codes "/"
op_name percent = codes "%"
op_name mod_ = codes "mod"
op_name equal = codes "="
op_name unequal = codes "!="
op_name less = codes "<"
op_name greater = codes ">"
op_name at_most = codes "<="
op_name at_least = codes ">="
op_name both = codes "and"
op_name either = codes "or"

-- annotated as an Int, or not at all
abbrev pub is_int : Option Ty → Bool
is_int none = true
is_int (some Ty.int) = true
is_int _ = false

-- the operators whose instruction goes by the type of the form, the remainders, those that go by the
-- type of the left operand, the ones of these that floats have, and the ones on truth values
abbrev pub by_type : BinOp → Bool
by_type plus = true
by_type minus = true
by_type times = true
by_type over = true
by_type _ = false

abbrev pub is_rem : BinOp → Bool
is_rem percent = true
is_rem mod_ = true
is_rem _ = false

abbrev pub compares : BinOp → Bool
compares equal = true
compares unequal = true
compares less = true
compares greater = true
compares at_most = true
compares at_least = true
compares _ = false

abbrev pub compares_floats : BinOp → Bool
compares_floats unequal = false
compares_floats o = compares o

abbrev pub logical : BinOp → Bool
logical both = true
logical either = true
logical _ = false

-- The operands that the generator has an instruction for, by the types of the form and of the left
-- operand: none for `=` and `!=` on truth values, an ordered comparison for `!=` on floats, and a
-- remainder that is undefined at zero.
pub data Handled : BinOp → Option Ty → Option Ty → Value → Value → Type 0 where
  int_op :
      (o : BinOp) (ty left : Option Ty) (a b : ℤ)
      → by_type o ≡ true
      → is_int ty ≡ true
      → Handled o ty left (int a) (int b)
  int_rem :
      (o : BinOp) (ty left : Option Ty) (a b : ℤ)
      → is_rem o ≡ true
      → is_int ty ≡ true
      → is_zero b ≡ false
      → Handled o ty left (int a) (int b)
  int_compare :
      (o : BinOp) (ty left : Option Ty) (a b : ℤ)
      → compares o ≡ true
      → is_float left ≡ false
      → Handled o ty left (int a) (int b)
  float_op :
      (o : BinOp) (ty left : Option Ty) (a b : Double)
      → by_type o ≡ true
      → is_float ty ≡ true
      → Handled o ty left (float a) (float b)
  float_compare :
      (o : BinOp) (ty left : Option Ty) (a b : Double)
      → compares_floats o ≡ true
      → is_float left ≡ true
      → Handled o ty left (float a) (float b)
  bool_op :
      (o : BinOp) (ty left : Option Ty) (a b : Bool)
      → logical o ≡ true
      → Handled o ty left (bool a) (bool b)

-- the values of the names, the innermost first
abbrev pub Values : Type 0
Values = List (Bytes × Value)

abbrev pub find : Values → Bytes → Option Value
find [] x = none
find ((y, v) ∷ ρ) x = let rest = find ρ x in if sym_eq y x then some v else rest

abbrev pub same_kind : Value → Value → Bool
same_kind (int a) (int b) = true
same_kind (float a) (float b) = true
same_kind (bool a) (bool b) = true
same_kind _ _ = false

-- the same names, with values of the same types
abbrev pub SameKinds : Values → Values → Type 0
SameKinds [] [] = Unit
SameKinds ((x, v) ∷ ρ) ((y, w) ∷ σ) = (x ≡ y) × (same_kind v w ≡ true) × SameKinds ρ σ
SameKinds _ _ = ⊥

module _ (fl : FloatOps) where
  unfoldable pub op_value : BinOp → List Value → Option Value
  op_value plus = rt_add fl
  op_value minus = rt_sub fl
  op_value times = rt_mul fl
  op_value over = rt_div fl
  op_value percent = rt_mod
  op_value mod_ = rt_mod
  op_value equal = rt_eq fl
  op_value unequal = rt_ne fl
  op_value less = rt_lt fl
  op_value greater = rt_gt fl
  op_value at_most = rt_le fl
  op_value at_least = rt_ge fl
  op_value both = rt_and
  op_value either = rt_or

  mutual
    -- The tree has the value, under the values of the names. Where `flat` is true, no conditional is
    -- evaluated on the way.
    pub data Means : Bool → Values → Tree → Value → Type 0 where
      int_lit :
          (flat : Bool) (ρ : Values) (ty : Option Ty) (i : ℤ)
          → fits i ≡ true
          → Means flat ρ (Tree.int ty i) (int i)
      bool_lit :
          (flat : Bool) (ρ : Values) (ty : Option Ty) (b : Bool)
          → Means flat ρ (Tree.bool ty b) (bool b)
      name :
          (flat : Bool) (ρ : Values) (ty : Option Ty) (x : Bytes) (v : Value)
          → find ρ x ≡ some v
          → Means flat ρ (symbol ty x) v
      binop :
          (flat : Bool) (ρ : Values) (ty hty : Option Ty) (o : BinOp) (a b : Tree) (v w u : Value)
          → Means flat ρ a v
          → Means flat ρ b w
          → Handled o ty (type_of a) v w
          → op_value o (v ∷ w ∷ []) ≡ some u
          → Means flat ρ (list ty (cons (symbol hty (op_name o)) (cons a (cons b nil)))) u
      negation :
          (flat : Bool) (ρ : Values) (ty hty : Option Ty) (a : Tree) (b : Bool) (u : Value)
          → Means flat ρ a (bool b)
          → rt_not (bool b ∷ []) ≡ some u
          → Means flat ρ (list ty (cons (symbol hty (codes "not")) (cons a nil))) u
      opposite :
          (flat : Bool) (ρ : Values) (ty hty : Option Ty) (a : Tree) (i : ℤ) (u : Value)
          → Means flat ρ a (int i)
          → is_float (type_of a) ≡ false
          → rt_neg fl (int i ∷ []) ≡ some u
          → Means flat ρ (list ty (cons (symbol hty (codes "neg")) (cons a nil))) u
      block :
          (flat : Bool) (ρ : Values) (ty hty : Option Ty) (es : Trees) (v : Value)
          → MeansLast flat ρ es v
          → Means flat ρ (list ty (cons (symbol hty (codes "do")) es)) v
      let_in :
          (flat : Bool) (ρ ρ' : Values) (ty hty bty : Option Ty) (bs es : Trees) (v : Value)
          → MeansBound flat ρ bs ρ'
          → MeansLast flat ρ' es v
          → Means flat ρ (list ty (cons (symbol hty (codes "let")) (cons (list bty bs) es))) v
      -- The branch that is evaluated has no conditional of its own. The other one is not evaluated, but
      -- it has none either, and it means something of the same type under some values of the same
      -- types. So `phi` names the blocks that the branches end in, and all of the code is typed.
      branch :
          (flat : Bool) (ρ : Values) (ty hty : Option Ty) (t a b : Tree) (c : Bool) (v : Value)
          → flat ≡ false
          → Means flat ρ t (bool c)
          → Means true ρ (if c then a else b) v
          → is_unit ty ≡ false
          → of_type (type_to_llvm ty) v ≡ some v
          → Proper a
          → Proper b
          → (σ : Values) (w : Value) → SameKinds ρ σ
          → Means true σ (if c then b else a) w
          → of_type (type_to_llvm ty) w ≡ some w
          → Means flat ρ (list ty (cons (symbol hty (codes "if")) (cons t (cons a (cons b nil))))) v

    -- the value of the last expression
    pub data MeansLast : Bool → Values → Trees → Value → Type 0 where
      last :
          (flat : Bool) (ρ : Values) (e : Tree) (v : Value)
          → Means flat ρ e v
          → MeansLast flat ρ (cons e nil) v
      more :
          (flat : Bool) (ρ : Values) (e : Tree) (es : Trees) (w v : Value)
          → Means flat ρ e w
          → MeansLast flat ρ es v
          → MeansLast flat ρ (cons e es) v

    -- the values of the names behind the bindings
    pub data MeansBound : Bool → Values → Trees → Values → Type 0 where
      none_left : (flat : Bool) (ρ : Values) → MeansBound flat ρ nil ρ
      bound :
          (flat : Bool) (ρ ρ' : Values) (ty xty : Option Ty) (x : Bytes) (e : Tree) (v : Value)
          (bs : Trees)
          → Means flat ρ e v
          → MeansBound flat ((x, v) ∷ ρ) bs ρ'
          → MeansBound flat ρ (cons (list ty (cons (symbol xty x) (cons e nil))) bs) ρ'
      bound_as :
          (flat : Bool) (ρ ρ' : Values) (ty xty cty : Option Ty) (x : Bytes) (type e : Tree)
          (v : Value) (bs : Trees)
          → Means flat ρ e v
          → MeansBound flat ((x, v) ∷ ρ) bs ρ'
          → MeansBound flat ρ
              (cons
                (list ty
                  (cons (symbol xty x) (cons (symbol cty (codes ":")) (cons type (cons e nil)))))
                bs)
              ρ'
