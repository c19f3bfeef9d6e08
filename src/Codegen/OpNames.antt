-- ===== src/Codegen/OpNames.antt =====
-- src/codegen_llvm.c: a list with an operator's name and two operands is read as that operator.
use sqale.Prelude.{◌≡◌, refl, Option}
use sqale.Types.{Ty}
use sqale.Codegen.Tree.{symbol}
use sqale.Codegen.Pieces.{fname_of}
use sqale.Codegen.Calls.{choose, Forms}
use sqale.Codegen.Means.{
  BinOp, plus, minus, times, over, percent, mod_, equal, unequal, less, greater, at_most, at_least,
  both, either, op_name,
}

-- The two operands' form of an operator is the generator's.
pub choose-op_name :
    (o : BinOp) (ty : Option Ty) (forms : Forms)
    → choose (symbol ty (op_name o)) 2 forms ≡ forms.on_binop
unfolding choose op_name
choose-op_name plus ty forms = refl
choose-op_name minus ty forms = refl
choose-op_name times ty forms = refl
choose-op_name over ty forms = refl
choose-op_name percent ty forms = refl
choose-op_name mod_ ty forms = refl
choose-op_name equal ty forms = refl
choose-op_name unequal ty forms = refl
choose-op_name less ty forms = refl
choose-op_name greater ty forms = refl
choose-op_name at_most ty forms = refl
choose-op_name at_least ty forms = refl
choose-op_name both ty forms = refl
choose-op_name either ty forms = refl

pub fname_of-op_name : (o : BinOp) → fname_of (op_name o) ≡ op_name o
unfolding fname_of op_name
fname_of-op_name plus = refl
fname_of-op_name minus = refl
fname_of-op_name times = refl
fname_of-op_name over = refl
fname_of-op_name percent = refl
fname_of-op_name mod_ = refl
fname_of-op_name equal = refl
fname_of-op_name unequal = refl
fname_of-op_name less = refl
fname_of-op_name greater = refl
fname_of-op_name at_most = refl
fname_of-op_name at_least = refl
fname_of-op_name both = refl
fname_of-op_name either = refl
