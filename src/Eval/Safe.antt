-- ===== src/Eval/Safe.antt =====
-- src/eval.c: the evaluator on machines whose environments are in order: what its forms are put together from.
use sqale.Prelude.{
  ℕ, suc, ◌≡◌, Bool, true, false, Option, none, some, List, [], ◌∷◌, ◌++◌, Bytes, codes, c_string,
  arith, if◌then◌else◌, length,
}
use sqale.Prelude.Int.{pos}
use sqale.Ast.{Node, Nodes, list, symbol, int, float, string, bool, nil, cons}
use sqale.Forms.{is_sym, name_ptr}
use sqale.TypeCheck.{Checked, running, fault, rejected, accepted, check_fields, variant_names}
use sqale.Runtime.{Value}
use sqale.Env.Scoping.{env_lookup_total}
use sqale.Machine.{
  Object, vector, val_list, option_val, result_val, struct_val, closure_val, Run, defined, box_of,
}
use sqale.Eval.Items.{
  Evaluator, eval_symbol, eval_seq, eval_all, eval_item, def_expr, eval_def, eval_quote, spliced,
  list_of, qq_eval, qq_items, of_checked, box_value, items_of_list,
}
use sqale.Env.{env_lookup}
use sqale.Eval.{eval_defstruct, eval_defenum, define_variants, bind_args}
use sqale.Eval.Valid.{Kept, Keeps, pure_Keeps, undefined_Keeps, ◌⟫◌, read_Keeps}
use sqale.Eval.Changes.{define_Keeps, declare_Keeps, alloc_Keeps, object_Keeps}

pub if_Keeps :
    {A : Type 0} (e : ℕ) (b : Bool) {r s : Run A}
    → Keeps e r
    → Keeps e s
    → Keeps e (if b then r else s)
if_Keeps e true p q = p
if_Keeps e false p q = q

pub defined_Keeps : {A : Type 0} (e : ℕ) (o : Option A) → Keeps e (defined o)
defined_Keeps e none = undefined_Keeps e
defined_Keeps e (some a) = pure_Keeps e a

of_checked_Keeps : {A : Type 0} (e : ℕ) (r : Checked A) → Keeps e (of_checked r)
of_checked_Keeps e (accepted a) = pure_Keeps e a
of_checked_Keeps e running = undefined_Keeps e
of_checked_Keeps e fault = undefined_Keeps e
of_checked_Keeps e (rejected Γ) = undefined_Keeps e

pub box_of_Keeps : (e : ℕ) (name : Bytes) → Keeps e (box_of e name)
unfolding box_of
box_of_Keeps e name m g lt = found (env_lookup_total m.envs e name g.scoped lt)
  where
    found :
        (p : (r : Option (Option ℕ)) × (env_lookup (length m.envs) (some e) name m.envs ≡ some r))
        → Kept (length m.envs) ((box_of e name).run m)
    found (none, h) = rw (box_of, h) (Kept.leaves g (omega arith))
    found (some b, h) = rw (box_of, h) (Kept.leaves g (omega arith))

box_value_Keeps : (e : ℕ) (box : Option ℕ) → Keeps e (box_value box)
box_value_Keeps e none = pure_Keeps e Value.unit
box_value_Keeps e (some b) = read_Keeps e b

pub symbol_Keeps : (e : ℕ) (name : Bytes) → Keeps e (eval_symbol e name)
unfolding eval_symbol
symbol_Keeps e name = box_of_Keeps e name ⟫ λ box. box_value_Keeps e box

list_Keeps : (e : ℕ) (vs : List Value) → Keeps e (list_of vs)
list_Keeps e vs =
    alloc_Keeps e (val_list vs) (λ code i q. cc) ⟫ λ a. pure_Keeps e (Value.list (some a))

list_object_Keeps : (e : ℕ) (o : Object) → Keeps e (items_of_list o)
list_object_Keeps e (val_list vs) = pure_Keeps e vs
list_object_Keeps e (vector vs) = undefined_Keeps e
list_object_Keeps e (option_val v) = undefined_Keeps e
list_object_Keeps e (result_val ok v) = undefined_Keeps e
list_object_Keeps e (struct_val name vs) = undefined_Keeps e
list_object_Keeps e (closure_val code i) = undefined_Keeps e

spliced_Keeps : (e : ℕ) (v : Value) → Keeps e (spliced v)
unfolding spliced
spliced_Keeps e (Value.list (some a)) = object_Keeps e a ⟫ λ o. list_object_Keeps e o
spliced_Keeps e v = pure_Keeps e (v ∷ [])

variants_Keeps : (e i : ℕ) (xs : List Bytes) → Keeps e (define_variants e i xs)
unfolding define_variants
variants_Keeps e i [] = pure_Keeps e tt
variants_Keeps e i (x ∷ xs) =
    define_Keeps e x (Value.int (pos i)) ⟫ λ _. variants_Keeps e (suc i) xs

pub args_Keeps : (e : ℕ) (ps : Nodes) (vs : List Value) → Keeps e (bind_args e ps vs)
unfolding bind_args
args_Keeps e nil vs = pure_Keeps e tt
args_Keeps e (cons p ps) [] = pure_Keeps e tt
args_Keeps e (cons (list l c (cons name rest)) ps) (v ∷ vs) =
    defined_Keeps e (name_ptr name) ⟫ λ x. define_Keeps e x v ⟫ λ _. args_Keeps e ps vs
args_Keeps e (cons _ ps) (v ∷ vs) = undefined_Keeps e

pub defstruct_Keeps : (e : ℕ) (rest : Nodes) → Keeps e (eval_defstruct e rest)
unfolding eval_defstruct
defstruct_Keeps e (cons (symbol name line col) (cons (list l c fields) rest)) =
    of_checked_Keeps e (check_fields fields) ⟫ λ _.
    declare_Keeps e (c_string name) ⟫ λ _. pure_Keeps e Value.unit
defstruct_Keeps e (cons (symbol name line col) (cons _ rest)) = undefined_Keeps e
defstruct_Keeps e _ = pure_Keeps e Value.unit

pub defenum_Keeps : (e : ℕ) (rest : Nodes) → Keeps e (eval_defenum e rest)
unfolding eval_defenum
defenum_Keeps e (cons (symbol name line col) (cons (list l c variants) rest)) =
    of_checked_Keeps e (variant_names variants) ⟫ λ xs.
    declare_Keeps e (c_string name) ⟫ λ _. variants_Keeps e 0 xs ⟫ λ _. pure_Keeps e Value.unit
defenum_Keeps e (cons (symbol name line col) (cons _ rest)) = undefined_Keeps e
defenum_Keeps e _ = pure_Keeps e Value.unit

module _ (ev : Evaluator) (safe : (e : ℕ) (n : Node) → Keeps e (ev e n)) where
  pub seq_Keeps : (e : ℕ) (v : Value) (ns : Nodes) → Keeps e (eval_seq ev e v ns)
  unfolding eval_seq
  seq_Keeps e v nil = pure_Keeps e v
  seq_Keeps e v (cons n ns) = safe e n ⟫ λ w. seq_Keeps e w ns

  pub all_Keeps : (e : ℕ) (ns : Nodes) → Keeps e (eval_all ev e ns)
  unfolding eval_all
  all_Keeps e nil = pure_Keeps e []
  all_Keeps e (cons n ns) = safe e n ⟫ λ v. all_Keeps e ns ⟫ λ vs. pure_Keeps e (v ∷ vs)

  pub item_Keeps : (e : ℕ) (o : Option Node) → Keeps e (eval_item ev e o)
  item_Keeps e none = undefined_Keeps e
  item_Keeps e (some n) = safe e n

  pub def_Keeps : (e : ℕ) (ns : Nodes) → Keeps e (eval_def ev e ns)
  unfolding eval_def
  def_Keeps e (cons name (cons m rest)) = item_Keeps e (def_expr (cons m rest)) ⟫ λ v.
      defined_Keeps e (name_ptr name) ⟫ λ x. define_Keeps e x v ⟫ λ _. pure_Keeps e Value.unit
  def_Keeps e _ = pure_Keeps e Value.unit

  pub quote_Keeps : (e : ℕ) (ns : Nodes) → Keeps e (eval_quote ev e ns)
  unfolding eval_quote
  quote_Keeps e nil = pure_Keeps e Value.unit
  quote_Keeps e (cons (int z line col) rest) = pure_Keeps e (Value.int z)
  quote_Keeps e (cons (float d line col) rest) = pure_Keeps e (Value.float d)
  quote_Keeps e (cons (bool b line col) rest) = pure_Keeps e (Value.bool b)
  quote_Keeps e (cons (string s line col) rest) = pure_Keeps e (Value.str (some s))
  quote_Keeps e (cons (symbol name line col) rest) = pure_Keeps e (Value.symbol name)
  quote_Keeps e (cons (list line col items) rest) = all_Keeps e items ⟫ λ vs. list_Keeps e vs

  mutual
    unfolding qq_eval qq_items

    pub qq_Keeps : (e : ℕ) (n : Node) → Keeps e (qq_eval ev e n)
    qq_Keeps e (int z line col) = pure_Keeps e (Value.int z)
    qq_Keeps e (float d line col) = pure_Keeps e (Value.float d)
    qq_Keeps e (bool b line col) = pure_Keeps e (Value.bool b)
    qq_Keeps e (string s line col) = pure_Keeps e (Value.str (some s))
    qq_Keeps e (symbol name line col) = pure_Keeps e (Value.symbol name)
    qq_Keeps e (list line col nil) = qqs_Keeps e nil ⟫ λ vs. list_Keeps e vs
    qq_Keeps e (list line col (cons h nil)) = qqs_Keeps e (cons h nil) ⟫ λ vs. list_Keeps e vs
    qq_Keeps e (list line col (cons h (cons x rest))) =
        if_Keeps e (is_sym h (codes "unquote")) (safe e x)
          (qqs_Keeps e (cons h (cons x rest)) ⟫ λ vs. list_Keeps e vs)

    qqs_Keeps : (e : ℕ) (ns : Nodes) → Keeps e (qq_items ev e ns)
    qqs_Keeps e nil = pure_Keeps e []
    qqs_Keeps e (cons (list line col (cons h (cons x more))) rest) =
        if_Keeps e (is_sym h (codes "unquote-splicing"))
          (safe e x ⟫ λ v.
            spliced_Keeps e v ⟫ λ vs. qqs_Keeps e rest ⟫ λ ws. pure_Keeps e (vs ++ ws))
          (qq_Keeps e (list line col (cons h (cons x more))) ⟫ λ v.
            qqs_Keeps e rest ⟫ λ ws. pure_Keeps e (v ∷ ws))
    qqs_Keeps e (cons n rest) = qq_Keeps e n ⟫ λ v. qqs_Keeps e rest ⟫ λ ws. pure_Keeps e (v ∷ ws)
