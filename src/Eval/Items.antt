-- ===== src/Eval/Items.antt =====
-- src/eval.c: what the evaluator's forms are put together from, and quoting (`qq_eval`).
use sqale.Prelude.{ℕ, Option, none, some, List, [], ◌∷◌, ◌++◌, Bytes, codes, if◌then◌else◌}
use sqale.Ast.{Node, Nodes, list, symbol, int, float, string, bool, nil, cons}
use sqale.Forms.{is_sym, name_ptr}
use sqale.TypeCheck.{Checked, accepted}
use sqale.Runtime.{Value}
use sqale.Machine.{
  Object, val_list, Run, ◌>>=◌, pure, undefined, defined, define, box_of, read, alloc, object,
}

abbrev pub Evaluator : Type 0
Evaluator = ℕ → Node → Run Value

-- a library function by its number, and `vm_import_resolve_and_load`
pub record Library : Type 0 where
  pub native : ℕ → ℕ → List Value → Run Value
  pub import : Bytes → Run (Unit {0})

-- what a field list or variant list is, if there is one
abbrev pub of_checked {ℓ} : {A : Type ℓ} → Checked A → Run A
of_checked (accepted a) = pure a
of_checked _ = undefined

abbrev pub box_value : Option ℕ → Run Value
box_value none = pure Value.unit
box_value (some b) = read b

-- a symbol, by its environment
unfoldable pub eval_symbol : ℕ → Bytes → Run Value
unfolding box_of read
eval_symbol e name = do box ← box_of e name; box_value box

-- items one after the other, with the value of the last one, or `v` when there is none
unfoldable pub eval_seq : Evaluator → ℕ → Value → Nodes → Run Value
eval_seq ev e v nil = pure v
eval_seq ev e v (cons n ns) = do w ← ev e n; eval_seq ev e w ns

unfoldable pub eval_all : Evaluator → ℕ → Nodes → Run (List Value)
eval_all ev e nil = pure []
eval_all ev e (cons n ns) = do v ← ev e n; vs ← eval_all ev e ns; pure (v ∷ vs)

-- `eval_node` of an item that may be missing
abbrev pub eval_item : Evaluator → ℕ → Option Node → Run Value
eval_item ev e none = undefined
eval_item ev e (some n) = ev e n

-- The expression of a `def`, behind the name: the type is skipped.
unfoldable pub def_expr : Nodes → Option Node
unfolding is_sym
def_expr nil = none
def_expr (cons m nil) = if is_sym m (codes ":") then none else some m
def_expr (cons m (cons ty nil)) = if is_sym m (codes ":") then none else some m
def_expr (cons m (cons ty (cons expr more))) = if is_sym m (codes ":") then some expr else some m

unfoldable pub eval_def : Evaluator → ℕ → Nodes → Run Value
unfolding def_expr define
eval_def ev e (cons name (cons m more)) = do
  v ← eval_item ev e (def_expr (cons m more))
  x ← defined (name_ptr name)
  done_ ← define e x v
  pure Value.unit
eval_def ev e _ = pure Value.unit

-- The items of a quoted list are evaluated.
unfoldable pub eval_quote : Evaluator → ℕ → Nodes → Run Value
unfolding eval_all alloc
eval_quote ev e nil = pure Value.unit
eval_quote ev e (cons (int z line col) rest) = pure (Value.int z)
eval_quote ev e (cons (float d line col) rest) = pure (Value.float d)
eval_quote ev e (cons (bool b line col) rest) = pure (Value.bool b)
eval_quote ev e (cons (string s line col) rest) = pure (Value.str (some s))
eval_quote ev e (cons (symbol name line col) rest) = pure (Value.symbol name)
eval_quote ev e (cons (list line col items) rest) = do
  vs ← eval_all ev e items
  a ← alloc (val_list vs)
  pure (Value.list (some a))

abbrev pub items_of_list : Object → Run (List Value)
items_of_list (val_list vs) = pure vs
items_of_list _ = undefined

-- what `unquote-splicing` of the value stands for
unfoldable pub spliced : Value → Run (List Value)
unfolding object
spliced (Value.list (some a)) = do o ← object a; items_of_list o
spliced v = pure (v ∷ [])

abbrev pub list_of : List Value → Run Value
list_of vs = do a ← alloc (val_list vs); pure (Value.list (some a))

unfoldable mutual
  unfolding is_sym spliced alloc

  pub qq_eval : Evaluator → ℕ → Node → Run Value
  qq_eval ev e (int z line col) = pure (Value.int z)
  qq_eval ev e (float d line col) = pure (Value.float d)
  qq_eval ev e (bool b line col) = pure (Value.bool b)
  qq_eval ev e (string s line col) = pure (Value.str (some s))
  qq_eval ev e (symbol name line col) = pure (Value.symbol name)
  qq_eval ev e (list line col (cons h (cons x more))) =
      let items = qq_items ev e (cons h (cons x more)) >>= list_of in
      if is_sym h (codes "unquote") then ev e x else items
  qq_eval ev e (list line col items) = qq_items ev e items >>= list_of

  pub qq_items : Evaluator → ℕ → Nodes → Run (List Value)
  qq_items ev e nil = pure []
  qq_items ev e (cons (list line col (cons h (cons x more))) rest) =
      let here = qq_eval ev e (list line col (cons h (cons x more))) in
      let behind = qq_items ev e rest in
      let splice = do v ← ev e x; vs ← spliced v; ws ← behind; pure (vs ++ ws)
      in let plain = do v ← here; ws ← behind; pure (v ∷ ws)
        in if is_sym h (codes "unquote-splicing") then splice else plain
  qq_items ev e (cons n rest) = do v ← qq_eval ev e n; ws ← qq_items ev e rest; pure (v ∷ ws)
