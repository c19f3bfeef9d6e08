-- ===== src/Macros/Expand.antt =====
-- src/macro.c: the expansion of a program (`expand_rec`, `expand_list`, `macro_expand_all`).
-- The closures of user macros run in a machine of their own, by an evaluator. Expansion takes fuel, since a
-- macro's output is expanded again.
use sqale.Prelude.{ℕ, zero, suc, Bool, false, ◌||◌, none, some, List, [], ◌∷◌, if◌then◌else◌}
use sqale.Ast.{Node, Nodes, list, nil, cons, push}
use sqale.Machine.{Run, ◌>>=◌, pure, spent}
use sqale.Eval.{Evaluator, vm_call_closure}
use sqale.Macros.{Macro, MacroFn, c_fn, closure, is_symbol, lookup, list_looks_like_type}
use sqale.Macros.Values.{nodes_to_vals, val_to_node}

-- what a macro makes of [head args...]
unfoldable pub call_macro : ℕ → Evaluator → ℕ → ℕ → Node → Nodes → MacroFn → Run Node
unfolding nodes_to_vals vm_call_closure val_to_node
call_macro f ev line col head args (c_fn fn) = pure (fn (list line col (cons head args)))
call_macro f ev line col head args (closure c) = do
  argv ← nodes_to_vals args
  res ← vm_call_closure ev c argv
  val_to_node f res

unfoldable mutual
  unfolding list_looks_like_type lookup call_macro

  pub expand_rec : ℕ → Evaluator → List Macro → Node → Bool → Run Node
  expand_rec zero ev env n inside_type = spent
  expand_rec (suc f) ev env (list line col items) inside_type =
      let expanded = expand_list f ev env line col items in
      if inside_type then pure (list line col items) else expanded
  expand_rec (suc f) ev env n inside_type = pure n

  pub expand_list : ℕ → Evaluator → List Macro → ℕ → ℕ → Nodes → Run Node
  expand_list zero ev env line col items = spent
  expand_list (suc f) ev env line col nil = pure (list line col nil)
  expand_list (suc f) ev env line col (cons head rest) =
      let children : Run Node = do
        done ← expand_items f ev env false nil (cons head rest)
        pure (list 0 0 done)
      in let with_macro : Run Node = elim (lookup env head) [
        | none ↦ children
        | some fn ↦ do out ← call_macro f ev line col head rest fn; expand_rec f ev env out false
      ] in
        if list_looks_like_type (cons head rest)
        then pure (list line col (cons head rest))
        else with_macro

  -- the loop over the children: `after` tells whether a `:` came before
  pub expand_items : ℕ → Evaluator → List Macro → Bool → Nodes → Nodes → Run Nodes
  expand_items zero ev env after done rest = spent
  expand_items (suc f) ev env after done nil = pure done
  expand_items (suc f) ev env after done (cons n rest) = do
    m ← expand_rec f ev env n after
    expand_items f ev env (after || is_symbol (b':' ∷ []) n) (push done m) rest

unfoldable pub macro_expand_all : ℕ → Evaluator → List Macro → Node → Run Node
unfolding expand_rec
macro_expand_all f ev env n = expand_rec f ev env n false
