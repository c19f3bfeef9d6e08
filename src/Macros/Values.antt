-- ===== src/Macros/Values.antt =====
-- src/macro.c: the nodes of a user macro's arguments as values (`node_to_val`), and its result as a node
-- (`val_to_node`). A value may hold lists in lists to any depth, so reading it takes fuel. A list or a
-- string that is NULL is followed, which is undefined. A string is its bytes and no object of its own.
use sqale.Prelude.{ℕ, zero, suc, none, some, List, [], ◌∷◌}
use sqale.Ast.{Node, Nodes, list, symbol, int, float, string, bool, nil, cons}
use sqale.Runtime.{Value}
use sqale.Machine.{Object, val_list, Run, ◌>>=◌, pure, undefined, spent, alloc, object, update}

unfoldable mutual
  unfolding alloc update

  pub node_to_val : Node → Run Value
  node_to_val (symbol name line col) = pure (Value.symbol name)
  node_to_val (int z line col) = pure (Value.int z)
  node_to_val (float d line col) = pure (Value.float d)
  node_to_val (bool b line col) = pure (Value.bool b)
  node_to_val (string s line col) = pure (Value.str (some s))
  node_to_val (list line col items) = do
    vs ← nodes_to_vals items
    a ← alloc (val_list [])
    vs ← nodes_to_vals items
    ok ← update a (val_list vs)
    pure (Value.list (some a))

  -- the loop over the items of a list, and over a macro's arguments
  pub nodes_to_vals : Nodes → Run (List Value)
  nodes_to_vals nil = pure []
  nodes_to_vals (cons n ns) = do v ← node_to_val n; vs ← nodes_to_vals ns; pure (v ∷ vs)

abbrev pub val_list_items : Object → Run (List Value)
val_list_items (val_list vs) = pure vs
val_list_items _ = undefined

unfoldable pub vals_to_nodes : (Value → Run Node) → List Value → Run Nodes
vals_to_nodes back [] = pure nil
vals_to_nodes back (v ∷ vs) = do n ← back v; ns ← vals_to_nodes back vs; pure (cons n ns)

unfoldable pub val_to_node : ℕ → Value → Run Node
unfolding object vals_to_nodes
val_to_node zero v = spent
val_to_node (suc f) (Value.int z) = pure (int z 0 0)
val_to_node (suc f) (Value.float d) = pure (float d 0 0)
val_to_node (suc f) (Value.bool b) = pure (bool b 0 0)
val_to_node (suc f) (Value.str none) = undefined
val_to_node (suc f) (Value.str (some s)) = pure (string s 0 0)
val_to_node (suc f) (Value.symbol s) = pure (symbol s 0 0)
val_to_node (suc f) (Value.list none) = undefined
val_to_node (suc f) (Value.list (some a)) = do
  vs ← object a >>= val_list_items
  ns ← vals_to_nodes (val_to_node f) vs
  pure (list 0 0 ns)
val_to_node (suc f) _ = pure (symbol (b'_' ∷ []) 0 0)
