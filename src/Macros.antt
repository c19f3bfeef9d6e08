-- ===== src/Macros.antt =====
-- src/macro.c: the macros `when`, `cond` and `->`, and environments of macros. Macros/Values has the nodes as
-- values and back, Macros/Expand the expansion of a program, Macros/User the macros of `defmacro`.
-- A copying loop over items copies the sequence, and a new node has line and column 0.
pub mod Clauses
pub mod Values
pub mod Expand
pub mod User
use sqale.Prelude.{
  ℕ, zero, suc, ◌-◌, Bool, true, false, ◌&&◌, ◌||◌, Option, none, some, List, [], ◌∷◌, Bytes,
  bytes_eq, if◌then◌else◌, ◌>>=◌, ltb, ◌==◌,
}
use sqale.Ast.{Node, Nodes, list, symbol, nil, cons, push, count}

abbrev pub sym_do : Node
sym_do = symbol (b'd' ∷ b'o' ∷ []) 0 0

abbrev pub sym_if : Node
sym_if = symbol (b'i' ∷ b'f' ∷ []) 0 0

abbrev pub arrow : Bytes
arrow = b'-' ∷ b'>' ∷ []

abbrev pub chan : Bytes
chan = b'C' ∷ b'h' ∷ b'a' ∷ b'n' ∷ []

-- [do items...], and [if test then else]
abbrev pub do_list : Nodes → Node
do_list items = list 0 0 (cons sym_do items)

abbrev pub if_list : Node → Node → Node → Node
if_list test then_do else_do = list 0 0 (cons sym_if (cons test (cons then_do (cons else_do nil))))

unfoldable pub m_when : Node → Node
m_when (list line col (cons head (cons test body))) = if_list test (do_list body) (do_list nil)
m_when form = form

abbrev pub is_symbol : Bytes → Node → Bool
is_symbol s (symbol name line col) = bytes_eq name s
is_symbol s _ = false

abbrev pub sym_else : Bytes
sym_else = b'e' ∷ b'l' ∷ b's' ∷ b'e' ∷ []

-- the body of the loop of `m_cond`: a clause that is no list, or an empty one, is passed over
unfoldable pub cond_clause : Node → Node → Node
cond_clause (list line col (cons first body)) acc =
    if is_symbol sym_else first then do_list body else if_list first (do_list body) acc
cond_clause clause acc = acc

-- `items[i]`; the loop stays below `count`
unfoldable pub item : Nodes → ℕ → Option Node
item nil i = none
item (cons n ns) zero = some n
item (cons n ns) (suc i) = item ns i

-- the loop of `m_cond` from index `i` down to 1
unfoldable pub cond_down : ℕ → Nodes → Node → Node
unfolding cond_clause item
cond_down zero items acc = acc
cond_down (suc i) items acc = elim (item items (suc i)) [
  | none ↦ cond_down i items acc
  | some clause ↦ cond_down i items (cond_clause clause acc)
]

unfoldable pub m_cond : Node → Node
unfolding cond_down count
m_cond (list line col items) =
    if ltb (count items) 2
    then list line col items
    else cond_down (count items - 1) items (do_list nil)
m_cond form = form

-- the loop of `m_thread`: a step that is neither a symbol nor a list with a head is passed over
unfoldable pub thread_step : Node → Node → Node
thread_step acc (symbol name line col) = list 0 0 (cons (symbol name line col) (cons acc nil))
thread_step acc (list line col (cons head args)) = list 0 0 (cons head (cons acc args))
thread_step acc _ = acc

unfoldable pub thread_steps : Node → Nodes → Node
unfolding thread_step
thread_steps acc nil = acc
thread_steps acc (cons step steps) = thread_steps (thread_step acc step) steps

unfoldable pub m_thread : Node → Node
unfolding thread_steps
m_thread (list line col (cons head (cons x steps))) = thread_steps x steps
m_thread form = form

-- a macro in C, or the address of a closure in the machine that macros run in
pub data MacroFn : Type 0 where
  c_fn : (Node → Node) → MacroFn
  closure : ℕ → MacroFn

pub record Macro : Type 0 where
  pub name : Bytes
  pub fn : MacroFn

unfoldable pub macro_env_add : Bytes → (Node → Node) → List Macro → List Macro
macro_env_add name fn env = record { name = name; fn = c_fn fn } ∷ env

unfoldable pub macro_env_add_closure : Bytes → ℕ → List Macro → List Macro
macro_env_add_closure name c env = record { name = name; fn = closure c } ∷ env

unfoldable pub macros_register_core : List Macro → List Macro
unfolding macro_env_add m_when m_cond m_thread
macros_register_core env = macro_env_add arrow m_thread (
    macro_env_add (b'c' ∷ b'o' ∷ b'n' ∷ b'd' ∷ []) m_cond
      (macro_env_add (b'w' ∷ b'h' ∷ b'e' ∷ b'n' ∷ []) m_when env))

unfoldable pub lookup : List Macro → Node → Option MacroFn
lookup [] head = none
lookup (macro ∷ env) head = if is_symbol macro.name head then some macro.fn else lookup env head

unfoldable pub list_looks_like_type : Nodes → Bool
list_looks_like_type nil = false
list_looks_like_type (cons n ns) = is_symbol arrow n || is_symbol chan n || list_looks_like_type ns
