-- ===== src/TypeCheck.antt =====
-- src/eval.c: the type checker, `typecheck_node` and `typecheck_list`.
-- The checker's environments are never shared, so one is here what lookups see from it: its bindings and
-- those of its parents, innermost first. A child begins as its parent, and is dropped at the end of
-- its form. `n->ty` is part of the result. The checker calls itself through `chk`, the checker with one
-- less fuel; the fuel bounds the depth of a form.
mod Base
mod Declarations
pub mod Result
pub mod Rules
pub mod Bodies
pub mod Blocks
pub mod Sound
pub mod Ends
pub mod Depth
pub mod Extends
unfoldable pub use Base.*
unfoldable pub use Declarations.*
use sqale.Prelude.{
  ℕ, zero, suc, ◌+◌, ◌-◌, Bool, true, false, not, ◌&&◌, Option, none, some, List, [], ◌∷◌, ◌++◌,
  Bytes, codes, c_string, if◌then◌else◌, ◌==◌, ltb, take,
}
use sqale.Ast.{Node, Nodes, list, symbol, int, float, string, bool, nil, cons, count}
use sqale.Types.{Ty, Tys, ty_eq, arity}
use sqale.Env.{EnvEntry, find}
use sqale.Forms.{
  is_sym, name_ptr, Form, defmacro, def, fn, quote, quasiquote, do_, import, let_, if_, while, set,
  vec, struct_new, defstruct, defenum, call, form_of, parse_type_node,
}

-- items one after the other, with the type of the last one, or `t` when there is none
unfoldable pub check_seq : Checker → Option Ty → Context → Nodes → Checked Typed
check_seq chk t Γ nil = accepted (t, Γ)
check_seq chk t Γ (cons n ns) = do (u, Γ₁) ← chk Γ n; check_seq chk u Γ₁ ns

abbrev pub is_error : Ty → Bool
is_error Ty.error = true
is_error _ = false

-- [def name : Type expr]
unfoldable pub check_def : Checker → Context → Nodes → Checked Typed
unfolding same_type bind
check_def chk Γ (cons name (cons colon (cons ty (cons expr rest)))) = do
  x ← known (name_ptr name)
  decl ← known (parse_type_node ty)
  good ← require (not (is_error decl)) Γ
  (u, Γ₁) ← chk (bind x (some decl) Γ) expr
  ok ← require (same_type u (some decl)) Γ₁
  accepted (unit_type, Γ₁)
check_def chk Γ _ = rejected Γ

-- the parameters of a `fn`, each [name : Type]
unfoldable pub check_params : Context → Nodes → Checked (Tys × Context)
unfolding bind
check_params Γ nil = accepted (Tys.nil, Γ)
check_params Γ (cons (list line col (cons name (cons colon (cons ty more)))) ps) = do
  x ← known (name_ptr name)
  t ← known (parse_type_node ty)
  (ts, Γ₁) ← check_params (bind x (some t) Γ) ps
  accepted (Tys.cons t ts, Γ₁)
check_params Γ (cons _ ps) = fault

-- The body of a `fn`, of which `last` is the item before: without a body that one is checked instead.
unfoldable pub check_body : Checker → Context → Node → Nodes → Checked Typed
unfolding check_seq
check_body chk Γ last nil = chk Γ last
check_body chk Γ last (cons n ns) = check_seq chk unit_type Γ (cons n ns)

-- `params`, the return type and what is before and in the body
unfoldable pub check_fn_from : Checker → Context → Nodes → Ty → Node → Nodes → Checked Typed
unfolding check_params check_body same_type
check_fn_from chk Γ params ret last body = leave Γ (do
  (ts, Γ₁) ← check_params Γ params
  (u, Γ₂) ← check_body chk Γ₁ last body
  ok ← require (same_type u (some ret)) Γ
  accepted (some (Ty.func ts ret)))

-- [fn [[name : Type] ...] : Type body...], where the return type may be missing
unfoldable pub check_fn : Checker → Context → Nodes → Checked Typed
unfolding check_fn_from
check_fn chk Γ (cons (list line col params) nil) =
    check_fn_from chk Γ params Ty.unit (list line col params) nil
check_fn chk Γ (cons (list line col params) (cons n nil)) =
    if is_sym n (codes ":")
    then fault
    else check_fn_from chk Γ params Ty.unit (list line col params) (cons n nil)
check_fn chk Γ (cons (list line col params) (cons n (cons ty body))) =
    if is_sym n (codes ":")
    then (do ret ← known (parse_type_node ty); check_fn_from chk Γ params ret ty body)
    else check_fn_from chk Γ params Ty.unit (list line col params) (cons n (cons ty body))
check_fn chk Γ _ = fault

abbrev pub declared_or : Option Ty → Option Ty → Option Ty
declared_or u none = u
declared_or u (some t) = some t

-- One binding of a `let`: the expression's type must be the declared one, when there is one.
unfoldable pub check_binding : Checker → Context → Node → Option Ty → Node → Checked Context
unfolding same_type bind
check_binding chk Γ name declared expr = do
  x ← known (name_ptr name)
  (u, Γ₁) ← chk Γ expr
  ok ← require (same_type u (declared_or u declared)) Γ₁
  accepted (bind x (declared_or u declared) Γ₁)

-- the bindings of a `let`: [name expr], [name : Type expr], or [name : Type] with the expression next to it
unfoldable pub check_bindings : Checker → Context → Nodes → Checked Context
unfolding check_binding
check_bindings chk Γ nil = accepted Γ
check_bindings chk Γ (cons (list l c (cons name (cons expr nil))) more) = do
  Γ₁ ← check_binding chk Γ name none expr
  check_bindings chk Γ₁ more
check_bindings chk Γ (cons (list l c (cons name (cons m (cons ty nil)))) nil) =
    if is_sym m (codes ":")
    then (do x ← known (name_ptr name); t ← known (parse_type_node ty); rejected Γ)
    else check_binding chk Γ name none m
check_bindings chk Γ (cons (list l c (cons name (cons m (cons ty nil)))) (cons next more)) =
    let declared : Checked Context = do
      t ← known (parse_type_node ty)
      Γ₁ ← check_binding chk Γ name (some t) next
      check_bindings chk Γ₁ more
    in let plain : Checked Context = do
      Γ₁ ← check_binding chk Γ name none m
      check_bindings chk Γ₁ (cons next more)
      in if is_sym m (codes ":") then declared else plain
check_bindings chk Γ (cons (list l c (cons name (cons m (cons ty (cons expr rest))))) more) =
    let declared : Checked Context = do
      t ← known (parse_type_node ty)
      Γ₁ ← check_binding chk Γ name (some t) expr
      check_bindings chk Γ₁ more
    in let plain : Checked Context = do
      Γ₁ ← check_binding chk Γ name none m
      check_bindings chk Γ₁ more
      in if is_sym m (codes ":") then declared else plain
check_bindings chk Γ (cons _ more) = fault

unfoldable pub check_let : Checker → Context → Nodes → Checked Typed
unfolding check_bindings check_seq
check_let chk Γ (cons (list line col bindings) body) =
    leave Γ
      (do Γ₁ ← check_bindings chk Γ bindings; (t, Γ₂) ← check_seq chk unit_type Γ₁ body; accepted t)
check_let chk Γ _ = fault

-- The condition of an `if` may have any type.
unfoldable pub check_if : Checker → Context → Nodes → Checked Typed
unfolding same_type
check_if chk Γ nil = fault
check_if chk Γ (cons test nil) = do (u, Γ₁) ← chk Γ test; fault
check_if chk Γ (cons test (cons yes_ nil)) = do (u, Γ₁) ← chk Γ test; (t, Γ₂) ← chk Γ₁ yes_; fault
check_if chk Γ (cons test (cons yes_ (cons no_ rest))) = do
  (u, Γ₁) ← chk Γ test
  (t, Γ₂) ← chk Γ₁ yes_
  (e, Γ₃) ← chk Γ₂ no_
  ok ← require (same_type t e) Γ₃
  accepted (t, Γ₃)

abbrev pub is_bool : Option Ty → Bool
is_bool (some Ty.bool) = true
is_bool _ = false

unfoldable pub check_while : Checker → Context → Nodes → Checked Typed
unfolding check_seq
check_while chk Γ nil = rejected Γ
check_while chk Γ (cons test body) = do
  (u, Γ₁) ← chk Γ test
  ok ← require (is_bool u) Γ₁
  (t, Γ₂) ← check_seq chk unit_type Γ₁ body
  accepted (unit_type, Γ₂)

-- `e->type && !ty_eq(e->type, t)` fails
abbrev pub may_hold : Option Ty → Option Ty → Bool
may_hold none t = true
may_hold (some d) t = same_type (some d) t

unfoldable pub check_set : Checker → Context → Nodes → Checked Typed
unfolding same_type find
check_set chk Γ (cons (symbol name line col) (cons expr nil)) = do
  slot ← bound_in Γ (find Γ (c_string (take 255 name)))
  (u, Γ₁) ← chk Γ expr
  ok ← require (may_hold slot.type u) Γ₁
  accepted (unit_type, Γ₁)
check_set chk Γ _ = rejected Γ

-- the arguments of a call, at equal arities
unfoldable pub check_args : Checker → Context → Tys → Nodes → Checked Context
unfolding same_type
check_args chk Γ (Tys.cons t ts) (cons n ns) = do
  (u, Γ₁) ← chk Γ n
  ok ← require (same_type (some t) u) Γ₁
  check_args chk Γ₁ ts ns
check_args chk Γ _ _ = accepted Γ

unfoldable pub check_call : Checker → Context → Node → Nodes → Checked Typed
unfolding check_args
check_call chk Γ head args = do
  (u, Γ₁) ← chk Γ head
  (ts, ret) ← func_in Γ₁ u
  ok ← require (arity ts == count args) Γ₁
  Γ₂ ← check_args chk Γ₁ ts args
  accepted (some ret, Γ₂)

-- `typecheck_list` of [head rest...]
unfoldable pub typecheck_list : Checker → Context → Form → Node → Nodes → Checked Typed
unfolding check_def check_fn check_seq check_import check_let check_if check_while check_set
    check_defstruct check_defenum check_call
typecheck_list chk Γ defmacro head rest = accepted (unit_type, Γ)
typecheck_list chk Γ def head rest = check_def chk Γ rest
typecheck_list chk Γ fn head rest = check_fn chk Γ rest
typecheck_list chk Γ quote head rest = accepted (some Ty.any, Γ)
typecheck_list chk Γ quasiquote head rest = accepted (some Ty.any, Γ)
typecheck_list chk Γ do_ head rest = check_seq chk unit_type Γ rest
typecheck_list chk Γ import head rest = check_import Γ rest
typecheck_list chk Γ let_ head rest = check_let chk Γ rest
typecheck_list chk Γ if_ head rest = check_if chk Γ rest
typecheck_list chk Γ while head rest = check_while chk Γ rest
typecheck_list chk Γ set head rest = check_set chk Γ rest
typecheck_list chk Γ vec head rest = do
  (t, Γ₁) ← check_seq chk unit_type Γ rest
  accepted (some (Ty.vec Ty.any), Γ₁)
typecheck_list chk Γ struct_new head rest = do
  (t, Γ₁) ← check_seq chk unit_type Γ rest
  accepted (some Ty.any, Γ₁)
typecheck_list chk Γ defstruct head rest = check_defstruct Γ rest
typecheck_list chk Γ defenum head rest = check_defenum Γ rest
typecheck_list chk Γ call head rest = check_call chk Γ head rest

unfoldable pub check_node : Checker → Context → Node → Checked Typed
unfolding typecheck_list find
check_node chk Γ (int z line col) = accepted (some Ty.int, Γ)
check_node chk Γ (float d line col) = accepted (some Ty.float, Γ)
check_node chk Γ (bool b line col) = accepted (some Ty.bool, Γ)
check_node chk Γ (string s line col) = accepted (some Ty.str, Γ)
check_node chk Γ (symbol name line col) = do
  slot ← bound_in Γ (find Γ (c_string name))
  accepted (slot.type, Γ)
check_node chk Γ (list line col nil) = accepted (unit_type, Γ)
check_node chk Γ (list line col (cons head rest)) = typecheck_list chk Γ (form_of head) head rest

unfoldable pub typecheck_node : ℕ → Context → Node → Checked Typed
unfolding check_node
typecheck_node zero Γ n = running
typecheck_node (suc f) Γ n = check_node (typecheck_node f) Γ n
