-- ===== src/TypeCheck/Depth.antt =====
-- src/eval.c: how much fuel the checker needs.
use sqale.Prelude.{
  ℕ, zero, suc, ◌+◌, ◌≤◌, ◌≢◌, subst, not, Option, none, some, codes, c_string, take, arith, ◌==◌,
}
use sqale.Ast.{Node, Nodes, list, symbol, int, float, string, bool, nil, cons, count}
use sqale.Types.{Ty, Tys, arity}
use sqale.Env.{find}
use sqale.Forms.{is_sym, name_ptr, Form, form_of, parse_type_node}
use sqale.TypeCheck.{
  Context, running, Checker, same_type, bind, unit_type, is_error, is_bool, may_hold, declared_or,
  check_seq, check_def, check_body, check_fn_from, check_fn, check_binding, check_bindings,
  check_let, check_if, check_while, check_set, check_defstruct, check_defenum, check_import,
  check_args, check_call, typecheck_list, check_node, typecheck_node,
}
use sqale.TypeCheck.Ends.{
  size, sizes, Ends, faults, rejects, accepts, ◌⟫◌, Ends-if, Ends-known, Ends-bound_in,
  Ends-func_in, Ends-require, Ends-leave, Ends-params, Ends-fields, Ends-variants,
}

size-pos : (n : Node) → 1 ≤ size n
unfolding size sizes
size-pos (list line col items) = omega arith
size-pos (int z line col) = omega arith
size-pos (float z line col) = omega arith
size-pos (bool z line col) = omega arith
size-pos (string z line col) = omega arith
size-pos (symbol z line col) = omega arith

not_running : {A : Type 0} → ¬ Ends {A = A} running
not_running h = elim h [ ]

module _ (chk : Checker) (d : ℕ)
    (ends : (Γ : Context) (n : Node) → size n ≤ d → Ends (chk Γ n)) where
  Ends-seq : (t : Option Ty) (Γ : Context) (ns : Nodes) → sizes ns ≤ d → Ends (check_seq chk t Γ ns)
  unfolding check_seq size sizes
  Ends-seq t Γ nil h = accepts
  Ends-seq t Γ (cons n ns) h = ends Γ n (omega arith) ⟫ λ (u, Γ₁). Ends-seq u Γ₁ ns (omega arith)

  Ends-def : (Γ : Context) (rest : Nodes) → sizes rest ≤ d → Ends (check_def chk Γ rest)
  unfolding check_def size sizes
  Ends-def Γ (cons name (cons colon (cons ty (cons e r)))) h = Ends-known (name_ptr name) ⟫ λ x.
      Ends-known (parse_type_node ty) ⟫ λ decl. Ends-require (not (is_error decl)) Γ ⟫ λ _.
      ends (bind x (some decl) Γ) e (omega arith) ⟫ λ (u, Γ₁).
      Ends-require (same_type u (some decl)) Γ₁ ⟫ λ _. accepts
  Ends-def Γ _ h = rejects

  Ends-body :
      (Γ : Context) (last : Node) (body : Nodes)
      → size last ≤ d
      → sizes body ≤ d
      → Ends (check_body chk Γ last body)
  unfolding check_body
  Ends-body Γ last nil h k = ends Γ last h
  Ends-body Γ last (cons n ns) h k = Ends-seq unit_type Γ (cons n ns) k

  Ends-fn_from :
      (Γ : Context) (params : Nodes) (ret : Ty) (last : Node) (body : Nodes)
      → size last ≤ d
      → sizes body ≤ d
      → Ends (check_fn_from chk Γ params ret last body)
  unfolding check_fn_from
  Ends-fn_from Γ params ret last body h k = Ends-leave Γ (
      Ends-params Γ params ⟫ λ (ts, Γ₁). Ends-body Γ₁ last body h k ⟫ λ (u, Γ₂).
      Ends-require (same_type u (some ret)) Γ ⟫ λ _. accepts)

  Ends-fn : (Γ : Context) (rest : Nodes) → sizes rest ≤ d → Ends (check_fn chk Γ rest)
  unfolding check_fn size sizes
  Ends-fn Γ (cons (list line col params) nil) h =
      Ends-fn_from Γ params Ty.unit (list line col params) nil (omega arith) (omega arith)
  Ends-fn Γ (cons (list line col params) (cons n nil)) h = Ends-if (is_sym n (codes ":")) faults (
      Ends-fn_from Γ params Ty.unit (list line col params) (cons n nil) (omega arith) (omega arith))
  Ends-fn Γ (cons (list line col params) (cons n (cons ty body))) h =
      Ends-if (is_sym n (codes ":"))
        (Ends-known (parse_type_node ty) ⟫ λ ret.
          Ends-fn_from Γ params ret ty body (omega arith) (omega arith))
        (Ends-fn_from Γ params Ty.unit (list line col params) (cons n (cons ty body)) (omega arith)
          (omega arith))
  Ends-fn Γ _ h = faults

  Ends-binding :
      (Γ : Context) (name : Node) (t : Option Ty) (e : Node)
      → size e ≤ d
      → Ends (check_binding chk Γ name t e)
  unfolding check_binding
  Ends-binding Γ name t e h = Ends-known (name_ptr name) ⟫ λ x.
      ends Γ e h ⟫ λ (u, Γ₁). Ends-require (same_type u (declared_or u t)) Γ₁ ⟫ λ _. accepts

  Ends-bindings : (Γ : Context) (bs : Nodes) → sizes bs ≤ d → Ends (check_bindings chk Γ bs)
  unfolding check_bindings size sizes
  Ends-bindings Γ nil h = accepts
  Ends-bindings Γ (cons (list l c (cons name (cons e nil))) more) h =
      Ends-binding Γ name none e (omega arith) ⟫ λ Γ₁. Ends-bindings Γ₁ more (omega arith)
  Ends-bindings Γ (cons (list l c (cons name (cons m (cons ty nil)))) nil) h =
      Ends-if (is_sym m (codes ":"))
        (Ends-known (name_ptr name) ⟫ λ x. Ends-known (parse_type_node ty) ⟫ λ t. rejects)
        (Ends-binding Γ name none m (omega arith))
  Ends-bindings Γ (cons (list l c (cons name (cons m (cons ty nil)))) (cons next more)) h =
      Ends-if (is_sym m (codes ":"))
        (Ends-known (parse_type_node ty) ⟫ λ t.
          Ends-binding Γ name (some t) next (omega arith) ⟫ λ Γ₁.
          Ends-bindings Γ₁ more (omega arith))
        (Ends-binding Γ name none m (omega arith) ⟫ λ Γ₁.
          Ends-bindings Γ₁ (cons next more) (omega arith))
  Ends-bindings Γ (cons (list l c (cons name (cons m (cons ty (cons e rest))))) more) h =
      Ends-if (is_sym m (codes ":"))
        (Ends-known (parse_type_node ty) ⟫ λ t.
          Ends-binding Γ name (some t) e (omega arith) ⟫ λ Γ₁. Ends-bindings Γ₁ more (omega arith))
        (Ends-binding Γ name none m (omega arith) ⟫ λ Γ₁. Ends-bindings Γ₁ more (omega arith))
  Ends-bindings Γ (cons _ more) h = faults

  Ends-let : (Γ : Context) (rest : Nodes) → sizes rest ≤ d → Ends (check_let chk Γ rest)
  unfolding check_let size sizes
  Ends-let Γ (cons (list l c bs) body) h = Ends-leave Γ (
      Ends-bindings Γ bs (omega arith) ⟫ λ Γ₁.
      Ends-seq unit_type Γ₁ body (omega arith) ⟫ λ (t, Γ₂). accepts)
  Ends-let Γ _ h = faults

  Ends-if_ : (Γ : Context) (rest : Nodes) → sizes rest ≤ d → Ends (check_if chk Γ rest)
  unfolding check_if size sizes
  Ends-if_ Γ nil h = faults
  Ends-if_ Γ (cons test nil) h = ends Γ test (omega arith) ⟫ λ _. faults
  Ends-if_ Γ (cons test (cons y nil)) h =
      ends Γ test (omega arith) ⟫ λ (u, Γ₁). ends Γ₁ y (omega arith) ⟫ λ _. faults
  Ends-if_ Γ (cons test (cons y (cons n r))) h = ends Γ test (omega arith) ⟫ λ (u, Γ₁).
      ends Γ₁ y (omega arith) ⟫ λ (t, Γ₂).
      ends Γ₂ n (omega arith) ⟫ λ (e, Γ₃). Ends-require (same_type t e) Γ₃ ⟫ λ _. accepts

  Ends-while : (Γ : Context) (rest : Nodes) → sizes rest ≤ d → Ends (check_while chk Γ rest)
  unfolding check_while size sizes
  Ends-while Γ nil h = rejects
  Ends-while Γ (cons test body) h = ends Γ test (omega arith) ⟫ λ (u, Γ₁).
      Ends-require (is_bool u) Γ₁ ⟫ λ _.
      Ends-seq unit_type Γ₁ body (omega arith) ⟫ λ (t, Γ₂). accepts

  Ends-set : (Γ : Context) (rest : Nodes) → sizes rest ≤ d → Ends (check_set chk Γ rest)
  unfolding check_set size sizes
  Ends-set Γ (cons (symbol name line col) (cons e nil)) h =
      Ends-bound_in Γ (find Γ (c_string (take 255 name))) ⟫ λ slot.
      ends Γ e (omega arith) ⟫ λ (u, Γ₁). Ends-require (may_hold slot.type u) Γ₁ ⟫ λ _. accepts
  Ends-set Γ _ h = rejects

  Ends-args : (Γ : Context) (ts : Tys) (ns : Nodes) → sizes ns ≤ d → Ends (check_args chk Γ ts ns)
  unfolding check_args size sizes
  Ends-args Γ (Tys.cons t ts) (cons n ns) h = ends Γ n (omega arith) ⟫ λ (u, Γ₁).
      Ends-require (same_type (some t) u) Γ₁ ⟫ λ _. Ends-args Γ₁ ts ns (omega arith)
  Ends-args Γ _ _ h = accepts

  Ends-call :
      (Γ : Context) (f : Node) (rest : Nodes)
      → size f + sizes rest ≤ d
      → Ends (check_call chk Γ f rest)
  unfolding check_call
  Ends-call Γ f rest h = ends Γ f (omega arith) ⟫ λ (u, Γ₁). Ends-func_in Γ₁ u ⟫ λ (ts, ret).
      Ends-require (arity ts == count rest) Γ₁ ⟫ λ _.
      Ends-args Γ₁ ts rest (omega arith) ⟫ λ Γ₂. accepts

  Ends-list :
      (Γ : Context) (f : Form) (h : Node) (rest : Nodes)
      → size h + sizes rest ≤ d
      → Ends (typecheck_list chk Γ f h rest)
  unfolding typecheck_list check_import check_defstruct check_defenum
  Ends-list Γ Form.defmacro h rest le = accepts
  Ends-list Γ Form.def h rest le = Ends-def Γ rest (omega arith)
  Ends-list Γ Form.fn h rest le = Ends-fn Γ rest (omega arith)
  Ends-list Γ Form.quote h rest le = accepts
  Ends-list Γ Form.quasiquote h rest le = accepts
  Ends-list Γ Form.do_ h rest le = Ends-seq unit_type Γ rest (omega arith)
  Ends-list Γ Form.import h (cons (string path line col) nil) le = accepts
  Ends-list Γ Form.import h _ le = rejects
  Ends-list Γ Form.let_ h rest le = Ends-let Γ rest (omega arith)
  Ends-list Γ Form.if_ h rest le = Ends-if_ Γ rest (omega arith)
  Ends-list Γ Form.while h rest le = Ends-while Γ rest (omega arith)
  Ends-list Γ Form.set h rest le = Ends-set Γ rest (omega arith)
  Ends-list Γ Form.vec h rest le = Ends-seq unit_type Γ rest (omega arith) ⟫ λ (t, Γ₁). accepts
  Ends-list Γ Form.struct_new h rest le =
      Ends-seq unit_type Γ rest (omega arith) ⟫ λ (t, Γ₁). accepts
  Ends-list Γ Form.defstruct h (cons (symbol name line col) (cons (list l c fields) rest)) le =
      Ends-fields fields ⟫ λ r. accepts
  Ends-list Γ Form.defstruct h (cons (symbol name line col) (cons _ rest)) le = faults
  Ends-list Γ Form.defstruct h _ le = rejects
  Ends-list Γ Form.defenum h (cons (symbol name line col) (cons (list l c variants) rest)) le =
      Ends-variants variants ⟫ λ r. accepts
  Ends-list Γ Form.defenum h (cons (symbol name line col) (cons _ rest)) le = faults
  Ends-list Γ Form.defenum h _ le = rejects
  Ends-list Γ Form.call h rest le = Ends-call Γ h rest le

  Ends-node : (Γ : Context) (n : Node) → size n ≤ suc d → Ends (check_node chk Γ n)
  unfolding check_node size sizes
  Ends-node Γ (int z line col) h = accepts
  Ends-node Γ (float f line col) h = accepts
  Ends-node Γ (bool b line col) h = accepts
  Ends-node Γ (string s line col) h = accepts
  Ends-node Γ (symbol name line col) h = Ends-bound_in Γ (find Γ (c_string name)) ⟫ λ slot. accepts
  Ends-node Γ (list line col nil) h = accepts
  Ends-node Γ (list line col (cons head rest)) h =
      Ends-list Γ (form_of head) head rest (omega arith)

Ends-typecheck_node : (f : ℕ) (Γ : Context) (n : Node) → size n ≤ f → Ends (typecheck_node f Γ n)
unfolding typecheck_node
Ends-typecheck_node zero Γ n h = absurd (let p : 1 ≤ size n = size-pos n in omega arith)
Ends-typecheck_node (suc f) Γ n h = Ends-node (typecheck_node f) f (Ends-typecheck_node f) Γ n h

-- A fuel of the number of nodes of the form is enough for the checker, in every environment: it never
-- runs out of it.
pub typecheck_node_ends :
    (f : ℕ) (Γ : Context) (n : Node) → size n ≤ f → typecheck_node f Γ n ≢ running
typecheck_node_ends f Γ n h e = not_running (subst Ends e (Ends-typecheck_node f Γ n h))
