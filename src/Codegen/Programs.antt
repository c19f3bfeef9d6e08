-- ===== src/Codegen/Programs.antt =====
-- src/codegen_llvm.c: the generator ends on each program whose definitions have the shape that it reads.
use sqale.Prelude.{
  ℕ, ◌≤◌, ◌≡◌, refl, Bool, true, false, ◌&&◌, Option, none, some, Bytes, ◌∷◌, [], ◌++◌, arith,
  codes, if◌then◌else◌,
}
use sqale.Types.{Ty, Tys}
use sqale.Codegen.Tree.{Tree, Trees, list, nil, cons, type_of}
use sqale.Codegen.Chunks.{
  type_to_llvm, raw, source_filename, comma, define, param, ret_void, ret, ret_zero,
}
use sqale.Codegen.Context.{
  Cg, pure, ◌>>◌, Out, emit, cg_scope_define, outer, cg_context_new, Scopes,
}
use sqale.Codegen.Pieces.{is_sym, name_of, fname_of, is_unit}
use sqale.Codegen.Expr.{cg_seq}
use sqale.Codegen.Grows.{targets, labels, Ascending, Within}
use sqale.Codegen.Good.{Good, same, bind-Good, pure-Good, emit-Good, weaken-Good, fresh_then-Good}
use sqale.Codegen.Scoped.{cg_scope_define-Good, inner-Good}
use sqale.Codegen.Shape.{AllProper}
use sqale.Codegen.Choices.{either-Good}
use sqale.Codegen.Total.{cg_seq-Good}
use sqale.Codegen.Module.{
  CodegenOpts, named, cg_form, cg_param, cg_params, cg_function_body, cg_function, cg_functions,
  cg_return, body_of, return_type, param_types, first_type, other_types, is_last,
  register_functions, runtime_decls, stub_main, module_or, cg_program,
}

abbrev pub HasName : Tree → Type 0
HasName n = (x : Bytes) × (name_of n ≡ some x)

-- Each parameter has a name.
unfoldable pub ParamsNamed : Trees → Type 0
ParamsNamed nil = Unit {0}
ParamsNamed (cons (list ty (cons n (cons colon (cons type rest)))) more) =
    HasName n × ParamsNamed more
ParamsNamed (cons p more) = ParamsNamed more

-- A definition has a name; a function's parameters are a list, its body has proper expressions.
abbrev pub IsFunction : Tree → Type 0
IsFunction (list fty (cons fn (cons (list pty params) (cons first body)))) =
    ParamsNamed params × AllProper (cons first body)
IsFunction (list fty (cons fn (cons params (cons first body)))) = is_sym fn (codes "fn") ≡ false
IsFunction _ = Unit {0}

unfoldable pub ProperProgram : Trees → Type 0
ProperProgram nil = Unit {0}
ProperProgram
      (cons (list ty (cons def (cons name (cons colon (cons type (cons value rest)))))) more) =
    HasName name × IsFunction value × ProperProgram more
ProperProgram (cons form more) = ProperProgram more

chosen-AllProper :
    (b : Bool) (s t : Trees) → AllProper s → AllProper t → AllProper (if b then s else t)
chosen-AllProper true s t h g = h
chosen-AllProper false s t h g = g

body_of-AllProper : (body : Trees) → AllProper body → AllProper (body_of body)
unfolding AllProper
body_of-AllProper nil h = tt
body_of-AllProper (cons colon nil) h =
    chosen-AllProper (is_sym colon (codes ":")) nil (cons colon nil) tt h
body_of-AllProper (cons colon (cons type body)) h =
    chosen-AllProper (is_sym colon (codes ":")) body (cons colon (cons type body)) h.1.1 h

module _ (lo k : ℕ) (le : lo ≤ k) where
  line-Good : (view : Scopes → Scopes) (s : Bytes) → Good view lo k (emit (raw s))
  line-Good view s = emit-Good view lo k (raw s) refl refl

  named-Good :
      (n : Tree) (f : Bytes → Cg (Unit {0}))
      → HasName n
      → ((x : Bytes) → Good outer lo k (f x))
      → Good outer lo k (named n f)
  named-Good n f (x, e) h = rw (e, named) (h x)

  comma-Good : (b : Bool) → Good outer lo k (if b then pure tt else emit comma)
  comma-Good true = pure-Good outer lo k tt
  comma-Good false = emit-Good outer lo k comma refl refl

  cg_param-Good :
      (n : Tree) (ty : Option Ty) (b : Bool) → HasName n → Good outer lo k (cg_param n ty b)
  unfolding cg_param ◌>>◌
  cg_param-Good n ty b h =
      fresh_then-Good outer lo k (λ t. param (type_to_llvm ty) t) _ (λ t. refl) (λ t. refl)
        (λ t. bind-Good outer lo k _ _ (comma-Good b) (λ u.
          named-Good n (λ x. cg_scope_define x (some t) ty) h
            (λ x. cg_scope_define-Good lo k x (some t) ty)))

  cg_params-Good : (ps : Trees) (ts : Tys) → ParamsNamed ps → Good outer lo k (cg_params ps ts)
  unfolding cg_params ParamsNamed ◌>>◌
  cg_params-Good nil ts h = pure-Good outer lo k tt
  cg_params-Good (cons (list ty (cons n (cons colon (cons type rest)))) more) ts h =
      bind-Good outer lo k (cg_param n (first_type ts) (is_last more)) _
        (cg_param-Good n (first_type ts) (is_last more) h.0)
        (λ u. cg_params-Good more (other_types ts) h.1)
  cg_params-Good (cons p more) ts h = cg_params-Good more (other_types ts) h

  cg_return-Good : (ty : Option Ty) (r : Option ℕ) → Good outer lo k (cg_return ty r)
  cg_return-Good ty r =
      either-Good outer lo k (is_unit ty) (emit ret_void) _
        (λ h. emit-Good outer lo k ret_void refl refl) (returned r)
    where
      returned :
          (r : Option ℕ)
          → Good outer lo k (elim r [
            | none ↦ emit (ret_zero (type_to_llvm ty))
            | some t ↦ emit (ret (type_to_llvm ty) t)
          ])
      returned none = emit-Good outer lo k (ret_zero (type_to_llvm ty)) refl refl
      returned (some t) = emit-Good outer lo k (ret (type_to_llvm ty) t) refl refl

  cg_function_body-Good :
      (x : Bytes) (ty : Option Ty) (params body : Trees)
      → ParamsNamed params
      → AllProper body
      → Good outer lo k (cg_function_body x ty params body)
  unfolding cg_function_body ◌>>◌
  cg_function_body-Good x ty params body hp hb =
      bind-Good outer lo k (cg_params params (param_types ty)) _
        (cg_params-Good params (param_types ty) hp)
        (λ u.
          bind-Good outer lo k (emit (raw (codes ") {" ++ (10 ∷ [])))) _ (line-Good outer _) (λ u.
            bind-Good outer lo k (emit (raw (codes "entry:" ++ (10 ∷ [])))) _ (line-Good outer _)
              (λ u.
                bind-Good outer lo k (cg_scope_define x (some 0) ty) _
                  (cg_scope_define-Good lo k x (some 0) ty)
                  (λ u.
                    bind-Good outer lo k (cg_seq none (body_of body)) _
                      (weaken-Good lo k _
                        (cg_seq-Good lo k le none (body_of body) (body_of-AllProper body hb)))
                      (λ r.
                        bind-Good outer lo k (cg_return (return_type ty) r) _
                          (cg_return-Good (return_type ty) r) (λ u. line-Good outer _))))))

  cg_function-Good :
      (x : Bytes) (ty : Option Ty) (params body : Trees)
      → ParamsNamed params
      → AllProper body
      → Good outer lo k (cg_function x ty params body)
  unfolding cg_function ◌>>◌
  cg_function-Good x ty params body hp hb = weaken-Good lo k _ (
      bind-Good same lo k (emit (define (type_to_llvm (return_type ty)) (fname_of x))) _
        (emit-Good same lo k (define (type_to_llvm (return_type ty)) (fname_of x)) refl refl)
        (λ u.
          inner-Good lo k (cg_function_body x ty params body)
            (cg_function_body-Good x ty params body hp hb)))

  register_functions-Good :
      (program : Trees) → ProperProgram program → Good outer lo k (register_functions program)
  unfolding register_functions ProperProgram ◌>>◌
  register_functions-Good nil h = pure-Good outer lo k tt
  register_functions-Good
        (cons (list ty (cons def (cons name (cons colon (cons type (cons value rest)))))) more) h =
      let others = register_functions-Good more h.2 in
      either-Good outer lo k (is_sym def (codes "def")) _ (register_functions more)
        (λ e.
          bind-Good outer lo k (named name (λ x. cg_scope_define x (some 0) (type_of value))) _
            (named-Good name _ h.0 (λ x. cg_scope_define-Good lo k x (some 0) (type_of value)))
            (λ u. others))
        others
  register_functions-Good (cons form more) h = register_functions-Good more h

  cg_form-Good :
      (b : Bool) (name value : Tree)
      → HasName name
      → IsFunction value
      → Good outer lo k (cg_form b name value)
  cg_form-Good b name (list fty (cons fn (cons (list pty params) (cons first body)))) n h =
      either-Good outer lo k (b && is_sym fn (codes "fn")) _ (pure tt)
        (λ e.
          named-Good name (λ x. cg_function x fty params (cons first body)) n
            (λ x. cg_function-Good x fty params (cons first body) h.0 h.1))
        (pure-Good outer lo k tt)
  cg_form-Good b name (list fty (cons fn (cons params (cons first body)))) n h =
      either-Good outer lo k (b && is_sym fn (codes "fn")) _ (pure tt) (λ e. ground (arith, e, h))
        (pure-Good outer lo k tt)
  cg_form-Good b name value n h = pure-Good outer lo k tt

  cg_functions-Good :
      (program : Trees) → ProperProgram program → Good outer lo k (cg_functions program)
  unfolding cg_functions ProperProgram ◌>>◌
  cg_functions-Good nil h = pure-Good outer lo k tt
  cg_functions-Good
        (cons (list ty (cons def (cons name (cons colon (cons type (cons value rest)))))) more) h =
      bind-Good outer lo k (cg_form (is_sym def (codes "def")) name value) _
        (cg_form-Good (is_sym def (codes "def")) name value h.0 h.1)
        (λ u. cg_functions-Good more h.2)
  cg_functions-Good (cons form more) h = cg_functions-Good more h

  stub_main-Good : (b : Bool) → Good outer lo k (stub_main b)
  stub_main-Good true = emit-Good outer lo k _ refl refl
  stub_main-Good false = pure-Good outer lo k tt

  cg_program-Good :
      (opts : CodegenOpts) (program : Trees)
      → ProperProgram program
      → Good outer lo k (cg_program opts program)
  unfolding cg_program ◌>>◌
  cg_program-Good opts program h = bind-Good outer lo k (emit (raw _)) _ (line-Good outer _) (λ u.
      bind-Good outer lo k (emit (source_filename (module_or opts.module_name))) _
        (emit-Good outer lo k (source_filename (module_or opts.module_name)) refl refl)
        (λ u. bind-Good outer lo k (emit (raw _)) _ (line-Good outer _) (λ u.
          bind-Good outer lo k (emit (raw runtime_decls)) _ (line-Good outer _) (λ u.
            bind-Good outer lo k (register_functions program) _ (register_functions-Good program h)
              (λ u.
                bind-Good outer lo k (cg_functions program) _ (cg_functions-Good program h)
                  (λ u. stub_main-Good _))))))

-- A program whose definitions have the shape that the generator reads gets a module, in which the
-- temporaries go up from 0, so that each is assigned at most once, and every label is one that was
-- taken.
pub cg_program-once :
    (opts : CodegenOpts) (program : Trees)
    → ProperProgram program
    → (o : Out (Unit {0})) × (cg_program opts program cg_context_new ≡ some o)
      × Ascending 0 (targets o.code) o.next.tmp_id
      × Within 0 (labels o.code) o.next.label_id
unfolding cg_context_new
cg_program-once opts program h =
    let e =
      cg_program-Good 0 0 (omega arith) opts program h cg_context_new (omega arith) (omega arith) in
    (e.out, e.ends, e.grows.tmps, e.grows.labels_lem)
