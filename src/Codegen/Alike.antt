-- ===== src/Codegen/Alike.antt =====
-- src/codegen_llvm.c beside src/eval.c: an expression has one value, in the evaluator and in compiled code.
use sqale.Prelude.{ℕ, ◌<◌, ◌≡◌, Bool, Option, some, arith}
use sqale.Ast
use sqale.Ast.{Node, Nodes}
use sqale.Runtime.{Value, FloatOps}
use sqale.Machine.{Machine, done}
use sqale.Eval.{Library, eval_node}
use sqale.Codegen.Tree.{Tree, Trees}
use sqale.Codegen.Means.{
  Values, Means, MeansLast, MeansBound, int_lit, bool_lit, name, binop, negation, opposite, block,
  let_in, branch, last, more, none_left, bound, bound_as,
}
use sqale.Codegen.Source.{
  node_of, nodes_of, depth, Operator, binary, not_, neg_, text_of, function_of,
}
use sqale.Codegen.Matches.{Unshadowed, UnshadowedLast, UnshadowedBound, HasOperators, Matches}
use sqale.Codegen.Evaluated.{
  Ends, EndsLast, EndsBound, int-Ends, bool-Ends, name-Ends, two-Ends, one-Ends,
}
use sqale.Codegen.Sequences.{
  none_Ends, block-Ends, branch-Ends, let-Ends, last_Ends, more_Ends, bound_Ends, bound_as_Ends,
}
use sqale.Codegen.Context.{CgContext, Out}
use sqale.Codegen.Expr.{cg_expr}
use sqale.Codegen.Llvm.{State, exec}
use sqale.Codegen.Ready.{Ready}
use sqale.Codegen.Correct.{cg_expr-exec}

module _ (fl : FloatOps) (lib : Library) (number : Operator → ℕ)
    (ops : HasOperators fl lib number) where
  some_items :
      {flat : Bool} {ρ : Values} {es : Trees} {v : Value}
      → MeansLast fl flat ρ es v
      → 0 < Ast.count (nodes_of es)
  unfolding nodes_of
  some_items (last flat ρ e v he) = unfold Ast.count in omega arith
  some_items (more flat ρ e es w v he hs) = unfold Ast.count in omega arith

  mutual
    unfolding text_of function_of Unshadowed

    expr-Ends :
        {flat : Bool} {ρ : Values} {t : Tree} {v : Value} (d : Means fl flat ρ t v)
        → Unshadowed fl d
        → Ends fl lib number ops ρ t v
    expr-Ends (int_lit flat ρ ty i _) u = int-Ends fl lib number ops ρ ty i
    expr-Ends (bool_lit flat ρ ty b) u = bool-Ends fl lib number ops ρ ty b
    expr-Ends (name flat ρ ty x v q) u = name-Ends fl lib number ops ρ ty x v u q
    expr-Ends (binop flat ρ ty hty o a b v w r ha hb hd ho) (ua, ub) =
        two-Ends fl lib number ops ρ ty hty (binary o) a b v w r (expr-Ends ha ua) (expr-Ends hb ub)
          ho
    expr-Ends (negation flat ρ ty hty a b r ha ho) u =
        one-Ends fl lib number ops ρ ty hty not_ a (Value.bool b) r (expr-Ends ha u) ho
    expr-Ends (opposite flat ρ ty hty a i r ha nf ho) u =
        one-Ends fl lib number ops ρ ty hty neg_ a (Value.int i) r (expr-Ends ha u) ho
    expr-Ends (block flat ρ ty hty es v hs) u =
        block-Ends fl lib number ops ρ ty hty es v (last-Ends hs u)
    expr-Ends (let_in flat ρ ρ' ty hty bty bs es v hb hs) (ub, us) =
        let-Ends fl lib number ops ρ ty hty bty ρ' bs es v (some_items hs) (bound-Ends hb ub)
          (last-Ends hs us)
    expr-Ends (branch flat ρ ty hty t a b c v fe ht hx nu ot pa pb _ _ _ _ _) (ut, ux) =
        branch-Ends fl lib number ops ρ ty hty t a b c v (expr-Ends ht ut) (expr-Ends hx ux)

    last-Ends :
        {flat : Bool} {ρ : Values} {es : Trees} {v : Value} (d : MeansLast fl flat ρ es v)
        → UnshadowedLast fl d
        → EndsLast fl lib number ops ρ es v
    last-Ends (last flat ρ t v he) u = last_Ends fl lib number ops ρ t v (expr-Ends he u)
    last-Ends (more flat ρ t es w v he hs) (ue, us) =
        more_Ends fl lib number ops ρ t es w v (expr-Ends he ue) (last-Ends hs us)

    bound-Ends :
        {flat : Bool} {ρ ρ' : Values} {bs : Trees} (d : MeansBound fl flat ρ bs ρ')
        → UnshadowedBound fl d
        → EndsBound fl lib number ops ρ bs ρ'
    bound-Ends (none_left flat ρ) u = none_Ends fl lib number ops ρ
    bound-Ends (bound flat ρ ρ' ty xty x n v bs he hs) (fr, ue, us) =
        bound_Ends fl lib number ops ρ ρ' x n v bs fr (expr-Ends he ue) (bound-Ends hs us) ty xty
    bound-Ends (bound_as flat ρ ρ' ty xty cty x type n v bs he hs) (fr, ue, us) =
        bound_as_Ends fl lib number ops ρ ρ' x n v bs fr (expr-Ends he ue) (bound-Ends hs us) ty xty
          cty type

  -- An expression that `Means` gives a value has it in both: the evaluator, with any
  -- fuel above the depth, returns it in each environment that gives the names their values and the
  -- operators their functions, when no name that is bound on the way hides an operator; and the
  -- compiled code ends with it in the temporary that the generator names, when the scopes give
  -- temporaries with the values of the names.
  pub eval_node-exec :
      (flat : Bool) (ρ : Values) (t : Tree) (v : Value) (d : Means fl flat ρ t v) (f e : ℕ)
      (m : Machine) (c : CgContext) (st : State)
      → Unshadowed fl d
      → depth t < f
      → Matches fl lib number ρ m e
      → Ready ρ c st
      → ((m' : Machine) × ((eval_node f lib e (node_of t)).run m ≡ done v m'))
        × ((o : Out (Option ℕ)) × (end : State) × (r : ℕ) × (cg_expr t c ≡ some o)
            × (o.value ≡ some r)
            × (exec fl o.code st ≡ some end)
            × (end.regs r ≡ some v))
  eval_node-exec flat ρ t v d f e m c st u lt h k =
      let (m', q, fr) = expr-Ends d u f e m lt h in
      let (o, end, r, ends, value, runs, holds, keeps, scopes) =
        cg_expr-exec fl flat ρ t v c st d k in
      ((m', q), (o, end, r, ends, value, runs, holds))
