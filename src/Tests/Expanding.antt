-- ===== src/Tests/Expanding.antt =====
-- Macros at work.
use sqale.Prelude.{ℕ, ◌≡◌, refl, true, false, Option, none, some, [], ◌∷◌, codes}
use sqale.Prelude.Int.{pos}
use sqale.Ast.{Node, Nodes, list, symbol, int, nil, cons, push}
use sqale.Types.{ty_eq}
use sqale.Forms.{name_ptr, form_of, parse_type_node}
use sqale.Runtime.{Value}
use sqale.Machine.{Ran, running, Run, ◌>>=◌, pure, done, define}
use sqale.Eval.{Library, eval_node}
use sqale.Program.{empty_machine, vm_new, eval_form}
use sqale.Macros.{
  arrow, sym_else, do_list, if_list, m_when, m_cond, m_thread, thread_steps, thread_step,
  macros_register_core, macro_env_add, lookup, list_looks_like_type,
}
use sqale.Macros.Expand.{call_macro, macro_expand_all, expand_rec, expand_list, expand_items}
use sqale.Macros.User.{macros_collect_user, collect_forms, collect_form, macro_fn}
use sqale.Macros.Clauses.{branch, m_cond-first_true, m_when-branch}

abbrev name : ℕ → Node
name c = symbol (c ∷ []) 1 1

abbrev number : ℕ → Node
number n = int (pos n) 1 1

-- [cond [a 1] [else 2]]
abbrev clause : Node
clause = list 1 1 (cons (name b'a') (cons (number 1) nil))

abbrev other : Node
other = list 1 1 (cons (symbol sym_else 1 1) (cons (number 2) nil))

m_cond-first_true_example :
    branch (λ n. false) (m_cond (list 1 1 (cons (name b'c') (cons clause (cons other nil)))))
    ≡ cons (number 2) nil
m_cond-first_true_example = m_cond-first_true (λ n. false) 1 1 (name b'c') clause (cons other nil)

m_when-branch_example :
    branch
      (λ n. true)
      (m_when (list 1 1 (cons (name b'w') (cons (name b'a') (cons (number 1) nil)))))
    ≡ cons (number 1) nil
m_when-branch_example = m_when-branch (λ n. true) 1 1 (name b'w') (name b'a') (cons (number 1) nil)

-- [-> x f]
abbrev threaded : Nodes
threaded = cons (symbol arrow 1 1) (cons (name b'x') (cons (name b'f') nil))

-- The macro by itself makes [f x] of it.
threads : m_thread (list 1 1 threaded) ≡ list 0 0 (cons (name b'f') (cons (name b'x') nil))
unfolding m_thread thread_steps thread_step
threads = refl

-- no library functions
abbrev bare : Library
bare = record { native = λ f e args. pure Value.unit; import = λ name. pure tt }

-- A list with -> in it stays as it is, so the macro is never called.
arrow_stays :
    (macro_expand_all 7 (eval_node 9 bare) (macros_register_core []) (list 1 1 threaded)).run
      empty_machine
    ≡ done (list 1 1 threaded) empty_machine
unfolding macro_expand_all expand_rec expand_list list_looks_like_type
arrow_stays = refl

-- [do [when a 1]] is expanded inside.
abbrev when_form : Node
when_form = list 1 1 (cons (symbol (codes "when") 1 1) (cons (name b'a') (cons (number 1) nil)))

abbrev program : Node
program = list 1 1 (cons (name b'd') (cons when_form nil))

expands :
    (macro_expand_all 20 (eval_node 9 bare) (macros_register_core []) program).run empty_machine
    ≡ done
        (list 0 0 (
          cons
            (name b'd')
            (cons (if_list (name b'a') (do_list (cons (number 1) nil)) (do_list nil)) nil)))
        empty_machine
unfolding macro_expand_all expand_rec expand_list expand_items lookup macros_register_core
    macro_env_add list_looks_like_type m_when push
expands = refl

-- [when] is its own expansion, so that it is expanded for ever.
endless :
    (macro_expand_all 60
        (eval_node 9 bare)
        (macros_register_core [])
        (list 1 1 (cons (symbol (codes "when") 1 1) nil))).run
      empty_machine
    ≡ running
unfolding macro_expand_all expand_rec expand_list lookup macros_register_core macro_env_add
    list_looks_like_type m_when call_macro
endless = refl

-- [defmacro m [x] x]
abbrev defmacro_m : Node
defmacro_m = list 1 1 (
    cons (symbol (codes "defmacro") 1 1)
      (cons (name b'm') (cons (list 1 1 (cons (name b'x') nil)) (cons (name b'x') nil))))

-- [m [f 1]]
abbrev use_of_m : Node
use_of_m =
    list 1 1 (cons (name b'm') (cons (list 1 1 (cons (name b'f') (cons (number 1) nil))) nil))

-- The program with both is expanded to the `defmacro` and [f 1].
abbrev with_m : Run Node
with_m = do
  e ← vm_new []
  r ← macros_collect_user 9 bare [] [] (list 1 1 (cons defmacro_m (cons use_of_m nil)))
  macro_expand_all 9 (eval_node 9 bare) r.0 use_of_m

abbrev result_of : Ran Node → Option Node
result_of (done n m) = some n
result_of _ = none

user_macro :
    result_of (with_m.run empty_machine)
    ≡ some (list 0 0 (cons (symbol (b'f' ∷ []) 0 0) (cons (int (pos 1) 0 0) nil)))
unfolding macros_collect_user collect_forms collect_form eval_form macro_fn macro_expand_all
    eval_node form_of name_ptr define vm_new parse_type_node ty_eq push
user_macro = refl
