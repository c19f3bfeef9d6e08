-- ===== src/Tests/Evaluating.antt =====
-- The evaluator, whole programs and collections at work.
use sqale.Prelude.{
  zero, suc, ◌≤◌, ◌<◌, subst, length, get_elem?, ℕ, ◌≡◌, refl, Bool, true, false, Option, none,
  some, List, [], ◌∷◌, Bytes, codes, arith,
}
use sqale.Prelude.Int.{pos, ◌+ℤ◌}
use sqale.Ast.{Node, Nodes, list, symbol, int, bool, nil, cons}
use sqale.Types.{ty_eq}
use sqale.Forms.{form_of, name_ptr, parse_type_node}
use sqale.Runtime.{Value}
use sqale.Machine.{Machine, Ran, done, ◌>>=◌, pure, vector, val_list, closure_val, define}
use sqale.Eval.{Library, eval_node}
use sqale.Env.{Env, EnvEntry}
use sqale.Env.Chains.{Older}
use sqale.Buffers.{Vec}
use sqale.Builtins.{Builtin, Outside, numbers}
use sqale.Program.Keeping.{library-KeepsLibrary, numbers-AllKeep}
use sqale.Tests.Generating.{no_floats}
use sqale.Runtime.Arith.{rt_add}
use sqale.Types.{Ty, Tys}
use sqale.Eval.{eval_symbol}
use sqale.Eval.Valid.{Good, Boxed, pure_Keeps}
use sqale.Eval.Keeping.{KeepsLibrary}
use sqale.Eval.Names.{eval_node-Good}
use sqale.Program.NewVm.{vm_new-Good}
use sqale.Program.{library, eval_program, import_name, vm_new, empty_machine, global_env}
use sqale.Program.WellTyped.{RunOrRejected, eval_program_lem}
use sqale.Collections.{rt_list_cons, rt_list_head, rt_list_tail}
use sqale.Collections.Lists.{Holds, rt_list_head-rt_list_cons}

abbrev sym : Bytes → Node
sym s = symbol s 1 1

abbrev num : ℕ → Node
num n = int (pos n) 1 1

abbrev form : List Node → Nodes
form [] = nil
form (n ∷ ns) = cons n (form ns)

abbrev lst : List Node → Node
lst ns = list 1 1 (form ns)

-- no library functions
abbrev bare : Library
bare = record { native = λ f e args. pure Value.unit; import = λ name. pure tt }

abbrev one_env : Machine
one_env = record { envs = record { entries = []; parent = none } ∷ []; cells = []; objects = [] }

abbrev print_name : Builtin
print_name = record {
  name = codes "print";
  type = Ty.func (Tys.cons Ty.any Tys.nil) Ty.unit;
  code = λ args. pure Value.unit;
}

-- the functions on numbers
abbrev outside : Outside
outside = record { native = λ f args. pure Value.unit; fabs = λ d. d }

abbrev arithmetic : Library
arithmetic = library (numbers no_floats outside) (λ name. pure tt)

arithmetic-KeepsLibrary : KeepsLibrary arithmetic
arithmetic-KeepsLibrary =
    library-KeepsLibrary (numbers no_floats outside) (λ name. pure tt)
      (numbers-AllKeep no_floats outside (λ e args. pure_Keeps e Value.unit))
      (λ e name. pure_Keeps e tt)

-- an environment with +
abbrev plus_entry : EnvEntry (Option ℕ)
plus_entry = record { name = codes "+"; value = some 0 }

abbrev with_plus : Machine
with_plus = record {
  envs = record { entries = plus_entry ∷ []; parent = none } ∷ [];
  cells = Value.func 1 ∷ [];
  objects = [];
}

-- [[y]] [set! x [+ x y]] x
abbrev function : Nodes
function = form (
    lst (lst (sym (codes "y") ∷ []) ∷ [])
    ∷ lst (
        sym (codes "set!")
        ∷ sym (codes "x")
        ∷ lst (sym (codes "+") ∷ sym (codes "x") ∷ sym (codes "y") ∷ [])
        ∷ [])
    ∷ sym (codes "x")
    ∷ [])

-- [do [def x 7] [[fn [[y]] [set! x [+ x y]] x] 8]]
abbrev closure_call : Node
closure_call = lst (
    sym (codes "do")
    ∷ lst (sym (codes "def") ∷ sym (codes "x") ∷ num 7 ∷ [])
    ∷ lst (list 1 1 (cons (sym (codes "fn")) function) ∷ num 8 ∷ [])
    ∷ [])

-- The closure has set x in the environment that it was made in.
abbrev after_call : Machine
after_call = record {
  envs =
      record {
        entries = record { name = codes "x"; value = some 1 } ∷ plus_entry ∷ [];
        parent = none;
      }
      ∷ record { entries = record { name = codes "y"; value = some 2 } ∷ []; parent = some 0 }
      ∷ [];
  cells = Value.func 1 ∷ Value.int (pos 15) ∷ Value.int (pos 8) ∷ [];
  objects = closure_val function 0 ∷ [];
}

closure_call_run :
    (eval_node 6 arithmetic 0 closure_call).run with_plus ≡ done (Value.int (pos 15)) after_call
unfolding eval_node form_of name_ptr define library numbers rt_add ◌+ℤ◌
closure_call_run = refl

with_plus-Good : Good with_plus
with_plus-Good = record {
  scoped = record { parents = older };
  boxes = boxed;
  closures = λ a code e q. cc q;
}
  where
    older :
        (e : ℕ) (env : Env (Option ℕ)) → get_elem? with_plus.envs e ≡ some env → Older env.parent e
    older zero env h = let q : none ≡ env.parent = cc in subst (λ p. Older p 0) q tt
    older (suc e) env h = cc h

    boxed :
        (e : ℕ) (env : Env (Option ℕ)) → get_elem? with_plus.envs e ≡ some env → Boxed 1 env.entries
    boxed zero env h =
        let q : plus_entry ∷ [] ≡ env.entries = cc in subst (Boxed 1) q (omega arith, tt)
    boxed (suc e) env h = cc h

eval_node-Good_example :
    Good after_call
    × (1 ≤ 2)
    × ((name : Bytes) → (w : Value) × ((eval_symbol 0 name).run after_call ≡ done w after_call))
eval_node-Good_example =
    eval_node-Good arithmetic 6 0 closure_call with_plus after_call (Value.int (pos 15))
      arithmetic-KeepsLibrary with_plus-Good (omega arith) closure_call_run

vm_new-Good_example :
    (m : Machine) × ((vm_new (print_name ∷ [])).run empty_machine ≡ done global_env m)
    × Good m
    × (global_env < length m.envs)
vm_new-Good_example = vm_new-Good (print_name ∷ [])

-- a quoted list has the values of its items: [quote [x]] with x bound to 7 is a list of 7
quoted_list :
    (eval_node 6 bare 0 (
        lst (
          sym (codes "do")
          ∷ lst (sym (codes "def") ∷ sym (codes "x") ∷ num 7 ∷ [])
          ∷ lst (sym (codes "quote") ∷ lst (sym (codes "x") ∷ []) ∷ [])
          ∷ []))).run
      one_env
    ≡ done (Value.list (some 0)) (record {
      envs =
          record { entries = record { name = codes "x"; value = some 0 } ∷ []; parent = none } ∷ [];
      cells = Value.int (pos 7) ∷ [];
      objects = val_list (Value.int (pos 7) ∷ []) ∷ [];
    })
unfolding eval_node form_of name_ptr define
quoted_list = refl

-- the program [if true 1 2] [def y : Int 3] y
abbrev def_y : Node
def_y = lst (sym (codes "def") ∷ sym (codes "y") ∷ sym (codes ":") ∷ sym (codes "Int") ∷ num 3 ∷ [])

abbrev good_program : Nodes
good_program =
    form
      (lst (sym (codes "if") ∷ bool true 1 1 ∷ num 1 ∷ num 2 ∷ []) ∷ def_y ∷ sym (codes "y") ∷ [])

-- y is there twice: from the check, and with its value from the evaluation.
abbrev with_y : Machine
with_y = record {
  envs =
      record {
        entries =
            record { name = codes "y"; value = some 0 }
            ∷ record { name = codes "y"; value = none }
            ∷ [];
        parent = none;
      }
      ∷ [];
  cells = Value.int (pos 3) ∷ [];
  objects = [];
}

good_program_run :
    (eval_program 9 bare (λ name Γ. pure Γ) [] (list 1 1 good_program)).run one_env ≡ done 0 with_y
unfolding eval_program form_of ty_eq eval_node name_ptr parse_type_node
good_program_run = refl

eval_program_lem_example : RunOrRejected 9 bare [] good_program one_env with_y 0
unfolding import_name
eval_program_lem_example =
    eval_program_lem 9 bare (λ name Γ. pure Γ) [] 1 1 good_program one_env with_y 0
      (refl, (refl, (refl, tt))) good_program_run

-- In a machine with a y, a program with a `def` of y fails its check, and y has no value any more.
abbrev fails : Nodes
fails = form (
    lst (
      sym (codes "def")
      ∷ sym (codes "y")
      ∷ sym (codes ":")
      ∷ sym (codes "Int")
      ∷ bool true 1 1
      ∷ [])
    ∷ [])

abbrev hidden : Ran Value → Bool
hidden (done Value.unit m) = true
hidden _ = false

value_hidden :
    hidden (
      (eval_program 9 bare (λ name Γ. pure Γ) [] (list 1 1 fails) >>= λ code.
      eval_symbol 0 (codes "y")).run
        with_y)
    ≡ true
unfolding eval_program form_of ty_eq eval_symbol name_ptr parse_type_node
value_hidden = refl

-- a machine with the full vector of 4 and 5, and the list of 6
abbrev four_five : Vec Value
four_five = record {
  data_of = some (Value.int (pos 4)) ∷ some (Value.int (pos 5)) ∷ [];
  len = 2;
  cap = 2;
}

abbrev two_objects : Machine
two_objects = record {
  envs = [];
  cells = [];
  objects = vector four_five ∷ val_list (Value.int (pos 6) ∷ []) ∷ [];
}

rt_list_head-rt_list_cons_example :
    (m₁ : Machine) × (m₂ : Machine) × (k : Option ℕ) × (t : Option ℕ) × ((rt_list_cons
          (Value.unit ∷ Value.list (some 1) ∷ [])).run
        two_objects
      ≡ done (Value.list k) m₁)
    × ((rt_list_head (Value.list k ∷ [])).run m₁ ≡ done Value.unit m₁)
    × ((rt_list_tail (Value.list k ∷ [])).run m₁ ≡ done (Value.list t) m₂)
    × Holds m₂ t (Value.int (pos 6) ∷ [])
    × Holds m₂ (some 1) (Value.int (pos 6) ∷ [])
rt_list_head-rt_list_cons_example =
    rt_list_head-rt_list_cons two_objects (some 1) (Value.int (pos 6) ∷ []) Value.unit
      (Holds.at refl)
