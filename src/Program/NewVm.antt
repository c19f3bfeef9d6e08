-- ===== src/Program/NewVm.antt =====
-- src/eval.c: the machine that `vm_new` makes.
use sqale.Prelude.{
  ℕ, zero, suc, ◌<◌, ◌≡◌, refl, Option, none, some, List, [], ◌∷◌, get_elem?, length, arith, subst,
}
use sqale.Env.{Env, env_new}
use sqale.Env.Chains.{Older}
use sqale.Runtime.{Value}
use sqale.Machine.{Machine, done, new_env, define}
use sqale.Eval.Valid.{Good, Boxed}
use sqale.Eval.Changes.{define_Keeps}
use sqale.Eval.Names.{of_Kept}
use sqale.Builtins.{Builtin}
use sqale.Program.{global_env, empty_machine, register, vm_new}

-- the machine with the empty global environment
abbrev first_machine : Machine
first_machine = record {
  envs = record { entries = []; parent = none } ∷ [];
  cells = [];
  objects = [];
}

first_machine-Good : Good first_machine
first_machine-Good = record {
  scoped = record { parents = older };
  boxes = boxed;
  closures = λ a code e q. cc q;
}
  where
    older :
        (e : ℕ) (env : Env (Option ℕ))
        → get_elem? first_machine.envs e ≡ some env
        → Older env.parent e
    older zero env h = let q : none ≡ env.parent = cc in subst (λ p. Older p 0) q tt
    older (suc e) env h = cc h

    boxed :
        (e : ℕ) (env : Env (Option ℕ))
        → get_elem? first_machine.envs e ≡ some env
        → Boxed 0 env.entries
    boxed zero env h = let q : [] ≡ env.entries = cc in subst (Boxed 0) q tt
    boxed (suc e) env h = cc h

abbrev Ready : Machine → Type 0
Ready m = Good m × (global_env < length m.envs)

register-Ready :
    (i : ℕ) (bs : List Builtin) (m : Machine)
    → Ready m
    → (m' : Machine) × ((register i bs).run m ≡ done tt m') × Ready m'
unfolding register define
register-Ready i [] m r = (m, refl, r)
register-Ready i (b ∷ bs) m (g, lt) =
    let (g', le) = of_Kept (define_Keeps global_env b.name (Value.func i) m g lt) in
    register-Ready (suc i) bs _ (g', omega arith)

-- `vm_new`, with any table of functions, makes a machine whose global environment is there and in order.
pub vm_new-Good :
    (bs : List Builtin)
    → (m : Machine) × ((vm_new bs).run empty_machine ≡ done global_env m)
      × Good m
      × (global_env < length m.envs)
unfolding vm_new new_env env_new
vm_new-Good bs =
    let (m, q, (g, lt)) = register-Ready 0 bs first_machine (first_machine-Good, omega arith) in
    (m, rw (q) refl, g, lt)
