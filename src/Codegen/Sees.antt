-- ===== src/Codegen/Sees.antt =====
-- src/eval.c: what a name is bound to in the environments of a machine, and code that leaves the older
-- environments as they are.
use sqale.Prelude.{
  ℕ, zero, suc, ◌≤◌, ◌<◌, ◌≡◌, refl, sym, ap, ◌∙◌, false, Option, none, some, [], ◌∷◌, ◌++◌, Bytes,
  bytes_eq, length, length-append, get_elem?, get_elem?-append, get_elem?-append_some, length-set,
  bytes_eq_refl, get_elem?-last, set, get_elem?-set_self, get_elem?-set_ne, arith,
}
use sqale.Env.{Env, find, env_lookup, env_new, env_set}
use sqale.Env.Chains.{lookup-suc}
use sqale.Env.Scoping.{set-found}
use sqale.Runtime.{Value}
use sqale.Machine.{Machine, done, box_of, read}
use sqale.Eval.{eval_symbol}
use sqale.Collections.Vectors.{get_elem?-in}

-- the entry of a name in one environment
abbrev own_box : Env (Option ℕ) → Bytes → Option (Option ℕ)
own_box env x = find env.entries x

-- The name has the value in the environment: in its own entries, or in an older parent.
pub data Sees (m : Machine) (x : Bytes) (v : Value) : ℕ → Type 0 where
  own :
      {e b : ℕ} (env : Env (Option ℕ))
      → get_elem? m.envs e ≡ some env
      → find env.entries x ≡ some (some b)
      → get_elem? m.cells b ≡ some v
      → Sees m x v e
  inherited :
      {e p : ℕ} (env : Env (Option ℕ))
      → get_elem? m.envs e ≡ some env
      → find env.entries x ≡ none
      → env.parent ≡ some p
      → p < e
      → Sees m x v p
      → Sees m x v e

-- The environments below `c` and all boxes stay as they are.
pub record Frame (c : ℕ) (m m' : Machine) : Type 0 where
  pub same_env : (i : ℕ) → i < c → get_elem? m'.envs i ≡ get_elem? m.envs i
  pub same_cell : (b : ℕ) (v : Value) → get_elem? m.cells b ≡ some v → get_elem? m'.cells b ≡ some v
  pub no_fewer : length m.envs ≤ length m'.envs

pub refl_Frame : (c : ℕ) (m : Machine) → Frame c m m
refl_Frame c m = record { same_env = λ i h. refl; same_cell = λ b v h. h; no_fewer = omega arith }

pub trans_Frame :
    {c d : ℕ} {m m' m'' : Machine} → c ≤ d → Frame c m m' → Frame d m' m'' → Frame c m m''
trans_Frame le f g = record {
  same_env = λ i h. g.same_env i (omega arith) ∙ f.same_env i h;
  same_cell = λ b v h. g.same_cell b v (f.same_cell b v h);
  no_fewer = omega (arith, f.no_fewer, g.no_fewer);
}

pub weaken_Frame : {c d : ℕ} {m m' : Machine} → c ≤ d → Frame d m m' → Frame c m m'
weaken_Frame le f = record {
  same_env = λ i h. f.same_env i (omega arith);
  same_cell = f.same_cell;
  no_fewer = f.no_fewer;
}

pub Sees-Frame :
    {c : ℕ} {m m' : Machine} (x : Bytes) (v : Value) (e : ℕ)
    → Frame c m m'
    → e < c
    → Sees m x v e
    → Sees m' x v e
Sees-Frame x v e f lt (Sees.own {b} env h q k) =
    Sees.own env (f.same_env e lt ∙ h) q (f.same_cell b v k)
Sees-Frame x v e f lt (Sees.inherited {p} env h q par older s) =
    Sees.inherited env (f.same_env e lt ∙ h) q par older (Sees-Frame x v p f (omega arith) s)

-- what a lookup finds
lookup-Sees :
    (f e : ℕ) (m : Machine) (x : Bytes) (v : Value)
    → Sees m x v e
    → e < f
    → (b : ℕ) × (env_lookup f (some e) x m.envs ≡ some (some (some b)))
      × (get_elem? m.cells b ≡ some v)
lookup-Sees zero e m x v s lt = absurd (omega arith)
lookup-Sees (suc f) e m x v (Sees.own {b} env h q k) lt =
    (b, lookup-suc f e x m.envs env h ∙ rw q refl, k)
lookup-Sees (suc f) e m x v (Sees.inherited {p} env h q par older s) lt =
    let (b, r, k) = lookup-Sees f p m x v s (omega arith) in
    (b, lookup-suc f e x m.envs env h ∙ rw (q, par) r, k)

pub env_in : (m : Machine) (x : Bytes) (v : Value) (e : ℕ) → Sees m x v e → e < length m.envs
env_in m x v e (Sees.own env h q k) = get_elem?-in m.envs e env h
env_in m x v e (Sees.inherited env h q par older s) = get_elem?-in m.envs e env h

box_run :
    (m : Machine) (e b : ℕ) (x : Bytes)
    → env_lookup (length m.envs) (some e) x m.envs ≡ some (some (some b))
    → (box_of e x).run m ≡ done (some b) m
unfolding box_of
box_run m e b x h = rw (box_of, h) refl

read_run :
    (m : Machine) (b : ℕ) (v : Value) → get_elem? m.cells b ≡ some v → (read b).run m ≡ done v m
unfolding read
read_run m b v h = rw (read, h) refl

pub symbol-Sees :
    (m : Machine) (x : Bytes) (v : Value) (e : ℕ)
    → Sees m x v e
    → (eval_symbol e x).run m ≡ done v m
unfolding eval_symbol
symbol-Sees m x v e s =
    let (b, q, k) = lookup-Sees (length m.envs) e m x v s (env_in m x v e s) in
    rw (box_run m e b x q, read_run m b v k) refl

-- a new child of `e`
abbrev pub with_child : ℕ → Machine → Machine
with_child e m = record m { envs = env_new (some e) m.envs }

pub child-Frame : (e : ℕ) (m : Machine) → Frame (length m.envs) m (with_child e m)
unfolding env_new
child-Frame e m = record {
  same_env = λ i h. get_elem?-append m.envs _ i h;
  same_cell = λ b v h. h;
  no_fewer = omega (arith, length-append m.envs (record { entries = []; parent = some e } ∷ []));
}

pub child-Sees :
    (m : Machine) (x : Bytes) (v : Value) (e : ℕ)
    → Sees m x v e
    → Sees (with_child e m) x v (length m.envs)
unfolding env_new find
child-Sees m x v e s =
    let lt = env_in m x v e s in
    Sees.inherited (record { entries = []; parent = some e }) (get_elem?-last m.envs _) refl refl lt
      (Sees-Frame x v e (child-Frame e m) lt s)

-- after `define` in the environment `e`
abbrev pub with_name : ℕ → Bytes → Value → Machine → Machine
with_name e x v m = record m {
  envs = env_set e x (some (length m.cells)) m.envs;
  cells = m.cells ++ v ∷ [];
}

module _ (m : Machine) (e : ℕ) (x : Bytes) (v : Value) (env : Env (Option ℕ))
    (here : get_elem? m.envs e ≡ some env) where
  abbrev with_entry : Env (Option ℕ)
  with_entry = record env {
    entries = record { name = x; value = some (length m.cells) } ∷ env.entries;
  }

  entry_envs : (with_name e x v m).envs ≡ set m.envs e with_entry
  entry_envs = set-found m.envs e x (some (length m.cells)) env here

  entry_here : get_elem? (with_name e x v m).envs e ≡ some with_entry
  entry_here =
      ap (λ envs. get_elem? envs e) entry_envs
      ∙ get_elem?-set_self m.envs e with_entry (get_elem?-in m.envs e env here)

  pub name-Frame : Frame e m (with_name e x v m)
  name-Frame = record {
    same_env = λ i h.
        ap (λ envs. get_elem? envs i) entry_envs
        ∙ get_elem?-set_ne m.envs with_entry (λ q. absurd (omega arith));
    same_cell = λ b w h. get_elem?-append_some m.cells (v ∷ []) b w h;
    no_fewer = omega (arith, ap length entry_envs ∙ length-set m.envs e with_entry);
  }

  pub name-Sees : Sees (with_name e x v m) x v e
  unfolding find
  name-Sees = Sees.own with_entry entry_here (rw (bytes_eq_refl x) refl) (get_elem?-last m.cells v)

  -- any other name keeps its value
  pub other-Sees :
      (y : Bytes) (w : Value) → bytes_eq x y ≡ false → Sees m y w e → Sees (with_name e x v m) y w e
  unfolding find
  other-Sees y w ne (Sees.own {b} env' h q k) =
      let same : env' ≡ env = cc (h, here) in
      let q' : find with_entry.entries y ≡ some (some b) =
        rw ne (sym (ap (λ t. find t.entries y) same) ∙ q) in
      Sees.own with_entry entry_here q' (get_elem?-append_some m.cells (v ∷ []) b w k)
  other-Sees y w ne (Sees.inherited {p} env' h q par older s) =
      let same : env' ≡ env = cc (h, here) in
      let q' : find with_entry.entries y ≡ none =
        rw ne (sym (ap (λ t. find t.entries y) same) ∙ q) in
      Sees.inherited with_entry entry_here q' (sym (ap (λ t. t.parent) same) ∙ par) older
        (Sees-Frame y w p name-Frame older s)
