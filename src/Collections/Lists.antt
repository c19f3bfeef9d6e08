-- ===== src/Collections/Lists.antt =====
-- src/runtime.c: lists, which are never changed.
use sqale.Prelude.{
  ℕ, ◌≡◌, refl, Option, none, some, List, [], ◌∷◌, ◌++◌, length, get_elem?, get_elem?-last,
  get_elem?-append, ◌∙◌,
}
use sqale.Runtime.{Value, list}
use sqale.Machine.{Object, val_list, Machine, done, alloc}
use sqale.Collections.{
  list_items, rt_list_cons, rt_list_head, rt_list_tail, rt_list_append, first, behind,
}
use sqale.Collections.Vectors.{get_elem?-in, object_run}

-- what a list has in a machine: a NULL is the empty list
pub data Holds (m : Machine) : Option ℕ → List Value → Type 0 where
  null : Holds m none []
  at : {a : ℕ} {vs : List Value} → get_elem? m.objects a ≡ some (val_list vs) → Holds m (some a) vs

abbrev pub with_object : Machine → Object → Machine
with_object m o = record m { objects = m.objects ++ o ∷ [] }

items-Holds :
    (m : Machine) (l : Option ℕ) (vs : List Value) → Holds m l vs → (list_items l).run m ≡ done vs m
unfolding list_items
items-Holds m none [] Holds.null = refl
items-Holds m none (v ∷ vs) h = elim h [ ]
items-Holds m (some a) vs (Holds.at h) = rw (object_run m a (val_list vs) h) refl

abbrev pub last_place : Machine → ℕ
last_place m = length m.objects

Holds-with_object :
    (m : Machine) (vs : List Value) → Holds (with_object m (val_list vs)) (some (last_place m)) vs
Holds-with_object m vs = Holds.at (get_elem?-last m.objects (val_list vs))

cons_run :
    (m : Machine) (l : Option ℕ) (vs : List Value) (v : Value)
    → Holds m l vs
    → (rt_list_cons (v ∷ list l ∷ [])).run m
      ≡ done (list (some (last_place m))) (with_object m (val_list (v ∷ vs)))
unfolding rt_list_cons alloc
cons_run m l vs v h = rw (items-Holds m l vs h) refl

head_run :
    (m : Machine) (l : Option ℕ) (vs : List Value)
    → Holds m l vs
    → (rt_list_head (list l ∷ [])).run m ≡ done (first vs) m
unfolding rt_list_head
head_run m l vs h = rw (items-Holds m l vs h) refl

tail_run :
    (m : Machine) (a : ℕ) (vs : List Value)
    → Holds m (some a) vs
    → (rt_list_tail (list (some a) ∷ [])).run m
      ≡ done (list (some (last_place m))) (with_object m (val_list (behind vs)))
unfolding rt_list_tail alloc
tail_run m a vs h = rw (items-Holds m (some a) vs h) refl

append_run :
    (m : Machine) (l r : Option ℕ) (vs ws : List Value)
    → Holds m l vs
    → Holds m r ws
    → (rt_list_append (list l ∷ list r ∷ [])).run m
      ≡ done (list (some (last_place m))) (with_object m (val_list (vs ++ ws)))
unfolding rt_list_append alloc
append_run m l r vs ws h k = rw (items-Holds m l vs h, items-Holds m r ws k) refl

-- what a list has, it has behind every allocation
keeps :
    (m : Machine) (o : Object) (l : Option ℕ) (vs : List Value)
    → Holds m l vs
    → Holds (with_object m o) l vs
keeps m o none [] h = Holds.null
keeps m o none (v ∷ vs) h = elim h [ ]
keeps m o (some a) vs (Holds.at h) =
    Holds.at (get_elem?-append m.objects (o ∷ []) a (get_elem?-in m.objects a (val_list vs) h) ∙ h)

-- A value put in front of a list, which may be NULL, is its head, and what is behind it are the items of the list:
-- in a new list, while the old list keeps its items.
pub rt_list_head-rt_list_cons :
    (m : Machine) (l : Option ℕ) (vs : List Value) (v : Value)
    → Holds m l vs
    → (m₁ : Machine) × (m₂ : Machine) × (k : Option ℕ) × (t : Option ℕ) × ((rt_list_cons
            (v ∷ list l ∷ [])).run
          m
        ≡ done (list k) m₁)
      × ((rt_list_head (list k ∷ [])).run m₁ ≡ done v m₁)
      × ((rt_list_tail (list k ∷ [])).run m₁ ≡ done (list t) m₂)
      × Holds m₂ t vs
      × Holds m₂ l vs
rt_list_head-rt_list_cons m l vs v h =
    let m₁ : Machine = with_object m (val_list (v ∷ vs)) in
    let k = Holds-with_object m (v ∷ vs) in
    (
      m₁,
      with_object m₁ (val_list vs),
      some (last_place m),
      some (last_place m₁),
      cons_run m l vs v h,
      head_run m₁ (some (last_place m)) (v ∷ vs) k,
      tail_run m₁ (last_place m) (v ∷ vs) k,
      Holds-with_object m₁ vs,
      keeps m₁ (val_list vs) l vs (keeps m (val_list (v ∷ vs)) l vs h),
    )
