-- ===== src/Gc/Sweep.antt =====
-- src/gc.c: which objects a collection keeps, and which it frees.
use sqale.Prelude.{
  ℕ, ◌+◌, ◌*◌, ◌%◌, ◌≡◌, refl, ap, ◌∙◌, sym, Bool, false, not, ◌||◌, Option, none, some, List, [],
  ◌∷◌, ◌++◌, arith, ltb, ◌==◌, if◌then◌else◌, Bool-cases, inl, inr,
}
use sqale.Gc.{
  Obj, Gc, size_t, addresses, gc_mark, mark_roots, sweep, marked_by, gc_collect, gc_alloc,
}

abbrev pub mem : ℕ → List ℕ → Bool
mem a [] = false
mem a (x ∷ xs) = a == x || mem a xs

abbrev pub keep : (ℕ → Bool) → List ℕ → List ℕ
keep f [] = []
keep f (x ∷ xs) = if f x then x ∷ keep f xs else keep f xs

-- the objects that the root callback marks
abbrev pub rooted : Option (List ℕ) → ℕ → Bool
rooted none a = false
rooted (some roots) a = mem a roots

-- Between collections no object is marked.
abbrev pub AllUnmarked : List Obj → Type 0
AllUnmarked [] = Unit
AllUnmarked (o ∷ os) = (o.marked ≡ false) × AllUnmarked os

abbrev mark_with : (ℕ → Bool) → List Obj → List Obj
mark_with f [] = []
mark_with f (o ∷ os) = record o { marked = o.marked || f o.addr } ∷ mark_with f os

gc_mark-mark_with : (a : ℕ) (os : List Obj) → gc_mark a os ≡ mark_with (λ x. x == a) os
unfolding gc_mark
gc_mark-mark_with a [] = refl
gc_mark-mark_with a (o ∷ os) = ground (arith, gc_mark-mark_with a os)

mark_with-mark_with :
    (f g : ℕ → Bool) (os : List Obj) → mark_with f (mark_with g os) ≡ mark_with (λ x. g x || f x) os
mark_with-mark_with f g [] = refl
mark_with-mark_with f g (o ∷ os) = ground (arith, mark_with-mark_with f g os)

mark_with-none : (os : List Obj) → mark_with (λ x. false) os ≡ os
mark_with-none [] = refl
mark_with-none (o ∷ os) = ground (arith, mark_with-none os)

mark_roots-mark_with :
    (roots : List ℕ) (os : List Obj) → mark_roots roots os ≡ mark_with (λ x. mem x roots) os
unfolding mark_roots
mark_roots-mark_with [] os = sym (mark_with-none os)
mark_roots-mark_with (a ∷ rest) os =
    mark_roots-mark_with rest (gc_mark a os)
    ∙ (ap (mark_with (λ x. mem x rest)) (gc_mark-mark_with a os)
        ∙ mark_with-mark_with (λ x. mem x rest) (λ x. x == a) os)

marked_by-mark_with :
    (cb : Option (List ℕ)) (os : List Obj) → marked_by cb os ≡ mark_with (rooted cb) os
unfolding marked_by
marked_by-mark_with none os = sym (mark_with-none os)
marked_by-mark_with (some roots) os = mark_roots-mark_with roots os

sweep-mark_with :
    (f : ℕ → Bool) (os : List Obj)
    → AllUnmarked os
    → (addresses (sweep (mark_with f os)).0 ≡ keep f (addresses os))
      × ((sweep (mark_with f os)).1 ≡ keep (λ a. not (f a)) (addresses os))
      × AllUnmarked (sweep (mark_with f os)).0
unfolding sweep
sweep-mark_with f [] u = (refl, refl, tt)
sweep-mark_with f (o ∷ os) u = ground (arith, sweep-mark_with f os u.1)

-- When no object is marked yet, a collection keeps exactly the objects that the root callback marks (none
-- when no callback is set), in order, frees all others, and leaves no object marked.
pub gc_collect_lem :
    (gc : Gc)
    → AllUnmarked gc.objects
    → (addresses (gc_collect gc).objects ≡ keep (rooted gc.mark_root_cb) (addresses gc.objects))
      × ((gc_collect gc).freed
          ≡ gc.freed ++ keep (λ a. not (rooted gc.mark_root_cb a)) (addresses gc.objects))
      × AllUnmarked (gc_collect gc).objects
unfolding gc_collect
gc_collect_lem gc u =
    let (k, g, a) = sweep-mark_with (rooted gc.mark_root_cb) gc.objects u in
    let e = marked_by-mark_with gc.mark_root_cb gc.objects in (rw e k, rw (e, g), rw e a)

gc_collect-next_threshold : (gc : Gc) → (gc_collect gc).next_threshold ≡ gc.next_threshold
unfolding gc_collect
gc_collect-next_threshold gc = refl

-- An allocation that stays within the threshold adds the new object and frees nothing. One that
-- passes it collects with the new object already in the heap: that one too is kept only if the root
-- callback marks it. The threshold doubles with each such collection. No object is left marked.
pub gc_alloc_lem :
    (addr sz tag : ℕ) (gc : Gc)
    → AllUnmarked gc.objects
    → let over = ltb gc.next_threshold (size_t (gc.bytes_allocated + sz)) in
      let heap = addr ∷ addresses gc.objects in
      let gc' = gc_alloc addr sz tag gc in
      (addresses gc'.objects ≡ (if over then keep (rooted gc.mark_root_cb) heap else heap))
      × (gc'.freed ≡ (
          if over then gc.freed ++ keep (λ a. not (rooted gc.mark_root_cb a)) heap else gc.freed))
      × (gc'.next_threshold ≡ (if over then size_t (gc.next_threshold * 2) else gc.next_threshold))
      × AllUnmarked gc'.objects
unfolding gc_alloc
gc_alloc_lem addr sz tag gc u =
    let gc₁ : Gc = record gc {
      objects = record { addr = addr; marked = false; tag = tag % 128 } ∷ gc.objects;
      bytes_allocated = size_t (gc.bytes_allocated + sz);
    } in
    let (k, g, a) = gc_collect_lem gc₁ (refl, u) in
    let t = gc_collect-next_threshold gc₁ in
    elim (Bool-cases (ltb gc.next_threshold (size_t (gc.bytes_allocated + sz)))) [
      | inl h ↦ (rw h k, rw h g, rw (h, t), rw h a)
      | inr h ↦ (rw h, rw h, rw h, rw h (refl, u))
    ]
