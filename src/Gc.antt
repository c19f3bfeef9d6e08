-- ===== src/Gc.antt =====
-- include/gc.h and src/gc.c: the mark and sweep collector.
-- An object is its address, mark and 7-bit debug tag; what lies behind the header is the owner's. `malloc`
-- is a parameter: the address of the new block. The root callback is the list of the objects that it
-- calls `gc_mark` on. Freed objects are listed, so that a use of one can be told.
pub mod Sweep
use sqale.Prelude.{
  ℕ, zero, suc, ◌+◌, ◌*◌, ◌^◌, ◌%◌, Bool, true, false, ◌||◌, Option, none, some, List, [], ◌∷◌,
  ◌++◌, ltb, ◌==◌, if◌then◌else◌,
}

pub record Obj : Type 0 where
  pub addr : ℕ
  pub marked : Bool
  pub tag : ℕ

pub record Gc : Type 0 where
  pub objects : List Obj
  pub bytes_allocated : ℕ
  pub next_threshold : ℕ
  pub mark_root_cb : Option (List ℕ)
  pub freed : List ℕ

-- `size_t` arithmetic wraps
abbrev pub size_t : ℕ → ℕ
size_t n = n % 2 ^ 64

unfoldable pub gc_init : Gc
gc_init = record {
  objects = [];
  bytes_allocated = 0;
  next_threshold = 1024 * 1024;
  mark_root_cb = none;
  freed = [];
}

unfoldable pub gc_set_root_callback : List ℕ → Gc → Gc
gc_set_root_callback roots gc = record gc { mark_root_cb = some roots }

abbrev pub addresses : List Obj → List ℕ
addresses [] = []
addresses (o ∷ os) = o.addr ∷ addresses os

-- `gc_mark` on the object at an address; an object has no children
unfoldable pub gc_mark : ℕ → List Obj → List Obj
gc_mark a [] = []
gc_mark a (o ∷ os) = (if o.addr == a then record o { marked = true } else o) ∷ gc_mark a os

-- what the callback does
unfoldable pub mark_roots : List ℕ → List Obj → List Obj
mark_roots [] os = os
mark_roots (a ∷ rest) os = mark_roots rest (gc_mark a os)

-- the list that `sweep` leaves, and the addresses that it frees
unfoldable pub sweep : List Obj → List Obj × List ℕ
sweep [] = ([], [])
sweep (o ∷ os) =
    let (kept, gone) = sweep os in
    if o.marked then (record o { marked = false } ∷ kept, gone) else (kept, o.addr ∷ gone)

unfoldable pub marked_by : Option (List ℕ) → List Obj → List Obj
unfolding mark_roots gc_mark
marked_by none os = os
marked_by (some roots) os = mark_roots roots os

unfoldable pub gc_collect : Gc → Gc
gc_collect gc =
    let (kept, gone) = sweep (marked_by gc.mark_root_cb gc.objects) in
    record gc { objects = kept; freed = gc.freed ++ gone }

-- `gc_alloc` of `sz` bytes, for which `malloc` gives the block at `addr`; the pointer returned is `addr`
unfoldable pub gc_alloc : ℕ → ℕ → ℕ → Gc → Gc
gc_alloc addr sz tag gc =
    let gc₁ : Gc = record gc {
      objects = record { addr = addr; marked = false; tag = tag % 128 } ∷ gc.objects;
      bytes_allocated = size_t (gc.bytes_allocated + sz);
    } in
    let gc₂ : Gc = gc_collect gc₁ in
    if ltb gc₁.next_threshold gc₁.bytes_allocated
    then record gc₂ { next_threshold = size_t (gc₂.next_threshold * 2) }
    else gc₁

-- every object left is freed
unfoldable pub gc_free_all : Gc → Gc
gc_free_all gc = record gc {
  objects = [];
  bytes_allocated = 0;
  next_threshold = 1024 * 1024;
  freed = gc.freed ++ addresses gc.objects;
}
