-- ===== src/Buffers/Vectors.antt =====
-- src/vec.c: a vector as the sequence of its items.
use sqale.Prelude.{
  get_elem?-beyond, ℕ, zero, suc, ◌+◌, ◌-◌, ◌^◌, ◌≤◌, ◌<◌, ◌≡◌, refl, ap, ◌∙◌, sym, true, false,
  Option, none, some, List, [], ◌∷◌, ◌++◌, map, append_assoc, arith, ltb, leb, ◌==◌, if◌then◌else◌,
  Bool-cases, inl, inr, length, get_or, get_elem?, set, replicate, length-append, length-set,
}
use sqale.Buffers.{Vec, vec_reserve, append, vec_push, vec_get, vec_set}
use sqale.Buffers.Growth.{double_until_lem}

module _ {ℓ} {A : Type ℓ} where
  -- The slots below `len` hold the items, and the others were never written.
  pub record Stores (v : Vec A) (xs : List A) : Type ℓ where
    pub len_is : v.len ≡ length xs
    pub room : v.len ≤ v.cap
    pub slots : v.data_of ≡ map some xs ++ replicate (v.cap - v.len) none

  set-length :
      (xs : List A) (n : ℕ) (x : A)
      → set (map some xs ++ replicate (suc n) none) (length xs) (some x)
        ≡ map some (xs ++ x ∷ []) ++ replicate n none
  set-length [] n x = refl
  set-length (y ∷ xs) n x = ap (◌∷◌ (some y)) (set-length xs n x)

  pub get_or-map :
      (xs : List A) (n i : ℕ)
      → i < length xs
      → get_or (map some xs ++ replicate n none) i none ≡ get_elem? xs i
  get_or-map [] n i h = absurd (omega arith)
  get_or-map (x ∷ xs) n zero h = refl
  get_or-map (x ∷ xs) n (suc i) h = get_or-map xs n i (omega arith)

  pub replicate-add :
      (m n : ℕ) → replicate (m + n) none ≡ replicate {A = Option A} m none ++ replicate n none
  replicate-add zero n = let e : 0 + n ≡ n = omega arith in ap (λ k. replicate k none) e
  replicate-add (suc m) n =
      let e : suc m + n ≡ suc (m + n) = omega arith in
      ap (λ k. replicate k none) e ∙ ap (◌∷◌ none) (replicate-add m n)

  pub append-Stores :
      (v : Vec A) (xs : List A) (x : A)
      → Stores v xs
      → v.len < v.cap
      → (v' : Vec A) × (append x v ≡ some v') × Stores v' (xs ++ x ∷ []) × (v'.cap ≡ v.cap)
  unfolding append
  append-Stores v xs x s lt =
      let t : ltb v.len v.cap ≡ true = ground arith in
      let k : v.cap - v.len ≡ suc (v.cap - (v.len + 1)) = omega arith in
      (
        record v { data_of = set v.data_of v.len (some x); len = v.len + 1 },
        rw t refl,
        record {
          len_is = omega (arith, s.len_is, length-append xs (x ∷ []));
          room = omega arith;
          slots =
              ap (λ d. set d v.len (some x)) (s.slots ∙ ap (λ n. map some xs ++ replicate n none) k)
              ∙ (ap
                    (λ n.
                      set (map some xs ++ replicate (suc (v.cap - (v.len + 1))) none) n (some x))
                    s.len_is
                  ∙ set-length xs (v.cap - (v.len + 1)) x);
        },
        refl,
      )

  reserve-Stores :
      (v : Vec A) (xs : List A) (need : ℕ)
      → Stores v xs
      → need ≤ 2 ^ 63
      → (v' : Vec A) × (vec_reserve true need v ≡ some v') × Stores v' xs × (need ≤ v'.cap)
  unfolding vec_reserve
  reserve-Stores v xs need s small = elim (Bool-cases (leb need v.cap)) [
    | inl t ↦ (v, rw t refl, s, ground arith)
    | inr t ↦
        let start = if v.cap == 0 then 8 else v.cap in
        let (r, e, le, le', b) = double_until_lem start need (ground arith) small in
        let big : v.cap ≤ r = ground arith in
        (
          record v { data_of = v.data_of ++ replicate (r - v.cap) none; cap = r },
          rw (t, e) refl,
          record {
            len_is = s.len_is;
            room = omega (arith, s.room);
            slots =
                ap (λ d. d ++ replicate (r - v.cap) none) s.slots
                ∙ (append_assoc (map some xs) (replicate (v.cap - v.len) none)
                      (replicate (r - v.cap) none)
                    ∙ ap (λ d. map some xs ++ d)
                        (sym (replicate-add (v.cap - v.len) (r - v.cap))
                          ∙ ap (λ n. replicate n none) (omega (arith, s.room))));
          },
          le,
        )
  ]

  -- As long as memory is available and the vector has fewer than 2 ^ 63 items, `vec_push` ends, writes inside
  -- the array, and puts the item behind the others.
  pub vec_push-Stores :
      (v : Vec A) (xs : List A) (x : A)
      → Stores v xs
      → length xs < 2 ^ 63
      → (v' : Vec A) × (vec_push true x v ≡ some v') × Stores v' (xs ++ x ∷ [])
  unfolding vec_push
  vec_push-Stores v xs x s lt = elim (Bool-cases (ltb v.cap (v.len + 1))) [
    | inl t ↦
        let (w, e, s', room) = reserve-Stores v xs (v.len + 1) s (omega (arith, s.len_is)) in
        let (v', e', s'', c) = append-Stores w xs x s' (omega (arith, s'.len_is, s.len_is)) in
        (v', rw (t, e) e', s'')
    | inr t ↦ let (v', e', s'', c) = append-Stores v xs x s (ground arith) in (v', rw t e', s'')
  ]

  -- `vec_get` of a vector gives the item at that index, and NULL behind the last one.
  pub vec_get-Stores :
      (v : Vec A) (xs : List A) (i : ℕ) → Stores v xs → vec_get i v ≡ get_elem? xs i
  unfolding vec_get
  vec_get-Stores v xs i s = elim (Bool-cases (ltb i v.len)) [
    | inl t ↦ rw t (
        ap (λ d. get_or d i none) s.slots
        ∙ get_or-map xs (v.cap - v.len) i (ground (arith, s.len_is)))
    | inr t ↦ rw t (sym (get_elem?-beyond xs i (ground (arith, s.len_is))))
  ]

  set-map :
      (xs : List A) (n i : ℕ) (x : A)
      → i < length xs
      → set (map some xs ++ replicate n none) i (some x) ≡ map some (set xs i x) ++ replicate n none
  set-map [] n i x h = absurd (omega arith)
  set-map (y ∷ xs) n zero x h = refl
  set-map (y ∷ xs) n (suc i) x h = ap (◌∷◌ (some y)) (set-map xs n i x (omega arith))

  -- `vec_set` replaces the item at an index of the vector.
  pub vec_set-Stores :
      (v : Vec A) (xs : List A) (i : ℕ) (x : A)
      → Stores v xs
      → i < length xs
      → Stores (vec_set i x v) (set xs i x)
  unfolding vec_set
  vec_set-Stores v xs i x s lt =
      let t : ltb i v.len ≡ true = ground (arith, s.len_is) in
      rw t (record {
        len_is = s.len_is ∙ sym (length-set xs i x);
        room = s.room;
        slots = ap (λ d. set d i (some x)) s.slots ∙ set-map xs (v.cap - v.len) i x lt;
      })

  -- A full vector whose `realloc` fails is written behind the end of its array by `vec_push`.
  pub vec_push-no_memory :
      (v : Vec A) (xs : List A) (x : A)
      → Stores v xs
      → v.len ≡ v.cap
      → length xs < 2 ^ 63
      → vec_push false x v ≡ none
  unfolding vec_push vec_reserve append
  vec_push-no_memory v xs x s full lt =
      let start = if v.cap == 0 then 8 else v.cap in
      let (r, e, le, le', b) =
        double_until_lem start (v.len + 1) (ground arith) (omega (arith, s.len_is)) in
      let t : ltb v.cap (v.len + 1) ≡ true = ground arith in
      let u : leb (v.len + 1) v.cap ≡ false = ground arith in
      let w : ltb v.len v.cap ≡ false = ground arith in rw (t, u, e, w) refl
