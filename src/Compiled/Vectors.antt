-- ===== src/Compiled/Vectors.antt =====
-- src/runtime_llvm.c: the vectors of compiled programs.
use sqale.Prelude.{
  ℕ, suc, ◌*◌, ◌^◌, ◌≤◌, ◌<◌, ◌≡◌, ◌≢◌, true, refl, ap, ◌∙◌, some, List, [], ◌∷◌, ◌++◌, length, leb,
  ltb, if◌then◌else◌, get_or, set, arith, length-append, length-set, Bool-cases, inl, inr, zero,
  ◌==◌, ltb→lt,
}
use sqale.Prelude.Int.{ℤ, pos, negsuc}
use sqale.Compiled.{SqVec, sq_vec_push, sq_vec_get, with_room, grown, item_or_0}

-- The cells are as many as the capacity, which is not 0, and the items are among them.
pub record IsVec (v : SqVec) : Type 0 where
  pub cells : length v.items ≡ v.cap
  pub some_cap : 0 < v.cap
  pub within : v.len ≤ v.cap

get_or-set :
    (xs : List ℤ) (i j : ℕ) (x d : ℤ)
    → i < length xs
    → get_or (set xs i x) j d ≡ (if i == j then x else get_or xs j d)
get_or-set [] i j x d h = absurd (omega arith)
get_or-set (y ∷ xs) zero zero x d h = refl
get_or-set (y ∷ xs) zero (suc j) x d h = ground arith
get_or-set (y ∷ xs) (suc i) zero x d h = ground arith
get_or-set (y ∷ xs) (suc i) (suc j) x d h = ground (arith, get_or-set xs i j x d)

get_or-append :
    (xs ys : List ℤ) (i : ℕ) (d : ℤ) → i < length xs → get_or (xs ++ ys) i d ≡ get_or xs i d
get_or-append [] ys i d h = absurd (omega arith)
get_or-append (x ∷ xs) ys zero d h = refl
get_or-append (x ∷ xs) ys (suc i) d h = get_or-append xs ys i d (omega arith)

room :
    (fresh : List ℤ) (v : SqVec)
    → IsVec v
    → v.cap < 2 ^ 30
    → length fresh ≡ v.cap
    → (w : SqVec) × (with_room fresh v ≡ some w)
      × IsVec w
      × (w.len < w.cap)
      × (w.len ≡ v.len)
      × ((i : ℕ) → i < v.len → get_or w.items i (pos 0) ≡ get_or v.items i (pos 0))
unfolding with_room
room fresh v h small f = elim (Bool-cases (leb v.cap v.len)) [
  | inl e ↦ (
    grown fresh v,
    let fits : ltb (v.cap * 2) (2 ^ 31) ≡ true = ground (arith, small) in rw (e, fits) refl,
    record {
      cells = omega (arith, length-append v.items fresh, h.cells, f);
      some_cap = omega (arith, h.some_cap);
      within = omega (arith, h.within);
    },
    omega (arith, h.some_cap, h.within),
    refl,
    λ i lt. get_or-append v.items fresh i (pos 0) (omega (arith, h.cells, h.within)),
  )
  | inr e ↦ (v, rw e refl, h, ground (arith, e), refl, λ i lt. refl)
]

other_item :
    (u v : SqVec) (val idx : ℤ)
    → u.len < length u.items
    → u.len ≡ v.len
    → ((i : ℕ) → i < v.len → get_or u.items i (pos 0) ≡ get_or v.items i (pos 0))
    → idx ≢ pos v.len
    → item_or_0 (record u { items = set u.items u.len val; len = suc u.len }) idx ≡ item_or_0 v idx
other_item u v val (negsuc i) lt len old ne = refl
other_item u v val (pos i) lt len old ne =
    let apart : i ≢ v.len = λ e. ne (ap pos e) in
    elim (Bool-cases (ltb i v.len)) [
      | inl h ↦ ground (
        arith,
        h,
        apart,
        len,
        get_or-set u.items u.len i val (pos 0) lt,
        old i (ltb→lt i v.len h),
      )
      | inr h ↦ ground (arith, h, apart, len)
    ]

-- A push onto a vector whose capacity is below 2 ^ 30 ends and makes it longer by one; an index then gives the new item at the
-- old length, and at any other what it gave before, 0 out of range.
pub sq_vec_get-sq_vec_push :
    (fresh : List ℤ) (v : SqVec) (val idx : ℤ)
    → IsVec v
    → v.cap < 2 ^ 30
    → length fresh ≡ v.cap
    → (w : SqVec) × (sq_vec_push fresh v val ≡ some w)
      × IsVec w
      × (w.len ≡ suc v.len)
      × (sq_vec_get (some w) (pos v.len) ≡ val)
      × (idx ≢ pos v.len → sq_vec_get (some w) idx ≡ sq_vec_get (some v) idx)
unfolding sq_vec_push sq_vec_get
sq_vec_get-sq_vec_push fresh v val idx h small f =
    let (u, e, hu, lt, len, old) = room fresh v h small f in
    (
      record u { items = set u.items u.len val; len = suc u.len },
      rw e (ground (arith, hu.cells, lt)),
      record {
        cells = length-set u.items u.len val ∙ hu.cells;
        some_cap = hu.some_cap;
        within = omega (arith, lt);
      },
      ap suc len,
      ground (arith, len, get_or-set u.items u.len v.len val (pos 0) (omega (arith, hu.cells, lt))),
      λ ne. other_item u v val idx (omega (arith, hu.cells, lt)) len old ne,
    )
