-- ===== src/Types/Equality.antt =====
-- src/type.c: the relation behind `ty_eq`.
use sqale.Prelude.{
  Bool-cases, ◌∙◌, ℕ, suc, ◌≡◌, refl, Bool, true, ◌&&◌, ◌||◌, Bytes, bytes_eq_refl, bytes_eq→eq,
  arith, ◌==◌, List, sym, inl, inr, ◌↔◌,
}
use sqale.Types.{Ty, Tys, kind, arity, ty_eq, tys_eq}

-- The types that hold no others.
abbrev IsBase : Ty → Type 0
IsBase Ty.int = Unit
IsBase Ty.float = Unit
IsBase Ty.bool = Unit
IsBase Ty.str = Unit
IsBase Ty.unit = Unit
IsBase Ty.error = Unit
IsBase _ = ⊥

-- Two types agree up to Any, part by part; structs and enums by their names.
mutual
  pub data Consistent : Ty → Ty → Type 0 where
    any_left : {t : Ty} → Consistent Ty.any t
    any_right : {t : Ty} → Consistent t Ty.any
    base : {t : Ty} → IsBase t → Consistent t t
    func :
        {ps qs : Tys} {r s : Ty}
        → Consistent r s
        → ConsistentAll ps qs
        → Consistent (Ty.func ps r) (Ty.func qs s)
    chan : {a b : Ty} → Consistent a b → Consistent (Ty.chan a) (Ty.chan b)
    vec : {a b : Ty} → Consistent a b → Consistent (Ty.vec a) (Ty.vec b)
    map : {k l v w : Ty} → Consistent k l → Consistent v w → Consistent (Ty.map k v) (Ty.map l w)
    option : {a b : Ty} → Consistent a b → Consistent (Ty.option a) (Ty.option b)
    result :
        {t u e f : Ty}
        → Consistent t u
        → Consistent e f
        → Consistent (Ty.result t e) (Ty.result u f)
    struct :
        {n m : Bytes} {fs gs : Tys} {ns ms : List Bytes}
        → n ≡ m
        → Consistent (Ty.struct n fs ns) (Ty.struct m gs ms)
    enum : {n m : Bytes} {vs ws : List Bytes} → n ≡ m → Consistent (Ty.enum n vs) (Ty.enum m ws)

  pub data ConsistentAll : Tys → Tys → Type 0 where
    nil : ConsistentAll Tys.nil Tys.nil
    cons :
        {p q : Ty} {ps qs : Tys}
        → Consistent p q
        → ConsistentAll ps qs
        → ConsistentAll (Tys.cons p ps) (Tys.cons q qs)

and_left : (a b : Bool) → (a && b) ≡ true → a ≡ true
and_left a b h = ground arith

and_right : (a b : Bool) → (a && b) ≡ true → b ≡ true
and_right a b h = ground arith

same_arity_tail :
    (m n : ℕ) (b c : Bool) → (suc m == suc n && (b && c)) ≡ true → (m == n && c) ≡ true
same_arity_tail m n b c h = ground arith

same_arity_head : (m n : ℕ) (b c : Bool) → (suc m == suc n && (b && c)) ≡ true → b ≡ true
same_arity_head m n b c h = ground arith

mutual
  unfolding ty_eq arity

  ty_eq_yes : (a b : Ty) → ty_eq a b ≡ true → Consistent a b
  ty_eq_yes Ty.any b h = any_left
  ty_eq_yes (Ty.func ps r) (Ty.func qs s) h =
      func (ty_eq_yes r s (and_left (ty_eq r s) _ h)) (tys_eq_yes ps qs (and_right (ty_eq r s) _ h))
  ty_eq_yes (Ty.chan a) (Ty.chan b) h = chan (ty_eq_yes a b h)
  ty_eq_yes (Ty.vec a) (Ty.vec b) h = vec (ty_eq_yes a b h)
  ty_eq_yes (Ty.map k v) (Ty.map l w) h =
      map (ty_eq_yes k l (and_left _ _ h)) (ty_eq_yes v w (and_right (ty_eq k l) _ h))
  ty_eq_yes (Ty.option a) (Ty.option b) h = option (ty_eq_yes a b h)
  ty_eq_yes (Ty.result t e) (Ty.result u f) h =
      result (ty_eq_yes t u (and_left _ _ h)) (ty_eq_yes e f (and_right (ty_eq t u) _ h))
  ty_eq_yes (Ty.struct n fs ns) (Ty.struct m gs ms) h = struct (bytes_eq→eq n m h)
  ty_eq_yes (Ty.enum n vs) (Ty.enum m ws) h = enum (bytes_eq→eq n m h)
  ty_eq_yes Ty.int Ty.int h = base tt
  ty_eq_yes Ty.float Ty.float h = base tt
  ty_eq_yes Ty.bool Ty.bool h = base tt
  ty_eq_yes Ty.str Ty.str h = base tt
  ty_eq_yes Ty.unit Ty.unit h = base tt
  ty_eq_yes Ty.error Ty.error h = base tt
  ty_eq_yes a Ty.any h = any_right
  ty_eq_yes _ _ h = cc

  tys_eq_yes : (ps qs : Tys) → (arity ps == arity qs && tys_eq ps qs) ≡ true → ConsistentAll ps qs
  tys_eq_yes Tys.nil Tys.nil h = nil
  tys_eq_yes (Tys.cons p ps) Tys.nil h = absurd (ground arith)
  tys_eq_yes Tys.nil (Tys.cons q qs) h = absurd (ground arith)
  tys_eq_yes (Tys.cons p ps) (Tys.cons q qs) h =
      cons (ty_eq_yes p q (same_arity_head (arity ps) (arity qs) (ty_eq p q) _ h))
        (tys_eq_yes ps qs (same_arity_tail (arity ps) (arity qs) (ty_eq p q) _ h))

ty_eq-any : (a : Ty) → ty_eq a Ty.any ≡ true
unfolding ty_eq
ty_eq-any Ty.any = refl
ty_eq-any _ = refl

ty_eq_base : (a : Ty) → IsBase a → ty_eq a a ≡ true
unfolding ty_eq
ty_eq_base Ty.int h = refl
ty_eq_base Ty.float h = refl
ty_eq_base Ty.bool h = refl
ty_eq_base Ty.str h = refl
ty_eq_base Ty.unit h = refl
ty_eq_base Ty.error h = refl
ty_eq_base _ h = absurd h

or_true : (b : Bool) → (b || true) ≡ true
or_true b = ground arith

same_arity_cons :
    (m n : ℕ) (b c : Bool) → b ≡ true → (m == n && c) ≡ true → (suc m == suc n && (b && c)) ≡ true
same_arity_cons m n b c h k = ground arith

mutual
  unfolding ty_eq arity

  Consistent-ty_eq : {a b : Ty} → Consistent a b → ty_eq a b ≡ true
  Consistent-ty_eq (any_left {t}) = or_true (5 == kind t)
  Consistent-ty_eq (any_right {t}) = ty_eq-any t
  Consistent-ty_eq (base {t} h) = ty_eq_base t h
  Consistent-ty_eq (func {ps} {qs} c cs) = rw (Consistent-ty_eq c, ConsistentAll-tys_eq cs)
  Consistent-ty_eq (chan c) = Consistent-ty_eq c
  Consistent-ty_eq (vec c) = Consistent-ty_eq c
  Consistent-ty_eq (map c d) = rw (Consistent-ty_eq c, Consistent-ty_eq d)
  Consistent-ty_eq (option c) = Consistent-ty_eq c
  Consistent-ty_eq (result c d) = rw (Consistent-ty_eq c, Consistent-ty_eq d)
  Consistent-ty_eq (struct {n} {m} e) = rw e (bytes_eq_refl m)
  Consistent-ty_eq (enum {n} {m} e) = rw e (bytes_eq_refl m)

  ConsistentAll-tys_eq :
      {ps qs : Tys} → ConsistentAll ps qs → (arity ps == arity qs && tys_eq ps qs) ≡ true
  ConsistentAll-tys_eq nil = refl
  ConsistentAll-tys_eq (cons {p} {q} {ps} {qs} c cs) =
      same_arity_cons (arity ps) (arity qs) (ty_eq p q) _ (Consistent-ty_eq c)
        (ConsistentAll-tys_eq cs)

-- `ty_eq` answers yes exactly when the two types agree up to Any: base types and Any by kind,
-- functions by return type, number of parameters and each parameter, containers by what they hold,
-- structs and enums by their names alone.
pub ty_eq_decides : (a b : Ty) → (ty_eq a b ≡ true) ↔ Consistent a b
ty_eq_decides a b = (ty_eq_yes a b, Consistent-ty_eq)

mutual
  Consistent-refl : (a : Ty) → Consistent a a
  Consistent-refl Ty.any = any_left
  Consistent-refl (Ty.func ps r) = func (Consistent-refl r) (ConsistentAll-refl ps)
  Consistent-refl (Ty.chan a) = chan (Consistent-refl a)
  Consistent-refl (Ty.vec a) = vec (Consistent-refl a)
  Consistent-refl (Ty.map k v) = map (Consistent-refl k) (Consistent-refl v)
  Consistent-refl (Ty.option a) = option (Consistent-refl a)
  Consistent-refl (Ty.result t e) = result (Consistent-refl t) (Consistent-refl e)
  Consistent-refl (Ty.struct n fs ns) = struct refl
  Consistent-refl (Ty.enum n vs) = enum refl
  Consistent-refl Ty.int = base tt
  Consistent-refl Ty.float = base tt
  Consistent-refl Ty.bool = base tt
  Consistent-refl Ty.str = base tt
  Consistent-refl Ty.unit = base tt
  Consistent-refl Ty.error = base tt

  ConsistentAll-refl : (ps : Tys) → ConsistentAll ps ps
  ConsistentAll-refl Tys.nil = nil
  ConsistentAll-refl (Tys.cons p ps) = cons (Consistent-refl p) (ConsistentAll-refl ps)

mutual
  Consistent-symm : {a b : Ty} → Consistent a b → Consistent b a
  Consistent-symm any_left = any_right
  Consistent-symm any_right = any_left
  Consistent-symm (base h) = base h
  Consistent-symm (func c cs) = func (Consistent-symm c) (ConsistentAll-symm cs)
  Consistent-symm (chan c) = chan (Consistent-symm c)
  Consistent-symm (vec c) = vec (Consistent-symm c)
  Consistent-symm (map c d) = map (Consistent-symm c) (Consistent-symm d)
  Consistent-symm (option c) = option (Consistent-symm c)
  Consistent-symm (result c d) = result (Consistent-symm c) (Consistent-symm d)
  Consistent-symm (struct e) = struct (sym e)
  Consistent-symm (enum e) = enum (sym e)

  ConsistentAll-symm : {ps qs : Tys} → ConsistentAll ps qs → ConsistentAll qs ps
  ConsistentAll-symm nil = nil
  ConsistentAll-symm (cons c cs) = cons (Consistent-symm c) (ConsistentAll-symm cs)

-- `ty_eq` is reflexive, so its test for identical pointers changes no answer, and symmetric, so the
-- checker may compare an argument with a parameter in either order.
pub ty_eq_refl_symm : (a b : Ty) → (ty_eq a a ≡ true) × (ty_eq a b ≡ ty_eq b a)
ty_eq_refl_symm a b = (
  Consistent-ty_eq (Consistent-refl a),
  elim (Bool-cases (ty_eq a b)) [
    | inl h ↦ h ∙ sym (Consistent-ty_eq (Consistent-symm (ty_eq_yes a b h)))
    | inr h ↦ elim (Bool-cases (ty_eq b a)) [
      | inl h' ↦ Consistent-ty_eq (Consistent-symm (ty_eq_yes b a h')) ∙ sym h'
      | inr h' ↦ h ∙ sym h'
    ]
  ],
)

-- Any stands between all types, so `ty_eq` is not transitive.
pub ty_eq_not_trans : ¬ ((a b c : Ty) → ty_eq a b ≡ true → ty_eq b c ≡ true → ty_eq a c ≡ true)
unfolding ty_eq
ty_eq_not_trans all = cc (all Ty.int Ty.any Ty.str refl refl)
