-- ===== src/Types.antt =====
-- src/type.c and include/type.h: the types that the checker computes with.
-- A type is a tree here, so the test of two pointers for identity with which `ty_eq` begins is left out
-- (a type equals itself). A name is never NULL.
pub mod Equality
pub mod Text
use sqale.Prelude.{
  ℕ, zero, suc, Bool, true, false, ◌&&◌, ◌||◌, Option, none, some, List, Bytes, bytes_eq, ◌==◌,
}

mutual
  pub data Ty : Type 0 where
    int float bool str unit any : Ty
    func : Tys → Ty → Ty
    chan : Ty → Ty
    vec : Ty → Ty
    map : Ty → Ty → Ty
    option : Ty → Ty
    result : Ty → Ty → Ty
    struct : Bytes → Tys → List Bytes → Ty
    enum : Bytes → List Bytes → Ty
    error : Ty

  pub data Tys : Type 0 where
    nil : Tys
    cons : Ty → Tys → Tys

-- `kind`, as the value of `enum TypeKind`
abbrev pub kind : Ty → ℕ
kind int = 0
kind float = 1
kind bool = 2
kind str = 3
kind unit = 4
kind any = 5
kind (func ps r) = 6
kind (chan t) = 7
kind (vec t) = 8
kind (map k v) = 9
kind (option t) = 10
kind (result t e) = 11
kind (struct n fs ns) = 12
kind (enum n vs) = 13
kind error = 14

abbrev pub is_any : Ty → Bool
is_any t = kind t == 5

unfoldable pub arity : Tys → ℕ
arity nil = 0
arity (cons t ts) = suc (arity ts)

unfoldable mutual
  -- The last clause is the test of the kinds with the `default` of the switch.
  pub ty_eq : Ty → Ty → Bool
  ty_eq (func ps r) (func qs s) = ty_eq r s && (arity ps == arity qs && tys_eq ps qs)
  ty_eq (chan a) (chan b) = ty_eq a b
  ty_eq (vec a) (vec b) = ty_eq a b
  ty_eq (map k v) (map l w) = ty_eq k l && ty_eq v w
  ty_eq (option a) (option b) = ty_eq a b
  ty_eq (result t e) (result u f) = ty_eq t u && ty_eq e f
  ty_eq (struct n fs ns) (struct m gs ms) = bytes_eq n m
  ty_eq (enum n vs) (enum m ws) = bytes_eq n m
  ty_eq a b = kind a == kind b || (is_any a || is_any b)

  -- the loop over the parameters, at equal arities
  pub tys_eq : Tys → Tys → Bool
  tys_eq nil qs = true
  tys_eq (cons p ps) nil = true
  tys_eq (cons p ps) (cons q qs) = ty_eq p q && tys_eq ps qs
