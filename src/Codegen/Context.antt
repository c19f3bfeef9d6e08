-- ===== src/Codegen/Context.antt =====
-- src/codegen_llvm.c and include/codegen.h: the generator's context, its scopes and its output.
-- A step takes the context and gives a result, the next context, and what it appends to the two
-- buffers, `ir_buf` and `globals_buf`; `none` is a fault, a read of a field that a node does not have.
use sqale.Prelude.{
  ℕ, suc, Bool, ◌&&◌, Option, none, some, List, [], ◌∷◌, ◌++◌, ◌==◌, Bytes, if◌then◌else◌, length,
  strncmp_eq, ◌≡◌, arith,
}
use sqale.Types.{Ty}
use sqale.Codegen.Chunks.{Chunk}

-- The value is the number of a temporary; a function's is NULL, which reads as 0.
pub record CgSymbol : Type 0 where
  pub name : Bytes
  pub value : Option ℕ
  pub type : Option Ty

-- the chain of scopes, the innermost first
abbrev pub Scopes : Type 0
Scopes = List (List CgSymbol)

pub record CgContext : Type 0 where
  pub scopes : Scopes
  pub tmp_id : ℕ
  pub str_id : ℕ
  pub label_id : ℕ

-- a string constant: its number and its bytes
pub record Const : Type 0 where
  pub id : ℕ
  pub text : Bytes

pub record Out (A : Type 0) : Type 0 where
  pub value : A
  pub next : CgContext
  pub code : List Chunk
  pub consts : List Const

abbrev pub Cg : Type 0 → Type 0
Cg A = CgContext → Option (Out A)

module _ {A B : Type 0} where
  unfoldable pub join : Option (Out A) → (A → Cg B) → Option (Out B)
  join none f = none
  join (some o) f = elim (f o.value o.next) [
    | none ↦ none
    | some p ↦ some (record p { code = o.code ++ p.code; consts = o.consts ++ p.consts })
  ]

module _ {A : Type 0} where
  unfoldable pub pure : A → Cg A
  pure a c = some (record { value = a; next = c; code = []; consts = [] })

  unfoldable pub fault : Cg A
  fault c = none

module _ {A B : Type 0} where
  infixl 5 ◌>>=◌ ◌>>◌
  unfoldable pub ◌>>=◌ : Cg A → (A → Cg B) → Cg B
  unfolding join
  ◌>>=◌ m f c = join (m c) f

  unfoldable pub ◌>>◌ : Cg A → Cg B → Cg B
  unfolding ◌>>=◌
  m >> k = m >>= λ _. k

-- `ir_append` and `ir_appendf`
unfoldable pub emit : Chunk → Cg (Unit {0})
emit x c = some (record { value = tt; next = c; code = x ∷ []; consts = [] })

unfoldable pub emit_const : Const → Cg (Unit {0})
emit_const k c = some (record { value = tt; next = c; code = []; consts = k ∷ [] })

unfoldable pub new_tmp : Cg ℕ
new_tmp c =
    some (record {
      value = c.tmp_id;
      next = record c { tmp_id = suc c.tmp_id };
      code = [];
      consts = [];
    })

unfoldable pub new_label : Cg ℕ
new_label c = some (record {
  value = c.label_id;
  next = record c { label_id = suc c.label_id };
  code = [];
  consts = [];
})

unfoldable pub new_str : Cg ℕ
new_str c =
    some (record {
      value = c.str_id;
      next = record c { str_id = suc c.str_id };
      code = [];
      consts = [];
    })

unfoldable pub cg_context_new : CgContext
cg_context_new = record { scopes = [] ∷ []; tmp_id = 0; str_id = 0; label_id = 0 }

unfoldable pub cg_scope_push : Cg (Unit {0})
cg_scope_push c =
    some (record { value = tt; next = record c { scopes = [] ∷ c.scopes }; code = []; consts = [] })

abbrev pub outer : Scopes → Scopes
outer [] = []
outer (s ∷ ss) = ss

unfoldable pub cg_scope_pop : Cg (Unit {0})
cg_scope_pop c =
    some
      (record { value = tt; next = record c { scopes = outer c.scopes }; code = []; consts = [] })

-- There is a scope from `cg_context_new` on; without one the definition would go through NULL.
abbrev pub with_symbol : CgSymbol → Scopes → Option Scopes
with_symbol sym [] = none
with_symbol sym (s ∷ ss) = some ((sym ∷ s) ∷ ss)

abbrev with_scopes : CgContext → Option Scopes → Option (Out (Unit {0}))
with_scopes c none = none
with_scopes c (some ss) =
    some (record { value = tt; next = record c { scopes = ss }; code = []; consts = [] })

unfoldable pub cg_scope_define : Bytes → Option ℕ → Option Ty → Cg (Unit {0})
cg_scope_define name value type c =
    with_scopes c (with_symbol (record { name = name; value = value; type = type }) c.scopes)

unfoldable pub sym_eq : Bytes → Bytes → Bool
sym_eq a b = length a == length b && strncmp_eq (length a) a b

unfoldable pub in_scope : List CgSymbol → Bytes → Option CgSymbol
unfolding sym_eq
in_scope [] name = none
in_scope (s ∷ ss) name = let rest = in_scope ss name in if sym_eq s.name name then some s else rest

-- a symbol of this scope, or of the outer ones
abbrev pub or_else : Option CgSymbol → Option CgSymbol → Option CgSymbol
or_else (some s) other = some s
or_else none other = other

unfoldable pub cg_scope_lookup : Scopes → Bytes → Option CgSymbol
unfolding in_scope
cg_scope_lookup [] name = none
cg_scope_lookup (s ∷ ss) name = or_else (in_scope s name) (cg_scope_lookup ss name)

unfoldable pub scopes_now : Cg Scopes
scopes_now c = some (record { value = c.scopes; next = c; code = []; consts = [] })

-- A step and the next one, from what each gives.
pub >>=_lem :
    {A B : Type 0} (m : Cg A) (f : A → Cg B) (c : CgContext) (o : Out A) (p : Out B)
    → m c ≡ some o
    → f o.value o.next ≡ some p
    → (m >>= f) c ≡ some (record p { code = o.code ++ p.code; consts = o.consts ++ p.consts })
unfolding ◌>>=◌ join
>>=_lem m f c o p h k = ground (arith, h, k)
