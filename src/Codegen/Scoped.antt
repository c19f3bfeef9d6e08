-- ===== src/Codegen/Scoped.antt =====
-- src/codegen_llvm.c: `cg_scope_define`, and a `let` with its scope.
use sqale.Prelude.{
  ℕ, ◌<◌, ◌≡◌, refl, ap, sym, append-nil, Option, some, List, Bytes, [], ◌∷◌, ◌++◌, arith, length,
}
use sqale.Types.{Ty}
use sqale.Codegen.Tree.{Tree, type_of}
use sqale.Codegen.Context.{
  Scopes, Cg, CgContext, CgSymbol, Out, pure, ◌>>=◌, ◌>>◌, >>=_lem, join, cg_scope_push,
  cg_scope_pop, cg_scope_define, outer,
}
use sqale.Codegen.Pieces.{name_of, cg_define, cg_scoped, cg_defined}
use sqale.Codegen.Grows.{Grows-append, Ascending, Within, targets, labels}
use sqale.Codegen.Good.{Good, same, bind-Good}

pub nonempty :
    (ss : Scopes) → 0 < length ss → (s : List CgSymbol) × (rest : Scopes) × (ss ≡ s ∷ rest)
nonempty [] h = absurd (omega arith)
nonempty (s ∷ rest) h = (s, rest, refl)

-- The definition ends, in the innermost scope.
pub cg_scope_define_lem :
    (name : Bytes) (v : Option ℕ) (ty : Option Ty) (c : CgContext) (s : List CgSymbol)
    (rest : Scopes)
    → c.scopes ≡ s ∷ rest
    → cg_scope_define name v ty c
      ≡ some (record {
        value = tt;
        next = record c { scopes = (record { name = name; value = v; type = ty } ∷ s) ∷ rest };
        code = [];
        consts = [];
      })
unfolding cg_scope_define
cg_scope_define_lem name v ty c s rest e = ground (arith, e)

pub cg_scope_define-Good :
    (lo k : ℕ) (name : Bytes) (v : Option ℕ) (ty : Option Ty)
    → Good outer lo k (cg_scope_define name v ty)
unfolding Ascending Within targets labels
cg_scope_define-Good lo k name v ty c d l =
    let (s, rest, e) = nonempty c.scopes d in
    record {
      out = record {
        value = tt;
        next = record c { scopes = (record { name = name; value = v; type = ty } ∷ s) ∷ rest };
        code = [];
        consts = [];
      };
      ends = cg_scope_define_lem name v ty c s rest e;
      grows = record {
        tmps = omega arith;
        labels_lem = tt;
        label_le = omega arith;
        depth = ground (arith, e);
        scopes = ap outer (sym e);
      };
    }

-- A binding whose name is a name ends.
pub cg_defined-Good :
    (lo k : ℕ) (name expr : Tree) (x : Bytes) (code : Cg (Option ℕ))
    → name_of name ≡ some x
    → Good outer lo k code
    → Good outer lo k (cg_defined name expr code)
unfolding cg_defined cg_define
cg_defined-Good lo k name expr x code e h =
    bind-Good outer lo k code _ h
      (λ v. rw (e, cg_define) (cg_scope_define-Good lo k x v (type_of expr)))

-- What a `let` gives, from what its bindings and its body give.
pub cg_scoped_lem :
    (bindings : Cg (Unit {0})) (body : Cg (Option ℕ)) (c : CgContext) (o : Out (Unit {0}))
    (p : Out (Option ℕ))
    → bindings (record c { scopes = [] ∷ c.scopes }) ≡ some o
    → body o.next ≡ some p
    → cg_scoped bindings body c
      ≡ some (record {
        value = p.value;
        next = record p.next { scopes = outer p.next.scopes };
        code = o.code ++ p.code;
        consts = o.consts ++ p.consts;
      })
unfolding cg_scoped ◌>>◌ cg_scope_push cg_scope_pop pure ◌>>=◌ join
cg_scoped_lem bindings body c o p h k =
    let rest = λ (v : Option ℕ). cg_scope_pop >> pure v in
    let end : Out (Option ℕ) = record {
      value = p.value;
      next = record p.next { scopes = outer p.next.scopes };
      code = [];
      consts = [];
    } in
    let tail =
      rw (append-nil p.code, append-nil p.consts) at (>>=_lem body rest o.next p end k refl) in
    >>=_lem cg_scope_push (λ u. bindings >>= λ u. body >>= rest) c
      (record { value = tt; next = record c { scopes = [] ∷ c.scopes }; code = []; consts = [] })
      (record end { code = o.code ++ p.code; consts = o.consts ++ p.consts }) refl
      (>>=_lem bindings (λ u. body >>= rest) (record c { scopes = [] ∷ c.scopes }) o
        (record end { code = p.code; consts = p.consts }) h tail)

-- The scope of a `let` is gone at its end.
pub cg_scoped-Good :
    (lo k : ℕ) (bindings : Cg (Unit {0})) (body : Cg (Option ℕ))
    → Good outer lo k bindings
    → Good outer lo k body
    → Good same lo k (cg_scoped bindings body)
cg_scoped-Good lo k bindings body hb hv c d l =
    let p = hb (record c { scopes = [] ∷ c.scopes }) (omega arith) l in
    let q = hv p.out.next (omega (arith, p.grows.depth)) (omega (arith, p.grows.label_le)) in
    let g = Grows-append p.grows q.grows in
    record {
      out = record {
        value = q.out.value;
        next = record q.out.next { scopes = outer q.out.next.scopes };
        code = p.out.code ++ q.out.code;
        consts = p.out.consts ++ q.out.consts;
      };
      ends = cg_scoped_lem bindings body c p.out q.out p.ends q.ends;
      grows = record {
        tmps = g.tmps;
        labels_lem = g.labels_lem;
        label_le = g.label_le;
        depth = ap length g.scopes;
        scopes = g.scopes;
      };
    }

-- A step in a scope of its own leaves the scopes as they were.
pub inner-Good :
    (lo k : ℕ) (m : Cg (Unit {0}))
    → Good outer lo k m
    → Good same lo k (cg_scope_push >> (m >> cg_scope_pop))
unfolding ◌>>◌ cg_scope_push cg_scope_pop
inner-Good lo k m h c d l =
    let c' = record c { scopes = [] ∷ c.scopes } in
    let p = h c' (omega arith) l in
    let end : Out (Unit {0}) = record {
      value = tt;
      next = record p.out.next { scopes = outer p.out.next.scopes };
      code = [];
      consts = [];
    } in
    let tail =
      rw (append-nil p.out.code, append-nil p.out.consts) at
        (>>=_lem m (λ u. cg_scope_pop) c' p.out end p.ends refl) in
    record {
      out = record end { code = p.out.code; consts = p.out.consts };
      ends =
          >>=_lem cg_scope_push (λ u. m >>= λ u. cg_scope_pop) c
            (record { value = tt; next = c'; code = []; consts = [] })
            (record end { code = p.out.code; consts = p.out.consts }) refl tail;
      grows = record {
        tmps = p.grows.tmps;
        labels_lem = p.grows.labels_lem;
        label_le = p.grows.label_le;
        depth = ap length p.grows.scopes;
        scopes = p.grows.scopes;
      };
    }
