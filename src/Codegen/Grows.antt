-- ===== src/Codegen/Grows.antt =====
-- src/codegen_llvm.c: what a step of the generator does to the counters and the scopes.
use sqale.Prelude.{
  ℕ, suc, ◌≤◌, ◌<◌, ◌≡◌, refl, ap, ◌∙◌, Option, none, some, List, [], ◌∷◌, ◌++◌, arith, length,
}
use sqale.Codegen.Chunks.{
  Chunk, const_int, const_float, const_bool, const_str, binary, xor_1, fneg, sub_0, then_label,
  else_label, merge_label, phi, string_concat, string_len, call, param,
}
use sqale.Codegen.Context.{Scopes, CgContext}

-- the temporary that a chunk assigns, if it assigns one
abbrev pub target : Chunk → Option ℕ
target (const_int t i) = some t
target (const_float t f) = some t
target (const_bool t b) = some t
target (const_str t n s) = some t
target (binary t i ty l r) = some t
target (xor_1 t a) = some t
target (fneg t a) = some t
target (sub_0 t a) = some t
target (phi t ty x n y e) = some t
target (string_concat t a b) = some t
target (string_len t a) = some t
target (call t ty f) = some t
target (param ty t) = some t
target _ = none

-- the number of the label that a chunk places, if it places one
abbrev pub label_number : Chunk → Option ℕ
label_number (then_label n) = some n
label_number (else_label n) = some n
label_number (merge_label n) = some n
label_number _ = none

abbrev pub maybe_cons : Option ℕ → List ℕ → List ℕ
maybe_cons none ns = ns
maybe_cons (some n) ns = n ∷ ns

-- what a sequence of chunks assigns and places, in order
unfoldable pub targets : List Chunk → List ℕ
targets [] = []
targets (x ∷ xs) = maybe_cons (target x) (targets xs)

unfoldable pub labels : List Chunk → List ℕ
labels [] = []
labels (x ∷ xs) = maybe_cons (label_number x) (labels xs)

-- the numbers go up, from `lo` on, and stay below `hi`
unfoldable pub Ascending : ℕ → List ℕ → ℕ → Type 0
Ascending lo [] hi = lo ≤ hi
Ascending lo (n ∷ ns) hi = (lo ≤ n) × Ascending (suc n) ns hi

-- the numbers lie in the range from `lo` to `hi`
unfoldable pub Within : ℕ → List ℕ → ℕ → Type 0
Within lo [] hi = Unit {0}
Within lo (n ∷ ns) hi = (lo ≤ n) × (n < hi) × Within lo ns hi

maybe_cons-append :
    (o : Option ℕ) (ns ms : List ℕ) → maybe_cons o (ns ++ ms) ≡ maybe_cons o ns ++ ms
maybe_cons-append none ns ms = refl
maybe_cons-append (some n) ns ms = refl

pub targets-append : (xs ys : List Chunk) → targets (xs ++ ys) ≡ targets xs ++ targets ys
unfolding targets
targets-append [] ys = refl
targets-append (x ∷ xs) ys =
    ap (maybe_cons (target x)) (targets-append xs ys)
    ∙ maybe_cons-append (target x) (targets xs) (targets ys)

pub labels-append : (xs ys : List Chunk) → labels (xs ++ ys) ≡ labels xs ++ labels ys
unfolding labels
labels-append [] ys = refl
labels-append (x ∷ xs) ys =
    ap (maybe_cons (label_number x)) (labels-append xs ys)
    ∙ maybe_cons-append (label_number x) (labels xs) (labels ys)

Ascending-le : (lo : ℕ) (ns : List ℕ) (hi : ℕ) → Ascending lo ns hi → lo ≤ hi
unfolding Ascending
Ascending-le lo [] hi h = h
Ascending-le lo (n ∷ ns) hi h = omega (arith, Ascending-le (suc n) ns hi h.1, h.0)

pub Ascending-lower :
    (lo lo' : ℕ) (ns : List ℕ) (hi : ℕ) → lo ≤ lo' → Ascending lo' ns hi → Ascending lo ns hi
unfolding Ascending
Ascending-lower lo lo' [] hi le h = omega arith
Ascending-lower lo lo' (n ∷ ns) hi le h = (omega (arith, h.0), h.1)

pub Ascending-append :
    (lo : ℕ) (ns : List ℕ) (mid : ℕ) (ms : List ℕ) (hi : ℕ)
    → Ascending lo ns mid
    → Ascending mid ms hi
    → Ascending lo (ns ++ ms) hi
unfolding Ascending
Ascending-append lo [] mid ms hi h k = Ascending-lower lo mid ms hi h k
Ascending-append lo (n ∷ ns) mid ms hi h k = (h.0, Ascending-append (suc n) ns mid ms hi h.1 k)

pub Within-append :
    (lo : ℕ) (ns : List ℕ) (mid : ℕ) (ms : List ℕ) (hi : ℕ)
    → Within lo ns mid
    → mid ≤ hi
    → Within lo ms hi
    → Within lo (ns ++ ms) hi
unfolding Within
Within-append lo [] mid ms hi h le k = k
Within-append lo (n ∷ ns) mid ms hi h le k =
    (h.0, omega (arith, h.1), Within-append lo ns mid ms hi h.2 le k)

-- What a step from `c` to `d` with the given code does: it assigns new temporaries, each once, it
-- places labels from `lo` on, and it leaves the scopes, seen through `view`.
pub record Grows (view : Scopes → Scopes) (lo : ℕ) (c : CgContext) (code : List Chunk)
    (d : CgContext) : Type 0 where
  pub tmps : Ascending c.tmp_id (targets code) d.tmp_id
  pub labels_lem : Within lo (labels code) d.label_id
  pub label_le : c.label_id ≤ d.label_id
  pub depth : length d.scopes ≡ length c.scopes
  pub scopes : view d.scopes ≡ view c.scopes

pub tmp-le :
    {view : Scopes → Scopes} {lo : ℕ} {c : CgContext} {code : List Chunk} {d : CgContext}
    → Grows view lo c code d
    → c.tmp_id ≤ d.tmp_id
tmp-le {c = c} {code = code} {d = d} g = Ascending-le c.tmp_id (targets code) d.tmp_id g.tmps

pub Grows-append :
    {view : Scopes → Scopes} {lo : ℕ} {c : CgContext} {xs : List Chunk} {d : CgContext}
    {ys : List Chunk} {e : CgContext}
    → Grows view lo c xs d
    → Grows view lo d ys e
    → Grows view lo c (xs ++ ys) e
Grows-append {lo = lo} {c = c} {xs = xs} {d = d} {ys = ys} {e = e} g h = record {
  tmps =
      rw targets-append
        (Ascending-append c.tmp_id (targets xs) d.tmp_id (targets ys) e.tmp_id g.tmps h.tmps);
  labels_lem = rw labels-append (
      Within-append lo (labels xs) d.label_id (labels ys) e.label_id g.labels_lem h.label_le
        h.labels_lem);
  label_le = omega (arith, g.label_le, h.label_le);
  depth = h.depth ∙ g.depth;
  scopes = h.scopes ∙ g.scopes;
}
