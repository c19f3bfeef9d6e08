-- ===== src/Macros/Clauses.antt =====
-- src/macro.c: what the output of `cond` and `when` runs.
use sqale.Prelude.{
  ℕ, zero, suc, ◌-◌, ◌≡◌, refl, ap, ◌∙◌, sym, Bool, false, ◌||◌, Option, none, some, arith,
  if◌then◌else◌, ltb, Bool-cases, inl, inr, Option-cases, ◌∷◌, [],
}
use sqale.Ast.{Node, Nodes, list, nil, cons, count}
use sqale.Macros.{sym_else, is_symbol, do_list, cond_clause, item, cond_down, m_cond, m_when}

-- the forms that a nest of [if test [do ...] rest] and [do ...] runs, when the tests come out as given
abbrev pub branch : (Node → Bool) → Node → Nodes
branch truth
      (list line col (cons first (cons test (cons (list l c (cons head body)) (cons rest nil))))) =
    let other = branch truth rest in
    if is_symbol (b'i' ∷ b'f' ∷ []) first
    then (if truth test then body else other)
    else cons test (cons (list l c (cons head body)) (cons rest nil))
branch truth (list line col (cons first body)) = body
branch truth n = nil

-- the forms of the first clause that is an `else` or whose test is true
abbrev pub first_true : (Node → Bool) → Nodes → Nodes
first_true truth nil = nil
first_true truth (cons (list line col (cons first body)) rest) =
    if is_symbol sym_else first || truth first then body else first_true truth rest
first_true truth (cons _ rest) = first_true truth rest

-- the first `n` clauses around `acc`
abbrev nest : ℕ → Nodes → Node → Node
nest zero clauses acc = acc
nest (suc n) nil acc = acc
nest (suc n) (cons c cs) acc = cond_clause c (nest n cs acc)

abbrev around : Option Node → Node → Node
around none acc = acc
around (some c) acc = cond_clause c acc

nest-suc :
    (n : ℕ) (cs : Nodes) (acc : Node) → nest (suc n) cs acc ≡ nest n cs (around (item cs n) acc)
unfolding item
nest-suc zero nil acc = refl
nest-suc zero (cons c cs) acc = refl
nest-suc (suc n) nil acc = refl
nest-suc (suc n) (cons c cs) acc = ap (cond_clause c) (nest-suc n cs acc)

cond_down-suc :
    (n : ℕ) (head : Node) (cs : Nodes) (acc : Node)
    → cond_down (suc n) (cons head cs) acc ≡ cond_down n (cons head cs) (around (item cs n) acc)
unfolding cond_down item
cond_down-suc n head cs acc = elim (Option-cases (item cs n)) [
  | inl h ↦ rw (cond_down, h) refl
  | inr (c, h) ↦ rw (cond_down, h) refl
]

cond_down-nest :
    (n : ℕ) (head : Node) (cs : Nodes) (acc : Node) → cond_down n (cons head cs) acc ≡ nest n cs acc
cond_down-nest zero head cs acc = unfold cond_down in refl
cond_down-nest (suc n) head cs acc =
    cond_down-suc n head cs acc
    ∙ (cond_down-nest n head cs (around (item cs n) acc) ∙ sym (nest-suc n cs acc))

branch-do : (truth : Node → Bool) (body : Nodes) → branch truth (do_list body) ≡ body
branch-do truth (cons test (cons (list l c (cons head body)) (cons rest nil))) = refl
branch-do truth _ = refl

branch-clause :
    (truth : Node → Bool) (first : Node) (body : Nodes) (line col : ℕ) (acc : Node)
    → branch truth (cond_clause (list line col (cons first body)) acc)
      ≡ (if is_symbol sym_else first || truth first then body else branch truth acc)
unfolding cond_clause
branch-clause truth first body line col acc = elim (Bool-cases (is_symbol sym_else first)) [
  | inl h ↦ rw h (branch-do truth body)
  | inr h ↦ rw h refl
]

branch-nest :
    (truth : Node → Bool) (cs : Nodes)
    → branch truth (nest (count cs) cs (do_list nil)) ≡ first_true truth cs
unfolding count cond_clause
branch-nest truth nil = refl
branch-nest truth (cons (list line col (cons first body)) rest) =
    branch-clause truth first body line col (nest (count rest) rest (do_list nil))
    ∙ ap (λ b. if is_symbol sym_else first || truth first then body else b) (branch-nest truth rest)
branch-nest truth (cons _ rest) = branch-nest truth rest

-- What `m_cond` makes of [cond clauses...] runs the forms of the first clause that is an `else` or whose test
-- comes out true, and no forms when there is no such clause, whatever the tests come out as.
pub m_cond-first_true :
    (truth : Node → Bool) (line col : ℕ) (head clause : Node) (rest : Nodes)
    → branch truth (m_cond (list line col (cons head (cons clause rest))))
      ≡ first_true truth (cons clause rest)
unfolding m_cond count
m_cond-first_true truth line col head clause rest =
    let items = cons head (cons clause rest) in
    let two : ltb (suc (suc (count rest))) 2 ≡ false = ground arith in
    let all : suc (suc (count rest)) - 1 ≡ suc (count rest) = omega arith in
    rw (two, all)
      (ap (branch truth) (cond_down-nest (suc (count rest)) head (cons clause rest) (do_list nil))
        ∙ branch-nest truth (cons clause rest))

-- What `m_when` makes of [when test body...] runs the body when the test comes out true, and else no forms.
pub m_when-branch :
    (truth : Node → Bool) (line col : ℕ) (head test : Node) (body : Nodes)
    → branch truth (m_when (list line col (cons head (cons test body))))
      ≡ (if truth test then body else nil)
unfolding m_when
m_when-branch truth line col head test body = refl
