-- ===== src/Lexer/Munch.antt =====
-- src/lexer.c: which bytes a symbol token holds, and where it ends.
use sqale.Prelude.{
  ℕ, zero, suc, ◌+◌, ◌-◌, ◌≤◌, ◌<◌, ◌≡◌, ◌≢◌, Bool, true, false, Option, some, arith, >>=-eq-some,
  Bool-cases, inl, inr, Bytes, get_or, ap, ◌⊎◌, ◌∙◌,
}
use native.Mathlib.Decide.{ℕ_discrete}
use sqale.Lexer.Moves.{At, At-self, advance-At, pos-advance, skip_while-At, skip_ws_comments-At}
use sqale.Lexer.{
  TokenKind, symbol, string, Token, Lexer, make, peek, advance, skip_while, skip_ws_comments,
  single, string_body, next_string, sign, at_fraction, fraction, is_digit, is_sym_part,
  is_sym_start, next_number, next_symbol, token_at, lexer_next,
}

-- Bytes `i` to `j` of the buffer pass the test, and byte `j` does not.
pub record IsRun (test : ℕ → Bool) (s : Bytes) (i j : ℕ) : Type 0 where
  pub inside : (k : ℕ) → i ≤ k → k < j → test (get_or s k 0) ≡ true
  pub outside : test (get_or s j 0) ≡ false

IsRun-cons :
    (test : ℕ → Bool) (s : Bytes) (i j : ℕ)
    → test (get_or s i 0) ≡ true
    → IsRun test s (i + 1) j
    → IsRun test s i j
IsRun-cons test s i j h r = record {
  inside =
      λ k le lt. elim (ℕ_discrete k i) [ yes e ↦ rw e h | no ne ↦ r.inside k (omega arith) lt ];
  outside = r.outside;
}

pos-advance-cases : (lx : Lexer) → ((advance lx).pos ≡ lx.pos + 1) ⊎ ((advance lx).pos ≡ lx.pos)
unfolding advance
pos-advance-cases lx = ground arith

module _ {s : Bytes} {p : ℕ} where
  peek_lem : {lx : Lexer} → At s p lx → peek lx ≡ get_or s lx.pos 0
  unfolding peek
  peek_lem a = ground arith

  skip_while-IsRun :
      (test : ℕ → Bool) (f : ℕ) {lx lx' : Lexer}
      → At s p lx
      → skip_while test f lx ≡ some lx'
      → IsRun test s lx.pos lx'.pos
  unfolding skip_while
  skip_while-IsRun test zero a e = cc
  skip_while-IsRun test (suc f) {lx} {lx'} a e = elim (Bool-cases (test (peek lx))) [
    | inl t ↦
        let r = skip_while-IsRun test f (advance-At a) (rw t at e) in
        elim (pos-advance-cases lx) [
          | inl q ↦ IsRun-cons test s lx.pos lx'.pos (rw (← peek_lem a) t) (rw q at r)
          | inr q ↦ rw q at r
        ]
    | inr t ↦
        let q : lx ≡ lx' = ground arith in
        record {
          inside = λ k le lt. absurd (omega (arith, ap (λ (l : Lexer). l.pos) q));
          outside = rw (← ap (λ (l : Lexer). l.pos) q, ← peek_lem a) t;
        }
  ]

kind-next_string :
    (f : ℕ) (lx : Lexer) {lx' : Lexer} {t : Token}
    → next_string f lx ≡ some (t, lx')
    → t.kind ≡ string
unfolding next_string
kind-next_string f lx e =
    let (r, e₁, e₂) = >>=-eq-some (string_body f (advance lx) 0) _ e in ground arith

kind-fraction :
    (f : ℕ) (lx : Lexer) {lx' : Lexer} {k : TokenKind} → fraction f lx ≡ some (k, lx') → k ≢ symbol
unfolding fraction
kind-fraction f lx e = elim (Bool-cases (at_fraction lx)) [
  | inl t ↦
      let (r, e₁, e₂) = >>=-eq-some (skip_while is_digit f (advance lx)) _ (rw t at e) in
      ground arith
  | inr t ↦ ground arith
]

kind-next_number :
    (f : ℕ) (lx : Lexer) {lx' : Lexer} {t : Token}
    → next_number f lx ≡ some (t, lx')
    → t.kind ≢ symbol
unfolding next_number
kind-next_number f lx e =
    let (whole, e₁, e₂) = >>=-eq-some (skip_while is_digit f (sign lx)) _ e in
    let ((k, end), e₃, e₄) = >>=-eq-some (fraction f whole) _ e₂ in
    ground (arith, kind-fraction f whole e₃)

symbol_branch :
    (f : ℕ) (lx : Lexer) {lx' : Lexer} {t : Token}
    → token_at f lx ≡ some (t, lx')
    → t.kind ≡ symbol
    → (next_symbol f lx ≡ some (t, lx')) × (is_sym_start (peek lx) ≡ true) × (peek lx ≢ 0)
unfolding token_at single
symbol_branch f lx {lx'} {t} e k =
    ground
      (arith, kind-next_string f lx {lx' = lx'} {t = t}, kind-next_number f lx {lx' = lx'} {t = t})

sym_start_part : (c : ℕ) → is_sym_start c ≡ true → is_sym_part c ≡ true
unfolding is_sym_start is_sym_part
sym_start_part c h = ground arith

symbol_facts :
    {s : Bytes} {p : ℕ} {at end lx' : Lexer} {t : Token}
    → At s p at
    → is_sym_start (peek at) ≡ true
    → peek at ≢ 0
    → at.pos + 1 ≤ end.pos
    → IsRun is_sym_part s (at.pos + 1) end.pos
    → ◌≡◌ {A = Option (Token × Lexer)}
        (some (make symbol at.pos (end.pos - at.pos) at, end))
        (some (t, lx'))
    → (is_sym_start (get_or s t.lexeme 0) ≡ true)
      × IsRun is_sym_part s t.lexeme (t.lexeme + t.len)
      × (t.lexeme + t.len ≡ lx'.pos)
symbol_facts {s} {at = at} {end} {lx'} {t} a h n le r e =
    let from : t.lexeme ≡ at.pos = ground arith in
    let to : t.lexeme + t.len ≡ end.pos = ground arith in
    let last : end.pos ≡ lx'.pos = ground arith in
    let h' : is_sym_start (get_or s at.pos 0) ≡ true = rw (← peek_lem a) h in
    (
      rw from h',
      rw (to, from) (IsRun-cons is_sym_part s at.pos end.pos (sym_start_part _ h') r),
      to ∙ last,
    )

-- A symbol token begins with a byte that can start a symbol, holds only bytes that a symbol can go on
-- with, and the byte behind it is not one of those.
pub symbol-IsRun :
    (f : ℕ) {s : Bytes} {p : ℕ} {lx lx' : Lexer} {t : Token}
    → At s p lx
    → lexer_next f lx ≡ some (t, lx')
    → t.kind ≡ symbol
    → (is_sym_start (get_or s t.lexeme 0) ≡ true)
      × IsRun is_sym_part s t.lexeme (t.lexeme + t.len)
      × (t.lexeme + t.len ≡ lx'.pos)
unfolding lexer_next next_symbol
symbol-IsRun f {s} {lx = lx} a e k =
    let (at, e₁, e₂) = >>=-eq-some (skip_ws_comments f lx) (token_at f) e in
    let b = skip_ws_comments-At f a e₁ in
    let (e₃, h, n) = symbol_branch f at e₂ k in
    let (end, e₄, e₅) = >>=-eq-some (skip_while is_sym_part f (advance at)) _ e₃ in
    let q = pos-advance b n in
    let r = skip_while-IsRun is_sym_part f (advance-At b) e₄ in
    let le = (skip_while-At is_sym_part f (At-self (advance-At b)) e₄).from in
    symbol_facts b h n (omega (arith, q, le)) (rw q at r) e₅
