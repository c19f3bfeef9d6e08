-- ===== src/Lexer/Tokens.antt =====
-- src/lexer.c: what `lexer_next` returns.
use sqale.Prelude.{
  ℕ, ◌+◌, ◌-◌, ◌≤◌, ◌<◌, ◌≡◌, ◌≢◌, refl, true, ◌&&◌, ◌||◌, Option, some, arith, ◌==◌, if◌then◌else◌,
  >>=-eq-some, Bool-cases, inl, inr, Bytes,
}
use sqale.Lexer.Place.{line_of, col_of}
use sqale.Lexer.Moves.{
  At, At-self, advance-At, pos-advance, peek-advance, pos-le-advance, skip_while-At, skip_while_lt,
  skip_ws_comments-At, string_body-At,
}
use sqale.Lexer.{
  TokenKind, lbrack, rbrack, float, string, colon, arrow, eof, error, Token, Lexer, make, peek,
  peek2, advance, skip_while, skip_ws_comments, single, string_body, close_quote, next_string, sign,
  at_fraction, fraction, is_digit, is_sym_part, is_sym_start, next_number, next_symbol, token_at,
  lexer_next,
}

-- the offset of a token's first byte; the slice of a string begins behind its quote
abbrev pub start_of : Token → ℕ
start_of t = elim t.kind [ string ↦ t.lexeme - 1 | _ ↦ t.lexeme ]

-- `t` was read from offset `p` or further in `s`, and leaves the cursor at `lx`.
pub record IsToken (s : Bytes) (p : ℕ) (t : Token) (lx : Lexer) : Type 0 where
  pub after : At s p lx
  pub begins : p ≤ start_of t
  pub ends : t.lexeme + t.len ≤ lx.pos
  pub line_is : t.line ≡ line_of s (start_of t)
  pub col_is : t.col ≡ col_of s (start_of t)
  pub advances : t.kind ≢ eof → start_of t < lx.pos
  pub stops : t.kind ≡ eof → (peek lx ≡ 0) × (t.lexeme ≡ lx.pos)

module _ {s : Bytes} {p : ℕ} where
  single-IsToken :
      (k : TokenKind) {lx lx' : Lexer} {t : Token}
      → At s p lx
      → peek lx ≢ 0
      → k ≢ eof
      → k ≢ string
      → single k lx ≡ some (t, lx')
      → IsToken s p t lx'
  unfolding single
  single-IsToken lbrack {lx} a h n m e = ground (arith, advance-At a, pos-advance a)
  single-IsToken rbrack {lx} a h n m e = ground (arith, advance-At a, pos-advance a)
  single-IsToken eof {lx} a h n m e = absurd (n refl)
  single-IsToken string {lx} a h n m e = absurd (m refl)
  single-IsToken _ {lx} a h n m e = ground (arith, advance-At a, pos-advance a)

  close_quote-At :
      {lx : Lexer} → At s p lx → At s p (close_quote lx) × (lx.pos ≤ (close_quote lx).pos)
  unfolding close_quote
  close_quote-At {lx} a = ground (arith, advance-At a, pos-le-advance a)

  next_string-IsToken :
      (f : ℕ) {lx lx' : Lexer} {t : Token}
      → At s p lx
      → peek lx ≢ 0
      → next_string f lx ≡ some (t, lx')
      → IsToken s p t lx'
  unfolding next_string
  next_string-IsToken f {lx} a h e =
      let ((end, n), e₁, e₂) =
        >>=-eq-some (string_body f (advance lx) 0)
          (λ (end, n). some (make string (advance lx).pos n lx, close_quote end)) e in
      let r = string_body-At f (advance-At a) e₁ in
      ground (arith, r, pos-advance a, close_quote-At r.0)

  fraction-At :
      (f : ℕ) {lx lx' : Lexer} {k : TokenKind}
      → At s p lx
      → fraction f lx ≡ some (k, lx')
      → At s p lx' × (lx.pos ≤ lx'.pos) × (k ≢ eof) × (k ≢ string)
  unfolding fraction
  fraction-At f {lx} a e = elim (Bool-cases (at_fraction lx)) [
    | inl t ↦
        let (end, e₁, e₂) =
          >>=-eq-some (skip_while is_digit f (advance lx)) (λ end. some (float, end)) (rw t at e) in
        let r = skip_while-At is_digit f (advance-At a) e₁ in
        let r' = skip_while-At is_digit f (At-self (advance-At a)) e₁ in
        ground (arith, r, r', pos-le-advance a)
    | inr t ↦ ground arith
  ]

  sign-At : {lx : Lexer} → At s p lx → At s p (sign lx)
  unfolding sign
  sign-At {lx} a = ground (arith, advance-At a)

  -- A number holds a sign or a digit, so the cursor moves.
  digits_lt :
      (f : ℕ) {lx lx' : Lexer}
      → At s p lx
      → (is_digit (peek lx) || (peek lx == b'-' && is_digit (peek2 lx))) ≡ true
      → skip_while is_digit f (sign lx) ≡ some lx'
      → lx.pos < lx'.pos
  unfolding sign is_digit
  digits_lt f {lx} {lx'} a h e = elim (Bool-cases (peek lx == b'-')) [
    | inl t ↦
        let r = skip_while-At is_digit f (At-self (advance-At a)) (rw t at e) in
        ground (arith, r, pos-advance a)
    | inr t ↦ ground (arith, skip_while_lt is_digit f {lx' = lx'} a)
  ]

  number_token :
      (k : TokenKind) {lx end lx' : Lexer} {t : Token}
      → At s p lx
      → At s p end
      → lx.pos < end.pos
      → k ≢ eof
      → k ≢ string
      → ◌≡◌ {A = Option (Token × Lexer)}
          (some (make k lx.pos (end.pos - lx.pos) lx, end))
          (some (t, lx'))
      → IsToken s p t lx'
  number_token eof a b h n m e = absurd (n refl)
  number_token string a b h n m e = absurd (m refl)
  number_token _ a b h n m e = ground arith

  next_number-IsToken :
      (f : ℕ) {lx lx' : Lexer} {t : Token}
      → At s p lx
      → (is_digit (peek lx) || (peek lx == b'-' && is_digit (peek2 lx))) ≡ true
      → next_number f lx ≡ some (t, lx')
      → IsToken s p t lx'
  unfolding next_number
  next_number-IsToken f {lx} a h e =
      let (whole, e₁, e₂) = >>=-eq-some (skip_while is_digit f (sign lx)) _ e in
      let ((k, end), e₃, e₄) = >>=-eq-some (fraction f whole) _ e₂ in
      let r = fraction-At f (skip_while-At is_digit f (sign-At a) e₁) e₃ in
      let h' : lx.pos < end.pos = omega (arith, digits_lt f a h e₁, r.1) in
      number_token k a r.0 h' r.2 r.3 e₄

  next_symbol-IsToken :
      (f : ℕ) {lx lx' : Lexer} {t : Token}
      → At s p lx
      → peek lx ≢ 0
      → next_symbol f lx ≡ some (t, lx')
      → IsToken s p t lx'
  unfolding next_symbol
  next_symbol-IsToken f {lx} a h e =
      let (end, e₁, e₂) = >>=-eq-some (skip_while is_sym_part f (advance lx)) _ e in
      let r = skip_while-At is_sym_part f (At-self (advance-At a)) e₁ in
      let r' = skip_while-At is_sym_part f (advance-At a) e₁ in
      ground (arith, r, r', pos-advance a h)

  eof-IsToken :
      {lx lx' : Lexer} {t : Token}
      → At s p lx
      → peek lx ≡ 0
      → ◌≡◌ {A = Option (Token × Lexer)} (some (make eof lx.pos 0 lx, lx)) (some (t, lx'))
      → IsToken s p t lx'
  eof-IsToken a h e = ground arith

  arrow-IsToken :
      {lx lx' : Lexer} {t : Token}
      → At s p lx
      → peek lx ≢ 0
      → peek (advance lx) ≢ 0
      → ◌≡◌ {A = Option (Token × Lexer)}
          (some (make arrow ((advance (advance lx)).pos - 2) 2 lx, advance (advance lx)))
          (some (t, lx'))
      → IsToken s p t lx'
  arrow-IsToken a h k e =
      ground (arith, advance-At (advance-At a), pos-advance a, pos-advance (advance-At a))

  -- the tests of `lexer_next` behind those for one byte
  later_token :
      (f : ℕ) {lx lx' : Lexer} {t : Token}
      → At s p lx
      → peek lx ≢ 0
      → (if peek lx == b'-' && peek2 lx == b'>'
          then some (make arrow ((advance (advance lx)).pos - 2) 2 lx, advance (advance lx))
          else if peek lx == b'"'
          then next_string f lx
          else if is_digit (peek lx) || (peek lx == b'-' && is_digit (peek2 lx))
          then next_number f lx
          else if is_sym_start (peek lx)
          then next_symbol f lx
          else single error lx)
        ≡ some (t, lx')
      → IsToken s p t lx'
  later_token f {lx} a n e = elim (Bool-cases (peek lx == b'-' && peek2 lx == b'>')) [
    | inl h ↦ arrow-IsToken a n (ground (arith, peek-advance a)) (rw h at e)
    | inr h₁ ↦ elim (Bool-cases (peek lx == b'"')) [
      | inl h ↦ next_string-IsToken f a n (rw (h₁, h) at e)
      | inr h₂ ↦
          elim (Bool-cases (is_digit (peek lx) || (peek lx == b'-' && is_digit (peek2 lx)))) [
            | inl h ↦ next_number-IsToken f a h (rw (h₁, h₂, h) at e)
            | inr h₃ ↦ elim (Bool-cases (is_sym_start (peek lx))) [
              | inl h ↦ next_symbol-IsToken f a n (rw (h₁, h₂, h₃, h) at e)
              | inr h ↦ single-IsToken error a n (cc) (cc) (rw (h₁, h₂, h₃, h) at e)
            ]
          ]
    ]
  ]

  token_at-IsToken :
      (f : ℕ) {lx lx' : Lexer} {t : Token}
      → At s p lx
      → token_at f lx ≡ some (t, lx')
      → IsToken s p t lx'
  unfolding token_at
  token_at-IsToken f {lx} a e = elim (Bool-cases (peek lx == 0)) [
    | inl h ↦ eof-IsToken a (ground arith) (rw h at e)
    | inr z ↦
        let n : peek lx ≢ 0 = ground arith in
        elim (Bool-cases (peek lx == b'[')) [
          | inl h ↦ single-IsToken lbrack a n (cc) (cc) (rw (z, h) at e)
          | inr h₁ ↦ elim (Bool-cases (peek lx == b']')) [
            | inl h ↦ single-IsToken rbrack a n (cc) (cc) (rw (z, h₁, h) at e)
            | inr h₂ ↦ elim (Bool-cases (peek lx == b':')) [
              | inl h ↦ single-IsToken colon a n (cc) (cc) (rw (z, h₁, h₂, h) at e)
              | inr h₃ ↦ later_token f a n (rw (z, h₁, h₂, h₃) at e)
            ]
          ]
        ]
  ]

-- Each call of `lexer_next` leaves the cursor in the buffer, returns a slice between the old cursor
-- and the new one with the line and the column of the token's first byte, moves the cursor past that
-- byte unless the token is T_EOF, and returns T_EOF only where the cursor stands at a zero byte or at
-- the end of the buffer.
pub lexer_next-IsToken :
    (f : ℕ) {s : Bytes} {p : ℕ} {lx lx' : Lexer} {t : Token}
    → At s p lx
    → lexer_next f lx ≡ some (t, lx')
    → IsToken s p t lx'
unfolding lexer_next
lexer_next-IsToken f {lx = lx} a e =
    let (start, e₁, e₂) = >>=-eq-some (skip_ws_comments f lx) (token_at f) e in
    token_at-IsToken f (skip_ws_comments-At f a e₁) e₂
