-- ===== src/Lexer/Total.antt =====
-- src/lexer.c: termination of `lexer_next`.
use native.Mathlib.Decide.{dec_lt}
use sqale.Prelude.{
  ap, ℕ, zero, suc, ◌+◌, ◌-◌, ◌≤◌, ◌<◌, ◌≡◌, ◌≢◌, refl, Bool, true, false, not, ◌&&◌, ◌||◌, Option,
  none, some, arith, ◌==◌, if◌then◌else◌, ◌>>=◌, Bytes, length, get_or,
}
use sqale.Lexer.Moves.{
  At, At-self, advance-At, pos-advance, pos-advance_inside, pos-le-advance, skip_while-At,
  skip_while_lt, skip_ws_comments-At,
}
use sqale.Lexer.{
  Lexer, peek, peek2, advance, skip_while, in_comment, skip_ws_comments, single, string_body,
  next_string, sign, at_fraction, fraction, is_digit, is_space, is_sym_part, is_sym_start,
  next_number, next_symbol, token_at, lexer_next,
}

-- The call gives a result.
abbrev pub Returns {ℓ} : {A : Type ℓ} → Option A → Type ℓ
Returns {A = A} o = (a : A) × (o ≡ some a)

Returns-bind {ℓ κ} :
    {A : Type ℓ} {B : Type κ} {m : Option A} {g : A → Option B}
    → Returns m
    → ((a : A) → m ≡ some a → Returns (g a))
    → Returns (m >>= g)
Returns-bind {m = some a} r k = k a refl
Returns-bind {m = none} r k = cc (r.1)

Returns-if {ℓ} :
    {A : Type ℓ} (b : Bool) {x y : Option A}
    → (b ≡ true → Returns x)
    → (b ≡ false → Returns y)
    → Returns (if b then x else y)
Returns-if true h k = h refl
Returns-if false h k = k refl

-- The buffer is empty, or its last byte is not one that a symbol can go on with.
abbrev pub closed : Bytes → Bool
closed s = length s == 0 || not (is_sym_part (get_or s (length s - 1) 0))

module _ {s : Bytes} {p : ℕ} where
  skip_while-Returns :
      (test : ℕ → Bool) (f : ℕ) {lx : Lexer}
      → test 0 ≡ false
      → At s p lx
      → length s < f + lx.pos
      → Returns (skip_while test f lx)
  unfolding skip_while
  skip_while-Returns test zero z a h = absurd (omega (arith, a.within))
  skip_while-Returns test (suc f) {lx} z a h =
      Returns-if (test (peek lx))
        (λ t. skip_while-Returns test f z (advance-At a) (grind (arith, pos-advance a)))
        (λ t. (lx, refl))

  skip_ws_comments-Returns :
      (f : ℕ) {lx : Lexer} → At s p lx → length s < f + lx.pos → Returns (skip_ws_comments f lx)
  unfolding skip_ws_comments in_comment is_space
  skip_ws_comments-Returns zero a h = absurd (omega (arith, a.within))
  skip_ws_comments-Returns (suc f) {lx} a h =
      Returns-if (peek lx == b';')
        (λ t. Returns-bind (skip_while-Returns in_comment (suc f) refl a h) (λ mid e.
          let moved : lx.pos < mid.pos =
            skip_while_lt in_comment (suc f) a (ground arith) (ground arith) e in
          skip_ws_comments-Returns f (skip_while-At in_comment (suc f) a e) (omega arith)))
        (λ t.
          Returns-if (is_space (peek lx))
            (λ u. skip_ws_comments-Returns f (advance-At a) (ground (arith, pos-advance a)))
            (λ u. (lx, refl)))

  string_body-Returns :
      (f n : ℕ) {lx : Lexer} → At s p lx → length s < f + lx.pos → Returns (string_body f lx n)
  unfolding string_body
  string_body-Returns zero n a h = absurd (omega (arith, a.within))
  string_body-Returns (suc f) n {lx} a h =
      Returns-if (peek lx == 0 || peek lx == b'"') (λ t. ((lx, n), refl))
        (λ t.
          Returns-if (peek lx == b'\\')
            (λ u.
              Returns-if (peek (advance lx) == 0) (λ v. ((advance lx, n), refl))
                (λ v.
                  string_body-Returns f (n + 2) (advance-At (advance-At a))
                    (ground (arith, pos-advance a, pos-le-advance (advance-At a)))))
            (λ u. string_body-Returns f (n + 1) (advance-At a) (ground (arith, pos-advance a))))

  not_last :
      {lx : Lexer}
      → closed s ≡ true
      → At s p lx
      → is_sym_part (peek lx) ≡ true
      → lx.pos < length s
      → lx.pos + 1 < length s
  unfolding peek
  not_last {lx} c a t b = elim (dec_lt (lx.pos + 1) (length s)) [
    | yes h ↦ h
    | no h ↦
        let e : length s - 1 ≡ lx.pos = omega arith in
        let c' : closed s ≡ true = c in ground (arith, ap (λ i. is_sym_part (get_or s i 0)) e)
  ]

  -- Inside a closed buffer a symbol ends before the buffer does.
  symbol_Returns :
      (f : ℕ) {lx : Lexer}
      → closed s ≡ true
      → At s p lx
      → lx.pos < length s
      → length s < f + lx.pos
      → Returns (skip_while is_sym_part f lx)
  unfolding skip_while
  symbol_Returns zero c a b h = absurd (omega (arith, a.within))
  symbol_Returns (suc f) {lx} c a b h =
      Returns-if (is_sym_part (peek lx))
        (λ t.
          let more : lx.pos + 1 < length s = not_last c a t b in
          symbol_Returns f c (advance-At a) (omega (arith, pos-advance_inside a b))
            (omega (arith, pos-advance_inside a b)))
        (λ t. (lx, refl))

  -- Every token returns, a symbol by the buffer being closed.
  next_symbol-Returns :
      (f : ℕ) {lx : Lexer}
      → closed s ≡ true
      → At s p lx
      → is_sym_start (peek lx) ≡ true
      → peek lx ≢ 0
      → length s < f + lx.pos
      → Returns (next_symbol f lx)
  unfolding next_symbol is_sym_start is_sym_part
  next_symbol-Returns f {lx} c a t n h =
      let b : lx.pos < length s = ground (arith, pos-advance a n, (advance-At a).within) in
      let m : lx.pos + 1 < length s = not_last c a (ground arith) b in
      let r =
        symbol_Returns f c (advance-At a) (omega (arith, pos-advance_inside a b))
          (omega (arith, pos-advance_inside a b)) in
      Returns-bind r (λ end e. (_, refl))

  next_string-Returns :
      (f : ℕ) {lx : Lexer} → At s p lx → length s < f + lx.pos → Returns (next_string f lx)
  unfolding next_string
  next_string-Returns f {lx} a h =
      Returns-bind (string_body-Returns f 0 (advance-At a) (omega (arith, pos-le-advance a)))
        (λ r e. (_, refl))

  sign_le : {lx : Lexer} → At s p lx → At s p (sign lx) × (lx.pos ≤ (sign lx).pos)
  unfolding sign
  sign_le a = ground (arith, advance-At a, pos-le-advance a)

  fraction-Returns :
      (f : ℕ) {lx : Lexer} → At s p lx → length s < f + lx.pos → Returns (fraction f lx)
  unfolding fraction is_digit
  fraction-Returns f {lx} a h =
      Returns-if (at_fraction lx)
        (λ t.
          Returns-bind
            (skip_while-Returns is_digit f refl (advance-At a) (omega (arith, pos-le-advance a)))
            (λ end e. (_, refl)))
        (λ t. (_, refl))

  next_number-Returns :
      (f : ℕ) {lx : Lexer} → At s p lx → length s < f + lx.pos → Returns (next_number f lx)
  unfolding next_number is_digit
  next_number-Returns f {lx} a h =
      let (b, le) = sign_le a in
      Returns-bind (skip_while-Returns is_digit f refl b (omega arith)) (λ whole e.
        let w = skip_while-At is_digit f b e in
        let v = skip_while-At is_digit f (At-self b) e in
        Returns-bind (fraction-Returns f w (omega (arith, v.from))) (λ r e'. (_, refl)))

  token_at-Returns :
      (f : ℕ) {lx : Lexer}
      → closed s ≡ true
      → At s p lx
      → length s < f + lx.pos
      → Returns (token_at f lx)
  unfolding token_at single
  token_at-Returns f {lx} c a h =
      Returns-if (peek lx == 0) (λ z. (_, refl))
        λ z.
          Returns-if (peek lx == b'[') (λ t. (_, refl))
            λ _.
              Returns-if (peek lx == b']') (λ t. (_, refl))
                λ _.
                  Returns-if (peek lx == b':') (λ t. (_, refl))
                    λ _.
                      Returns-if (peek lx == b'-' && peek2 lx == b'>') (λ t. (_, refl))
                        λ _.
                          Returns-if (peek lx == b'"') (λ t. next_string-Returns f a h)
                            λ _.
                              Returns-if
                                (is_digit (peek lx) || (peek lx == b'-' && is_digit (peek2 lx)))
                                (λ t. next_number-Returns f a h)
                                λ _.
                                  Returns-if (is_sym_start (peek lx))
                                    (λ t. next_symbol-Returns f c a t (ground arith) h)
                                    (λ _. (_, refl))

-- In a closed buffer `lexer_next` returns a token from every cursor, with as much fuel as the buffer
-- has bytes and one more.
pub lexer_next_total :
    (f : ℕ) {s : Bytes} {p : ℕ} {lx : Lexer}
    → closed s ≡ true
    → At s p lx
    → length s < f
    → Returns (lexer_next f lx)
unfolding lexer_next
lexer_next_total f {lx = lx} c a h =
    Returns-bind (skip_ws_comments-Returns f a (omega arith))
      (λ start e. token_at-Returns f c (skip_ws_comments-At f a e) (omega arith))
