-- ===== src/Lexer/Moves.antt =====
-- src/lexer.c: the lexer's cursor, its place in the buffer, and its line and column.
use sqale.Prelude.{
  ℕ, zero, suc, ◌+◌, ◌≤◌, ◌<◌, ◌≡◌, ◌≢◌, refl, Bool, true, some, [], ◌∷◌, arith, ◌==◌, ◌||◌,
  >>=-eq-some, Bool-cases, inl, inr, Bytes, length, get_or,
}
use sqale.Lexer.Place.{line_of, col_of, line_of-suc, col_of-suc}
use sqale.Lexer.{
  Lexer, peek, peek2, advance, skip_while, in_comment, is_space, skip_ws_comments, string_body,
  lexer_init,
}

-- The cursor is in the buffer `s`, at offset `p` or further, and its line and column are those
-- of its offset.
pub record At (s : Bytes) (p : ℕ) (lx : Lexer) : Type 0 where
  pub same : lx.src ≡ s
  pub from : p ≤ lx.pos
  pub within : lx.pos ≤ length s
  pub line_is : lx.line ≡ line_of s lx.pos
  pub col_is : lx.col ≡ col_of s lx.pos

pub lt-length_of_get_or : (s : Bytes) (i : ℕ) → get_or s i 0 ≢ 0 → i < length s
lt-length_of_get_or [] i h = absurd (h refl)
lt-length_of_get_or (x ∷ xs) zero h = omega arith
lt-length_of_get_or (x ∷ xs) (suc i) h = omega (arith, lt-length_of_get_or xs i h)

-- `lexer_init` puts the cursor at line 1 and column 1.
pub At-init : (s : Bytes) → At s 0 (lexer_init s)
unfolding lexer_init line_of col_of
At-init s = record {
  same = refl;
  from = omega arith;
  within = omega arith;
  line_is = refl;
  col_is = refl;
}

pub At-self : {s : Bytes} {p : ℕ} {lx : Lexer} → At s p lx → At s lx.pos lx
At-self a = record {
  same = a.same;
  from = omega arith;
  within = a.within;
  line_is = a.line_is;
  col_is = a.col_is;
}

pub At-le : {s : Bytes} {p q : ℕ} {lx : Lexer} → At s p lx → q ≤ p → At s q lx
At-le a h = record {
  same = a.same;
  from = omega arith;
  within = a.within;
  line_is = a.line_is;
  col_is = a.col_is;
}

module _ {s : Bytes} {p : ℕ} where
  pub advance-At : {lx : Lexer} → At s p lx → At s p (advance lx)
  unfolding advance
  advance-At {lx} a = ground (arith, line_of-suc s lx.pos, col_of-suc s lx.pos)

  -- At a byte that is not the end, `advance` takes exactly that byte.
  pub pos-advance : {lx : Lexer} → At s p lx → peek lx ≢ 0 → (advance lx).pos ≡ lx.pos + 1
  unfolding advance peek
  pos-advance {lx} a h = ground (arith, lt-length_of_get_or s lx.pos)

  pub pos-advance_inside :
      {lx : Lexer} → At s p lx → lx.pos < length s → (advance lx).pos ≡ lx.pos + 1
  unfolding advance
  pos-advance_inside a h = ground arith

  -- `peek2` is what `peek` gives after an `advance`.
  pub peek-advance : {lx : Lexer} → At s p lx → peek lx ≢ 0 → peek (advance lx) ≡ peek2 lx
  unfolding advance peek peek2
  peek-advance {lx} a h = ground (arith, lt-length_of_get_or s lx.pos)

  pub pos-le-advance : {lx : Lexer} → At s p lx → lx.pos ≤ (advance lx).pos
  unfolding advance
  pos-le-advance a = ground arith

  pub skip_while-At :
      (test : ℕ → Bool) (f : ℕ) {lx lx' : Lexer}
      → At s p lx
      → skip_while test f lx ≡ some lx'
      → At s p lx'
  unfolding skip_while
  skip_while-At test zero a e = cc
  skip_while-At test (suc f) {lx} a e = elim (Bool-cases (test (peek lx))) [
    | inl t ↦ skip_while-At test f (advance-At a) (rw t at e)
    | inr t ↦ ground arith
  ]

  pub skip_ws_comments-At :
      (f : ℕ) {lx lx' : Lexer} → At s p lx → skip_ws_comments f lx ≡ some lx' → At s p lx'
  unfolding skip_ws_comments
  skip_ws_comments-At zero a e = cc
  skip_ws_comments-At (suc f) {lx} a e = elim (Bool-cases (peek lx == b';')) [
    | inl t ↦
        let (mid, e₁, e₂) =
          >>=-eq-some (skip_while in_comment (suc f) lx) (skip_ws_comments f) (rw t at e) in
        skip_ws_comments-At f (skip_while-At in_comment (suc f) a e₁) e₂
    | inr t ↦ elim (Bool-cases (is_space (peek lx))) [
      | inl u ↦ skip_ws_comments-At f (advance-At a) (rw (t, u) at e)
      | inr u ↦ ground arith
    ]
  ]

  -- Only a byte that is not the end passes the string loop's tests; the length that it counts is that
  -- of the bytes it passed, less a last backslash.
  pub string_body-At :
      (f : ℕ) {lx lx' : Lexer} {n n' : ℕ}
      → At s p lx
      → string_body f lx n ≡ some (lx', n')
      → At s p lx' × (lx.pos + n' ≤ lx'.pos + n) × (n ≤ n')
  unfolding string_body
  string_body-At zero a e = cc
  string_body-At (suc f) {lx} {n = n} a e = elim (Bool-cases (peek lx == 0 || peek lx == b'"')) [
    | inl t ↦ ground arith
    | inr t ↦ elim (Bool-cases (peek lx == b'\\')) [
      | inl u ↦ elim (Bool-cases (peek (advance lx) == 0)) [
        | inl v ↦ ground (arith, advance-At a, pos-le-advance a)
        | inr v ↦
            let r = string_body-At f {n = n + 2} (advance-At (advance-At a)) (rw (t, u, v) at e) in
            ground (arith, r, pos-advance a, pos-advance (advance-At a))
      ]
      | inr u ↦
          let r = string_body-At f {n = n + 1} (advance-At a) (rw (t, u) at e) in
          ground (arith, r, pos-advance a)
    ]
  ]

module _ {s : Bytes} {p : ℕ} where
  -- The loop takes at least the byte that passes its test.
  pub skip_while_lt :
      (test : ℕ → Bool) (f : ℕ) {lx lx' : Lexer}
      → At s p lx
      → test (peek lx) ≡ true
      → peek lx ≢ 0
      → skip_while test f lx ≡ some lx'
      → lx.pos < lx'.pos
  unfolding skip_while
  skip_while_lt test zero a t h e = cc
  skip_while_lt test (suc f) {lx} a t h e =
      let r = skip_while-At test f (At-self (advance-At a)) (rw t at e) in
      ground (arith, r, pos-advance a h)
