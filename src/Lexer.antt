-- ===== src/Lexer.antt =====
-- src/lexer.c and include/token.h: characters to tokens.
-- The buffer is the list of its bytes, so `len` is the list's length, and a pointer into it is an
-- offset. The C loops take fuel: `none` is a run that is still going when the fuel is spent.
pub mod Place
pub mod Moves
pub mod Tokens
pub mod Total
pub mod Endless
pub mod Munch
use sqale.Prelude.{
  ℕ, zero, suc, ◌+◌, ◌-◌, Bool, true, false, ◌&&◌, ◌||◌, not, Option, none, some, List, [], ◌∷◌,
  ltb, leb, ◌==◌, if◌then◌else◌, ◌>>=◌, Bytes, length, get_or, take, drop,
}

pub data TokenKind : Type 0 where
  lbrack rbrack symbol int float string colon arrow eof error : TokenKind

pub record Token : Type 0 where
  pub kind : TokenKind
  pub lexeme : ℕ
  pub len : ℕ
  pub line : ℕ
  pub col : ℕ

pub record Lexer : Type 0 where
  pub src : Bytes
  pub pos : ℕ
  pub line : ℕ
  pub col : ℕ

abbrev within : ℕ → ℕ → ℕ → Bool
within lo hi c = leb lo c && leb c hi

-- `isdigit`, `isalpha`, `isspace` of the C locale
unfoldable pub is_digit : ℕ → Bool
is_digit = within b'0' b'9'

unfoldable pub is_alpha : ℕ → Bool
is_alpha c = within b'a' b'z' c || within b'A' b'Z' c

unfoldable pub is_space : ℕ → Bool
is_space c = c == b' ' || within 9 13 c

-- `strchr("+-*/<>=!?%", c) != 0`, which also finds the terminating zero byte
unfoldable pub in_punctuation : ℕ → Bool
in_punctuation c =
    c == b'+'
    || c == b'-'
    || c == b'*'
    || c == b'/'
    || c == b'<'
    || c == b'>'
    || c == b'='
    || c == b'!'
    || c == b'?'
    || c == b'%'
    || c == 0

unfoldable pub is_sym_start : ℕ → Bool
unfolding is_alpha in_punctuation
is_sym_start c = is_alpha c || c == b'_' || in_punctuation c

unfoldable pub is_sym_part : ℕ → Bool
unfolding is_alpha is_digit in_punctuation
is_sym_part c = is_alpha c || is_digit c || c == b'_' || in_punctuation c

unfoldable pub lexer_init : Bytes → Lexer
lexer_init src = record { src = src; pos = 0; line = 1; col = 1 }

-- The zero byte past the end is the default of `get_or`.
unfoldable pub peek : Lexer → ℕ
peek lx = get_or lx.src lx.pos 0

unfoldable pub peek2 : Lexer → ℕ
peek2 lx = get_or lx.src (lx.pos + 1) 0

-- No caller uses the character that `advance` returns.
unfoldable pub advance : Lexer → Lexer
advance lx =
    if leb (length lx.src) lx.pos
    then lx
    else if get_or lx.src lx.pos 0 == b'\n'
    then record lx { pos = lx.pos + 1; line = lx.line + 1; col = 1 }
    else record lx { pos = lx.pos + 1; col = lx.col + 1 }

-- `while (test(peek(lx))) advance(lx);`
unfoldable pub skip_while : (ℕ → Bool) → ℕ → Lexer → Option Lexer
skip_while test zero lx = none
skip_while test (suc f) lx =
    let rest = skip_while test f (advance lx) in if test (peek lx) then rest else some lx

-- the condition of the comment loop
unfoldable pub in_comment : ℕ → Bool
in_comment c = not (c == 0) && not (c == b'\n')

unfoldable pub skip_ws_comments : ℕ → Lexer → Option Lexer
skip_ws_comments zero lx = none
skip_ws_comments (suc f) lx =
    let comment : Option Lexer = do lx' ← skip_while in_comment (suc f) lx; skip_ws_comments f lx'
    in let space = skip_ws_comments f (advance lx) in
      if peek lx == b';' then comment else if is_space (peek lx) then space else some lx

abbrev pub make : TokenKind → ℕ → ℕ → Lexer → Token
make k start n at = record { kind = k; lexeme = start; len = n; line = at.line; col = at.col }

-- a token of one byte
unfoldable pub single : TokenKind → Lexer → Option (Token × Lexer)
single k lx = some (make k ((advance lx).pos - 1) 1 lx, advance lx)

-- the loop over a string's characters; the count is the local `len`
unfoldable pub string_body : ℕ → Lexer → ℕ → Option (Lexer × ℕ)
string_body zero lx n = none
string_body (suc f) lx n =
    let escaped = string_body f (advance (advance lx)) (n + 2) in
    let plain = string_body f (advance lx) (n + 1) in
    if peek lx == 0 || peek lx == b'"'
    then some (lx, n)
    else if peek lx == b'\\'
    then (if peek (advance lx) == 0 then some (advance lx, n) else escaped)
    else plain

-- the closing quote, when there is one
unfoldable pub close_quote : Lexer → Lexer
close_quote lx = if peek lx == b'"' then advance lx else lx

unfoldable pub next_string : ℕ → Lexer → Option (Token × Lexer)
next_string f lx = do
  (end, n) ← string_body f (advance lx) 0
  some (make string (advance lx).pos n lx, close_quote end)

unfoldable pub sign : Lexer → Lexer
sign lx = if peek lx == b'-' then advance lx else lx

unfoldable pub at_fraction : Lexer → Bool
at_fraction lx = peek lx == b'.' && is_digit (peek2 lx)

-- what follows the first run of digits
unfoldable pub fraction : ℕ → Lexer → Option (TokenKind × Lexer)
fraction f lx =
    let more : Option (TokenKind × Lexer) = do
      end ← skip_while is_digit f (advance lx)
      some (float, end)
    in if at_fraction lx then more else some (int, lx)

unfoldable pub next_number : ℕ → Lexer → Option (Token × Lexer)
next_number f lx = do
  whole ← skip_while is_digit f (sign lx)
  (k, end) ← fraction f whole
  some (make k lx.pos (end.pos - lx.pos) lx, end)

unfoldable pub next_symbol : ℕ → Lexer → Option (Token × Lexer)
next_symbol f lx = do
  end ← skip_while is_sym_part f (advance lx)
  some (make symbol lx.pos (end.pos - lx.pos) lx, end)

-- `lexer_next` after the white space
unfoldable pub token_at : ℕ → Lexer → Option (Token × Lexer)
token_at f lx =
    let c = peek lx in
    if c == 0
    then some (make eof lx.pos 0 lx, lx)
    else if c == b'['
    then single lbrack lx
    else if c == b']'
    then single rbrack lx
    else if c == b':'
    then single colon lx
    else if c == b'-' && peek2 lx == b'>'
    then some (make arrow ((advance (advance lx)).pos - 2) 2 lx, advance (advance lx))
    else if c == b'"'
    then next_string f lx
    else if is_digit c || (c == b'-' && is_digit (peek2 lx))
    then next_number f lx
    else if is_sym_start c
    then next_symbol f lx
    else single error lx

unfoldable pub lexer_next : ℕ → Lexer → Option (Token × Lexer)
lexer_next f lx = do start ← skip_ws_comments f lx; token_at f start

-- the bytes that a token points at
unfoldable pub text : Bytes → Token → Bytes
text src t = take t.len (drop t.lexeme src)
