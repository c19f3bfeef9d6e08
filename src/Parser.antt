-- ===== src/Parser.antt =====
-- src/parser.c and include/parser.h: tokens to nodes, with one token of lookahead.
-- `none` is a run that does not end; the inner option is the NULL of `parse_form`.
pub mod Total
pub mod Grammar
use sqale.Prelude.{
  ℕ, zero, suc, ◌+◌, ◌-◌, ◌*◌, ◌^◌, Bool, true, false, ◌&&◌, ◌||◌, not, Option, none, some, List,
  [], ◌∷◌, ltb, leb, min, ◌==◌, if◌then◌else◌, ◌>>=◌, Bytes, bytes_eq, length, take,
}
use sqale.Prelude.Int.{ℤ, pos, negsuc}
use sqale.Ast.{Double, Node, Nodes, list, symbol, int, float, string, bool, nil, cons, push}
use sqale.Lexer.{TokenKind, Token, Lexer, lexer_init, lexer_next, text, is_digit}

pub record Parser : Type 0 where
  pub lx : Lexer
  pub cur : Token
  pub peek : Token

-- enough for each call of `lexer_next` on this buffer
abbrev pub lex_fuel : Bytes → ℕ
lex_fuel src = length src + 1

unfoldable pub advance : Parser → Option Parser
advance p = do
  (t, lx) ← lexer_next (lex_fuel p.lx.src) p.lx
  some (record { lx = lx; cur = p.peek; peek = t })

unfoldable pub parser_init : Bytes → Option Parser
parser_init src = do
  (t, lx) ← lexer_next (lex_fuel src) (lexer_init src)
  (u, lx') ← lexer_next (lex_fuel src) lx
  some (record { lx = lx'; cur = t; peek = u })

abbrev pub is_kind : TokenKind → TokenKind → Bool
is_kind TokenKind.lbrack TokenKind.lbrack = true
is_kind TokenKind.rbrack TokenKind.rbrack = true
is_kind TokenKind.eof TokenKind.eof = true
is_kind _ _ = false

-- the digits at the front of the text, as a number
unfoldable pub digits_value : ℕ → Bytes → ℕ
unfolding is_digit
digits_value acc [] = acc
digits_value acc (c ∷ cs) =
    let more = digits_value (acc * 10 + (c - b'0')) cs in if is_digit c then more else acc

-- `strtoll(tmp, NULL, 10)` of the text of a T_INT token: out of range, the nearest `long long`
unfoldable pub strtoll : Bytes → ℤ
unfolding digits_value
strtoll [] = pos 0
strtoll (c ∷ cs) =
    if c == b'-'
    then neg (min (digits_value 0 cs) (2 ^ 63))
    else pos (min (digits_value 0 (c ∷ cs)) (2 ^ 63 - 1))
  where
    neg : ℕ → ℤ
    neg zero = pos 0
    neg (suc n) = negsuc n

unfoldable pub is_kw : Bytes → Bytes → Bool
is_kw s kw = bytes_eq s kw

abbrev kw_true : Bytes
kw_true = b't' ∷ b'r' ∷ b'u' ∷ b'e' ∷ []

abbrev kw_false : Bytes
kw_false = b'f' ∷ b'a' ∷ b'l' ∷ b's' ∷ b'e' ∷ []

module _ (strtod : Bytes → Double) where
  -- the node that a token other than a bracket stands for; the tokens with none are NULL
  unfoldable pub leaf : Bytes → Token → TokenKind → Option Node
  leaf src t TokenKind.colon = some (symbol (b':' ∷ []) t.line t.col)
  leaf src t TokenKind.arrow = some (symbol (b'-' ∷ b'>' ∷ []) t.line t.col)
  leaf src t TokenKind.int = some (int (strtoll (take 63 (text src t))) t.line t.col)
  leaf src t TokenKind.float = some (float (strtod (text src t)) t.line t.col)
  leaf src t TokenKind.string = some (string (text src t) t.line t.col)
  leaf src t TokenKind.symbol =
      if is_kw (text src t) kw_true
      then some (bool true t.line t.col)
      else if is_kw (text src t) kw_false
      then some (bool false t.line t.col)
      else some (symbol (text src t) t.line t.col)
  leaf src t _ = none

  unfoldable mutual
    pub parse_form : ℕ → Parser → Option (Option Node × Parser)
    parse_form zero p = none
    parse_form (suc f) p =
        let bracketed : Option (Option Node × Parser) = do
          p₁ ← advance p
          (ns, p₂) ← parse_items f nil p₁
          p₃ ← (if is_kind p₂.cur.kind TokenKind.rbrack then advance p₂ else some p₂)
          some (some (list p.cur.line p.cur.col ns), p₃)
        in let other : Option (Option Node × Parser) = do
          p₁ ← advance p
          some (leaf p.lx.src p.cur p.cur.kind, p₁)
          in if is_kind p.cur.kind TokenKind.lbrack then bracketed else other

    -- the loop of `parse_list`, with the items so far
    pub parse_items : ℕ → Nodes → Parser → Option (Nodes × Parser)
    parse_items zero ns p = none
    parse_items (suc f) ns p =
        let step : Option (Nodes × Parser) = do
          (n, p₁) ← parse_form f p
          elim n [ none ↦ some (ns, p₁) | some m ↦ parse_items f (push ns m) p₁ ]
        in if is_kind p.cur.kind TokenKind.rbrack || is_kind p.cur.kind TokenKind.eof
          then some (ns, p)
          else step

  -- the loop of `parse_toplevel`, with the forms so far
  unfoldable pub parse_forms : ℕ → Nodes → Parser → Option (Nodes × Parser)
  parse_forms zero ns p = none
  parse_forms (suc f) ns p =
      let step : Option (Nodes × Parser) = do
        (n, p₁) ← parse_form f p
        elim n [ none ↦ parse_forms f ns p₁ | some m ↦ parse_forms f (push ns m) p₁ ]
      in if is_kind p.cur.kind TokenKind.eof then some (ns, p) else step

  unfoldable pub parse_toplevel : ℕ → Parser → Option Node
  parse_toplevel f p = do (ns, p') ← parse_forms f nil p; some (list 0 0 ns)
