-- ===== src/Tests/Reading.antt =====
-- The lexer and the parser on short programs.
use sqale.Prelude.{ℕ, ◌+◌, ◌≡◌, refl, true, none, some, [], ◌∷◌, arith, ◌>>=◌, ◌↔◌, Bytes}
use sqale.Prelude.Int.{pos}
use sqale.Lexer.{
  TokenKind, Token, Lexer, lexer_init, lexer_next, skip_ws_comments, skip_while, token_at,
  next_symbol, next_number, single, fraction, at_fraction, sign, peek, peek2, advance, is_digit,
  is_alpha, is_space, is_sym_part, is_sym_start, in_punctuation, text,
}
use sqale.Lexer.Moves.{At-init}
use sqale.Lexer.Tokens.{IsToken, lexer_next-IsToken}
use sqale.Lexer.Total.{Returns, closed, lexer_next_total}
use sqale.Lexer.Endless.{lexer_next_endless}
use sqale.Lexer.Munch.{IsRun, symbol-IsRun}
use sqale.Ast.{Double, Node, Nodes}
use sqale.Parser.{parser_init, parse_toplevel, leaf, digits_value, is_kw, strtoll}
use sqale.Parser.Total.{parse_total}
use sqale.Parser.Grammar.{Forms, one, bracketed, done, more, parse-Forms}
use sqale.Types.{Ty, Tys, ty_eq}
use sqale.Types.Equality.{Consistent, ty_eq_decides}

-- [f 7]
abbrev call : Bytes
call = b'[' ∷ b'f' ∷ b' ' ∷ b'7' ∷ b']' ∷ []

-- `f` behind a blank line
abbrev name : Bytes
name = 10 ∷ b'f' ∷ b' ' ∷ []

abbrev name_token : Token
name_token = record { kind = TokenKind.symbol; lexeme = 1; len = 1; line = 2; col = 1 }

abbrev name_end : Lexer
name_end = record { src = name; pos = 2; line = 2; col = 2 }

reads_name : lexer_next 4 (lexer_init name) ≡ some (name_token, name_end)
unfolding lexer_next lexer_init skip_ws_comments skip_while token_at next_symbol peek peek2 advance
    is_space is_digit is_sym_start is_sym_part is_alpha in_punctuation
reads_name = refl

lexer_next-IsToken_example : IsToken name 0 name_token name_end
lexer_next-IsToken_example = lexer_next-IsToken 4 (At-init name) reads_name

call-closed : closed call ≡ true
unfolding is_sym_part is_alpha is_digit in_punctuation
call-closed = refl

lexer_next_total_example : Returns (lexer_next 6 (lexer_init call))
lexer_next_total_example = lexer_next_total 6 call-closed (At-init call) (omega arith)

lexer_next_endless_example : lexer_next 1000 (lexer_init (b'f' ∷ [])) ≡ none
lexer_next_endless_example =
    lexer_next_endless 1000 (lexer_init (b'f' ∷ [])) (unfold lexer_init peek is_alpha in refl)
      (unfold lexer_init is_sym_part is_alpha is_digit in_punctuation in refl)

symbol-IsRun_example :
    (is_sym_start b'f' ≡ true)
    × IsRun is_sym_part name 1 2
    × (name_token.lexeme + name_token.len ≡ name_end.pos)
symbol-IsRun_example = symbol-IsRun 4 (At-init name) reads_name refl

-- a stand-in for the library's `strtod`
abbrev zero_double : Bytes → Double
zero_double s = 0

parse_total_example : Returns (parser_init call >>= parse_toplevel zero_double 15)
parse_total_example = parse_total zero_double call call-closed

abbrev tok : TokenKind → ℕ → Token
tok k i = record { kind = k; lexeme = i; len = 1; line = 1; col = i + 1 }

abbrev eof_token : Token
eof_token = record { kind = TokenKind.eof; lexeme = 5; len = 0; line = 1; col = 6 }

abbrev call_items : Nodes
call_items = Nodes.cons (Node.symbol (b'f' ∷ []) 1 2) (Nodes.cons (Node.int (pos 7) 1 4) Nodes.nil)

call-Forms : Forms zero_double call (Nodes.cons (Node.list 1 1 call_items) Nodes.nil) (
    tok TokenKind.lbrack 0
    ∷ tok TokenKind.symbol 1
    ∷ tok TokenKind.int 3
    ∷ tok TokenKind.rbrack 4
    ∷ [])
unfolding leaf text digits_value is_digit is_kw strtoll
call-Forms =
    more {us = []}
      (bracketed (tok TokenKind.lbrack 0) (tok TokenKind.rbrack 4)
        {ts = tok TokenKind.symbol 1 ∷ tok TokenKind.int 3 ∷ []} refl refl
        (more {ts = tok TokenKind.symbol 1 ∷ []} {us = tok TokenKind.int 3 ∷ []} (one refl)
          (more {ts = tok TokenKind.int 3 ∷ []} {us = []} (one refl) done)))
      done

parse-Forms_example :
    (parser_init call >>= parse_toplevel zero_double 9)
    ≡ some (Node.list 0 0 (Nodes.cons (Node.list 1 1 call_items) Nodes.nil))
unfolding lexer_next lexer_init skip_ws_comments skip_while token_at next_symbol next_number sign
    fraction at_fraction single peek peek2 advance is_space is_digit is_sym_start is_sym_part
    is_alpha in_punctuation
parse-Forms_example =
    parse-Forms zero_double call eof_token eof_token 9 call-Forms refl
      (_, refl, (_, refl, (_, refl, (_, refl, (_, refl, (_, refl, tt)))))) (omega arith)

abbrev int_to_any : Ty
int_to_any = Ty.func (Tys.cons Ty.int Tys.nil) Ty.any

abbrev any_to_str : Ty
any_to_str = Ty.func (Tys.cons Ty.any Tys.nil) Ty.str

ty_eq_decides_example : (ty_eq int_to_any any_to_str ≡ true) ↔ Consistent int_to_any any_to_str
ty_eq_decides_example = ty_eq_decides int_to_any any_to_str

-- A string of 25 digits is read as the greatest `long long`.
long_number :
    strtoll (
      b'9' ∷ b'9' ∷ b'9' ∷ b'9' ∷ b'9' ∷ b'9' ∷ b'9' ∷ b'9' ∷ b'9' ∷ b'9' ∷ b'9' ∷ b'9' ∷ b'9'
      ∷ b'9' ∷ b'9' ∷ b'9' ∷ b'9' ∷ b'9' ∷ b'9' ∷ b'9' ∷ [])
    ≡ pos 9223372036854775807
unfolding strtoll digits_value is_digit
long_number = refl
