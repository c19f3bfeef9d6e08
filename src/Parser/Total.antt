-- ===== src/Parser/Total.antt =====
-- src/parser.c: termination of the parser.
use sqale.Prelude.{
  ℕ, zero, suc, ◌+◌, ◌-◌, ◌*◌, ◌≤◌, ◌<◌, ◌≡◌, ◌≢◌, refl, Bool, true, false, ◌||◌, Option, some,
  arith, if◌then◌else◌, ◌>>=◌, Bool-cases, Option-cases, inl, inr, Bytes, length, ap,
}
use sqale.Lexer.{TokenKind, Token, Lexer}
use sqale.Lexer.Moves.{At, At-init, At-self, At-le}
use sqale.Lexer.Tokens.{IsToken, lexer_next-IsToken}
use sqale.Lexer.Total.{Returns, closed, lexer_next_total}
use sqale.Ast.{Double, Nodes, list, nil, push}
use sqale.Parser.{
  Parser, lex_fuel, advance, parser_init, is_kind, leaf, parse_form, parse_items, parse_forms,
  parse_toplevel,
}

abbrev at_eof : Parser → Bool
at_eof p = is_kind p.cur.kind TokenKind.eof

-- What is left to read: nothing at T_EOF, or else the current token, the next one, and the bytes
-- behind the lexer's cursor.
abbrev pub rest_of : Bytes → Parser → ℕ
rest_of s p =
    if is_kind p.cur.kind TokenKind.eof
    then 0
    else if is_kind p.peek.kind TokenKind.eof
    then 1
    else length s - p.lx.pos + 2

start_lt :
    (s : Bytes) (p : ℕ) (t : Token) (lx : Lexer)
    → IsToken s p t lx
    → is_kind t.kind TokenKind.eof ≡ false
    → p < lx.pos
start_lt s p t lx i h =
    let ne : t.kind ≢ TokenKind.eof = λ e. (let h' : true ≡ false = rw e at h in cc) in
    omega (arith, i.begins, i.advances ne)

-- With the next token in hand there is less to read.
rest_of_lt :
    (s : Bytes) (p q : Parser)
    → at_eof p ≡ false
    → q.cur ≡ p.peek
    → (is_kind q.peek.kind TokenKind.eof ≡ false → p.lx.pos < q.lx.pos)
    → q.lx.pos ≤ length s
    → rest_of s q < rest_of s p
rest_of_lt s p q h e lt le = ground (arith, ap (λ (t : Token). t.kind) e)

module _ {s : Bytes} (c : closed s ≡ true) where
  advance_total :
      (p : Parser)
      → At s 0 p.lx
      → at_eof p ≡ false
      → (q : Parser) × (advance p ≡ some q) × At s 0 q.lx × (rest_of s q < rest_of s p)
  unfolding advance
  advance_total p a h =
      let ((t, lx), e) = lexer_next_total (lex_fuel p.lx.src) c a (rw a.same (omega arith)) in
      let i = lexer_next-IsToken (lex_fuel p.lx.src) (At-self a) e in
      let q : Parser = record { lx = lx; cur = p.peek; peek = t } in
      let b = At-le i.after (omega arith) in
      (q, rw e, b, rest_of_lt s p q h refl (start_lt s p.lx.pos t lx i) b.within)

-- A result with less than `m` left to read.
abbrev Reads {ℓ} : {A : Type ℓ} → Bytes → ℕ → Option (A × Parser) → Type ℓ
Reads {A = A} s m o = (a : A) × (q : Parser) × (o ≡ some (a, q)) × At s 0 q.lx × (rest_of s q < m)

rest_of_pos : (s : Bytes) (p : Parser) → at_eof p ≡ false → 0 < rest_of s p
rest_of_pos s p h = ground arith

-- the closing bracket, when there is one
close_bracket :
    {s : Bytes} (m : ℕ) (p : Parser)
    → closed s ≡ true
    → At s 0 p.lx
    → rest_of s p < m
    → (q : Parser) × ((if is_kind p.cur.kind TokenKind.rbrack then advance p else some p) ≡ some q)
      × At s 0 q.lx
      × (rest_of s q < m)
close_bracket m p c a lt = elim (Bool-cases (is_kind p.cur.kind TokenKind.rbrack)) [
  | inl t ↦
      let (q, e, b, lt') = advance_total c p a (rbrack_not_eof p.cur.kind t) in
      (q, rw t e, b, omega arith)
  | inr t ↦ (p, rw t, a, lt)
]
  where
    rbrack_not_eof :
        (k : TokenKind) → is_kind k TokenKind.rbrack ≡ true → is_kind k TokenKind.eof ≡ false
    rbrack_not_eof k e = ground arith

rest_of_bound : (s : Bytes) (p : Parser) → 2 * rest_of s p + 1 ≤ 2 * length s + 5
rest_of_bound s p = ground arith

module _ (strtod : Bytes → Double) {s : Bytes} (c : closed s ≡ true) where
  mutual
    unfolding parse_form

    parse_form-Reads :
        (f : ℕ) (p : Parser)
        → At s 0 p.lx
        → at_eof p ≡ false
        → 2 * rest_of s p ≤ f
        → Reads s (rest_of s p) (parse_form strtod f p)
    parse_form-Reads zero p a h le = absurd (omega (arith, rest_of_pos s p h))
    parse_form-Reads (suc f) p a h le =
        let (p₁, e₁, a₁, lt₁) = advance_total c p a h in
        elim (Bool-cases (is_kind p.cur.kind TokenKind.lbrack)) [
          | inr t ↦ (leaf strtod p.lx.src p.cur p.cur.kind, p₁, rw (t, e₁), a₁, lt₁)
          | inl t ↦
              let (ns, p₂, e₂, a₂, lt₂) = parse_items-Reads f nil p₁ a₁ (omega arith) in
              let (p₃, e₃, a₃, lt₃) = close_bracket (rest_of s p) p₂ c a₂ (omega arith) in
              (some (list p.cur.line p.cur.col ns), p₃, rw (t, e₁, e₂, e₃), a₃, lt₃)
        ]

    parse_items-Reads :
        (f : ℕ) (ns : Nodes) (p : Parser)
        → At s 0 p.lx
        → 2 * rest_of s p + 1 ≤ f
        → Reads s (rest_of s p + 1) (parse_items strtod f ns p)
    parse_items-Reads zero ns p a le = absurd (omega arith)
    parse_items-Reads (suc f) ns p a le =
        elim (Bool-cases (is_kind p.cur.kind TokenKind.rbrack || at_eof p)) [
          | inl t ↦ (ns, p, rw t, a, omega arith)
          | inr t ↦
              let (m, p₁, e₁, a₁, lt₁) = parse_form-Reads f p a (ground arith) (omega arith) in
              elim (Option-cases m) [
                | inl e ↦ (ns, p₁, rw (t, e₁, e), a₁, omega arith)
                | inr (n, e) ↦
                    let (ns', p₂, e₂, a₂, lt₂) =
                      parse_items-Reads f (push ns n) p₁ a₁ (omega arith) in
                    (ns', p₂, rw (t, e₁, e, e₂), a₂, omega arith)
              ]
        ]

  parse_forms_Reads :
      (f : ℕ) (ns : Nodes) (p : Parser)
      → At s 0 p.lx
      → 2 * rest_of s p + 1 ≤ f
      → Returns (parse_forms strtod f ns p)
  unfolding parse_forms
  parse_forms_Reads zero ns p a le = absurd (omega arith)
  parse_forms_Reads (suc f) ns p a le = elim (Bool-cases (at_eof p)) [
    | inl t ↦ ((ns, p), rw t)
    | inr t ↦
        let (m, p₁, e₁, a₁, lt₁) = parse_form-Reads f p a t (omega arith) in
        elim (Option-cases m) [
          | inl e ↦
              let (r, e₂) = parse_forms_Reads f ns p₁ a₁ (omega arith) in (r, rw (t, e₁, e, e₂))
          | inr (n, e) ↦
              let (r, e₂) = parse_forms_Reads f (push ns n) p₁ a₁ (omega arith) in
              (r, rw (t, e₁, e, e₂))
        ]
  ]

-- `parser_init` finds its two tokens in a closed buffer, and stands no further than its start.
init_total :
    (src : Bytes) → closed src ≡ true → (p : Parser) × (parser_init src ≡ some p) × At src 0 p.lx
unfolding parser_init
init_total src c =
    let ((t, lx), e₁) = lexer_next_total (lex_fuel src) c (At-init src) (omega arith) in
    let i = lexer_next-IsToken (lex_fuel src) (At-init src) e₁ in
    let ((u, lx'), e₂) = lexer_next_total (lex_fuel src) c i.after (omega arith) in
    let j = lexer_next-IsToken (lex_fuel src) i.after e₂ in
    (record { lx = lx'; cur = t; peek = u }, rw (e₁, e₂), j.after)

-- On a closed buffer `parser_init` and `parse_toplevel` return: the lexer gives every token, and the
-- parser is done within twice as many calls as there are bytes, and five more.
pub parse_total :
    (strtod : Bytes → Double) (src : Bytes)
    → closed src ≡ true
    → Returns (parser_init src >>= parse_toplevel strtod (2 * length src + 5))
unfolding parse_toplevel
parse_total strtod src c =
    let (p, e, a) = init_total src c in
    let (r, e') = parse_forms_Reads strtod c (2 * length src + 5) nil p a (rest_of_bound src p) in
    (list 0 0 r.0, rw (e, e'))
