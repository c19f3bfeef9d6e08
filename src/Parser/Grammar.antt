-- ===== src/Parser/Grammar.antt =====
-- src/parser.c: the bracket grammar, and the tokens of a tree.
use sqale.Prelude.{
  ℕ, zero, suc, ◌+◌, ◌*◌, ◌≤◌, ◌<◌, ◌≡◌, refl, Bool, true, false, ◌||◌, some, List, [], ◌∷◌, ◌++◌,
  append_assoc, arith, ◌>>=◌, Bytes, length, length-append, subst,
}
use sqale.Lexer.{TokenKind, Token, Lexer, lexer_init, lexer_next}
use sqale.Lexer.Moves.{At, At-init}
use sqale.Lexer.Tokens.{lexer_next-IsToken}
use sqale.Ast.{Double, Node, Nodes, list, nil, cons, push, append, append-push, append-nil}
use sqale.Parser.{
  Parser, lex_fuel, advance, parser_init, is_kind, leaf, parse_form, parse_items, parse_forms,
  parse_toplevel,
}

module _ (strtod : Bytes → Double) (src : Bytes) where
  -- The tokens of a node, and of a sequence of nodes.
  mutual
    pub data Form : Node → List Token → Type 0 where
      one : {t : Token} {n : Node} → leaf strtod src t t.kind ≡ some n → Form n (t ∷ [])
      bracketed :
          (o c : Token) {ns : Nodes} {ts : List Token}
          → o.kind ≡ TokenKind.lbrack
          → c.kind ≡ TokenKind.rbrack
          → Forms ns ts
          → Form (list o.line o.col ns) (o ∷ (ts ++ c ∷ []))

    pub data Forms : Nodes → List Token → Type 0 where
      done : Forms nil []
      more :
          {n : Node} {ns : Nodes} {ts us : List Token}
          → Form n ts
          → Forms ns us
          → Forms (cons n ns) (ts ++ us)

-- The lexer gives these tokens, one after the other.
abbrev pub Lexes : Lexer → List Token → Type 0
Lexes lx [] = Unit
Lexes lx (t ∷ ts) = (lx' : Lexer) × (lexer_next (lex_fuel lx.src) lx ≡ some (t, lx')) × Lexes lx' ts

-- The parser's two tokens and those of its lexer.
abbrev Sees : Parser → List Token → Type 0
Sees p [] = Unit
Sees p (c ∷ []) = p.cur ≡ c
Sees p (c ∷ d ∷ ts) = (p.cur ≡ c) × (p.peek ≡ d) × Lexes p.lx ts

abbrev Stream : Bytes → Parser → List Token → Type 0
Stream src p ts = At src 0 p.lx × Sees p ts

module _ {src : Bytes} where
  advance-Stream :
      (p : Parser) (c : Token) (ts : List Token)
      → Stream src p (c ∷ ts)
      → 2 ≤ length ts
      → (q : Parser) × (advance p ≡ some q) × Stream src q ts
  unfolding advance
  advance-Stream p c [] s le = absurd (omega arith)
  advance-Stream p c (d ∷ []) s le = absurd (omega arith)
  advance-Stream p c (d ∷ e ∷ ts) (a, (hc, hd, (lx, he, hs))) le = (
    record { lx = lx; cur = p.peek; peek = e },
    rw he,
    ((lexer_next-IsToken (lex_fuel p.lx.src) a he).after, (hd, refl, hs)),
  )

  cur_of : (p : Parser) (c : Token) (ts : List Token) → Stream src p (c ∷ ts) → p.cur ≡ c
  cur_of p c [] s = s.1
  cur_of p c (d ∷ ts) s = s.1.0

-- the kinds at which the loop of `parse_list` stops
abbrev stops : TokenKind → Bool
stops k = is_kind k TokenKind.rbrack || is_kind k TokenKind.eof

leaf_kind :
    (strtod : Bytes → Double) (src : Bytes) (t : Token) (k : TokenKind) {n : Node}
    → leaf strtod src t k ≡ some n
    → (is_kind k TokenKind.lbrack ≡ false) × (stops k ≡ false)
unfolding leaf
leaf_kind strtod src t k h = ground arith

not_eof : (k : TokenKind) → stops k ≡ false → is_kind k TokenKind.eof ≡ false
not_eof k h = ground arith

module _ (strtod : Bytes → Double) {src : Bytes} where
  -- A node's tokens begin with one at which no loop stops.
  Form-starts :
      {n : Node} {ts : List Token}
      → Form strtod src n ts
      → (t : Token) × (us : List Token) × (ts ≡ t ∷ us) × (stops t.kind ≡ false)
  Form-starts (one {t = t} h) = (t, [], refl, (leaf_kind strtod src t t.kind h).1)
  Form-starts (bracketed o c {ts = ts} ho hc fs) = (o, ts ++ c ∷ [], refl, rw ho)

  cur_stops :
      {n : Node} {ts : List Token} (rest : List Token) (p : Parser)
      → Form strtod src n ts
      → Stream src p (ts ++ rest)
      → (stops p.cur.kind ≡ false) × (0 < length ts)
  cur_stops {ts = ts} rest p f s =
      let (t, us, e, h) = Form-starts f in
      let s' : Stream src p (t ∷ (us ++ rest)) = rw e at s in
      (rw (cur_of p t (us ++ rest) s') h, rw e (omega arith))

  mutual
    unfolding parse_form append

    parse_form-Form :
        (f : ℕ) {n : Node} {ts : List Token}
        → Form strtod src n ts
        → (p : Parser) (rest : List Token) → Stream src p (ts ++ rest)
        → 2 ≤ length rest
        → 2 * length ts ≤ f
        → (q : Parser) × (parse_form strtod f p ≡ some (some n, q)) × Stream src q rest
    parse_form-Form zero g p rest s le h = absurd (omega (arith, (cur_stops rest p g s).1))
    parse_form-Form (suc f) (one {t = t} {n = n} e) p rest s le h =
        let (q, e₁, s₁) = advance-Stream p t rest s le in
        let c = cur_of p t rest s in
        let k : is_kind p.cur.kind TokenKind.lbrack ≡ false =
          rw c (leaf_kind strtod src t t.kind e).0 in
        let l : leaf strtod p.lx.src p.cur p.cur.kind ≡ some n = rw (c, s.0.same) e in
        (q, rw (k, e₁, l), s₁)
    parse_form-Form (suc f) (bracketed o c {ns} {ts} ho hc fs) p rest s le h =
        let e : (ts ++ c ∷ []) ++ rest ≡ ts ++ c ∷ rest = append_assoc ts (c ∷ []) rest in
        let s' : Stream src p (o ∷ (ts ++ c ∷ rest)) = rw e at s in
        let (p₁, e₁, s₁) =
          advance-Stream p o (ts ++ c ∷ rest) s' (omega (arith, length-append ts (c ∷ rest))) in
        let (p₂, e₂, s₂) =
          parse_items-Forms f fs nil p₁ c rest hc s₁ le
            (omega (arith, length-append ts (c ∷ []))) in
        let (p₃, e₃, s₃) = advance-Stream p₂ c rest s₂ le in
        let co = cur_of p o (ts ++ c ∷ rest) s' in
        let cc' = cur_of p₂ c rest s₂ in
        let k : is_kind p.cur.kind TokenKind.lbrack ≡ true = rw (co, ho) in
        let k₂ : is_kind p₂.cur.kind TokenKind.rbrack ≡ true = rw (cc', hc) in
        (p₃, rw (k, e₁, e₂, k₂, e₃, co), s₃)

    parse_items-Forms :
        (f : ℕ) {ns : Nodes} {ts : List Token}
        → Forms strtod src ns ts
        → (acc : Nodes) (p : Parser) (c : Token) (rest : List Token) → c.kind ≡ TokenKind.rbrack
        → Stream src p (ts ++ c ∷ rest)
        → 2 ≤ length rest
        → 2 * length ts + 1 ≤ f
        → (q : Parser) × (parse_items strtod f acc p ≡ some (append acc ns, q))
          × Stream src q (c ∷ rest)
    parse_items-Forms zero gs acc p c rest hc s le h = absurd (omega arith)
    parse_items-Forms (suc f) done acc p c rest hc s le h =
        let k : stops p.cur.kind ≡ true = rw (cur_of p c rest s, hc) in
        (p, rw (k, append-nil acc), s)
    parse_items-Forms (suc f) (more {n} {ns} {ts} {us} g gs) acc p c rest hc s le h =
        let s' : Stream src p (ts ++ (us ++ c ∷ rest)) = rw (append_assoc ts us (c ∷ rest)) at s in
        let (k, l) = cur_stops (us ++ c ∷ rest) p g s' in
        let (p₁, e₁, s₁) =
          parse_form-Form f g p (us ++ c ∷ rest) s' (omega (arith, length-append us (c ∷ rest)))
            (omega (arith, length-append ts us)) in
        let (p₂, e₂, s₂) =
          parse_items-Forms f gs (push acc n) p₁ c rest hc s₁ le
            (omega (arith, length-append ts us)) in
        (p₂, rw (k, e₁, e₂, append-push acc n ns), s₂)

  parse_forms-Forms :
      (f : ℕ) {ns : Nodes} {ts : List Token}
      → Forms strtod src ns ts
      → (acc : Nodes) (p : Parser) (e : Token) (rest : List Token) → e.kind ≡ TokenKind.eof
      → Stream src p (ts ++ e ∷ rest)
      → 1 ≤ length rest
      → 2 * length ts + 1 ≤ f
      → (q : Parser) × (parse_forms strtod f acc p ≡ some (append acc ns, q))
  unfolding parse_forms
  parse_forms-Forms zero gs acc p e rest he s le h = absurd (omega arith)
  parse_forms-Forms (suc f) done acc p e rest he s le h =
      let k : is_kind p.cur.kind TokenKind.eof ≡ true = rw (cur_of p e rest s, he) in
      (p, rw (k, append-nil acc))
  parse_forms-Forms (suc f) (more {n} {ns} {ts} {us} g gs) acc p e rest he s le h =
      let s' : Stream src p (ts ++ (us ++ e ∷ rest)) = rw (append_assoc ts us (e ∷ rest)) at s in
      let (k, l) = cur_stops (us ++ e ∷ rest) p g s' in
      let k' : is_kind p.cur.kind TokenKind.eof ≡ false = not_eof p.cur.kind k in
      let (p₁, e₁, s₁) =
        parse_form-Form f g p (us ++ e ∷ rest) s' (omega (arith, length-append us (e ∷ rest)))
          (omega (arith, length-append ts us)) in
      let (p₂, e₂) =
        parse_forms-Forms f gs (push acc n) p₁ e rest he s₁ le
          (omega (arith, length-append ts us)) in
      (p₂, rw (k', e₁, e₂, append-push acc n ns))

init-Stream :
    (src : Bytes) (ts : List Token)
    → Lexes (lexer_init src) ts
    → 2 ≤ length ts
    → (p : Parser) × (parser_init src ≡ some p) × Stream src p ts
unfolding parser_init lexer_init
init-Stream src [] l le = absurd (omega arith)
init-Stream src (c ∷ []) l le = absurd (omega arith)
init-Stream src (c ∷ d ∷ ts) (lx, e, (lx', e', l)) le =
    let i = lexer_next-IsToken (lex_fuel src) (At-init src) e in
    let e'' : lexer_next (lex_fuel src) lx ≡ some (d, lx') =
      subst (λ b. lexer_next (lex_fuel b) lx ≡ some (d, lx')) i.after.same e' in
    let j = lexer_next-IsToken (lex_fuel src) i.after e'' in
    (record { lx = lx'; cur = c; peek = d }, rw (e, e''), (j.after, (refl, refl, l)))

-- If the lexer turns the buffer into the tokens of a sequence of nodes and then two T_EOF, the parser
-- returns the list of exactly these nodes, given more than twice as much fuel as there are tokens.
pub parse-Forms :
    (strtod : Bytes → Double) (src : Bytes) {ns : Nodes} {ts : List Token} (e e' : Token) (f : ℕ)
    → Forms strtod src ns ts
    → e.kind ≡ TokenKind.eof
    → Lexes (lexer_init src) (ts ++ e ∷ e' ∷ [])
    → 2 * length ts < f
    → (parser_init src >>= parse_toplevel strtod f) ≡ some (list 0 0 ns)
unfolding parse_toplevel append
parse-Forms strtod src {ns} {ts} e e' f fs he l h =
    let (p, e₁, s) =
      init-Stream src (ts ++ e ∷ e' ∷ []) l (omega (arith, length-append ts (e ∷ e' ∷ []))) in
    let (q, e₂) =
      parse_forms-Forms strtod f fs nil p e (e' ∷ []) he s (omega arith) (omega arith) in
    rw (e₁, e₂)
