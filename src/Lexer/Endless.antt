-- ===== src/Lexer/Endless.antt =====
-- src/lexer.c: a symbol at the end of the buffer.
use sqale.Prelude.{
  ℕ, zero, suc, ◌≤◌, ◌≡◌, refl, Bool, true, ◌&&◌, none, arith, Bytes, get_or, drop, [], ◌∷◌, ◌∙◌,
}
use sqale.Lexer.{
  Lexer, peek, advance, skip_while, skip_ws_comments, is_alpha, is_digit, is_space, is_sym_part,
  is_sym_start, next_symbol, token_at, lexer_next,
}

-- Every byte of the list passes the test.
abbrev pub only : (ℕ → Bool) → Bytes → Bool
only test [] = true
only test (c ∷ cs) = test c && only test cs

-- From the cursor on `peek` sees nothing but symbol bytes, the zero past the end included.
abbrev SymbolsFrom : Bytes → ℕ → Type 0
SymbolsFrom s p = (i : ℕ) → p ≤ i → is_sym_part (get_or s i 0) ≡ true

only-get_or :
    (test : ℕ → Bool) (s : Bytes) (p i : ℕ)
    → test 0 ≡ true
    → only test (drop p s) ≡ true
    → p ≤ i
    → test (get_or s i 0) ≡ true
only-get_or test [] p i z h le = z
only-get_or test (c ∷ cs) zero zero z h le = ground arith
only-get_or test (c ∷ cs) zero (suc i) z h le =
    only-get_or test cs zero i z (ground arith) (omega arith)
only-get_or test (c ∷ cs) (suc p) zero z h le = absurd (omega arith)
only-get_or test (c ∷ cs) (suc p) (suc i) z h le = only-get_or test cs p i z h (omega arith)

only-SymbolsFrom : (s : Bytes) (p : ℕ) → only is_sym_part (drop p s) ≡ true → SymbolsFrom s p
only-SymbolsFrom s p h i le = only-get_or is_sym_part s p i (unfold is_sym_part in refl) h le

advance_forward : (lx : Lexer) → ((advance lx).src ≡ lx.src) × (lx.pos ≤ (advance lx).pos)
unfolding advance
advance_forward lx = ground arith

advance-SymbolsFrom :
    (lx : Lexer) → SymbolsFrom lx.src lx.pos → SymbolsFrom (advance lx).src (advance lx).pos
advance-SymbolsFrom lx h i le = let (same, from) = advance_forward lx in rw same (h i (omega arith))

skip_while_endless :
    (f : ℕ) (lx : Lexer) → SymbolsFrom lx.src lx.pos → skip_while is_sym_part f lx ≡ none
unfolding skip_while peek
skip_while_endless zero lx h = refl
skip_while_endless (suc f) lx h =
    rw (h lx.pos (omega arith)) (skip_while_endless f (advance lx) (advance-SymbolsFrom lx h))

-- A letter is no white space, and starts no other token than a symbol.
letter_starts_symbol :
    (f : ℕ) (lx : Lexer)
    → is_alpha (peek lx) ≡ true
    → lexer_next (suc f) lx ≡ next_symbol (suc f) lx
unfolding lexer_next skip_ws_comments token_at is_space is_digit is_sym_start
letter_starts_symbol f lx h = ground arith

-- When only symbol bytes are left in the buffer and the first of them is a letter, `lexer_next` does
-- not return, whatever the fuel.
pub lexer_next_endless :
    (f : ℕ) (lx : Lexer)
    → is_alpha (peek lx) ≡ true
    → only is_sym_part (drop lx.pos lx.src) ≡ true
    → lexer_next f lx ≡ none
unfolding next_symbol lexer_next skip_ws_comments
lexer_next_endless zero lx h k = refl
lexer_next_endless (suc f) lx h k =
    let e =
      skip_while_endless (suc f) (advance lx)
        (advance-SymbolsFrom lx (only-SymbolsFrom lx.src lx.pos k)) in
    letter_starts_symbol f lx h ∙ rw e
