-- ===== src/Lexer/Place.antt =====
-- Lines and columns of an offset into a buffer, described without the lexer.
use native.Mathlib.Numerals.{add-one}
use sqale.Prelude.{
  ℕ, zero, suc, ◌+◌, ◌<◌, ◌≡◌, refl, ap, [], ◌∷◌, ◌++◌, arith, ◌==◌, if◌then◌else◌, Bytes, length,
  get_or, take, length-append,
}

pub newlines : Bytes → ℕ
newlines [] = 0
newlines (c ∷ cs) = if c == b'\n' then suc (newlines cs) else newlines cs

-- what follows the last newline
pub last_line : Bytes → Bytes
unfolding newlines
last_line [] = []
last_line (c ∷ cs) = if newlines cs == 0 then (if c == b'\n' then cs else c ∷ cs) else last_line cs

-- both count from 1
unfoldable pub line_of : Bytes → ℕ → ℕ
unfolding newlines
line_of s n = newlines (take n s) + 1

unfoldable pub col_of : Bytes → ℕ → ℕ
unfolding last_line
col_of s n = length (last_line (take n s)) + 1

newlines-concat :
    (xs : Bytes) (c : ℕ) → newlines (xs ++ c ∷ []) ≡ newlines xs + (if c == b'\n' then 1 else 0)
unfolding newlines
newlines-concat [] c = ground arith
newlines-concat (x ∷ xs) c = ground (arith, newlines-concat xs c)

last_line_of_one : (xs : Bytes) → newlines xs ≡ 0 → last_line xs ≡ xs
unfolding last_line newlines
last_line_of_one [] h = refl
last_line_of_one (x ∷ xs) h = ground (arith, last_line_of_one xs)

last_line-concat :
    (xs : Bytes) (c : ℕ)
    → last_line (xs ++ c ∷ []) ≡ (if c == b'\n' then [] else last_line xs ++ c ∷ [])
unfolding last_line
last_line-concat [] c = ground arith
last_line-concat (x ∷ xs) c =
    ground (arith, newlines-concat xs c, last_line-concat xs c, last_line_of_one xs)

take-suc : (xs : Bytes) (n : ℕ) → n < length xs → take (suc n) xs ≡ take n xs ++ get_or xs n 0 ∷ []
take-suc [] n h = absurd (omega arith)
take-suc (x ∷ xs) zero h = refl
take-suc (x ∷ xs) (suc n) h = ap (◌∷◌ x) (take-suc xs n (omega arith))

-- One more byte moves to the next column, or to the start of the next line.
pub line_of-suc :
    (s : Bytes) (n : ℕ)
    → n < length s
    → line_of s (n + 1) ≡ line_of s n + (if get_or s n 0 == b'\n' then 1 else 0)
unfolding line_of
line_of-suc s n h =
    simp (add-one, take-suc s n h) (omega (arith, newlines-concat (take n s) (get_or s n 0)))

pub col_of-suc :
    (s : Bytes) (n : ℕ)
    → n < length s
    → col_of s (n + 1) ≡ (if get_or s n 0 == b'\n' then 1 else col_of s n + 1)
unfolding col_of
col_of-suc s n h =
    simp (add-one, take-suc s n h)
      (ground (
        arith,
        last_line-concat (take n s) (get_or s n 0),
        length-append (last_line (take n s)) (get_or s n 0 ∷ []),
      ))
