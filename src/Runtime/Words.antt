-- ===== src/Runtime/Words.antt =====
-- src/runtime.c: the words of a string.
use sqale.Prelude.{
  ℕ, zero, suc, ◌≤◌, ◌≡◌, refl, ap, ◌∙◌, sym, true, false, Option, none, some, List, [], ◌∷◌, arith,
  if◌then◌else◌, ◌==◌, Bytes, length, Bool-cases, inl, inr, ◌⊎◌, subst,
}
use sqale.Runtime.Strings.{is_ws, skip_ws, split_word, split_ws, rt_str_split_ws}

-- one byte put in front of the words of the rest: into the first of them when the rest begins with it
abbrev grow : ℕ → Bytes → List Bytes → List Bytes
grow c [] ws = (c ∷ []) ∷ ws
grow c (d ∷ ds) [] = (c ∷ []) ∷ []
grow c (d ∷ ds) (w ∷ ws) = if is_ws d then (c ∷ []) ∷ w ∷ ws else (c ∷ w) ∷ ws

-- the maximal runs of bytes that are not white space
abbrev pub words : Bytes → List Bytes
words [] = []
words (c ∷ cs) = if is_ws c then words cs else grow c cs (words cs)

words_ws : (c : ℕ) (cs : Bytes) → is_ws c ≡ true → words (c ∷ cs) ≡ words cs
words_ws c cs h = rw h refl

words-grow : (c : ℕ) (cs : Bytes) → is_ws c ≡ false → words (c ∷ cs) ≡ grow c cs (words cs)
words-grow c cs h = rw h refl

words-skip_ws : (s : Bytes) → words (skip_ws s) ≡ words s
unfolding skip_ws
words-skip_ws [] = refl
words-skip_ws (c ∷ cs) = elim (Bool-cases (is_ws c)) [
  | inl h ↦ ground (arith, words-skip_ws cs)
  | inr h ↦ rw h (words-grow c cs h)
]

split_word_one :
    (c : ℕ) (cs : Bytes)
    → is_ws c ≡ false
    → split_word (c ∷ cs) ≡ (c ∷ (split_word cs).0, (split_word cs).1)
unfolding split_word
split_word_one c cs h = rw h refl

split_word_none : (c : ℕ) (cs : Bytes) → is_ws c ≡ true → split_word (c ∷ cs) ≡ ([], c ∷ cs)
unfolding split_word
split_word_none c cs h = rw h refl

grow_apart :
    (c d : ℕ) (ds : Bytes) (ws : List Bytes) → is_ws d ≡ true → grow c (d ∷ ds) ws ≡ (c ∷ []) ∷ ws
grow_apart c d ds [] h = refl
grow_apart c d ds (w ∷ ws) h = rw h refl

grow_on :
    (c d : ℕ) (ds w : Bytes) (ws : List Bytes)
    → is_ws d ≡ false
    → grow c (d ∷ ds) (w ∷ ws) ≡ (c ∷ w) ∷ ws
grow_on c d ds w ws h = rw h refl

-- At a byte that is no white space the first word is what `split_word` takes.
words-split_word :
    (c : ℕ) (cs : Bytes)
    → is_ws c ≡ false
    → words (c ∷ cs) ≡ (split_word (c ∷ cs)).0 ∷ words (split_word (c ∷ cs)).1
words-split_word c [] h = rw (split_word_one c [] h, words-grow c [] h) (unfold split_word in refl)
words-split_word c (d ∷ ds) h = elim (Bool-cases (is_ws d)) [
  | inl e ↦
      rw (split_word_one c (d ∷ ds) h, split_word_none d ds e, words-grow c (d ∷ ds) h)
        (grow_apart c d ds (words (d ∷ ds)) e)
  | inr e ↦
      rw (split_word_one c (d ∷ ds) h, words-grow c (d ∷ ds) h, words-split_word d ds e)
        (grow_on c d ds (split_word (d ∷ ds)).0 (words (split_word (d ∷ ds)).1) e)
]

-- After the white space the string is at its end or at a byte of a word.
skip_ws_cases :
    (s : Bytes)
    → (skip_ws s ≡ []) ⊎ ((d : ℕ) × (ds : Bytes) × (skip_ws s ≡ d ∷ ds) × (is_ws d ≡ false))
unfolding skip_ws
skip_ws_cases [] = inl refl
skip_ws_cases (c ∷ cs) = elim (Bool-cases (is_ws c)) [
  | inl h ↦ rw h (skip_ws_cases cs)
  | inr h ↦ inr (c, cs, rw h refl, h)
]

length-skip_ws : (s : Bytes) → length (skip_ws s) ≤ length s
unfolding skip_ws
length-skip_ws [] = omega arith
length-skip_ws (c ∷ cs) = ground (arith, length-skip_ws cs)

length-split_word : (s : Bytes) → length (split_word s).1 ≤ length s
unfolding split_word
length-split_word [] = omega arith
length-split_word (c ∷ cs) = ground (arith, length-split_word cs)

abbrev add_word : Bytes → Option (List Bytes) → Option (List Bytes)
add_word w none = none
add_word w (some ws) = some (if length w == 0 then ws else w ∷ ws)

split_ws-at_once :
    (f c : ℕ) (cs : Bytes) (o : Option (List Bytes))
    → split_ws f (split_word (skip_ws (c ∷ cs))).1 ≡ o
    → split_ws (suc f) (c ∷ cs) ≡ add_word (split_word (skip_ws (c ∷ cs))).0 o
unfolding split_ws
split_ws-at_once f c cs none q = rw (split_ws, q) refl
split_ws-at_once f c cs (some ws) q = rw (split_ws, q) refl

split_ws-suc :
    (f c : ℕ) (cs t : Bytes)
    → skip_ws (c ∷ cs) ≡ t
    → split_ws (suc f) (c ∷ cs) ≡ add_word (split_word t).0 (split_ws f (split_word t).1)
split_ws-suc f c cs t e =
    subst (λ t. split_ws (suc f) (c ∷ cs) ≡ add_word (split_word t).0 (split_ws f (split_word t).1))
      e (split_ws-at_once f c cs _ refl)

split_ws-words : (f : ℕ) (s : Bytes) → length s ≤ f → split_ws f s ≡ some (words s)
split_ws-words f [] h = unfold split_ws in refl
split_ws-words zero (c ∷ cs) h = absurd (omega arith)
split_ws-words (suc f) (c ∷ cs) h = elim (skip_ws_cases (c ∷ cs)) [
  | inl e ↦
      split_ws-suc f c cs [] e
      ∙ (unfold split_ws split_word in ap some (ap words (sym e) ∙ words-skip_ws (c ∷ cs)))
  | inr (d, ds, e, ne) ↦
      let one = split_word_one d ds ne in
      let rest =
        split_ws-words f (split_word ds).1
          (omega (arith, length-split_word ds, length-skip_ws (c ∷ cs), ap length e)) in
      let all = ap words (sym e) ∙ words-skip_ws (c ∷ cs) in
      let more : (length (d ∷ (split_word ds).0) == 0) ≡ false = ground arith in
      split_ws-suc f c cs (d ∷ ds) e
      ∙ (rw (one, rest, more) (ap some (sym (rw one at (words-split_word d ds ne)))) ∙ ap some all)
]

-- `rt_str_split_ws` ends, and returns the maximal runs of bytes that are not white space, in order.
pub rt_str_split_ws-words : (s : Bytes) → rt_str_split_ws s ≡ some (words s)
unfolding rt_str_split_ws
rt_str_split_ws-words s = split_ws-words (length s) s (omega arith)
