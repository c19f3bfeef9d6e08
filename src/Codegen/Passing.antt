-- ===== src/Codegen/Passing.antt =====
-- Generated code passed over on the way to a label, and the steps at the branches.
use sqale.Prelude.{
  ℕ, ◌≤◌, ◌<◌, ◌≡◌, refl, true, ◌⊎◌, some, List, [], ◌∷◌, arith, Bool-cases, inl, inr, ==→eq,
}
use sqale.Runtime.{FloatOps}
use sqale.Codegen.Chunks.{Chunk, then_label, else_label, merge_label}
use sqale.Codegen.Grows.{labels, Within}
use sqale.Codegen.Llvm.{
  State, Block, exec, arrive, same_block, on_true, on_false, merged, entry, jumped,
}

abbrev pub number : Block → ℕ
number entry = 0
number (on_true n) = n
number (on_false n) = n
number (merged n) = n

same_block-number : (a b : Block) → same_block a b ≡ true → number a ≡ number b
same_block-number entry entry h = refl
same_block-number (on_true n) (on_true m) h = ==→eq n m h
same_block-number (on_false n) (on_false m) h = ==→eq n m h
same_block-number (merged n) (merged m) h = ==→eq n m h
same_block-number a b h = cc

-- the numbers outside a range
abbrev pub Outside : ℕ → ℕ → ℕ → Type 0
Outside lo n hi = (n < lo) ⊎ (hi ≤ n)

passed :
    (a b : Block) (lo hi : ℕ) (st : State)
    → lo ≤ number a
    → number a < hi
    → Outside lo (number b) hi
    → arrive (some a) b st ≡ st
passed a b lo hi st le lt out = elim (Bool-cases (same_block a b)) [
  | inl h ↦ elim out [
    | inl l ↦ absurd (omega (arith, same_block-number a b h))
    | inr l ↦ absurd (omega (arith, same_block-number a b h))
  ]
  | inr h ↦ rw h refl
]

module _ (fl : FloatOps) where
  -- Code without the label that is looked for does nothing.
  pub exec-skip :
      (xs : List Chunk) (b : Block) (lo hi : ℕ) (st : State)
      → Within lo (labels xs) hi
      → Outside lo (number b) hi
      → exec fl xs (jumped st b) ≡ some (jumped st b)
  unfolding exec labels Within
  exec-skip [] b lo hi st w out = refl
  exec-skip (then_label n ∷ xs) b lo hi st w out =
      rw (passed (on_true n) b lo hi (jumped st b) w.0 w.1 out) (exec-skip xs b lo hi st w.2 out)
  exec-skip (else_label n ∷ xs) b lo hi st w out =
      rw (passed (on_false n) b lo hi (jumped st b) w.0 w.1 out) (exec-skip xs b lo hi st w.2 out)
  exec-skip (merge_label n ∷ xs) b lo hi st w out =
      rw (passed (merged n) b lo hi (jumped st b) w.0 w.1 out) (exec-skip xs b lo hi st w.2 out)
  exec-skip (x ∷ xs) b lo hi st w out = exec-skip xs b lo hi st w out
