-- ===== src/Arena/Regions.antt =====
-- src/arena.c: the pieces that an arena hands out.
use sqale.Prelude.{
  ℕ, zero, suc, ◌+◌, ◌*◌, ◌%◌, ◌^◌, ◌≤◌, ◌<◌, ◌≡◌, ◌≢◌, refl, true, false, Option, some, List, [],
  ◌∷◌, length, ltb, ◌==◌, if◌then◌else◌, arith, Bool-cases, inl, inr, ap, ◌∙◌, sym, ◌⊎◌, subst,
}
use native.Mathlib.Nat.{pow-le-pow_right}
use sqale.Buffers.Growth.{double_until_lem}
use sqale.Arena.{
  ArenaChunk, Arena, Pointer, address, arena_chunk_new, round_up, take_piece, alloc_from,
  arena_alloc, alloc_in, align_or_pointer,
}
use sqale.Arena.Masks.{round_up_lem}

-- the chunks hold what was taken from them, and sizes are far from the end of `size_t`
abbrev pub Within : List ArenaChunk → Type 0
Within [] = Unit
Within (c ∷ rest) = (c.used ≤ c.cap) × (c.cap < 2 ^ 62) × Within rest

pub record IsArena (a : Arena) : Type 0 where
  pub within : Within a.chunks
  pub some_size : 0 < a.chunk_size
  pub fair_size : a.chunk_size < 2 ^ 61

-- the used part of a chunk by its number, 0 for one that is not there yet
abbrev pub used_in : List ArenaChunk → ℕ → ℕ
used_in [] i = 0
used_in (c ∷ rest) i = if i == length rest then c.used else used_in rest i

-- A piece that was handed out: its offset is aligned, it lies behind all that was used of its chunk, and ends where the used part
-- ends now, within the chunk.
pub record Piece (a a' : Arena) (p : Pointer) (size align : ℕ) : Type 0 where
  pub aligned : p.off % align ≡ 0
  pub behind : used_in a.chunks p.chunk ≤ p.off
  pub ends : used_in a'.chunks p.chunk ≡ p.off + size
  pub others : (i : ℕ) → i ≢ p.chunk → used_in a'.chunks i ≡ used_in a.chunks i

used_in-beyond : (cs : List ArenaChunk) (i : ℕ) → length cs ≤ i → used_in cs i ≡ 0
used_in-beyond [] i h = refl
used_in-beyond (c ∷ cs) i h =
    let ne : (i == length cs) ≡ false = ground arith in rw (ne) (used_in-beyond cs i (omega arith))

==_self : (i : ℕ) → (i == i) ≡ true
==_self i = ground arith

==_ne : (i j : ℕ) → i ≢ j → (i == j) ≡ false
==_ne i j h = ground (arith, h)

-- a piece of the head, when the part in front of it is used already
head-Piece :
    (a : Arena) (c : ArenaChunk) (rest : List ArenaChunk) (old : List ArenaChunk)
    (off size align : ℕ)
    → off % align ≡ 0
    → used_in old (length rest) ≤ off
    → ((i : ℕ) → i ≢ length rest → used_in rest i ≡ used_in old i)
    → Piece
        (record a { chunks = old })
        (take_piece a c rest off size).1
        (take_piece a c rest off size).0
        size
        align
unfolding take_piece
head-Piece a c rest old off size align al le same = record {
  aligned = al;
  behind = le;
  ends = rw (==_self (length rest)) refl;
  others = λ i ne. rw (==_ne i (length rest) ne) (same i ne);
}

-- What an allocation gives in an arena with the chunks `old`: the arena is as it should be again.
abbrev AllocatedIn : Arena → ℕ → ℕ → List ArenaChunk → Option (Pointer × Arena) → Type 0
AllocatedIn a size k old result =
    (r : Pointer × Arena) × (result ≡ some r)
    × IsArena r.1
    × Piece (record a { chunks = old }) r.1 r.0 size (2 ^ k)

module _ (a : Arena) (size k : ℕ) (large : 0 < a.chunk_size) (fair : a.chunk_size < 2 ^ 61)
    (few : size < 2 ^ 60) (le : k ≤ 59) where
  in_head :
      (c : ArenaChunk) (rest old : List ArenaChunk)
      → Within rest
      → c.cap < 2 ^ 62
      → c.used < 2 ^ 63
      → round_up c.used (2 ^ k) + size ≤ c.cap
      → used_in old (length rest) ≤ c.used
      → ((i : ℕ) → i ≢ length rest → used_in rest i ≡ used_in old i)
      → AllocatedIn a size k old (some (take_piece a c rest (round_up c.used (2 ^ k)) size))
  unfolding take_piece
  in_head c rest old within cap used room behind same =
      let (al, ge, lt) = round_up_lem c.used k (omega arith) used in
      (
        take_piece a c rest (round_up c.used (2 ^ k)) size,
        refl,
        record { within = (room, cap, within); some_size = large; fair_size = fair },
        head-Piece a c rest old (round_up c.used (2 ^ k)) size (2 ^ k) al (omega arith) same,
      )

  small_need : size + 2 ^ k + 24 < 2 ^ 61
  small_need = let p : 2 ^ k ≤ 2 ^ 59 = pow-le-pow_right {n = 2} (omega arith) le in omega arith

  need_fits : size + 2 ^ k + 24 ≤ 2 ^ 63
  need_fits = let p = small_need in omega arith

  -- a piece of a new chunk in front
  in_new :
      (r : ℕ) (c : ArenaChunk) (rest old : List ArenaChunk)
      → size + 2 ^ k + 24 ≤ r
      → (a.chunk_size ≡ r) ⊎ (r < 2 * (size + 2 ^ k + 24))
      → Within (c ∷ rest)
      → length old ≤ suc (length rest)
      → ((i : ℕ) → used_in (c ∷ rest) i ≡ used_in old i)
      → AllocatedIn a size k old
          (some (take_piece a (arena_chunk_new r) (c ∷ rest) (round_up 0 (2 ^ k)) size))
  unfolding arena_chunk_new
  in_new r c rest old enough bound within len same =
      let need : size + 2 ^ k + 24 < 2 ^ 61 = small_need in
      let (al, ge, lt) = round_up_lem 0 k (omega arith) (omega arith) in
      let cap : r < 2 ^ 62 = elim bound [ inl q ↦ omega arith | inr q ↦ omega arith ] in
      let none_yet : used_in old (suc (length rest)) ≡ 0 =
        used_in-beyond old (suc (length rest)) len in
      in_head (arena_chunk_new r) (c ∷ rest) old within cap (omega arith) (omega arith)
        (omega arith) (λ i ne. same i)

  in_first :
      (c : ArenaChunk) (rest old : List ArenaChunk)
      → Within (c ∷ rest)
      → ((i : ℕ) → used_in (c ∷ rest) i ≡ used_in old i)
      → ltb c.cap (round_up c.used (2 ^ k) + size) ≡ false
      → AllocatedIn a size k old (some (take_piece a c rest (round_up c.used (2 ^ k)) size))
  in_first c rest old (used, cap, within) same room =
      let here : used_in (c ∷ rest) (length rest) ≡ c.used = rw (==_self (length rest)) refl in
      let there : used_in (c ∷ rest) (length rest) ≡ used_in old (length rest) =
        same (length rest) in
      in_head c rest old within cap (omega arith) (ground arith) (omega arith)
        (λ i ne. sym (apart i ne) ∙ same i)
    where
      apart : (i : ℕ) → i ≢ length rest → used_in (c ∷ rest) i ≡ used_in rest i
      apart i ne = rw (==_ne i (length rest) ne) refl

  alloc_from_lem :
      (c : ArenaChunk) (rest old : List ArenaChunk)
      → Within (c ∷ rest)
      → length old ≤ suc (length rest)
      → ((i : ℕ) → used_in (c ∷ rest) i ≡ used_in old i)
      → AllocatedIn a size k old (alloc_from a c rest size (2 ^ k))
  unfolding alloc_from
  alloc_from_lem c rest old within len same =
      elim (Bool-cases (ltb c.cap (round_up c.used (2 ^ k) + size))) [
        | inl full ↦
            let (r, q, enough, more, bound) =
              double_until_lem a.chunk_size (size + 2 ^ k + 24) large need_fits in
            rw (full, q) (in_new r c rest old enough bound within len same)
        | inr room ↦ rw (room) (in_first c rest old within same room)
      ]

  align_is : align_or_pointer (2 ^ k) ≡ 2 ^ k
  unfolding align_or_pointer
  align_is =
      let p : 1 ≤ 2 ^ k = pow-le-pow_right {n = 2} (omega arith) {i = 0} {j = k} (omega arith) in
      nonzero (2 ^ k) p
    where
      nonzero : (n : ℕ) → 1 ≤ n → align_or_pointer n ≡ n
      nonzero zero h = absurd (omega arith)
      nonzero (suc n) h = refl

  first_same : (i n : ℕ) → used_in (arena_chunk_new n ∷ []) i ≡ 0
  unfolding arena_chunk_new
  first_same i n = elim (Bool-cases (i == 0)) [ inl h ↦ rw (h) refl | inr h ↦ rw (h) refl ]

  first_within : Within (arena_chunk_new a.chunk_size ∷ [])
  unfolding arena_chunk_new
  first_within = (omega arith, omega arith, tt)

  at_most : {n m : ℕ} → n ≡ suc m → n ≤ suc m
  at_most h = omega arith

  none_longer : {n : ℕ} → n ≡ 0 → n ≤ 1
  none_longer h = omega arith

  any_chunks :
      (cs : List ArenaChunk)
      → a.chunks ≡ cs
      → Within cs
      → AllocatedIn a size k a.chunks (alloc_in a cs size (2 ^ k))
  unfolding alloc_in
  any_chunks [] e within =
      alloc_from_lem (arena_chunk_new a.chunk_size) [] a.chunks first_within
        (none_longer (ap length e))
        (λ i. first_same i a.chunk_size ∙ sym (ap (λ cs. used_in cs i) e))
  any_chunks (c ∷ rest) e within =
      alloc_from_lem c rest a.chunks within (at_most (ap length e))
        (λ i. sym (ap (λ cs. used_in cs i) e))

alloc_piece :
    (a : Arena) (size k : ℕ)
    → IsArena a
    → size < 2 ^ 60
    → k ≤ 59
    → AllocatedIn a size k a.chunks (arena_alloc a size (2 ^ k))
unfolding arena_alloc
alloc_piece a size k ok few le =
    subst (λ align. AllocatedIn a size k a.chunks (alloc_in a a.chunks size align))
      (sym (align_is a size k ok.some_size ok.fair_size few le))
      (any_chunks a size k ok.some_size ok.fair_size few le a.chunks refl ok.within)

data_aligned : (k b off : ℕ) → k ≤ 3 → b % 16 ≡ 0 → off % (2 ^ k) ≡ 0 → (b + 24 + off) % (2 ^ k) ≡ 0
data_aligned zero b off le h o = omega arith
data_aligned (suc zero) b off le h o = omega arith
data_aligned (suc (suc zero)) b off le h o = omega arith
data_aligned (suc (suc (suc zero))) b off le h o = omega arith
data_aligned (suc (suc (suc (suc k)))) b off le h o = absurd (omega arith)

-- When `malloc` gives addresses that are multiples of 16, an allocation of less than 2 ^ 60 bytes with an alignment
-- of 1, 2, 4 or 8, in an arena whose chunks hold what was taken from them and are far smaller than `size_t`
-- allows, gives an address with that alignment. The piece is within one chunk and behind everything that
-- was used of that chunk, while all other chunks stay as they were. The arena is as it should be again, so
-- no two pieces overlap.
pub arena_alloc_lem :
    (base : ℕ → ℕ) (a : Arena) (size k : ℕ)
    → ((i : ℕ) → base i % 16 ≡ 0)
    → IsArena a
    → size < 2 ^ 60
    → k ≤ 3
    → (r : Pointer × Arena) × (arena_alloc a size (2 ^ k) ≡ some r)
      × (address base r.0 % (2 ^ k) ≡ 0)
      × IsArena r.1
      × Piece a r.1 r.0 size (2 ^ k)
unfolding address
arena_alloc_lem base a size k malloc ok few le =
    let (r, e, again, piece) = alloc_piece a size k ok few (omega arith) in
    (
      r,
      e,
      data_aligned k (base r.0.chunk) r.0.off le (malloc r.0.chunk) piece.aligned,
      again,
      piece,
    )
