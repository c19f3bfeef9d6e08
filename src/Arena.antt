-- ===== src/Arena.antt =====
-- src/arena.c and include/arena.h: memory that is handed out in pieces and freed as a whole.
-- An arena's chunks are a list with the head first; a chunk's number is how many are behind it. A pointer is
-- the number of its chunk with the offset in its data. `malloc` succeeds, and no sum of sizes exceeds
-- `size_t`: the callers' sizes are those of nodes and of names in a source file.
pub mod Masks
pub mod Regions
use sqale.Prelude.{
  ◌>>=◌, ℕ, zero, suc, ◌+◌, ◌-◌, ◌^◌, Option, none, some, List, [], ◌∷◌, if◌then◌else◌, ltb, ◌==◌,
  length,
}
use sqale.Runtime.Bits.{bitwise, and_bit}
use sqale.Buffers.{double_until}

pub record ArenaChunk : Type 0 where
  pub used : ℕ
  pub cap : ℕ

pub record Arena : Type 0 where
  pub chunks : List ArenaChunk
  pub chunk_size : ℕ

-- where the piece lies
pub record Pointer : Type 0 where
  pub chunk : ℕ
  pub off : ℕ

-- `c->data + off`, where `base` has the address that `malloc` gave for each chunk; the data of a chunk
-- begins 24 bytes into it
unfoldable pub address : (ℕ → ℕ) → Pointer → ℕ
address base p = base p.chunk + 24 + p.off

unfoldable pub arena_chunk_new : ℕ → ArenaChunk
arena_chunk_new size = record { used = 0; cap = size }

unfoldable pub arena_init : ℕ → Arena
unfolding arena_chunk_new
arena_init chunk_size =
    let size = if ltb chunk_size 4096 then 4096 else chunk_size in
    record { chunks = arena_chunk_new size ∷ []; chunk_size = size }

unfoldable pub arena_free : Arena → Arena
arena_free a = record a { chunks = [] }

-- `(used + (align - 1)) & ~(align - 1)`
unfoldable pub round_up : ℕ → ℕ → ℕ
unfolding bitwise
round_up used align = bitwise and_bit 64 (used + (align - 1)) (2 ^ 64 - 1 - (align - 1))

-- the piece at `off` of the chunk `c`, with the chunks behind it
unfoldable pub take_piece : Arena → ArenaChunk → List ArenaChunk → ℕ → ℕ → Pointer × Arena
take_piece a c rest off size = (
  record { chunk = length rest; off = off },
  record a { chunks = record c { used = off + size } ∷ rest },
)

-- a piece of the chunk `c`, or of a new one in front of it; 24 is `sizeof(ArenaChunk)`
unfoldable pub alloc_from : Arena → ArenaChunk → List ArenaChunk → ℕ → ℕ → Option (Pointer × Arena)
unfolding round_up take_piece double_until arena_chunk_new
alloc_from a c rest size align =
    let off = round_up c.used align in
    let grown : Option (Pointer × Arena) = do
      newcap ← double_until 65 a.chunk_size (size + align + 24)
      some (take_piece a (arena_chunk_new newcap) (c ∷ rest) (round_up 0 align) size)
    in if ltb c.cap (off + size) then grown else some (take_piece a c rest off size)

-- an alignment of 0 stands for that of a pointer
unfoldable pub align_or_pointer : ℕ → ℕ
align_or_pointer zero = 8
align_or_pointer (suc n) = suc n

unfoldable pub alloc_in : Arena → List ArenaChunk → ℕ → ℕ → Option (Pointer × Arena)
unfolding alloc_from arena_chunk_new
alloc_in a [] size align = alloc_from a (arena_chunk_new a.chunk_size) [] size align
alloc_in a (c ∷ rest) size align = alloc_from a c rest size align

unfoldable pub arena_alloc : Arena → ℕ → ℕ → Option (Pointer × Arena)
unfolding align_or_pointer alloc_in
arena_alloc a size align = alloc_in a a.chunks size (align_or_pointer align)
