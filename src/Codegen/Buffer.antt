-- ===== src/Codegen/Buffer.antt =====
-- src/codegen_llvm.c: the buffers `ir_buf` and `globals_buf`, with their lengths and capacities. A copy
-- that leaves the capacity is a fault, `none`. `realloc` always succeeds, and sizes stay below 2 ^ 64.
use sqale.Prelude.{
  ℕ, ◌+◌, ◌*◌, ◌≤◌, ◌<◌, ◌≡◌, refl, ap, sym, ◌∙◌, Option, none, some, List, [], ◌∷◌, ◌++◌, Bytes,
  if◌then◌else◌, length, length-append, leb, ltb, arith, ◌>>=◌, append_assoc, append-nil,
}
use sqale.Ast.{Double}
use sqale.Codegen.Chunks.{Chunk}
use sqale.Codegen.Text.{ir_text, chunk_text}

-- the bytes before the terminating zero, and the capacity
pub record TextBuffer : Type 0 where
  pub text : Bytes
  pub cap : ℕ

-- `malloc(4096)` and `malloc(1024)` of `cg_context_new`, with the empty text
abbrev pub ir_buffer : TextBuffer
ir_buffer = record { text = []; cap = 4096 }

abbrev pub globals_buffer : TextBuffer
globals_buffer = record { text = []; cap = 1024 }

-- `ir_ensure_cap` and `glob_ensure_cap`
unfoldable pub ensure_cap : TextBuffer → ℕ → TextBuffer
ensure_cap b need =
    if leb b.cap (length b.text + need) then record b { cap = (b.cap + need) * 2 } else b

-- the `memcpy` of the text and the write of the zero behind it
unfoldable pub copy_in : TextBuffer → Bytes → Option TextBuffer
copy_in b s =
    if ltb (length b.text + length s) b.cap then some (record b { text = b.text ++ s }) else none

-- `ir_append` and `glob_append`, of a string without a zero byte
unfoldable pub append : TextBuffer → Bytes → Option TextBuffer
unfolding ensure_cap copy_in
append b s = copy_in (ensure_cap b (length s + 1)) s

-- There is room for the terminating zero.
abbrev pub HasRoom : TextBuffer → Type 0
HasRoom b = length b.text < b.cap

-- An append stays inside the buffer, adds the text at the end, and leaves room for the zero.
pub append-HasRoom :
    (b : TextBuffer) (s : Bytes)
    → HasRoom b
    → (b' : TextBuffer) × (append b s ≡ some b')
      × (b'.text ≡ b.text ++ s)
      × HasRoom b'
      × (b.cap ≤ b'.cap)
unfolding append ensure_cap copy_in
append-HasRoom b s h = (
  record { text = b.text ++ s; cap = (ensure_cap b (length s + 1)).cap },
  ground arith,
  refl,
  ground (arith, length-append b.text s),
  ground arith,
)

module _ (show : Double → Bytes) where
  -- the appends of the chunks, one after the other
  unfoldable pub append_all : List Chunk → TextBuffer → Option TextBuffer
  unfolding append chunk_text
  append_all [] b = some b
  append_all (x ∷ xs) b = append b (chunk_text show x) >>= append_all xs

  -- The appends of all chunks stay inside the buffer, which holds their text in the end.
  pub append_all-ir_text :
      (xs : List Chunk) (b : TextBuffer)
      → HasRoom b
      → (b' : TextBuffer) × (append_all xs b ≡ some b')
        × (b'.text ≡ b.text ++ ir_text show xs)
        × HasRoom b'
  unfolding append_all ir_text
  append_all-ir_text [] b h = (b, refl, sym (append-nil b.text), h)
  append_all-ir_text (x ∷ xs) b h =
      let (b₁, e₁, t₁, r₁, c₁) = append-HasRoom b (chunk_text show x) h in
      let (b₂, e₂, t₂, r₂) = append_all-ir_text xs b₁ r₁ in
      (
        b₂,
        (rw e₁ e₂),
        t₂
            ∙ ((ap (λ s. s ++ ir_text show xs) t₁)
                ∙ append_assoc b.text (chunk_text show x) (ir_text show xs)),
        r₂,
      )
