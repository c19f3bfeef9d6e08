-- ===== src/Str.antt =====
-- src/str.c and include/str.h: a growing string with a zero behind its text.
-- A byte that was never written is `none`. Whether `realloc` succeeds is an argument. `none` is a write outside
-- the buffer. NULL data is an empty buffer.
use sqale.Prelude.{
  ◌>>=◌, ℕ, zero, suc, ◌+◌, ◌-◌, Bool, Option, none, some, List, [], ◌∷◌, ◌++◌, Bytes, c_string,
  if◌then◌else◌, ltb, ◌==◌, length, replicate,
}
use sqale.Buffers.{double_until}

pub record Str : Type 0 where
  pub buffer : List (Option ℕ)
  pub len : ℕ
  pub cap : ℕ

unfoldable pub str_init : Str
str_init = record { buffer = []; len = 0; cap = 0 }

unfoldable pub str_grow : Bool → ℕ → Str → Option Str
unfolding double_until
str_grow ok mincap s = do
  cap ← double_until 65 (if s.cap == 0 then 32 else s.cap) mincap
  some (if ok then record s { buffer = s.buffer ++ replicate (cap - s.cap) none; cap = cap } else s)

unfoldable pub str_reserve : Bool → ℕ → Str → Option Str
unfolding str_grow
str_reserve ok need s = let grown = str_grow ok need s in if ltb s.cap need then grown else some s

-- the bytes from an offset on
unfoldable pub memcpy : ℕ → Bytes → List (Option ℕ) → Option (List (Option ℕ))
memcpy zero [] buffer = some buffer
memcpy zero (b ∷ bs) [] = none
memcpy zero (b ∷ bs) (x ∷ buffer) = do rest ← memcpy zero bs buffer; some (some b ∷ rest)
memcpy (suc i) bs [] = none
memcpy (suc i) bs (x ∷ buffer) = do rest ← memcpy i bs buffer; some (x ∷ rest)

unfoldable pub str_append_n : Bool → Bytes → Str → Option Str
unfolding str_reserve memcpy
str_append_n ok bytes s = do
  t ← str_reserve ok (s.len + length bytes + 1) s
  buffer ← memcpy t.len (bytes ++ 0 ∷ []) t.buffer
  some (record t { buffer = buffer; len = t.len + length bytes })

unfoldable pub str_append : Bool → Bytes → Str → Option Str
unfolding str_append_n
str_append ok cstr s = str_append_n ok (c_string cstr) s

unfoldable pub str_pushc : Bool → ℕ → Str → Option Str
unfolding str_append_n
str_pushc ok c s = str_append_n ok (c ∷ []) s

abbrev pub zero_first : List (Option ℕ) → List (Option ℕ)
zero_first [] = []
zero_first (x ∷ buffer) = some 0 ∷ buffer

unfoldable pub str_clear : Str → Str
str_clear s = record s { buffer = zero_first s.buffer; len = 0 }

unfoldable pub str_free : Str
str_free = record { buffer = []; len = 0; cap = 0 }
