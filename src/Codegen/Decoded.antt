-- ===== src/Codegen/Decoded.antt =====
-- src/codegen_llvm.c: the text of a string constant, read by LLVM's rule for c"...", is the string.
use sqale.Prelude.{ℕ, ◌+◌, ◌*◌, ◌-◌, ◌<◌, [], ◌∷◌, Bytes, if◌then◌else◌, ◌==◌, ltb}

abbrev pub unhex : ℕ → ℕ
unhex d = if ltb d 58 then d - 48 else d - 55

-- A backslash and two hexadecimal digits are a byte; any other byte is itself.
unfoldable pub decoded : Bytes → Bytes
decoded [] = []
decoded (c ∷ []) = c ∷ []
decoded (c ∷ a ∷ []) = c ∷ decoded (a ∷ [])
decoded (c ∷ a ∷ b ∷ rest) =
    let code = (16 * unhex a + unhex b) ∷ decoded rest in
    let plain = c ∷ decoded (a ∷ b ∷ rest) in if c == 92 then code else plain

unfoldable pub AreBytes : Bytes → Type 0
AreBytes [] = Unit {0}
AreBytes (c ∷ cs) = (c < 256) × AreBytes cs
