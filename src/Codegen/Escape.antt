-- ===== src/Codegen/Escape.antt =====
-- src/codegen_llvm.c: `cg_string_text`, the text of a string constant. A byte is a number below 256;
-- `char` is signed, so the bytes from 128 on are less than 32.
use sqale.Prelude.{
  ℕ, ◌+◌, ◌/◌, ◌%◌, ◌||◌, List, [], ◌∷◌, ◌++◌, Bytes, codes, if◌then◌else◌, length, ◌==◌, ltb,
}
use sqale.Prelude.Decimal.{decimal}
use sqale.Codegen.Context.{Const}

-- a hexadecimal digit of `%02X`
abbrev pub hex_digit : ℕ → ℕ
hex_digit n = if ltb n 10 then 48 + n else 55 + n

unfoldable pub escape : ℕ → Bytes
escape c =
    if c == 10
    then codes "\\0A"
    else if c == 13
    then codes "\\0D"
    else if c == 9
    then codes "\\09"
    else if c == 92
    then codes "\\5C"
    else if c == 34
    then codes "\\22"
    else if ltb c 32 || ltb 126 c
    then 92 ∷ hex_digit (c / 16) ∷ hex_digit (c % 16) ∷ []
    else c ∷ []

unfoldable pub escaped : Bytes → Bytes
unfolding escape
escaped [] = []
escaped (c ∷ cs) = escape c ++ escaped cs

-- @.str0 = private unnamed_addr constant [3 x i8] c"hi\00"
unfoldable pub const_text : Const → Bytes
unfolding escaped decimal
const_text k =
    codes "@.str"
    ++ (decimal k.id
        ++ (codes " = private unnamed_addr constant ["
            ++ (decimal (length k.text + 1)
                ++ (codes " x i8] c\"" ++ (escaped k.text ++ (codes "\\00\"" ++ (10 ∷ [])))))))

unfoldable pub consts_text : List Const → Bytes
unfolding const_text
consts_text [] = []
consts_text (k ∷ ks) = const_text k ++ consts_text ks
