-- ===== src/Types/Text.antt =====
-- src/type.c: types as text, `ty_kind_name` and `ty_to_string`.
-- `snprintf` into `n` bytes keeps at most n - 1 of the text. The buffer's size is a number, and the text that is written
-- there is the result. `none` is a write outside the array `tmp` of a function type.
use sqale.Prelude.{
  ◌>>=◌, ℕ, ◌+◌, ◌-◌, Option, none, some, [], ◌++◌, Bytes, codes, if◌then◌else◌, ltb, take, length,
}
use sqale.Types.{
  Ty, Tys, int, float, bool, str, unit, any, func, chan, vec, map, option, result, struct, enum,
  error, nil, cons,
}

-- the name of a type's kind; the answer to a number that is no kind is left out
unfoldable pub ty_kind_name : Ty → Bytes
ty_kind_name int = codes "Int"
ty_kind_name float = codes "Float"
ty_kind_name bool = codes "Bool"
ty_kind_name str = codes "Str"
ty_kind_name unit = codes "Unit"
ty_kind_name (func ps r) = codes "Func"
ty_kind_name any = codes "Any"
ty_kind_name (chan t) = codes "Chan"
ty_kind_name error = codes "Error"
ty_kind_name (vec t) = codes "Vec"
ty_kind_name (map k v) = codes "Map"
ty_kind_name (option t) = codes "Option"
ty_kind_name (result t e) = codes "Result"
ty_kind_name (struct n fs ns) = codes "Struct"
ty_kind_name (enum n vs) = codes "Enum"

-- `snprintf` into a buffer of this size
abbrev pub printed : ℕ → Bytes → Bytes
printed bufsize text = take (bufsize - 1) text

-- text at `pos` of the 256 bytes of `tmp`
abbrev pub at_pos : ℕ → Bytes → Option Bytes
at_pos pos text = if ltb 256 pos then none else some text

unfoldable mutual
  pub ty_to_string : ℕ → Ty → Option Bytes
  ty_to_string n int = some (printed n (codes "Int"))
  ty_to_string n float = some (printed n (codes "Float"))
  ty_to_string n bool = some (printed n (codes "Bool"))
  ty_to_string n str = some (printed n (codes "Str"))
  ty_to_string n unit = some (printed n (codes "Unit"))
  ty_to_string n any = some (printed n (codes "Any"))
  ty_to_string n (chan t) = do
    elem ← ty_to_string 128 t
    some (printed n (codes "(Chan " ++ elem ++ codes ")"))
  ty_to_string n (func ps r) = do
    params ← params_to_string 1 [] ps
    ret ← ty_to_string 64 r
    tail ← at_pos (1 + length params) (codes " -> " ++ ret ++ codes ")")
    some (printed n (printed 256 (codes "(" ++ params ++ tail)))
  ty_to_string n error = some (printed n (codes "<type-error>"))
  ty_to_string n (vec t) = do
    elem ← ty_to_string 64 t
    some (printed n (codes "(Vec " ++ elem ++ codes ")"))
  ty_to_string n (map k v) = do
    key ← ty_to_string 32 k
    val ← ty_to_string 32 v
    some (printed n (codes "(Map " ++ key ++ codes " " ++ val ++ codes ")"))
  ty_to_string n (option t) = do
    elem ← ty_to_string 64 t
    some (printed n (codes "(Option " ++ elem ++ codes ")"))
  ty_to_string n (result t e) = do
    ok ← ty_to_string 32 t
    err ← ty_to_string 32 e
    some (printed n (codes "(Result " ++ ok ++ codes " " ++ err ++ codes ")"))
  ty_to_string n (struct name fs ns) = some (printed n name)
  ty_to_string n (enum name vs) = some (printed n name)

  -- the parameters from `pos` on, with what stands between them and the one before
  pub params_to_string : ℕ → Bytes → Tys → Option Bytes
  params_to_string pos gap nil = some []
  params_to_string pos gap (cons t ts) = do
    param ← ty_to_string 64 t
    text ← at_pos pos (gap ++ param)
    rest ← params_to_string (pos + length text) (codes " ") ts
    some (text ++ rest)
