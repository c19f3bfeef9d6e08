-- ===== src/Tests/Growing.antt =====
-- Vectors and arenas at work.
use sqale.Prelude.{
  Option, ℕ, ◌≡◌, refl, true, false, none, some, [], ◌∷◌, arith, replicate, ◌^◌, ◌%◌, ◌*◌,
}
use sqale.Buffers.{Vec, vec_init, vec_push, vec_get, vec_reserve, append, double_until}
use sqale.Ast.Items.{ListItems, node_new_list, node_list_push, put_item}
use sqale.Ast.Room.{Roomy, Pushed, node_list_push-Pushed}
use sqale.Str.{str_init, str_append, str_pushc}
use sqale.Arena.{Arena, Pointer, address, arena_alloc, round_up}
use sqale.Arena.Regions.{IsArena, Piece, arena_alloc_lem}
use sqale.Buffers.Vectors.{Stores, vec_push-Stores, vec_get-Stores, vec_push-no_memory}

-- two items in an array of two slots
abbrev pair : Vec ℕ
pair = record { data_of = some 5 ∷ some 6 ∷ []; len = 2; cap = 2 }

pair-Stores : Stores pair (5 ∷ 6 ∷ [])
pair-Stores = record { len_is = refl; room = omega arith; slots = refl }

vec_push-Stores_example :
    (v' : Vec ℕ) × (vec_push true 7 pair ≡ some v') × Stores v' (5 ∷ 6 ∷ 7 ∷ [])
vec_push-Stores_example = vec_push-Stores pair (5 ∷ 6 ∷ []) 7 pair-Stores (omega arith)

second_item : vec_get 1 pair ≡ some 6
second_item = vec_get-Stores pair (5 ∷ 6 ∷ []) 1 pair-Stores

vec_push-no_memory_example : vec_push false 7 pair ≡ none
vec_push-no_memory_example = vec_push-no_memory pair (5 ∷ 6 ∷ []) 7 pair-Stores refl (omega arith)

-- The first push allocates eight slots.
first_push :
    vec_push true 7 (vec_init {A = ℕ})
    ≡ some (record { data_of = some 7 ∷ replicate 7 none; len = 1; cap = 8 })
unfolding vec_push vec_init vec_reserve append double_until
first_push = refl

-- five bytes of the first chunk are used
abbrev small_arena : Arena
small_arena = record { chunks = record { used = 5; cap = 4096 } ∷ []; chunk_size = 4096 }

small_arena-IsArena : IsArena small_arena
small_arena-IsArena = record {
  within = (omega arith, omega arith, tt);
  some_size = omega arith;
  fair_size = omega arith;
}

-- the chunk with the number i at i times 8192
abbrev places : ℕ → ℕ
places i = i * 8192

arena_alloc_lem_example :
    (r : Pointer × Arena) × (arena_alloc small_arena 24 (2 ^ 3) ≡ some r)
    × (address places r.0 % (2 ^ 3) ≡ 0)
    × IsArena r.1
    × Piece small_arena r.1 r.0 24 (2 ^ 3)
arena_alloc_lem_example =
    arena_alloc_lem places small_arena 24 3 (λ i. omega arith) small_arena-IsArena (omega arith)
      (omega arith)

-- The next multiple of 8 behind the five bytes is 8.
next_multiple : round_up 5 8 ≡ 8
unfolding round_up
next_multiple = refl

-- the length of a string with two bytes and then one more, and after a clear
abbrev three_bytes : Option ℕ
three_bytes = elim (str_append true (7 ∷ 8 ∷ []) str_init) [
  | none ↦ none
  | some s ↦ elim (str_pushc true 9 s) [ none ↦ none | some t ↦ some t.len ]
]

three_bytes_long : three_bytes ≡ some 3
unfolding str_append str_pushc str_init
three_bytes_long = refl

-- Without memory the first byte is written outside the buffer.
no_memory : str_pushc false 9 str_init ≡ none
unfolding str_pushc str_init
no_memory = refl

-- a list of four items whose array is full
abbrev four : ListItems ℕ
four = record { items = 1 ∷ 2 ∷ 3 ∷ 4 ∷ []; slots = 4 }

node_list_push-Pushed_example : Pushed 5 four (node_list_push 5 four)
node_list_push-Pushed_example =
    node_list_push-Pushed 5 four (Roomy.up_to 2 (omega arith) (omega arith)) (omega arith)

-- The array of a new list, whatever its size, is replaced by one of four slots at the first push.
first_item :
    node_list_push 7 (node_new_list {A = ℕ} 9) ≡ some (record { items = 7 ∷ []; slots = 4 })
unfolding node_list_push node_new_list put_item
first_item = refl

-- An address with the alignment 16 is no multiple of 16: the data begins 24 bytes into the chunk.
abbrev beyond_sixteen : ℕ
beyond_sixteen = elim (arena_alloc small_arena 24 16) [
  | none ↦ 0
  | some (p, a) ↦ address places p % 16
]

odd_eight : beyond_sixteen ≡ 8
unfolding arena_alloc round_up address
odd_eight = refl
