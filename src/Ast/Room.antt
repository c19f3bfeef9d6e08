-- ===== src/Ast/Room.antt =====
-- src/ast.c: the array of a list's items has room for what is pushed.
use native.Mathlib.Decide.{ℕ_discrete}
use native.Mathlib.Nat.{mod-eq_of_lt, pow-succ'}
use sqale.Prelude.{
  ℕ, suc, ◌+◌, ◌-◌, ◌*◌, ◌%◌, ◌^◌, ◌≤◌, ◌<◌, ◌≡◌, refl, sym, ap, ◌∙◌, subst, true, false, ◌||◌,
  Option, some, [], ◌∷◌, ◌++◌, length, length-append, ltb, ◌==◌, inl, inr, arith, Bool-cases,
  if◌then◌else◌, ==→eq,
}
use sqale.Buffers.{double_until}
use sqale.Runtime.Bits.{bitwise, and_bit}
use sqale.Ast.Items.{ListItems, one_bit, put_item, node_list_push}
use sqale.Ast.Powers.{power-one_bit, one_bit-power}

module _ (f nc need : ℕ) where
  double_done : need ≤ nc → double_until (suc f) nc need ≡ some nc
  unfolding double_until
  double_done h = let t : ltb nc need ≡ false = ground arith in rw t refl

  double_more :
      nc < need → nc * 2 < 2 ^ 64 → double_until (suc f) nc need ≡ double_until f (nc * 2) need
  unfolding double_until
  double_more h small =
      let t : ltb nc need ≡ true = ground arith in
      let w : nc * 2 % 2 ^ 64 ≡ nc * 2 = mod-eq_of_lt small in
      rw t (ap (λ c. double_until f c need) w)

abbrev first_cap : ℕ → ℕ
first_cap n = if n == 0 then 4 else n

-- the size of the new array
start_cap : (n : ℕ) → n ≡ 0 → double_until 65 (first_cap n) (n + 1) ≡ some 4
start_cap n h =
    subst (λ k. double_until 65 (first_cap k) (k + 1) ≡ some 4) (sym h)
      (double_done 64 4 1 (omega arith))

next_cap : (n : ℕ) → 0 < n → n < 2 ^ 63 → double_until 65 (first_cap n) (n + 1) ≡ some (n * 2)
next_cap n pos lt =
    let t : (n == 0) ≡ false = ground arith in
    ap (λ b. double_until 65 (if b then 4 else n) (n + 1)) t
    ∙ (double_more 64 n (n + 1) (omega arith) (omega arith)
        ∙ double_done 63 (n * 2) (n + 1) (omega arith))

module _ {ℓ} {A : Type ℓ} where
  -- The array has room up to a power of two, which the count does not exceed; an empty list may have any array.
  pub data Roomy (l : ListItems A) : Type ℓ where
    empty : length l.items ≡ 0 → Roomy l
    up_to : (k : ℕ) → length l.items ≤ 2 ^ k → 2 ^ k ≤ l.slots → Roomy l

  -- what a push gives: the items with the new one behind them, all of them inside the array
  abbrev pub Pushed : A → ListItems A → Option (ListItems A) → Type ℓ
  Pushed x l r =
      (l' : ListItems A) × (r ≡ some l')
      × (l'.items ≡ l.items ++ x ∷ [])
      × (length l'.items ≤ l'.slots)
      × Roomy l'

  put-Pushed :
      (x : A) (l : ListItems A) (k : ℕ)
      → length l.items < 2 ^ k
      → 2 ^ k ≤ l.slots
      → Pushed x l (put_item x l)
  unfolding put_item
  put-Pushed x l k lt le =
      let t : ltb (length l.items) l.slots ≡ true = ground arith in
      let len = length-append l.items (x ∷ []) in
      (_, rw t refl, refl, omega arith, Roomy.up_to k (omega arith) le)

  -- Where the test holds, the item goes into a new array, and else into the old one.
  new_array :
      (x : A) (l : ListItems A) (cap : ℕ)
      → double_until 65 (first_cap (length l.items)) (length l.items + 1) ≡ some cap
      → (length l.items == 0 || one_bit (length l.items)) ≡ true
      → node_list_push x l ≡ put_item x (record l { slots = cap })
  unfolding node_list_push
  new_array x l cap h t = rw (h, t) refl

  old_array :
      (x : A) (l : ListItems A) (cap : ℕ)
      → double_until 65 (first_cap (length l.items)) (length l.items + 1) ≡ some cap
      → (length l.items == 0 || one_bit (length l.items)) ≡ false
      → node_list_push x l ≡ put_item x l
  unfolding node_list_push
  old_array x l cap h t = rw (h, t) refl

  -- a count that passes the test is a power of two, and one that does not is none
  at_power :
      (x : A) (l : ListItems A)
      → 0 < length l.items
      → length l.items < 2 ^ 63
      → one_bit (length l.items) ≡ true
      → Pushed x l (node_list_push x l)
  unfolding one_bit
  at_power x l pos small p =
      let n = length l.items in
      let (j, e) =
        one_bit-power 64 n pos (omega arith) (==→eq (bitwise and_bit 64 n (n - 1)) 0 p) in
      let q : 2 ^ suc j ≡ 2 * 2 ^ j = pow-succ' 2 j in
      let t : (n == 0 || one_bit n) ≡ true = ground (arith, p) in
      subst (Pushed x l) (sym (new_array x l (n * 2) (next_cap n pos small) t))
        (put-Pushed x (record l { slots = n * 2 }) (suc j) (omega arith) (omega arith))

  below_power :
      (x : A) (l : ListItems A)
      → Roomy l
      → 0 < length l.items
      → length l.items < 2 ^ 63
      → one_bit (length l.items) ≡ false
      → Pushed x l (node_list_push x l)
  unfolding one_bit
  below_power x l (Roomy.empty h) pos small p = absurd (omega arith)
  below_power x l (Roomy.up_to k le room) pos small p =
      let n = length l.items in
      let t : (n == 0 || one_bit n) ≡ false = ground (arith, p) in
      elim (ℕ_discrete n (2 ^ k)) [
        | yes e ↦
            let z : bitwise and_bit 64 n (n - 1) ≡ 0 =
              subst (λ y. bitwise and_bit 64 y (y - 1) ≡ 0) (sym e) (power-one_bit 64 k) in
            absurd (ground (arith, z, p))
        | no ne ↦
            subst (Pushed x l) (sym (old_array x l (n * 2) (next_cap n pos small) t))
              (put-Pushed x l k (omega arith) room)
      ]

  -- A push onto a list of fewer than 2 ^ 63 items, whose array has room up to a power of two not below
  -- the count, ends and writes inside the array. The item is behind the others, and the array is again
  -- as it should be.
  pub node_list_push-Pushed :
      (x : A) (l : ListItems A)
      → Roomy l
      → length l.items < 2 ^ 63
      → Pushed x l (node_list_push x l)
  node_list_push-Pushed x l r small = elim (ℕ_discrete (length l.items) 0) [
    | yes h ↦
        let t : (length l.items == 0 || one_bit (length l.items)) ≡ true = ground (arith, h) in
        subst (Pushed x l) (sym (new_array x l 4 (start_cap (length l.items) h) t))
          (put-Pushed x (record l { slots = 4 }) 0 (omega arith) (omega arith))
    | no h ↦ elim (Bool-cases (one_bit (length l.items))) [
      | inl p ↦ at_power x l (omega arith) small p
      | inr p ↦ below_power x l r (omega arith) small p
    ]
  ]
