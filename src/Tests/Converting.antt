-- ===== src/Tests/Converting.antt =====
-- Conversions, printing and the runtime of compiled programs at concrete inputs.
use sqale.Prelude.{suc, ◌≡◌, ◌≢◌, refl, arith, some, List, [], ◌∷◌, ◌++◌, codes, replicate}
use sqale.Prelude.Int.{ℤ, pos, negsuc}
use sqale.Runtime.{int, str, vec}
use sqale.Runtime.Numbers.{rt_int_to_str, rt_str_to_int}
use sqale.Runtime.Print.{rt_print}
use sqale.Runtime.Digits.{written, rt_str_to_int-rt_int_to_str}
use sqale.Compiled.{SqVec, sq_vec_new, sq_vec_push, sq_vec_get}
use sqale.Compiled.Vectors.{IsVec, sq_vec_get-sq_vec_push}

rt_str_to_int-rt_int_to_str_example :
    written (rt_int_to_str (int (negsuc 41) ∷ [])) ≡ some (int (negsuc 41))
rt_str_to_int-rt_int_to_str_example = rt_str_to_int-rt_int_to_str (negsuc 41) refl

minus_42 : rt_int_to_str (int (negsuc 41) ∷ []) ≡ some (str (some (codes "-42")))
unfolding rt_int_to_str
minus_42 = refl

spaced_text : rt_str_to_int (str (some (codes "  +7x")) ∷ []) ≡ some (int (pos 7))
unfolding rt_str_to_int
spaced_text = refl

printed :
    rt_print
      (λ f. [])
      (λ a. some (int (pos 1) ∷ str (some (codes "b")) ∷ []))
      (int (pos 10) ∷ vec (some 0) ∷ [])
    ≡ some (codes "10 [1 \"b\"]" ++ (10 ∷ []))
unfolding rt_print
printed = refl

new-IsVec : IsVec sq_vec_new
unfolding sq_vec_new
new-IsVec = record { cells = refl; some_cap = omega arith; within = omega arith }

abbrev eight : List ℤ
eight = replicate 8 (pos 0)

sq_vec_get-sq_vec_push_example :
    (w : SqVec) × (sq_vec_push eight sq_vec_new (pos 3) ≡ some w)
    × IsVec w
    × (w.len ≡ suc sq_vec_new.len)
    × (sq_vec_get (some w) (pos sq_vec_new.len) ≡ pos 3)
    × (pos 1 ≢ pos sq_vec_new.len
        → sq_vec_get (some w) (pos 1) ≡ sq_vec_get (some sq_vec_new) (pos 1))
unfolding sq_vec_new
sq_vec_get-sq_vec_push_example =
    sq_vec_get-sq_vec_push eight sq_vec_new (pos 3) (pos 1) new-IsVec (omega arith) refl
