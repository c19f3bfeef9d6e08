-- ===== src/Collections/Options.antt =====
-- src/runtime.c: the library functions on options and results.
use sqale.Prelude.{Bool, true, false, not, Option, none, some, List, [], ◌∷◌, if◌then◌else◌}
use sqale.Runtime.{Value, bool, unit, option, result}
use sqale.Machine.{Object, option_val, result_val, Run, ◌>>=◌, pure, undefined, alloc, object}

abbrev pub option_contents : Object → Run (Option Value)
option_contents (option_val v) = pure (some v)
option_contents _ = undefined

abbrev pub result_parts : Object → Run (Bool × Value)
result_parts (result_val ok v) = pure (ok, v)
result_parts _ = undefined

abbrev pub result_contents : Object → Run (Option Value)
result_contents o = result_parts o >>= λ (ok, v). pure (if ok then some v else none)

abbrev pub or_else : Value → Option Value → Value
or_else d none = d
or_else d (some v) = v

-- the value in an option or in a result that is `Ok`
unfoldable pub contents : Value → Run (Option Value)
unfolding object
contents (option (some a)) = object a >>= option_contents
contents (result a) = object a >>= result_contents
contents v = pure none

unfoldable pub rt_some : List Value → Run Value
unfolding alloc
rt_some (v ∷ []) = alloc (option_val v) >>= λ a. pure (option (some a))
rt_some _ = pure (option none)

unfoldable pub rt_none_val : List Value → Run Value
rt_none_val args = pure (option none)

-- An option that is not NULL always has a value.
unfoldable pub rt_is_some : List Value → Run Value
rt_is_some (option (some a) ∷ []) = pure (bool true)
rt_is_some _ = pure (bool false)

unfoldable pub rt_is_none : List Value → Run Value
rt_is_none (option (some a) ∷ []) = pure (bool false)
rt_is_none _ = pure (bool true)

unfoldable pub rt_unwrap : List Value → Run Value
unfolding contents
rt_unwrap (v ∷ []) = do c ← contents v; pure (or_else unit c)
rt_unwrap _ = pure unit

unfoldable pub rt_unwrap_or : List Value → Run Value
unfolding contents
rt_unwrap_or (v ∷ d ∷ []) = do c ← contents v; pure (or_else d c)
rt_unwrap_or _ = pure unit

unfoldable pub rt_ok_val : List Value → Run Value
unfolding alloc
rt_ok_val (v ∷ []) = alloc (result_val true v) >>= λ a. pure (result a)
rt_ok_val _ = pure unit

unfoldable pub rt_err_val : List Value → Run Value
unfolding alloc
rt_err_val (v ∷ []) = alloc (result_val false v) >>= λ a. pure (result a)
rt_err_val _ = pure unit

unfoldable pub rt_is_ok : List Value → Run Value
unfolding object
rt_is_ok (result a ∷ []) = do (ok, v) ← object a >>= result_parts; pure (bool ok)
rt_is_ok _ = pure (bool false)

unfoldable pub rt_is_err : List Value → Run Value
unfolding object
rt_is_err (result a ∷ []) = do (ok, v) ← object a >>= result_parts; pure (bool (not ok))
rt_is_err _ = pure (bool true)

unfoldable pub rt_unwrap_err : List Value → Run Value
unfolding object
rt_unwrap_err (result a ∷ []) = do
  (ok, v) ← object a >>= result_parts
  pure (if ok then unit else v)
rt_unwrap_err _ = pure unit
