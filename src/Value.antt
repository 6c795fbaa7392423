-- ===== src/Value.antt =====
-- include/jml/jml_value.h: values, as the tests of the header tell them apart.
use jml.Base.{ℕ, Bool, true, false, not}

-- A number is the bit pattern of its double, an object the address of it.
pub data Value : Type 0 where
  none_val : Value
  bool_val : Bool → Value
  num_val : ℕ → Value
  obj_val : ℕ → Value

abbrev pub true_val : Value
true_val = bool_val true

unfoldable pub is_none : Value → Bool
is_none none_val = true
is_none _ = false

unfoldable pub falsey : Value → Bool
falsey none_val = true
falsey (bool_val b) = not b
falsey _ = false
