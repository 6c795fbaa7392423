-- ===== src/Object/Array.antt =====
-- src/jml_type.c and src/jml_vm.c: array objects, which are appended to, and joined by the virtual machine.
use jml.Base.{
  ℕ, zero, suc, ◌+◌, Bool, true, Option, some, none, get_or, ltb, ◌==◌, if◌then◌else◌, ◌>>=◌,
}
use jml.Value.{Value, none_val, obj_val}
use jml.Bytecode.Array.{ValueArray, value_array_init, value_array_write}
use jml.Object.Intern.{write_at}

-- The objects by their addresses, of which `fresh` is the next: which of them are arrays, and their values. That
-- the code keeps objects from the collector, by the stack or the exempt stack, is left out.
pub record Arrays : Type 0 where
  pub is_array : ℕ → Bool
  pub arrays : ℕ → ValueArray
  pub fresh : ℕ

-- `jml_obj_array_new`
unfoldable pub array_new : Arrays → ℕ × Arrays
unfolding value_array_init
array_new s = (
  s.fresh,
  record {
    is_array = write_at s.is_array s.fresh true;
    arrays = write_at s.arrays s.fresh value_array_init;
    fresh = s.fresh + 1;
  },
)

-- `jml_obj_array_append`
unfoldable pub array_append : Arrays → ℕ → Value → Arrays
unfolding value_array_write
array_append s array value = record s {
  arrays = write_at s.arrays array (value_array_write (s.arrays array) value);
}

-- The loop of `jml_obj_array_add`, which reads the count of the source again each time. `none`: no fuel is left.
unfoldable pub append_from : ℕ → Arrays → ℕ → ℕ → ℕ → Option Arrays
unfolding array_append
append_from zero s source dest i = none
append_from (suc n) s source dest i =
    let value = get_or (s.arrays source).values i none_val in
    let rest = append_from n (array_append s dest value) source dest (i + 1) in
    if ltb i (s.arrays source).count then rest else some s

unfoldable pub array_add : ℕ → Arrays → ℕ → ℕ → Option Arrays
unfolding append_from
array_add n s source dest = append_from n s source dest 0

-- `jml_array_copy`
unfoldable pub array_copy : ℕ → Arrays → ℕ → Option (ℕ × Arrays)
unfolding array_new append_from
array_copy n s array =
    let (copy, with_copy) = array_new s in
    append_from n with_copy array copy 0 >>= λ filled. some (copy, filled)

-- What `jml_array_concatenate` does with the copy, whose loop is that of `jml_obj_array_add`.
abbrev pub join_value : ℕ → Arrays → ℕ → ℕ → Value → Option Arrays
join_value n s array copy (obj_val k) =
    if s.is_array k
    then (if array == k then some s else append_from n s k copy 0)
    else some (array_append s copy (obj_val k))
join_value n s array copy value = some (array_append s copy value)

-- `jml_array_concatenate`, but for the stack from which it takes its arguments and to which it gives the copy.
unfoldable pub array_concatenate : ℕ → Arrays → ℕ → Value → Option (ℕ × Arrays)
unfolding array_copy append_from array_append
array_concatenate n s array value =
    array_copy n s array >>= λ r. join_value n r.1 array r.0 value >>= λ joined. some (r.0, joined)
