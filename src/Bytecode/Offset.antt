-- ===== src/Bytecode/Offset.antt =====
-- src/jml_bytecode.c: `jml_bytecode_instruction_offset`, the number of bytes that an instruction takes.
use jml.Base.{ℕ, ◌+◌, ◌*◌, ◌^◌, ◌%◌, List, Option, none, some, get_or, u32}
use jml.Value.{Value, none_val}
use jml.Bytecode.Opcode.{
  Opcode, opcode_of, op_nop, op_pop, op_pop_two, op_rot, op_save, op_const, op_const_extended,
  op_none, op_true, op_false, op_bool, op_add, op_sub, op_mul, op_pow, op_div, op_mod, op_not,
  op_neg, op_equal, op_greater, op_greatereq, op_less, op_lesseq, op_noteq, op_concat, op_contain,
  op_jump, op_jump_if_false, op_loop, op_call, op_try_call, op_invoke, op_invoke_extended,
  op_try_invoke, op_try_invoke_extended, op_try_super_invoke, op_try_super_invoke_extended,
  op_super_invoke, op_super_invoke_extended, op_closure, op_closure_extended, op_return, op_spread,
  op_class, op_class_extended, op_class_field, op_class_field_extended, op_inherit, op_set_local,
  op_set_local_extended, op_get_local, op_get_local_extended, op_set_upvalue,
  op_set_upvalue_extended, op_get_upvalue, op_get_upvalue_extended, op_close_upvalue, op_set_global,
  op_set_global_extended, op_get_global, op_get_global_extended, op_def_global,
  op_def_global_extended, op_del_global, op_del_global_extended, op_set_member,
  op_set_member_extended, op_get_member, op_get_member_extended, op_set_index, op_get_index,
  op_swap_global, op_swap_global_extended, op_swap_local, op_super, op_super_extended, op_array,
  op_array_extended, op_map, op_map_extended, op_import, op_import_extended, op_import_wildcard,
  op_import_wildcard_extended, op_end,
}

-- `code[i]`; what C leaves undefined past the end is 0 here.
abbrev pub code_at : List ℕ → ℕ → ℕ
code_at code i = get_or code i 0

-- `(uint16_t)(code[i] << 8) | code[i + 1]`
abbrev pub short_at : List ℕ → ℕ → ℕ
short_at code i = (code_at code i * 2 ^ 8 + code_at code (i + 1)) % 2 ^ 16

-- `upvalue_count` is the field of the function object that a constant refers to.
module _ (upvalue_count : Value → ℕ) where
  -- Both closure cases read the constant's index at byte 1 of the whole code, not behind the opcode.
  unfoldable pub opcode_size : Option Opcode → List ℕ → List Value → ℕ
  opcode_size (some op_nop) code constants = 1
  opcode_size (some op_pop) code constants = 1
  opcode_size (some op_pop_two) code constants = 1
  opcode_size (some op_rot) code constants = 1
  opcode_size (some op_save) code constants = 1
  opcode_size (some op_const) code constants = 2
  opcode_size (some op_const_extended) code constants = 3
  opcode_size (some op_none) code constants = 1
  opcode_size (some op_true) code constants = 1
  opcode_size (some op_false) code constants = 1
  opcode_size (some op_bool) code constants = 1
  opcode_size (some op_add) code constants = 1
  opcode_size (some op_sub) code constants = 1
  opcode_size (some op_mul) code constants = 1
  opcode_size (some op_pow) code constants = 1
  opcode_size (some op_div) code constants = 1
  opcode_size (some op_mod) code constants = 1
  opcode_size (some op_not) code constants = 1
  opcode_size (some op_neg) code constants = 1
  opcode_size (some op_equal) code constants = 1
  opcode_size (some op_greater) code constants = 1
  opcode_size (some op_greatereq) code constants = 1
  opcode_size (some op_less) code constants = 1
  opcode_size (some op_lesseq) code constants = 1
  opcode_size (some op_noteq) code constants = 1
  opcode_size (some op_concat) code constants = 1
  opcode_size (some op_contain) code constants = 1
  opcode_size (some op_jump) code constants = 3
  opcode_size (some op_jump_if_false) code constants = 3
  opcode_size (some op_loop) code constants = 3
  opcode_size (some op_call) code constants = 2
  opcode_size (some op_try_call) code constants = 3
  opcode_size (some op_invoke) code constants = 3
  opcode_size (some op_invoke_extended) code constants = 5
  opcode_size (some op_try_invoke) code constants = 3
  opcode_size (some op_try_invoke_extended) code constants = 5
  opcode_size (some op_try_super_invoke) code constants = 3
  opcode_size (some op_try_super_invoke_extended) code constants = 5
  opcode_size (some op_super_invoke) code constants = 3
  opcode_size (some op_super_invoke_extended) code constants = 5
  opcode_size (some op_closure) code constants =
      u32 (2 + 2 * upvalue_count (get_or constants (code_at code 1) none_val))
  opcode_size (some op_closure_extended) code constants =
      u32 (3 + 2 * upvalue_count (get_or constants (short_at code 1) none_val))
  opcode_size (some op_return) code constants = 1
  opcode_size (some op_spread) code constants = 1
  opcode_size (some op_class) code constants = 2
  opcode_size (some op_class_extended) code constants = 3
  opcode_size (some op_class_field) code constants = 2
  opcode_size (some op_class_field_extended) code constants = 3
  opcode_size (some op_inherit) code constants = 1
  opcode_size (some op_set_local) code constants = 2
  opcode_size (some op_set_local_extended) code constants = 3
  opcode_size (some op_get_local) code constants = 2
  opcode_size (some op_get_local_extended) code constants = 3
  opcode_size (some op_set_upvalue) code constants = 2
  opcode_size (some op_set_upvalue_extended) code constants = 3
  opcode_size (some op_get_upvalue) code constants = 2
  opcode_size (some op_get_upvalue_extended) code constants = 3
  opcode_size (some op_close_upvalue) code constants = 1
  opcode_size (some op_set_global) code constants = 3
  opcode_size (some op_set_global_extended) code constants = 5
  opcode_size (some op_get_global) code constants = 3
  opcode_size (some op_get_global_extended) code constants = 5
  opcode_size (some op_def_global) code constants = 3
  opcode_size (some op_def_global_extended) code constants = 5
  opcode_size (some op_del_global) code constants = 3
  opcode_size (some op_del_global_extended) code constants = 5
  opcode_size (some op_set_member) code constants = 2
  opcode_size (some op_set_member_extended) code constants = 3
  opcode_size (some op_get_member) code constants = 2
  opcode_size (some op_get_member_extended) code constants = 3
  opcode_size (some op_set_index) code constants = 1
  opcode_size (some op_get_index) code constants = 1
  opcode_size (some op_swap_global) code constants = 4
  opcode_size (some op_swap_global_extended) code constants = 7
  opcode_size (some op_swap_local) code constants = 4
  opcode_size (some op_super) code constants = 2
  opcode_size (some op_super_extended) code constants = 3
  opcode_size (some op_array) code constants = 2
  opcode_size (some op_array_extended) code constants = 3
  opcode_size (some op_map) code constants = 2
  opcode_size (some op_map_extended) code constants = 3
  opcode_size (some op_import) code constants = 3
  opcode_size (some op_import_extended) code constants = 5
  opcode_size (some op_import_wildcard) code constants = 4
  opcode_size (some op_import_wildcard_extended) code constants = 7
  opcode_size (some op_end) code constants = 1
  opcode_size none code constants = 1

  unfoldable pub instruction_offset : List ℕ → List Value → ℕ → ℕ
  unfolding opcode_size
  instruction_offset code constants offset =
      opcode_size (opcode_of (code_at code offset)) code constants
