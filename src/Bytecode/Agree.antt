-- ===== src/Bytecode/Agree.antt =====
-- src/jml_bytecode.c: the disassembler and `jml_bytecode_instruction_offset` on the length of an instruction.
use jml.Base.{
  ℕ, zero, suc, ◌+◌, ◌*◌, ◌^◌, ◌<◌, ◌≤◌, ◌≡◌, refl, ◌∙◌, List, Option, none, some, u32, arith,
}
use jml.Value.{Value}
use jml.Bytecode.Opcode.{
  Opcode, opcode_of, op_nop, op_pop, op_pop_two, op_rot, op_save, op_const, op_const_extended,
  op_none, op_true, op_false, op_bool, op_add, op_sub, op_mul, op_pow, op_div, op_mod, op_not,
  op_neg, op_equal, op_greater, op_greatereq, op_less, op_lesseq, op_noteq, op_concat, op_contain,
  op_jump, op_jump_if_false, op_loop, op_call, op_try_call, op_invoke, op_invoke_extended,
  op_try_invoke, op_try_invoke_extended, op_try_super_invoke, op_try_super_invoke_extended,
  op_super_invoke, op_super_invoke_extended, op_closure, op_closure_extended, op_return, op_spread,
  op_class, op_class_extended, op_class_field, op_class_field_extended, op_inherit, op_set_local,
  op_set_local_extended, op_get_local, op_get_local_extended, op_set_upvalue,
  op_set_upvalue_extended, op_get_upvalue, op_get_upvalue_extended, op_close_upvalue, op_set_global,
  op_set_global_extended, op_get_global, op_get_global_extended, op_def_global,
  op_def_global_extended, op_del_global, op_del_global_extended, op_set_member,
  op_set_member_extended, op_get_member, op_get_member_extended, op_set_index, op_get_index,
  op_swap_global, op_swap_global_extended, op_swap_local, op_super, op_super_extended, op_array,
  op_array_extended, op_map, op_map_extended, op_import, op_import_extended, op_import_wildcard,
  op_import_wildcard_extended, op_end,
}
use jml.Bytecode.Offset.{code_at, short_at, opcode_size, instruction_offset}
use jml.Bytecode.Disassemble.{show_upvalues, disassemble_opcode, instruction_disassemble}

-- Where the two can agree: not on the opcodes whose length is written down differently, and on a closure only if
-- the constant named at the start of the code is its own.
abbrev pub IsAlike : List ℕ → ℕ → Option Opcode → Type 0
IsAlike code offset (some op_set_global) = 1 ≤ 0
IsAlike code offset (some op_set_global_extended) = 1 ≤ 0
IsAlike code offset (some op_try_invoke) = 1 ≤ 0
IsAlike code offset (some op_try_super_invoke) = 1 ≤ 0
IsAlike code offset (some op_try_invoke_extended) = 1 ≤ 0
IsAlike code offset (some op_try_super_invoke_extended) = 1 ≤ 0
IsAlike code offset (some op_closure) = code_at code 1 ≡ code_at code (offset + 1)
IsAlike code offset (some op_closure_extended) = short_at code 1 ≡ short_at code (offset + 1)
IsAlike code offset _ = 0 ≤ 0

pub show_upvalues-next :
    (code : List ℕ) (n offset : ℕ) (printed : List ℕ)
    → offset < 2 ^ 32
    → (show_upvalues code n offset printed).next ≡ u32 (offset + 2 * n)
unfolding show_upvalues
show_upvalues-next code zero offset printed h = omega arith
show_upvalues-next code (suc n) offset printed h =
    show_upvalues-next code n (u32 (offset + 2)) _ (omega arith) ∙ omega arith

module _ (upvalue_count : Value → ℕ) (code : List ℕ) (constants : List Value) (offset : ℕ) where
  disassemble_opcode-size :
      (o : Option Opcode)
      → IsAlike code offset o
      → (disassemble_opcode upvalue_count o code constants offset).next
        ≡ u32 (offset + opcode_size upvalue_count o code constants)
  unfolding disassemble_opcode opcode_size
  disassemble_opcode-size none h = refl
  disassemble_opcode-size (some op_nop) h = refl
  disassemble_opcode-size (some op_pop) h = refl
  disassemble_opcode-size (some op_pop_two) h = refl
  disassemble_opcode-size (some op_rot) h = refl
  disassemble_opcode-size (some op_save) h = refl
  disassemble_opcode-size (some op_const) h = refl
  disassemble_opcode-size (some op_const_extended) h = refl
  disassemble_opcode-size (some op_none) h = refl
  disassemble_opcode-size (some op_true) h = refl
  disassemble_opcode-size (some op_false) h = refl
  disassemble_opcode-size (some op_bool) h = refl
  disassemble_opcode-size (some op_add) h = refl
  disassemble_opcode-size (some op_sub) h = refl
  disassemble_opcode-size (some op_mul) h = refl
  disassemble_opcode-size (some op_pow) h = refl
  disassemble_opcode-size (some op_div) h = refl
  disassemble_opcode-size (some op_mod) h = refl
  disassemble_opcode-size (some op_not) h = refl
  disassemble_opcode-size (some op_neg) h = refl
  disassemble_opcode-size (some op_equal) h = refl
  disassemble_opcode-size (some op_greater) h = refl
  disassemble_opcode-size (some op_greatereq) h = refl
  disassemble_opcode-size (some op_less) h = refl
  disassemble_opcode-size (some op_lesseq) h = refl
  disassemble_opcode-size (some op_noteq) h = refl
  disassemble_opcode-size (some op_concat) h = refl
  disassemble_opcode-size (some op_contain) h = refl
  disassemble_opcode-size (some op_jump) h = refl
  disassemble_opcode-size (some op_jump_if_false) h = refl
  disassemble_opcode-size (some op_loop) h = refl
  disassemble_opcode-size (some op_call) h = refl
  disassemble_opcode-size (some op_try_call) h = refl
  disassemble_opcode-size (some op_invoke) h = refl
  disassemble_opcode-size (some op_invoke_extended) h = refl
  disassemble_opcode-size (some op_try_invoke) h = absurd (omega arith)
  disassemble_opcode-size (some op_try_invoke_extended) h = absurd (omega arith)
  disassemble_opcode-size (some op_try_super_invoke) h = absurd (omega arith)
  disassemble_opcode-size (some op_try_super_invoke_extended) h = absurd (omega arith)
  disassemble_opcode-size (some op_super_invoke) h = refl
  disassemble_opcode-size (some op_super_invoke_extended) h = refl
  disassemble_opcode-size (some op_closure) h =
      rw h (show_upvalues-next code _ (u32 (offset + 2)) _ (omega arith) ∙ omega arith)
  disassemble_opcode-size (some op_closure_extended) h =
      rw h (show_upvalues-next code _ (u32 (offset + 3)) _ (omega arith) ∙ omega arith)
  disassemble_opcode-size (some op_return) h = refl
  disassemble_opcode-size (some op_spread) h = refl
  disassemble_opcode-size (some op_class) h = refl
  disassemble_opcode-size (some op_class_extended) h = refl
  disassemble_opcode-size (some op_class_field) h = refl
  disassemble_opcode-size (some op_class_field_extended) h = refl
  disassemble_opcode-size (some op_inherit) h = refl
  disassemble_opcode-size (some op_set_local) h = refl
  disassemble_opcode-size (some op_set_local_extended) h = refl
  disassemble_opcode-size (some op_get_local) h = refl
  disassemble_opcode-size (some op_get_local_extended) h = refl
  disassemble_opcode-size (some op_set_upvalue) h = refl
  disassemble_opcode-size (some op_set_upvalue_extended) h = refl
  disassemble_opcode-size (some op_get_upvalue) h = refl
  disassemble_opcode-size (some op_get_upvalue_extended) h = refl
  disassemble_opcode-size (some op_close_upvalue) h = refl
  disassemble_opcode-size (some op_set_global) h = absurd (omega arith)
  disassemble_opcode-size (some op_set_global_extended) h = absurd (omega arith)
  disassemble_opcode-size (some op_get_global) h = refl
  disassemble_opcode-size (some op_get_global_extended) h = refl
  disassemble_opcode-size (some op_def_global) h = refl
  disassemble_opcode-size (some op_def_global_extended) h = refl
  disassemble_opcode-size (some op_del_global) h = refl
  disassemble_opcode-size (some op_del_global_extended) h = refl
  disassemble_opcode-size (some op_set_member) h = refl
  disassemble_opcode-size (some op_set_member_extended) h = refl
  disassemble_opcode-size (some op_get_member) h = refl
  disassemble_opcode-size (some op_get_member_extended) h = refl
  disassemble_opcode-size (some op_set_index) h = refl
  disassemble_opcode-size (some op_get_index) h = refl
  disassemble_opcode-size (some op_swap_global) h = refl
  disassemble_opcode-size (some op_swap_global_extended) h = refl
  disassemble_opcode-size (some op_swap_local) h = refl
  disassemble_opcode-size (some op_super) h = refl
  disassemble_opcode-size (some op_super_extended) h = refl
  disassemble_opcode-size (some op_array) h = refl
  disassemble_opcode-size (some op_array_extended) h = refl
  disassemble_opcode-size (some op_map) h = refl
  disassemble_opcode-size (some op_map_extended) h = refl
  disassemble_opcode-size (some op_import) h = refl
  disassemble_opcode-size (some op_import_extended) h = refl
  disassemble_opcode-size (some op_import_wildcard) h = refl
  disassemble_opcode-size (some op_import_wildcard_extended) h = refl
  disassemble_opcode-size (some op_end) h = refl

  -- The disassembler goes on `jml_bytecode_instruction_offset` bytes further on, except behind the six opcodes
  -- whose lengths differ in the two functions, and behind a closure whose constant is not the one that the bytes
  -- at the start of the code name.
  pub instruction_disassemble-offset :
      IsAlike code offset (opcode_of (code_at code offset))
      → (instruction_disassemble upvalue_count code constants offset).next
        ≡ u32 (offset + instruction_offset upvalue_count code constants offset)
  unfolding instruction_disassemble instruction_offset
  instruction_disassemble-offset h = disassemble_opcode-size (opcode_of (code_at code offset)) h
