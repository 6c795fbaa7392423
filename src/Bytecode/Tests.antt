-- ===== src/Bytecode/Tests.antt =====
-- src/jml_bytecode.c: a few instructions.
use jml.Base.{ℕ, ◌+◌, ◌≡◌, refl, List, [], ◌∷◌, some, u32, arith}
use jml.Value.{Value, obj_val}
use jml.Bytecode.Opcode.{opcode_of}
use jml.Bytecode.Offset.{opcode_size, instruction_offset}
use jml.Bytecode.Disassemble.{
  instruction_disassemble, disassemble, disassemble_opcode, show_upvalues,
}
use jml.Bytecode.Agree.{instruction_disassemble-offset}
use jml.Bytecode.Walk.{Rises, disassemble-Rises}
use jml.Bytecode.Array.{value_array_init, bytecode_init}
use jml.Bytecode.Arrays.{IsArray, IsChunk}

-- Every function has one upvalue.
abbrev one_upvalue : Value → ℕ
one_upvalue v = 1

-- A constant, a closure over one upvalue, and a return.
abbrev small_code : List ℕ
small_code = 5 ∷ 0 ∷ 40 ∷ 0 ∷ 1 ∷ 2 ∷ 42 ∷ []

abbrev small_constants : List Value
small_constants = obj_val 1 ∷ []

instruction_disassemble-offset_example :
    (instruction_disassemble one_upvalue small_code small_constants 2).next
    ≡ u32 (2 + instruction_offset one_upvalue small_code small_constants 2)
unfolding opcode_of
instruction_disassemble-offset_example =
    instruction_disassemble-offset one_upvalue small_code small_constants 2 refl

disassemble-Rises_example :
    (offsets : List ℕ) × (disassemble one_upvalue 8 small_code small_constants 0 ≡ some offsets)
    × Rises 0 offsets
disassemble-Rises_example =
    disassemble-Rises one_upvalue (λ v. omega arith) small_code small_constants 8 0 (omega arith)
      (omega arith) (omega arith)

small_code_offsets : disassemble one_upvalue 8 small_code small_constants 0 ≡ some (0 ∷ 2 ∷ 6 ∷ [])
unfolding disassemble instruction_disassemble disassemble_opcode show_upvalues opcode_of
small_code_offsets = refl

-- The closure at offset 2 whose constant is not the one at byte 1: the length comes from the wrong function.
closure_misread :
    (instruction_offset
      (λ v. elim v [ obj_val k ↦ k | _ ↦ 0 ])
      (5 ∷ 0 ∷ 40 ∷ 1 ∷ 1 ∷ 2 ∷ 42 ∷ [])
      (obj_val 7 ∷ obj_val 1 ∷ [])
      2)
    ≡ 16
unfolding instruction_offset opcode_size opcode_of
closure_misread = refl

value_array_init-IsArray : IsArray value_array_init
unfolding value_array_init
value_array_init-IsArray = record { inside = omega arith; cells = refl }

bytecode_init-IsChunk : IsChunk bytecode_init
unfolding bytecode_init value_array_init
bytecode_init-IsChunk = record {
  inside = omega arith;
  code_cells = refl;
  line_cells = refl;
  constants = record { inside = omega arith; cells = refl };
}
