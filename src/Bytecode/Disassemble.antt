-- ===== src/Bytecode/Disassemble.antt =====
-- src/jml_bytecode.c: the disassembler. An instruction gives the numbers that it prints of its operands and
-- the offset of the next; the text around the numbers is left out.
use jml.Base.{
  ℕ, zero, suc, ◌+◌, ◌-◌, ◌^◌, Bool, true, false, List, [], ◌∷◌, ◌++◌, Option, none, some, length,
  get_or, u32, ltb, if◌then◌else◌, ◌>>=◌,
}
use jml.Value.{Value, none_val}
use jml.Bytecode.Opcode.{
  Opcode, opcode_of, op_nop, op_pop, op_pop_two, op_rot, op_save, op_const, op_const_extended,
  op_none, op_true, op_false, op_bool, op_add, op_sub, op_mul, op_pow, op_div, op_mod, op_not,
  op_neg, op_equal, op_greater, op_greatereq, op_less, op_lesseq, op_noteq, op_concat, op_contain,
  op_jump, op_jump_if_false, op_loop, op_call, op_try_call, op_invoke, op_invoke_extended,
  op_try_invoke, op_try_invoke_extended, op_try_super_invoke, op_try_super_invoke_extended,
  op_super_invoke, op_super_invoke_extended, op_closure, op_closure_extended, op_return, op_spread,
  op_class, op_class_extended, op_class_field, op_class_field_extended, op_inherit, op_set_local,
  op_set_local_extended, op_get_local, op_get_local_extended, op_set_upvalue,
  op_set_upvalue_extended, op_get_upvalue, op_get_upvalue_extended, op_close_upvalue, op_set_global,
  op_set_global_extended, op_get_global, op_get_global_extended, op_def_global,
  op_def_global_extended, op_del_global, op_del_global_extended, op_set_member,
  op_set_member_extended, op_get_member, op_get_member_extended, op_set_index, op_get_index,
  op_swap_global, op_swap_global_extended, op_swap_local, op_super, op_super_extended, op_array,
  op_array_extended, op_map, op_map_extended, op_import, op_import_extended, op_import_wildcard,
  op_import_wildcard_extended, op_end,
}
use jml.Bytecode.Offset.{code_at, short_at}

pub record Shown : Type 0 where
  pub next : ℕ
  pub data_shown : List ℕ

abbrev pub shown : ℕ → List ℕ → Shown
shown next data_shown = record { next = u32 next; data_shown = data_shown }

abbrev pub instruction_simple : List ℕ → ℕ → Shown
instruction_simple code offset = shown (offset + 1) []

abbrev pub instruction_byte : List ℕ → ℕ → Shown
instruction_byte code offset = shown (offset + 2) (code_at code (offset + 1) ∷ [])

abbrev pub instruction_bytes : List ℕ → ℕ → Shown
instruction_bytes code offset =
    shown (offset + 3) (code_at code (offset + 1) ∷ code_at code (offset + 2) ∷ [])

abbrev pub instruction_short : List ℕ → ℕ → Shown
instruction_short code offset = shown (offset + 3) (short_at code (offset + 1) ∷ [])

-- `sign` is 1 or -1; the sum is one of `uint32_t`.
abbrev pub instruction_jump : Bool → List ℕ → ℕ → Shown
instruction_jump forwards code offset =
    let jump = short_at code (offset + 1) in
    shown (offset + 3) (
      offset
      ∷ (if forwards then u32 (offset + 3 + jump) else u32 (offset + 3 + (2 ^ 32 - jump)))
      ∷ [])

abbrev pub instruction_invoke : List ℕ → ℕ → Shown
instruction_invoke code offset =
    shown (offset + 3) (code_at code (offset + 2) ∷ code_at code (offset + 1) ∷ [])

abbrev pub instruction_invoke_extended : List ℕ → ℕ → Shown
instruction_invoke_extended code offset =
    shown (offset + 5) (short_at code (offset + 3) ∷ short_at code (offset + 1) ∷ [])

-- the caller's `+ 1`
abbrev pub one_more : Shown → Shown
one_more s = record s { next = u32 (s.next + 1) }

abbrev pub instruction_const : List ℕ → ℕ → Shown
instruction_const code offset = shown (offset + 2) (code_at code (offset + 1) ∷ [])

abbrev pub instruction_const_extended : List ℕ → ℕ → Shown
instruction_const_extended code offset = shown (offset + 3) (short_at code (offset + 1) ∷ [])

abbrev pub instruction_consts : List ℕ → ℕ → Shown
instruction_consts code offset =
    shown (offset + 3) (code_at code (offset + 1) ∷ code_at code (offset + 2) ∷ [])

abbrev pub instruction_consts_extended : List ℕ → ℕ → Shown
instruction_consts_extended code offset =
    shown (offset + 5) (short_at code (offset + 1) ∷ short_at code (offset + 3) ∷ [])

abbrev pub instruction_triple : List ℕ → ℕ → Shown
instruction_triple code offset =
    shown (offset + 4)
      (code_at code (offset + 1) ∷ code_at code (offset + 2) ∷ code_at code (offset + 3) ∷ [])

abbrev pub instruction_triple_extended : List ℕ → ℕ → Shown
instruction_triple_extended code offset =
    shown (offset + 7)
      (short_at code (offset + 1) ∷ short_at code (offset + 3) ∷ short_at code (offset + 5) ∷ [])

-- The loop over the upvalues of a closure, `n` of them left: the offset printed, whether it is local, the index.
unfoldable pub show_upvalues : List ℕ → ℕ → ℕ → List ℕ → Shown
show_upvalues code zero offset printed = record { next = offset; data_shown = printed }
show_upvalues code (suc n) offset printed =
    show_upvalues code n (u32 (offset + 2))
      (printed ++ offset ∷ code_at code offset ∷ code_at code (offset + 1) ∷ [])

module _ (upvalue_count : Value → ℕ) where
  unfoldable pub disassemble_opcode : Option Opcode → List ℕ → List Value → ℕ → Shown
  disassemble_opcode (some op_nop) code constants offset = instruction_simple code offset
  disassemble_opcode (some op_pop) code constants offset = instruction_simple code offset
  disassemble_opcode (some op_pop_two) code constants offset = instruction_simple code offset
  disassemble_opcode (some op_rot) code constants offset = instruction_simple code offset
  disassemble_opcode (some op_save) code constants offset = instruction_simple code offset
  disassemble_opcode (some op_const) code constants offset = instruction_const code offset
  disassemble_opcode (some op_const_extended) code constants offset =
      instruction_const_extended code offset
  disassemble_opcode (some op_none) code constants offset = instruction_simple code offset
  disassemble_opcode (some op_true) code constants offset = instruction_simple code offset
  disassemble_opcode (some op_false) code constants offset = instruction_simple code offset
  disassemble_opcode (some op_bool) code constants offset = instruction_simple code offset
  disassemble_opcode (some op_add) code constants offset = instruction_simple code offset
  disassemble_opcode (some op_sub) code constants offset = instruction_simple code offset
  disassemble_opcode (some op_mul) code constants offset = instruction_simple code offset
  disassemble_opcode (some op_pow) code constants offset = instruction_simple code offset
  disassemble_opcode (some op_div) code constants offset = instruction_simple code offset
  disassemble_opcode (some op_mod) code constants offset = instruction_simple code offset
  disassemble_opcode (some op_not) code constants offset = instruction_simple code offset
  disassemble_opcode (some op_neg) code constants offset = instruction_simple code offset
  disassemble_opcode (some op_equal) code constants offset = instruction_simple code offset
  disassemble_opcode (some op_greater) code constants offset = instruction_simple code offset
  disassemble_opcode (some op_greatereq) code constants offset = instruction_simple code offset
  disassemble_opcode (some op_less) code constants offset = instruction_simple code offset
  disassemble_opcode (some op_lesseq) code constants offset = instruction_simple code offset
  disassemble_opcode (some op_noteq) code constants offset = instruction_simple code offset
  disassemble_opcode (some op_concat) code constants offset = instruction_simple code offset
  disassemble_opcode (some op_contain) code constants offset = instruction_simple code offset
  disassemble_opcode (some op_jump) code constants offset = instruction_jump true code offset
  disassemble_opcode (some op_jump_if_false) code constants offset =
      instruction_jump true code offset
  disassemble_opcode (some op_loop) code constants offset = instruction_jump false code offset
  disassemble_opcode (some op_call) code constants offset = instruction_byte code offset
  disassemble_opcode (some op_try_call) code constants offset = instruction_bytes code offset
  disassemble_opcode (some op_invoke) code constants offset = instruction_invoke code offset
  disassemble_opcode (some op_invoke_extended) code constants offset =
      instruction_invoke_extended code offset
  disassemble_opcode (some op_try_invoke) code constants offset =
      one_more (instruction_invoke code offset)
  disassemble_opcode (some op_try_invoke_extended) code constants offset =
      one_more (instruction_invoke_extended code offset)
  disassemble_opcode (some op_try_super_invoke) code constants offset =
      one_more (instruction_invoke code offset)
  disassemble_opcode (some op_try_super_invoke_extended) code constants offset =
      one_more (instruction_invoke_extended code offset)
  disassemble_opcode (some op_super_invoke) code constants offset = instruction_invoke code offset
  disassemble_opcode (some op_super_invoke_extended) code constants offset =
      instruction_invoke_extended code offset
  disassemble_opcode (some op_closure) code constants offset =
      let constant = code_at code (offset + 1) in
      show_upvalues code (upvalue_count (get_or constants constant none_val)) (u32 (offset + 2))
        (constant ∷ [])
  disassemble_opcode (some op_closure_extended) code constants offset =
      let constant = short_at code (offset + 1) in
      show_upvalues code (upvalue_count (get_or constants constant none_val)) (u32 (offset + 3))
        (constant ∷ [])
  disassemble_opcode (some op_return) code constants offset = instruction_simple code offset
  disassemble_opcode (some op_spread) code constants offset = instruction_simple code offset
  disassemble_opcode (some op_class) code constants offset = instruction_const code offset
  disassemble_opcode (some op_class_extended) code constants offset =
      instruction_const_extended code offset
  disassemble_opcode (some op_class_field) code constants offset = instruction_const code offset
  disassemble_opcode (some op_class_field_extended) code constants offset =
      instruction_const_extended code offset
  disassemble_opcode (some op_inherit) code constants offset = instruction_simple code offset
  disassemble_opcode (some op_set_local) code constants offset = instruction_byte code offset
  disassemble_opcode (some op_set_local_extended) code constants offset =
      instruction_short code offset
  disassemble_opcode (some op_get_local) code constants offset = instruction_byte code offset
  disassemble_opcode (some op_get_local_extended) code constants offset =
      instruction_short code offset
  disassemble_opcode (some op_set_upvalue) code constants offset = instruction_byte code offset
  disassemble_opcode (some op_set_upvalue_extended) code constants offset =
      instruction_short code offset
  disassemble_opcode (some op_get_upvalue) code constants offset = instruction_byte code offset
  disassemble_opcode (some op_get_upvalue_extended) code constants offset =
      instruction_short code offset
  disassemble_opcode (some op_close_upvalue) code constants offset = instruction_simple code offset
  disassemble_opcode (some op_set_global) code constants offset = instruction_const code offset
  disassemble_opcode (some op_set_global_extended) code constants offset =
      instruction_const_extended code offset
  disassemble_opcode (some op_get_global) code constants offset = instruction_consts code offset
  disassemble_opcode (some op_get_global_extended) code constants offset =
      instruction_consts_extended code offset
  disassemble_opcode (some op_def_global) code constants offset = instruction_consts code offset
  disassemble_opcode (some op_def_global_extended) code constants offset =
      instruction_consts_extended code offset
  disassemble_opcode (some op_del_global) code constants offset = instruction_consts code offset
  disassemble_opcode (some op_del_global_extended) code constants offset =
      instruction_consts_extended code offset
  disassemble_opcode (some op_set_member) code constants offset = instruction_const code offset
  disassemble_opcode (some op_set_member_extended) code constants offset =
      instruction_const_extended code offset
  disassemble_opcode (some op_get_member) code constants offset = instruction_const code offset
  disassemble_opcode (some op_get_member_extended) code constants offset =
      instruction_const_extended code offset
  disassemble_opcode (some op_set_index) code constants offset = instruction_simple code offset
  disassemble_opcode (some op_get_index) code constants offset = instruction_simple code offset
  disassemble_opcode (some op_swap_global) code constants offset = instruction_triple code offset
  disassemble_opcode (some op_swap_global_extended) code constants offset =
      instruction_triple_extended code offset
  disassemble_opcode (some op_swap_local) code constants offset = instruction_triple code offset
  disassemble_opcode (some op_super) code constants offset = instruction_const code offset
  disassemble_opcode (some op_super_extended) code constants offset =
      instruction_const_extended code offset
  disassemble_opcode (some op_array) code constants offset = instruction_byte code offset
  disassemble_opcode (some op_array_extended) code constants offset = instruction_short code offset
  disassemble_opcode (some op_map) code constants offset = instruction_byte code offset
  disassemble_opcode (some op_map_extended) code constants offset = instruction_short code offset
  disassemble_opcode (some op_import) code constants offset = instruction_consts code offset
  disassemble_opcode (some op_import_extended) code constants offset =
      instruction_consts_extended code offset
  disassemble_opcode (some op_import_wildcard) code constants offset =
      instruction_triple code offset
  disassemble_opcode (some op_import_wildcard_extended) code constants offset =
      instruction_triple_extended code offset
  disassemble_opcode (some op_end) code constants offset = instruction_simple code offset
  disassemble_opcode none code constants offset = shown (offset + 1) (code_at code offset ∷ [])

  unfoldable pub instruction_disassemble : List ℕ → List Value → ℕ → Shown
  unfolding disassemble_opcode
  instruction_disassemble code constants offset =
      disassemble_opcode (opcode_of (code_at code offset)) code constants offset

  -- The loop of `jml_bytecode_disassemble` from `offset` on: the offset of each instruction; `none` if the fuel
  -- runs out.
  unfoldable pub disassemble : ℕ → List ℕ → List Value → ℕ → Option (List ℕ)
  unfolding instruction_disassemble
  disassemble zero code constants offset = none
  disassemble (suc fuel) code constants offset =
      let next = (instruction_disassemble code constants offset).next in
      let rest = disassemble fuel code constants next in
      if ltb offset (length code) then (rest >>= λ offsets. some (offset ∷ offsets)) else some []
