-- ===== src/Bytecode/Walk.antt =====
-- src/jml_bytecode.c: the loop of the disassembler ends.
use jml.Base.{
  ℕ, zero, suc, ◌+◌, ◌^◌, ◌<◌, ◌≤◌, ◌≡◌, refl, List, [], ◌∷◌, Bool-cases, inl, inr, ltb, length,
  Option, none, some, get_or, u32, arith, bind_runs,
}
use jml.Value.{Value, none_val}
use jml.Bytecode.Opcode.{
  Opcode, opcode_of, op_nop, op_pop, op_pop_two, op_rot, op_save, op_const, op_const_extended,
  op_none, op_true, op_false, op_bool, op_add, op_sub, op_mul, op_pow, op_div, op_mod, op_not,
  op_neg, op_equal, op_greater, op_greatereq, op_less, op_lesseq, op_noteq, op_concat, op_contain,
  op_jump, op_jump_if_false, op_loop, op_call, op_try_call, op_invoke, op_invoke_extended,
  op_try_invoke, op_try_invoke_extended, op_try_super_invoke, op_try_super_invoke_extended,
  op_super_invoke, op_super_invoke_extended, op_closure, op_closure_extended, op_return, op_spread,
  op_class, op_class_extended, op_class_field, op_class_field_extended, op_inherit, op_set_local,
  op_set_local_extended, op_get_local, op_get_local_extended, op_set_upvalue,
  op_set_upvalue_extended, op_get_upvalue, op_get_upvalue_extended, op_close_upvalue, op_set_global,
  op_set_global_extended, op_get_global, op_get_global_extended, op_def_global,
  op_def_global_extended, op_del_global, op_del_global_extended, op_set_member,
  op_set_member_extended, op_get_member, op_get_member_extended, op_set_index, op_get_index,
  op_swap_global, op_swap_global_extended, op_swap_local, op_super, op_super_extended, op_array,
  op_array_extended, op_map, op_map_extended, op_import, op_import_extended, op_import_wildcard,
  op_import_wildcard_extended, op_end,
}
use jml.Bytecode.Offset.{code_at, short_at}
use jml.Bytecode.Disassemble.{
  show_upvalues, disassemble_opcode, instruction_disassemble, disassemble,
}
use jml.Bytecode.Agree.{show_upvalues-next}

-- `offsets` rises from `from` on: each is greater than the one before.
abbrev pub Rises : ℕ → List ℕ → Type 0
Rises from [] = 0 ≤ 0
Rises from (o ∷ os) = (from ≤ o) × Rises (o + 1) os

Rises-less : (a b : ℕ) (os : List ℕ) → b ≤ a → Rises a os → Rises b os
Rises-less a b [] h r = r
Rises-less a b (o ∷ os) h r = (omega (arith, r.0), r.1)

module _ (upvalue_count : Value → ℕ) (few : (v : Value) → upvalue_count v ≤ 2 ^ 16) (code : List ℕ)
    (constants : List Value) where
  upvalues_ahead :
      (n offset k : ℕ) (printed : List ℕ)
      → n ≤ 2 ^ 16
      → offset + k + 2 ^ 18 < 2 ^ 32
      → offset + k ≤ (show_upvalues code n (u32 (offset + k)) printed).next
  upvalues_ahead n offset k printed h lt =
      rw (show_upvalues-next code n (u32 (offset + k)) printed (omega arith)) (omega arith)

  goes_ahead :
      (o : Option Opcode) (offset : ℕ)
      → offset + 2 ^ 19 < 2 ^ 32
      → offset < (disassemble_opcode upvalue_count o code constants offset).next
  unfolding disassemble_opcode
  goes_ahead none offset h = omega arith
  goes_ahead (some op_nop) offset h = omega arith
  goes_ahead (some op_pop) offset h = omega arith
  goes_ahead (some op_pop_two) offset h = omega arith
  goes_ahead (some op_rot) offset h = omega arith
  goes_ahead (some op_save) offset h = omega arith
  goes_ahead (some op_const) offset h = omega arith
  goes_ahead (some op_const_extended) offset h = omega arith
  goes_ahead (some op_none) offset h = omega arith
  goes_ahead (some op_true) offset h = omega arith
  goes_ahead (some op_false) offset h = omega arith
  goes_ahead (some op_bool) offset h = omega arith
  goes_ahead (some op_add) offset h = omega arith
  goes_ahead (some op_sub) offset h = omega arith
  goes_ahead (some op_mul) offset h = omega arith
  goes_ahead (some op_pow) offset h = omega arith
  goes_ahead (some op_div) offset h = omega arith
  goes_ahead (some op_mod) offset h = omega arith
  goes_ahead (some op_not) offset h = omega arith
  goes_ahead (some op_neg) offset h = omega arith
  goes_ahead (some op_equal) offset h = omega arith
  goes_ahead (some op_greater) offset h = omega arith
  goes_ahead (some op_greatereq) offset h = omega arith
  goes_ahead (some op_less) offset h = omega arith
  goes_ahead (some op_lesseq) offset h = omega arith
  goes_ahead (some op_noteq) offset h = omega arith
  goes_ahead (some op_concat) offset h = omega arith
  goes_ahead (some op_contain) offset h = omega arith
  goes_ahead (some op_jump) offset h = omega arith
  goes_ahead (some op_jump_if_false) offset h = omega arith
  goes_ahead (some op_loop) offset h = omega arith
  goes_ahead (some op_call) offset h = omega arith
  goes_ahead (some op_try_call) offset h = omega arith
  goes_ahead (some op_invoke) offset h = omega arith
  goes_ahead (some op_invoke_extended) offset h = omega arith
  goes_ahead (some op_try_invoke) offset h = omega arith
  goes_ahead (some op_try_invoke_extended) offset h = omega arith
  goes_ahead (some op_try_super_invoke) offset h = omega arith
  goes_ahead (some op_try_super_invoke_extended) offset h = omega arith
  goes_ahead (some op_super_invoke) offset h = omega arith
  goes_ahead (some op_super_invoke_extended) offset h = omega arith
  goes_ahead (some op_closure) offset h =
      let v = get_or constants (code_at code (offset + 1)) none_val in
      let a =
        upvalues_ahead (upvalue_count v) offset 2 (code_at code (offset + 1) ∷ []) (few v)
          (omega arith) in
      omega arith
  goes_ahead (some op_closure_extended) offset h =
      let v = get_or constants (short_at code (offset + 1)) none_val in
      let a =
        upvalues_ahead (upvalue_count v) offset 3 (short_at code (offset + 1) ∷ []) (few v)
          (omega arith) in
      omega arith
  goes_ahead (some op_return) offset h = omega arith
  goes_ahead (some op_spread) offset h = omega arith
  goes_ahead (some op_class) offset h = omega arith
  goes_ahead (some op_class_extended) offset h = omega arith
  goes_ahead (some op_class_field) offset h = omega arith
  goes_ahead (some op_class_field_extended) offset h = omega arith
  goes_ahead (some op_inherit) offset h = omega arith
  goes_ahead (some op_set_local) offset h = omega arith
  goes_ahead (some op_set_local_extended) offset h = omega arith
  goes_ahead (some op_get_local) offset h = omega arith
  goes_ahead (some op_get_local_extended) offset h = omega arith
  goes_ahead (some op_set_upvalue) offset h = omega arith
  goes_ahead (some op_set_upvalue_extended) offset h = omega arith
  goes_ahead (some op_get_upvalue) offset h = omega arith
  goes_ahead (some op_get_upvalue_extended) offset h = omega arith
  goes_ahead (some op_close_upvalue) offset h = omega arith
  goes_ahead (some op_set_global) offset h = omega arith
  goes_ahead (some op_set_global_extended) offset h = omega arith
  goes_ahead (some op_get_global) offset h = omega arith
  goes_ahead (some op_get_global_extended) offset h = omega arith
  goes_ahead (some op_def_global) offset h = omega arith
  goes_ahead (some op_def_global_extended) offset h = omega arith
  goes_ahead (some op_del_global) offset h = omega arith
  goes_ahead (some op_del_global_extended) offset h = omega arith
  goes_ahead (some op_set_member) offset h = omega arith
  goes_ahead (some op_set_member_extended) offset h = omega arith
  goes_ahead (some op_get_member) offset h = omega arith
  goes_ahead (some op_get_member_extended) offset h = omega arith
  goes_ahead (some op_set_index) offset h = omega arith
  goes_ahead (some op_get_index) offset h = omega arith
  goes_ahead (some op_swap_global) offset h = omega arith
  goes_ahead (some op_swap_global_extended) offset h = omega arith
  goes_ahead (some op_swap_local) offset h = omega arith
  goes_ahead (some op_super) offset h = omega arith
  goes_ahead (some op_super_extended) offset h = omega arith
  goes_ahead (some op_array) offset h = omega arith
  goes_ahead (some op_array_extended) offset h = omega arith
  goes_ahead (some op_map) offset h = omega arith
  goes_ahead (some op_map_extended) offset h = omega arith
  goes_ahead (some op_import) offset h = omega arith
  goes_ahead (some op_import_extended) offset h = omega arith
  goes_ahead (some op_import_wildcard) offset h = omega arith
  goes_ahead (some op_import_wildcard_extended) offset h = omega arith
  goes_ahead (some op_end) offset h = omega arith

  -- With fuel for one instruction a byte, the loop from `offset` on ends, and every instruction that it shows stands
  -- behind the one before. The code is 2^20 bytes shorter than 2^32, and a function has at most 2^16 upvalues.
  pub disassemble-Rises :
      (fuel offset : ℕ)
      → 1 ≤ fuel
      → length code + 2 ^ 20 < 2 ^ 32
      → length code < offset + fuel
      → (offsets : List ℕ) × (disassemble upvalue_count fuel code constants offset ≡ some offsets)
        × Rises offset offsets
  unfolding disassemble instruction_disassemble
  disassemble-Rises zero offset one small lt = absurd (omega arith)
  disassemble-Rises (suc fuel) offset one small lt = elim (Bool-cases (ltb offset (length code))) [
    | inr past ↦ ([], rw past refl, omega arith)
    | inl inside ↦
        let ahead = goes_ahead (opcode_of (code_at code offset)) offset (ground arith) in
        let next =
          (disassemble_opcode upvalue_count (opcode_of (code_at code offset)) code constants
            offset).next in
        let (offsets, run, rises) =
          disassemble-Rises fuel next (ground arith) small (ground arith) in
        (
          offset ∷ offsets,
          rw inside (bind_runs _ run refl),
          (omega arith, Rises-less next (offset + 1) offsets (omega (arith, ahead)) rises),
        )
  ]
