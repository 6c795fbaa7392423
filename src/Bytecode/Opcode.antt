-- ===== src/Bytecode/Opcode.antt =====
-- include/jml/jml_bytecode.h: the enumeration `jml_bytecode_op`, in its order.
use jml.Base.{ℕ, List, [], ◌∷◌, Option, get_elem?}

pub data Opcode : Type 0 where
  op_nop : Opcode
  op_pop : Opcode
  op_pop_two : Opcode
  op_rot : Opcode
  op_save : Opcode
  op_const : Opcode
  op_const_extended : Opcode
  op_none : Opcode
  op_true : Opcode
  op_false : Opcode
  op_bool : Opcode
  op_add : Opcode
  op_sub : Opcode
  op_mul : Opcode
  op_pow : Opcode
  op_div : Opcode
  op_mod : Opcode
  op_not : Opcode
  op_neg : Opcode
  op_equal : Opcode
  op_greater : Opcode
  op_greatereq : Opcode
  op_less : Opcode
  op_lesseq : Opcode
  op_noteq : Opcode
  op_concat : Opcode
  op_contain : Opcode
  op_jump : Opcode
  op_jump_if_false : Opcode
  op_loop : Opcode
  op_call : Opcode
  op_try_call : Opcode
  op_invoke : Opcode
  op_invoke_extended : Opcode
  op_try_invoke : Opcode
  op_try_invoke_extended : Opcode
  op_try_super_invoke : Opcode
  op_try_super_invoke_extended : Opcode
  op_super_invoke : Opcode
  op_super_invoke_extended : Opcode
  op_closure : Opcode
  op_closure_extended : Opcode
  op_return : Opcode
  op_spread : Opcode
  op_class : Opcode
  op_class_extended : Opcode
  op_class_field : Opcode
  op_class_field_extended : Opcode
  op_inherit : Opcode
  op_set_local : Opcode
  op_set_local_extended : Opcode
  op_get_local : Opcode
  op_get_local_extended : Opcode
  op_set_upvalue : Opcode
  op_set_upvalue_extended : Opcode
  op_get_upvalue : Opcode
  op_get_upvalue_extended : Opcode
  op_close_upvalue : Opcode
  op_set_global : Opcode
  op_set_global_extended : Opcode
  op_get_global : Opcode
  op_get_global_extended : Opcode
  op_def_global : Opcode
  op_def_global_extended : Opcode
  op_del_global : Opcode
  op_del_global_extended : Opcode
  op_set_member : Opcode
  op_set_member_extended : Opcode
  op_get_member : Opcode
  op_get_member_extended : Opcode
  op_set_index : Opcode
  op_get_index : Opcode
  op_swap_global : Opcode
  op_swap_global_extended : Opcode
  op_swap_local : Opcode
  op_super : Opcode
  op_super_extended : Opcode
  op_array : Opcode
  op_array_extended : Opcode
  op_map : Opcode
  op_map_extended : Opcode
  op_import : Opcode
  op_import_extended : Opcode
  op_import_wildcard : Opcode
  op_import_wildcard_extended : Opcode
  op_end : Opcode

abbrev pub opcodes : List Opcode
opcodes =
    op_nop ∷ op_pop ∷ op_pop_two ∷ op_rot ∷ op_save ∷ op_const ∷ op_const_extended ∷ op_none
    ∷ op_true ∷ op_false ∷ op_bool ∷ op_add ∷ op_sub ∷ op_mul ∷ op_pow ∷ op_div ∷ op_mod ∷ op_not
    ∷ op_neg ∷ op_equal ∷ op_greater ∷ op_greatereq ∷ op_less ∷ op_lesseq ∷ op_noteq ∷ op_concat
    ∷ op_contain ∷ op_jump ∷ op_jump_if_false ∷ op_loop ∷ op_call ∷ op_try_call ∷ op_invoke
    ∷ op_invoke_extended ∷ op_try_invoke ∷ op_try_invoke_extended ∷ op_try_super_invoke
    ∷ op_try_super_invoke_extended ∷ op_super_invoke ∷ op_super_invoke_extended ∷ op_closure
    ∷ op_closure_extended ∷ op_return ∷ op_spread ∷ op_class ∷ op_class_extended ∷ op_class_field
    ∷ op_class_field_extended ∷ op_inherit ∷ op_set_local ∷ op_set_local_extended ∷ op_get_local
    ∷ op_get_local_extended ∷ op_set_upvalue ∷ op_set_upvalue_extended ∷ op_get_upvalue
    ∷ op_get_upvalue_extended ∷ op_close_upvalue ∷ op_set_global ∷ op_set_global_extended
    ∷ op_get_global ∷ op_get_global_extended ∷ op_def_global ∷ op_def_global_extended
    ∷ op_del_global ∷ op_del_global_extended ∷ op_set_member ∷ op_set_member_extended
    ∷ op_get_member ∷ op_get_member_extended ∷ op_set_index ∷ op_get_index ∷ op_swap_global
    ∷ op_swap_global_extended ∷ op_swap_local ∷ op_super ∷ op_super_extended ∷ op_array
    ∷ op_array_extended ∷ op_map ∷ op_map_extended ∷ op_import ∷ op_import_extended
    ∷ op_import_wildcard ∷ op_import_wildcard_extended ∷ op_end ∷ []

-- The opcode that a byte stands for; `none` for a byte that stands for no opcode.
unfoldable pub opcode_of : ℕ → Option Opcode
opcode_of byte = get_elem? opcodes byte
