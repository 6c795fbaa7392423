-- ===== src/Vm/Dispatch.antt =====
-- src/jml_vm.c: the table of `jml_vm_run`, by which it dispatches where `JML_COMPUTED_GOTO` is defined.
use mathlib.Core.Path.{subst}
use jml.Base.{
  ℕ, zero, suc, ◌+◌, ◌-◌, ◌≤◌, ◌<◌, ◌≡◌, refl, sym, ap, ◌∙◌, ◌⊎◌, inl, inr, Bool-cases, List, [],
  ◌∷◌, ◌++◌, Option, ◌==◌, length, get_elem?, take, drop, ltb, if◌then◌else◌, arith,
}
use jml.Bytecode.Opcode.{
  Opcode, opcodes, opcode_of, op_add, op_array, op_array_extended, op_bool, op_call, op_class,
  op_class_extended, op_class_field, op_class_field_extended, op_close_upvalue, op_closure,
  op_closure_extended, op_concat, op_const, op_const_extended, op_contain, op_def_global,
  op_def_global_extended, op_del_global, op_del_global_extended, op_div, op_end, op_equal, op_false,
  op_get_global, op_get_global_extended, op_get_index, op_get_local, op_get_local_extended,
  op_get_member, op_get_member_extended, op_get_upvalue, op_get_upvalue_extended, op_greater,
  op_greatereq, op_import, op_import_extended, op_import_wildcard, op_import_wildcard_extended,
  op_inherit, op_invoke, op_invoke_extended, op_jump, op_jump_if_false, op_less, op_lesseq, op_loop,
  op_map, op_map_extended, op_mod, op_mul, op_neg, op_none, op_nop, op_not, op_noteq, op_pop,
  op_pop_two, op_pow, op_return, op_rot, op_save, op_set_global, op_set_global_extended,
  op_set_index, op_set_local, op_set_local_extended, op_set_member, op_set_member_extended,
  op_set_upvalue, op_set_upvalue_extended, op_spread, op_sub, op_super, op_super_extended,
  op_super_invoke, op_super_invoke_extended, op_swap_global, op_swap_global_extended, op_swap_local,
  op_true, op_try_call, op_try_invoke, op_try_invoke_extended, op_try_super_invoke,
  op_try_super_invoke_extended,
}

abbrev dispatcher : List Opcode
dispatcher =
    op_nop ∷ op_pop ∷ op_pop_two ∷ op_rot ∷ op_save ∷ op_const ∷ op_const_extended ∷ op_none
    ∷ op_true ∷ op_false ∷ op_bool ∷ op_add ∷ op_sub ∷ op_mul ∷ op_pow ∷ op_div ∷ op_mod ∷ op_not
    ∷ op_neg ∷ op_equal ∷ op_greater ∷ op_greatereq ∷ op_less ∷ op_lesseq ∷ op_noteq ∷ op_concat
    ∷ op_contain ∷ op_jump ∷ op_jump_if_false ∷ op_loop ∷ op_call ∷ op_try_call ∷ op_invoke
    ∷ op_invoke_extended ∷ op_try_invoke ∷ op_try_invoke_extended ∷ op_super_invoke
    ∷ op_super_invoke_extended ∷ op_try_super_invoke ∷ op_try_super_invoke_extended ∷ op_closure
    ∷ op_closure_extended ∷ op_return ∷ op_spread ∷ op_class ∷ op_class_extended ∷ op_class_field
    ∷ op_class_field_extended ∷ op_inherit ∷ op_set_local ∷ op_set_local_extended ∷ op_get_local
    ∷ op_get_local_extended ∷ op_set_upvalue ∷ op_set_upvalue_extended ∷ op_get_upvalue
    ∷ op_get_upvalue_extended ∷ op_close_upvalue ∷ op_set_global ∷ op_set_global_extended
    ∷ op_get_global ∷ op_get_global_extended ∷ op_def_global ∷ op_def_global_extended
    ∷ op_del_global ∷ op_del_global_extended ∷ op_set_member ∷ op_set_member_extended
    ∷ op_get_member ∷ op_get_member_extended ∷ op_set_index ∷ op_get_index ∷ op_swap_global
    ∷ op_swap_global_extended ∷ op_swap_local ∷ op_super ∷ op_super_extended ∷ op_array
    ∷ op_array_extended ∷ op_map ∷ op_map_extended ∷ op_import ∷ op_import_extended
    ∷ op_import_wildcard ∷ op_import_wildcard_extended ∷ op_end ∷ []

-- The case to which the table sends a byte.
unfoldable pub dispatch : ℕ → Option Opcode
dispatch byte = get_elem? dispatcher byte

-- The bytes 36 to 39 in the order of the table.
abbrev pub swapped : ℕ → ℕ
swapped byte =
    if ltb byte 36
    then byte
    else if ltb byte 38
    then byte + 2
    else if ltb byte 40
    then byte - 2
    else byte

module _ {ℓ} {A : Type ℓ} where
  get-before : (xs ys : List A) (i : ℕ) → i < length xs → get_elem? (xs ++ ys) i ≡ get_elem? xs i
  get-before [] ys i h = absurd (omega arith)
  get-before (x ∷ xs) ys zero h = refl
  get-before (x ∷ xs) ys (suc i) h = get-before xs ys i (omega arith)

  get-behind : (xs ys : List A) (i : ℕ) → get_elem? (xs ++ ys) (length xs + i) ≡ get_elem? ys i
  get-behind [] ys i = let e : 0 + i ≡ i = omega arith in ap (get_elem? ys) e
  get-behind (x ∷ xs) ys i =
      let e : suc (length xs) + i ≡ suc (length xs + i) = omega arith in
      ap (get_elem? (x ∷ (xs ++ ys))) e ∙ get-behind xs ys i

front : List Opcode
front = take 36 opcodes

back : List Opcode
back = drop 40 opcodes

dispatcher_parts :
    dispatcher
    ≡ front
      ++ (op_super_invoke ∷ op_super_invoke_extended ∷ op_try_super_invoke
          ∷ op_try_super_invoke_extended ∷ back)
unfolding front back
dispatcher_parts = refl

opcodes_parts :
    opcodes
    ≡ front
      ++ (op_try_super_invoke ∷ op_try_super_invoke_extended ∷ op_super_invoke
          ∷ op_super_invoke_extended ∷ back)
unfolding front back
opcodes_parts = refl

length-front : length front ≡ 36
unfolding front
length-front = refl

four_cases :
    (byte : ℕ) → 36 ≤ byte → byte < 40 → (byte ≡ 36) ⊎ ((byte ≡ 37) ⊎ ((byte ≡ 38) ⊎ (byte ≡ 39)))
four_cases byte low high = elim (Bool-cases (byte == 36)) [
  | inl e ↦ inl (ground arith)
  | inr n ↦ elim (Bool-cases (byte == 37)) [
    | inl e ↦ inr (inl (ground arith))
    | inr n' ↦ elim (Bool-cases (byte == 38)) [
      | inl e ↦ inr (inr (inl (ground arith)))
      | inr n'' ↦ inr (inr (inr (ground arith)))
    ]
  ]
]

dispatch_at :
    (n : ℕ) (byte : ℕ)
    → byte ≡ n
    → dispatch n ≡ opcode_of (swapped n)
    → dispatch byte ≡ opcode_of (swapped byte)
dispatch_at n byte e h = subst (λ k. dispatch k ≡ opcode_of (swapped k)) (sym e) h

dispatch_before : (byte : ℕ) → byte < 36 → dispatch byte ≡ opcode_of byte
unfolding dispatch opcode_of
dispatch_before byte low =
    let in_front : byte < length front = omega (arith, length-front) in
    ap (λ l. get_elem? l byte) dispatcher_parts
    ∙ get-before front _ byte in_front
    ∙ sym (get-before front _ byte in_front)
    ∙ ap (λ l. get_elem? l byte) (sym opcodes_parts)

skip_four :
    (a b c d : Opcode) (i : ℕ)
    → get_elem? (front ++ (a ∷ b ∷ c ∷ d ∷ back)) (36 + (4 + i)) ≡ get_elem? back i
skip_four a b c d i =
    let place : 36 + (4 + i) ≡ length front + (4 + i) = omega (arith, length-front) in
    let four : 4 + i ≡ suc (suc (suc (suc i))) = omega arith in
    ap (get_elem? (front ++ (a ∷ b ∷ c ∷ d ∷ back))) place
    ∙ get-behind front (a ∷ b ∷ c ∷ d ∷ back) (4 + i)
    ∙ ap (get_elem? (a ∷ b ∷ c ∷ d ∷ back)) four

dispatch_behind : (i : ℕ) → dispatch (36 + (4 + i)) ≡ opcode_of (36 + (4 + i))
unfolding dispatch opcode_of
dispatch_behind i =
    ap (λ l. get_elem? l (36 + (4 + i))) dispatcher_parts
    ∙ skip_four op_super_invoke op_super_invoke_extended op_try_super_invoke
        op_try_super_invoke_extended i
    ∙ sym (
        ap (λ l. get_elem? l (36 + (4 + i))) opcodes_parts
        ∙ skip_four op_try_super_invoke op_try_super_invoke_extended op_super_invoke
            op_super_invoke_extended i)

dispatch_inside : (byte : ℕ) → 36 ≤ byte → byte < 40 → dispatch byte ≡ opcode_of (swapped byte)
unfolding dispatch opcode_of
dispatch_inside byte low high = elim (four_cases byte low high) [
  | inl e ↦ dispatch_at 36 byte e refl
  | inr (inl e) ↦ dispatch_at 37 byte e refl
  | inr (inr (inl e)) ↦ dispatch_at 38 byte e refl
  | inr (inr (inr e)) ↦ dispatch_at 39 byte e refl
]

-- The table sends every byte to the case of its opcode, but for the four opcodes that invoke a method of the
-- superclass: it has those with TRY and those without the wrong way round.
pub dispatch-swapped : (byte : ℕ) → dispatch byte ≡ opcode_of (swapped byte)
dispatch-swapped byte = elim (Bool-cases (ltb byte 36)) [
  | inl low ↦ rw low (dispatch_before byte (ground arith))
  | inr high ↦ elim (Bool-cases (ltb byte 40)) [
    | inl inside ↦ dispatch_inside byte (ground arith) (ground arith)
    | inr behind ↦
        let same : swapped byte ≡ byte = ground arith in
        let place : 36 + (4 + (byte - 40)) ≡ byte = ground arith in
        rw same (subst (λ k. dispatch k ≡ opcode_of k) place (dispatch_behind (byte - 40)))
  ]
]
