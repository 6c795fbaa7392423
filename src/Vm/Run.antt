-- ===== src/Vm/Run.antt =====
-- src/jml_vm.c: the cases of `jml_vm_run` that use only the stack, the constants, the locals and the upvalues,
-- without what `JML_EVAL` and the macros for tracing add.
use jml.Base.{
  ℕ, ◌+◌, ◌-◌, ◌%◌, Bool, true, false, not, List, [], ◌∷◌, Option, some, none, set, get_or, ◌==◌,
  if◌then◌else◌, length, take,
}
use jml.Value.{Value, none_val, bool_val, num_val, obj_val, falsey}
use jml.Bytecode.Opcode.{
  Opcode, opcode_of, op_nop, op_pop, op_pop_two, op_rot, op_save, op_const, op_const_extended,
  op_none, op_true, op_false, op_bool, op_add, op_sub, op_mul, op_pow, op_div, op_mod, op_not,
  op_neg, op_greater, op_greatereq, op_less, op_lesseq, op_jump, op_jump_if_false, op_loop,
  op_return, op_set_local, op_set_local_extended, op_get_local, op_get_local_extended,
  op_set_upvalue, op_set_upvalue_extended, op_get_upvalue, op_get_upvalue_extended,
  op_close_upvalue, op_swap_local,
}
use jml.Bytecode.Offset.{code_at, short_at}
use jml.Vm.Coroutine.{
  Frame, Location, slot, own, Vm, Result, ok, err, null_running, update, read_cell, read_upvalue,
  with_top, push, pop, pop_two, peek, rot,
}
use jml.Vm.Upvalues.{upvalue_close}

-- The arithmetic of doubles, on their bit patterns: C's operators, casts and `pow`, which the source only uses.
pub record Doubles : Type 0 where
  pub add : ℕ → ℕ → ℕ
  pub sub : ℕ → ℕ → ℕ
  pub mul : ℕ → ℕ → ℕ
  pub pow : ℕ → ℕ → ℕ
  pub div : ℕ → ℕ → ℕ
  pub to_u64 : ℕ → ℕ
  pub of_u64 : ℕ → ℕ
  pub neg : ℕ → ℕ
  pub gt : ℕ → ℕ → Bool
  pub ge : ℕ → ℕ → Bool
  pub lt : ℕ → ℕ → Bool
  pub le : ℕ → ℕ → Bool
  pub is_zero : ℕ → Bool

-- The frame that runs: the code and the constants of its function, its `pc`, and `frame->closure->upvalues`.
pub record Machine : Type 0 where
  pub vm : Vm
  pub code : List ℕ
  pub constants : List Value
  pub captured : List ℕ
  pub pc : ℕ

-- `invokes`: a method of the instance is called for the operator. `ends`: `INTERPRET_OK`. `returns`: the frame
-- below is loaded. `elsewhere`: one of the cases that are not here.
pub data Outcome : Type 0 where
  goes : Machine → Outcome
  invokes : ℕ → Machine → Outcome
  returns : Vm → Outcome
  ends : Vm → Outcome
  runtime_error : Outcome
  crashes : Outcome
  elsewhere : Opcode → Outcome

abbrev pub go_on : Machine → Result Vm → Outcome
go_on m (ok vm) = goes (record m { vm = vm })
go_on m (err e) = crashes
go_on m null_running = crashes

abbrev pub move_pc : Machine → ℕ → Machine
move_pc m n = record m { pc = m.pc + n }

-- `frame->slots`
abbrev pub slots_of : List Frame → ℕ
slots_of [] = 0
slots_of (f ∷ []) = f.slots
slots_of (f ∷ g ∷ fs) = slots_of (g ∷ fs)

abbrev pub write_cell : Vm → ℕ → Value → Vm
write_cell vm pointer value = record vm {
  running = record vm.running { cells = set vm.running.cells (pointer - vm.running.stack) value };
}

-- `*location = value`, of the upvalue `id`
abbrev pub write_location : Vm → ℕ → Value → Location → Vm
write_location vm id value (slot p) = write_cell vm p value
write_location vm id value own = record vm {
  upvalues = update vm.upvalues id (record (vm.upvalues id) { closed = value });
}

-- The instances among the objects, by their addresses; the address of the stack when a push makes it grow.
module _ (doubles : Doubles) (is_instance : ℕ → Bool) (moved : ℕ) where
  abbrev pub push_value : Machine → Vm → Value → Outcome
  push_value m vm value = go_on m (push moved vm value)

  -- The end of `BINARY_OP`, `BINARY_DIV` and `BINARY_FN` for operands that are not both numbers.
  abbrev pub no_numbers : Machine → Value → Outcome
  no_numbers m (obj_val a) = if is_instance a then invokes a m else runtime_error
  no_numbers m _ = runtime_error

  -- `BINARY_OP` and `BINARY_FN`
  abbrev pub binary : (ℕ → ℕ → Value) → Machine → Value → Value → Outcome
  binary f m (num_val a) (num_val b) = push_value m (pop_two m.vm).1 (f a b)
  binary f m a b = no_numbers m a

  -- C's `%` on `uint64_t` traps at 0.
  abbrev pub remainder : ℕ → ℕ → Option ℕ
  remainder a b =
      let divisor = doubles.to_u64 b in
      if divisor == 0 then none else some (doubles.of_u64 (doubles.to_u64 a % divisor))

  abbrev pub push_quotient : Machine → Vm → Option ℕ → Outcome
  push_quotient m vm none = crashes
  push_quotient m vm (some q) = push_value m vm (num_val q)

  -- `BINARY_DIV`
  abbrev pub binary_div : (ℕ → ℕ → Option ℕ) → Machine → Value → Value → Outcome
  binary_div f m (num_val a) (num_val b) =
      if doubles.is_zero b then runtime_error else push_quotient m (pop_two m.vm).1 (f a b)
  binary_div f m a b = no_numbers m a

  abbrev pub negate : Machine → Value → Outcome
  negate m (num_val a) = push_value m (pop m.vm).1 (num_val (doubles.neg a))
  negate m _ = runtime_error

  abbrev pub arithmetic : (ℕ → ℕ → ℕ) → Machine → Outcome
  arithmetic f m = binary (λ a b. num_val (f a b)) m (peek m.vm 1) (peek m.vm 0)

  abbrev pub comparison : (ℕ → ℕ → Bool) → Machine → Outcome
  comparison f m = binary (λ a b. bool_val (f a b)) m (peek m.vm 1) (peek m.vm 0)

  abbrev pub set_local : Machine → ℕ → Outcome
  set_local m i =
      goes (record m { vm = write_cell m.vm (slots_of m.vm.running.frames + i) (peek m.vm 0) })

  abbrev pub get_local : Machine → ℕ → Outcome
  get_local m i = push_value m m.vm (read_cell m.vm.running (slots_of m.vm.running.frames + i))

  abbrev pub set_upvalue : Machine → ℕ → Outcome
  set_upvalue m i =
      let id = get_or m.captured i 0 in
      goes (record m { vm = write_location m.vm id (peek m.vm 0) (m.vm.upvalues id).location })

  abbrev pub get_upvalue : Machine → ℕ → Outcome
  get_upvalue m i = push_value m m.vm (read_upvalue m.vm (get_or m.captured i 0))

  -- `--running->frame_count`
  abbrev pub without_frame : Vm → Vm
  without_frame vm = record vm {
    running = record vm.running { frames = take (length vm.running.frames - 1) vm.running.frames };
  }

  abbrev pub returned : Result Vm → Outcome
  returned (ok vm) = returns vm
  returned (err e) = crashes
  returned null_running = crashes

  -- `OP_RETURN`
  unfoldable pub exec_return : Vm → Outcome
  unfolding pop push upvalue_close
  exec_return vm =
      let slots = slots_of vm.running.frames in
      let (result, popped) = pop vm in
      let closed = without_frame (upvalue_close popped slots) in
      if length closed.running.frames == 0
      then ends (pop closed).1
      else returned (push moved (with_top closed slots) result)

  abbrev pub push_const : Machine → ℕ → Outcome
  push_const m i = push_value m m.vm (get_or m.constants i none_val)

  abbrev pub jump : Machine → Outcome
  jump m = goes (move_pc m (2 + short_at m.code m.pc))

  abbrev pub jump_if_false : Machine → Outcome
  jump_if_false m = goes (move_pc m (if falsey (peek m.vm 0) then 2 + short_at m.code m.pc else 2))

  abbrev pub jump_back : Machine → Outcome
  jump_back m = goes (record m { pc = m.pc + 2 - short_at m.code m.pc })

  abbrev pub close_top : Machine → Outcome
  close_top m = goes (record m { vm = (pop (upvalue_close m.vm (m.vm.running.stack_top - 1))).1 })

  -- A case of the `switch`, with `pc` behind the opcode.
  unfoldable pub exec : Opcode → Machine → Outcome
  unfolding pop pop_two peek push rot upvalue_close exec_return falsey
  exec op_nop m = goes m
  exec op_pop m = goes (record m { vm = (pop m.vm).1 })
  exec op_pop_two m = goes (record m { vm = (pop_two m.vm).1 })
  exec op_rot m = go_on m (rot moved m.vm)
  exec op_save m = push_value m m.vm (peek m.vm 0)
  exec op_const m = push_const (move_pc m 1) (code_at m.code m.pc)
  exec op_const_extended m = push_const (move_pc m 2) (short_at m.code m.pc)
  exec op_none m = push_value m m.vm none_val
  exec op_true m = push_value m m.vm (bool_val true)
  exec op_false m = push_value m m.vm (bool_val false)
  exec op_bool m = let (value, vm) = pop m.vm in push_value m vm (bool_val (not (falsey value)))
  exec op_add m = arithmetic doubles.add m
  exec op_sub m = arithmetic doubles.sub m
  exec op_mul m = arithmetic doubles.mul m
  exec op_pow m = arithmetic doubles.pow m
  exec op_div m = binary_div (λ a b. some (doubles.div a b)) m (peek m.vm 1) (peek m.vm 0)
  exec op_mod m = binary_div remainder m (peek m.vm 1) (peek m.vm 0)
  exec op_not m = let (value, vm) = pop m.vm in push_value m vm (bool_val (falsey value))
  exec op_neg m = negate m (peek m.vm 0)
  exec op_greater m = comparison doubles.gt m
  exec op_greatereq m = comparison doubles.ge m
  exec op_less m = comparison doubles.lt m
  exec op_lesseq m = comparison doubles.le m
  exec op_jump m = jump m
  exec op_jump_if_false m = jump_if_false m
  exec op_loop m = jump_back m
  exec op_return m = exec_return m.vm
  exec op_set_local m = set_local (move_pc m 1) (code_at m.code m.pc)
  exec op_set_local_extended m = set_local (move_pc m 2) (short_at m.code m.pc)
  exec op_get_local m = get_local (move_pc m 1) (code_at m.code m.pc)
  exec op_get_local_extended m = get_local (move_pc m 2) (short_at m.code m.pc)
  exec op_set_upvalue m = set_upvalue (move_pc m 1) (code_at m.code m.pc)
  exec op_set_upvalue_extended m = set_upvalue (move_pc m 2) (short_at m.code m.pc)
  exec op_get_upvalue m = get_upvalue (move_pc m 1) (code_at m.code m.pc)
  exec op_get_upvalue_extended m = get_upvalue (move_pc m 2) (short_at m.code m.pc)
  exec op_close_upvalue m = close_top m
  exec op_swap_local m = goes m
  exec op m = elsewhere op

  -- One round of the loop; a byte that is no opcode goes to no case of the `switch`.
  abbrev pub exec_byte : Option Opcode → Machine → Outcome
  exec_byte none m = goes m
  exec_byte (some op) m = exec op m

  unfoldable pub step : Machine → Outcome
  unfolding opcode_of exec
  step m = exec_byte (opcode_of (code_at m.code m.pc)) (move_pc m 1)
