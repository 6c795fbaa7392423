-- ===== src/Vm/Call.antt =====
-- src/jml_vm.c: `jml_vm_call`.
use jml.Base.{
  ℕ, zero, suc, ◌+◌, ◌-◌, ◌*◌, Bool, [], ◌∷◌, ◌++◌, length, ltb, leb, ◌==◌, if◌then◌else◌,
}
use jml.Value.{obj_val}
use jml.Bytecode.Array.{ValueArray, value_array_init, value_array_write}
use jml.Vm.Coroutine.{
  Coroutine, Vm, scope_overflow, too_few_args, too_many_args, Result, ok, err, null_running,
  frames_max, read_cell, with_top, coroutine_grow, push,
}

-- What `jml_vm_call` reads of a closure: its address, and `arity` and `variadic` of its function.
pub record Callee : Type 0 where
  pub closure : ℕ
  pub arity : ℕ
  pub variadic : Bool

-- `jml_obj_array_append(array, values[i])` for the cells from `values` on.
unfoldable pub pack : Coroutine → ℕ → ℕ → ValueArray → ValueArray
unfolding value_array_write
pack c zero values array = array
pack c (suc n) values array = pack c n (values + 1) (value_array_write array (read_cell c values))

-- The addresses that the allocator gives: of the array of the rest of the arguments, and of the stack when a
-- push and when a call makes it grow.
pub record Allocates : Type 0 where
  pub array : ℕ
  pub pushed : ℕ
  pub called : ℕ

abbrev pub item_count : Callee → ℕ → ℕ
item_count f arg_count = arg_count + 1 - f.arity

-- The rest of the arguments of a variadic function, and the stack with their array in their place.
unfoldable pub rest_array : Vm → Callee → ℕ → ValueArray
unfolding pack value_array_init
rest_array vm f arg_count =
    let n = item_count f arg_count in pack vm.running n (vm.running.stack_top - n) value_array_init

unfoldable pub pack_rest : Allocates → Vm → Callee → ℕ → Result Vm
unfolding push
pack_rest new vm f arg_count =
    push new.pushed (with_top vm (vm.running.stack_top - item_count f arg_count))
      (obj_val new.array)

-- The checks of the number of arguments.
unfoldable pub pass_args : Allocates → Vm → Callee → ℕ → Result Vm
unfolding pack_rest
pass_args new vm f arg_count =
    if f.variadic
    then (if ltb (arg_count + 1) f.arity
        then err (too_few_args (f.arity - 1) arg_count)
        else pack_rest new vm f arg_count)
    else if ltb arg_count f.arity
    then err (too_few_args f.arity arg_count)
    else if ltb f.arity arg_count
    then err (too_many_args f.arity arg_count)
    else ok vm

-- The new frame, at the end of `frames`.
abbrev pub put_frame : Vm → Callee → ℕ → Vm
put_frame vm f arg_count =
    let c = vm.running in
    let taken = if f.variadic then f.arity else arg_count in
    record vm {
      running = record c {
        frames =
            c.frames
            ++ record { closure = f.closure; pc = 0; slots = c.stack_top - taken - 1 } ∷ [];
      };
    }

-- `coroutine->frame_capacity = new_capacity`
abbrev pub with_frames : Vm → ℕ → Vm
with_frames vm capacity = record vm { running = record vm.running { frame_capacity = capacity } }

-- What follows `jml_obj_coroutine_grow`: on its error the frame is written all the same, and the caller of
-- `jml_vm_call` goes through `vm->running`.
abbrev pub put_frame_grown : Result Vm → Callee → ℕ → Result Vm
put_frame_grown (ok vm) f arg_count = ok (put_frame vm f arg_count)
put_frame_grown (err e) f arg_count = null_running
put_frame_grown null_running f arg_count = null_running

-- The part of `jml_vm_call` after the arguments.
unfoldable pub enter : ℕ → Vm → Callee → ℕ → Result Vm
unfolding coroutine_grow
enter moved vm f arg_count =
    let c = vm.running in
    if length c.frames == frames_max
    then err scope_overflow
    else if leb c.frame_capacity (length c.frames + 1)
    then put_frame_grown (coroutine_grow moved (with_frames vm (c.frame_capacity * 2))) f arg_count
    else ok (put_frame vm f arg_count)

abbrev pub enter_with : ℕ → Result Vm → Callee → ℕ → Result Vm
enter_with moved (ok vm) f arg_count = enter moved vm f arg_count
enter_with moved (err e) f arg_count = err e
enter_with moved null_running f arg_count = null_running

unfoldable pub call : Allocates → Vm → Callee → ℕ → Result Vm
unfolding pass_args enter
call new vm f arg_count = enter_with new.called (pass_args new vm f arg_count) f arg_count
