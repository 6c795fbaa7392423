-- ===== src/Vm/Tests.antt =====
-- src/jml_vm.c: a coroutine of two frames and two captured variables.
use jml.Base.{
  ℕ, ◌+◌, ◌-◌, ◌*◌, ◌/◌, ◌^◌, ◌<◌, ◌≡◌, refl, true, false, inl, inr, [], ◌∷◌, ◌++◌, take, ltb, leb,
  ◌==◌, if◌then◌else◌, arith,
}
use jml.Value.{none_val, num_val, obj_val}
use jml.HashMap.Table.{grow_capacity}
use jml.Bytecode.Arrays.{contents}
use jml.Bytecode.Opcode.{opcode_of}
use jml.Vm.Coroutine.{Frame, Upvalue, slot, Vm, ok, grown, push, put_top, coroutine_grow}
use jml.Vm.Open.{In}
use jml.Vm.Running.{IsRunning, Moves, live, grown-Moves}
use jml.Vm.Stack.{Pushed, Pushes, push-Pushes, put_top-Pushed}
use jml.Vm.Upvalues.{upvalue_capture, upvalue_close}
use jml.Vm.Close.{ClosesFrom, upvalue_close-ClosesFrom}
use jml.Vm.Capture.{Captures, upvalue_capture-Captures}
use jml.Vm.Call.{Callee, Allocates, item_count, rest_array, call}
use jml.Vm.Args.{CanCall, Calls, call-Calls}
use jml.Vm.Rest.{rest_array-contents}
use jml.Vm.Run.{Doubles, returns, exec_return}
use jml.Vm.Return.{InFrame, Returned, exec_return-Returned}
use jml.Vm.Dispatch.{dispatch, dispatch-swapped}

abbrev bottom : Frame
bottom = record { closure = 1; pc = 9; slots = 1000 }

abbrev upper : Frame
upper = record { closure = 2; pc = 0; slots = 1001 }

abbrev captured : ℕ → Upvalue
captured id =
    if id == 0
    then record { location = slot 1001; closed = none_val }
    else record { location = slot 1002; closed = none_val }

-- Six values in eight cells.
abbrev small : Vm
small = record {
  running = record {
    frames = bottom ∷ upper ∷ [];
    frame_capacity = 8;
    open_upvalues = 1 ∷ 0 ∷ [];
    stack = 1000;
    stack_top = 1006;
    stack_capacity = 8;
    cells =
        obj_val 1
        ∷ obj_val 2
        ∷ num_val 3
        ∷ obj_val 4
        ∷ num_val 5
        ∷ num_val 6
        ∷ none_val
        ∷ none_val
        ∷ [];
  };
  upvalues = captured;
  fresh = 2;
}

small_allocated : (id : ℕ) → In id (1 ∷ 0 ∷ []) → id < 2
small_allocated id (inl e) = omega arith
small_allocated id (inr (inl e)) = omega arith
small_allocated id (inr (inr h)) = absurd h

small-IsRunning : IsRunning small
small-IsRunning = record {
  wide = omega arith;
  cells = refl;
  above = omega arith;
  room = omega arith;
  frames = omega arith;
  descends = (1002, refl, omega arith, omega arith, (1001, refl, omega arith, omega arith, tt));
  allocated = small_allocated;
}

-- The push of a seventh value, and of an eighth, for which the stack is moved.
pushes_seventh : push 5000 small (num_val 7) ≡ ok (put_top small (num_val 7))
unfolding push
pushes_seventh = refl

pushes_eighth :
    push 5000 (put_top small (num_val 7)) (num_val 8)
    ≡ ok (put_top (grown 5000 (put_top small (num_val 7))) (num_val 8))
unfolding push coroutine_grow grow_capacity
pushes_eighth = refl

grown-Moves_example : Moves small (grown 5000 small)
grown-Moves_example = grown-Moves {vm = small} 5000 small-IsRunning

push-Pushes_example : Pushes small (num_val 7) (push 5000 small (num_val 7))
push-Pushes_example = push-Pushes 5000 {vm = small} (num_val 7) small-IsRunning

seventh : Pushed small (num_val 7) (put_top small (num_val 7))
seventh = put_top-Pushed (num_val 7) small-IsRunning (omega arith)

upvalue_capture-Captures_example : Captures small 1003 (upvalue_capture small 1003)
upvalue_capture-Captures_example =
    upvalue_capture-Captures {vm = small} 1003 small-IsRunning (omega arith) (omega arith)

upvalue_close-ClosesFrom_example : ClosesFrom small 1002 (upvalue_close small 1002)
upvalue_close-ClosesFrom_example = upvalue_close-ClosesFrom {vm = small} 1002 small-IsRunning

-- A function of one argument and the rest of them, called with two.
abbrev variadic : Callee
variadic = record { closure = 4; arity = 2; variadic = true }

abbrev places : Allocates
places = record { array = 77; pushed = 5000; called = 6000 }

small-CanCall : CanCall small 2
small-CanCall = record {
  running = small-IsRunning;
  callee = omega arith;
  frames = omega arith;
  descends = (1002, refl, omega arith, omega arith, (1001, refl, omega arith, omega arith, tt));
  room = omega arith;
  shallow = omega arith;
}

call-Calls_example : Calls places small variadic 2 (call places small variadic 2)
call-Calls_example = call-Calls places small variadic 2 small-CanCall

rest_array-contents_example :
    take (6 - item_count variadic 2) small.running.cells ++ contents (rest_array small variadic 2)
    ≡ live small
rest_array-contents_example =
    rest_array-contents {vm = small} variadic 2 small-IsRunning (omega arith)

small-InFrame : InFrame small (bottom ∷ []) upper
small-InFrame = record {
  running = small-IsRunning;
  frames = refl;
  caller = omega arith;
  under = omega arith;
  low = omega arith;
  result = omega arith;
}

-- Numbers that stand for the doubles of the same value.
abbrev naturals : Doubles
naturals = record {
  add = λ a b. a + b;
  sub = λ a b. a - b;
  mul = λ a b. a * b;
  pow = λ a b. a ^ b;
  div = λ a b. a / b;
  to_u64 = λ a. a;
  of_u64 = λ a. a;
  neg = λ a. a;
  gt = λ a b. ltb b a;
  ge = λ a b. leb b a;
  lt = ltb;
  le = leb;
  is_zero = λ a. a == 0;
}

exec_return-Returned_example :
    (new : Vm) × (exec_return naturals (λ a. false) 5000 small ≡ returns new)
    × Returned small (bottom ∷ []) upper new
exec_return-Returned_example =
    exec_return-Returned naturals (λ a. false) 5000 small (bottom ∷ []) upper small-InFrame

-- `OP_SUPER_INVOKE` is dispatched to the case of `OP_TRY_SUPER_INVOKE`.
dispatch-swapped_example : dispatch 38 ≡ opcode_of 36
dispatch-swapped_example = dispatch-swapped 38
