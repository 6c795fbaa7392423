-- ===== src/Vm/Return.antt =====
-- src/jml_vm.c: `OP_RETURN`.

use jml.Base.{
  ℕ, ◌+◌, ◌-◌, ◌≤◌, ◌<◌, ◌≡◌, refl, ap, ◌∙◌, Bool, false, List, [], ◌∷◌, ◌++◌, length,
  length-append, take, take-append, leb, ◌==◌, if◌then◌else◌, arith,
}
use jml.Value.{Value, none_val}
use jml.Vm.Coroutine.{
  Frame, Upvalue, Coroutine, Vm, read_cell, read_upvalue, put_top, push, pop, update,
}
use jml.Vm.Open.{In, Descends}
use jml.Vm.Running.{FramesIn, IsRunning, live, relative}
use jml.Vm.Stack.{put_top-Pushed, get-set_other}
use jml.Vm.Upvalues.{is_from, shut, close_from, upvalue_close}
use jml.Vm.Close.{Closes, close_from-Closes, close_keeps}
use jml.Vm.Run.{Doubles, returns, slots_of, exec_return}

-- The loop does not look at the top of the stack.
close_from_top :
    (c : Coroutine) (top last : ℕ) (ids : List ℕ) (objects : ℕ → Upvalue)
    → close_from (record c { stack_top = top }) last ids objects ≡ close_from c last ids objects
unfolding close_from
close_from_top c top last [] objects = refl
close_from_top c top last (id ∷ ids) objects =
    ap
      (λ (r : List ℕ × (ℕ → Upvalue)).
        if is_from (objects id).location last then r else (id ∷ ids, objects))
      (close_from_top c top last ids (update objects id (shut c (objects id))))

slots_of_last : (fs : List Frame) (f : Frame) → slots_of (fs ++ f ∷ []) ≡ f.slots
slots_of_last [] f = refl
slots_of_last (g ∷ []) f = refl
slots_of_last (g ∷ h ∷ fs) f = slots_of_last (h ∷ fs) f

take_all : (fs : List Frame) → take (length fs) fs ≡ fs
take_all [] = refl
take_all (f ∷ fs) = ap (◌∷◌ f) (take_all fs)

take_front :
    (below : List Frame) (f : Frame) (fs : List Frame)
    → fs ≡ below ++ f ∷ []
    → take (length fs - 1) fs ≡ below
take_front below f fs e =
    let count : length (below ++ f ∷ []) - 1 ≡ length below =
      omega (arith, length-append below (f ∷ [])) in
    ap (λ (l : List Frame). take (length l - 1) l) e
    ∙ ap (λ k. take k (below ++ f ∷ [])) count
    ∙ take-append (length below) below (f ∷ []) (omega arith)
    ∙ take_all below

-- A coroutine in the frame `f`, above the frames `below`, with a result on the stack of `f`.
pub record InFrame (vm : Vm) (below : List Frame) (f : Frame) : Type 0 where
  pub running : IsRunning vm
  pub frames : vm.running.frames ≡ below ++ f ∷ []
  pub caller : 0 < length below
  pub under : FramesIn vm.running.stack f.slots below
  pub low : vm.running.stack ≤ f.slots
  pub result : f.slots < vm.running.stack_top

-- The frame is gone; in the place of the function and its arguments stands the result.
pub record Returned (vm : Vm) (below : List Frame) (f : Frame) (new : Vm) : Type 0 where
  pub running : IsRunning new
  pub frames : relative new.running.stack new.running.frames ≡ relative vm.running.stack below
  pub live :
      live new
      ≡ take (f.slots - vm.running.stack) vm.running.cells
        ++ read_cell vm.running (vm.running.stack_top - 1) ∷ []
  pub below_slots : Descends new.upvalues new.running.stack (f.slots) new.running.open_upvalues
  pub reads : (id : ℕ) → In id vm.running.open_upvalues → read_upvalue new id ≡ read_upvalue vm id

module _ (vm : Vm) (below : List Frame) (f : Frame) (inside : InFrame vm below f) where
  left : List ℕ × (ℕ → Upvalue)
  left = close_from vm.running f.slots vm.running.open_upvalues vm.upvalues

  left-Closes :
      Closes vm.running f.slots vm.running.stack_top vm.running.open_upvalues vm.upvalues left
  unfolding left
  left-Closes =
      close_from-Closes vm.running f.slots vm.running.stack_top vm.running.open_upvalues vm.upvalues
        inside.running.descends

  -- Before the result is pushed.
  base : Vm
  base = record vm {
    running = record vm.running { frames = below; open_upvalues = left.0; stack_top = f.slots };
    upvalues = left.1;
  }

  base-IsRunning : IsRunning base
  unfolding base
  base-IsRunning =
      let v = inside.running in
      record {
        wide = v.wide;
        cells = v.cells;
        above = inside.low;
        room = omega (arith, v.room, inside.result);
        frames = inside.under;
        descends = left-Closes.below;
        allocated = λ id h. v.allocated id (left-Closes.subset id h);
      }

  result : Value
  result = read_cell vm.running (vm.running.stack_top - 1)

  return-Returned : Returned vm below f (put_top base result)
  unfolding base result
  return-Returned =
      let v = inside.running in
      let p =
        put_top-Pushed {vm = base} result base-IsRunning (omega (arith, v.room, inside.result)) in
      record {
        running = p.running;
        frames = p.frames;
        live = p.live;
        below_slots = left-Closes.below;
        reads = λ id h. close_keeps f.slots v left-Closes id h (put_top base result).running (
          refl,
          λ q low lt.
              get-set_other vm.running.cells (q - vm.running.stack) (f.slots - vm.running.stack)
                result none_val (omega arith),
        );
      }

module _ (doubles : Doubles) (is_instance : ℕ → Bool) (moved : ℕ) where
  -- On a coroutine in order `OP_RETURN` in a function that another one called drops its frame and puts the
  -- result, which lies above the callee, in the place of the callee and its arguments; it neither grows the
  -- stack nor crashes. The variables of the function that closures have captured keep their values, and none
  -- of the open upvalues that are left points to its cells.
  pub exec_return-Returned :
      (vm : Vm) (below : List Frame) (f : Frame)
      → InFrame vm below f
      → (new : Vm) × (exec_return doubles is_instance moved vm ≡ returns new)
        × Returned vm below f new
  unfolding exec_return pop push upvalue_close base left result
  exec_return-Returned vm below f inside =
      let c = vm.running in
      let v = inside.running in
      let slots : slots_of c.frames ≡ f.slots = ap slots_of inside.frames ∙ slots_of_last below f in
      let popped = close_from_top c (c.stack_top - 1) f.slots c.open_upvalues vm.upvalues in
      let frames : take (length c.frames - 1) c.frames ≡ below =
        take_front below f c.frames inside.frames in
      let some_left : (length below == 0) ≡ false = ground (arith, inside.caller) in
      let room : leb c.stack_capacity (f.slots + 1 - c.stack) ≡ false =
        ground (arith, v.room, inside.result, inside.low) in
      (
        put_top (base vm below f inside) (result vm below f inside),
        rw (slots, popped, frames, some_left, room) refl,
        return-Returned vm below f inside,
      )
