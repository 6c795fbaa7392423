-- ===== src/Vm/Args.antt =====
-- src/jml_vm.c: the arguments in `jml_vm_call`, and the call as a whole.
use jml.Base.{
  ℕ, ◌+◌, ◌-◌, ◌*◌, ◌≤◌, ◌<◌, ◌≡◌, refl, sym, ap, ◌∙◌, true, false, List, [], ◌∷◌, ◌++◌, length,
  take, ltb, if◌then◌else◌, if_lem, arith, length-append,
}
use jml.Value.{Value, obj_val}
use jml.Vm.Coroutine.{
  Vm, Result, ok, err, null_running, scope_overflow, too_few_args, too_many_args, stack_max,
  frames_max, with_top,
}
use jml.Vm.Open.{Descends, Descends-weaken}
use jml.Vm.Running.{FramesIn, IsRunning, live, relative}
use jml.Vm.Stack.{FramesIn-weaken, Pushed, pushes, crashes, push-Pushes}
use jml.Vm.Call.{Callee, Allocates, item_count, pack_rest, pass_args, enter, enter_with, call}
use jml.Vm.Enter.{
  frame_at, taken, length-relative, Entered, Enters, Enters.enters, Enters.too_deep, enter-Enters,
}

-- A coroutine whose stack ends with a callee and its arguments: no frame and no open upvalue points to them, and
-- the frames that it has fit.
pub record CanCall (vm : Vm) (arg_count : ℕ) : Type 0 where
  pub running : IsRunning vm
  pub callee : arg_count + 1 ≤ vm.running.stack_top - vm.running.stack
  pub frames : FramesIn vm.running.stack (vm.running.stack_top - (arg_count + 1)) vm.running.frames
  pub descends :
      Descends vm.upvalues vm.running.stack
        (vm.running.stack_top - (arg_count + 1))
        vm.running.open_upvalues
  pub room : length vm.running.frames < vm.running.frame_capacity
  pub shallow : length vm.running.frames ≤ frames_max

-- The fewest arguments that a call takes.
abbrev pub required : Callee → ℕ
required f = if f.variadic then f.arity - 1 else f.arity

-- The stack that the function finds: its arguments, the rest of them in an array.
abbrev pub passed : Allocates → Vm → Callee → ℕ → List Value
passed new vm f arg_count =
    let c = vm.running in
    if f.variadic
    then take (c.stack_top - c.stack - item_count f arg_count) c.cells ++ obj_val new.array ∷ []
    else live vm

-- The arguments are in place: `vm'` has what `passed` says on the stack, and the frames of `vm`.
record Passed (new : Allocates) (vm : Vm) (f : Callee) (arg_count : ℕ) (vm' : Vm) : Type 0 where
  running : IsRunning vm'
  enough : required f ≤ arg_count
  not_more : f.variadic ≡ false → arg_count ≤ f.arity
  live : live vm' ≡ passed new vm f arg_count
  frames :
      relative vm'.running.stack vm'.running.frames ≡ relative vm.running.stack vm.running.frames
  depth :
      vm'.running.stack_top - vm'.running.stack - taken f arg_count
      ≡ vm.running.stack_top - vm.running.stack - arg_count
  inside : taken f arg_count + 1 ≤ vm'.running.stack_top - vm'.running.stack
  frame_capacity : vm'.running.frame_capacity ≡ vm.running.frame_capacity
  capacity : vm'.running.stack_capacity ≤ vm.running.stack_capacity * 2

data PassesArgs (new : Allocates) (vm : Vm) (f : Callee) (arg_count : ℕ) : Result Vm → Type 0 where
  passes : {vm' : Vm} → Passed new vm f arg_count vm' → PassesArgs new vm f arg_count (ok vm')
  few :
      {n : ℕ}
      → n ≡ required f
      → arg_count < required f
      → PassesArgs new vm f arg_count (err (too_few_args n arg_count))
  many :
      f.variadic ≡ false
      → f.arity < arg_count
      → PassesArgs new vm f arg_count (err (too_many_args f.arity arg_count))
  full : stack_max ≤ vm.running.stack_capacity * 2 → PassesArgs new vm f arg_count null_running

module _ (new : Allocates) (vm : Vm) (f : Callee) (arg_count : ℕ) (can : CanCall vm arg_count) where
  lowered : (n : ℕ) → n ≤ arg_count + 1 → IsRunning (with_top vm (vm.running.stack_top - n))
  lowered n h =
      let v = can.running in
      record {
        wide = v.wide;
        cells = v.cells;
        above = omega (arith, can.callee);
        room = omega (arith, v.room);
        frames = FramesIn-weaken vm.running.stack vm.running.frames (omega arith) can.frames;
        descends =
            Descends-weaken vm.upvalues vm.running.stack vm.running.open_upvalues (omega arith)
              can.descends;
        allocated = v.allocated;
      }

  packed-Passed :
      (vm' : Vm)
      → f.variadic ≡ true
      → f.arity ≤ arg_count + 1
      → Pushed (with_top vm (vm.running.stack_top - item_count f arg_count)) (obj_val new.array) vm'
      → Passed new vm f arg_count vm'
  packed-Passed vm' var enough p =
      let c = vm.running in
      let index : c.stack_top - item_count f arg_count - c.stack
          ≡ c.stack_top - c.stack - item_count f arg_count =
        omega arith in
      let stacked = p.live ∙ ap (λ k. take k c.cells ++ obj_val new.array ∷ []) index in
      record {
        running = p.running;
        enough = rw var (omega arith);
        not_more = λ plain. cc;
        live = rw var stacked;
        frames = p.frames;
        depth = rw var (omega (arith, p.depth, can.callee));
        inside = rw var (omega (arith, p.depth, can.callee));
        frame_capacity = p.frame_capacity;
        capacity = p.capacity;
      }

  pack_rest-PassesArgs :
      f.variadic ≡ true
      → f.arity ≤ arg_count + 1
      → PassesArgs new vm f arg_count (pack_rest new vm f arg_count)
  unfolding pack_rest
  pack_rest-PassesArgs var enough =
      let base = with_top vm (vm.running.stack_top - item_count f arg_count) in
      elim (push-Pushes new.pushed {vm = base} (obj_val new.array)
          (lowered (item_count f arg_count) (omega arith)))
        as (λ r _. PassesArgs new vm f arg_count r) [
          | pushes _ p ↦ passes (packed-Passed _ var enough p)
          | crashes over ↦ full over.0
        ]

  plain-Passed : f.variadic ≡ false → f.arity ≡ arg_count → Passed new vm f arg_count vm
  plain-Passed var same = record {
    running = can.running;
    enough = rw var (omega arith);
    not_more = λ plain. omega arith;
    live = rw var refl;
    frames = refl;
    depth = rw var refl;
    inside = rw var can.callee;
    frame_capacity = refl;
    capacity = omega arith;
  }

  pass_args-PassesArgs : PassesArgs new vm f arg_count (pass_args new vm f arg_count)
  unfolding pass_args
  pass_args-PassesArgs =
      if_lem (PassesArgs new vm f arg_count) f.variadic
        (λ var.
          if_lem (PassesArgs new vm f arg_count) (ltb (arg_count + 1) f.arity)
            (λ less. few (rw var refl) (rw var (ground arith)))
            λ enough. pack_rest-PassesArgs var (ground arith))
        λ plain.
          if_lem (PassesArgs new vm f arg_count) (ltb arg_count f.arity)
            (λ less. few (rw plain refl) (rw plain (ground arith)))
            λ enough.
              if_lem (PassesArgs new vm f arg_count) (ltb f.arity arg_count)
                (λ more. many plain (ground arith))
                λ exact. passes (plain-Passed plain (ground arith))

-- The function has its frame: `slots` is at the callee, the frames below are as they were and one more fits, and
-- the stack is what `passed` says.
pub record Called (new : Allocates) (vm : Vm) (f : Callee) (arg_count : ℕ) (vm' : Vm) : Type 0 where
  pub running : IsRunning vm'
  pub frames :
      relative vm'.running.stack vm'.running.frames
      ≡ relative vm.running.stack vm.running.frames
        ++ frame_at f (vm.running.stack_top - vm.running.stack - arg_count - 1) ∷ []
  pub room : length vm'.running.frames < vm'.running.frame_capacity
  pub shallow : length vm'.running.frames ≤ frames_max
  pub live : live vm' ≡ passed new vm f arg_count

-- The ends of a call, each with what holds when it is reached.
pub data Calls (new : Allocates) (vm : Vm) (f : Callee) (arg_count : ℕ) : Result Vm → Type 0 where
  called :
      {vm' : Vm}
      → required f ≤ arg_count
      → (f.variadic ≡ false → arg_count ≤ f.arity)
      → Called new vm f arg_count vm'
      → Calls new vm f arg_count (ok vm')
  few_args :
      {n : ℕ}
      → n ≡ required f
      → arg_count < required f
      → Calls new vm f arg_count (err (too_few_args n arg_count))
  many_args :
      f.variadic ≡ false
      → f.arity < arg_count
      → Calls new vm f arg_count (err (too_many_args f.arity arg_count))
  deep : length vm.running.frames ≡ frames_max → Calls new vm f arg_count (err scope_overflow)
  overflows : stack_max ≤ vm.running.stack_capacity * 4 → Calls new vm f arg_count null_running

module _ (new : Allocates) (vm : Vm) (f : Callee) (arg_count : ℕ) (can : CanCall vm arg_count) where
  same_length :
      {vm' : Vm}
      → Passed new vm f arg_count vm'
      → length vm'.running.frames ≡ length vm.running.frames
  same_length {vm'} p =
      sym (length-relative _ vm'.running.frames)
      ∙ ap length p.frames
      ∙ length-relative vm.running.stack vm.running.frames

  enter-Called :
      (vm' vm'' : Vm)
      → Passed new vm f arg_count vm'
      → length vm'.running.frames < frames_max
      → Entered vm' f arg_count vm''
      → Called new vm f arg_count vm''
  enter-Called vm' vm'' p shallow e =
      let index : vm'.running.stack_top - vm'.running.stack - taken f arg_count - 1
          ≡ vm.running.stack_top - vm.running.stack - arg_count - 1 =
        omega (arith, p.depth) in
      let frames =
        e.frames
        ∙ ap (λ (k : ℕ). relative vm'.running.stack vm'.running.frames ++ frame_at f k ∷ []) index
        ∙ ap (λ l. l ++ frame_at f (vm.running.stack_top - vm.running.stack - arg_count - 1) ∷ [])
            p.frames in
      let one_more : length vm''.running.frames ≡ length vm'.running.frames + 1 =
        sym (length-relative _ vm''.running.frames)
        ∙ ap length e.frames
        ∙ length-append (relative vm'.running.stack vm'.running.frames) _
        ∙ ap (λ k. k + 1) (length-relative _ vm'.running.frames) in
      record {
        running = e.running;
        frames = frames;
        room = e.room;
        shallow = omega (arith, one_more);
        live = e.live ∙ p.live;
      }

  enter-Calls :
      (vm' : Vm)
      → Passed new vm f arg_count vm'
      → Calls new vm f arg_count (enter new.called vm' f arg_count)
  enter-Calls vm' p =
      let count = same_length p in
      elim (enter-Enters new.called vm' f arg_count p.running p.inside
          (omega (arith, count, p.frame_capacity, can.room)) (omega (arith, count, can.shallow)))
        as (λ r _. Calls new vm f arg_count r) [
          | enters shallow e ↦ called p.enough p.not_more (enter-Called vm' _ p shallow e)
          | too_deep reached ↦ deep (sym count ∙ reached)
          | Enters.crashes over ↦ overflows (omega (arith, p.capacity))
        ]

  -- On a coroutine in order with room for a frame and at most `FRAMES_MAX` of them, whose stack ends, above
  -- all that its frames and open upvalues need, with a callee and its arguments, `jml_vm_call` either makes
  -- the frame of the function at the callee, with the arguments as the function wants them and with room for
  -- the frame after it, or reports why it did not: too few or too many arguments, or `FRAMES_MAX` frames.
  -- Through NULL it goes only when the stack has a quarter of `STACK_MAX` cells already.
  pub call-Calls : Calls new vm f arg_count (call new vm f arg_count)
  unfolding call
  call-Calls =
      elim (pass_args-PassesArgs new vm f arg_count can)
        as (λ r _. Calls new vm f arg_count (enter_with new.called r f arg_count)) [
          | passes p ↦ enter-Calls _ p
          | few e less ↦ few_args e less
          | many plain more ↦ many_args plain more
          | full over ↦ overflows (omega arith)
        ]
