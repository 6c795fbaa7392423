-- ===== src/Vm/Enter.antt =====
-- src/jml_vm.c: the part of `jml_vm_call` that makes the frame.
use jml.Base.{
  ℕ, suc, ◌+◌, ◌-◌, ◌*◌, ◌≤◌, ◌<◌, ◌≡◌, refl, sym, ap, ◌∙◌, List, [], ◌∷◌, ◌++◌, inl, inr, length,
  leb, ◌==◌, if◌then◌else◌, if_lem, Bool-cases, arith, length-append,
}
use jml.HashMap.Table.{grow_capacity}
use jml.Vm.Coroutine.{
  Frame, Vm, Result, ok, err, null_running, scope_overflow, stack_max, frames_max, grown,
  coroutine_grow,
}
use jml.Vm.Running.{FramesIn, IsRunning, live, relative, grown-Moves, grow_capacity_wide}
use jml.Vm.Call.{Callee, put_frame, with_frames, put_frame_grown, enter}

FramesIn-append :
    (low top : ℕ) (fs : List Frame) (f : Frame)
    → FramesIn low top fs
    → low ≤ f.slots
    → f.slots ≤ top
    → FramesIn low top (fs ++ f ∷ [])
FramesIn-append low top [] f h a b = (a, b, tt)
FramesIn-append low top (g ∷ fs) f (c, d, rest) a b = (c, d, FramesIn-append low top fs f rest a b)

relative-append :
    (stack : ℕ) (fs : List Frame) (f : Frame)
    → relative stack (fs ++ f ∷ []) ≡ relative stack fs ++ record f { slots = f.slots - stack } ∷ []
relative-append stack [] f = refl
relative-append stack (g ∷ fs) f =
    ap (◌∷◌ (record g { slots = g.slots - stack })) (relative-append stack fs f)

pub length-relative : (stack : ℕ) (fs : List Frame) → length (relative stack fs) ≡ length fs
length-relative stack [] = refl
length-relative stack (f ∷ fs) = ap suc (length-relative stack fs)

-- The cells of a frame below its top: its arguments, or their names for a variadic function.
abbrev pub taken : Callee → ℕ → ℕ
taken f arg_count = if f.variadic then f.arity else arg_count

-- A frame, with `slots` as an index of the stack.
abbrev pub frame_at : Callee → ℕ → Frame
frame_at f index = record { closure = f.closure; pc = 0; slots = index }

-- The frame is put above those there were, at the callee; all else stays.
pub record Entered (vm : Vm) (f : Callee) (arg_count : ℕ) (new : Vm) : Type 0 where
  pub running : IsRunning new
  pub frames :
      relative new.running.stack new.running.frames
      ≡ relative vm.running.stack vm.running.frames
        ++ frame_at f (vm.running.stack_top - vm.running.stack - taken f arg_count - 1) ∷ []
  pub room : length new.running.frames < new.running.frame_capacity
  pub live : live new ≡ live vm

module _ (vm : Vm) (f : Callee) (arg_count : ℕ) where
  put_frame-Entered :
      IsRunning vm
      → taken f arg_count + 1 ≤ vm.running.stack_top - vm.running.stack
      → length vm.running.frames + 1 < vm.running.frame_capacity
      → Entered vm f arg_count (put_frame vm f arg_count)
  put_frame-Entered v inside room =
      let c = vm.running in
      let frame = frame_at f (c.stack_top - taken f arg_count - 1) in
      let index : c.stack_top - taken f arg_count - 1 - c.stack
          ≡ c.stack_top - c.stack - taken f arg_count - 1 =
        omega arith in
      record {
        running = record {
          wide = v.wide;
          cells = v.cells;
          above = v.above;
          room = v.room;
          frames =
              FramesIn-append c.stack c.stack_top c.frames frame v.frames (omega arith)
                (omega arith);
          descends = v.descends;
          allocated = v.allocated;
        };
        frames =
            relative-append c.stack c.frames frame
            ∙ ap (λ k. relative c.stack c.frames ++ frame_at f k ∷ []) index;
        room = omega (arith, length-append c.frames (frame ∷ []));
        live = refl;
      }

  -- What the part does of a coroutine with `length c.frames` frames.
  pub data Enters : Result Vm → Type 0 where
    enters :
        {new : Vm}
        → length vm.running.frames < frames_max
        → Entered vm f arg_count new
        → Enters (ok new)
    too_deep : length vm.running.frames ≡ frames_max → Enters (err scope_overflow)
    crashes : stack_max ≤ vm.running.stack_capacity * 2 → Enters null_running

  with_frames-IsRunning : (capacity : ℕ) → IsRunning vm → IsRunning (with_frames vm capacity)
  with_frames-IsRunning capacity v = record {
    wide = v.wide;
    cells = v.cells;
    above = v.above;
    room = v.room;
    frames = v.frames;
    descends = v.descends;
    allocated = v.allocated;
  }

module _ (moved : ℕ) (vm : Vm) (f : Callee) (arg_count : ℕ) (v : IsRunning vm)
    (inside : taken f arg_count + 1 ≤ vm.running.stack_top - vm.running.stack)
    (room : length vm.running.frames < vm.running.frame_capacity) where
  wider : Vm
  wider = with_frames vm (vm.running.frame_capacity * 2)

  grown-Entered :
      vm.running.frame_capacity ≤ length vm.running.frames + 1
      → Entered vm f arg_count (put_frame (grown moved wider) f arg_count)
  unfolding wider
  grown-Entered full =
      let w = with_frames-IsRunning vm f arg_count (vm.running.frame_capacity * 2) v in
      let m = grown-Moves {vm = wider} moved w in
      let count : length (grown moved wider).running.frames ≡ length vm.running.frames =
        sym (length-relative _ (grown moved wider).running.frames)
        ∙ ap length m.frames
        ∙ length-relative vm.running.stack vm.running.frames in
      let p =
        put_frame-Entered (grown moved wider) f arg_count m.running (omega (arith, m.depth, inside))
          (omega (arith, m.frame_capacity, count, room)) in
      record {
        running = p.running;
        frames =
            p.frames
            ∙ ap
                (λ l.
                  l
                  ++ frame_at f (
                      (grown moved wider).running.stack_top
                      - (grown moved wider).running.stack
                      - taken f arg_count
                      - 1)
                    ∷ [])
                m.frames
            ∙ ap
                (λ d.
                  relative vm.running.stack vm.running.frames
                  ++ frame_at f (d - taken f arg_count - 1) ∷ [])
                m.depth;
        room = p.room;
        live = p.live ∙ m.live;
      }

  full-Enters :
      length vm.running.frames < frames_max
      → vm.running.frame_capacity ≤ length vm.running.frames + 1
      → Enters vm f arg_count (put_frame_grown (coroutine_grow moved wider) f arg_count)
  unfolding wider coroutine_grow
  full-Enters shallow full =
      elim (Bool-cases (leb stack_max (grow_capacity vm.running.stack_capacity))) [
        | inl over ↦
            rw over (crashes (ground (arith, grow_capacity_wide vm.running.stack_capacity v.wide)))
        | inr fits ↦ rw fits (enters shallow (grown-Entered full))
      ]

  pub enter-Enters :
      length vm.running.frames ≤ frames_max → Enters vm f arg_count (enter moved vm f arg_count)
  unfolding enter wider
  enter-Enters few =
      if_lem (Enters vm f arg_count) (length vm.running.frames == frames_max)
        (λ deep. too_deep (ground arith))
        λ not_deep.
          let shallow : length vm.running.frames < frames_max = ground arith in
          if_lem (Enters vm f arg_count)
            (leb vm.running.frame_capacity (length vm.running.frames + 1))
            (λ full. full-Enters shallow (ground arith))
            λ free. enters shallow (put_frame-Entered vm f arg_count v inside (ground arith))
