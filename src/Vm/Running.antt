-- ===== src/Vm/Running.antt =====
-- src/jml_type.c and src/jml_vm.c: a coroutine whose pointers lie in its stack, and what growing the stack keeps.
use jml.Base.{
  ℕ, zero, suc, ◌+◌, ◌-◌, ◌*◌, ◌≤◌, ◌<◌, ◌≡◌, refl, sym, ap, ◌∙◌, ==_iff, List, [], ◌∷◌, ◌++◌,
  length, get_or, take, ◌==◌, if_lem, arith, length-append, length-replicate, take-append,
}
use jml.Value.{Value, none_val}
use jml.HashMap.Table.{grow_capacity}
use jml.Bytecode.Array.{grow_array}
use jml.Vm.Coroutine.{
  Frame, Vm, rebase, rebase_location, rebase_frames, rebase_upvalues, grown, resized, relocated,
  read_location, read_through, read_upvalue,
}
use jml.Vm.Open.{
  In, Descends, Points, rebased, rebase_upvalues-moves, Descends-points, Descends-rebase,
}

abbrev pub FramesIn : ℕ → ℕ → List Frame → Type 0
FramesIn low top [] = Unit {0}
FramesIn low top (f ∷ fs) = (low ≤ f.slots) × (f.slots ≤ top) × FramesIn low top fs

-- There is a free cell at the top, the frames and the open upvalues point into the stack, and the objects that
-- are linked have been allocated.
pub record IsRunning (vm : Vm) : Type 0 where
  pub wide : 8 ≤ vm.running.stack_capacity
  pub cells : length vm.running.cells ≡ vm.running.stack_capacity
  pub above : vm.running.stack ≤ vm.running.stack_top
  pub room : vm.running.stack_top < vm.running.stack + vm.running.stack_capacity
  pub frames : FramesIn vm.running.stack vm.running.stack_top vm.running.frames
  pub descends : Descends vm.upvalues vm.running.stack vm.running.stack_top vm.running.open_upvalues
  pub allocated : (id : ℕ) → In id vm.running.open_upvalues → id < vm.fresh

-- The values on the stack, from the bottom.
abbrev pub live : Vm → List Value
live vm = take (vm.running.stack_top - vm.running.stack) vm.running.cells

-- The frames, with `slots` as an index of the stack.
abbrev pub relative : ℕ → List Frame → List Frame
relative stack [] = []
relative stack (f ∷ fs) = record f { slots = f.slots - stack } ∷ relative stack fs

-- The stack of `new` is that of `old`, twice as large and at another address.
pub record Moves (old : Vm) (new : Vm) : Type 0 where
  pub running : IsRunning new
  pub capacity : new.running.stack_capacity ≡ old.running.stack_capacity * 2
  pub live : live new ≡ live old
  pub depth : new.running.stack_top - new.running.stack ≡ old.running.stack_top - old.running.stack
  pub frames :
      relative new.running.stack new.running.frames ≡ relative old.running.stack old.running.frames
  pub frame_capacity : new.running.frame_capacity ≡ old.running.frame_capacity
  pub linked : new.running.open_upvalues ≡ old.running.open_upvalues
  pub reads : (id : ℕ) → In id old.running.open_upvalues → read_upvalue new id ≡ read_upvalue old id

pub grow_capacity_wide : (n : ℕ) → 8 ≤ n → grow_capacity n ≡ n * 2
unfolding grow_capacity
grow_capacity_wide n h = ground arith

get-append {ℓ} :
    {A : Type ℓ} (xs ys : List A) (i : ℕ) (d : A)
    → i < length xs
    → get_or (xs ++ ys) i d ≡ get_or xs i d
get-append [] ys i d h = absurd (omega arith)
get-append (x ∷ xs) ys zero d h = refl
get-append (x ∷ xs) ys (suc i) d h = get-append xs ys i d (omega arith)

FramesIn-rebase :
    (old stack top : ℕ) (fs : List Frame)
    → FramesIn old top fs
    → FramesIn stack (rebase old stack top) (rebase_frames old stack fs)
unfolding rebase_frames
FramesIn-rebase old stack top [] h = tt
FramesIn-rebase old stack top (f ∷ fs) (low, high, rest) =
    (omega arith, omega arith, FramesIn-rebase old stack top fs rest)

relative-rebase :
    (old stack top : ℕ) (fs : List Frame)
    → FramesIn old top fs
    → relative stack (rebase_frames old stack fs) ≡ relative old fs
unfolding rebase_frames
relative-rebase old stack top [] h = refl
relative-rebase old stack top (f ∷ fs) (low, high, rest) =
    let same : rebase old stack f.slots - stack ≡ f.slots - old = omega arith in
    ap (λ (k : ℕ). record f { slots = k } ∷ relative stack (rebase_frames old stack fs)) same
    ∙ ap (λ l. record f { slots = f.slots - old } ∷ l) (relative-rebase old stack top fs rest)

module _ {vm : Vm} (moved : ℕ) (v : IsRunning vm) where
  larger :
      length (grow_array vm.running.cells (grow_capacity vm.running.stack_capacity) none_val)
      ≡ vm.running.stack_capacity * 2
  larger =
      length-append vm.running.cells _
      ∙ ap (λ k. length vm.running.cells + k) (length-replicate _ none_val)
      ∙ omega (arith, v.cells, v.wide, grow_capacity_wide vm.running.stack_capacity)

  same_cell :
      (i : ℕ)
      → i < vm.running.stack_capacity
      → get_or
          (grow_array vm.running.cells (grow_capacity vm.running.stack_capacity) none_val)
          i
          none_val
        ≡ get_or vm.running.cells i none_val
  same_cell i h = get-append vm.running.cells _ i none_val (omega (arith, v.cells))

  same_live :
      take
        (vm.running.stack_top - vm.running.stack)
        (grow_array vm.running.cells (grow_capacity vm.running.stack_capacity) none_val)
      ≡ live vm
  same_live = take-append _ vm.running.cells _ (omega (arith, v.cells, v.room, v.above))

  points :
      (id : ℕ)
      → In id vm.running.open_upvalues
      → Points vm.upvalues vm.running.stack vm.running.stack_top id
  points id h = Descends-points vm.upvalues _ _ vm.running.open_upvalues id v.descends h

  moves :
      (id : ℕ)
      → In id vm.running.open_upvalues
      → rebase_upvalues vm.running.stack moved vm.running.open_upvalues vm.upvalues id
        ≡ rebased vm.running.stack moved (vm.upvalues id)
  moves id h =
      rebase_upvalues-moves vm.running.stack moved vm.running.stack_top vm.running.open_upvalues
        vm.upvalues id v.descends h

  resized-Moves : moved ≡ vm.running.stack → Moves vm (resized moved vm)
  unfolding points
  resized-Moves same =
      let wide = grow_capacity_wide vm.running.stack_capacity v.wide in
      record {
        running = record {
          wide = omega (arith, wide, v.wide);
          cells = larger ∙ sym wide;
          above = omega (arith, same, v.above);
          room = omega (arith, same, v.room, wide);
          frames = rw same v.frames;
          descends = rw same v.descends;
          allocated = v.allocated;
        };
        capacity = wide;
        live = rw same same_live;
        depth = rw same;
        frames = rw same;
        frame_capacity = refl;
        linked = refl;
        reads = λ id h.
            let (p, e, lt, le) = points id h in
            let cell = same_cell (p - vm.running.stack) (omega (arith, v.room)) in
            ap (read_location (resized moved vm).running (vm.upvalues id).closed) e
            ∙ rw same cell
            ∙ sym (ap (read_location vm.running (vm.upvalues id).closed) e);
      }

  relocated-reads :
      (id : ℕ)
      → In id vm.running.open_upvalues
      → read_upvalue (relocated vm.running.stack (resized moved vm)) id ≡ read_upvalue vm id
  relocated-reads id h =
      let (p, e, lt, le) = points id h in
      let index : rebase vm.running.stack moved p - moved ≡ p - vm.running.stack = omega arith in
      let c = (relocated vm.running.stack (resized moved vm)).running in
      ap (read_through c) (moves id h)
      ∙ ap (λ l. read_location c (vm.upvalues id).closed (rebase_location vm.running.stack moved l))
          e
      ∙ rw index (same_cell (p - vm.running.stack) (omega (arith, v.room)))
      ∙ sym (ap (read_location vm.running (vm.upvalues id).closed) e)

  relocated-Moves : Moves vm (relocated vm.running.stack (resized moved vm))
  relocated-Moves =
      let wide = grow_capacity_wide vm.running.stack_capacity v.wide in
      let depth : rebase vm.running.stack moved vm.running.stack_top - moved
          ≡ vm.running.stack_top - vm.running.stack =
        omega arith in
      record {
        running = record {
          wide = omega (arith, wide, v.wide);
          cells = larger ∙ sym wide;
          above = omega (arith, v.above);
          room = omega (arith, v.above, v.room, wide);
          frames = FramesIn-rebase vm.running.stack moved _ vm.running.frames v.frames;
          descends =
              Descends-rebase _ moved _ vm.running.open_upvalues vm.upvalues _ moves v.descends;
          allocated = v.allocated;
        };
        capacity = wide;
        live = rw depth same_live;
        depth = depth;
        frames = relative-rebase vm.running.stack moved _ vm.running.frames v.frames;
        frame_capacity = refl;
        linked = refl;
        reads = relocated-reads;
      }

  -- On a coroutine in order, when `jml_obj_coroutine_grow` makes the stack grow it has twice the cells, the
  -- same values and the same depth; wherever it is moved, the frames keep their place in it, and a read
  -- through an open upvalue gives the value that it gave.
  pub grown-Moves : Moves vm (grown moved vm)
  grown-Moves =
      if_lem (Moves vm) (moved == vm.running.stack) (λ e. resized-Moves ((==_iff _ _).0 e))
        λ _. relocated-Moves
