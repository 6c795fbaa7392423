-- ===== src/Vm/Coroutine.antt =====
-- include/jml/jml_value.h, include/jml/jml_vm.h, include/jml/jml_type.h, src/jml_type.c and src/jml_vm.c: the coroutine that runs, its
-- stack of values and its frames. Pointers into the stack are addresses, in cells.
use jml.Base.{ℕ, ◌+◌, ◌-◌, ◌*◌, List, [], ◌∷◌, set, get_or, leb, ◌==◌, if◌then◌else◌}
use jml.Value.{Value, none_val}
use jml.HashMap.Table.{grow_capacity}
use jml.Bytecode.Array.{grow_array}

-- `slots` points into the stack, `pc` is an offset into the code of the closure.
pub record Frame : Type 0 where
  pub closure : ℕ
  pub pc : ℕ
  pub slots : ℕ

-- `upvalue->location`: a cell of the stack, or `&upvalue->closed`.
pub data Location : Type 0 where
  slot : ℕ → Location
  own : Location

pub record Upvalue : Type 0 where
  pub location : Location
  pub closed : Value

-- `open_upvalues` is the list that `next` links; `stack` the address of `cells`.
pub record Coroutine : Type 0 where
  pub frames : List Frame
  pub frame_capacity : ℕ
  pub open_upvalues : List ℕ
  pub stack : ℕ
  pub stack_top : ℕ
  pub stack_capacity : ℕ
  pub cells : List Value

-- `running` and the upvalue objects, by their addresses; the next one is allocated at `fresh`.
pub record Vm : Type 0 where
  pub running : Coroutine
  pub upvalues : ℕ → Upvalue
  pub fresh : ℕ

pub data Error : Type 0 where
  stack_overflow : Error
  scope_overflow : Error
  too_few_args : ℕ → ℕ → Error
  too_many_args : ℕ → ℕ → Error

-- `err`: `jml_vm_error` was called, which sets `vm->running` to NULL. `null_running`: the code then
-- goes through that NULL.
pub data Result {ℓ} (A : Type ℓ) : Type ℓ where
  ok : A → Result A
  err : Error → Result A
  null_running : Result A

abbrev pub local_max : ℕ
local_max = 256

abbrev pub frames_max : ℕ
frames_max = 128

abbrev pub frames_min : ℕ
frames_min = 8

abbrev pub stack_max : ℕ
stack_max = frames_max * local_max

abbrev pub stack_min : ℕ
stack_min = 128

abbrev pub update : (ℕ → Upvalue) → ℕ → Upvalue → ℕ → Upvalue
update objects id u q = if id == q then u else objects q

-- `coroutine->stack + (pointer - old_stack)`
abbrev pub rebase : ℕ → ℕ → ℕ → ℕ
rebase old_stack stack pointer = stack + (pointer - old_stack)

abbrev pub rebase_location : ℕ → ℕ → Location → Location
rebase_location old_stack stack (slot p) = slot (rebase old_stack stack p)
rebase_location old_stack stack own = own

-- The first loop of `jml_obj_coroutine_grow`.
unfoldable pub rebase_frames : ℕ → ℕ → List Frame → List Frame
rebase_frames old_stack stack [] = []
rebase_frames old_stack stack (f ∷ fs) =
    record f { slots = rebase old_stack stack f.slots } ∷ rebase_frames old_stack stack fs

-- Its second loop.
unfoldable pub rebase_upvalues : ℕ → ℕ → List ℕ → (ℕ → Upvalue) → ℕ → Upvalue
rebase_upvalues old_stack stack [] objects = objects
rebase_upvalues old_stack stack (id ∷ ids) objects = rebase_upvalues old_stack stack ids (
    update objects id
      (record (objects id) { location = rebase_location old_stack stack (objects id).location }))

-- The reallocation in `jml_obj_coroutine_grow`; `moved` is the address that the allocator gives.
abbrev pub resized : ℕ → Vm → Vm
resized moved vm =
    let c = vm.running in
    let capacity = grow_capacity c.stack_capacity in
    record vm {
      running = record c {
        stack = moved;
        stack_capacity = capacity;
        cells = grow_array c.cells capacity none_val;
      };
    }

-- Its assignments for a stack that was moved, whose address was `old_stack`.
abbrev pub relocated : ℕ → Vm → Vm
relocated old_stack vm =
    let c = vm.running in
    record vm {
      running = record c {
        frames = rebase_frames old_stack c.stack c.frames;
        stack_top = rebase old_stack c.stack c.stack_top;
      };
      upvalues = rebase_upvalues old_stack c.stack c.open_upvalues vm.upvalues;
    }

abbrev pub grown : ℕ → Vm → Vm
grown moved vm =
    if moved == vm.running.stack
    then resized moved vm
    else relocated vm.running.stack (resized moved vm)

unfoldable pub coroutine_grow : ℕ → Vm → Result Vm
coroutine_grow moved vm =
    if leb stack_max (grow_capacity vm.running.stack_capacity)
    then err stack_overflow
    else ok (grown moved vm)

-- `*vm->running->stack_top++ = value`
abbrev pub put_top : Vm → Value → Vm
put_top vm value =
    let c = vm.running in
    record vm {
      running = record c {
        cells = set c.cells (c.stack_top - c.stack) value;
        stack_top = c.stack_top + 1;
      };
    }

-- `jml_vm_push` does not look at whether the stack could grow.
abbrev pub put_grown : Result Vm → Value → Result Vm
put_grown (ok vm) value = ok (put_top vm value)
put_grown (err e) value = null_running
put_grown null_running value = null_running

unfoldable pub push : ℕ → Vm → Value → Result Vm
push moved vm value =
    if leb vm.running.stack_capacity (vm.running.stack_top + 1 - vm.running.stack)
    then put_grown (coroutine_grow moved vm) value
    else ok (put_top vm value)

-- `*pointer`
abbrev pub read_cell : Coroutine → ℕ → Value
read_cell c pointer = get_or c.cells (pointer - c.stack) none_val

abbrev pub read_location : Coroutine → Value → Location → Value
read_location c closed (slot p) = read_cell c p
read_location c closed own = closed

-- `*upvalue->location`
abbrev pub read_through : Coroutine → Upvalue → Value
read_through c u = read_location c u.closed u.location

abbrev pub read_upvalue : Vm → ℕ → Value
read_upvalue vm id = read_through vm.running (vm.upvalues id)

abbrev pub with_top : Vm → ℕ → Vm
with_top vm top = record vm { running = record vm.running { stack_top = top } }

unfoldable pub pop : Vm → Value × Vm
pop vm = let top = vm.running.stack_top - 1 in (read_cell vm.running top, with_top vm top)

unfoldable pub pop_two : Vm → Value × Vm
pop_two vm = let top = vm.running.stack_top - 2 in (read_cell vm.running top, with_top vm top)

unfoldable pub peek : Vm → ℕ → Value
peek vm distance = read_cell vm.running (vm.running.stack_top - 1 - distance)

abbrev pub push_to : ℕ → Result Vm → Value → Result Vm
push_to moved (ok vm) value = push moved vm value
push_to moved (err e) value = err e
push_to moved null_running value = null_running

unfoldable pub rot : ℕ → Vm → Result Vm
unfolding push
rot moved vm =
    let (a, one_less) = pop vm in
    let (b, two_less) = pop one_less in push_to moved (push moved two_less a) b
