-- ===== src/Vm/Upvalues.antt =====
-- src/jml_vm.c: `jml_vm_upvalue_capture` and `jml_vm_upvalue_close`.
use jml.Base.{ℕ, ◌+◌, Bool, false, List, [], ◌∷◌, ◌++◌, ltb, leb, ◌==◌, if◌then◌else◌}
use jml.Value.{none_val}
use jml.Vm.Coroutine.{Upvalue, Location, slot, own, Coroutine, Vm, update, read_through}

-- `upvalue->location > local`; an open upvalue does not point to itself.
abbrev pub is_above : Location → ℕ → Bool
is_above (slot p) pointer = ltb pointer p
is_above own pointer = false

abbrev pub is_at : Location → ℕ → Bool
is_at (slot p) pointer = p == pointer
is_at own pointer = false

-- The loop of `jml_vm_upvalue_capture`: the upvalues that it passes, and `upvalue` with those after it.
unfoldable pub pass_above : (ℕ → Upvalue) → ℕ → List ℕ → List ℕ × List ℕ
pass_above objects pointer [] = ([], [])
pass_above objects pointer (id ∷ ids) =
    let (above, rest) = pass_above objects pointer ids in
    if is_above (objects id).location pointer then (id ∷ above, rest) else ([], id ∷ ids)

-- `jml_obj_upvalue_new`
abbrev pub upvalue_new : ℕ → Upvalue
upvalue_new pointer = record { location = slot pointer; closed = none_val }

-- The new upvalue, between those that were passed and the rest.
abbrev pub insert_new : Vm → ℕ → List ℕ → List ℕ → ℕ × Vm
insert_new vm pointer above rest = (
  vm.fresh,
  record vm {
    running = record vm.running { open_upvalues = above ++ vm.fresh ∷ rest };
    upvalues = update vm.upvalues vm.fresh (upvalue_new pointer);
    fresh = vm.fresh + 1;
  },
)

abbrev pub capture_at : Vm → ℕ → List ℕ → List ℕ → ℕ × Vm
capture_at vm pointer above [] = insert_new vm pointer above []
capture_at vm pointer above (id ∷ rest) =
    if is_at (vm.upvalues id).location pointer
    then (id, vm)
    else insert_new vm pointer above (id ∷ rest)

unfoldable pub upvalue_capture : Vm → ℕ → ℕ × Vm
upvalue_capture vm pointer =
    let (above, rest) = pass_above vm.upvalues pointer vm.running.open_upvalues in
    capture_at vm pointer above rest

-- `upvalue->location >= last`
abbrev pub is_from : Location → ℕ → Bool
is_from (slot p) last = leb last p
is_from own last = false

-- `upvalue->closed = *upvalue->location; upvalue->location = &upvalue->closed;`
abbrev pub shut : Coroutine → Upvalue → Upvalue
shut c u = record { location = own; closed = read_through c u }

-- The loop of `jml_vm_upvalue_close`: the list that is left, and the objects.
unfoldable pub close_from : Coroutine → ℕ → List ℕ → (ℕ → Upvalue) → List ℕ × (ℕ → Upvalue)
close_from c last [] objects = ([], objects)
close_from c last (id ∷ ids) objects =
    let rest = close_from c last ids (update objects id (shut c (objects id))) in
    if is_from (objects id).location last then rest else (id ∷ ids, objects)

unfoldable pub upvalue_close : Vm → ℕ → Vm
upvalue_close vm last =
    let (left, objects) = close_from vm.running last vm.running.open_upvalues vm.upvalues in
    record vm { running = record vm.running { open_upvalues = left }; upvalues = objects }
