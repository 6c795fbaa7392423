-- ===== src/Gc/Collect.antt =====
-- src/jml_gc.c: sweeping, and the collection. The freed memory is not modelled, but which objects are freed.
use jml.Base.{
  ℕ, ◌+◌, Bool, false, List, [], ◌∷◌, Option, some, length, get_or, set, replicate, if◌then◌else◌,
  ◌>>=◌,
}
use jml.HashMap.Table.{Strings, HashMap, remove_white}
use jml.Gc.Heap.{Object, Roots}
use jml.Gc.Mark.{Marking, gc_mark_roots, gc_trace_refs}

-- The list `vm->objects` behind the sweep, what it freed, and the marks that it left.
pub record Swept : Type 0 where
  pub kept : List ℕ
  pub freed : List ℕ
  pub marks : List Bool

-- The loop of `jml_gc_sweep`, over the objects that are left of the list.
unfoldable pub gc_sweep : List ℕ → List Bool → Swept
gc_sweep [] marks = record { kept = []; freed = []; marks = marks }
gc_sweep (a ∷ objects) marks =
    let rest = gc_sweep objects (set marks a false) in
    let dropped = gc_sweep objects marks in
    if get_or marks a false
    then record rest { kept = a ∷ rest.kept }
    else record dropped { freed = a ∷ dropped.freed }

-- The string objects as the map reads them, under the marks of the heap.
abbrev pub under_marks : Strings → List Bool → Strings
under_marks strings marks = record strings { marked = λ a. get_or marks a false }

-- `jml_gc_collect`, from a heap without a mark: the list of objects and the table of strings behind it. The size at
-- which the next collection starts is left out.
unfoldable pub gc_collect :
    Strings → List Object → Roots → List ℕ → HashMap → Option (Swept × HashMap)
gc_collect strings heap roots objects table =
    let start : Marking = record { marks = replicate (length heap) false; gray = [] } in
    gc_trace_refs (length heap + 1) heap (gc_mark_roots roots start) >>= λ m.
    remove_white (under_marks strings m.marks) table.slots 0 table >>= λ table'.
    some (gc_sweep objects m.marks, table')
