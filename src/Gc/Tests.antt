-- ===== src/Gc/Tests.antt =====
-- src/jml_gc.c: a small heap.
use mathlib.Core.Option.{some-injective}
use mathlib.Core.Path.{subst}
use jml.HashMap.Table.{
  Entry, Strings, HashMap, init, empty_entry, tombstone, find_entry, probe, store, make_room,
  adjust_capacity, rehash, grow_capacity, set_key, del, remove_white,
}
use jml.HashMap.Laws.{IsValid}
use jml.HashMap.Methods.{init-IsValid, set_key-Does}
use jml.Value.{is_none, none_val}
use jml.Base.{
  Bool, true, false, sym, ◌∙◌, ℕ, zero, suc, ◌<◌, ◌≡◌, ◌≢◌, refl, inl, inr, true, false, List, [],
  ◌∷◌, none, some, length, get_or, arith,
}
use jml.Value.{obj_val, num_val}
use jml.HashMap.Table.{entry}
use jml.Gc.Heap.{Object, obj_string, obj_array, Roots}
use jml.Gc.Mark.{
  Marking, gc_mark_obj, gc_mark_value, gc_mark_array, hashmap_mark, mark_objs, gc_blacken_obj,
  mark_compilers, gc_mark_roots, gc_trace_refs,
}
use jml.Gc.Collect.{under_marks, Swept, gc_sweep, gc_collect}
use jml.Gc.Refs.{root_refs, object_refs}
use jml.Gc.Marked.{Among}
use jml.Gc.Reached.{IsHeap}
use jml.Gc.Swept.{KeepsStrings, Collects, gc_collect-Collects}

-- A name, an array that holds itself and the name, and an array that nothing refers to.
abbrev small_heap : List Object
small_heap = obj_string ∷ obj_array (obj_val 0 ∷ obj_val 1 ∷ []) ∷ obj_array (obj_val 2 ∷ []) ∷ []

abbrev small_roots : Roots
small_roots = record {
  globals = entry 0 (obj_val 1) ∷ [];
  modules = [];
  builtins = [];
  names = none ∷ [];
  coroutines = [];
  compilers = [];
  exempt_stack = num_val 7 ∷ [];
}

small_heap-IsHeap : IsHeap small_heap (root_refs small_roots)
small_heap-IsHeap = record { refs_inside = inside; roots_inside = roots }
  where
    inside :
        (a b : ℕ) → Among b (object_refs (get_or small_heap a obj_string)) → b < length small_heap
    inside zero b h = absurd (omega arith)
    inside (suc zero) b (inl e) = omega arith
    inside (suc zero) b (inr (inl e)) = omega arith
    inside (suc zero) b (inr (inr h)) = absurd (omega arith)
    inside (suc (suc zero)) b (inl e) = omega arith
    inside (suc (suc zero)) b (inr h) = absurd (omega arith)
    inside (suc (suc (suc a))) b h = absurd (omega arith)

    roots : (b : ℕ) → Among b (root_refs small_roots) → b < length small_heap
    roots b (inl e) = omega arith
    roots b (inr (inl e)) = omega arith
    roots b (inr (inr h)) = absurd (omega arith)

-- The table of strings with the name at address 0 and a string at address 2 that nothing refers to.
abbrev strings : Strings
strings = record { hash = λ k. k; chars = λ k. []; marked = λ k. false }

abbrev table_of : Entry → Entry → HashMap
table_of e e' = record {
  count = 2;
  slots = 8;
  entries =
      e ∷ empty_entry ∷ e' ∷ empty_entry ∷ empty_entry ∷ empty_entry ∷ empty_entry ∷ empty_entry
      ∷ [];
}

abbrev one_string : HashMap
one_string = record {
  count = 1;
  slots = 8;
  entries =
      entry 0 none_val
      ∷ empty_entry
      ∷ empty_entry
      ∷ empty_entry
      ∷ empty_entry
      ∷ empty_entry
      ∷ empty_entry
      ∷ empty_entry
      ∷ [];
}

abbrev string_table : HashMap
string_table = table_of (entry 0 none_val) (entry 2 none_val)

one_string_run :
    (marks : List Bool)
    → set_key (under_marks strings marks) init 0 none_val ≡ some (true, one_string)
unfolding set_key make_room adjust_capacity rehash grow_capacity store find_entry probe init is_none
one_string_run marks = refl

string_table_run :
    (marks : List Bool)
    → set_key (under_marks strings marks) one_string 2 none_val ≡ some (true, string_table)
unfolding set_key make_room store find_entry probe is_none
string_table_run marks = refl

string_table-IsValid : (marks : List Bool) → IsValid (under_marks strings marks) string_table
string_table-IsValid marks =
    let under = under_marks strings marks in
    let (r, run, does) = set_key-Does under (init-IsValid under).0 0 none_val in
    let one =
      subst (λ (x : Bool × HashMap). IsValid under x.1)
        (some-injective _ _ (sym run ∙ one_string_run marks)) does.valid in
    let (r', run', does') = set_key-Does under one 2 none_val in
    subst (λ (x : Bool × HashMap). IsValid under x.1)
      (some-injective _ _ (sym run' ∙ string_table_run marks)) does'.valid

collected :
    gc_collect strings small_heap small_roots (2 ∷ 1 ∷ 0 ∷ []) string_table
    ≡ some (
      record { kept = 1 ∷ 0 ∷ []; freed = 2 ∷ []; marks = false ∷ false ∷ false ∷ [] },
      table_of (entry 0 none_val) tombstone,
    )
unfolding gc_collect gc_sweep gc_trace_refs gc_mark_roots mark_compilers gc_blacken_obj mark_objs
    hashmap_mark gc_mark_array gc_mark_value gc_mark_obj remove_white del find_entry probe
collected = refl

not_one : (b : ℕ) → Among b (0 ∷ []) → b ≢ 1
not_one b (inl e) = λ e'. omega arith
not_one b (inr never) = absurd (omega arith)

gc_collect-Collects_example :
    (r : Swept × HashMap) × (gc_collect strings small_heap small_roots (1 ∷ 0 ∷ []) string_table
      ≡ some r)
    × Collects small_heap (root_refs small_roots) (1 ∷ 0 ∷ []) r.0
    × KeepsStrings small_heap small_roots small_heap-IsHeap strings string_table r.1
gc_collect-Collects_example =
    gc_collect-Collects small_heap small_roots small_heap-IsHeap strings (1 ∷ 0 ∷ []) string_table
      (omega arith, not_one, (omega arith, (λ b among. absurd (omega arith)), omega arith))
      string_table-IsValid

abbrev white_marking : Marking
white_marking = record { marks = false ∷ true ∷ []; gray = [] }
