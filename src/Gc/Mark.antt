-- ===== src/Gc/Mark.antt =====
-- src/jml_gc.c: marking. The growth of the gray stack is left out.
use jml.Base.{
  ℕ, zero, suc, Bool, true, List, [], ◌∷◌, Option, none, some, get_or, set, if◌then◌else◌,
}
use jml.Value.{Value, obj_val}
use jml.HashMap.Table.{Entry}
use jml.Gc.Heap.{
  Ref, Object, obj_string, obj_array, obj_map, obj_module, obj_class, obj_instance, obj_method,
  obj_function, obj_closure, obj_upvalue, obj_coroutine, obj_cfunction, obj_exception, Roots,
}

-- The field `marked` of every object of the heap, and the gray stack, its top first.
pub record Marking : Type 0 where
  pub marks : List Bool
  pub gray : List ℕ

-- The address of no object is taken for a marked one.
unfoldable pub gc_mark_obj : Ref → Marking → Marking
gc_mark_obj none m = m
gc_mark_obj (some a) m =
    if get_or m.marks a true then m else record { marks = set m.marks a true; gray = a ∷ m.gray }

unfoldable pub gc_mark_value : Value → Marking → Marking
unfolding gc_mark_obj
gc_mark_value (obj_val a) m = gc_mark_obj (some a) m
gc_mark_value _ m = m

unfoldable pub gc_mark_array : List Value → Marking → Marking
gc_mark_array [] m = m
gc_mark_array (v ∷ vs) m = gc_mark_array vs (gc_mark_value v m)

unfoldable pub hashmap_mark : List Entry → Marking → Marking
hashmap_mark [] m = m
hashmap_mark (e ∷ es) m = hashmap_mark es (gc_mark_value e.value (gc_mark_obj e.key m))

-- A loop of `jml_gc_mark_obj` over pointers.
unfoldable pub mark_objs : List Ref → Marking → Marking
mark_objs [] m = m
mark_objs (r ∷ rs) m = mark_objs rs (gc_mark_obj r m)

unfoldable pub gc_blacken_obj : Object → Marking → Marking
gc_blacken_obj obj_string m = m
gc_blacken_obj (obj_array values) m = gc_mark_array values m
gc_blacken_obj (obj_map hashmap) m = hashmap_mark hashmap m
gc_blacken_obj (obj_module name globals) m = hashmap_mark globals (gc_mark_obj name m)
gc_blacken_obj (obj_instance klass fields) m = hashmap_mark fields (gc_mark_obj klass m)
gc_blacken_obj (obj_class name super_class statics) m =
    hashmap_mark statics (gc_mark_obj super_class (gc_mark_obj name m))
gc_blacken_obj (obj_method receiver method) m = gc_mark_obj method (gc_mark_value receiver m)
gc_blacken_obj (obj_closure function upvalues) m = mark_objs upvalues (gc_mark_obj function m)
gc_blacken_obj (obj_function name klass_name constants) m =
    gc_mark_array constants (gc_mark_obj klass_name (gc_mark_obj name m))
gc_blacken_obj (obj_upvalue closed) m = gc_mark_value closed m
gc_blacken_obj (obj_coroutine stack frames open_upvalues caller) m =
    gc_mark_obj caller (mark_objs open_upvalues (mark_objs frames (gc_mark_array stack m)))
gc_blacken_obj (obj_cfunction name klass_name) m = gc_mark_obj klass_name (gc_mark_obj name m)
gc_blacken_obj (obj_exception name message) m = gc_mark_obj message (gc_mark_obj name m)

unfoldable pub mark_compilers : List (List Ref) → Marking → Marking
mark_compilers [] m = m
mark_compilers (c ∷ cs) m = mark_compilers cs (mark_objs c m)

unfoldable pub gc_mark_roots : Roots → Marking → Marking
gc_mark_roots r m = gc_mark_array r.exempt_stack (
    mark_compilers r.compilers (
      mark_objs r.coroutines (
        mark_objs r.names
          (hashmap_mark r.builtins (hashmap_mark r.modules (hashmap_mark r.globals m))))))

abbrev pub object_at : List Object → ℕ → Object
object_at heap a = get_or heap a obj_string

-- The loop of `jml_gc_trace_refs`; `none` if the fuel runs out.
unfoldable pub gc_trace_refs : ℕ → List Object → Marking → Option Marking
gc_trace_refs zero heap m = none
gc_trace_refs (suc fuel) heap m = elim m.gray [
  | [] ↦ some m
  | a ∷ rest ↦
      gc_trace_refs fuel heap (gc_blacken_obj (object_at heap a) (record m { gray = rest }))
]
