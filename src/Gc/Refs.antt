-- ===== src/Gc/Refs.antt =====
-- src/jml_gc.c: what an object refers to, and that marking is marking one reference after the other.
use jml.Base.{ℕ, List, [], ◌∷◌, ◌++◌, none, some, ◌≡◌, refl, ap, ◌∙◌, sym}
use jml.Value.{Value, none_val, bool_val, num_val, obj_val}
use jml.HashMap.Table.{Entry}
use jml.Gc.Heap.{
  Ref, Object, obj_string, obj_array, obj_map, obj_module, obj_class, obj_instance, obj_method,
  obj_function, obj_closure, obj_upvalue, obj_coroutine, obj_cfunction, obj_exception, Roots,
}
use jml.Gc.Mark.{
  Marking, gc_mark_obj, gc_mark_value, gc_mark_array, hashmap_mark, mark_objs, gc_blacken_obj,
  mark_compilers, gc_mark_roots,
}

abbrev pub ref_of : Ref → List ℕ
ref_of none = []
ref_of (some a) = a ∷ []

abbrev pub value_refs : Value → List ℕ
value_refs (obj_val a) = a ∷ []
value_refs _ = []

abbrev pub array_refs : List Value → List ℕ
array_refs [] = []
array_refs (v ∷ vs) = value_refs v ++ array_refs vs

abbrev pub entry_refs : List Entry → List ℕ
entry_refs [] = []
entry_refs (e ∷ es) = ref_of e.key ++ (value_refs e.value ++ entry_refs es)

abbrev pub refs_of : List Ref → List ℕ
refs_of [] = []
refs_of (r ∷ rs) = ref_of r ++ refs_of rs

abbrev pub compiler_refs : List (List Ref) → List ℕ
compiler_refs [] = []
compiler_refs (c ∷ cs) = refs_of c ++ compiler_refs cs

-- The objects that an object refers to.
abbrev pub object_refs : Object → List ℕ
object_refs obj_string = []
object_refs (obj_array values) = array_refs values
object_refs (obj_map hashmap) = entry_refs hashmap
object_refs (obj_module name globals) = ref_of name ++ entry_refs globals
object_refs (obj_class name super_class statics) =
    ref_of name ++ (ref_of super_class ++ entry_refs statics)
object_refs (obj_instance klass fields) = ref_of klass ++ entry_refs fields
object_refs (obj_method receiver method) = value_refs receiver ++ ref_of method
object_refs (obj_function name klass_name constants) =
    ref_of name ++ (ref_of klass_name ++ array_refs constants)
object_refs (obj_closure function upvalues) = ref_of function ++ refs_of upvalues
object_refs (obj_upvalue closed) = value_refs closed
object_refs (obj_coroutine stack frames open_upvalues caller) =
    array_refs stack ++ (refs_of frames ++ (refs_of open_upvalues ++ ref_of caller))
object_refs (obj_cfunction name klass_name) = ref_of name ++ ref_of klass_name
object_refs (obj_exception name message) = ref_of name ++ ref_of message

abbrev pub root_refs : Roots → List ℕ
root_refs r =
    entry_refs r.globals
    ++ (entry_refs r.modules
        ++ (entry_refs r.builtins
            ++ (refs_of r.names
                ++ (refs_of r.coroutines
                    ++ (compiler_refs r.compilers ++ array_refs r.exempt_stack)))))

abbrev pub mark_all : List ℕ → Marking → Marking
mark_all [] m = m
mark_all (a ∷ xs) m = mark_all xs (gc_mark_obj (some a) m)

pub mark_all-append :
    (xs ys : List ℕ) (m : Marking) → mark_all (xs ++ ys) m ≡ mark_all ys (mark_all xs m)
mark_all-append [] ys m = refl
mark_all-append (a ∷ xs) ys m = mark_all-append xs ys (gc_mark_obj (some a) m)

obj_all : (r : Ref) (m : Marking) → gc_mark_obj r m ≡ mark_all (ref_of r) m
unfolding gc_mark_obj
obj_all none m = refl
obj_all (some a) m = refl

value_all : (v : Value) (m : Marking) → gc_mark_value v m ≡ mark_all (value_refs v) m
unfolding gc_mark_value
value_all none_val m = refl
value_all (bool_val b) m = refl
value_all (num_val n) m = refl
value_all (obj_val a) m = refl

-- Two markings one after the other.
both :
    {f g : Marking → Marking} (xs ys : List ℕ)
    → ((m : Marking) → f m ≡ mark_all xs m)
    → ((m : Marking) → g m ≡ mark_all ys m)
    → (m : Marking) → g (f m) ≡ mark_all (xs ++ ys) m
both {f} {g} xs ys ef eg m = ap g (ef m) ∙ eg (mark_all xs m) ∙ sym (mark_all-append xs ys m)

array_all : (vs : List Value) (m : Marking) → gc_mark_array vs m ≡ mark_all (array_refs vs) m
unfolding gc_mark_array
array_all [] m = refl
array_all (v ∷ vs) m = both (value_refs v) (array_refs vs) (value_all v) (array_all vs) m

entry_all : (es : List Entry) (m : Marking) → hashmap_mark es m ≡ mark_all (entry_refs es) m
unfolding hashmap_mark
entry_all [] m = refl
entry_all (e ∷ es) m =
    both {g = λ m. hashmap_mark es (gc_mark_value e.value m)} (ref_of e.key)
      (value_refs e.value ++ entry_refs es) (obj_all e.key)
      (both (value_refs e.value) (entry_refs es) (value_all e.value) (entry_all es)) m

objs_all : (rs : List Ref) (m : Marking) → mark_objs rs m ≡ mark_all (refs_of rs) m
unfolding mark_objs
objs_all [] m = refl
objs_all (r ∷ rs) m = both (ref_of r) (refs_of rs) (obj_all r) (objs_all rs) m

compilers_all :
    (cs : List (List Ref)) (m : Marking) → mark_compilers cs m ≡ mark_all (compiler_refs cs) m
unfolding mark_compilers
compilers_all [] m = refl
compilers_all (c ∷ cs) m = both (refs_of c) (compiler_refs cs) (objs_all c) (compilers_all cs) m

-- Blackening an object marks the objects that it refers to, one after the other.
pub gc_blacken_obj-refs :
    (o : Object) (m : Marking) → gc_blacken_obj o m ≡ mark_all (object_refs o) m
unfolding gc_blacken_obj
gc_blacken_obj-refs obj_string m = refl
gc_blacken_obj-refs (obj_array values) m = array_all values m
gc_blacken_obj-refs (obj_map hashmap) m = entry_all hashmap m
gc_blacken_obj-refs (obj_module name globals) m =
    both (ref_of name) (entry_refs globals) (obj_all name) (entry_all globals) m
gc_blacken_obj-refs (obj_class name super_class statics) m =
    both {g = λ m. hashmap_mark statics (gc_mark_obj super_class m)} (ref_of name)
      (ref_of super_class ++ entry_refs statics) (obj_all name)
      (both (ref_of super_class) (entry_refs statics) (obj_all super_class) (entry_all statics)) m
gc_blacken_obj-refs (obj_instance klass fields) m =
    both (ref_of klass) (entry_refs fields) (obj_all klass) (entry_all fields) m
gc_blacken_obj-refs (obj_method receiver method) m =
    both (value_refs receiver) (ref_of method) (value_all receiver) (obj_all method) m
gc_blacken_obj-refs (obj_function name klass_name constants) m =
    both {g = λ m. gc_mark_array constants (gc_mark_obj klass_name m)} (ref_of name)
      (ref_of klass_name ++ array_refs constants) (obj_all name)
      (both (ref_of klass_name) (array_refs constants) (obj_all klass_name) (array_all constants)) m
gc_blacken_obj-refs (obj_closure function upvalues) m =
    both (ref_of function) (refs_of upvalues) (obj_all function) (objs_all upvalues) m
gc_blacken_obj-refs (obj_upvalue closed) m = value_all closed m
gc_blacken_obj-refs (obj_coroutine stack frames open_upvalues caller) m =
    both {g = λ m. gc_mark_obj caller (mark_objs open_upvalues (mark_objs frames m))}
      (array_refs stack) (refs_of frames ++ (refs_of open_upvalues ++ ref_of caller))
      (array_all stack)
      (both {g = λ m. gc_mark_obj caller (mark_objs open_upvalues m)} (refs_of frames)
        (refs_of open_upvalues ++ ref_of caller) (objs_all frames)
        (both (refs_of open_upvalues) (ref_of caller) (objs_all open_upvalues) (obj_all caller)))
      m
gc_blacken_obj-refs (obj_cfunction name klass_name) m =
    both (ref_of name) (ref_of klass_name) (obj_all name) (obj_all klass_name) m
gc_blacken_obj-refs (obj_exception name message) m =
    both (ref_of name) (ref_of message) (obj_all name) (obj_all message) m

-- Marking the roots marks the objects that the virtual machine holds on to, one after the other.
pub gc_mark_roots-refs : (r : Roots) (m : Marking) → gc_mark_roots r m ≡ mark_all (root_refs r) m
unfolding gc_mark_roots
gc_mark_roots-refs r m =
    let f1 = λ (m : Marking). gc_mark_array r.exempt_stack m in
    let f2 = λ (m : Marking). f1 (mark_compilers r.compilers m) in
    let f3 = λ (m : Marking). f2 (mark_objs r.coroutines m) in
    let f4 = λ (m : Marking). f3 (mark_objs r.names m) in
    let f5 = λ (m : Marking). f4 (hashmap_mark r.builtins m) in
    let f6 = λ (m : Marking). f5 (hashmap_mark r.modules m) in
    let r1 = array_refs r.exempt_stack in
    let r2 = compiler_refs r.compilers ++ r1 in
    let r3 = refs_of r.coroutines ++ r2 in
    let r4 = refs_of r.names ++ r3 in
    let r5 = entry_refs r.builtins ++ r4 in
    let r6 = entry_refs r.modules ++ r5 in
    let e2 =
      both {g = f1} (compiler_refs r.compilers) r1 (compilers_all r.compilers)
        (array_all r.exempt_stack) in
    let e3 = both {g = f2} (refs_of r.coroutines) r2 (objs_all r.coroutines) e2 in
    let e4 = both {g = f3} (refs_of r.names) r3 (objs_all r.names) e3 in
    let e5 = both {g = f4} (entry_refs r.builtins) r4 (entry_all r.builtins) e4 in
    let e6 = both {g = f5} (entry_refs r.modules) r5 (entry_all r.modules) e5 in
    both {g = f6} (entry_refs r.globals) r6 (entry_all r.globals) e6 m
