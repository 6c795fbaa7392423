-- ===== src/Gc/Heap.antt =====
-- include/jml/jml_type.h: the objects, by the fields that the collector follows. An object's address is its index in
-- the heap; `none` is NULL.
use jml.Base.{ℕ, List, Option}
use jml.Value.{Value}
use jml.HashMap.Table.{Entry}

abbrev pub Ref : Type 0
Ref = Option ℕ

-- A map by its entries, an array by its values in use, a stack by its values below the top, the frames of a
-- coroutine by their closures, and its open upvalues by the list that they are linked in.
pub data Object : Type 0 where
  obj_string : Object
  obj_array : (values : List Value) → Object
  obj_map : (hashmap : List Entry) → Object
  obj_module : (name : Ref) (globals : List Entry) → Object
  obj_class : (name super_class : Ref) (statics : List Entry) → Object
  obj_instance : (klass : Ref) (fields : List Entry) → Object
  obj_method : (receiver : Value) (method : Ref) → Object
  obj_function : (name klass_name : Ref) (constants : List Value) → Object
  obj_closure : (function : Ref) (upvalues : List Ref) → Object
  obj_upvalue : (closed : Value) → Object
  obj_coroutine : (stack : List Value) (frames open_upvalues : List Ref) (caller : Ref) → Object
  obj_cfunction : (name klass_name : Ref) → Object
  obj_exception : (name message : Ref) → Object

-- What the virtual machine holds on to. `names` are its fields from `main_string` to `inherit_string`, `coroutines`
-- the running one, the current and the external module, and `compilers` what each compiler marks.
pub record Roots : Type 0 where
  pub globals : List Entry
  pub modules : List Entry
  pub builtins : List Entry
  pub names : List Ref
  pub coroutines : List Ref
  pub compilers : List (List Ref)
  pub exempt_stack : List Value
