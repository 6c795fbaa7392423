-- ===== src/Compiler/Upvalue.antt =====
-- src/jml_compiler.c: `jml_upvalue_add` and `jml_upvalue_resolve`.
use jml.Base.{
  ℕ, ◌+◌, ◌%◌, ◌^◌, Bool, true, false, ◌&&◌, List, [], ◌∷◌, ◌++◌, Option, some, none, length, ◌==◌,
  if◌then◌else◌,
}
use jml.Compiler.Emit.{Parser, parser_error}
use jml.Compiler.Scope.{Local, Capture, Compiler, local_max, local_resolve}

abbrev pub capture : ℕ → Bool → Capture
capture index local = record { index = index; local = local }

abbrev pub same_bool : Bool → Bool → Bool
same_bool true b = b
same_bool false true = false
same_bool false false = true

abbrev pub is_capture : Capture → ℕ → Bool → Bool
is_capture u index local = u.index == index && same_bool u.local local

-- The loop of `jml_upvalue_add`, at the upvalue `i`.
unfoldable pub find_capture : List Capture → ℕ → ℕ → Bool → Option ℕ
find_capture [] i index local = none
find_capture (u ∷ us) i index local =
    if is_capture u index local then some i else find_capture us (i + 1) index local

abbrev pub add_capture : Option ℕ → Parser → Compiler → ℕ → Bool → Parser × ℕ × Compiler
add_capture (some i) p c index local = (p, i, c)
add_capture none p c index local =
    if length c.upvalues == local_max
    then (parser_error p, 0, c)
    else (p, length c.upvalues, record c { upvalues = c.upvalues ++ capture index local ∷ [] })

unfoldable pub upvalue_add : Parser → Compiler → ℕ → Bool → Parser × ℕ × Compiler
unfolding find_capture parser_error
upvalue_add p c index local = add_capture (find_capture c.upvalues 0 index local) p c index local

-- `locals[i].captured = true`
unfoldable pub mark_captured : List Local → ℕ → List Local
mark_captured [] i = []
mark_captured (l ∷ ls) i =
    let rest = mark_captured ls i in
    if length ls == i then record l { captured = true } ∷ ls else l ∷ rest

-- What `jml_upvalue_resolve` makes of the compilers that enclose one another, the innermost first: the function
-- that reads the name, and those around it.
pub record Resolved : Type 0 where
  pub parser : Parser
  pub upvalue : Option ℕ
  pub compiler : Compiler
  pub enclosing : List Compiler

abbrev pub add_local : Parser → Compiler → Compiler → List Compiler → ℕ → Resolved
add_local p c enc outer i =
    let (p', u, c') = upvalue_add p c (i % 2 ^ 8) true in
    record {
      parser = p';
      upvalue = some u;
      compiler = c';
      enclosing = record enc { locals = mark_captured enc.locals i } ∷ outer;
    }

abbrev pub add_upvalue : Compiler → Resolved → Resolved
add_upvalue c r = elim r.upvalue [
  | none ↦ record {
    parser = r.parser;
    upvalue = none;
    compiler = c;
    enclosing = r.compiler ∷ r.enclosing;
  }
  | some u ↦
      let (p', v, c') = upvalue_add r.parser c (u % 2 ^ 8) false in
      record { parser = p'; upvalue = some v; compiler = c'; enclosing = r.compiler ∷ r.enclosing }
]

unfoldable pub upvalue_resolve : Parser → Compiler → List Compiler → List ℕ → Resolved
unfolding local_resolve upvalue_add mark_captured
upvalue_resolve p c [] name = record { parser = p; upvalue = none; compiler = c; enclosing = [] }
upvalue_resolve p c (enc ∷ outer) name =
    let found = local_resolve p enc.locals name in
    let through = add_upvalue c (upvalue_resolve found.0 enc outer name) in
    elim found.1 [ some i ↦ add_local found.0 c enc outer i | none ↦ through ]
