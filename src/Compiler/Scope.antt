-- ===== src/Compiler/Scope.antt =====
-- src/jml_compiler.c: scopes, local variables and declarations.
use jml.Base.{
  ℕ, ◌+◌, ◌-◌, Bool, true, false, ◌&&◌, List, [], ◌∷◌, Option, some, none, length, ltb, ◌==◌,
  if◌then◌else◌,
}
use jml.Bytecode.Array.{Chunk}
use jml.Lexer.Identifier.{mem_eq}
use jml.Compiler.Emit.{
  Parser, parser_error, error_if, emit_byte, emit_extended_op2, pop_byte, close_upvalue_byte,
}

-- `depth` is `none` for -1.
pub record Local : Type 0 where
  pub name : List ℕ
  pub depth : Option ℕ
  pub captured : Bool

-- `jml_upvalue_t`
pub record Capture : Type 0 where
  pub index : ℕ
  pub local : Bool

-- What the functions below use of `jml_compiler_t`. The locals stand from the last to the first, so that
-- `locals[i]` has `i` of them behind it.
pub record Compiler : Type 0 where
  pub chunk : Chunk
  pub locals : List Local
  pub scope_depth : ℕ
  pub upvalues : List Capture
  pub module_const : ℕ

abbrev pub local_max : ℕ
local_max = 256

abbrev pub def_global_byte : ℕ
def_global_byte = 62

abbrev pub def_global_extended_byte : ℕ
def_global_extended_byte = 63

unfoldable pub identifier_equal : List ℕ → List ℕ → Bool
unfolding mem_eq
identifier_equal a b = length a == length b && mem_eq (length a) a b

-- `depth > scope_depth`
abbrev pub deeper : Option ℕ → ℕ → Bool
deeper none d = false
deeper (some k) d = ltb d k

abbrev pub is_unmarked : Option ℕ → Bool
is_unmarked none = true
is_unmarked (some k) = false

-- `depth != -1 && depth < scope_depth`
abbrev pub shallower : Option ℕ → ℕ → Bool
shallower none d = false
shallower (some k) d = ltb k d

unfoldable pub scope_begin : Compiler → Compiler
scope_begin c = record c { scope_depth = c.scope_depth + 1 }

abbrev pub drop_byte : Local → ℕ
drop_byte l = if l.captured then close_upvalue_byte else pop_byte

-- The loop of `jml_scope_end`.
unfoldable pub drop_locals : Parser → ℕ → List Local → Chunk → List Local × Chunk
unfolding emit_byte
drop_locals p depth [] b = ([], b)
drop_locals p depth (l ∷ ls) b =
    let rest = drop_locals p depth ls (emit_byte p b (drop_byte l)) in
    if deeper l.depth depth then rest else (l ∷ ls, b)

unfoldable pub scope_end : Parser → Compiler → Compiler
unfolding drop_locals
scope_end p c =
    let depth = c.scope_depth - 1 in
    let (locals, chunk) = drop_locals p depth c.locals c.chunk in
    record c { scope_depth = depth; locals = locals; chunk = chunk }

abbrev pub mark_first : ℕ → List Local → List Local
mark_first depth [] = []
mark_first depth (l ∷ ls) = record l { depth = some depth } ∷ ls

unfoldable pub local_mark : Compiler → Compiler
local_mark c = record c { locals = mark_first c.scope_depth c.locals }

abbrev pub new_local : List ℕ → Local
new_local name = record { name = name; depth = none; captured = false }

unfoldable pub local_add : Parser → Compiler → List ℕ → Parser × Compiler
unfolding parser_error
local_add p c name =
    if length c.locals == local_max
    then (parser_error p, c)
    else (p, record c { locals = new_local name ∷ c.locals })

-- `none` is -1.
unfoldable pub local_resolve : Parser → List Local → List ℕ → Parser × Option ℕ
unfolding identifier_equal parser_error
local_resolve p [] name = (p, none)
local_resolve p (l ∷ ls) name =
    if identifier_equal name l.name
    then (error_if (is_unmarked l.depth) p, some (length ls))
    else local_resolve p ls name

unfoldable pub local_add_synthetic : Parser → Compiler → List ℕ → Parser × Option ℕ × Compiler
unfolding local_add local_mark local_resolve
local_add_synthetic p c name =
    let (p', added) = local_add p c name in
    let marked = local_mark added in
    let (p'', index) = local_resolve p' marked.locals name in (p'', index, marked)

-- The loop of `jml_variable_declaration`.
unfoldable pub check_declared : Parser → ℕ → List Local → List ℕ → Parser
unfolding identifier_equal parser_error
check_declared p depth [] name = p
check_declared p depth (l ∷ ls) name =
    let rest = check_declared (error_if (identifier_equal name l.name) p) depth ls name in
    if shallower l.depth depth then p else rest

unfoldable pub variable_declaration : Parser → Compiler → List ℕ → Parser × Compiler
unfolding check_declared local_add
variable_declaration p c name =
    if c.scope_depth == 0
    then (p, c)
    else local_add (check_declared p c.scope_depth c.locals name) c name

unfoldable pub variable_definition : Parser → Compiler → ℕ → Compiler
unfolding local_mark emit_extended_op2
variable_definition p c variable = if ltb 0 c.scope_depth then local_mark c else record c {
  chunk =
      emit_extended_op2 p c.chunk def_global_byte def_global_extended_byte c.module_const variable;
}
