-- ===== src/Compiler/Tests.antt =====
-- src/jml_compiler.c: a bytecode that grows from nothing, and three functions inside one another.
use jml.Base.{
  Option, none, ℕ, ◌+◌, ◌-◌, ◌*◌, ◌/◌, ◌^◌, ◌≤◌, ◌<◌, ◌≡◌, refl, true, false, List, [], ◌∷◌, some,
  ltb, leb, ◌==◌, arith, codes,
}
use jml.Value.{num_val}
use jml.HashMap.Table.{grow_capacity}
use jml.Bytecode.Array.{bytecode_write, Chunk}
use jml.Lexer.Identifier.{mem_eq}
use jml.Vm.Run.{Doubles}
use jml.Compiler.Emit.{
  emit_loop, emit_short, emit_bytes, Parser, parser_error, emit_byte, emit_extended_op1,
  emit_extended_op2, emit_extended_op3, emit_const, emit_jump, patch_jump, pop_byte,
}
use jml.Compiler.Code.{IsCode, Emits, emit_byte-Emits}
use jml.Compiler.Jumps.{Lands, patch_jump-Lands, emit_jump-Emits}
use jml.Compiler.Operands.{Encodes, emit_extended-Encodes, Constant, emit_const-Constant}
use jml.Compiler.Scope.{
  Local, Compiler, scope_end, local_resolve, identifier_equal, variable_declaration,
}
use jml.Compiler.Scopes.{Drops, scope_end-Drops}
use jml.Compiler.Locals.{Declares, variable_declaration-Declares}
use jml.Compiler.Upvalue.{upvalue_resolve}
use jml.Compiler.Captures.{Resolution, upvalue_resolve-Resolution}
use jml.Compiler.Logic.{if_else, jump_or_pop, and_end, jump_if_false_byte}
use jml.Compiler.Steps.{jump_or_pop-Emits}
use jml.Compiler.Branches.{Forks, if_else-Forks}
use jml.Compiler.Loop.{
  Opened, Loop, while_begin, while_end, break_statement, loop_end, patch_breaks,
}
use jml.Compiler.Breaks.{break_at, bytes_of, break_statement-Emits}
use jml.Compiler.Whiles.{While}
use jml.Compiler.Flow.{And, and_end-And, while_end-While}
use jml.Bytecode.Opcode.{opcode_of}
use jml.Bytecode.Arrays.{opcodes_of}
use jml.Bytecode.Offset.{opcode_size, instruction_offset}

abbrev parser : Parser
parser = record { line = 3; panicked = false; w_error = false }

abbrev empty : Chunk
empty = record {
  count = 0;
  capacity = 0;
  code = [];
  lines = [];
  constants = record { capacity = 0; count = 0; values = [] };
}

empty-IsCode : IsCode empty
empty-IsCode = record {
  chunk = record {
    inside = omega arith;
    code_cells = refl;
    line_cells = refl;
    constants = record { inside = omega arith; cells = refl };
  };
  tight = omega arith;
}

abbrev naturals : Doubles
naturals = record {
  add = λ a b. a + b;
  sub = λ a b. a - b;
  mul = λ a b. a * b;
  pow = λ a b. a ^ b;
  div = λ a b. a / b;
  to_u64 = λ a. a;
  of_u64 = λ a. a;
  neg = λ a. a;
  gt = λ a b. ltb b a;
  ge = λ a b. leb b a;
  lt = ltb;
  le = leb;
  is_zero = λ a. a == 0;
}

-- The byte of `OP_NONE`.
abbrev none_byte : ℕ
none_byte = 7

jumped :
    Emits empty (jump_if_false_byte ∷ 255 ∷ 255 ∷ []) (emit_jump parser empty jump_if_false_byte).1
jumped =
    (emit_jump-Emits parser empty empty-IsCode (omega arith) (omega arith) jump_if_false_byte
      (omega arith)).0

one_more :
    Emits
      (emit_jump parser empty jump_if_false_byte).1
      (none_byte ∷ [])
      (emit_byte parser (emit_jump parser empty jump_if_false_byte).1 none_byte)
one_more =
    emit_byte-Emits parser _ none_byte jumped.code (omega (arith, jumped.count)) (omega arith)
      (omega arith)

patch_jump-Lands_example :
    Lands parser empty jump_if_false_byte
      (emit_jump parser empty jump_if_false_byte).0
      (none_byte ∷ [])
      (patch_jump parser
        (emit_byte parser (emit_jump parser empty jump_if_false_byte).1 none_byte)
        (emit_jump parser empty jump_if_false_byte).0)
patch_jump-Lands_example =
    patch_jump-Lands parser empty empty-IsCode (omega arith) (omega arith) jump_if_false_byte
      (omega arith) parser _ (none_byte ∷ []) one_more

popped :
    Emits (emit_jump parser empty jump_if_false_byte).1 (pop_byte ∷ []) (jump_or_pop parser empty).1
popped = (jump_or_pop-Emits parser empty empty-IsCode (omega arith) (omega arith)).0

with_none :
    Emits
      (jump_or_pop parser empty).1
      (none_byte ∷ [])
      (emit_byte parser (jump_or_pop parser empty).1 none_byte)
with_none =
    emit_byte-Emits parser _ none_byte popped.code (omega (arith, jumped.count, popped.count))
      (omega arith) (omega arith)

and_end-And_example :
    ((and_end parser
        (emit_byte parser (jump_or_pop parser empty).1 none_byte)
        (jump_or_pop parser empty).0).0
      ≡ parser)
    × And naturals
        (λ a. false)
        5000
        empty
        (none_byte ∷ [])
        (and_end parser
          (emit_byte parser (jump_or_pop parser empty).1 none_byte)
          (jump_or_pop parser empty).0).1
and_end-And_example =
    and_end-And naturals (λ a. false) 5000 parser empty empty-IsCode (omega arith) (omega arith)
      parser (emit_byte parser (jump_or_pop parser empty).1 none_byte) (none_byte ∷ [])
      (omega arith) with_none (omega (arith, with_none.count, jumped.count, popped.count))
      (omega arith)

abbrev code_of : Option (Parser × Chunk × List Loop) → Option (List ℕ)
code_of none = none
code_of (some r) = some (opcodes_of r.1)

-- A loop whose block is a `break`.
abbrev begun : Opened
begun = while_begin parser empty 0 []

begun-Emits : Emits (emit_jump parser empty jump_if_false_byte).1 (pop_byte ∷ []) begun.chunk
unfolding while_begin
begun-Emits =
    emit_byte-Emits parser _ pop_byte jumped.code (omega (arith, jumped.count)) (omega arith)
      (omega arith)

abbrev broken : Chunk
broken = (break_statement parser begun.chunk begun.loops).1

a_break : Emits begun.chunk (bytes_of (break_at 255 255 ∷ [])) broken
unfolding while_begin
a_break =
    break_statement-Emits parser begun.chunk _ [] begun-Emits.code
      (omega (arith, jumped.count, begun-Emits.count)) (omega arith)

while_end-While_example :
    (r : Chunk) × (while_end (λ v. 0) 20 parser broken 0 begun.exit begun.loops
      ≡ some (parser, r, []))
    × While naturals (λ a. false) 5000 empty 0 (break_at 255 255 ∷ []) r
while_end-While_example =
    while_end-While naturals (λ a. false) 5000 (λ v. 0) parser empty empty-IsCode (omega arith)
      (omega arith) 20 parser broken 0 [] (break_at 255 255 ∷ []) (omega arith) (omega arith) tt
      a_break (omega (arith, a_break.count, begun-Emits.count, jumped.count))
      (omega (arith, a_break.count, begun-Emits.count, jumped.count)) (omega arith)

-- The code of that loop: `break` jumps to its end.
runs_loop :
    code_of (while_end (λ v. 0) 20 parser broken 0 begun.exit begun.loops)
    ≡ some (28 ∷ 0 ∷ 7 ∷ 1 ∷ 27 ∷ 0 ∷ 4 ∷ 29 ∷ 0 ∷ 10 ∷ 1 ∷ [])
unfolding while_end while_begin break_statement loop_end patch_breaks instruction_offset opcode_size
    opcode_of emit_loop emit_jump patch_jump emit_byte emit_bytes emit_short bytecode_write
    grow_capacity
runs_loop = refl

emit_extended-Encodes_example :
    Encodes empty 78 (300 ∷ []) (emit_extended_op1 parser empty 77 78 300)
    × Encodes empty 78 (300 ∷ 2 ∷ []) (emit_extended_op2 parser empty 77 78 300 2)
    × Encodes empty 78 (300 ∷ 2 ∷ 7 ∷ []) (emit_extended_op3 parser empty 77 78 300 2 7)
emit_extended-Encodes_example =
    emit_extended-Encodes parser empty 77 78 empty-IsCode (omega arith) (omega arith) (omega arith)
      (omega arith) (λ e. absurd (omega arith)) 300 2 7 (omega arith) (omega arith) (omega arith)

emit_const-Constant_example :
    (0 ≤ 65535
      → Constant empty (num_val 4) (emit_const parser empty (num_val 4)).1
        × ((emit_const parser empty (num_val 4)).0 ≡ parser))
    × (65535 < 0 → (emit_const parser empty (num_val 4)).0 ≡ parser_error parser)
emit_const-Constant_example =
    emit_const-Constant parser empty (num_val 4) empty-IsCode (omega arith) (omega arith)

-- `a` of the function, and `b` and `a` of a block in it, of which `b` is captured.
abbrev locals : List Local
locals =
    record { name = codes "a"; depth = some 2; captured = false }
    ∷ record { name = codes "b"; depth = some 2; captured = true }
    ∷ record { name = codes "a"; depth = some 1; captured = false }
    ∷ record { name = []; depth = some 0; captured = false }
    ∷ []

abbrev compiler : Compiler
compiler = record {
  chunk = empty;
  locals = locals;
  scope_depth = 2;
  upvalues = [];
  module_const = 0;
}

scope_end-Drops_example :
    Drops 1 locals empty ((scope_end parser compiler).locals, (scope_end parser compiler).chunk)
    × ((scope_end parser compiler).scope_depth ≡ 1)
scope_end-Drops_example = scope_end-Drops parser compiler empty-IsCode (omega arith) (omega arith) (
  2,
  refl,
  omega arith,
  (2, refl, omega arith, (1, refl, omega arith, (0, refl, omega arith, tt))),
)

-- The `a` of the block hides that of the function.
resolves_last : local_resolve parser locals (codes "a") ≡ (parser, some 3)
unfolding local_resolve identifier_equal mem_eq
resolves_last = refl

variable_declaration-Declares_example :
    Declares parser compiler (codes "b") (variable_declaration parser compiler (codes "b"))
variable_declaration-Declares_example =
    variable_declaration-Declares parser compiler (codes "b") (omega arith)

abbrev inner : Compiler
inner = record compiler { locals = []; scope_depth = 1 }

-- `b` is read two functions further in.
upvalue_resolve-Resolution_example :
    Resolution inner
      (inner ∷ compiler ∷ [])
      (codes "b")
      (upvalue_resolve parser inner (inner ∷ compiler ∷ []) (codes "b"))
upvalue_resolve-Resolution_example =
    upvalue_resolve-Resolution parser inner (inner ∷ compiler ∷ []) (codes "b") (omega arith)

-- The code of a condition and of two blocks of one byte.
abbrev first_block : Chunk
first_block = emit_byte parser (jump_or_pop parser empty).1 none_byte

abbrev at_else : ℕ × Parser × Chunk
at_else = if_else parser first_block (jump_or_pop parser empty).0

at_else-IsCode : IsCode at_else.2 × (at_else.2.count ≡ 9)
unfolding if_else jump_or_pop emit_jump patch_jump emit_byte emit_bytes bytecode_write grow_capacity
at_else-IsCode = (
  record {
    chunk = record {
      inside = omega arith;
      code_cells = refl;
      line_cells = refl;
      constants = record { inside = omega arith; cells = refl };
    };
    tight = omega arith;
  },
  refl,
)

second_block : Emits at_else.2 (none_byte ∷ []) (emit_byte parser at_else.2 none_byte)
second_block =
    emit_byte-Emits parser at_else.2 none_byte at_else-IsCode.0 (omega (arith, at_else-IsCode.1))
      (omega arith) (omega arith)

if_else-Forks_example :
    (at_else.1 ≡ parser)
    × ((patch_jump parser (emit_byte parser at_else.2 none_byte) at_else.0).0 ≡ parser)
    × Forks naturals
        (λ a. false)
        5000
        empty
        (none_byte ∷ [])
        (none_byte ∷ [])
        (patch_jump parser (emit_byte parser at_else.2 none_byte) at_else.0).1
if_else-Forks_example =
    if_else-Forks naturals (λ a. false) 5000 parser empty empty-IsCode (omega arith) (omega arith)
      parser first_block (none_byte ∷ []) parser (emit_byte parser at_else.2 none_byte)
      (none_byte ∷ []) (omega arith) with_none
      (omega (arith, jumped.count, popped.count, with_none.count)) (omega arith) second_block
      (omega arith)
