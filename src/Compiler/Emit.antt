-- ===== src/Compiler/Emit.antt =====
-- src/jml_compiler.c: the functions that emit bytecode.
use jml.Base.{ℕ, ◌+◌, ◌-◌, ◌/◌, ◌%◌, ◌^◌, Bool, true, ◌||◌, set, ltb, if◌then◌else◌}
use jml.Value.{Value}
use jml.Bytecode.Array.{Chunk, bytecode_write, bytecode_add_const}

-- What the compilers share of `jml_parser_t`: `previous.line`, `panicked` and `w_error`. The tokens are the
-- lexer's.
pub record Parser : Type 0 where
  pub line : ℕ
  pub panicked : Bool
  pub w_error : Bool

-- `jml_parser_error_at`, but for what it prints.
unfoldable pub parser_error : Parser → Parser
parser_error p = if p.panicked then p else record p { panicked = true; w_error = true }

abbrev pub byte_max : ℕ
byte_max = 255

abbrev pub short_max : ℕ
short_max = 65535

-- The opcodes that the emission names, as bytes.
abbrev pub nop_byte : ℕ
nop_byte = 0

abbrev pub pop_byte : ℕ
pop_byte = 1

abbrev pub const_byte : ℕ
const_byte = 5

abbrev pub const_extended_byte : ℕ
const_extended_byte = 6

abbrev pub jump_byte : ℕ
jump_byte = 27

abbrev pub loop_byte : ℕ
loop_byte = 29

abbrev pub close_upvalue_byte : ℕ
close_upvalue_byte = 57

unfoldable pub emit_byte : Parser → Chunk → ℕ → Chunk
emit_byte p b byte = bytecode_write b byte p.line

unfoldable pub emit_bytes : Parser → Chunk → ℕ → ℕ → Chunk
unfolding emit_byte
emit_bytes p b byte1 byte2 = emit_byte p (emit_byte p b byte1) byte2

-- `EMIT_SHORT`
unfoldable pub emit_short : Parser → Chunk → ℕ → Chunk
unfolding emit_bytes
emit_short p b s = emit_bytes p b (s / 2 ^ 8 % 2 ^ 8) (s % 2 ^ 8)

-- `EMIT_LONG`
unfoldable pub emit_long : Parser → Chunk → ℕ → Chunk
unfolding emit_bytes
emit_long p b l =
    emit_bytes p (emit_bytes p b (l / 2 ^ 24 % 2 ^ 8) (l / 2 ^ 16 % 2 ^ 8)) (l / 2 ^ 8 % 2 ^ 8)
      (l % 2 ^ 8)

-- `EMIT_EXTENDED_OP1`
unfoldable pub emit_extended_op1 : Parser → Chunk → ℕ → ℕ → ℕ → Chunk
unfolding emit_byte emit_bytes emit_short
emit_extended_op1 p b o1 o2 a1 =
    if ltb byte_max a1 then emit_short p (emit_byte p b o2) a1 else emit_bytes p b o1 a1

-- `EMIT_EXTENDED_OP2`
unfoldable pub emit_extended_op2 : Parser → Chunk → ℕ → ℕ → ℕ → ℕ → Chunk
unfolding emit_byte emit_bytes emit_short
emit_extended_op2 p b o1 o2 a1 a2 =
    if ltb byte_max a1 || ltb byte_max a2
    then emit_short p (emit_short p (emit_byte p b o2) a1) a2
    else emit_byte p (emit_bytes p b o1 a1) a2

-- `EMIT_EXTENDED_OP3`
unfoldable pub emit_extended_op3 : Parser → Chunk → ℕ → ℕ → ℕ → ℕ → ℕ → Chunk
unfolding emit_byte emit_bytes emit_short
emit_extended_op3 p b o1 o2 a1 a2 a3 =
    if ltb byte_max a1 || (ltb byte_max a2 || ltb byte_max a3)
    then emit_short p (emit_short p (emit_short p (emit_byte p b o2) a1) a2) a3
    else emit_bytes p (emit_bytes p b o1 a1) a2 a3

-- An error is reported if the test says so.
abbrev pub error_if : Bool → Parser → Parser
error_if test p = if test then parser_error p else p

-- `jml_bytecode_make_const`
unfoldable pub make_const : Parser → Chunk → Value → ℕ × Parser × Chunk
make_const p b value =
    let (constant, with_const) = bytecode_add_const b value in
    if ltb short_max constant then (0, parser_error p, with_const) else (constant, p, with_const)

unfoldable pub emit_const : Parser → Chunk → Value → Parser × Chunk
unfolding make_const emit_extended_op1
emit_const p b value =
    let (constant, p', with_const) = make_const p b value in
    (p', emit_extended_op1 p' with_const const_byte const_extended_byte constant)

unfoldable pub emit_loop : Parser → Chunk → ℕ → Parser × Chunk
unfolding emit_byte emit_short
emit_loop p b start =
    let opened = emit_byte p b loop_byte in
    let offset = opened.count - start + 2 in
    let p' = error_if (ltb short_max offset) p in (p', emit_short p' opened offset)

-- The offset of the operand, to be patched, and the bytecode.
unfoldable pub emit_jump : Parser → Chunk → ℕ → ℕ × Chunk
unfolding emit_byte emit_bytes
emit_jump p b instruction =
    let emitted = emit_bytes p (emit_byte p b instruction) 255 255 in (emitted.count - 2, emitted)

unfoldable pub patch_jump : Parser → Chunk → ℕ → Parser × Chunk
patch_jump p b offset =
    let jump = b.count - offset - 2 in
    (
      error_if (ltb short_max jump) p,
      record b {
        code = set (set b.code offset (jump / 2 ^ 8 % 2 ^ 8)) (offset + 1) (jump % 2 ^ 8);
      },
    )
