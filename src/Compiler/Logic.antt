-- ===== src/Compiler/Logic.antt =====
-- src/jml_compiler.c: what `jml_and` and `jml_if_statement` emit around the code of the expressions and blocks
-- that they parse.
use jml.Base.{ℕ}
use jml.Bytecode.Array.{Chunk}
use jml.Compiler.Emit.{Parser, emit_byte, emit_jump, patch_jump, pop_byte, jump_byte}

abbrev pub jump_if_false_byte : ℕ
jump_if_false_byte = 28

abbrev pub bool_byte : ℕ
bool_byte = 10

-- `jml_and` before the right operand, and `jml_if_statement` behind the condition: the jump to patch, and the
-- bytecode.
unfoldable pub jump_or_pop : Parser → Chunk → ℕ × Chunk
unfolding emit_jump emit_byte
jump_or_pop p b =
    let (jump, jumped) = emit_jump p b jump_if_false_byte in (jump, emit_byte p jumped pop_byte)

-- `jml_and` behind the right operand.
unfoldable pub and_end : Parser → Chunk → ℕ → Parser × Chunk
unfolding patch_jump emit_byte
and_end p b jump = let (p', patched) = patch_jump p b jump in (p', emit_byte p' patched bool_byte)

-- `jml_if_statement` behind the first block: the jump to patch, and the bytecode.
unfoldable pub if_else : Parser → Chunk → ℕ → ℕ × Parser × Chunk
unfolding emit_jump patch_jump emit_byte
if_else p b then_jump =
    let (else_jump, jumped) = emit_jump p b jump_byte in
    let (p', patched) = patch_jump p jumped then_jump in
    (else_jump, p', emit_byte p' patched pop_byte)
