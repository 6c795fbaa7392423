-- ===== src/Compiler/Loop.antt =====
-- src/jml_compiler.c: loops, with their `break` and `skip`.
use jml.Base.{
  ℕ, zero, suc, ◌+◌, List, [], ◌∷◌, Option, some, none, set, ltb, ◌==◌, if◌then◌else◌, ◌>>=◌,
}
use jml.Value.{Value}
use jml.Bytecode.Array.{Chunk}
use jml.Bytecode.Offset.{code_at, instruction_offset}
use jml.Compiler.Emit.{
  Parser, parser_error, emit_byte, emit_jump, patch_jump, emit_loop, pop_byte, jump_byte,
}
use jml.Compiler.Logic.{jump_if_false_byte}

-- `UINT8_MAX >> 1`, the placeholder of a `break`.
abbrev pub break_byte : ℕ
break_byte = 127

-- `compiler->loop` and the loops around it are a list.
pub record Loop : Type 0 where
  pub start : ℕ
  pub body : ℕ
  pub exit : ℕ

abbrev pub loop_begin : List Loop → ℕ → ℕ → ℕ → List Loop
loop_begin loops start body exit = record { start = start; body = body; exit = exit } ∷ loops

-- What `jml_while_statement` has behind its condition: the jump to patch, the loops and the bytecode.
pub record Opened : Type 0 where
  pub exit : ℕ
  pub loops : List Loop
  pub chunk : Chunk

-- `jml_while_statement` from behind the condition to the block.
unfoldable pub while_begin : Parser → Chunk → ℕ → List Loop → Opened
unfolding emit_jump emit_byte
while_begin p b start loops =
    let (exit, jumped) = emit_jump p b jump_if_false_byte in
    record {
      exit = exit;
      loops = loop_begin loops start jumped.count exit;
      chunk = emit_byte p jumped pop_byte;
    }

unfoldable pub break_statement : Parser → Chunk → List Loop → Parser × Chunk
unfolding parser_error emit_jump
break_statement p b [] = (parser_error p, b)
break_statement p b (loop ∷ loops) = (p, (emit_jump p b break_byte).1)

unfoldable pub skip_statement : Parser → Chunk → List Loop → Parser × Chunk
unfolding parser_error emit_loop
skip_statement p b [] = (parser_error p, b)
skip_statement p b (loop ∷ loops) = emit_loop p b loop.start

-- `code[i] = value`
abbrev pub set_code : Chunk → ℕ → ℕ → Chunk
set_code b i value = record b { code = set b.code i value }

module _ (upvalue_count : Value → ℕ) where
  -- The loop of `jml_loop_end`, which looks at each instruction from `i` on. `none`: no fuel is left.
  unfoldable pub patch_breaks : ℕ → Parser → Chunk → ℕ → Option (Parser × Chunk)
  unfolding patch_jump instruction_offset
  patch_breaks zero p b i = none
  patch_breaks (suc n) p b i =
      let (p', patched) = patch_jump p (set_code b i jump_byte) (i + 1) in
      let behind_break = patch_breaks n p' patched (i + 3) in
      let size = instruction_offset upvalue_count b.code b.constants.values i in
      let behind = patch_breaks n p b (i + size) in
      if ltb i b.count
      then (if code_at b.code i == break_byte then behind_break else behind)
      else some (p, b)

  unfoldable pub loop_end : ℕ → Parser → Chunk → List Loop → Option (Parser × Chunk × List Loop)
  unfolding patch_breaks
  loop_end n p b [] = some (p, b, [])
  loop_end n p b (loop ∷ enclosing) =
      patch_breaks n p b loop.body >>= λ r. some (r.0, r.1, enclosing)

  -- `jml_while_statement` behind the block.
  unfoldable pub while_end :
      ℕ → Parser → Chunk → ℕ → ℕ → List Loop → Option (Parser × Chunk × List Loop)
  unfolding emit_loop patch_jump emit_byte loop_end
  while_end n p b start exit loops =
      let (p', looped) = emit_loop p b start in
      let (p'', patched) = patch_jump p' looped exit in
      loop_end n p'' (emit_byte p'' patched pop_byte) loops
