-- ===== src/Compiler/Around.antt =====
-- src/jml_compiler.c against src/jml_vm.c: the code that is emitted around the block of a `while`.
use mathlib.Core.Path.{subst}
use jml.Base.{
  ℕ, ◌+◌, ◌-◌, ◌^◌, ◌≤◌, ◌<◌, ◌≡◌, sym, ap, ◌∙◌, List, [], ◌∷◌, ◌++◌, append_assoc, length,
  length-append, some, refl, arith,
}
use jml.Value.{Value}
use jml.Bytecode.Array.{Chunk}
use jml.Bytecode.Arrays.{opcodes_of}
use jml.Bytecode.Opcode.{opcode_of}
use jml.Bytecode.Offset.{opcode_size}
use jml.Compiler.Emit.{
  Parser, short_max, emit_byte, emit_jump, patch_jump, emit_loop, pop_byte, loop_byte,
}
use jml.Compiler.Code.{IsCode, Emits, emit_byte-Emits, Emits-append, length-opcodes}
use jml.Compiler.Jumps.{
  short_bytes, with_operand, emit_jump-Emits, patch_jump-Lands, emit_loop-Returns,
}
use jml.Compiler.Logic.{jump_if_false_byte, jump_or_pop}
use jml.Compiler.Loop.{patch_breaks}
use jml.Compiler.Breaks.{
  Item, instruction, bytes_of, resolved, bytes_of-append, resolved-append, AreSized,
  AreSized-append, patch_breaks-PatchedBreaks,
}
use jml.Compiler.Steps.{jump_or_pop-Emits, no_error_of, no_error}

-- What is emitted around the block of a `while`, before its placeholders are patched.
pub record Around (b : Chunk) (start : ℕ) (body : List ℕ) (b' : Chunk) : Type 0 where
  pub code : IsCode b'
  pub count : b'.count ≡ b.count + 8 + length body
  pub opcodes :
      opcodes_of b'
      ≡ with_operand b jump_if_false_byte (4 + length body) (
          pop_byte
          ∷ (body
              ++ loop_byte ∷ (short_bytes (b.count + 7 + length body - start) ++ pop_byte ∷ [])))

module _ (p : Parser) (b : Chunk) (is : IsCode b) (room : b.count + 64 < 2 ^ 28)
    (line : p.line < 2 ^ 16) where
  pub opened :
      (b' : Chunk) (more : List ℕ)
      → Emits (jump_or_pop p b).1 more b'
      → Emits (emit_jump p b jump_if_false_byte).1 (pop_byte ∷ more) b'
  opened b' more then_more =
      Emits-append (emit_jump p b jump_if_false_byte).1 (jump_or_pop p b).1 b' (pop_byte ∷ []) more
        (jump_or_pop-Emits p b is room line).0 then_more

  pub emit_loop-Around :
      (p' : Parser) (b' : Chunk) (start : ℕ) (body : List ℕ)
      → p'.line < 2 ^ 16
      → start ≤ b.count
      → Emits (jump_or_pop p b).1 body b'
      → b'.count + 64 < 2 ^ 28
      → b'.count + 3 - start ≤ short_max
      → ((patch_jump (emit_loop p' b' start).0 (emit_loop p' b' start).1 (jump_or_pop p b).0).0
          ≡ p')
        × Around b start body (
            emit_byte
              (patch_jump (emit_loop p' b' start).0 (emit_loop p' b' start).1 (jump_or_pop p b).0).0
              (patch_jump (emit_loop p' b' start).0 (emit_loop p' b' start).1 (jump_or_pop p b).0).1
              pop_byte)
  unfolding jump_or_pop patch_jump
  emit_loop-Around p' b' start body line' le then_body fits short =
      let all = opened b' body then_body in
      let emitted =
        (emit_jump-Emits p b is (omega arith) line jump_if_false_byte (omega arith)).0 in
      let count : b'.count ≡ b.count + 4 + length body = omega (arith, all.count, emitted.count) in
      let back = b'.count + 3 - start in
      let loop = emit_loop-Returns p' b' start then_body.code (omega arith) line' (omega arith) in
      let looped = (emit_loop p' b' start).1 in
      let more = (pop_byte ∷ body) ++ loop_byte ∷ short_bytes back in
      let size : length more ≡ 4 + length body =
        omega (arith, length-append (pop_byte ∷ body) (loop_byte ∷ short_bytes back)) in
      let p1 = (emit_loop p' b' start).0 in
      let quiet1 : p1 ≡ p' = loop.reports ∙ no_error_of p' back short in
      let lands =
        patch_jump-Lands p b is (omega arith) line jump_if_false_byte (omega arith) p1 looped more (
          Emits-append (emit_jump p b jump_if_false_byte).1 b' looped (pop_byte ∷ body)
            (loop_byte ∷ short_bytes back) all loop.emits) in
      let patched = (patch_jump p1 looped (emit_jump p b jump_if_false_byte).0).1 in
      let p2 = (patch_jump p1 looped (emit_jump p b jump_if_false_byte).0).0 in
      let quiet2 : p2 ≡ p' = lands.reports ∙ no_error p1 more (omega (arith, size)) ∙ quiet1 in
      let end_of : looped.count ≡ b.count + 7 + length body = omega (arith, loop.emits.count) in
      let last =
        emit_byte-Emits p' patched pop_byte lands.code (omega (arith, end_of)) line'
          (omega arith) in
      let final = emit_byte p' patched pop_byte in
      let opcodes : opcodes_of final
          ≡ with_operand b jump_if_false_byte (length more) (more ++ pop_byte ∷ []) =
        last.opcodes
        ∙ ap (λ l. l ++ pop_byte ∷ []) lands.opcodes
        ∙ append_assoc (opcodes_of b) (jump_if_false_byte ∷ (short_bytes (length more) ++ more))
            (pop_byte ∷ []) in
      let same_back : back ≡ b.count + 7 + length body - start = omega (arith, count) in
      let whole : opcodes_of final
          ≡ with_operand b jump_if_false_byte (4 + length body) (
              pop_byte
              ∷ (body
                  ++ loop_byte
                    ∷ (short_bytes (b.count + 7 + length body - start) ++ pop_byte ∷ []))) =
        opcodes
        ∙ ap (with_operand b jump_if_false_byte (length more))
            (append_assoc (pop_byte ∷ body) (loop_byte ∷ short_bytes back) (pop_byte ∷ []))
        ∙ ap
            (λ n.
              with_operand b jump_if_false_byte n
                (pop_byte ∷ (body ++ loop_byte ∷ (short_bytes back ++ pop_byte ∷ []))))
            size
        ∙ ap
            (λ n.
              with_operand b jump_if_false_byte (4 + length body)
                (pop_byte ∷ (body ++ loop_byte ∷ (short_bytes n ++ pop_byte ∷ []))))
            same_back in
      (
        quiet2,
        subst (λ q. Around b start body (emit_byte q patched pop_byte)) (sym quiet2)
            (record {
              code = last.code;
              count = omega (arith, last.count, end_of);
              opcodes = whole;
            }),
      )

-- What is behind the block before the placeholders are patched, as items.
abbrev loop_items : ℕ → List Item
loop_items back = instruction loop_byte (short_bytes back) ∷ instruction pop_byte [] ∷ []

loop_items-AreSized :
    (upvalue_count : Value → ℕ) (back : ℕ) → AreSized upvalue_count (loop_items back)
unfolding opcode_size opcode_of
loop_items-AreSized u back = (refl, (λ code constants. refl), (refl, (λ code constants. refl), tt))

module _ (u : Value → ℕ) (b : Chunk) (is : IsCode b) (start : ℕ) (block : List Item) where
  abbrev size : ℕ
  size = 4 + length (bytes_of block)

  abbrev back : ℕ
  back = b.count + 7 + length (bytes_of block) - start

  abbrev region : List Item
  region = instruction pop_byte [] ∷ (block ++ loop_items back)

  abbrev before_block : List ℕ
  before_block = opcodes_of b ++ jump_if_false_byte ∷ short_bytes size

  -- `jml_loop_end` on what stands around the block.
  pub patch_breaks-Around :
      (n : ℕ) (p : Parser) (b' : Chunk)
      → AreSized u block
      → Around b start (bytes_of block) b'
      → length (bytes_of block) + 5 ≤ short_max
      → length (bytes_of block) + 5 < n
      → (r : Chunk) × (patch_breaks u n p b' (b.count + 3) ≡ some (p, r))
        × (r.count ≡ b'.count)
        × (opcodes_of r
            ≡ with_operand b jump_if_false_byte size
                (pop_byte ∷ (resolved block 4 ++ loop_byte ∷ (short_bytes back ++ pop_byte ∷ []))))
  unfolding opcode_size opcode_of
  patch_breaks-Around n p b' sized around short fuel =
      let bytes : bytes_of region
          ≡ pop_byte ∷ (bytes_of block ++ loop_byte ∷ (short_bytes back ++ pop_byte ∷ [])) =
        ap (◌∷◌ pop_byte) (bytes_of-append block (loop_items back)) in
      let long : length (bytes_of region) ≡ length (bytes_of block) + 5 = omega (
        arith,
        ap length bytes,
        length-append (bytes_of block) (loop_byte ∷ (short_bytes back ++ pop_byte ∷ [])),
      ) in
      let (r, run, done) =
        patch_breaks-PatchedBreaks u n p b' before_block region (b.count + 3) around.code
          (around.opcodes
            ∙ sym (
                append_assoc (opcodes_of b) (jump_if_false_byte ∷ short_bytes size)
                  (pop_byte ∷ (bytes_of block ++ loop_byte ∷ (short_bytes back ++ pop_byte ∷ []))))
            ∙ ap (λ l. before_block ++ l) (sym bytes))
          (omega (
            arith,
            length-append (opcodes_of b) (jump_if_false_byte ∷ short_bytes size),
            length-opcodes b is,
          ))
          (
            refl,
            (λ code constants. refl),
            AreSized-append u block (loop_items back) sized (loop_items-AreSized u back),
          )
          (omega (arith, long)) (omega (arith, long)) in
      (
        r,
        run,
        done.count,
        done.opcodes
            ∙ append_assoc (opcodes_of b) (jump_if_false_byte ∷ short_bytes size)
                (resolved region 0)
            ∙ ap (λ l. with_operand b jump_if_false_byte size (pop_byte ∷ l))
                (resolved-append block (loop_items back) 0),
      )
