-- ===== src/Compiler/Flow.antt =====
-- src/jml_compiler.c against src/jml_vm.c: where the virtual machine goes in the code of `and` and of `while`.
use mathlib.Core.Path.{subst}
use jml.Base.{
  ℕ, ◌+◌, ◌-◌, ◌^◌, ◌≤◌, ◌<◌, ◌≡◌, sym, ap, ◌∙◌, Bool, List, [], ◌∷◌, ◌++◌, append_assoc, length,
  some, bind_runs, refl, if◌then◌else◌, arith,
}
use jml.Value.{Value, falsey}
use jml.Bytecode.Array.{Chunk}
use jml.Bytecode.Arrays.{opcodes_of}
use jml.Vm.Coroutine.{peek}
use jml.Vm.Run.{Doubles, Machine, goes, step}
use jml.Compiler.Emit.{Parser, short_max, emit_byte, emit_jump, patch_jump, emit_loop, pop_byte}
use jml.Compiler.Code.{IsCode, Emits, emit_byte-Emits}
use jml.Compiler.Jumps.{short_bytes, with_operand, emit_jump-Emits, patch_jump-Lands}
use jml.Compiler.Logic.{jump_if_false_byte, bool_byte, jump_or_pop, and_end}
use jml.Compiler.Loop.{Loop, while_begin, while_end, loop_end, patch_breaks}
use jml.Compiler.Breaks.{Item, bytes_of, AreSized}
use jml.Compiler.Whiles.{While, code-While}
use jml.Compiler.Around.{opened, emit_loop-Around, patch_breaks-Around}
use jml.Compiler.Steps.{jump_from, ends_at, no_error}

-- The code of `and` behind its left operand: what the virtual machine does at the jump, and what is at the two
-- places to which it goes.
pub record And (doubles : Doubles) (is_instance : ℕ → Bool) (moved : ℕ) (b : Chunk) (right : List ℕ)
    (b' : Chunk) : Type 0 where
  pub steps :
      (m : Machine)
      → m.code ≡ opcodes_of b'
      → m.pc ≡ b.count
      → step doubles is_instance moved m
        ≡ goes (record m {
          pc = if falsey (peek m.vm 0) then b.count + 4 + length right else b.count + 3;
        })
  pub opcodes :
      opcodes_of b'
      ≡ with_operand b jump_if_false_byte
          (length (pop_byte ∷ right))
          (pop_byte ∷ (right ++ bool_byte ∷ []))
  pub last : b'.count ≡ b.count + 5 + length right

module _ (doubles : Doubles) (is_instance : ℕ → Bool) (moved : ℕ) (p : Parser) (b : Chunk)
    (is : IsCode b) (room : b.count + 64 < 2 ^ 28) (line : p.line < 2 ^ 16) where
  -- In the code that `jml_and` emits the virtual machine goes from the jump to `OP_BOOL` behind the right
  -- operand when the left one is false, and to the `OP_POP` before it when not, for an operand of up to 65534
  -- bytes; no error is reported. The code is shorter than 2^28 bytes and the lines are below 2^16.
  pub and_end-And :
      (p' : Parser) (b' : Chunk) (right : List ℕ)
      → p'.line < 2 ^ 16
      → Emits (jump_or_pop p b).1 right b'
      → b'.count < 2 ^ 28
      → length right + 1 ≤ short_max
      → ((and_end p' b' (jump_or_pop p b).0).0 ≡ p')
        × And doubles is_instance moved b right (and_end p' b' (jump_or_pop p b).0).1
  unfolding and_end jump_or_pop
  and_end-And p' b' right line' then_right fits short =
      let all = opened p b is room line b' right then_right in
      let lands =
        patch_jump-Lands p b is (omega arith) line jump_if_false_byte (omega arith) p' b'
          (pop_byte ∷ right) all in
      let jump = (emit_jump p b jump_if_false_byte).0 in
      let patched = (patch_jump p' b' jump).1 in
      let quiet : (patch_jump p' b' jump).0 ≡ p' =
        lands.reports ∙ no_error p' (pop_byte ∷ right) (omega arith) in
      let last = emit_byte-Emits p' patched bool_byte lands.code fits line' (omega arith) in
      let opcodes =
        last.opcodes
        ∙ ap (λ l. l ++ bool_byte ∷ []) lands.opcodes
        ∙ append_assoc (opcodes_of b)
            (jump_if_false_byte ∷ (short_bytes (length (pop_byte ∷ right)) ++ pop_byte ∷ right))
            (bool_byte ∷ []) in
      let emitted =
        (emit_jump-Emits p b is (omega arith) line jump_if_false_byte (omega arith)).0 in
      let count : b'.count ≡ b.count + 4 + length right = omega (arith, all.count, emitted.count) in
      (
        quiet,
        subst (λ q. And doubles is_instance moved b right (emit_byte q patched bool_byte))
            (sym quiet)
            (record {
              steps = λ m code at.
                  jump_from doubles is_instance moved b (emit_byte p' patched bool_byte)
                    (length (pop_byte ∷ right)) (pop_byte ∷ (right ++ bool_byte ∷ [])) is
                    (omega arith) opcodes m code at
                  ∙ ap (λ (k : ℕ). goes (record m { pc = k }))
                      (ends_at (falsey (peek m.vm 0)) m.pc b.count (length right) at);
              opcodes = opcodes;
              last = omega (arith, last.count, count);
            }),
      )

module _ (doubles : Doubles) (is_instance : ℕ → Bool) (moved : ℕ) (upvalue_count : Value → ℕ)
    (p : Parser) (b : Chunk) (is : IsCode b) (room : b.count + 64 < 2 ^ 28)
    (line : p.line < 2 ^ 16) where
  -- In the code that `jml_while_statement` leaves around a condition and a block, `jml_loop_end` included, the
  -- virtual machine leaves the loop for the `OP_POP` behind it when the condition is false, goes into the
  -- block when it is not, goes back to the condition behind the block, and goes from each break in the block
  -- to the end of the code; the other bytes of the block stay, no error is reported, and the loop around is
  -- the current one again. The block is made of breaks and of instructions that are as long as
  -- `jml_bytecode_instruction_offset` says whatever the code, so it has no closure; condition and block have
  -- up to 65528 bytes together. The fuel is more than the bytes of the block and five, the code is shorter
  -- than 2^28 bytes and the lines are below 2^16.
  pub while_end-While :
      (n : ℕ) (p' : Parser) (b' : Chunk) (start : ℕ) (loops : List Loop) (block : List Item)
      → p'.line < 2 ^ 16
      → start ≤ b.count
      → AreSized upvalue_count block
      → Emits (while_begin p b start loops).chunk (bytes_of block) b'
      → b'.count + 64 < 2 ^ 28
      → b'.count + 3 - start ≤ short_max
      → length (bytes_of block) + 5 < n
      → (r : Chunk) × (while_end upvalue_count n p' b' start
            (while_begin p b start loops).exit
            (while_begin p b start loops).loops
          ≡ some (p', r, loops))
        × While doubles is_instance moved b start block r
  unfolding while_end while_begin loop_end jump_or_pop
  while_end-While n p' b' start loops block line' le sized then_block fits short fuel =
      let emitted =
        (emit_jump-Emits p b is (omega arith) line jump_if_false_byte (omega arith)).0 in
      let all = opened p b is room line b' (bytes_of block) then_block in
      let count : b'.count ≡ b.count + 4 + length (bytes_of block) =
        omega (arith, all.count, emitted.count) in
      let (quiet, around) =
        emit_loop-Around p b is room line p' b' start (bytes_of block) line' le then_block fits
          short in
      let (r, run, same, opcodes) =
        patch_breaks-Around upvalue_count b is start block n p' _ sized around (omega arith) fuel in
      let jumped = (emit_jump p b jump_if_false_byte).1 in
      let (p1, looped) = emit_loop p' b' start in
      let (p2, patched) = patch_jump p1 looped (jump_or_pop p b).0 in
      let final = emit_byte p2 patched pop_byte in
      let place : jumped.count ≡ b.count + 3 = omega (arith, emitted.count) in
      (
        r,
        bind_runs _
            (ap (λ q. patch_breaks upvalue_count n q final jumped.count) quiet
              ∙ ap (patch_breaks upvalue_count n p' final) place
              ∙ run)
            refl,
        code-While doubles is_instance moved b is start block r le (omega (arith, count))
            (same ∙ around.count) opcodes,
      )
