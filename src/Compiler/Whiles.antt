-- ===== src/Compiler/Whiles.antt =====
-- src/jml_compiler.c against src/jml_vm.c: where the virtual machine goes in the code of `while`.

use jml.Base.{
  ℕ, ◌+◌, ◌-◌, ◌≤◌, ◌≡◌, sym, ap, ◌∙◌, Bool, List, [], ◌∷◌, ◌++◌, append_assoc, length,
  length-append, suc, refl, if◌then◌else◌, arith,
}
use jml.Value.{falsey}
use jml.Bytecode.Array.{Chunk}
use jml.Bytecode.Arrays.{opcodes_of}
use jml.Vm.Coroutine.{peek}
use jml.Vm.Run.{Doubles, Machine, goes, step}
use jml.Compiler.Emit.{short_max, pop_byte, loop_byte, jump_byte}
use jml.Compiler.Code.{IsCode, length-opcodes}
use jml.Compiler.Jumps.{short_bytes, with_operand}
use jml.Compiler.Logic.{jump_if_false_byte}
use jml.Compiler.Breaks.{
  Item, break_at, bytes_of, resolved, bytes_of-append, resolved-append, length-resolved,
}
use jml.Compiler.Steps.{jump_from, loop_from, before_loop, step_jump_behind, leaves_at}

-- The code of `while` behind its condition, which began at `start`: what the virtual machine does at the jump that
-- leaves the loop, at the one that goes back, and at each `break`.
pub record While (doubles : Doubles) (is_instance : ℕ → Bool) (moved : ℕ) (b : Chunk) (start : ℕ)
    (block : List Item) (b' : Chunk) : Type 0 where
  pub leaves :
      (m : Machine)
      → m.code ≡ opcodes_of b'
      → m.pc ≡ b.count
      → step doubles is_instance moved m
        ≡ goes (record m {
          pc = if falsey (peek m.vm 0) then b.count + 7 + length (bytes_of block) else b.count + 3;
        })
  pub returns :
      (m : Machine)
      → m.code ≡ opcodes_of b'
      → m.pc ≡ b.count + 4 + length (bytes_of block)
      → step doubles is_instance moved m ≡ goes (record m { pc = start })
  pub breaks :
      (before behind : List Item) (x y : ℕ)
      → block ≡ before ++ break_at x y ∷ behind
      → (m : Machine) → m.code ≡ opcodes_of b'
      → m.pc ≡ b.count + 4 + length (bytes_of before)
      → step doubles is_instance moved m ≡ goes (record m { pc = b'.count })
  pub opcodes :
      opcodes_of b'
      ≡ with_operand b jump_if_false_byte (4 + length (bytes_of block)) (
          pop_byte
          ∷ (resolved block 4
              ++ loop_byte
                ∷ (short_bytes (b.count + 7 + length (bytes_of block) - start) ++ pop_byte ∷ [])))
  pub last : b'.count ≡ b.count + 8 + length (bytes_of block)

-- The code of a `while` with its placeholders patched.
module _ (doubles : Doubles) (is_instance : ℕ → Bool) (moved : ℕ) (b : Chunk) (is : IsCode b)
    (start : ℕ) (block : List Item) (r : Chunk) where
  abbrev size : ℕ
  size = 4 + length (bytes_of block)

  abbrev back : ℕ
  back = b.count + 7 + length (bytes_of block) - start

  abbrev behind_block : List ℕ
  behind_block = loop_byte ∷ (short_bytes back ++ pop_byte ∷ [])

  pub code-While :
      start ≤ b.count
      → back ≤ short_max
      → r.count ≡ b.count + 8 + length (bytes_of block)
      → opcodes_of r
        ≡ with_operand b jump_if_false_byte size (pop_byte ∷ (resolved block 4 ++ behind_block))
      → While doubles is_instance moved b start block r
  code-While le short count opcodes =
      let before = before_loop b size (resolved block 4) in
      let long : length before ≡ b.count + 4 + length (bytes_of block) = omega (
        arith,
        length-append (opcodes_of b)
            (jump_if_false_byte ∷ (short_bytes size ++ pop_byte ∷ resolved block 4)),
        length-opcodes b is,
        length-resolved block 4,
      ) in
      record {
        leaves = λ m code at.
            jump_from doubles is_instance moved b r size
              (pop_byte ∷ (resolved block 4 ++ behind_block)) is (omega arith) opcodes m code at
            ∙ ap (λ (k : ℕ). goes (record m { pc = k }))
                (leaves_at (falsey (peek m.vm 0)) m.pc b.count size (length (bytes_of block)) at
                  refl);
        returns = λ m code at.
            let to_start : m.pc + 3 - back ≡ start = omega arith in
            loop_from doubles is_instance moved before (pop_byte ∷ []) back short m
              (code
                ∙ opcodes
                ∙ sym (
                    append_assoc (opcodes_of b)
                      (jump_if_false_byte ∷ (short_bytes size ++ pop_byte ∷ resolved block 4))
                      behind_block))
              (at ∙ sym long)
            ∙ ap (λ (k : ℕ). goes (record m { pc = k })) to_start;
        breaks = λ first behind x y split m code at.
            let over = length (bytes_of behind) + 4 in
            let jump = jump_byte ∷ (short_bytes over ++ resolved behind 4) in
            let head = resolved first (length (bytes_of (break_at x y ∷ behind)) + 4) in
            let pre = before_loop b size head in
            let resolves : resolved block 4 ≡ head ++ jump =
              ap (λ l. resolved l 4) split ∙ resolved-append first (break_at x y ∷ behind) 4 in
            let whole : m.code
                ≡ pre ++ jump_byte ∷ (short_bytes over ++ (resolved behind 4 ++ behind_block)) =
              code
              ∙ opcodes
              ∙ ap (λ l. with_operand b jump_if_false_byte size (pop_byte ∷ (l ++ behind_block)))
                  resolves
              ∙ ap (λ l. with_operand b jump_if_false_byte size (pop_byte ∷ l))
                  (append_assoc head jump behind_block)
              ∙ sym (
                  append_assoc (opcodes_of b)
                    (jump_if_false_byte ∷ (short_bytes size ++ pop_byte ∷ head))
                    (jump ++ behind_block)) in
            let lengths : length (bytes_of block)
                ≡ length (bytes_of first) + suc (suc (suc (length (bytes_of behind)))) =
              ap (λ l. length (bytes_of l)) split
              ∙ ap length (bytes_of-append first (break_at x y ∷ behind))
              ∙ length-append (bytes_of first) (bytes_of (break_at x y ∷ behind)) in
            let place : m.pc ≡ length pre = omega (
              arith,
              at,
              length-append (opcodes_of b)
                  (jump_if_false_byte ∷ (short_bytes size ++ pop_byte ∷ head)),
              length-opcodes b is,
              length-resolved first (length (bytes_of (break_at x y ∷ behind)) + 4),
            ) in
            let lands : m.pc + 3 + over ≡ r.count = omega (arith, at, count, lengths) in
            step_jump_behind doubles is_instance moved pre (resolved behind 4 ++ behind_block) over
              (omega (arith, lengths)) m whole place
            ∙ ap (λ (k : ℕ). goes (record m { pc = k })) lands;
        opcodes = opcodes;
        last = count;
      }
