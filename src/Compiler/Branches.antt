-- ===== src/Compiler/Branches.antt =====
-- src/jml_compiler.c against src/jml_vm.c: where the virtual machine goes in the code of `if`.
use mathlib.Core.Path.{subst}
use jml.Base.{
  ℕ, ◌+◌, ◌^◌, ◌≤◌, ◌<◌, ◌≡◌, sym, ap, ◌∙◌, Bool, List, [], ◌∷◌, ◌++◌, append_assoc, length,
  length-append, if◌then◌else◌, arith,
}
use jml.Value.{falsey}
use jml.Bytecode.Array.{Chunk}
use jml.Bytecode.Arrays.{opcodes_of}
use jml.Vm.Coroutine.{peek}
use jml.Vm.Run.{Doubles, Machine, goes, step}
use jml.Compiler.Emit.{Parser, short_max, emit_byte, emit_jump, patch_jump, pop_byte, jump_byte}
use jml.Compiler.Code.{IsCode, Emits, emit_byte-Emits, Emits-append, length-opcodes}
use jml.Compiler.Jumps.{
  patch_jump-Patched, short_bytes, with_operand, emit_jump-Emits, patch_jump-Lands,
}
use jml.Compiler.Logic.{jump_if_false_byte, jump_or_pop, if_else}
use jml.Compiler.Steps.{step_jump_behind, jump_or_pop-Emits, jump_from, no_error, leaves_at}

-- The code of `if` behind its condition: what the virtual machine does at the jump that leaves the first block out,
-- and at the one that leaves the second block out.
pub record Forks (doubles : Doubles) (is_instance : ℕ → Bool) (moved : ℕ) (b : Chunk)
    (body other : List ℕ) (b' : Chunk) : Type 0 where
  pub tests :
      (m : Machine)
      → m.code ≡ opcodes_of b'
      → m.pc ≡ b.count
      → step doubles is_instance moved m
        ≡ goes (record m {
          pc = if falsey (peek m.vm 0) then b.count + 7 + length body else b.count + 3;
        })
  pub skips :
      (m : Machine)
      → m.code ≡ opcodes_of b'
      → m.pc ≡ b.count + 4 + length body
      → step doubles is_instance moved m ≡ goes (record m { pc = b'.count })
  pub last : b'.count ≡ b.count + 8 + length body + length other

-- The code of the condition and the first block, up to its jump.
abbrev before_jump : Chunk → ℕ → List ℕ → List ℕ
before_jump b n body = opcodes_of b ++ jump_if_false_byte ∷ (short_bytes n ++ pop_byte ∷ body)

jump_in :
    (b : Chunk) (n : ℕ) (body more : List ℕ)
    → with_operand b jump_if_false_byte n ((pop_byte ∷ body) ++ jump_byte ∷ 255 ∷ 255 ∷ []) ++ more
      ≡ (before_jump b n body ++ jump_byte ∷ []) ++ 255 ∷ 255 ∷ more
jump_in b n body more =
    let opened = jump_if_false_byte ∷ (short_bytes n ++ pop_byte ∷ body) in
    ap (λ l. l ++ more) (sym (append_assoc (opcodes_of b) opened (jump_byte ∷ 255 ∷ 255 ∷ [])))
    ∙ append_assoc (before_jump b n body) (jump_byte ∷ 255 ∷ 255 ∷ []) more
    ∙ sym (append_assoc (before_jump b n body) (jump_byte ∷ []) (255 ∷ 255 ∷ more))

length-before_jump :
    (b : Chunk) (n : ℕ) (body : List ℕ)
    → IsCode b
    → length (before_jump b n body) ≡ b.count + 4 + length body
length-before_jump b n body is = omega (
  arith,
  length-append (opcodes_of b) (jump_if_false_byte ∷ (short_bytes n ++ pop_byte ∷ body)),
  length-opcodes b is,
)

module _ (doubles : Doubles) (is_instance : ℕ → Bool) (moved : ℕ) (p : Parser) (b : Chunk)
    (is : IsCode b) (room : b.count + 64 < 2 ^ 28) (line : p.line < 2 ^ 16) where
  -- In the code that `jml_if_statement` emits around a condition and two blocks the virtual machine goes from
  -- the condition to the `OP_POP` before the second block when it is false, and to the one before the first
  -- block when it is not; behind the first block it leaves the second one out. No error is reported for a
  -- first block of up to 65531 bytes and a second one of up to 65534. The code before the second block is
  -- shorter than 2^28 bytes and the lines are below 2^16.
  pub if_else-Forks :
      (p1 : Parser) (b1 : Chunk) (body : List ℕ) (p2 : Parser) (b2 : Chunk) (other : List ℕ)
      → p1.line < 2 ^ 16
      → Emits (jump_or_pop p b).1 body b1
      → b1.count + 64 < 2 ^ 28
      → length body + 4 ≤ short_max
      → Emits (if_else p1 b1 (jump_or_pop p b).0).2 other b2
      → length other + 1 ≤ short_max
      → ((if_else p1 b1 (jump_or_pop p b).0).1 ≡ p1)
        × ((patch_jump p2 b2 (if_else p1 b1 (jump_or_pop p b).0).0).0 ≡ p2)
        × Forks doubles is_instance moved b body other
            (patch_jump p2 b2 (if_else p1 b1 (jump_or_pop p b).0).0).1
  unfolding if_else jump_or_pop patch_jump
  if_else-Forks p1 b1 body p2 b2 other line1 then_body fits short then_other short' =
      let jump = (emit_jump p b jump_if_false_byte).0 in
      let all =
        Emits-append (emit_jump p b jump_if_false_byte).1 (jump_or_pop p b).1 b1 (pop_byte ∷ [])
          body (jump_or_pop-Emits p b is room line).0 then_body in
      let emitted =
        (emit_jump-Emits p b is (omega arith) line jump_if_false_byte (omega arith)).0 in
      let count1 : b1.count ≡ b.count + 4 + length body = omega (arith, all.count, emitted.count) in
      let (else_emits, else_at) =
        emit_jump-Emits p1 b1 all.code (omega arith) line1 jump_byte (omega arith) in
      let jumped = (emit_jump p1 b1 jump_byte).1 in
      let more = (pop_byte ∷ body) ++ jump_byte ∷ 255 ∷ 255 ∷ [] in
      let size : length more ≡ 4 + length body =
        omega (arith, length-append (pop_byte ∷ body) (jump_byte ∷ 255 ∷ 255 ∷ [])) in
      let lands =
        patch_jump-Lands p b is (omega arith) line jump_if_false_byte (omega arith) p1 jumped more (
          Emits-append (emit_jump p b jump_if_false_byte).1 b1 jumped (pop_byte ∷ body)
            (jump_byte ∷ 255 ∷ 255 ∷ []) all else_emits) in
      let p' = (patch_jump p1 jumped jump).0 in
      let first = (patch_jump p1 jumped jump).1 in
      let quiet : p' ≡ p1 = lands.reports ∙ no_error p1 more (omega (arith, size)) in
      let mid = emit_byte p' first pop_byte in
      let popped : Emits first (pop_byte ∷ []) mid =
        emit_byte-Emits p' first pop_byte lands.code (omega (arith, else_emits.count))
          (subst (λ (q : Parser). q.line < 2 ^ 16) (sym quiet) line1) (omega arith) in
      let behind = Emits-append first mid b2 (pop_byte ∷ []) other popped then_other in
      let n = length more in
      let pre = before_jump b n body in
      let old : opcodes_of b2 ≡ (pre ++ jump_byte ∷ []) ++ 255 ∷ 255 ∷ pop_byte ∷ other =
        behind.opcodes
        ∙ ap (λ l. l ++ pop_byte ∷ other) lands.opcodes
        ∙ jump_in b n body (pop_byte ∷ other) in
      let place = length-before_jump b n body is in
      let else_jump = (emit_jump p1 b1 jump_byte).0 in
      let done =
        patch_jump-Patched p2 b2 (pre ++ jump_byte ∷ []) (pop_byte ∷ other) 255 255 else_jump
          behind.code old
          (omega (arith, else_at, count1, place, length-append pre (jump_byte ∷ []))) in
      let rest = jump_byte ∷ (short_bytes (length (pop_byte ∷ other)) ++ pop_byte ∷ other) in
      let final = (patch_jump p2 b2 else_jump).1 in
      let opcodes : opcodes_of final ≡ pre ++ rest =
        done.opcodes
        ∙ append_assoc pre (jump_byte ∷ [])
            (short_bytes (length (pop_byte ∷ other)) ++ pop_byte ∷ other) in
      let last : final.count ≡ b.count + 8 + length body + length other =
        omega (arith, done.count, behind.count, else_emits.count, count1) in
      (
        quiet,
        done.reports ∙ no_error p2 (pop_byte ∷ other) (omega arith),
        record {
          tests = λ m code at.
              jump_from doubles is_instance moved b final n ((pop_byte ∷ body) ++ rest) is
                (omega (arith, size))
                (opcodes
                  ∙ append_assoc (opcodes_of b)
                      (jump_if_false_byte ∷ (short_bytes n ++ pop_byte ∷ body)) rest)
                m code at
              ∙ ap (λ (k : ℕ). goes (record m { pc = k }))
                  (leaves_at (falsey (peek m.vm 0)) m.pc b.count n (length body) at size);
          skips = λ m code at.
              step_jump_behind doubles is_instance moved pre (pop_byte ∷ other)
                (length (pop_byte ∷ other)) (omega arith) m (code ∙ opcodes) (at ∙ sym place)
              ∙ ap (λ (k : ℕ). goes (record m { pc = k })) (omega (arith, last, at));
          last = last;
        },
      )
