-- ===== src/Compiler/Steps.antt =====
-- src/jml_compiler.c against src/jml_vm.c: the steps of the virtual machine through jumps and loops.
use mathlib.Core.Path.{subst}
use jml.Base.{
  ℕ, suc, ◌+◌, ◌-◌, ◌^◌, ◌≤◌, ◌<◌, ◌≡◌, refl, sym, ap, ◌∙◌, Bool, true, false, List, [], ◌∷◌, ◌++◌,
  length, if◌then◌else◌, ltb, arith,
}
use jml.Value.{falsey}
use jml.Bytecode.Array.{Chunk}
use jml.Bytecode.Arrays.{opcodes_of}
use jml.Bytecode.Opcode.{opcode_of}
use jml.Bytecode.Offset.{code_at, short_at}
use jml.Vm.Coroutine.{peek}
use jml.Vm.Run.{Doubles, Machine, goes, exec, exec_byte, move_pc, step}
use jml.Compiler.Emit.{Parser, error_if, short_max, emit_jump, pop_byte, loop_byte, jump_byte}
use jml.Compiler.Code.{IsCode, Emits, emit_byte-Emits, length-opcodes}
use jml.Compiler.Jumps.{short_bytes, with_operand, emit_jump-Emits}
use jml.Compiler.Logic.{jump_if_false_byte, jump_or_pop}

pub code_at-append :
    (pre rest : List ℕ) (i : ℕ) → code_at (pre ++ rest) (length pre + i) ≡ code_at rest i
code_at-append [] rest i = let e : 0 + i ≡ i = omega arith in ap (code_at rest) e
code_at-append (x ∷ pre) rest i =
    let e : suc (length pre) + i ≡ suc (length pre + i) = omega arith in
    ap (code_at (x ∷ (pre ++ rest))) e ∙ code_at-append pre rest i

-- The opcode and the operand of an instruction behind `pre`.
record Reads (code : List ℕ) (at opcode n : ℕ) : Type 0 where
  opcode_at : code_at code at ≡ opcode
  operand_at : short_at code (at + 1) ≡ n

operand-Reads :
    (pre more : List ℕ) (opcode n : ℕ)
    → n ≤ short_max
    → Reads (pre ++ opcode ∷ (short_bytes n ++ more)) (length pre) opcode n
operand-Reads pre more opcode n h =
    let rest = opcode ∷ (short_bytes n ++ more) in
    let here : length pre ≡ length pre + 0 = omega arith in
    let second : length pre + 1 + 1 ≡ length pre + 2 = omega arith in
    let hi = code_at-append pre rest 1 in
    let lo = ap (code_at (pre ++ rest)) second ∙ code_at-append pre rest 2 in
    record {
      opcode_at = ap (code_at (pre ++ rest)) here ∙ code_at-append pre rest 0;
      operand_at = omega (arith, hi, lo);
    }

jumped_to :
    (t : Bool) (pc n : ℕ) → pc + 1 + (if t then 2 + n else 2) ≡ (if t then pc + 3 + n else pc + 3)
jumped_to true pc n = omega arith
jumped_to false pc n = omega arith

module _ (doubles : Doubles) (is_instance : ℕ → Bool) (moved : ℕ) where
  step_jump_if_false :
      (m : Machine) (n : ℕ)
      → Reads m.code m.pc jump_if_false_byte n
      → step doubles is_instance moved m
        ≡ goes (record m { pc = if falsey (peek m.vm 0) then m.pc + 3 + n else m.pc + 3 })
  unfolding step exec opcode_of
  step_jump_if_false m n r =
      ap (λ k. exec_byte doubles is_instance moved (opcode_of k) (move_pc m 1)) r.opcode_at
      ∙ ap
          (λ (k : ℕ).
            goes (record m { pc = m.pc + 1 + (if falsey (peek m.vm 0) then 2 + k else 2) }))
          r.operand_at
      ∙ ap (λ (k : ℕ). goes (record m { pc = k })) (jumped_to (falsey (peek m.vm 0)) m.pc n)

  step_loop :
      (m : Machine) (n : ℕ)
      → Reads m.code m.pc loop_byte n
      → step doubles is_instance moved m ≡ goes (record m { pc = m.pc + 3 - n })
  unfolding step exec opcode_of
  step_loop m n r =
      let two : m.pc + 1 + 2 - n ≡ m.pc + 3 - n = omega arith in
      ap (λ k. exec_byte doubles is_instance moved (opcode_of k) (move_pc m 1)) r.opcode_at
      ∙ ap (λ (k : ℕ). goes (record m { pc = m.pc + 1 + 2 - k })) r.operand_at
      ∙ ap (λ (k : ℕ). goes (record m { pc = k })) two

  step_jump :
      (m : Machine) (n : ℕ)
      → Reads m.code m.pc jump_byte n
      → step doubles is_instance moved m ≡ goes (record m { pc = m.pc + 3 + n })
  unfolding step exec opcode_of
  step_jump m n r =
      let two : m.pc + 1 + (2 + n) ≡ m.pc + 3 + n = omega arith in
      ap (λ k. exec_byte doubles is_instance moved (opcode_of k) (move_pc m 1)) r.opcode_at
      ∙ ap (λ (k : ℕ). goes (record m { pc = m.pc + 1 + (2 + k) })) r.operand_at
      ∙ ap (λ (k : ℕ). goes (record m { pc = k })) two

  pub step_jump_behind :
      (pre tail : List ℕ) (n : ℕ)
      → n ≤ short_max
      → (m : Machine) → m.code ≡ pre ++ jump_byte ∷ (short_bytes n ++ tail)
      → m.pc ≡ length pre
      → step doubles is_instance moved m ≡ goes (record m { pc = m.pc + 3 + n })
  step_jump_behind pre tail n short m code at = step_jump m n (
      subst (λ l. Reads l m.pc jump_byte n) (sym code)
        (subst (λ k. Reads (pre ++ jump_byte ∷ (short_bytes n ++ tail)) k jump_byte n) (sym at)
          (operand-Reads pre tail jump_byte n short)))

-- What is emitted before the operand and the block.
pub jump_or_pop-Emits :
    (p : Parser) (b : Chunk)
    → IsCode b
    → b.count + 64 < 2 ^ 28
    → p.line < 2 ^ 16
    → Emits (emit_jump p b jump_if_false_byte).1 (pop_byte ∷ []) (jump_or_pop p b).1
      × ((jump_or_pop p b).0 ≡ (emit_jump p b jump_if_false_byte).0)
unfolding jump_or_pop
jump_or_pop-Emits p b is room line =
    let (emitted, _) = emit_jump-Emits p b is (omega arith) line jump_if_false_byte (omega arith) in
    (
      emit_byte-Emits p _ pop_byte emitted.code (omega (arith, emitted.count)) line (omega arith),
      refl,
    )

-- The step at the jump of `b`, whose operand is `n`.
pub jump_from :
    (doubles : Doubles) (is_instance : ℕ → Bool) (moved : ℕ) (b b' : Chunk) (n : ℕ) (more : List ℕ)
    → IsCode b
    → n ≤ short_max
    → opcodes_of b' ≡ with_operand b jump_if_false_byte n more
    → (m : Machine) → m.code ≡ opcodes_of b'
    → m.pc ≡ b.count
    → step doubles is_instance moved m
      ≡ goes (record m { pc = if falsey (peek m.vm 0) then m.pc + 3 + n else m.pc + 3 })
jump_from doubles is_instance moved b b' n more is short e m code at =
    let place : length (opcodes_of b) ≡ m.pc = length-opcodes b is ∙ sym at in
    let whole : opcodes_of b ++ jump_if_false_byte ∷ (short_bytes n ++ more) ≡ m.code =
      sym (code ∙ e) in
    step_jump_if_false doubles is_instance moved m n (
      subst (λ l. Reads l m.pc jump_if_false_byte n) whole
        (subst
          (λ k.
            Reads (opcodes_of b ++ jump_if_false_byte ∷ (short_bytes n ++ more)) k
              jump_if_false_byte n)
          place (operand-Reads (opcodes_of b) more jump_if_false_byte n short)))

-- The step at a jump back of `n`, behind the bytes `pre`.
pub loop_from :
    (doubles : Doubles) (is_instance : ℕ → Bool) (moved : ℕ) (pre tail : List ℕ) (n : ℕ)
    → n ≤ short_max
    → (m : Machine) → m.code ≡ pre ++ loop_byte ∷ (short_bytes n ++ tail)
    → m.pc ≡ length pre
    → step doubles is_instance moved m ≡ goes (record m { pc = m.pc + 3 - n })
loop_from doubles is_instance moved pre tail n short m code at =
    step_loop doubles is_instance moved m n (
      subst (λ l. Reads l m.pc loop_byte n) (sym code)
        (subst (λ k. Reads (pre ++ loop_byte ∷ (short_bytes n ++ tail)) k loop_byte n) (sym at)
          (operand-Reads pre tail loop_byte n short)))

-- The code of a loop up to its jump back.
abbrev pub before_loop : Chunk → ℕ → List ℕ → List ℕ
before_loop b n body = opcodes_of b ++ jump_if_false_byte ∷ (short_bytes n ++ pop_byte ∷ body)

pub leaves_at :
    (t : Bool) (pc count size n : ℕ)
    → pc ≡ count
    → size ≡ 4 + n
    → (if t then pc + 3 + size else pc + 3) ≡ (if t then count + 7 + n else count + 3)
leaves_at true pc count size n h e = omega arith
leaves_at false pc count size n h e = omega arith

pub ends_at :
    (t : Bool) (pc count n : ℕ)
    → pc ≡ count
    → (if t then pc + 3 + suc n else pc + 3) ≡ (if t then count + 4 + n else count + 3)
ends_at true pc count n h = omega arith
ends_at false pc count n h = omega arith

pub no_error_of : (p : Parser) (n : ℕ) → n ≤ short_max → error_if (ltb short_max n) p ≡ p
no_error_of p n h = let short : ltb short_max n ≡ false = ground arith in rw short

pub no_error :
    (p : Parser) (more : List ℕ)
    → length more ≤ short_max
    → error_if (ltb short_max (length more)) p ≡ p
no_error p more h = let short : ltb short_max (length more) ≡ false = ground arith in rw short
