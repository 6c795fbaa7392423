-- ===== src/Compiler/Breaks.antt =====
-- src/jml_compiler.c: `jml_loop_end` makes the placeholders of `break` jumps to the end of the loop.

use jml.Base.{
  ◌-◌, ℕ, zero, suc, ◌+◌, ◌^◌, ◌≤◌, ◌<◌, ◌≡◌, refl, sym, ap, ◌∙◌, true, false, List, [], ◌∷◌, ◌++◌,
  append_assoc, some, length, length-append, length-set, take, set, get_or, ltb, ◌==◌, arith,
}
use jml.Value.{Value}
use jml.Bytecode.Array.{Chunk}
use jml.Bytecode.Arrays.{opcodes_of}
use jml.Bytecode.Opcode.{opcode_of}
use jml.Bytecode.Offset.{code_at, opcode_size, instruction_offset}
use jml.Compiler.Emit.{loop_byte, Parser, short_max, patch_jump, jump_byte}
use jml.Compiler.Code.{Emits, IsCode, length-opcodes}
use jml.Compiler.Jumps.{
  emit_loop-Returns, emit_jump-Emits, short_bytes, take-set_inside, set-length, patch_jump-Patched,
}
use jml.Compiler.Steps.{no_error, code_at-append}
use jml.Compiler.Loop.{skip_statement, Loop, break_statement, break_byte, set_code, patch_breaks}

-- An instruction, or the placeholder of a `break` with its two bytes.
pub data Item : Type 0 where
  instruction : ℕ → List ℕ → Item
  break_at : ℕ → ℕ → Item

abbrev pub bytes_of : List Item → List ℕ
bytes_of [] = []
bytes_of (instruction opcode operands ∷ items) = opcode ∷ (operands ++ bytes_of items)
bytes_of (break_at x y ∷ items) = break_byte ∷ x ∷ y ∷ bytes_of items

-- The bytes with a jump over what follows for each placeholder; `after` bytes follow the items.
abbrev pub resolved : List Item → ℕ → List ℕ
resolved [] after = []
resolved (instruction opcode operands ∷ items) after = opcode ∷ (operands ++ resolved items after)
resolved (break_at x y ∷ items) after =
    jump_byte ∷ (short_bytes (length (bytes_of items) + after) ++ resolved items after)

pub bytes_of-append :
    (items others : List Item) → bytes_of (items ++ others) ≡ bytes_of items ++ bytes_of others
bytes_of-append [] others = refl
bytes_of-append (instruction opcode operands ∷ items) others =
    ap (λ l. opcode ∷ (operands ++ l)) (bytes_of-append items others)
    ∙ ap (◌∷◌ opcode) (sym (append_assoc operands (bytes_of items) (bytes_of others)))
bytes_of-append (break_at x y ∷ items) others =
    ap (λ l. break_byte ∷ x ∷ y ∷ l) (bytes_of-append items others)

pub length-resolved :
    (items : List Item) (after : ℕ) → length (resolved items after) ≡ length (bytes_of items)
length-resolved [] after = refl
length-resolved (instruction opcode operands ∷ items) after = ap suc (
    length-append operands (resolved items after)
    ∙ ap (λ k. length operands + k) (length-resolved items after)
    ∙ sym (length-append operands (bytes_of items)))
length-resolved (break_at x y ∷ items) after =
    ap (λ k. suc (suc (suc k))) (length-resolved items after)

pub resolved-append :
    (items others : List Item) (after : ℕ)
    → resolved (items ++ others) after
      ≡ resolved items (length (bytes_of others) + after) ++ resolved others after
resolved-append [] others after = refl
resolved-append (instruction opcode operands ∷ items) others after =
    ap (λ l. opcode ∷ (operands ++ l)) (resolved-append items others after)
    ∙ ap (λ l. opcode ∷ l)
        (sym (
          append_assoc operands (resolved items (length (bytes_of others) + after))
            (resolved others after)))
resolved-append (break_at x y ∷ items) others after =
    let rest = resolved items (length (bytes_of others) + after) ++ resolved others after in
    let size : length (bytes_of (items ++ others)) + after
        ≡ length (bytes_of items) + (length (bytes_of others) + after) =
      omega (
        arith,
        ap length (bytes_of-append items others),
        length-append (bytes_of items) (bytes_of others),
      ) in
    ap (λ l. jump_byte ∷ (short_bytes (length (bytes_of (items ++ others)) + after) ++ l))
      (resolved-append items others after)
    ∙ ap (λ n. jump_byte ∷ (short_bytes n ++ rest)) size

-- Each instruction is as long as `jml_bytecode_instruction_offset` says, whatever the code; so it is no closure.
abbrev pub AreSized : (Value → ℕ) → List Item → Type 0
AreSized upvalue_count [] = Unit {0}
AreSized upvalue_count (instruction opcode operands ∷ items) =
    ((opcode == break_byte) ≡ false)
    × ((code : List ℕ) (constants : List Value)
        → opcode_size upvalue_count (opcode_of opcode) code constants ≡ suc (length operands))
    × AreSized upvalue_count items
AreSized upvalue_count (break_at x y ∷ items) = AreSized upvalue_count items

pub AreSized-append :
    (upvalue_count : Value → ℕ) (items others : List Item)
    → AreSized upvalue_count items
    → AreSized upvalue_count others
    → AreSized upvalue_count (items ++ others)
AreSized-append u [] others sized more = more
AreSized-append u (instruction opcode operands ∷ items) others (away, size, sized) more =
    (away, size, AreSized-append u items others sized more)
AreSized-append u (break_at x y ∷ items) others sized more =
    AreSized-append u items others sized more

-- A byte of the code that is in use.
get_or-take : (n i : ℕ) (code : List ℕ) → i < n → get_or (take n code) i 0 ≡ get_or code i 0
get_or-take zero i code lt = absurd (omega arith)
get_or-take (suc n) i [] lt = refl
get_or-take (suc n) zero (x ∷ code) lt = refl
get_or-take (suc n) (suc i) (x ∷ code) lt = get_or-take n i code (omega arith)

code_at-here :
    (b : Chunk) (pre more : List ℕ) (x i : ℕ)
    → IsCode b
    → opcodes_of b ≡ pre ++ x ∷ more
    → i ≡ length pre
    → (code_at b.code i ≡ x) × (i < b.count)
code_at-here b pre more x i is e place =
    let inside : i < b.count =
      omega (arith, length-opcodes b is, ap length e, length-append pre (x ∷ more)) in
    let here : i ≡ length pre + 0 = omega arith in
    (
      sym (get_or-take b.count i b.code inside)
          ∙ ap (λ l. code_at l i) e
          ∙ ap (code_at (pre ++ x ∷ more)) here
          ∙ code_at-append pre (x ∷ more) 0,
      inside,
    )

-- The placeholder's first byte, which becomes `OP_JUMP`.
set_code-opcodes :
    (b : Chunk) (pre more : List ℕ) (x i value : ℕ)
    → IsCode b
    → opcodes_of b ≡ pre ++ x ∷ more
    → i ≡ length pre
    → IsCode (set_code b i value) × (opcodes_of (set_code b i value) ≡ pre ++ value ∷ more)
set_code-opcodes b pre more x i value is e place = (
  record {
    chunk = record {
      inside = is.chunk.inside;
      code_cells = length-set b.code i value ∙ is.chunk.code_cells;
      line_cells = is.chunk.line_cells;
      constants = is.chunk.constants;
    };
    tight = is.tight;
  },
  take-set_inside b.count i b.code value
      ∙ ap (λ l. set l i value) e
      ∙ ap (λ k. set (pre ++ x ∷ more) k value) place
      ∙ set-length pre more x value,
)

-- The bytecode `b`, in which the placeholders behind `pre` are jumps to the end.
pub record PatchedBreaks (b : Chunk) (pre : List ℕ) (items : List Item) (b' : Chunk) : Type 0 where
  pub code : IsCode b'
  pub count : b'.count ≡ b.count
  pub opcodes : opcodes_of b' ≡ pre ++ resolved items 0

module _ (upvalue_count : Value → ℕ) where
  pub patch_breaks-PatchedBreaks :
      (n : ℕ) (p : Parser) (b : Chunk) (pre : List ℕ) (items : List Item) (i : ℕ)
      → IsCode b
      → opcodes_of b ≡ pre ++ bytes_of items
      → i ≡ length pre
      → AreSized upvalue_count items
      → length (bytes_of items) ≤ short_max
      → length (bytes_of items) < n
      → (b' : Chunk) × (patch_breaks upvalue_count n p b i ≡ some (p, b'))
        × PatchedBreaks b pre items b'
  unfolding patch_breaks instruction_offset
  patch_breaks-PatchedBreaks zero p b pre items i is e place sized short fuel = absurd (omega arith)
  patch_breaks-PatchedBreaks (suc n) p b pre [] i is e place sized short fuel =
      let over : ltb i b.count ≡ false =
        ground (arith, length-opcodes b is, ap length e, length-append pre []) in
      (b, rw over refl, record { code = is; count = refl; opcodes = e })
  patch_breaks-PatchedBreaks (suc n) p b pre (instruction opcode operands ∷ items) i is e place
        (away, size, sized) short fuel =
      let (here, inside) = code_at-here b pre (operands ++ bytes_of items) opcode i is e place in
      let under : ltb i b.count ≡ true = ground arith in
      let no_break : (code_at b.code i == break_byte) ≡ false =
        ap (λ k. k == break_byte) here ∙ away in
      let step : opcode_size upvalue_count (opcode_of (code_at b.code i)) b.code b.constants.values
          ≡ suc (length operands) =
        ap (λ k. opcode_size upvalue_count (opcode_of k) b.code b.constants.values) here
        ∙ size b.code b.constants.values in
      let pre' = pre ++ opcode ∷ operands in
      let (b', run, done) =
        patch_breaks-PatchedBreaks n p b pre' items (i + suc (length operands)) is
          (e ∙ sym (append_assoc pre (opcode ∷ operands) (bytes_of items)))
          (omega (arith, length-append pre (opcode ∷ operands))) sized
          (omega (arith, length-append operands (bytes_of items)))
          (omega (arith, length-append operands (bytes_of items))) in
      (
        b',
        rw (under, no_break) (ap (λ k. patch_breaks upvalue_count n p b (i + k)) step ∙ run),
        record {
          code = done.code;
          count = done.count;
          opcodes = done.opcodes ∙ append_assoc pre (opcode ∷ operands) (resolved items 0);
        },
      )
  patch_breaks-PatchedBreaks (suc n) p b pre (break_at x y ∷ items) i is e place sized short fuel =
      let (here, inside) = code_at-here b pre (x ∷ y ∷ bytes_of items) break_byte i is e place in
      let under : ltb i b.count ≡ true = ground arith in
      let is_break : (code_at b.code i == break_byte) ≡ true = ap (λ k. k == break_byte) here in
      let (is', e') =
        set_code-opcodes b pre (x ∷ y ∷ bytes_of items) break_byte i jump_byte is e place in
      let jumping = set_code b i jump_byte in
      let rest = bytes_of items in
      let pt =
        patch_jump-Patched p jumping (pre ++ jump_byte ∷ []) rest x y (i + 1) is'
          (e' ∙ sym (append_assoc pre (jump_byte ∷ []) (x ∷ y ∷ rest)))
          (omega (arith, length-append pre (jump_byte ∷ []))) in
      let quiet : (patch_jump p jumping (i + 1)).0 ≡ p =
        pt.reports ∙ no_error p rest (omega arith) in
      let patched = (patch_jump p jumping (i + 1)).1 in
      let jump = jump_byte ∷ short_bytes (length rest) in
      let (b', run, done) =
        patch_breaks-PatchedBreaks n p patched (pre ++ jump) items (i + 3) pt.code
          (pt.opcodes
            ∙ append_assoc pre (jump_byte ∷ []) (short_bytes (length rest) ++ rest)
            ∙ sym (append_assoc pre jump rest))
          (omega (arith, length-append pre jump)) sized (omega arith) (omega arith) in
      let zero_after : length rest ≡ length rest + 0 = omega arith in
      (
        b',
        rw (under, is_break) (ap (λ q. patch_breaks upvalue_count n q patched (i + 3)) quiet ∙ run),
        record {
          code = done.code;
          count = done.count ∙ pt.count;
          opcodes =
              done.opcodes
              ∙ append_assoc pre jump (resolved items 0)
              ∙ ap (λ k. pre ++ jump_byte ∷ (short_bytes k ++ resolved items 0)) zero_after;
        },
      )

-- What `break` emits in a loop is a placeholder.
pub break_statement-Emits :
    (p : Parser) (b : Chunk) (loop : Loop) (loops : List Loop)
    → IsCode b
    → b.count + 32 < 2 ^ 28
    → p.line < 2 ^ 16
    → Emits b (bytes_of (break_at 255 255 ∷ [])) (break_statement p b (loop ∷ loops)).1
unfolding break_statement
break_statement-Emits p b loop loops is room line =
    (emit_jump-Emits p b is room line break_byte (omega arith)).0

-- What `skip` emits in a loop is an instruction back to its start.
skip_statement-Emits :
    (p : Parser) (b : Chunk) (loop : Loop) (loops : List Loop)
    → IsCode b
    → b.count + 32 < 2 ^ 28
    → p.line < 2 ^ 16
    → loop.start ≤ b.count
    → Emits b
        (bytes_of (instruction loop_byte (short_bytes (b.count + 3 - loop.start)) ∷ []))
        (skip_statement p b (loop ∷ loops)).1
unfolding skip_statement
skip_statement-Emits p b loop loops is room line le =
    (emit_loop-Returns p b loop.start is room line le).emits
