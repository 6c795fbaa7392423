-- ===== src/Compiler/Code.antt =====
-- src/jml_compiler.c: what an emission appends to the bytecode.
use jml.Base.{
  ℕ, ◌+◌, ◌*◌, ◌/◌, ◌%◌, ◌^◌, ◌≤◌, ◌<◌, ◌≡◌, ap, ◌∙◌, List, [], ◌∷◌, ◌++◌, append_assoc, length,
  length-append, length-take, arith,
}
use jml.HashMap.Table.{grow_capacity}
use jml.Bytecode.Array.{Chunk, bytecode_write}
use jml.Bytecode.Arrays.{IsChunk, opcodes_of, bytecode_write-appends}
use jml.Compiler.Emit.{Parser, emit_byte, emit_bytes, emit_short}

-- A bytecode as the compiler builds it: never much larger than what it holds.
pub record IsCode (b : Chunk) : Type 0 where
  pub chunk : IsChunk b
  pub tight : b.capacity ≤ 2 * b.count + 8

-- `b'` is `b` with the bytes after it.
pub record Emits (b : Chunk) (bytes : List ℕ) (b' : Chunk) : Type 0 where
  pub code : IsCode b'
  pub opcodes : opcodes_of b' ≡ opcodes_of b ++ bytes
  pub count : b'.count ≡ b.count + length bytes
  pub constants : b'.constants ≡ b.constants

write-count :
    (b : Chunk) (byte line : ℕ)
    → b.capacity < 2 ^ 30
    → b.count ≤ b.capacity
    → b.capacity ≤ 2 * b.count + 8
    → ((bytecode_write b byte line).count ≡ b.count + 1)
      × ((bytecode_write b byte line).capacity ≤ 2 * (b.count + 1) + 8)
      × ((bytecode_write b byte line).constants ≡ b.constants)
unfolding bytecode_write grow_capacity
write-count b byte line small inside tight = ground arith

pub emit_byte-Emits :
    (p : Parser) (b : Chunk) (byte : ℕ)
    → IsCode b
    → b.count < 2 ^ 28
    → p.line < 2 ^ 16
    → byte < 2 ^ 8
    → Emits b (byte ∷ []) (emit_byte p b byte)
unfolding emit_byte
emit_byte-Emits p b byte is room line fits =
    let small : b.capacity < 2 ^ 30 = omega (arith, is.tight) in
    let (chunk, tail, _) = bytecode_write-appends b byte p.line is.chunk small fits line in
    let (count, tight, constants) = write-count b byte p.line small is.chunk.inside is.tight in
    record {
      code = record { chunk = chunk; tight = omega (arith, count, tight) };
      opcodes = tail;
      count = count;
      constants = constants;
    }

pub Emits-append :
    (b b' b'' : Chunk) (xs ys : List ℕ) → Emits b xs b' → Emits b' ys b'' → Emits b (xs ++ ys) b''
Emits-append b b' b'' xs ys first second = record {
  code = second.code;
  opcodes = second.opcodes ∙ ap (λ l. l ++ ys) first.opcodes ∙ append_assoc (opcodes_of b) xs ys;
  count = omega (arith, first.count, second.count, length-append xs ys);
  constants = second.constants ∙ first.constants;
}

module _ (p : Parser) (b : Chunk) (is : IsCode b) (room : b.count + 16 < 2 ^ 28)
    (line : p.line < 2 ^ 16) where
  pub emit_bytes-Emits :
      (x y : ℕ) → x < 2 ^ 8 → y < 2 ^ 8 → Emits b (x ∷ y ∷ []) (emit_bytes p b x y)
  unfolding emit_bytes
  emit_bytes-Emits x y hx hy =
      let first = emit_byte-Emits p b x is (omega arith) line hx in
      let second =
        emit_byte-Emits p (emit_byte p b x) y first.code (omega (arith, first.count)) line hy in
      Emits-append b (emit_byte p b x) (emit_byte p (emit_byte p b x) y) (x ∷ []) (y ∷ []) first
        second

  pub emit_short-Emits : (s : ℕ) → Emits b (s / 2 ^ 8 % 2 ^ 8 ∷ s % 2 ^ 8 ∷ []) (emit_short p b s)
  unfolding emit_short
  emit_short-Emits s = emit_bytes-Emits (s / 2 ^ 8 % 2 ^ 8) (s % 2 ^ 8) (omega arith) (omega arith)

pub length-opcodes : (b : Chunk) → IsCode b → length (opcodes_of b) ≡ b.count
length-opcodes b is =
    length-take b.count b.code ∙ omega (arith, is.chunk.code_cells, is.chunk.inside)
