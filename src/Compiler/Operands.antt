-- ===== src/Compiler/Operands.antt =====
-- src/jml_compiler.c: `EMIT_EXTENDED_OP1`, `EMIT_EXTENDED_OP2`, `EMIT_EXTENDED_OP3` and the constants.
use jml.Base.{
  ℕ, zero, suc, ◌+◌, ◌^◌, ◌≤◌, ◌<◌, ◌≡◌, ◌≢◌, refl, ap, ◌∙◌, true, false, ◌||◌, List, [], ◌∷◌, ◌++◌,
  length, ltb, ◌==◌, ==_refl, if◌then◌else◌, if_lem, some, get_elem?, arith,
}
use jml.Value.{Value}
use jml.Bytecode.Array.{Chunk, bytecode_add_const}
use jml.Bytecode.Arrays.{contents, opcodes_of, bytecode_add_const-get, value_array_write-appends}
use jml.Compiler.Emit.{
  Parser, parser_error, byte_max, short_max, emit_byte, emit_bytes, emit_short, emit_extended_op1,
  emit_extended_op2, emit_extended_op3, make_const, emit_const, const_byte, const_extended_byte,
}
use jml.Compiler.Code.{
  IsCode, Emits, emit_byte-Emits, Emits-append, emit_bytes-Emits, emit_short-Emits,
}
use jml.Compiler.Jumps.{read_short, read_short-bytes, short_bytes}

-- How the virtual machine reads operands: by `READ_SHORT` if they are wide, by `READ_BYTE` if not.
abbrev pub read_wide : ℕ → List ℕ → List ℕ
read_wide zero bytes = []
read_wide (suc n) [] = []
read_wide (suc n) (x ∷ []) = []
read_wide (suc n) (x ∷ y ∷ bytes) = read_short x y ∷ read_wide n bytes

abbrev pub read_narrow : ℕ → List ℕ → List ℕ
read_narrow zero bytes = []
read_narrow (suc n) [] = []
read_narrow (suc n) (x ∷ bytes) = x ∷ read_narrow n bytes

-- The `n` operands of an instruction whose extended opcode is `o2`.
abbrev pub read_operands : ℕ → ℕ → List ℕ → List ℕ
read_operands o2 n [] = []
read_operands o2 n (o ∷ bytes) = if o == o2 then read_wide n bytes else read_narrow n bytes

-- An instruction was emitted, and its operands read as `operands`.
abbrev pub Encodes : Chunk → ℕ → List ℕ → Chunk → Type 0
Encodes b o2 operands b' =
    (bytes : List ℕ) × Emits b bytes b' × (read_operands o2 (length operands) bytes ≡ operands)

module _ (p : Parser) (b : Chunk) (o1 o2 : ℕ) (is : IsCode b) (room : b.count + 64 < 2 ^ 28)
    (line : p.line < 2 ^ 16) (byte1 : o1 < 2 ^ 8) (byte2 : o2 < 2 ^ 8) (differ : o1 ≢ o2) where
  opened : Emits b (o2 ∷ []) (emit_byte p b o2)
  opened = emit_byte-Emits p b o2 is (omega arith) line byte2

  wide : (bytes : List ℕ) (n : ℕ) → read_operands o2 n (o2 ∷ bytes) ≡ read_wide n bytes
  wide bytes n = rw (==_refl o2)

  narrow : (bytes : List ℕ) (n : ℕ) → read_operands o2 n (o1 ∷ bytes) ≡ read_narrow n bytes
  narrow bytes n = let no_eq : (o1 == o2) ≡ false = ground arith in rw no_eq

  short1 : (a1 : ℕ) → Emits b (o2 ∷ short_bytes a1) (emit_short p (emit_byte p b o2) a1)
  short1 a1 =
      Emits-append b (emit_byte p b o2) _ (o2 ∷ []) (short_bytes a1) opened
        (emit_short-Emits p (emit_byte p b o2) opened.code (omega (arith, opened.count)) line a1)

  short2 :
      (a1 a2 : ℕ)
      → Emits b
          (o2 ∷ (short_bytes a1 ++ short_bytes a2))
          (emit_short p (emit_short p (emit_byte p b o2) a1) a2)
  short2 a1 a2 =
      let before = short1 a1 in
      Emits-append b (emit_short p (emit_byte p b o2) a1) _ (o2 ∷ short_bytes a1) (short_bytes a2)
        before (emit_short-Emits p _ before.code (omega (arith, before.count)) line a2)

  short3 :
      (a1 a2 a3 : ℕ)
      → Emits b
          (o2 ∷ (short_bytes a1 ++ (short_bytes a2 ++ short_bytes a3)))
          (emit_short p (emit_short p (emit_short p (emit_byte p b o2) a1) a2) a3)
  short3 a1 a2 a3 =
      let before = short2 a1 a2 in
      Emits-append b (emit_short p (emit_short p (emit_byte p b o2) a1) a2) _
        (o2 ∷ (short_bytes a1 ++ short_bytes a2)) (short_bytes a3) before
        (emit_short-Emits p _ before.code (omega (arith, before.count)) line a3)

  bytes1 : (a1 : ℕ) → a1 ≤ byte_max → Emits b (o1 ∷ a1 ∷ []) (emit_bytes p b o1 a1)
  bytes1 a1 h = emit_bytes-Emits p b is (omega arith) line o1 a1 byte1 (omega arith)

  bytes2 :
      (a1 a2 : ℕ)
      → a1 ≤ byte_max
      → a2 ≤ byte_max
      → Emits b (o1 ∷ a1 ∷ a2 ∷ []) (emit_byte p (emit_bytes p b o1 a1) a2)
  bytes2 a1 a2 h1 h2 =
      let before = bytes1 a1 h1 in
      Emits-append b (emit_bytes p b o1 a1) _ (o1 ∷ a1 ∷ []) (a2 ∷ []) before
        (emit_byte-Emits p _ a2 before.code (omega (arith, before.count)) line (omega arith))

  bytes3 :
      (a1 a2 a3 : ℕ)
      → a1 ≤ byte_max
      → a2 ≤ byte_max
      → a3 ≤ byte_max
      → Emits b (o1 ∷ a1 ∷ a2 ∷ a3 ∷ []) (emit_bytes p (emit_bytes p b o1 a1) a2 a3)
  bytes3 a1 a2 a3 h1 h2 h3 =
      let before = bytes1 a1 h1 in
      Emits-append b (emit_bytes p b o1 a1) _ (o1 ∷ a1 ∷ []) (a2 ∷ a3 ∷ []) before (
        emit_bytes-Emits p _ before.code (omega (arith, before.count)) line a2 a3 (omega arith)
          (omega arith))

  emit_extended_op1-Encodes :
      (a1 : ℕ) → a1 ≤ short_max → Encodes b o2 (a1 ∷ []) (emit_extended_op1 p b o1 o2 a1)
  unfolding emit_extended_op1
  emit_extended_op1-Encodes a1 h1 =
      if_lem (Encodes b o2 (a1 ∷ [])) (ltb byte_max a1)
        (λ big. (
          o2 ∷ short_bytes a1,
          short1 a1,
          wide (short_bytes a1) 1 ∙ ap (λ k. k ∷ []) (read_short-bytes a1 h1),
        ))
        λ small. (o1 ∷ a1 ∷ [], bytes1 a1 (ground arith), narrow (a1 ∷ []) 1)

  emit_extended_op2-Encodes :
      (a1 a2 : ℕ)
      → a1 ≤ short_max
      → a2 ≤ short_max
      → Encodes b o2 (a1 ∷ a2 ∷ []) (emit_extended_op2 p b o1 o2 a1 a2)
  unfolding emit_extended_op2
  emit_extended_op2-Encodes a1 a2 h1 h2 =
      if_lem (Encodes b o2 (a1 ∷ a2 ∷ [])) (ltb byte_max a1 || ltb byte_max a2)
        (λ big. (
          o2 ∷ (short_bytes a1 ++ short_bytes a2),
          short2 a1 a2,
          wide (short_bytes a1 ++ short_bytes a2) 2
              ∙ rw (read_short-bytes a1 h1, read_short-bytes a2 h2) refl,
        ))
        λ small.
          (o1 ∷ a1 ∷ a2 ∷ [], bytes2 a1 a2 (ground arith) (ground arith), narrow (a1 ∷ a2 ∷ []) 2)

  emit_extended_op3-Encodes :
      (a1 a2 a3 : ℕ)
      → a1 ≤ short_max
      → a2 ≤ short_max
      → a3 ≤ short_max
      → Encodes b o2 (a1 ∷ a2 ∷ a3 ∷ []) (emit_extended_op3 p b o1 o2 a1 a2 a3)
  unfolding emit_extended_op3
  emit_extended_op3-Encodes a1 a2 a3 h1 h2 h3 =
      if_lem (Encodes b o2 (a1 ∷ a2 ∷ a3 ∷ []))
        (ltb byte_max a1 || (ltb byte_max a2 || ltb byte_max a3))
        (λ big. (
          o2 ∷ (short_bytes a1 ++ (short_bytes a2 ++ short_bytes a3)),
          short3 a1 a2 a3,
          wide (short_bytes a1 ++ (short_bytes a2 ++ short_bytes a3)) 3
              ∙ rw (read_short-bytes a1 h1, read_short-bytes a2 h2, read_short-bytes a3 h3) refl,
        ))
        λ small. (
          o1 ∷ a1 ∷ a2 ∷ a3 ∷ [],
          bytes3 a1 a2 a3 (ground arith) (ground arith) (ground arith),
          narrow (a1 ∷ a2 ∷ a3 ∷ []) 3,
        )

  -- The operands that the macros `EMIT_EXTENDED_OP1` to `EMIT_EXTENDED_OP3` emit, up to 65535 each, are those
  -- that the virtual machine reads: all as two bytes behind the extended opcode when one of them needs them,
  -- all as one byte behind the plain one when not. The code is shorter than 2^28 bytes and the line is below
  -- 2^16.
  pub emit_extended-Encodes :
      (a1 a2 a3 : ℕ)
      → a1 ≤ short_max
      → a2 ≤ short_max
      → a3 ≤ short_max
      → Encodes b o2 (a1 ∷ []) (emit_extended_op1 p b o1 o2 a1)
        × Encodes b o2 (a1 ∷ a2 ∷ []) (emit_extended_op2 p b o1 o2 a1 a2)
        × Encodes b o2 (a1 ∷ a2 ∷ a3 ∷ []) (emit_extended_op3 p b o1 o2 a1 a2 a3)
  emit_extended-Encodes a1 a2 a3 h1 h2 h3 = (
    emit_extended_op1-Encodes a1 h1,
    emit_extended_op2-Encodes a1 a2 h1 h2,
    emit_extended_op3-Encodes a1 a2 a3 h1 h2 h3,
  )

-- A constant is emitted: what the virtual machine reads behind the opcode is the index of the value.
pub record Constant (b : Chunk) (value : Value) (b' : Chunk) : Type 0 where
  pub code : IsCode b'
  pub bytes : List ℕ
  pub index : ℕ
  pub opcodes : opcodes_of b' ≡ opcodes_of b ++ bytes
  pub reads : read_operands const_extended_byte 1 bytes ≡ index ∷ []
  pub holds : get_elem? (contents b'.constants) index ≡ some value

module _ (b : Chunk) (value : Value) (is : IsCode b) where
  with_const-IsCode : IsCode (bytecode_add_const b value).1
  unfolding bytecode_add_const
  with_const-IsCode = record {
    chunk = record {
      inside = is.chunk.inside;
      code_cells = is.chunk.code_cells;
      line_cells = is.chunk.line_cells;
      constants = (value_array_write-appends b.constants value is.chunk.constants).0;
    };
    tight = is.tight;
  }

  const_index : (bytecode_add_const b value).0 ≡ b.constants.count
  unfolding bytecode_add_const
  const_index = omega (arith, (value_array_write-appends b.constants value is.chunk.constants).2)

  same_code :
      ((bytecode_add_const b value).1.count ≡ b.count)
      × (opcodes_of (bytecode_add_const b value).1 ≡ opcodes_of b)
  unfolding bytecode_add_const
  same_code = (refl, refl)

  emitted-Constant :
      (p : Parser)
      → b.count + 64 < 2 ^ 28
      → p.line < 2 ^ 16
      → b.constants.count ≤ short_max
      → Constant b value (
          emit_extended_op1 p
            (bytecode_add_const b value).1
            const_byte
            const_extended_byte
            (bytecode_add_const b value).0)
  emitted-Constant p room line few =
      let (bytes, emits, reads) =
        emit_extended_op1-Encodes p (bytecode_add_const b value).1 const_byte const_extended_byte
          with_const-IsCode (omega (arith, same_code.0)) line (omega arith) (omega arith)
          (λ e. absurd (omega arith)) (bytecode_add_const b value).0 (omega (arith, const_index)) in
      record {
        code = emits.code;
        bytes = bytes;
        index = (bytecode_add_const b value).0;
        opcodes = emits.opcodes ∙ ap (λ l. l ++ bytes) same_code.1;
        reads = reads;
        holds = rw emits.constants (bytecode_add_const-get b value is.chunk.constants).0;
      }

-- `jml_bytecode_emit_const` emits the index of the constant that it adds, and reports nothing, up to 65536
-- constants; for one more it reports an error. The code is shorter than 2^28 bytes and the line is below 2^16.
pub emit_const-Constant :
    (p : Parser) (b : Chunk) (value : Value)
    → IsCode b
    → b.count + 64 < 2 ^ 28
    → p.line < 2 ^ 16
    → (b.constants.count ≤ short_max
        → Constant b value (emit_const p b value).1 × ((emit_const p b value).0 ≡ p))
      × (short_max < b.constants.count → (emit_const p b value).0 ≡ parser_error p)
unfolding emit_const make_const
emit_const-Constant p b value is room line = (
  λ few.
      let fits : ltb short_max (bytecode_add_const b value).0 ≡ false =
        ground (arith, const_index b value is) in
      (rw fits (emitted-Constant b value is p room line few), rw fits refl),
  λ many.
      let over : ltb short_max (bytecode_add_const b value).0 ≡ true =
        ground (arith, const_index b value is) in
      rw over refl,
)
