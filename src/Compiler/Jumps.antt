-- ===== src/Compiler/Jumps.antt =====
-- src/jml_compiler.c: jumps that are patched, and loops, land where they are meant to.
use mathlib.Core.Path.{subst}
use jml.Base.{
  ℕ, zero, suc, ◌+◌, ◌-◌, ◌*◌, ◌/◌, ◌%◌, ◌^◌, ◌≤◌, ◌<◌, ◌≡◌, refl, sym, ap, ◌∙◌, List, [], ◌∷◌,
  ◌++◌, append_assoc, length, length-append, length-set, set, take, ltb, arith,
}
use jml.Bytecode.Array.{Chunk}
use jml.Bytecode.Arrays.{opcodes_of}
use jml.Compiler.Emit.{
  Parser, parser_error, error_if, short_max, emit_byte, emit_short, emit_jump, patch_jump,
  emit_loop, loop_byte,
}
use jml.Compiler.Code.{
  IsCode, Emits, emit_byte-Emits, Emits-append, emit_bytes-Emits, emit_short-Emits, length-opcodes,
}

-- `READ_SHORT` of the virtual machine, of the two bytes of an operand.
abbrev pub read_short : ℕ → ℕ → ℕ
read_short hi lo = hi * 2 ^ 8 + lo

-- The operand of a 16-bit number.
abbrev pub short_bytes : ℕ → List ℕ
short_bytes n = n / 2 ^ 8 % 2 ^ 8 ∷ n % 2 ^ 8 ∷ []

pub read_short-bytes : (n : ℕ) → n ≤ short_max → read_short (n / 2 ^ 8 % 2 ^ 8) (n % 2 ^ 8) ≡ n
read_short-bytes n h = omega arith

module _ {ℓ} {A : Type ℓ} where
  pub take-set_inside : (n i : ℕ) (xs : List A) (v : A) → take n (set xs i v) ≡ set (take n xs) i v
  take-set_inside zero i xs v = refl
  take-set_inside (suc n) i [] v = refl
  take-set_inside (suc n) zero (x ∷ xs) v = refl
  take-set_inside (suc n) (suc i) (x ∷ xs) v = ap (◌∷◌ x) (take-set_inside n i xs v)

  pub set-length : (xs ys : List A) (x v : A) → set (xs ++ x ∷ ys) (length xs) v ≡ xs ++ v ∷ ys
  set-length [] ys x v = refl
  set-length (z ∷ xs) ys x v = ap (◌∷◌ z) (set-length xs ys x v)

  set-length_next :
      (xs ys : List A) (x y v : A) → set (xs ++ x ∷ y ∷ ys) (length xs + 1) v ≡ xs ++ x ∷ v ∷ ys
  set-length_next [] ys x y v = refl
  set-length_next (z ∷ xs) ys x y v =
      let next : suc (length xs) + 1 ≡ suc (length xs + 1) = omega arith in
      ap (λ k. set (z ∷ (xs ++ x ∷ y ∷ ys)) k v) next ∙ ap (◌∷◌ z) (set-length_next xs ys x y v)

patched :
    (b : Chunk) (pre more : List ℕ) (x y hi lo : ℕ)
    → opcodes_of b ≡ pre ++ x ∷ y ∷ more
    → take b.count (set (set b.code (length pre) hi) (length pre + 1) lo) ≡ pre ++ hi ∷ lo ∷ more
patched b pre more x y hi lo e =
    take-set_inside b.count (length pre + 1) (set b.code (length pre) hi) lo
    ∙ ap (λ l. set l (length pre + 1) lo) (take-set_inside b.count (length pre) b.code hi)
    ∙ ap (λ l. set (set l (length pre) hi) (length pre + 1) lo) e
    ∙ ap (λ l. set l (length pre + 1) lo) (set-length pre (y ∷ more) x hi)
    ∙ set-length_next pre more hi y lo

-- A jump patched over the bytes `more`, wherever it stands.
pub record Patched (p : Parser) (b : Chunk) (pre more : List ℕ) (r : Parser × Chunk) : Type 0 where
  pub code : IsCode r.1
  pub count : r.1.count ≡ b.count
  pub opcodes : opcodes_of r.1 ≡ pre ++ (short_bytes (length more) ++ more)
  pub reports : r.0 ≡ error_if (ltb short_max (length more)) p

pub patch_jump-Patched :
    (p : Parser) (b : Chunk) (pre more : List ℕ) (x y offset : ℕ)
    → IsCode b
    → opcodes_of b ≡ pre ++ x ∷ y ∷ more
    → offset ≡ length pre
    → Patched p b pre more (patch_jump p b offset)
unfolding patch_jump
patch_jump-Patched p b pre more x y offset is old place =
    let jump : b.count - offset - 2 ≡ length more =
      omega (arith, length-opcodes b is, ap length old, length-append pre (x ∷ y ∷ more)) in
    record {
      code = record {
        chunk = record {
          inside = is.chunk.inside;
          code_cells = length-set _ _ _ ∙ length-set b.code _ _ ∙ is.chunk.code_cells;
          line_cells = is.chunk.line_cells;
          constants = is.chunk.constants;
        };
        tight = is.tight;
      };
      count = refl;
      opcodes = rw (jump, place) (patched b pre more x y _ _ old);
      reports = ap (λ n. error_if (ltb short_max n) p) jump;
    }

-- The bytecode `b`, an opcode with the operand `n`, and the bytes that follow.
abbrev pub with_operand : Chunk → ℕ → ℕ → List ℕ → List ℕ
with_operand b opcode n more = opcodes_of b ++ opcode ∷ (short_bytes n ++ more)

module _ (p : Parser) (b : Chunk) (is : IsCode b) (room : b.count + 32 < 2 ^ 28)
    (line : p.line < 2 ^ 16) (opcode : ℕ) (byte : opcode < 2 ^ 8) where
  pub emit_jump-Emits :
      Emits b (opcode ∷ 255 ∷ 255 ∷ []) (emit_jump p b opcode).1
      × ((emit_jump p b opcode).0 ≡ b.count + 1)
  unfolding emit_jump
  emit_jump-Emits =
      let first = emit_byte-Emits p b opcode is (omega arith) line byte in
      let second =
        emit_bytes-Emits p (emit_byte p b opcode) first.code (omega (arith, first.count)) line 255
          255 (omega arith) (omega arith) in
      (
        Emits-append b (emit_byte p b opcode) _ (opcode ∷ []) (255 ∷ 255 ∷ []) first second,
        omega (arith, first.count, second.count),
      )

-- A patched jump over the bytes `more`: nothing but its operand changed, it is reported when it is too long, and
-- what the virtual machine reads of the operand leads from behind it to the end of the code.
pub record Lands (p : Parser) (b : Chunk) (opcode at : ℕ) (more : List ℕ) (r : Parser × Chunk)
    : Type 0 where
  pub code : IsCode r.1
  pub opcodes : opcodes_of r.1 ≡ with_operand b opcode (length more) more
  pub reports : r.0 ≡ error_if (ltb short_max (length more)) p
  pub target :
      length more ≤ short_max
      → at + 2 + read_short (length more / 2 ^ 8 % 2 ^ 8) (length more % 2 ^ 8) ≡ r.1.count

module _ (p : Parser) (b : Chunk) (is : IsCode b) (room : b.count + 32 < 2 ^ 28)
    (line : p.line < 2 ^ 16) (opcode : ℕ) (byte : opcode < 2 ^ 8) where
  -- A jump emitted by `jml_bytecode_emit_jump` and patched by `jml_bytecode_patch_jump` after more bytes leads
  -- to the end of the code, and the other bytes stay; it is an error if they are more than 65535. The code is
  -- shorter than 2^28 bytes and the line is below 2^16.
  pub patch_jump-Lands :
      (p' : Parser) (b' : Chunk) (more : List ℕ)
      → Emits (emit_jump p b opcode).1 more b'
      → Lands p' b opcode (emit_jump p b opcode).0 more (patch_jump p' b' (emit_jump p b opcode).0)
  unfolding patch_jump
  patch_jump-Lands p' b' more then_more =
      let (emitted, at) = emit_jump-Emits p b is room line opcode byte in
      let offset = (emit_jump p b opcode).0 in
      let jump : b'.count - offset - 2 ≡ length more =
        omega (arith, then_more.count, emitted.count, at) in
      let size : offset ≡ length (opcodes_of b ++ opcode ∷ []) =
        omega (arith, at, length-append (opcodes_of b) (opcode ∷ []), length-opcodes b is) in
      let old : opcodes_of b' ≡ (opcodes_of b ++ opcode ∷ []) ++ 255 ∷ 255 ∷ more =
        then_more.opcodes
        ∙ ap (λ l. l ++ more) emitted.opcodes
        ∙ append_assoc (opcodes_of b) (opcode ∷ 255 ∷ 255 ∷ []) more
        ∙ sym (append_assoc (opcodes_of b) (opcode ∷ []) (255 ∷ 255 ∷ more)) in
      let chunk = then_more.code.chunk in
      record {
        code = record {
          chunk = record {
            inside = chunk.inside;
            code_cells = length-set _ _ _ ∙ length-set b'.code _ _ ∙ chunk.code_cells;
            line_cells = chunk.line_cells;
            constants = chunk.constants;
          };
          tight = then_more.code.tight;
        };
        opcodes =
            rw (jump, size) (patched b' (opcodes_of b ++ opcode ∷ []) more 255 255 _ _ old)
            ∙ append_assoc (opcodes_of b) (opcode ∷ []) (short_bytes (length more) ++ more);
        reports = ap (λ n. error_if (ltb short_max n) p') jump;
        target = λ short.
            omega (arith, read_short-bytes (length more) short, then_more.count, emitted.count, at);
      }

-- The jump back of a loop, to `start`.
pub record Returns (p : Parser) (b : Chunk) (start : ℕ) (r : Parser × Chunk) : Type 0 where
  pub emits : Emits b (loop_byte ∷ short_bytes (b.count + 3 - start)) r.1
  pub reports : r.0 ≡ error_if (ltb short_max (b.count + 3 - start)) p
  pub target :
      b.count + 3 - start ≤ short_max
      → r.1.count
        ≡ start + read_short ((b.count + 3 - start) / 2 ^ 8 % 2 ^ 8) ((b.count + 3 - start) % 2 ^ 8)

-- `jml_bytecode_emit_loop` emits a jump whose operand leads back from the end of the code to `start`, and reports
-- an error if that is more than 65535 bytes.
pub emit_loop-Returns :
    (p : Parser) (b : Chunk) (start : ℕ)
    → IsCode b
    → b.count + 32 < 2 ^ 28
    → p.line < 2 ^ 16
    → start ≤ b.count
    → Returns p b start (emit_loop p b start)
unfolding emit_loop parser_error
emit_loop-Returns p b start is room line le =
    let first = emit_byte-Emits p b loop_byte is (omega arith) line (omega arith) in
    let offset : (emit_byte p b loop_byte).count - start + 2 ≡ b.count + 3 - start =
      omega (arith, first.count) in
    let p' = error_if (ltb short_max ((emit_byte p b loop_byte).count - start + 2)) p in
    let line' : p'.line < 2 ^ 16 = ground arith in
    let second =
      emit_short-Emits p' (emit_byte p b loop_byte) first.code (omega (arith, first.count)) line'
        ((emit_byte p b loop_byte).count - start + 2) in
    let emits = Emits-append b (emit_byte p b loop_byte) _ (loop_byte ∷ []) _ first second in
    record {
      emits =
          subst
            (λ (n : ℕ). Emits b (loop_byte ∷ short_bytes n) (
              emit_short p' (emit_byte p b loop_byte)
                ((emit_byte p b loop_byte).count - start + 2)))
            offset emits;
      reports = ap (λ n. error_if (ltb short_max n) p) offset;
      target = λ short. omega (arith, read_short-bytes (b.count + 3 - start) short, emits.count);
    }
