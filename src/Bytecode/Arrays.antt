-- ===== src/Bytecode/Arrays.antt =====
-- src/jml_value.c and src/jml_bytecode.c: a write appends.
use jml.Base.{
  ℕ, ◌+◌, ◌-◌, ◌^◌, ◌%◌, ◌≤◌, ◌<◌, ◌≡◌, refl, ◌∙◌, ap, List, [], ◌∷◌, ◌++◌, length, u32, ltb, take,
  arith, if_lem, length-append, length-replicate, length-set, take-append, take-set, length-take,
  get-append-end, get_elem?, some,
}
use jml.Value.{Value, none_val}
use jml.HashMap.Table.{grow_capacity}
use jml.Bytecode.Array.{
  ValueArray, grow_array, value_array_write, put_value, grow_values, put_code, grow_code, Chunk,
  bytecode_write, bytecode_add_const,
}

module _ {ℓ} {A : Type ℓ} (fill : A) where
  length-grow_array :
      (cells : List A) (n : ℕ) → length cells ≤ n → length (grow_array cells n fill) ≡ n
  length-grow_array cells n h =
      length-append cells _
      ∙ ap (λ k. length cells + k) (length-replicate (n - length cells) fill)
      ∙ omega arith

-- The cells in use are among those allocated.
pub record IsArray (a : ValueArray) : Type 0 where
  pub inside : a.count ≤ a.capacity
  pub cells : length a.values ≡ a.capacity

abbrev pub contents : ValueArray → List Value
contents a = take a.count a.values

-- What an append leaves of the array `a`.
abbrev Appended : ValueArray → Value → ValueArray → Type 0
Appended a v a' = IsArray a' × (contents a' ≡ contents a ++ v ∷ []) × (a'.count ≡ a.count + 1)

put_value-Appended :
    (a : ValueArray) (v : Value) → IsArray a → a.count < a.capacity → Appended a v (put_value a v)
put_value-Appended a v h room = (
  record { inside = omega arith; cells = length-set a.values a.count v ∙ h.cells },
  take-set a.count a.values v (omega (arith, h.cells)),
  refl,
)

grow_values-IsArray :
    (a : ValueArray)
    → IsArray a
    → a.capacity < a.count + 1
    → IsArray (grow_values a)
      × (a.count < (grow_values a).capacity)
      × (contents (grow_values a) ≡ contents a)
unfolding grow_capacity
grow_values-IsArray a h full =
    let wide : a.count < grow_capacity a.count = ground arith in
    (
      record {
        inside = omega arith;
        cells =
            length-grow_array none_val a.values (grow_capacity a.count)
              (omega (arith, h.cells, h.inside));
      },
      wide,
      take-append a.count a.values _ (omega (arith, h.cells, h.inside)),
    )

-- `jml_value_array_write` leaves a well-formed array, whose contents are those before and the value, whether it
-- grows or not.
pub value_array_write-appends :
    (a : ValueArray) (v : Value)
    → IsArray a
    → IsArray (value_array_write a v)
      × (contents (value_array_write a v) ≡ contents a ++ v ∷ [])
      × ((value_array_write a v).count ≡ a.count + 1)
unfolding value_array_write
value_array_write-appends a v h =
    if_lem (λ g. Appended a v (put_value g v)) (ltb a.capacity (a.count + 1))
      (λ full.
        let (array, room, same) = grow_values-IsArray a h (ground arith) in
        let (is, tail, count) = put_value-Appended (grow_values a) v array room in
        (is, tail ∙ ap (λ l. l ++ v ∷ []) same, count))
      λ room. put_value-Appended a v h (ground (arith, h.inside))

-- The index that `jml_bytecode_add_const` returns is that of the constant, and the constants before it stay.
pub bytecode_add_const-get :
    (b : Chunk) (v : Value)
    → IsArray b.constants
    → (get_elem? (contents (bytecode_add_const b v).1.constants) (bytecode_add_const b v).0
        ≡ some v)
      × (contents (bytecode_add_const b v).1.constants ≡ contents b.constants ++ v ∷ [])
      × IsArray (bytecode_add_const b v).1.constants
unfolding bytecode_add_const
bytecode_add_const-get b v h =
    let (is, tail, count) = value_array_write-appends b.constants v h in
    let old : length (contents b.constants) ≡ b.constants.count =
      length-take b.constants.count b.constants.values ∙ omega (arith, h.inside, h.cells) in
    let index : (value_array_write b.constants v).count - 1 ≡ length (contents b.constants) =
      omega (arith, count) in
    (rw (tail, index) (get-append-end (contents b.constants) v), tail, is)

-- A bytecode whose arrays have `capacity` cells each, which are less than 2^30.
pub record IsChunk (b : Chunk) : Type 0 where
  pub inside : b.count ≤ b.capacity
  pub code_cells : length b.code ≡ b.capacity
  pub line_cells : length b.lines ≡ b.capacity
  pub constants : IsArray b.constants

abbrev pub opcodes_of : Chunk → List ℕ
opcodes_of b = take b.count b.code

abbrev pub lines_of : Chunk → List ℕ
lines_of b = take b.count b.lines

abbrev Extended : Chunk → ℕ → ℕ → Chunk → Type 0
Extended b byte line b' =
    IsChunk b'
    × (opcodes_of b' ≡ opcodes_of b ++ byte ∷ [])
    × (lines_of b' ≡ lines_of b ++ line ∷ [])

put_code-Extended :
    (b : Chunk) (byte line : ℕ)
    → IsChunk b
    → b.count < b.capacity
    → b.capacity < 2 ^ 32
    → byte < 2 ^ 8
    → line < 2 ^ 16
    → Extended b byte line (put_code b byte line)
put_code-Extended b byte line h room small hb hl =
    let count : u32 (b.count + 1) ≡ b.count + 1 = omega arith in
    let byte' : byte % 2 ^ 8 ≡ byte = omega arith in
    let line' : line % 2 ^ 16 ≡ line = omega arith in
    (
      record {
        inside = omega arith;
        code_cells = length-set b.code b.count _ ∙ h.code_cells;
        line_cells = length-set b.lines b.count _ ∙ h.line_cells;
        constants = h.constants;
      },
      rw (count, byte') (take-set b.count b.code byte (omega (arith, h.code_cells))),
      rw (count, line') (take-set b.count b.lines line (omega (arith, h.line_cells))),
    )

grow_code-IsChunk :
    (b : Chunk)
    → IsChunk b
    → b.capacity < b.count + 1
    → b.capacity < 2 ^ 30
    → IsChunk (grow_code b)
      × (b.count < (grow_code b).capacity)
      × ((grow_code b).capacity < 2 ^ 32)
      × (opcodes_of (grow_code b) ≡ opcodes_of b)
      × (lines_of (grow_code b) ≡ lines_of b)
unfolding grow_capacity
grow_code-IsChunk b h full small =
    let wide : b.capacity < u32 (grow_capacity b.capacity) = ground arith in
    (
      record {
        inside = omega (arith, h.inside);
        code_cells = length-grow_array 0 b.code _ (omega (arith, h.code_cells));
        line_cells = length-grow_array 0 b.lines _ (omega (arith, h.line_cells));
        constants = h.constants;
      },
      omega (arith, h.inside),
      omega arith,
      take-append b.count b.code _ (omega (arith, h.code_cells, h.inside)),
      take-append b.count b.lines _ (omega (arith, h.line_cells, h.inside)),
    )

-- `jml_bytecode_write` leaves a well-formed bytecode, whose opcodes and lines are those before and the new ones, up
-- to 2^30 cells.
pub bytecode_write-appends :
    (b : Chunk) (byte line : ℕ)
    → IsChunk b
    → b.capacity < 2 ^ 30
    → byte < 2 ^ 8
    → line < 2 ^ 16
    → IsChunk (bytecode_write b byte line)
      × (opcodes_of (bytecode_write b byte line) ≡ opcodes_of b ++ byte ∷ [])
      × (lines_of (bytecode_write b byte line) ≡ lines_of b ++ line ∷ [])
unfolding bytecode_write
bytecode_write-appends b byte line h small hb hl =
    if_lem (λ g. Extended b byte line (put_code g byte line)) (ltb b.capacity (u32 (b.count + 1)))
      (λ full.
        let (chunk, room, fits, same, same') =
          grow_code-IsChunk b h (ground (arith, h.inside)) small in
        let (is, tail, tail') = put_code-Extended (grow_code b) byte line chunk room fits hb hl in
        (is, tail ∙ ap (λ l. l ++ byte ∷ []) same, tail' ∙ ap (λ l. l ++ line ∷ []) same'))
      λ room. put_code-Extended b byte line h (ground (arith, h.inside)) (omega arith) hb hl
