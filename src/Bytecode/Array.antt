-- ===== src/Bytecode/Array.antt =====
-- src/jml_value.c: `jml_value_array_t`, and src/jml_bytecode.c: the arrays of a bytecode, which grow alike.
use jml.Base.{
  ℕ, ◌+◌, ◌-◌, ◌^◌, ◌%◌, List, [], ◌++◌, length, set, replicate, u32, ltb, if◌then◌else◌,
}
use jml.Value.{Value, none_val}
use jml.HashMap.Table.{grow_capacity}

-- The cells of `values` are `capacity` many; those from `count` on are indeterminate in C, and hold what is
-- written here. Both counts are an `int`, which C does not let overflow.
pub record ValueArray : Type 0 where
  pub capacity : ℕ
  pub count : ℕ
  pub values : List Value

unfoldable pub value_array_init : ValueArray
value_array_init = record { capacity = 0; count = 0; values = [] }

-- `GROW_ARRAY`: `jml_reallocate` to `new_count` cells; the old ones stay.
abbrev pub grow_array {ℓ} : {A : Type ℓ} → List A → ℕ → A → List A
grow_array cells new_count fill = cells ++ replicate (new_count - length cells) fill

-- The growth of `jml_value_array_write`, for an array that is full.
abbrev pub grow_values : ValueArray → ValueArray
grow_values array =
    let capacity = grow_capacity array.count in
    record {
      capacity = capacity;
      count = array.count;
      values = grow_array array.values capacity none_val;
    }

-- `values[count++] = value`
abbrev pub put_value : ValueArray → Value → ValueArray
put_value array value = record array {
  values = set array.values array.count value;
  count = array.count + 1;
}

unfoldable pub value_array_write : ValueArray → Value → ValueArray
value_array_write array value =
    put_value (if ltb array.capacity (array.count + 1) then grow_values array else array) value

unfoldable pub value_array_free : ValueArray → ValueArray
value_array_free array = value_array_init

pub record Chunk : Type 0 where
  pub count : ℕ
  pub capacity : ℕ
  pub code : List ℕ
  pub lines : List ℕ
  pub constants : ValueArray

unfoldable pub bytecode_init : Chunk
bytecode_init = record {
  count = 0;
  capacity = 0;
  code = [];
  lines = [];
  constants = value_array_init;
}

-- The growth of `jml_bytecode_write`, for a bytecode that is full.
abbrev pub grow_code : Chunk → Chunk
grow_code b =
    let capacity = u32 (grow_capacity b.capacity) in
    record b {
      capacity = capacity;
      code = grow_array b.code capacity 0;
      lines = grow_array b.lines capacity 0;
    }

-- Its three last statements; the cells are a `uint8_t` and a `uint16_t`.
abbrev pub put_code : Chunk → ℕ → ℕ → Chunk
put_code b byte line = record b {
  code = set b.code b.count (byte % 2 ^ 8);
  lines = set b.lines b.count (line % 2 ^ 16);
  count = u32 (b.count + 1);
}

unfoldable pub bytecode_write : Chunk → ℕ → ℕ → Chunk
bytecode_write b byte line =
    put_code (if ltb b.capacity (u32 (b.count + 1)) then grow_code b else b) byte line

unfoldable pub bytecode_free : Chunk → Chunk
bytecode_free b = bytecode_init

-- The index of the constant, and the bytecode; that the value is kept from the collector meanwhile is left out.
unfoldable pub bytecode_add_const : Chunk → Value → ℕ × Chunk
bytecode_add_const b value =
    let constants = value_array_write b.constants value in
    (constants.count - 1, record b { constants = constants })
