-- ===== src/Serialization/Encode.antt =====
-- src/jml_serialization.c: the serialisers. Each returns the number of bytes that it wrote.
use jml.Base.{
  ℕ, ◌+◌, ◌*◌, ◌/◌, ◌%◌, ◌^◌, Bool, List, [], ◌∷◌, Option, some, length, take, u32, if◌then◌else◌,
  ◌>>=◌,
}
use jml.Serialization.Memory.{Memory, realloc, write}

-- A constant of a bytecode, its strings by their characters. A number is the bit pattern of its double.
pub data Constant : Type 0 where
  none_val : Constant
  bool_val : Bool → Constant
  num_val : ℕ → Constant
  string_obj : List ℕ → Constant
  other_obj : Constant

pub record Bytecode : Type 0 where
  pub code : List ℕ
  pub lines : List ℕ
  pub constants : List Constant

-- `(num >> shift) & 0xff`, with `shift` in bits
abbrev pub byte_of : ℕ → ℕ → ℕ
byte_of num shift = num / 2 ^ shift % 256

abbrev pub short_bytes : ℕ → List ℕ
short_bytes num = byte_of num 8 ∷ byte_of num 0 ∷ []

abbrev pub long_bytes : ℕ → List ℕ
long_bytes num = byte_of num 24 ∷ byte_of num 16 ∷ byte_of num 8 ∷ byte_of num 0 ∷ []

abbrev pub longlong_bytes : ℕ → List ℕ
longlong_bytes num =
    byte_of num 56
    ∷ byte_of num 48
    ∷ byte_of num 40
    ∷ byte_of num 32
    ∷ byte_of num 24
    ∷ byte_of num 16
    ∷ byte_of num 8
    ∷ byte_of num 0
    ∷ []

-- `memcpy` of the `uint16_t` array on a little-endian host
unfoldable pub line_bytes : List ℕ → List ℕ
line_bytes [] = []
line_bytes (l ∷ ls) = byte_of l 0 ∷ byte_of l 8 ∷ line_bytes ls

-- Room for `room` more bytes at `pos`, then the stores of `bs` there.
unfoldable pub emit : Bool → ℕ → Memory → ℕ → ℕ → List ℕ → Option (ℕ × Memory)
emit moving pointer m pos room bs =
    realloc moving pointer m (pos + room) >>= λ r. write r.0 r.1 pos bs >>= λ m'. some (r.0, m')

module _ (moving : Bool) where
  -- Every serialiser takes the caller's pointer, and gives back the count and the allocation.
  unfoldable pub serialize_short : ℕ → ℕ → Memory → ℕ → Option (ℕ × Memory)
  serialize_short num pointer m pos =
      emit moving pointer m pos 2 (short_bytes num) >>= λ r. some (2, r.1)

  unfoldable pub serialize_long : ℕ → ℕ → Memory → ℕ → Option (ℕ × Memory)
  serialize_long num pointer m pos =
      emit moving pointer m pos 4 (long_bytes num) >>= λ r. some (4, r.1)

  unfoldable pub serialize_longlong : ℕ → ℕ → Memory → ℕ → Option (ℕ × Memory)
  serialize_longlong num pointer m pos =
      emit moving pointer m pos 8 (longlong_bytes num) >>= λ r. some (8, r.1)

  -- the double's bit pattern
  unfoldable pub serialize_double : ℕ → ℕ → Memory → ℕ → Option (ℕ × Memory)
  serialize_double bits pointer m pos = serialize_longlong bits pointer m pos

  unfoldable pub serialize_string : List ℕ → ℕ → Memory → ℕ → Option (ℕ × Memory)
  serialize_string chars pointer m pos = serialize_long (u32 (length chars)) pointer m pos >>= λ a.
      emit moving pointer a.1 (pos + a.0) (length chars + 1) chars >>= λ r.
      some (a.0 + length chars, r.1)

  -- `snprintf` of one or two characters stores a NUL behind them.
  unfoldable pub serialize_obj : Constant → ℕ → Memory → ℕ → Option (ℕ × Memory)
  serialize_obj (string_obj chars) pointer m pos =
      emit moving pointer m pos 2 (b'O' ∷ b'S' ∷ 0 ∷ []) >>= λ r.
      serialize_string chars r.0 r.1 (pos + 2) >>= λ a. some (2 + a.0, a.1)
  serialize_obj _ pointer m pos = some (0, m)

  unfoldable pub serialize_value : Constant → ℕ → Memory → ℕ → Option (ℕ × Memory)
  unfolding serialize_obj
  serialize_value (num_val bits) pointer m pos =
      emit moving pointer m pos 1 (b'N' ∷ 0 ∷ []) >>= λ r.
      serialize_double bits r.0 r.1 (pos + 1) >>= λ a. some (1 + a.0, a.1)
  serialize_value (bool_val b) pointer m pos =
      emit moving pointer m pos 1 ((if b then b'<' else b'>') ∷ 0 ∷ []) >>= λ r. some (1, r.1)
  serialize_value none_val pointer m pos =
      emit moving pointer m pos 1 (b'|' ∷ 0 ∷ []) >>= λ r. some (1, r.1)
  serialize_value object pointer m pos = serialize_obj object pointer m pos

  -- The last loop of `jml_serialize_bytecode`.
  unfoldable pub serialize_values : List Constant → ℕ → Memory → ℕ → Option (ℕ × Memory)
  serialize_values [] pointer m pos = some (0, m)
  serialize_values (v ∷ vs) pointer m pos = serialize_value v pointer m pos >>= λ a.
      serialize_values vs pointer a.1 (pos + a.0) >>= λ b. some (a.0 + b.0, b.1)

  -- The two `REALLOC`s here do change the pointer that later steps use.
  unfoldable pub serialize_bytecode : Bytecode → ℕ → Memory → ℕ → Option (ℕ × Memory)
  serialize_bytecode b pointer m pos =
      let count = length b.code in
      let span = u32 (count * 2) in
      serialize_long (u32 (length b.constants)) pointer m pos >>= λ h.
      let at_long = pos + h.0 in
      serialize_long (u32 (count * 3)) pointer h.1 at_long >>= λ k.
      let at_code = at_long + k.0 in
      emit moving pointer k.1 at_code count b.code >>= λ c.
      let at_lines = at_code + count in
      emit moving c.0 c.1 at_lines span (take span (line_bytes b.lines)) >>= λ l.
      let at_values = at_lines + span in
      serialize_values b.constants l.0 l.1 at_values >>= λ v.
      some (h.0 + (k.0 + count) + (span + v.0), v.1)
