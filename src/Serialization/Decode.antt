-- ===== src/Serialization/Decode.antt =====
-- src/jml_serialization.c: the deserialisers. Each reads at `pos` and gives the value and the position behind
-- it, or `none` for `false`; what it stores through its pointers before a failure is not kept.
use jml.Base.{
  ℕ, zero, suc, ◌+◌, ◌*◌, ◌/◌, ◌%◌, ◌^◌, true, false, List, [], ◌∷◌, ◌++◌, Option, some, none,
  length, get_or, u32, ltb, leb, ◌==◌, if◌then◌else◌, ◌>>=◌,
}
use jml.Serialization.Encode.{Constant, none_val, bool_val, num_val, string_obj, Bytecode}

-- `serial[i]`
abbrev pub byte_at : List ℕ → ℕ → ℕ
byte_at serial i = get_or serial i 0

-- `memcpy` of `n` bytes from `pos` on
unfoldable pub copied : List ℕ → ℕ → ℕ → List ℕ
copied serial pos zero = []
copied serial pos (suc n) = byte_at serial pos ∷ copied serial (pos + 1) n

unfoldable pub deserialize_short : List ℕ → ℕ → Option (ℕ × ℕ)
deserialize_short serial pos =
    if ltb (length serial) (pos + 2)
    then none
    else some ((byte_at serial pos * 2 ^ 8 + byte_at serial (pos + 1)) % 2 ^ 16, pos + 2)

unfoldable pub deserialize_long : List ℕ → ℕ → Option (ℕ × ℕ)
deserialize_long serial pos =
    if ltb (length serial) (pos + 4)
    then none
    else some (
      u32 (
          byte_at serial pos * 2 ^ 24
          + byte_at serial (pos + 1) * 2 ^ 16
          + byte_at serial (pos + 2) * 2 ^ 8
          + byte_at serial (pos + 3)),
      pos + 4,
    )

unfoldable pub deserialize_longlong : List ℕ → ℕ → Option (ℕ × ℕ)
deserialize_longlong serial pos =
    if ltb (length serial) (pos + 8)
    then none
    else some (
      (byte_at serial pos * 2 ^ 56
            + byte_at serial (pos + 1) * 2 ^ 48
            + byte_at serial (pos + 2) * 2 ^ 40
            + byte_at serial (pos + 3) * 2 ^ 32
            + byte_at serial (pos + 4) * 2 ^ 24
            + byte_at serial (pos + 5) * 2 ^ 16
            + byte_at serial (pos + 6) * 2 ^ 8
            + byte_at serial (pos + 7))
          % 2 ^ 64,
      pos + 8,
    )

-- the double's bit pattern
unfoldable pub deserialize_double : List ℕ → ℕ → Option (ℕ × ℕ)
deserialize_double serial pos = deserialize_longlong serial pos

unfoldable pub deserialize_string : List ℕ → ℕ → Option (List ℕ × ℕ)
deserialize_string serial pos = deserialize_long serial pos >>= λ r.
    if ltb (length serial) (r.1 + r.0) then none else some (copied serial r.1 r.0, r.1 + r.0)

unfoldable pub deserialize_obj : List ℕ → ℕ → Option (Constant × ℕ)
deserialize_obj serial pos =
    if leb (length serial) pos
    then none
    else (if byte_at serial pos == b'S'
        then (deserialize_string serial (pos + 1) >>= λ r. some (string_obj r.0, r.1))
        else none)

unfoldable pub deserialize_value : List ℕ → ℕ → Option (Constant × ℕ)
deserialize_value serial pos =
    if leb (length serial) pos
    then none
    else (let byte = byte_at serial pos in
        if byte == b'N'
        then (deserialize_double serial (pos + 1) >>= λ r. some (num_val r.0, r.1))
        else if byte == b'O'
        then deserialize_obj serial (pos + 1)
        else if byte == b'|'
        then some (none_val, pos + 1)
        else if byte == b'<'
        then some (bool_val true, pos + 1)
        else if byte == b'>'
        then some (bool_val false, pos + 1)
        else none)

-- `jml_bytecode_write`, without the capacity
abbrev pub written : Bytecode → ℕ → ℕ → Bytecode
written b byte line = record b { code = b.code ++ byte ∷ []; lines = b.lines ++ line ∷ [] }

-- The loop over the opcodes and lines, `n` of them left from the `i`th on; a line is a `memcpy` on a
-- little-endian host.
unfoldable pub read_opcodes : List ℕ → ℕ → ℕ → ℕ → ℕ → Bytecode → Bytecode
read_opcodes serial pos count zero i b = b
read_opcodes serial pos count (suc n) i b =
    let at_line = pos + count + i * 2 in
    let line = byte_at serial at_line + byte_at serial (at_line + 1) * 2 ^ 8 in
    read_opcodes serial pos count n (i + 1) (written b (byte_at serial (pos + i)) line)

-- The loop over the constants, `n` of them left.
unfoldable pub read_values : List ℕ → ℕ → ℕ → List Constant → Option (List Constant × ℕ)
read_values serial zero pos vs = some (vs, pos)
read_values serial (suc n) pos vs =
    deserialize_value serial pos >>= λ r. read_values serial n r.1 (vs ++ r.0 ∷ [])

unfoldable pub deserialize_bytecode : List ℕ → ℕ → Option (Bytecode × ℕ)
deserialize_bytecode serial pos = deserialize_long serial pos >>= λ c.
    deserialize_long serial c.1 >>= λ o.
    let count = o.0 / 3 in
    if ltb (length serial) (o.0 + o.1)
    then none
    else (let empty : Bytecode = record { code = []; lines = []; constants = [] } in
        let b = read_opcodes serial o.1 count count 0 empty in
        read_values serial c.0 (o.1 + o.0) [] >>= λ r. some (record b { constants = r.0 }, r.1))
