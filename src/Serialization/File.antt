-- ===== src/Serialization/File.antt =====
-- src/jml_serialization.c: the two functions on files, by the bytes of the file; a file opens, and all of it is read
-- or written.
use jml.Base.{
  ℕ, ◌+◌, ◌-◌, Bool, ◌&&◌, List, [], ◌∷◌, ◌++◌, Option, some, none, length, take, drop, replicate,
  codes, ltb, ◌==◌, if◌then◌else◌, ◌>>=◌,
}
use jml.Lexer.Identifier.{mem_eq}
use jml.Serialization.Memory.{Memory}
use jml.Serialization.Encode.{Bytecode, serialize_bytecode}
use jml.Serialization.Decode.{deserialize_bytecode}

-- `JML_SHEBANG`
abbrev pub shebang : List ℕ
shebang = codes "#!/usr/bin/env -S jml -b\n"

-- `JML_MAGIC` and the version
abbrev pub magic : List ℕ
magic = b'j' ∷ b'm' ∷ b'l' ∷ 0 ∷ 1 ∷ 0 ∷ []

abbrev pub header : List ℕ
header = shebang ++ magic

-- The buffer of `SERIAL_MIN` bytes behind the two calls of `snprintf`, which store a NUL behind the header.
abbrev pub first_buffer : Memory
first_buffer = record { bytes = header ++ replicate (512 - length header) 0; moves = 0 }

-- The bytes that `fwrite` takes from the pointer of this function: `none` if the buffer has moved.
unfoldable pub serialize_bytecode_file : Bool → Bytecode → Option (List ℕ)
serialize_bytecode_file moving b =
    serialize_bytecode moving b 0 first_buffer (length header) >>= λ r.
    if r.1.moves == 0 then some (take (length header + r.0) r.1.bytes) else none

unfoldable pub deserialize_bytecode_file : List ℕ → Option Bytecode
deserialize_bytecode_file serial =
    let size = length serial in
    let pos =
      if ltb (length shebang) size && mem_eq (length shebang) serial shebang
      then length shebang
      else 0 in
    if ltb (length magic) (size - pos) && mem_eq (length magic) (drop pos serial) magic
    then (deserialize_bytecode serial (pos + length magic) >>= λ r. some r.0)
    else none
