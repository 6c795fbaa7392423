-- ===== src/Serialization/Tests.antt =====
-- src/jml_serialization.c: a bytecode of two opcodes and three constants.
use jml.Serialization.File.{serialize_bytecode_file}
use jml.Serialization.Memory.{realloc, resize, grow_size, write, overwrite}
use jml.Serialization.Encode.{
  serialize_long, serialize_values, serialize_value, serialize_obj, serialize_string, emit,
}
use jml.Base.{
  none, ℕ, ◌+◌, ◌≡◌, refl, inl, true, false, List, [], ◌∷◌, length, replicate, codes, arith,
}
use jml.Serialization.Memory.{Memory}
use jml.Serialization.Encode.{
  bool_val, num_val, string_obj, Bytecode, line_bytes, serialize_bytecode,
}
use jml.Serialization.Writers.{Puts, Ready}
use jml.Serialization.Layout.{bytecode_encoding, serialize_bytecode-Puts}

abbrev small_bytecode : Bytecode
small_bytecode = record {
  code = 5 ∷ 42 ∷ [];
  lines = 1 ∷ 300 ∷ [];
  constants = num_val 77 ∷ string_obj (codes "ab") ∷ bool_val true ∷ [];
}

abbrev buffer : Memory
buffer = record { bytes = replicate 8 0; moves = 0 }

buffer-Ready : Ready false buffer 2 (length (bytecode_encoding small_bytecode) + 1)
unfolding line_bytes
buffer-Ready = record { two = omega arith; used = omega arith; stays = inl refl }

serialize_bytecode-Puts_example :
    Puts buffer 2
      (bytecode_encoding small_bytecode)
      (serialize_bytecode false small_bytecode 0 buffer 2)
serialize_bytecode-Puts_example =
    serialize_bytecode-Puts false small_bytecode buffer 2 refl (omega arith) buffer-Ready

abbrev some_bytes : List ℕ
some_bytes = b'x' ∷ b'O' ∷ b'S' ∷ 0 ∷ 0 ∷ 0 ∷ 2 ∷ b'a' ∷ b'b' ∷ []

abbrev large_bytecode : Bytecode
large_bytecode = record { code = []; lines = []; constants = string_obj (replicate 600 b'a') ∷ [] }

-- Where `realloc` moves the block, the file of a larger bytecode is written from the old block.
moved_buffer : serialize_bytecode_file true large_bytecode ≡ none
unfolding serialize_bytecode_file serialize_bytecode serialize_long serialize_values serialize_value
    serialize_obj serialize_string emit realloc resize grow_size write overwrite line_bytes
moved_buffer = refl
