-- ===== src/Utf8.antt =====
-- src/jml_string.c: UTF-8.
pub mod Codec
pub mod Decoding
pub mod Characters
pub mod Tests
