-- ===== src/Serialization.antt =====
-- src/jml_serialization.c: bytecode to bytes and back.
pub mod Memory
pub mod Encode
pub mod Decode
pub mod Written
pub mod Writers
pub mod Layout
pub mod Holds
pub mod RoundTrip
pub mod Restore
pub mod File
pub mod Tests
