-- ===== src/Bytecode.antt =====
-- include/jml/jml_bytecode.h and src/jml_bytecode.c: opcodes, the arrays of a bytecode, and its walks.
pub mod Opcode
pub mod Offset
pub mod Disassemble
pub mod Agree
pub mod Walk
pub mod Array
pub mod Arrays
pub mod Tests
