-- ===== src/Compiler.antt =====
-- src/jml_compiler.c: the compiler's emission of bytecode, its scopes, variables and loops.
pub mod Emit
pub mod Code
pub mod Jumps
pub mod Operands
pub mod Scope
pub mod Scopes
pub mod Locals
pub mod Upvalue
pub mod Capturing
pub mod Captures
pub mod Logic
pub mod Loop
pub mod Breaks
pub mod Steps
pub mod Around
pub mod Whiles
pub mod Flow
pub mod Branches
pub mod Tests
