-- ===== src/Core.antt =====
-- src/jml_core.c: the functions of the core module.
pub mod Format
pub mod Braces
pub mod Loop
pub mod Nul
pub mod Formatted
pub mod Tests
