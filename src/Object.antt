-- ===== src/Object.antt =====
-- src/jml_type.c: the objects.
pub mod Intern
pub mod Interned
pub mod Array
pub mod Arrays
pub mod Joined
pub mod Tests
