-- ===== src/Gc.antt =====
-- src/jml_gc.c: the marking and sweeping of the collector.
pub mod Heap
pub mod Mark
pub mod Collect
pub mod Refs
pub mod Marked
pub mod Reached
pub mod Swept
pub mod Tests
