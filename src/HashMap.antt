-- ===== src/HashMap.antt =====
-- src/jml_value.c: the hash map, open addressing with linear probing and tombstones. Its keys are
-- addresses of interned strings.
pub mod Table
pub mod Mask
pub mod Places
pub mod Probe
pub mod Lookup
pub mod Placed
pub mod Writes
pub mod Entries
pub mod Laws
pub mod Grow
pub mod Methods
pub mod Bulk
pub mod White
pub mod Iterator
pub mod Content
pub mod Tests
