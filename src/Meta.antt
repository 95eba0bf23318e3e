-- ===== src/Meta.antt =====
-- The crate summ-meta: the metadata engine's boundary, its redb implementation, the interner.
pub mod Engine
pub mod Batch
pub mod Redb
pub mod Scans
pub mod Interner
pub mod Version
pub mod Tests
