-- ===== src/Core.antt =====
-- The crate summ-core: text, digests, instants and the key schema shared by every layer.
pub mod Utf8
pub mod Digest
pub mod Timestamp
pub mod Keys
pub mod Types
pub mod Buckets
pub mod Tests
