-- ===== src/Registry.antt =====
-- The crate summ-registry over the metadata engine: references, tags, manifests, their deletion and purge,
-- upload sessions, referrers and histories.
pub mod Outcome
pub mod Reference
pub mod Cosign
pub mod Suffix
pub mod Tags
pub mod Records
pub mod Manifest
pub mod Blobs
pub mod Push
pub mod Drain
pub mod Delete
pub mod Uploads
pub mod Referrers
pub mod History
pub mod Purge
pub mod Frame
pub mod Formats
pub mod Tests
mod Runs
mod Purged
