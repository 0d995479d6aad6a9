-- ===== src/Core.antt =====
-- crates/blobstore-core: domain types and the error catalog.
pub mod Error
pub mod Model
pub mod Time
