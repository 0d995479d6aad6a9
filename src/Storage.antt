-- ===== src/Storage.antt =====
-- crates/blobstore-storage
pub mod Externals
pub mod Db
pub mod Exec
pub mod Types
pub mod PathLayout
pub mod FsIo
pub mod MetadataDb
pub mod FsBackend
pub mod Proofs
pub mod Backend
