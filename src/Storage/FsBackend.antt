-- ===== src/Storage/FsBackend.antt =====
-- crates/blobstore-storage/src/fs_backend.rs: `FsBackend`, the storage backend over files and the
-- metadata store.
pub mod Common
pub mod Containers
pub mod Blobs
pub mod Blocks
