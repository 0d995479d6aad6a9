-- ===== src/Api/Handlers.antt =====
-- crates/blobstore-api/src/handlers: the operations of the HTTP surface.
pub mod Common
pub mod Account
pub mod Containers
pub mod Blobs
pub mod BlobReads
