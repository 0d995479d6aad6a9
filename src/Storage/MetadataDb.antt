-- ===== src/Storage/MetadataDb.antt =====
-- crates/blobstore-storage/src/metadata_db.rs: `MetadataDb`. Each method is an action of `Exec`
-- over the world that holds the database.
pub mod Rows
pub mod Statements
pub mod Accounts
pub mod Containers
pub mod Blobs
pub mod Blocks
pub mod Listing
