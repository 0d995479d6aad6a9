-- ===== src/Storage/Proofs.antt =====
-- What the storage backend guarantees.
pub mod Calm
pub mod Disk
pub mod Publishing
pub mod Atomicity
pub mod AtomicParts
pub mod Rows
pub mod RoundTrip
pub mod Keeps
pub mod Placed
pub mod Guards
pub mod FsKeeps
pub mod MetadataIntegrity
pub mod Integrity
pub mod Overwrite
pub mod Outcomes
pub mod Paging
pub mod Deletion
pub mod Assembly
