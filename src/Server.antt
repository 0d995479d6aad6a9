-- ===== src/Server.antt =====
-- crates/blobstore-server/src: the configuration, and what the process does before it listens.
pub mod Config
pub mod Startup
pub mod Proofs
