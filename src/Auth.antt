-- ===== src/Auth.antt =====
-- crates/blobstore-auth: the credentials of a request.
pub mod Types
pub mod Externals
pub mod Sas
pub mod SharedKey
pub mod Bearer
pub mod Proofs
