-- ===== src/Auth/Proofs.antt =====
-- The theorems about credentials.
pub mod Sas
pub mod Lines
pub mod Compare
pub mod SharedKey
pub mod Bearer
pub mod Cache
