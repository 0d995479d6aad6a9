-- ===== src/Api/Proofs.antt =====
-- The theorems about the HTTP surface.
pub mod Access
pub mod Accounts
pub mod Contract
pub mod Handlers
pub mod Admission
pub mod Anonymous
pub mod Layers
pub mod Ranges
pub mod Responses
pub mod SharedKey
pub mod Serving
