-- ===== src/Api.antt =====
-- crates/blobstore-api: the HTTP surface.
pub mod Http
pub mod State
pub mod Query
pub mod Helpers
pub mod ErrorResponse
pub mod Auth
pub mod Middleware
pub mod AccountResolve
pub mod Handlers
pub mod Router
pub mod Proofs
