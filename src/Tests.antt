-- ===== src/Tests.antt =====
-- Tests, and the examples at which the theorems are applied.
pub mod Sample
pub mod SampleServer
mod Runs
mod Storage
mod StorageExamples
mod OverwriteExamples
mod CoreExamples
mod ApiExamples
mod CredentialExamples
mod ServerExamples
mod FormatExamples
mod DiskExamples
mod ListingExamples
mod StartupExamples
