-- ===== src/Pipeline/Composed.antt =====
-- internal/pipeline/pipeline.go: guard on the answers of the packages that it asks (Handler), so that
-- the theorems about those packages are about guard.
pub mod Sample
pub mod Lists
pub mod Payload
pub mod Clients
mod Tests
