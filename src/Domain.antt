-- ===== src/Domain.antt =====
-- packages/domain: the pure rules of the system, one module for each part.
pub mod Canonical
pub mod Delta
pub mod Events
pub mod Forks
pub mod Policy
pub mod Receipts
pub mod Workspace
pub mod Tasks
