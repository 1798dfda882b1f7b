-- ===== src/Orchestrator.antt =====
-- packages/orchestrator: what the authority does with the rules of packages/domain.
pub mod Forks
pub mod Receipts
