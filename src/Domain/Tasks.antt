-- ===== src/Domain/Tasks.antt =====
-- packages/domain/src/tasks.ts: task lifecycle, dependencies, dispatch and retries.
pub mod Types
pub mod Lifecycle
pub mod Dispatch
pub mod Retry
pub mod Resolution
pub mod Dependencies
pub mod Acyclic
