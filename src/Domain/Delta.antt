-- ===== src/Domain/Delta.antt =====
-- packages/domain/src/delta.ts: pointers, authority scopes and the application of a delta.
pub mod Pointer
pub mod Scope
pub mod Document
pub mod Apply
