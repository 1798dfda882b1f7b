-- ===== src/Domain/Policy.antt =====
-- packages/domain/src/policy.ts: roles, capabilities and commands, and how decisions combine.
pub mod Authorize
pub mod Combine
