-- ===== src/Engine.antt =====
-- packages/policy: policy documents, and what they decide about a proposal.
pub mod Order
pub mod Rules
pub mod Evaluator
pub mod Strictest
pub mod Inputs
pub mod Admission
pub mod Accepted
pub mod Execution
pub mod Lifecycle
pub mod References
