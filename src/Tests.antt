-- ===== src/Tests.antt =====
-- Runs at concrete inputs: each main theorem at an input that meets its hypotheses, and tests.
mod Tasks
mod Dispatches
mod Decisions
mod Deltas
mod Forks
mod Authorizations
mod Receipts
mod Workspaces
mod Replays
mod Registries
mod Consents
mod Frames
mod Policies
mod Approvals
mod References
mod Restores
mod Journals
mod CommandLines
mod Commands
