-- ===== src/Cli.antt =====
-- apps/cli: the command line.
pub mod Parser
pub mod Printing
pub mod Coordinator
pub mod Registry
pub mod Runtime
pub mod Executed
pub mod Fields
pub mod Calls
