-- ===== src/Store.antt =====
-- packages/store-sqlite: the restore of a backup, which a crash may stop between any two writes.
pub mod Program
pub mod Outcomes
pub mod Places
pub mod Locations
pub mod Restore
pub mod Replacement
pub mod Removal
pub mod Recovery
pub mod Forward
pub mod Recovered
pub mod Writes
pub mod Replaced
pub mod Contained
pub mod Retained
pub mod Atomic
pub mod Restored
pub mod Reboots
pub mod Uninterrupted
