-- ===== src/Transfer/Ownership.antt =====
-- What statements and calls do to the ownership of pointers (crates/san/src/analysis/transfer.rs).
pub mod Moves
pub mod Stale
pub mod Lifecycle
pub mod Guards
