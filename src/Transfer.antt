-- ===== src/Transfer.antt =====
-- The effect of a statement and of a terminator on the state of a block: `apply_statement`,
-- `apply_terminator` and their handlers (crates/san/src/analysis/transfer.rs).
pub mod Clear
pub mod Owners
pub mod Store
pub mod Moves
pub mod Reads
pub mod Binary
pub mod Arith
pub mod Statement
pub mod Handlers
pub mod Calls
pub mod Known
pub mod Terminator
pub mod Replay
pub mod Locations
pub mod Ownership
pub mod Sound
