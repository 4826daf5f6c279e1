-- ===== src/Transfer/Sound.antt =====
-- What the facts recorded at an assignment say of the memory after it (`apply_statement` of
-- crates/san/src/analysis/transfer.rs).
pub mod Meaning
pub mod Record
pub mod Clear
pub mod Moves
pub mod Compare
pub mod Arith
pub mod Casts
pub mod Operations
pub mod Ranges
pub mod Limits
