-- ===== src/Tests.antt =====
-- Runs on concrete bodies and states.
mod Engine
mod Branches
mod Owners
mod Calls
mod Reports
mod Summaries
mod Statements
mod Transfers
mod Bodies
mod Preconds
mod Crates
