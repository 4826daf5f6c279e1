-- ===== src/State/Locals.antt =====
-- The identifiers that the states speak of (rustc's `Local`, `BasicBlock` and `DefId`).
use san.Base.{ℕ}

abbrev pub Local : Type 0
Local = ℕ

abbrev pub BasicBlock : Type 0
BasicBlock = ℕ

abbrev pub DefId : Type 0
DefId = ℕ
