-- ===== src/Mir.antt =====
-- The parts of rustc's MIR that the analysis reads (rustc_middle::mir, a library of the compiler):
-- the shapes that the source matches on, with one constructor for each that it tells apart.
use san.Base.{ℕ, List, [], ◌∷◌, ◌++◌, Option, Bool}
use san.Base.Texts.{Text}
use san.State.Locals.{Local, BasicBlock, DefId}

pub data ProjectionElem : Type 0 where
  deref : ProjectionElem
  field : ℕ → ProjectionElem
  index downcast other_elem : ProjectionElem

pub record Place : Type 0 where
  pub local : Local
  pub projection : List ProjectionElem

-- `scalar` is what `try_to_scalar_int` and the conversion to `u64` give, `fn_def` what
-- `const_fn_def` gives.
pub record Constant : Type 0 where
  pub scalar : Option ℕ
  pub fn_def : Option DefId

pub data Operand : Type 0 where
  copy move : Place → Operand
  constant : Constant → Operand

pub data UnwindAction : Type 0 where
  cleanup : BasicBlock → UnwindAction
  no_cleanup : UnwindAction

-- The values of a `SwitchInt` with their targets, and the target of all others.
pub record SwitchTargets : Type 0 where
  pub values : List (ℕ × BasicBlock)
  pub otherwise : BasicBlock

abbrev pub targets_of : List (ℕ × BasicBlock) → List BasicBlock
targets_of [] = []
targets_of ((v, t) ∷ rest) = t ∷ targets_of rest

-- `SwitchTargets::all_targets`: the target of all others stands last.
abbrev pub all_targets : SwitchTargets → List BasicBlock
all_targets s = targets_of s.values ++ s.otherwise ∷ []

pub data TerminatorKind : Type 0 where
  goto : BasicBlock → TerminatorKind
  switch_int : Operand → SwitchTargets → TerminatorKind
  return unreachable coroutine_drop tail_call unwind_resume unwind_terminate : TerminatorKind
  call :
      (func : Operand) (args : List Operand) (destination : Place) (target : Option BasicBlock)
      (unwind : UnwindAction)
      → TerminatorKind
  drop : Place → BasicBlock → UnwindAction → TerminatorKind
  assert : (cond : Operand) (expected : Bool) → BasicBlock → UnwindAction → TerminatorKind
  false_edge : (real_target imaginary_target : BasicBlock) → TerminatorKind
  false_unwind : BasicBlock → UnwindAction → TerminatorKind
  yield_to : (resume : BasicBlock) (dropped : Option BasicBlock) → TerminatorKind
  inline_asm : List BasicBlock → UnwindAction → TerminatorKind

pub data UintTy : Type 0 where
  usize u8 u16 u32 u64 u128 : UintTy

pub data Mutability : Type 0 where
  mutable shared : Mutability

-- A struct has as many fields; the others are unions and enums.
pub data AdtKind : Type 0 where
  struct_of : (fields : ℕ) → AdtKind
  union_kind enum_kind : AdtKind

-- `AdtDef`: the path that rustc prints for it, its name, and the name of its crate.
pub record AdtDef : Type 0 where
  pub path : Text
  pub item_name : Text
  pub crate_name : Text
  pub kind : AdtKind

-- `TyKind`; a tuple is known by its first component.
pub data Ty : Type 0 where
  bool char int float other_ty : Ty
  uint : UintTy → Ty
  adt : AdtDef → Ty
  raw_ptr reference : Ty → Mutability → Ty
  tuple : (first : Ty) → Ty

pub data BinOp : Type 0 where
  add sub mul add_with_overflow mul_with_overflow offset rem bit_and bit_or shr lt le gt ge eq ne
        other_op :
      BinOp

pub data CastKind : Type 0 where
  ptr_to_ptr transmute int_to_int int_to_float float_to_int float_to_float reify_fn_pointer
        other_cast :
      CastKind

-- The aggregate of an ADT has the name of its crate, and of a union the field that is set.
pub data AggregateKind : Type 0 where
  array tuple_kind other_kind : AggregateKind
  adt_kind : (crate_name : Text) (active_field : Option ℕ) → AggregateKind

pub data Rvalue : Type 0 where
  use_of : Operand → Rvalue
  ref_to raw_ptr_to : Place → Rvalue
  cast : CastKind → Operand → Ty → Rvalue
  binary_op : BinOp → Operand → Operand → Rvalue
  ptr_metadata : Operand → Rvalue
  aggregate : AggregateKind → List Operand → Rvalue
  other_rvalue : Rvalue

pub data Statement : Type 0 where
  assign : Place → Rvalue → Statement
  other_statement : Statement

pub record BasicBlockData : Type 0 where
  pub statements : List Statement
  pub terminator : Option TerminatorKind

-- The arguments are the locals 1, ..., `arg_count`; 0 is the return place.
pub record Body : Type 0 where
  pub arg_count : ℕ
  pub ty : Local → Ty
  pub basic_blocks : List BasicBlockData
