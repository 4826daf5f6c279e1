-- ===== src/Transfer/Statement.antt =====
-- `apply_statement` (crates/san/src/analysis/transfer.rs), composed of its handlers, and the
-- replay of a block's statements (crates/san/src/analysis/dataflow.rs).
use san.Base.{List, [], ◌∷◌, Bool, true, false, Option, none, some, if◌then◌else◌, nat_eq}
use san.Base.Maps.{put}
use san.State.Locals.{Local}
use san.State.{BlockState}
use san.State.Capacity.{CapacityDomain}
use san.State.Ownership.{invalidate_owner}
use san.State.Proven.{deref_base}
use san.Mir.{
  ProjectionElem, deref, Place, Operand, copy, move, constant, Ty, Body, CastKind, Rvalue, use_of,
  ref_to, raw_ptr_to, cast, binary_op, ptr_metadata, aggregate, Statement, assign, other_statement,
}
use san.Edge.{operand_local}
use san.Facts.{enforce_type_facts}
use san.Transfer.Clear.{on_tracking, on_ranges, on_capacity, clear_assigned}
use san.Transfer.Owners.{update_owner_alias, update_fn_ptr_target}
use san.Transfer.Store.{store_projection}
use san.Transfer.Moves.{propagate_use, move_local, copy_local}
use san.Transfer.Reads.{
  is_field_read, read_field, read_address, build_aggregate, cast_pointer, cast_number, untrack,
  assign_const, empty_base,
}
use san.Transfer.Arith.{assign_binary, apply_binary}

-- No projection, or a reborrow.
abbrev pub is_borrow : List ProjectionElem → Bool
is_borrow [] = true
is_borrow (deref ∷ []) = true
is_borrow _ = false

-- `dst = &base` or `dst = &(*base)`
unfoldable pub record_ref_base : CapacityDomain → Local → Rvalue → CapacityDomain
record_ref_base s dst (ref_to place) =
    if is_borrow place.projection then record s { ref_base = put s.ref_base dst place.local } else s
record_ref_base s dst _ = s

abbrev pub set_len_of : CapacityDomain → Local → Option Local → CapacityDomain
set_len_of s dst none = s
set_len_of s dst (some l) = record s { len_of = put s.len_of dst (deref_base s l) }

-- The length of a slice.
unfoldable pub record_ptr_metadata : CapacityDomain → Local → Rvalue → CapacityDomain
unfolding operand_local deref_base
record_ptr_metadata s dst (ptr_metadata op) = set_len_of s dst (operand_local op)
record_ptr_metadata s dst _ = s

-- A move from a projection that is no field read.
abbrev pub move_projected : BlockState → Place → BlockState
move_projected s src = elim src.projection [ [] ↦ s | _ ∷ _ ↦ empty_base s src ]

unfoldable pub use_projected : BlockState → Local → Bool → Place → BlockState
unfolding read_field untrack empty_base is_field_read
use_projected s dst is_move src =
    if is_field_read src.projection
    then read_field s dst src
    else if is_move
    then move_projected (untrack dst s) src
    else untrack dst s

unfoldable pub assign_use : BlockState → Local → Operand → BlockState
unfolding move_local copy_local use_projected assign_const
assign_use s dst (constant c) = assign_const s dst c.scalar
assign_use s dst (move src) = elim src.projection [
  | [] ↦ move_local dst src.local s
  | _ ∷ _ ↦ use_projected s dst true src
]
assign_use s dst (copy src) = elim src.projection [
  | [] ↦ copy_local dst src.local s
  | _ ∷ _ ↦ use_projected s dst false src
]

-- A cast of a plain local.
unfoldable pub assign_cast : BlockState → Body → Local → CastKind → Local → Ty → BlockState
unfolding cast_pointer cast_number untrack
assign_cast s body dst CastKind.ptr_to_ptr src ty = cast_pointer s body dst src ty
assign_cast s body dst CastKind.transmute src ty = cast_pointer s body dst src ty
assign_cast s body dst CastKind.int_to_int src ty = cast_number s dst src true ty
assign_cast s body dst CastKind.int_to_float src ty = cast_number s dst src false ty
assign_cast s body dst CastKind.float_to_int src ty = cast_number s dst src false ty
assign_cast s body dst CastKind.float_to_float src ty = cast_number s dst src false ty
assign_cast s body dst _ src ty = untrack dst s

-- The `match` on the rvalue.
unfoldable pub assign_rvalue : BlockState → Body → Local → Rvalue → BlockState
unfolding assign_use assign_cast read_address build_aggregate assign_binary apply_binary untrack
    operand_local
assign_rvalue s body dst (use_of op) = assign_use s dst op
assign_rvalue s body dst (ref_to place) = elim place.projection [
  | [] ↦ read_address s dst place.local
  | _ ∷ _ ↦ untrack dst s
]
assign_rvalue s body dst (raw_ptr_to place) =
    if is_borrow place.projection then read_address s dst place.local else untrack dst s
assign_rvalue s body dst (aggregate kind operands) = build_aggregate s dst kind operands
assign_rvalue s body dst (cast kind op ty) = elim (operand_local op) [
  | some src ↦ assign_cast s body dst kind src ty
  | none ↦ untrack dst s
]
assign_rvalue s body dst (binary_op op op1 op2) =
    apply_binary (assign_binary s dst op op1 op2) body dst op op1 op2
assign_rvalue s body dst _ = untrack dst s

-- What is known of the destination before the `match`: owners, and the facts that it keeps.
unfoldable pub prepare_assign : BlockState → Body → Local → Rvalue → BlockState
unfolding update_owner_alias update_fn_ptr_target clear_assigned record_ref_base propagate_use
    record_ptr_metadata
prepare_assign s body dst rvalue =
    let aliased =
      on_tracking (λ t. update_fn_ptr_target (update_owner_alias t body dst rvalue) dst rvalue) s in
    let cleared = clear_assigned dst aliased in
    let based = on_capacity (λ c. record_ref_base c dst rvalue) cleared in
    let moved = propagate_use based dst rvalue in
    on_capacity (λ c. record_ptr_metadata c dst rvalue) moved

-- An assignment to a local without projections.
unfoldable pub assign_local : BlockState → Body → Local → Rvalue → BlockState
unfolding prepare_assign assign_rvalue enforce_type_facts
assign_local s body dst rvalue =
    on_ranges (λ r. enforce_type_facts r dst (body.ty dst))
      (assign_rvalue (prepare_assign s body dst rvalue) body dst rvalue)

unfoldable pub apply_statement : BlockState → Body → Statement → BlockState
unfolding invalidate_owner store_projection assign_local
apply_statement s body other_statement = s
apply_statement s body (assign dst rvalue) =
    let written = on_tracking (λ t. invalidate_owner t dst.local) s in
    elim dst.projection [
      | [] ↦ assign_local written body dst.local rvalue
      | _ ∷ _ ↦ store_projection written body dst rvalue
    ]

unfoldable pub apply_statements : BlockState → Body → List Statement → BlockState
unfolding apply_statement
apply_statements s body [] = s
apply_statements s body (stmt ∷ stmts) = apply_statements (apply_statement s body stmt) body stmts
