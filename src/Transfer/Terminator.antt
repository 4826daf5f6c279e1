-- ===== src/Transfer/Terminator.antt =====
-- `apply_terminator` (crates/san/src/analysis/transfer.rs), composed of its handlers.
use san.Base.{
  List, [], ◌∷◌, Bool, true, false, ◌&&◌, not, Option, none, some, if◌then◌else◌, nat_eq,
}
use Prim.Native.String.{String}
use san.Base.Sets.{contains, insert, remove}
use san.Base.Maps.{lookup, erase, contains_key}
use san.Base.Texts.{Text, ends_with_any}
use san.Object.{ProtocolState}
use san.Join.{get_or}
use san.Callee.{is_into_raw, is_from_raw, is_mem_forget, is_raw_realloc, is_ptr_read}
use san.Callee.Other.{
  is_epoch_pin, is_lock_acquire, is_maybe_uninit_init, is_maybe_uninit_write,
  is_maybe_uninit_as_mut_ptr, is_buf_write, is_maybe_uninit_assume_init, is_owned_buffer_accessor,
}
use san.State.Locals.{Local, BasicBlock, DefId}
use san.State.{BlockState}
use san.State.Tracking.{TrackingDomain}
use san.State.Bounds.{BoundsDomain}
use san.State.Ownership.{some_and}
use san.Mir.{Place, Operand, Body, TerminatorKind, call, drop, assert}
use san.Edge.{operand_local, plain_local, insert_some}
use san.Facts.{first_arg_local, enforce_type_facts}
use san.Summary.{FnSummary}
use san.Summary.Apply.{apply_fn_summary, copy_objects}
use san.Transfer.Clear.{on_tracking, clear_facts}
use san.Transfer.Owners.{escape_raw_ptr_args}
use san.Transfer.Handlers.{
  on_inits, call_raw_realloc, call_into_raw, call_from_raw, call_mem_forget, call_acquire,
  call_assume_init, call_uninit_new, call_uninit_write, call_uninit_ptr, call_buf_write,
  call_ptr_read, set_protocols,
}
use san.Transfer.Calls.{TyCtxt, SummaryMap, callee_of, before_call}
use san.Transfer.Known.{record_call, call_unknown}

-- An accessor whose summary lost the objects of its argument.
abbrev pub recover_objects : TrackingDomain → Local → Option Local → TrackingDomain
recover_objects s dest none = s
recover_objects s dest (some arg0) = copy_objects s dest arg0

-- A function with a summary.
unfoldable pub call_summary :
    BlockState → Body → Local → Text → BasicBlock → List Operand → FnSummary → BlockState
unfolding apply_fn_summary copy_objects clear_facts first_arg_local
call_summary s body dest path bb args summary =
    let t = apply_fn_summary s.tracking_domain body args dest bb summary in
    let recovered =
      if is_owned_buffer_accessor path && not (contains_key t.points_to dest)
      then recover_objects t dest (first_arg_local args)
      else t in
    clear_facts dest (record s { tracking_domain = recovered })

-- The handlers of a known function, in their order.
unfoldable pub call_handler :
    BlockState → Body → Local → Text → BasicBlock → List Operand → Option FnSummary → BlockState
unfolding call_raw_realloc call_into_raw call_from_raw call_mem_forget call_acquire call_assume_init
    call_uninit_new call_uninit_write call_uninit_ptr call_buf_write call_ptr_read call_summary
    call_unknown
call_handler s body dest path bb args summary =
    if is_raw_realloc path
    then call_raw_realloc s dest bb args
    else if is_into_raw path
    then call_into_raw s dest bb
    else if is_from_raw path
    then call_from_raw s dest args
    else if is_mem_forget path
    then call_mem_forget s body dest args
    else if is_epoch_pin path
    then call_acquire s dest bb
    else if is_lock_acquire path
    then call_acquire s dest bb
    else if is_maybe_uninit_assume_init path
    then call_assume_init s dest args
    else if is_maybe_uninit_init path
    then call_uninit_new s dest args
    else if is_maybe_uninit_write path
    then call_uninit_write s dest args
    else if is_maybe_uninit_as_mut_ptr path
    then call_uninit_ptr s dest args
    else if is_buf_write path
    then call_buf_write s dest args
    else if is_ptr_read path
    then call_ptr_read s dest args
    else elim summary [
      | some found ↦ call_summary s body dest path bb args found
      | none ↦ call_unknown s body dest path args
    ]

abbrev pub nonnull_results : List String
nonnull_results =
    "::as_ptr" ∷ "::as_mut_ptr" ∷ "::as_non_null_ptr" ∷ "::as_non_null_slice" ∷ "::as_non_null"
    ∷ "::dangling" ∷ []

abbrev pub layout_ends : List String
layout_ends = "Layout::from_size_align_unchecked" ∷ "Layout::from_size_alignment_unchecked" ∷ []

-- What is known of the result of a known function, after the handlers.
unfoldable pub record_result : BlockState → Body → Local → Text → List Operand → BlockState
unfolding enforce_type_facts ends_with_any first_arg_local
record_result s body dest path args =
    let typed = enforce_type_facts s.ranges_domain dest (body.ty dest) in
    let tainted = s.taints_domain in
    record s {
      ranges_domain =
          if ends_with_any path nonnull_results
          then record typed { nonzero = insert typed.nonzero dest }
          else typed;
      taints_domain =
          if ends_with_any path layout_ends
            && some_and (λ l. contains tainted.mul_overflow l) (first_arg_local args)
          then record tainted { layout_overflow = insert tainted.layout_overflow dest }
          else tainted;
    }

unfoldable pub apply_known :
    TyCtxt → SummaryMap → BlockState → Body → DefId → BasicBlock → List Operand → Local → BlockState
unfolding record_call call_handler record_result
apply_known tcx summaries s body def_id bb args dest =
    let path = tcx.def_path_str def_id in
    let recorded = record_call s dest path args in
    let handled = call_handler recorded body dest path bb args (lookup summaries def_id) in
    record_result handled body dest path args

-- A call with a destination that has a projection is opaque, and so is one of an unknown function.
abbrev pub apply_callee :
    TyCtxt
    → SummaryMap
    → BlockState
    → Body
    → BasicBlock
    → List Operand
    → Option DefId
    → Option Local
    → BlockState
apply_callee tcx summaries s body bb args (some def_id) (some dest) =
    apply_known tcx summaries s body def_id bb args dest
apply_callee tcx summaries s body bb args _ _ = on_tracking (λ t. escape_raw_ptr_args t body args) s

unfoldable pub apply_call :
    TyCtxt
    → SummaryMap
    → BlockState
    → Body
    → BasicBlock
    → Operand
    → List Operand
    → Place
    → BlockState
unfolding callee_of before_call apply_known escape_raw_ptr_args
apply_call tcx summaries s body bb func args destination =
    let callee = callee_of tcx s.tracking_domain func in
    let prepared = before_call tcx summaries s body callee args destination.local in
    apply_callee tcx summaries prepared body bb args callee (plain_local destination)

-- A checked condition is known to hold, or not to hold.
unfoldable pub assert_bounds : BoundsDomain → Local → Bool → BoundsDomain
assert_bounds s cond true = record s {
  bounded = insert_some s.bounded (lookup s.lt_facts cond);
  bounded_or_eq = insert_some s.bounded_or_eq (lookup s.le_facts cond);
}
assert_bounds s cond false = record s {
  bounded = insert_some s.bounded (lookup s.ge_facts cond);
  bounded_or_eq = insert_some s.bounded_or_eq (lookup s.gt_facts cond);
}

unfoldable pub apply_assert : BlockState → Option Local → Bool → BlockState
unfolding assert_bounds
apply_assert s none expected = s
apply_assert s (some cond) expected = record s {
  bounds_domain = assert_bounds s.bounds_domain cond expected;
}

-- The protocols of a dropped local are consumed.
unfoldable pub drop_tracked : Local → TrackingDomain → TrackingDomain
unfolding set_protocols
drop_tracked local s = record s {
  local_proto = erase s.local_proto local;
  typestate =
      set_protocols s.typestate (get_or (lookup s.local_proto local) []) ProtocolState.consumed;
  points_to = erase s.points_to local;
}

unfoldable pub apply_drop : BlockState → Option Local → BlockState
unfolding drop_tracked
apply_drop s none = s
apply_drop s (some local) =
    on_inits (λ i. record i { init = erase i.init local; buf_written = remove i.buf_written local })
      (on_tracking (drop_tracked local) s)

unfoldable pub apply_terminator :
    TyCtxt → SummaryMap → BlockState → Body → BasicBlock → TerminatorKind → BlockState
unfolding apply_call apply_assert apply_drop operand_local
apply_terminator tcx summaries s body bb (call func args destination target unwind) =
    apply_call tcx summaries s body bb func args destination
apply_terminator tcx summaries s body bb (assert cond expected target unwind) =
    apply_assert s (operand_local cond) expected
apply_terminator tcx summaries s body bb (drop place target unwind) =
    apply_drop s (plain_local place)
apply_terminator tcx summaries s body bb _ = s
