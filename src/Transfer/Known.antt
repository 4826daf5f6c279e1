-- ===== src/Transfer/Known.antt =====
-- A call of a known function: what it records of its destination, and what a function without a
-- summary does (`apply_terminator` of crates/san/src/analysis/transfer.rs).
use san.Base.{
  ℕ, List, [], ◌∷◌, Bool, true, false, ◌&&◌, ◌||◌, Option, none, some, if◌then◌else◌, ◌==◌, nat_eq,
  length,
}
use Prim.Native.String.{String}
use san.Base.Sets.{insert}
use san.Base.Maps.{lookup, put}
use san.Base.Texts.{Text, codes, ends_with, ends_with_any}
use san.Join.{extend}
use san.Callee.Other.{
  is_global_ptr_copy_to_second_arg, is_ptr_write_to_first_arg, is_ptr_pure_read, is_into_raw_fd,
  is_from_raw_fd_call, is_owned_buffer_accessor,
}
use san.State.Locals.{Local}
use san.State.{BlockState}
use san.State.Tracking.{TrackingDomain}
use san.State.Capacity.{CapacityDomain}
use san.State.Ranges.{RangesDomain}
use san.State.Pairs.{PairsDomain}
use san.State.Taints.{TaintsDomain}
use san.State.Ownership.{owners_of, is_empty}
use san.State.Proven.{deref_base}
use san.Mir.{Operand, Body}
use san.Edge.{insert_some}
use san.Facts.{first_arg_local, nth_arg_local, both_locals}
use san.Summary.Apply.{copy_objects}
use san.Transfer.Clear.{on_tracking, clear_keyed, clear_proto_facts}
use san.Transfer.Owners.{escape_raw_ptr_args}
use san.Transfer.Handlers.{on_inits}

-- A call of `len` or `capacity`, and of `deref`, which is a view of its receiver.
unfoldable pub record_collection : CapacityDomain → Local → Text → Option Local → CapacityDomain
unfolding ends_with ends_with_any deref_base
record_collection s dest path none = s
record_collection s dest path (some recv) =
    let coll = deref_base s recv in
    let measured =
      if ends_with path (codes "::capacity")
      then record s { cap_of = put s.cap_of dest coll }
      else if ends_with path (codes "::len")
      then record s { len_of = put s.len_of dest coll }
      else s in
    if ends_with_any path ("::deref" ∷ "::deref_mut" ∷ [])
    then record measured { ref_base = put measured.ref_base dest (deref_base measured recv) }
    else measured

unfoldable pub record_float_test : RangesDomain → Local → Text → Option Local → RangesDomain
unfolding ends_with
record_float_test s dest path none = s
record_float_test s dest path (some recv) =
    if ends_with path (codes "::is_nan")
    then record s { nan_if_true = put s.nan_if_true dest recv }
    else if ends_with path (codes "::is_finite")
    then record s { finite_if_true = put s.finite_if_true dest recv }
    else s

abbrev pub spawn_ends : List String
spawn_ends = "thread::spawn" ∷ "Builder::spawn" ∷ "Builder::spawn_unchecked" ∷ []

-- File descriptors, and whether another thread runs.
unfoldable pub record_taints : TaintsDomain → Local → Text → Option Local → TaintsDomain
unfolding ends_with_any
record_taints s dest path arg =
    let fds =
      if is_into_raw_fd path
      then record s { fd_origin = insert s.fd_origin dest }
      else if is_from_raw_fd_call path
      then record s { fd_consumed = insert_some s.fd_consumed arg }
      else s in
    record fds { thread_spawned = fds.thread_spawned || ends_with_any path spawn_ends }

-- `args.get(idx)`, seen through a borrow
unfoldable pub arg_deref : CapacityDomain → List Operand → ℕ → Option Local
unfolding nth_arg_local deref_base
arg_deref c args idx = elim (nth_arg_local args idx) [
  | none ↦ none
  | some l ↦ some (deref_base c l)
]

abbrev pub record_pair : PairsDomain → Local → Bool → Option (Local × Local) → PairsDomain
record_pair s dest is_ne none = s
record_pair s dest true (some p) = record s { ne_pair_if_true = put s.ne_pair_if_true dest p }
record_pair s dest false (some p) = record s { eq_pair_if_true = put s.eq_pair_if_true dest p }

-- `PartialEq::ne` and `PartialEq::eq`
unfoldable pub record_eq_call :
    PairsDomain → CapacityDomain → Local → Text → List Operand → PairsDomain
unfolding arg_deref ends_with ends_with_any
record_eq_call s c dest path args =
    if ends_with_any path ("::ne" ∷ "::eq" ∷ []) && length args == 2
    then record_pair s dest (ends_with path (codes "::ne"))
        (both_locals (arg_deref c args 0) (arg_deref c args 1))
    else s

-- What a call of a known function records of its destination, before the handlers.
unfoldable pub record_call : BlockState → Local → Text → List Operand → BlockState
unfolding clear_keyed record_collection record_float_test record_taints record_eq_call
    first_arg_local
record_call s dest path args =
    let recv = first_arg_local args in
    let c = clear_keyed dest s in
    let capacity = record_collection c.capacity_domain dest path recv in
    record c {
      capacity_domain = capacity;
      ranges_domain = record_float_test c.ranges_domain dest path recv;
      taints_domain = record_taints c.taints_domain dest path recv;
      pairs_domain = record_eq_call c.pairs_domain capacity dest path args;
    }

-- The owners of a pointer that is written through have bytes written.
unfoldable pub write_owners : BlockState → Option Local → BlockState
unfolding owners_of extend
write_owners s none = s
write_owners s (some dst) =
    on_inits
      (λ i. record i { buf_written = extend i.buf_written (owners_of s.tracking_domain dst) }) s

-- `dest` takes the owners and the objects of the argument.
unfoldable pub share_argument : TrackingDomain → Local → Option Local → TrackingDomain
unfolding copy_objects
share_argument s dest none = s
share_argument s dest (some arg0) =
    let owned : TrackingDomain = elim (lookup s.owner_alias arg0) [
      | none ↦ s
      | some owners ↦
          if is_empty owners then s else record s { owner_alias = put s.owner_alias dest owners }
    ] in
    copy_objects owned dest arg0

-- A function without a summary.
unfoldable pub call_unknown : BlockState → Body → Local → Text → List Operand → BlockState
unfolding share_argument write_owners escape_raw_ptr_args clear_proto_facts first_arg_local
    nth_arg_local
call_unknown s body dest path args = clear_proto_facts dest (
    if is_owned_buffer_accessor path
    then on_tracking (λ t. share_argument t dest (first_arg_local args)) s
    else if is_ptr_write_to_first_arg path
    then write_owners s (first_arg_local args)
    else if is_global_ptr_copy_to_second_arg path
    then write_owners s (nth_arg_local args 1)
    else if is_ptr_pure_read path
    then s
    else on_tracking (λ t. escape_raw_ptr_args t body args) s)
