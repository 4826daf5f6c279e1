-- ===== src/Summary/Apply.antt =====
-- A call of a function that has a summary: `apply_fn_summary`
-- (crates/san/src/analysis/summary.rs).
use san.Base.{
  ℕ, ◌%◌, ◌^◌, List, [], ◌∷◌, Bool, true, false, ◌&&◌, not, Option, none, some, if◌then◌else◌,
  nat_eq, leb,
}
use san.Base.Maps.{lookup, put, erase}
use san.Object.{ObjectId, HeapState, HeapMap}
use san.Join.{get_or}
use san.State.Locals.{Local, BasicBlock}
use san.State.Tracking.{TrackingDomain}
use san.State.Ownership.{objects_for, is_raw_owned, is_empty, escape_local, set_owner_alias}
use san.Mir.{Operand, Ty, raw_ptr, reference, Body}
use san.Facts.{nth_arg_local}
use san.Summary.{ParamHeapEffect, FnSummary, is_raw_ptr}

unfoldable pub take_object : HeapMap → ObjectId → HeapMap
take_object heap id =
    if is_raw_owned (lookup heap id) then put heap id HeapState.reconstituted else heap

unfoldable pub reconstitute : HeapMap → List ObjectId → HeapMap
unfolding take_object
reconstitute heap [] = heap
reconstitute heap (id ∷ ids) = reconstitute (take_object heap id) ids

unfoldable pub apply_effect : TrackingDomain → Local → ParamHeapEffect → TrackingDomain
unfolding reconstitute escape_local objects_for
apply_effect s arg_local ParamHeapEffect.reconstituted = record s {
  heap = reconstitute s.heap (objects_for s arg_local);
  local_proto = erase s.local_proto arg_local;
}
apply_effect s arg_local ParamHeapEffect.escaped = escape_local s arg_local
apply_effect s arg_local ParamHeapEffect.no_effect = s

abbrev pub apply_at : TrackingDomain → Option Local → ParamHeapEffect → TrackingDomain
apply_at s none change = s
apply_at s (some arg_local) change = apply_effect s arg_local change

unfoldable pub apply_effects :
    TrackingDomain → List Operand → List (ℕ × ParamHeapEffect) → TrackingDomain
unfolding apply_effect nth_arg_local
apply_effects s args [] = s
apply_effects s args ((param_idx, change) ∷ rest) =
    apply_effects (apply_at s (nth_arg_local args param_idx) change) args rest

-- The object of a call, `ObjectId(call_bb.index() as u32)`.
abbrev pub call_object : BasicBlock → ObjectId
call_object call_bb = call_bb % 2 ^ 32

unfoldable pub apply_return : TrackingDomain → Local → BasicBlock → Bool → TrackingDomain
apply_return s dest call_bb true = record s {
  points_to = put s.points_to dest (call_object call_bb ∷ []);
  heap = put s.heap (call_object call_bb) HeapState.raw_owned;
}
apply_return s dest call_bb false = record s {
  points_to = erase s.points_to dest;
  local_proto = erase s.local_proto dest;
}

abbrev pub is_ref_or_ptr : Ty → Bool
is_ref_or_ptr (reference pointee mutbl) = true
is_ref_or_ptr (raw_ptr pointee mutbl) = true
is_ref_or_ptr _ = false

abbrev pub is_reference : Ty → Bool
is_reference (reference pointee mutbl) = true
is_reference _ = false

unfoldable pub is_reference_param : Body → Local → Bool
is_reference_param body local =
    leb 1 local && leb local body.arg_count && is_reference (body.ty local)

unfoldable pub set_owner_aliases : TrackingDomain → Local → List Local → TrackingDomain
unfolding set_owner_alias
set_owner_aliases s dest [] = s
set_owner_aliases s dest (owner ∷ owners) =
    set_owner_aliases (set_owner_alias s dest owner) dest owners

-- `if let Some(objs) = points_to.get(&arg) { if !objs.is_empty() { points_to.insert(dest, objs) } }`
unfoldable pub copy_objects : TrackingDomain → Local → Local → TrackingDomain
copy_objects s dest arg = elim (lookup s.points_to arg) [
  | none ↦ s
  | some objs ↦
      if not (is_empty objs) then record s { points_to = put s.points_to dest objs } else s
]

-- The owners that the argument passes on.
unfoldable pub owners_through : TrackingDomain → Body → Local → List Local
unfolding is_reference_param
owners_through s body arg =
    if is_reference_param body arg
    then arg ∷ []
    else if is_ref_or_ptr (body.ty arg)
    then get_or (lookup s.owner_alias arg) []
    else []

unfoldable pub alias_argument : TrackingDomain → Body → Local → Local → TrackingDomain
unfolding owners_through set_owner_aliases copy_objects
alias_argument s body dest arg =
    let aliased = set_owner_aliases s dest (owners_through s body arg) in
    if not (is_raw_ptr (body.ty dest)) then copy_objects aliased dest arg else aliased

-- The argument at the position that the summary names, if it names one.
abbrev pub named_arg : List Operand → Option ℕ → Option Local
named_arg args none = none
named_arg args (some n) = nth_arg_local args n

unfoldable pub alias_named : TrackingDomain → Body → Local → Option Local → TrackingDomain
unfolding alias_argument
alias_named s body dest none = s
alias_named s body dest (some arg) = alias_argument s body dest arg

unfoldable pub copy_named : TrackingDomain → Local → Option Local → TrackingDomain
unfolding copy_objects
copy_named s dest none = s
copy_named s dest (some arg) = copy_objects s dest arg

unfoldable pub apply_fn_summary :
    TrackingDomain → Body → List Operand → Local → BasicBlock → FnSummary → TrackingDomain
unfolding apply_effects apply_return alias_named copy_named nth_arg_local
apply_fn_summary s body args dest call_bb summary =
    let affected = apply_effects s args summary.param_effects in
    let returned = apply_return affected dest call_bb summary.returns_raw_owned in
    let unaliased = record returned { owner_alias = erase returned.owner_alias dest } in
    let aliased = alias_named unaliased body dest (named_arg args summary.returns_alias_of_param) in
    copy_named aliased dest (named_arg args summary.returns_ptr_of_param)
