-- ===== src/Transfer/Calls.antt =====
-- A call before its callee is looked at: which function is called, which buffer it may reallocate,
-- and which facts any callee may invalidate (`apply_terminator` of
-- crates/san/src/analysis/transfer.rs).
use san.Base.{
  ℕ, ◌+◌, ◌%◌, ◌^◌, List, [], ◌∷◌, Bool, true, false, ◌&&◌, not, Option, none, some, if◌then◌else◌,
  nat_eq, list_eq, any,
}
use san.Base.Sets.{contains, insert, remove, retain}
use san.Base.Maps.{Map, lookup, put, erase, keys}
use san.Base.Texts.{Text}
use san.Callee.Other.{is_reallocating_method}
use san.Object.{ObjectId, HeapState}
use san.Join.{get_or}
use san.State.Locals.{Local, DefId}
use san.State.{BlockState}
use san.State.Tracking.{TrackingDomain}
use san.State.Capacity.{CapacityDomain}
use san.State.Ownership.{owners_of, invalidate_owner, is_empty}
use san.State.Proven.{deref_base}
use san.Mir.{Constant, Operand, constant, Ty, raw_ptr, reference, mutable, Body}
use san.Edge.{operand_local}
use san.Facts.{first_arg_local, nth_arg_local}
use san.Summary.{FnSummary}
use san.Summary.Apply.{is_reference, named_arg}
use san.Transfer.Owners.{is_param, invalidate_owner_args}

-- What the compiler is asked of functions: the path that it prints for one, whether one is a
-- method of a trait, and the method of the implementation that a call of it resolves to.
pub record TyCtxt : Type 0 where
  pub def_path_str : DefId → Text
  pub is_trait_method : DefId → Bool
  pub try_resolve : Constant → Option DefId

abbrev pub SummaryMap : Type 0
SummaryMap = Map DefId FnSummary

-- `0x4000_0000`
abbrev pub realloc_base : ℕ
realloc_base = 2 ^ 30

-- The object of a pointer that a reallocation makes stale.
abbrev pub stale_object : Local → ObjectId
stale_object p = (realloc_base + p) % 2 ^ 32

module _ (tcx : TyCtxt) where
  unfoldable pub resolve : Constant → DefId → DefId
  resolve c id = if tcx.is_trait_method id then get_or (tcx.try_resolve c) id else id

  -- A known function, or the target of a function pointer.
  unfoldable pub callee_of : TrackingDomain → Operand → Option DefId
  unfolding resolve operand_local
  callee_of s (constant c) = elim c.fn_def [ none ↦ none | some id ↦ some (resolve c id) ]
  callee_of s func = elim (operand_local func) [ none ↦ none | some l ↦ lookup s.fn_ptr_targets l ]

  -- The argument whose buffer the call reallocates.
  unfoldable pub realloc_recv : SummaryMap → Option DefId → List Operand → Option Local
  unfolding first_arg_local nth_arg_local
  realloc_recv summaries none args = none
  realloc_recv summaries (some id) args =
      if is_reallocating_method (tcx.def_path_str id)
      then first_arg_local args
      else elim (lookup summaries id) [
        | none ↦ none
        | some summary ↦ named_arg args summary.reallocs_param
      ]

-- What the receiver aliases, or the receiver itself.
unfoldable pub buffer_owners : TrackingDomain → Local → List Local
unfolding owners_of
buffer_owners s recv =
    let aliased = owners_of s recv in if is_empty aliased then recv ∷ [] else aliased

unfoldable pub note_realloced : List Local → Body → List Local → List Local
unfolding is_param
note_realloced realloced body [] = realloced
note_realloced realloced body (o ∷ os) =
    note_realloced (if is_param body o then insert realloced o else realloced) body os

-- A pointer, and no reference, that aliases one of the owners.
unfoldable pub is_stale : TrackingDomain → Body → List Local → Local → Bool
unfolding owners_of
is_stale s body owners p = any (contains (owners_of s p)) owners && not (is_reference (body.ty p))

unfoldable pub stale_pointers : TrackingDomain → Body → List Local → List Local
unfolding is_stale
stale_pointers s body owners = retain (is_stale s body owners) (keys s.owner_alias)

unfoldable pub make_stale : TrackingDomain → Local → TrackingDomain
make_stale s p = record s {
  heap = put s.heap (stale_object p) HeapState.maybe_freed;
  points_to = put s.points_to p (stale_object p ∷ []);
  owner_alias = erase s.owner_alias p;
}

unfoldable pub make_all_stale : TrackingDomain → List Local → TrackingDomain
unfolding make_stale
make_all_stale s [] = s
make_all_stale s (p ∷ ps) = make_all_stale (make_stale s p) ps

-- The buffer of `recv` is reallocated.
unfoldable pub reallocate : TrackingDomain → Body → Option Local → TrackingDomain
unfolding buffer_owners note_realloced stale_pointers make_all_stale
reallocate s body none = s
reallocate s body (some recv) =
    let owners = buffer_owners s recv in
    let noted = record s { realloced_params = note_realloced s.realloced_params body owners } in
    make_all_stale noted (stale_pointers noted body owners)

-- The argument that the callee hands back, which it does not reassign.
abbrev pub alias_src_arg : SummaryMap → Option DefId → Option ℕ
alias_src_arg summaries none = none
alias_src_arg summaries (some id) = elim (lookup summaries id) [
  | none ↦ none
  | some summary ↦ summary.returns_alias_of_param
]

-- `&mut T` or `*mut T`
abbrev pub is_mutating_ty : Ty → Bool
is_mutating_ty (reference t mutable) = true
is_mutating_ty (raw_ptr t mutable) = true
is_mutating_ty _ = false

-- The length of the collection behind an argument may change.
unfoldable pub mutate_arg : CapacityDomain → Body → Option Local → CapacityDomain
unfolding deref_base
mutate_arg s body none = s
mutate_arg s body (some l) =
    if is_mutating_ty (body.ty l)
    then record s {
      has_spare = remove s.has_spare (deref_base s l);
      is_full = remove s.is_full (deref_base s l);
    }
    else s

unfoldable pub mutate_args : CapacityDomain → Body → List Operand → CapacityDomain
unfolding mutate_arg operand_local
mutate_args s body [] = s
mutate_args s body (arg ∷ args) = mutate_args (mutate_arg s body (operand_local arg)) body args

-- What holds of a call of any function, and of one that is not known.
unfoldable pub before_call :
    TyCtxt → SummaryMap → BlockState → Body → Option DefId → List Operand → Local → BlockState
unfolding realloc_recv reallocate invalidate_owner_args invalidate_owner mutate_args
before_call tcx summaries s body callee args dest =
    let reallocated = reallocate s.tracking_domain body (realloc_recv tcx summaries callee args) in
    let kept = invalidate_owner_args reallocated body args (alias_src_arg summaries callee) in
    let redefined = invalidate_owner kept dest in
    record s {
      tracking_domain = record redefined { owner_alias = erase redefined.owner_alias dest };
      capacity_domain = mutate_args s.capacity_domain body args;
    }
