-- ===== src/Tests/Transfers.antt =====
-- Calls and drops on concrete states, and the analysis of a small body.
use san.Base.{
  zero, suc, [], ◌∷◌, true, false, none, some, ◌≡◌, ◌⊎◌, refl, nat_eq, list_eq, ◌==◌, arith,
  if◌then◌else◌,
}
use san.Base.Sets.{contains}
use san.Base.Maps.{lookup}
use san.Base.Texts.{Text, codes, ends_with, ends_with_any, has_text, has_any, starts_with, is_any}
use san.Object.{ProtocolId, ProtocolState}
use san.Callee.{is_from_raw}
use san.Callee.Other.{is_reallocating_method}
use san.State.{BlockState}
use san.State.Locals.{Local, DefId}
use san.State.Tracking.{TrackingDomain}
use san.State.Ownership.{
  FreedKind, freed_kind, objects_for, owners_of, ptr_is_raw_owned, has_forgotten_protocol, is_empty,
}
use san.Mir.{
  Operand, copy, constant, raw_ptr, other_ty, adt, AdtDef, AdtKind, mutable, Body, call, no_cleanup,
}
use san.Transfer.Calls.{TyCtxt, callee_of, realloc_recv, is_stale, buffer_owners}
use san.Transfer.Handlers.{from_raw_source, forget_tracked, is_guard_type}
use san.Transfer.Terminator.{apply_terminator, apply_drop}
use san.Transfer.Sound.Ranges.{plain}
use san.Transfer.Ownership.Moves.{use_ownership, moved, copied}
use san.Transfer.Ownership.Lifecycle.{from_raw_frees}
use san.Transfer.Ownership.Guards.{held, drop_lem, forget_lem}
use san.Transfer.Replay.{initial_state, empty_ranges}
use san.Tests.Owners.{owned}

-- The state with these objects.
abbrev state : BlockState
state = initial_state owned empty_ranges

-- Function 0 is `Box::from_raw`, and the others are `Box::into_raw`.
abbrev pub path_of : DefId → Text
path_of zero = codes "alloc::boxed::Box::<T>::from_raw"
path_of (suc d) = codes "alloc::boxed::Box::<T>::into_raw"

abbrev pub boxes : TyCtxt
boxes = record { def_path_str = path_of; is_trait_method = λ d. false; try_resolve = λ c. none }

abbrev function : DefId → Operand
function d = constant (record { scalar = none; fn_def = some d })

abbrev pointers : Body
pointers = record { arg_count = 2; ty = λ _. raw_ptr other_ty mutable; basic_blocks = [] }

known : (d : DefId) → callee_of boxes owned (function d) ≡ some d
unfolding callee_of
known d = refl

takes : is_from_raw (path_of 0) ≡ true
unfolding is_from_raw ends_with_any ends_with has_any has_text starts_with is_any
takes = refl

no_realloc : realloc_recv boxes [] (some 0) (copy (plain 8) ∷ []) ≡ none
unfolding realloc_recv is_reallocating_method ends_with_any ends_with has_any has_text starts_with
    is_any lookup
no_realloc = refl

given_eight : from_raw_source (copy (plain 8) ∷ []) ≡ some 8
unfolding from_raw_source
given_eight = refl

eight_owned : ptr_is_raw_owned owned 8 ≡ true
unfolding ptr_is_raw_owned objects_for lookup
eight_owned = refl

-- `_3 = Box::from_raw(_8)` frees `_8`.
from_raw_frees_example :
    freed_kind
      (apply_terminator boxes [] state pointers 4
        (call (function 0) (copy (plain 8) ∷ []) (plain 3) none no_cleanup)).tracking_domain
      8
    ≡ FreedKind.definite
from_raw_frees_example =
    from_raw_frees boxes [] state pointers 4 (function 0) (copy (plain 8) ∷ []) 3 none no_cleanup 0
      (known 0) takes no_realloc 8 given_eight 8 (λ q. absurd (ground arith)) eight_owned (λ o m. m)

use_ownership_example :
    ((l : Local)
      → objects_for (moved state pointers 3 8).tracking_domain l
        ≡ (if 3 == l then objects_for owned 8 else if 8 == l then [] else objects_for owned l))
    × ((l : Local)
        → objects_for (copied state pointers 3 8).tracking_domain l
          ≡ (if 3 == l then objects_for owned 8 else objects_for owned l))
    × (freed_kind (moved state pointers 3 8).tracking_domain 3 ≡ freed_kind owned 8)
    × (freed_kind (copied state pointers 3 8).tracking_domain 3 ≡ freed_kind owned 8)
    × ((moved state pointers 3 8).heap ≡ owned.heap)
    × ((copied state pointers 3 8).heap ≡ owned.heap)
use_ownership_example = use_ownership state pointers 3 8

six_is_stale : is_stale owned pointers (buffer_owners owned 2) 6 ≡ true
unfolding is_stale buffer_owners owners_of lookup contains
six_is_stale = refl

-- Local 4 holds the protocol 1.
abbrev locked : TrackingDomain
locked = record owned {
  local_proto = (4, 1 ∷ []) ∷ [];
  typestate = (1, ProtocolState.active) ∷ (2, ProtocolState.active) ∷ [];
}

abbrev lock_state : BlockState
lock_state = initial_state locked empty_ranges

drop_lem_example :
    ((id : ProtocolId)
      → lookup (apply_drop lock_state (some 4)).typestate id ≡ (
          if contains (held locked 4) id
          then some ProtocolState.consumed
          else lookup locked.typestate id))
    × (held (apply_drop lock_state (some 4)).tracking_domain 4 ≡ [])
    × (objects_for (apply_drop lock_state (some 4)).tracking_domain 4 ≡ [])
drop_lem_example = drop_lem lock_state 4

forget_lem_example :
    ((id : ProtocolId)
      → lookup (forget_tracked locked pointers 4).typestate id ≡ (
          if contains (held locked 4) id
          then some ProtocolState.forgotten
          else lookup locked.typestate id))
    × (held (forget_tracked locked pointers 4) 4 ≡ [])
    × ((is_empty (held locked 4) ≡ false) ⊎ (is_guard_type (pointers.ty 4) ≡ true)
        → has_forgotten_protocol (forget_tracked locked pointers 4) ≡ true)
forget_lem_example = forget_lem locked pointers 4

-- A guard that is a parameter is known by its type alone.
abbrev guard : AdtDef
guard = record {
  path = codes "std::sync::MutexGuard<'_, T>";
  item_name = codes "MutexGuard";
  crate_name = codes "std";
  kind = AdtKind.struct_of 2;
}

guards : is_guard_type (adt guard) ≡ true
unfolding is_guard_type has_text starts_with
guards = refl
