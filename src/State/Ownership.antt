-- ===== src/State/Ownership.antt =====
-- The methods of `BlockState` that track ownership (crates/san/src/analysis/state.rs): owner
-- aliases, escape, and whether a pointer is freed. They use the fields of one domain alone.
pub mod Aliases
pub mod Escape
pub mod Freed
use san.Base.{
  ℕ, List, [], ◌∷◌, Bool, true, false, ◌&&◌, ◌||◌, not, Option, none, some, if◌then◌else◌, ◌==◌,
  nat_eq, pair_eq, any, all,
}
use san.Base.Sets.{insert, remove}
use san.Base.Maps.{Map, lookup, erase, put, filter_map, keys}
use san.Object.{ObjectId, HeapState, HeapMap, ProtocolState, protocol_eq, protocol_is_hazard}
use san.Join.{get_or}
use san.State.Locals.{Local}
use san.State.Tracking.{TrackingDomain}

abbrev pub is_empty : {A : Type 0} → List A → Bool
is_empty [] = true
is_empty (_ ∷ _) = false

unfoldable pub set_owner_alias : TrackingDomain → Local → Local → TrackingDomain
set_owner_alias s ptr owner = record s {
  owner_alias = put s.owner_alias ptr (insert (get_or (lookup s.owner_alias ptr) []) owner);
}

unfoldable pub copy_owner_alias : TrackingDomain → Local → Local → TrackingDomain
copy_owner_alias s dst src = record s {
  owner_alias = elim (lookup s.owner_alias src) [
    | some owners ↦ put s.owner_alias dst owners
    | none ↦ erase s.owner_alias dst
  ];
}

abbrev pub unless_empty : List Local → Option (List Local)
unless_empty owners = if is_empty owners then none else some owners

unfoldable pub invalidate_owner : TrackingDomain → Local → TrackingDomain
invalidate_owner s owner =
    let removed = filter_map (λ _ owners. some (remove owners owner)) s.owner_alias in
    record s { owner_alias = filter_map (λ _ owners. unless_empty owners) removed }

unfoldable pub owners_of : TrackingDomain → Local → List Local
owners_of s ptr = get_or (lookup s.owner_alias ptr) []

unfoldable pub clear_field_owned_for : TrackingDomain → Local → TrackingDomain
clear_field_owned_for s base = record s {
  field_owned = filter_map (λ k objs. if k.0 == base then none else some objs) s.field_owned;
}

-- `matches!(current, Some(Reconstituted) | Some(MaybeFreed))`
abbrev pub is_freed : Option HeapState → Bool
is_freed (some HeapState.reconstituted) = true
is_freed (some HeapState.maybe_freed) = true
is_freed _ = false

unfoldable pub escape_object : HeapMap → ObjectId → HeapMap
escape_object heap id =
    if not (is_freed (lookup heap id)) then put heap id HeapState.escaped else heap

unfoldable pub escape_objects : HeapMap → List ObjectId → HeapMap
unfolding escape_object
escape_objects heap [] = heap
escape_objects heap (id ∷ ids) = escape_objects (escape_object heap id) ids

unfoldable pub objects_for : TrackingDomain → Local → List ObjectId
objects_for s local = get_or (lookup s.points_to local) []

unfoldable pub escape_local : TrackingDomain → Local → TrackingDomain
unfolding escape_objects
escape_local s local = record s {
  points_to = erase s.points_to local;
  heap = elim (lookup s.points_to local) [ some objs ↦ escape_objects s.heap objs | none ↦ s.heap ];
  local_proto = erase s.local_proto local;
  owner_alias = erase s.owner_alias local;
}

-- `map_or(false, p)`
abbrev pub some_and : {A : Type 0} → (A → Bool) → Option A → Bool
some_and p none = false
some_and p (some a) = p a

abbrev pub is_forgotten : ProtocolState → Bool
is_forgotten ProtocolState.forgotten = true
is_forgotten _ = false

-- `typestate.values().any(p)`
unfoldable pub any_protocol : (ProtocolState → Bool) → TrackingDomain → Bool
any_protocol p s = any (λ k. some_and p (lookup s.typestate k)) (keys s.typestate)

unfoldable pub has_forgotten_protocol : TrackingDomain → Bool
unfolding any_protocol
has_forgotten_protocol s = s.untracked_forget_seen || any_protocol is_forgotten s

unfoldable pub has_hazard_protocol : TrackingDomain → Bool
unfolding any_protocol
has_hazard_protocol s = any_protocol protocol_is_hazard s

abbrev pub is_raw_owned : Option HeapState → Bool
is_raw_owned (some HeapState.raw_owned) = true
is_raw_owned _ = false

unfoldable pub ptr_is_raw_owned : TrackingDomain → Local → Bool
unfolding objects_for
ptr_is_raw_owned s local =
    let objs = objects_for s local in
    not (is_empty objs) && all (λ id. is_raw_owned (lookup s.heap id)) objs

pub data FreedKind : Type 0 where
  not_freed definite potential : FreedKind

abbrev pub is_reconstituted : Option HeapState → Bool
is_reconstituted (some HeapState.reconstituted) = true
is_reconstituted _ = false

-- The loop of `freed_kind`: `any_freed` and `all_reconstituted` after the objects.
abbrev pub freed_step : Option HeapState → Bool × Bool → Bool × Bool
freed_step (some HeapState.reconstituted) (any_freed, all_reconstituted) = (true, all_reconstituted)
freed_step (some HeapState.maybe_freed) (any_freed, all_reconstituted) = (true, false)
freed_step _ (any_freed, all_reconstituted) = (any_freed, false)

unfoldable pub freed_flags : HeapMap → List ObjectId → Bool × Bool → Bool × Bool
freed_flags heap [] flags = flags
freed_flags heap (id ∷ objs) flags = freed_flags heap objs (freed_step (lookup heap id) flags)

abbrev pub kind_of : Bool × Bool → FreedKind
kind_of (true, true) = FreedKind.definite
kind_of (true, false) = FreedKind.potential
kind_of _ = FreedKind.not_freed

unfoldable pub kind_in : HeapMap → List ObjectId → FreedKind
unfolding freed_flags
kind_in heap objs =
    if is_empty objs then FreedKind.not_freed else kind_of (freed_flags heap objs (false, true))

unfoldable pub freed_kind : TrackingDomain → Local → FreedKind
unfolding objects_for kind_in
freed_kind s local = kind_in s.heap (objects_for s local)
