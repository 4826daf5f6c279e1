-- ===== src/Transfer/Ownership/Stale.antt =====
-- A reallocation makes the pointers into its buffer stale (`apply_terminator` of
-- crates/san/src/analysis/transfer.rs).
use san.Base.{[], ◌∷◌, some, ◌≡◌, nat_eq, list_eq}
use san.Base.Maps.{lookup}
use san.Object.{HeapState}
use san.State.Locals.{Local}
use san.State.Tracking.{TrackingDomain}
use san.Transfer.Calls.{stale_object}

-- A pointer with its own object, which is potentially freed.
record IsStale (s : TrackingDomain) (q : Local) : Type 0 where
  points : lookup s.points_to q ≡ some (stale_object q ∷ [])
  freed : lookup s.heap (stale_object q) ≡ some HeapState.maybe_freed
