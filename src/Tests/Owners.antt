-- ===== src/Tests/Owners.antt =====
-- Ownership on a small state: pointers 5 and 6 to object 7, which is reconstituted, and 8 to object
-- 9, which is owned; both 5 and 6 alias owner 1.
use san.Base.{[], ◌∷◌, false, some, ◌≡◌, ◌↔◌, refl, nat_eq, In, arith}
use san.Base.Sets.{contains}
use san.Base.Maps.{lookup}
use san.Object.{HeapState, ObjectId}
use san.Join.{join_or_insert}
use san.Join.Each.Values.{join_or_insert-keeps}
use san.State.Locals.{Local}
use san.State.Tracking.{TrackingDomain}
use san.State.Ownership.{
  FreedKind, freed_kind, is_freed, is_empty, objects_for, escape_local, kind_in, freed_flags,
}
use san.State.Ownership.Freed.{freed_kind_lem}
use san.State.Ownership.Escape.{escaped_from, escape_local_lem}

abbrev pub owned : TrackingDomain
owned = record {
  heap = (7, HeapState.reconstituted) ∷ (9, HeapState.raw_owned) ∷ [];
  points_to = (5, 7 ∷ []) ∷ (6, 7 ∷ []) ∷ (8, 9 ∷ []) ∷ [];
  local_proto = [];
  typestate = [];
  untracked_forget_seen = false;
  owner_alias = (5, 1 ∷ []) ∷ (6, 1 ∷ 2 ∷ []) ∷ [];
  fn_ptr_targets = [];
  realloced_params = [];
  field_owned = [];
}

definite_5 : freed_kind owned 5 ≡ FreedKind.definite
unfolding freed_kind kind_in freed_flags objects_for lookup
definite_5 = refl

freed_kind_lem_example :
    ((freed_kind owned 5 ≡ FreedKind.not_freed)
      ↔ ((id : ObjectId) → In id (objects_for owned 5) → is_freed (lookup owned.heap id) ≡ false))
    × ((freed_kind owned 5 ≡ FreedKind.definite) ↔ (
        (is_empty (objects_for owned 5) ≡ false)
        × ((id : ObjectId)
            → In id (objects_for owned 5)
            → lookup owned.heap id ≡ some HeapState.reconstituted)))
freed_kind_lem_example = freed_kind_lem owned 5

escape_local_lem_example :
    ((id : ObjectId)
      → lookup (escape_local owned 8).heap id
        ≡ escaped_from (contains (objects_for owned 8) id) (lookup owned.heap id))
    × (objects_for (escape_local owned 8) 8 ≡ [])
    × (objects_for (escape_local owned 8) 5 ≡ objects_for owned 5)
    × (freed_kind (escape_local owned 8) 5 ≡ freed_kind owned 5)
escape_local_lem_example = escape_local_lem owned 8 5 (λ q. absurd (ground arith))

one_fact : lookup {K = Local} {V = Local} ((4, 2) ∷ []) 4 ≡ some 2
unfolding lookup
one_fact = refl

-- A fact of one path stays although the other path has another fact, or none.
join_or_insert-keeps_example :
    lookup {K = Local} {V = Local} (join_or_insert ((4, 2) ∷ []) ((4, 3) ∷ [])).0 4 ≡ some 2
join_or_insert-keeps_example = join_or_insert-keeps ((4, 2) ∷ []) ((4, 3) ∷ []) 4 2 one_fact
