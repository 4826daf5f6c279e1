-- ===== src/State/Ownership/Escape.antt =====
-- What `escape_local` does to the objects of a local (crates/san/src/analysis/state.rs).
use san.Base.{
  List, [], ◌∷◌, Bool, true, false, Option, none, some, ◌≡◌, ◌≢◌, ◌∙◌, refl, sym, ap, ap₂, any, all,
  nat_eq, nat_beq_iff, ◌==◌, ◌&&◌, ◌||◌, arith, if◌then◌else◌, Bool-cases, inl, inr,
}
use san.Base.Sets.{contains}
use san.Base.Maps.{lookup, erase, lookup-put, lookup-erase}
use san.Object.{ObjectId, HeapState, HeapMap}
use san.Join.{get_or}
use san.State.Locals.{Local}
use san.State.Tracking.{TrackingDomain}
use san.State.Ownership.{
  is_freed, is_reconstituted, escape_object, escape_objects, escape_local, objects_for, kind_in,
  kind_of, freed_kind,
}
use san.State.Ownership.Freed.{kind_of_lem, freed_in, reconstituted_in}

-- The state of an object once it may have escaped.
abbrev pub escaped_from : Bool → Option HeapState → Option HeapState
escaped_from true o = if is_freed o then o else some HeapState.escaped
escaped_from false o = o

lookup-escape_object :
    (heap : HeapMap) (id j : ObjectId)
    → lookup (escape_object heap id) j ≡ escaped_from (id == j) (lookup heap j)
unfolding escape_object
lookup-escape_object heap id j = elim (Bool-cases (id == j)) [
  | inl same ↦
      rw ((nat_beq_iff id j).0 same)
        (ground (arith, lookup-put heap j HeapState.escaped j, nat_beq_iff j j))
  | inr other ↦ ground (arith, lookup-put heap id HeapState.escaped j)
]

escaped_from_twice :
    (b c : Bool) (o : Option HeapState)
    → escaped_from c (escaped_from b o) ≡ escaped_from (b || c) o
escaped_from_twice true true none = refl
escaped_from_twice true true (some h) = ground arith
escaped_from_twice b false o = ground arith
escaped_from_twice false true o = ground arith

lookup-escape_objects :
    (heap : HeapMap) (ids : List ObjectId) (j : ObjectId)
    → lookup (escape_objects heap ids) j ≡ escaped_from (contains ids j) (lookup heap j)
unfolding escape_objects contains
lookup-escape_objects heap [] j = refl
lookup-escape_objects heap (id ∷ ids) j =
    lookup-escape_objects (escape_object heap id) ids j
    ∙ (ap (escaped_from (contains ids j)) (lookup-escape_object heap id j)
        ∙ escaped_from_twice (id == j) (contains ids j) (lookup heap j))

lookup-escaped_heap :
    (heap : HeapMap) (o : Option (List ObjectId)) (j : ObjectId)
    → lookup (elim o [ some objs ↦ escape_objects heap objs | none ↦ heap ]) j
      ≡ escaped_from (contains (get_or o []) j) (lookup heap j)
unfolding contains
lookup-escaped_heap heap none j = refl
lookup-escaped_heap heap (some objs) j = lookup-escape_objects heap objs j

lookup-escape_local :
    (s : TrackingDomain) (local : Local) (j : ObjectId)
    → lookup (escape_local s local).heap j
      ≡ escaped_from (contains (objects_for s local) j) (lookup s.heap j)
unfolding escape_local objects_for
lookup-escape_local s local j = lookup-escaped_heap s.heap (lookup s.points_to local) j

any_cong : {A : Type 0} (p q : A → Bool) (xs : List A) → ((a : A) → p a ≡ q a) → any p xs ≡ any q xs
any_cong p q [] h = refl
any_cong p q (x ∷ xs) h = ap₂ ◌||◌ (h x) (any_cong p q xs h)

all_cong : {A : Type 0} (p q : A → Bool) (xs : List A) → ((a : A) → p a ≡ q a) → all p xs ≡ all q xs
all_cong p q [] h = refl
all_cong p q (x ∷ xs) h = ap₂ ◌&&◌ (h x) (all_cong p q xs h)

-- Heaps with the same freed and the same reconstituted objects give the same answers.
kind_in_cong :
    (h k : HeapMap) (objs : List ObjectId)
    → ((id : ObjectId) → is_freed (lookup h id) ≡ is_freed (lookup k id))
    → ((id : ObjectId) → is_reconstituted (lookup h id) ≡ is_reconstituted (lookup k id))
    → kind_in h objs ≡ kind_in k objs
unfolding kind_in
kind_in_cong h k [] freed gone = refl
kind_in_cong h k (id ∷ objs) freed gone =
    kind_of_lem h id objs
    ∙ (ap₂ (λ f r. kind_of (f, r)) (any_cong (freed_in h) (freed_in k) (id ∷ objs) freed)
          (all_cong (reconstituted_in h) (reconstituted_in k) (id ∷ objs) gone)
        ∙ sym (kind_of_lem k id objs))

is_freed-escaped_from : (b : Bool) (o : Option HeapState) → is_freed (escaped_from b o) ≡ is_freed o
is_freed-escaped_from false o = refl
is_freed-escaped_from true o = ground arith

is_reconstituted-escaped_from :
    (b : Bool) (o : Option HeapState) → is_reconstituted (escaped_from b o) ≡ is_reconstituted o
is_reconstituted-escaped_from false o = refl
is_reconstituted-escaped_from true none = refl
is_reconstituted-escaped_from true (some HeapState.raw_owned) = refl
is_reconstituted-escaped_from true (some HeapState.reconstituted) = refl
is_reconstituted-escaped_from true (some HeapState.maybe_freed) = refl
is_reconstituted-escaped_from true (some HeapState.escaped) = refl

objects_for-escape_local :
    (s : TrackingDomain) (local other : Local)
    → local ≢ other
    → objects_for (escape_local s local) other ≡ objects_for s other
unfolding objects_for escape_local
objects_for-escape_local s local other ne =
    let same : lookup (erase s.points_to local) other ≡ lookup s.points_to other =
      ground (arith, lookup-erase s.points_to local other, nat_beq_iff local other) in
    ap (λ o. get_or o []) same

objects_for-escape_local_self :
    (s : TrackingDomain) (local : Local) → objects_for (escape_local s local) local ≡ []
unfolding objects_for escape_local
objects_for-escape_local_self s local =
    let gone : lookup (erase s.points_to local) local ≡ none =
      ground (arith, lookup-erase s.points_to local local, nat_beq_iff local local) in
    ap (λ o. get_or o []) gone

-- When a local escapes, its objects do, except those that are freed, which keep their state; no
-- other object changes. The local is no longer tracked, and what another local is known to point
-- to, with the answer whether its use is a use after free, stays as it was.
pub escape_local_lem :
    (s : TrackingDomain) (local other : Local)
    → local ≢ other
    → ((id : ObjectId)
        → lookup (escape_local s local).heap id
          ≡ escaped_from (contains (objects_for s local) id) (lookup s.heap id))
      × (objects_for (escape_local s local) local ≡ [])
      × (objects_for (escape_local s local) other ≡ objects_for s other)
      × (freed_kind (escape_local s local) other ≡ freed_kind s other)
unfolding freed_kind
escape_local_lem s local other ne =
    let heap' = lookup-escape_local s local in
    (
      heap',
      objects_for-escape_local_self s local,
      objects_for-escape_local s local other ne,
      ap (kind_in (escape_local s local).heap) (objects_for-escape_local s local other ne)
          ∙ kind_in_cong (escape_local s local).heap s.heap (objects_for s other)
              (λ id.
                ap is_freed (heap' id)
                ∙ is_freed-escaped_from (contains (objects_for s local) id) (lookup s.heap id))
              (λ id.
                ap is_reconstituted (heap' id)
                ∙ is_reconstituted-escaped_from (contains (objects_for s local) id)
                    (lookup s.heap id)),
    )
