-- ===== src/State/Ownership/Freed.antt =====
-- When the use of a pointer is a use after free (crates/san/src/analysis/state.rs).
use san.Base.{
  List, [], ◌∷◌, Bool, true, false, Option, none, some, ◌≡◌, ◌↔◌, ◌∙◌, refl, ap, nat_eq, ◌&&◌, ◌||◌,
  arith, any, all, In, head, tail, sym, subst,
}
use san.Base.Maps.{lookup}
use san.Object.{HeapState, HeapMap, ObjectId}
use san.State.Locals.{Local}
use san.State.Tracking.{TrackingDomain}
use san.State.Ownership.{
  is_empty, is_freed, is_reconstituted, freed_step, FreedKind, freed_kind, freed_flags, objects_for,
  kind_in, kind_of,
}

abbrev pub freed_in : HeapMap → ObjectId → Bool
freed_in heap id = is_freed (lookup heap id)

abbrev pub reconstituted_in : HeapMap → ObjectId → Bool
reconstituted_in heap id = is_reconstituted (lookup heap id)

freed_step_lem :
    (o : Option HeapState) (f r : Bool)
    → freed_step o (f, r) ≡ (f || is_freed o, r && is_reconstituted o)
freed_step_lem none f r = ground arith
freed_step_lem (some HeapState.raw_owned) f r = ground arith
freed_step_lem (some HeapState.reconstituted) f r = ground arith
freed_step_lem (some HeapState.maybe_freed) f r = ground arith
freed_step_lem (some HeapState.escaped) f r = ground arith

freed_flags_lem :
    (heap : HeapMap) (objs : List ObjectId) (f r : Bool)
    → freed_flags heap objs (f, r)
      ≡ (f || any (freed_in heap) objs, r && all (reconstituted_in heap) objs)
unfolding freed_flags
freed_flags_lem heap [] f r = ground arith
freed_flags_lem heap (id ∷ objs) f r =
    ap (freed_flags heap objs) (freed_step_lem (lookup heap id) f r)
    ∙ (freed_flags_lem heap objs (f || freed_in heap id) (r && reconstituted_in heap id)
        ∙ ground arith)

any-false :
    {A : Type 0} (p : A → Bool) (xs : List A)
    → (any p xs ≡ false) ↔ ((a : A) → In a xs → p a ≡ false)
any-false p [] = (λ h a m. elim m [ ], λ h. refl)
any-false p (x ∷ xs) = (
  λ h a m. elim m [
    | head q ↦ ap p q ∙ ground arith
    | tail m' ↦ (any-false p xs).0 (ground arith) a m'
  ],
  λ h. ground (arith, h x (head refl), (any-false p xs).1 (λ a m. h a (tail m))),
)

all-true :
    {A : Type 0} (p : A → Bool) (xs : List A) → (all p xs ≡ true) ↔ ((a : A) → In a xs → p a ≡ true)
all-true p [] = (λ h a m. elim m [ ], λ h. refl)
all-true p (x ∷ xs) = (
  λ h a m. elim m [
    | head q ↦ ap p q ∙ ground arith
    | tail m' ↦ (all-true p xs).0 (ground arith) a m'
  ],
  λ h. ground (arith, h x (head refl), (all-true p xs).1 (λ a m. h a (tail m))),
)

is_reconstituted_iff :
    (o : Option HeapState) → (is_reconstituted o ≡ true) ↔ (o ≡ some HeapState.reconstituted)
is_reconstituted_iff none = ground arith
is_reconstituted_iff (some HeapState.raw_owned) = ground arith
is_reconstituted_iff (some HeapState.reconstituted) = ground arith
is_reconstituted_iff (some HeapState.maybe_freed) = ground arith
is_reconstituted_iff (some HeapState.escaped) = ground arith

reconstituted_is_freed : (o : Option HeapState) → is_reconstituted o ≡ true → is_freed o ≡ true
reconstituted_is_freed o h =
    subst (λ o. is_freed o ≡ true) (sym ((is_reconstituted_iff o).0 h)) refl

-- The answers by the two flags; an object that is reconstituted is freed.
pub kind_of_lem :
    (heap : HeapMap) (id : ObjectId) (objs : List ObjectId)
    → kind_in heap (id ∷ objs)
      ≡ kind_of (any (freed_in heap) (id ∷ objs), all (reconstituted_in heap) (id ∷ objs))
unfolding kind_in
kind_of_lem heap id objs = ap kind_of (freed_flags_lem heap (id ∷ objs) false true)

kind_in_not_freed :
    (heap : HeapMap) (objs : List ObjectId)
    → (kind_in heap objs ≡ FreedKind.not_freed) ↔ (any (freed_in heap) objs ≡ false)
unfolding kind_in
kind_in_not_freed heap [] = (λ _. refl, λ _. refl)
kind_in_not_freed heap (id ∷ objs) =
    ground (arith, kind_of_lem heap id objs, reconstituted_is_freed (lookup heap id))

kind_in_definite :
    (heap : HeapMap) (objs : List ObjectId)
    → (kind_in heap objs ≡ FreedKind.definite)
      ↔ ((is_empty objs ≡ false) × (all (reconstituted_in heap) objs ≡ true))
unfolding kind_in
kind_in_definite heap [] = (λ h. absurd (ground arith), λ h. absurd (ground arith))
kind_in_definite heap (id ∷ objs) =
    ground (arith, kind_of_lem heap id objs, reconstituted_is_freed (lookup heap id))

-- A use of a pointer is no use after free exactly when none of its objects is freed, and a
-- definite one exactly when it has objects and all of them are reconstituted.
pub freed_kind_lem :
    (s : TrackingDomain) (local : Local)
    → ((freed_kind s local ≡ FreedKind.not_freed)
        ↔ ((id : ObjectId) → In id (objects_for s local) → is_freed (lookup s.heap id) ≡ false))
      × ((freed_kind s local ≡ FreedKind.definite) ↔ (
          (is_empty (objects_for s local) ≡ false)
          × ((id : ObjectId)
              → In id (objects_for s local)
              → lookup s.heap id ≡ some HeapState.reconstituted)))
unfolding freed_kind
freed_kind_lem s local =
    let objs = objects_for s local in
    let none_freed = kind_in_not_freed s.heap objs in
    let all_gone = kind_in_definite s.heap objs in
    let anys = any-false (freed_in s.heap) objs in
    let alls = all-true (reconstituted_in s.heap) objs in
    (
      (λ h. anys.0 (none_freed.0 h), λ h. none_freed.1 (anys.1 h)),
      (
        λ h.
            let (full, gone) = all_gone.0 h in
            (full, λ id m. (is_reconstituted_iff (lookup s.heap id)).0 (alls.0 gone id m)),
        λ h.
            all_gone.1
              (h.0, alls.1 (λ id m. (is_reconstituted_iff (lookup s.heap id)).1 (h.1 id m))),
      ),
    )
