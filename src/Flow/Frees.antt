-- ===== src/Flow/Frees.antt =====
-- A double free is reported exactly where a use of the pointer would be a use after free
-- (crates/san/src/checkers/flow/ownership.rs, with `freed_kind` of
-- crates/san/src/analysis/state.rs).
use san.Base.{
  ℕ, List, [], ◌∷◌, ◌++◌, false, Option, none, some, ◌≡◌, ◌↔◌, ◌⊎◌, ◌∙◌, inl, inr, refl, ap, ap₂,
  leb, In, append_nil, head, tail, arith, Bool-cases, nat_eq,
}
use san.Base.Maps.{lookup}
use san.Base.Texts.{Text}
use san.Object.{ObjectId, HeapState, HeapMap}
use san.State.Locals.{Local}
use san.State.Tracking.{TrackingDomain}
use san.State.Ownership.{FreedKind, freed_kind, is_freed, objects_for}
use san.State.Ownership.Freed.{freed_kind_lem}
use san.Summary.{ascending, insert_sorted}
use san.Flow.{BlockView}
use san.Flow.Ownership.{double_free_object, double_free_objects, double_free}

-- Sorting keeps the elements.
In-insert_sorted : (x : ℕ) (ys : List ℕ) (a : ℕ) → In a (insert_sorted x ys) ↔ ((a ≡ x) ⊎ In a ys)
unfolding insert_sorted
In-insert_sorted x [] a = (
  λ m. elim m [ head q ↦ inl q | tail n ↦ elim n [ ] ],
  λ s. elim s [ inl q ↦ head q | inr n ↦ elim n [ ] ],
)
In-insert_sorted x (y ∷ ys) a = elim (Bool-cases (leb x y)) [
  | inl first ↦ rw first (
    λ m. elim m [ head q ↦ inl q | tail n ↦ inr n ],
    λ s. elim s [ inl q ↦ head q | inr n ↦ tail n ],
  )
  | inr later ↦ rw later (
    λ m. elim m [
      | head q ↦ inr (head q)
      | tail n ↦ elim ((In-insert_sorted x ys a).0 n) [ inl q ↦ inl q | inr k ↦ inr (tail k) ]
    ],
    λ s. elim s [
      | inl q ↦ tail ((In-insert_sorted x ys a).1 (inl q))
      | inr n ↦ elim n [ head q ↦ head q | tail k ↦ tail ((In-insert_sorted x ys a).1 (inr k)) ]
    ],
  )
]

pub In-ascending : (xs : List ℕ) (a : ℕ) → In a (ascending xs) ↔ In a xs
unfolding ascending
In-ascending [] a = (λ m. m, λ m. m)
In-ascending (x ∷ xs) a = (
  λ m. elim ((In-insert_sorted x (ascending xs) a).0 m) [
    | inl q ↦ head q
    | inr n ↦ tail ((In-ascending xs a).0 n)
  ],
  λ m. elim m [
    | head q ↦ (In-insert_sorted x (ascending xs) a).1 (inl q)
    | tail n ↦ (In-insert_sorted x (ascending xs) a).1 (inr ((In-ascending xs a).1 n))
  ],
)

silent_object :
    (b : BlockView) (name : Text) (o : Option HeapState)
    → (double_free_object b name o ≡ []) ↔ (is_freed o ≡ false)
silent_object b name none = (λ h. refl, λ h. refl)
silent_object b name (some HeapState.raw_owned) = (λ h. refl, λ h. refl)
silent_object b name (some HeapState.escaped) = (λ h. refl, λ h. refl)
silent_object b name (some HeapState.reconstituted) =
    (λ h. absurd (ground arith), λ h. absurd (ground arith))
silent_object b name (some HeapState.maybe_freed) =
    (λ h. absurd (ground arith), λ h. absurd (ground arith))

silent_objects :
    (b : BlockView) (name : Text) (heap : HeapMap) (objs : List ObjectId)
    → (double_free_objects b name heap objs ≡ [])
      ↔ ((id : ObjectId) → In id objs → is_freed (lookup heap id) ≡ false)
unfolding double_free_objects
silent_objects b name heap [] = (λ h id m. elim m [ ], λ h. refl)
silent_objects b name heap (obj ∷ objs) = (
  λ h id m.
      let (one, rest) =
        append_nil (double_free_object b name (lookup heap obj))
          (double_free_objects b name heap objs) h in
      elim m [
        | head q ↦
            ap (λ i. is_freed (lookup heap i)) q ∙ (silent_object b name (lookup heap obj)).0 one
        | tail n ↦ (silent_objects b name heap objs).0 rest id n
      ],
  λ h.
      ap₂ ◌++◌ ((silent_object b name (lookup heap obj)).1 (h obj (head refl)))
        ((silent_objects b name heap objs).1 (λ id m. h id (tail m))),
)

-- Freeing a pointer is reported as a double free exactly if a use of the pointer at that point is a
-- definite or a potential use after free.
pub double_free_lem :
    (b : BlockView) (name : Text) (s : TrackingDomain) (l : Local)
    → (double_free b name s l ≡ []) ↔ (freed_kind s l ≡ FreedKind.not_freed)
unfolding double_free
double_free_lem b name s l =
    let silent = silent_objects b name s.heap (ascending (objects_for s l)) in
    let kind = (freed_kind_lem s l).0 in
    let perm = In-ascending (objects_for s l) in
    (
      λ h. kind.1 (λ id m. silent.0 h id ((perm id).1 m)),
      λ h. silent.1 (λ id m. kind.0 h id ((perm id).0 m)),
    )
