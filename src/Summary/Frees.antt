-- ===== src/Summary/Frees.antt =====
-- What a call of a function that frees a parameter, or returns a fresh pointer, leaves behind
-- (crates/san/src/analysis/summary.rs).
use san.Base.{
  List, [], ◌∷◌, Bool, true, false, ◌||◌, Option, none, some, ◌≡◌, ◌∙◌, inl, inr, refl, sym, ap,
  subst, ◌==◌, nat_eq, nat_beq_iff, arith, Bool-cases, all, In, head, tail,
}
use san.Base.Maps.{lookup, erase, lookup-put, lookup-put_self}
use san.Base.Sets.{contains, In-contains}
use san.Object.{ObjectId, HeapState, HeapMap}
use san.Join.{get_or}
use san.State.Locals.{Local, BasicBlock}
use san.State.Tracking.{TrackingDomain}
use san.State.Ownership.{
  objects_for, is_raw_owned, is_empty, ptr_is_raw_owned, FreedKind, freed_kind,
}
use san.State.Ownership.Freed.{freed_kind_lem}
use san.Mir.{Operand, Body}
use san.Summary.{ParamHeapEffect, FnSummary}
use san.Summary.Apply.{
  take_object, reconstitute, apply_effect, apply_return, apply_effects, alias_named, copy_named,
  call_object, apply_fn_summary,
}

-- The state of an object that a callee may have taken.
abbrev pub taken_from : Bool → Option HeapState → Option HeapState
taken_from true (some HeapState.raw_owned) = some HeapState.reconstituted
taken_from true o = o
taken_from false o = o

taken_from_twice :
    (b c : Bool) (o : Option HeapState) → taken_from c (taken_from b o) ≡ taken_from (b || c) o
taken_from_twice false c o = refl
taken_from_twice true false o = refl
taken_from_twice true true none = refl
taken_from_twice true true (some HeapState.raw_owned) = refl
taken_from_twice true true (some HeapState.reconstituted) = refl
taken_from_twice true true (some HeapState.maybe_freed) = refl
taken_from_twice true true (some HeapState.escaped) = refl

raw_owned_taken :
    (o : Option HeapState)
    → is_raw_owned o ≡ true
    → taken_from true o ≡ some HeapState.reconstituted
raw_owned_taken none h = absurd (ground arith)
raw_owned_taken (some HeapState.raw_owned) h = refl
raw_owned_taken (some HeapState.reconstituted) h = absurd (ground arith)
raw_owned_taken (some HeapState.maybe_freed) h = absurd (ground arith)
raw_owned_taken (some HeapState.escaped) h = absurd (ground arith)

others_kept : (b : Bool) (o : Option HeapState) → is_raw_owned o ≡ false → taken_from b o ≡ o
others_kept false o h = refl
others_kept true none h = refl
others_kept true (some HeapState.raw_owned) h = absurd (ground arith)
others_kept true (some HeapState.reconstituted) h = refl
others_kept true (some HeapState.maybe_freed) h = refl
others_kept true (some HeapState.escaped) h = refl

lookup-take_object :
    (heap : HeapMap) (id j : ObjectId)
    → lookup (take_object heap id) j ≡ taken_from (id == j) (lookup heap j)
unfolding take_object
lookup-take_object heap id j = elim (Bool-cases (is_raw_owned (lookup heap id))) [
  | inl owned ↦ elim (Bool-cases (id == j)) [
    | inl same ↦
        let q : lookup heap id ≡ lookup heap j = ap (lookup heap) ((nat_beq_iff id j).0 same) in
        let taken = raw_owned_taken (lookup heap j) (ap is_raw_owned (sym q) ∙ owned) in
        rw (owned, same) (ground (arith, lookup-put heap id HeapState.reconstituted j, taken))
    | inr other ↦ rw (owned, other) (ground (arith, lookup-put heap id HeapState.reconstituted j))
  ]
  | inr free ↦ elim (Bool-cases (id == j)) [
    | inl same ↦
        let q : lookup heap id ≡ lookup heap j = ap (lookup heap) ((nat_beq_iff id j).0 same) in
        rw (free, same) (sym (others_kept true (lookup heap j) (ap is_raw_owned (sym q) ∙ free)))
    | inr other ↦ rw (free, other) refl
  ]
]

lookup-reconstitute :
    (heap : HeapMap) (ids : List ObjectId) (j : ObjectId)
    → lookup (reconstitute heap ids) j ≡ taken_from (contains ids j) (lookup heap j)
unfolding reconstitute contains
lookup-reconstitute heap [] j = refl
lookup-reconstitute heap (id ∷ ids) j =
    lookup-reconstitute (take_object heap id) ids j
    ∙ (ap (taken_from (contains ids j)) (lookup-take_object heap id j)
        ∙ taken_from_twice (id == j) (contains ids j) (lookup heap j))

all_In_raw :
    (p : ObjectId → Bool) (xs : List ObjectId)
    → all p xs ≡ true
    → (a : ObjectId) → In a xs
    → p a ≡ true
all_In_raw p [] h a m = elim m [ ]
all_In_raw p (x ∷ xs) h a (head q) = ap p q ∙ ground arith
all_In_raw p (x ∷ xs) h a (tail m) = all_In_raw p xs (ground arith) a m

ptr_is_raw_owned_lem :
    (s : TrackingDomain) (l : Local)
    → ptr_is_raw_owned s l ≡ true
    → (is_empty (objects_for s l) ≡ false)
      × ((id : ObjectId) → In id (objects_for s l) → is_raw_owned (lookup s.heap id) ≡ true)
unfolding ptr_is_raw_owned
ptr_is_raw_owned_lem s l h = (
  ground arith,
  all_In_raw (λ id. is_raw_owned (lookup s.heap id)) (objects_for s l) (ground arith),
)

objects_for-apply_effect :
    (s : TrackingDomain) (l k : Local)
    → objects_for (apply_effect s l ParamHeapEffect.reconstituted) k ≡ objects_for s k
unfolding apply_effect objects_for
objects_for-apply_effect s l k = refl

lookup-apply_effect :
    (s : TrackingDomain) (l : Local) (j : ObjectId)
    → lookup (apply_effect s l ParamHeapEffect.reconstituted).heap j
      ≡ taken_from (contains (objects_for s l) j) (lookup s.heap j)
unfolding apply_effect
lookup-apply_effect s l j = lookup-reconstitute s.heap (objects_for s l) j

pub apply_effect_frees :
    (s : TrackingDomain) (arg ptr : Local)
    → ptr_is_raw_owned s ptr ≡ true
    → ((id : ObjectId) → In id (objects_for s ptr) → In id (objects_for s arg))
    → freed_kind (apply_effect s arg ParamHeapEffect.reconstituted) ptr ≡ FreedKind.definite
apply_effect_frees s arg ptr owned within =
    let (full, live) = ptr_is_raw_owned_lem s ptr owned in
    let s' = apply_effect s arg ParamHeapEffect.reconstituted in
    let same = objects_for-apply_effect s arg ptr in
    (freed_kind_lem s' ptr).1.1 (
      ap is_empty same ∙ full,
      λ id m.
          let m' = subst (λ objs. In id objs) same m in
          lookup-apply_effect s arg id
          ∙ (ap (λ b. taken_from b (lookup s.heap id)) (In-contains (within id m'))
              ∙ raw_owned_taken (lookup s.heap id) (live id m')),
    )

apply_return_owned :
    (s : TrackingDomain) (dest : Local) (call_bb : BasicBlock)
    → (objects_for (apply_return s dest call_bb true) dest ≡ call_object call_bb ∷ [])
      × (lookup (apply_return s dest call_bb true).heap (call_object call_bb)
          ≡ some HeapState.raw_owned)
unfolding apply_return objects_for
apply_return_owned s dest call_bb = (
  ap (λ o. get_or o []) (lookup-put_self s.points_to dest (call_object call_bb ∷ [])),
  lookup-put_self s.heap (call_object call_bb) HeapState.raw_owned,
)

pub raw_owned_one :
    (s : TrackingDomain) (l : Local) (id : ObjectId)
    → objects_for s l ≡ id ∷ []
    → lookup s.heap id ≡ some HeapState.raw_owned
    → ptr_is_raw_owned s l ≡ true
unfolding ptr_is_raw_owned
raw_owned_one s l id e h = rw (ptr_is_raw_owned, e, h) refl

-- With no alias and no pointer of a parameter to pass on, the rest changes no object.
unnamed :
    (s : TrackingDomain) (body : Body) (dest : Local)
    → ptr_is_raw_owned
        (copy_named
          (alias_named (record s { owner_alias = erase s.owner_alias dest }) body dest none)
          dest
          none)
        dest
      ≡ ptr_is_raw_owned s dest
unfolding alias_named copy_named ptr_is_raw_owned objects_for
unnamed s body dest = refl

-- A callee that returns a fresh allocation makes the destination of the call an owned pointer,
-- whatever it does to its parameters and whatever the destination pointed to before.
pub apply_fn_summary_owned :
    (s : TrackingDomain) (body : Body) (args : List Operand) (dest : Local) (call_bb : BasicBlock)
    (summary : FnSummary)
    → summary.returns_raw_owned ≡ true
    → summary.returns_alias_of_param ≡ none
    → summary.returns_ptr_of_param ≡ none
    → ptr_is_raw_owned (apply_fn_summary s body args dest call_bb summary) dest ≡ true
unfolding apply_fn_summary
apply_fn_summary_owned s body args dest call_bb summary raw alias ptr =
    let affected = apply_effects s args summary.param_effects in
    let (e, h) = apply_return_owned affected dest call_bb in
    let returned = apply_return affected dest call_bb true in
    rw (apply_fn_summary, raw, alias, ptr)
      (unnamed returned body dest ∙ raw_owned_one returned dest (call_object call_bb) e h)
