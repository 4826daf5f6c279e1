-- ===== src/Transfer/Ownership/Moves.antt =====
-- Ownership follows a move and is shared by a copy (`apply_statement` of
-- crates/san/src/analysis/transfer.rs).
use san.Base.{
  List, [], ◌∷◌, ◌≡◌, refl, ap, ap₂, ◌∙◌, nat_eq, arith, nat_beq_iff, ◌==◌, inl, inr, Option-cases,
  if◌then◌else◌,
}
use san.Base.Maps.{Map, lookup, put, erase, lookup-put, lookup-erase}
use san.Object.{ObjectId}
use san.Join.{get_or}
use san.State.Locals.{Local}
use san.State.{BlockState}
use san.State.Ownership.{objects_for, freed_kind, kind_in, is_empty}
use san.Mir.{Body, copy, move, use_of, assign}
use san.Transfer.Moves.{move_set_entry, copy_entry, move_local, copy_local}
use san.Transfer.Statement.{
  apply_statement, assign_local, prepare_assign, assign_rvalue, assign_use,
}
use san.Transfer.Sound.Ranges.{plain}

module _ (dst src : Local) where
  get_or-move_set_entry :
      (m : Map Local (List ObjectId)) (l : Local)
      → get_or (lookup (move_set_entry dst src m) l) [] ≡ (
          if dst == l
          then get_or (lookup m src) []
          else if src == l
          then []
          else get_or (lookup m l) [])
  unfolding move_set_entry
  get_or-move_set_entry m l = elim (Option-cases (lookup m src)) [
    | inl n ↦
        rw (n, move_set_entry)
          (ground (arith, lookup-erase (erase m src) dst l, lookup-erase m src l))
    | inr (v, y) ↦ rw (y, move_set_entry) (split v m l)
  ]
    where
      split :
          (v : List ObjectId) (m : Map Local (List ObjectId)) (l : Local)
          → get_or
              (lookup (if is_empty v then erase (erase m src) dst else put (erase m src) dst v) l)
              []
            ≡ (if dst == l then v else if src == l then [] else get_or (lookup m l) [])
      split [] m l = ground (arith, lookup-erase (erase m src) dst l, lookup-erase m src l)
      split (x ∷ v) m l =
          ground (arith, lookup-put (erase m src) dst (x ∷ v) l, lookup-erase m src l)

  get_or-copy_entry :
      (m : Map Local (List ObjectId)) (l : Local)
      → get_or (lookup (copy_entry dst src m) l) []
        ≡ (if dst == l then get_or (lookup m src) [] else get_or (lookup m l) [])
  unfolding copy_entry
  get_or-copy_entry m l = elim (Option-cases (lookup m src)) [
    | inl n ↦ rw (n, copy_entry) (ground (arith, lookup-erase m dst l))
    | inr (v, y) ↦ rw (y, copy_entry) (ground (arith, lookup-put m dst v l))
  ]

module _ (s : BlockState) (body : Body) (dst src : Local) where
  -- `dst = move src` and `dst = copy src`
  abbrev pub moved : BlockState
  moved = apply_statement s body (assign (plain dst) (use_of (move (plain src))))

  abbrev pub copied : BlockState
  copied = apply_statement s body (assign (plain dst) (use_of (copy (plain src))))

  moved_tracking : (moved.heap ≡ s.heap) × (moved.points_to ≡ move_set_entry dst src s.points_to)
  unfolding apply_statement assign_local prepare_assign assign_rvalue assign_use move_local
  moved_tracking = (refl, refl)

  copied_tracking : (copied.heap ≡ s.heap) × (copied.points_to ≡ copy_entry dst src s.points_to)
  unfolding apply_statement assign_local prepare_assign assign_rvalue assign_use copy_local
  copied_tracking = (refl, refl)

  objects_for-moved :
      (l : Local)
      → objects_for moved.tracking_domain l ≡ (
          if dst == l
          then objects_for s.tracking_domain src
          else if src == l
          then []
          else objects_for s.tracking_domain l)
  unfolding objects_for
  objects_for-moved l =
      ap (λ m. get_or (lookup m l) []) moved_tracking.1
      ∙ get_or-move_set_entry dst src s.points_to l

  objects_for-copied :
      (l : Local)
      → objects_for copied.tracking_domain l
        ≡ (if dst == l then objects_for s.tracking_domain src else objects_for s.tracking_domain l)
  unfolding objects_for
  objects_for-copied l =
      ap (λ m. get_or (lookup m l) []) copied_tracking.1 ∙ get_or-copy_entry dst src s.points_to l

  -- A move hands the objects of its source to its destination, and leaves the source without any; a
  -- copy shares them. Both leave the objects of the other locals and the state of every object as
  -- they are, so that a use of the destination is a use after free exactly if one of the source was.
  pub use_ownership :
      ((l : Local)
        → objects_for moved.tracking_domain l ≡ (
            if dst == l
            then objects_for s.tracking_domain src
            else if src == l
            then []
            else objects_for s.tracking_domain l))
      × ((l : Local)
          → objects_for copied.tracking_domain l ≡ (
              if dst == l
              then objects_for s.tracking_domain src
              else objects_for s.tracking_domain l))
      × (freed_kind moved.tracking_domain dst ≡ freed_kind s.tracking_domain src)
      × (freed_kind copied.tracking_domain dst ≡ freed_kind s.tracking_domain src)
      × (moved.heap ≡ s.heap)
      × (copied.heap ≡ s.heap)
  unfolding freed_kind
  use_ownership = (
    objects_for-moved,
    objects_for-copied,
    ap₂ kind_in {v = objects_for s.tracking_domain src} moved_tracking.0
        (objects_for-moved dst ∙ ground (arith, nat_beq_iff dst dst)),
    ap₂ kind_in {v = objects_for s.tracking_domain src} copied_tracking.0
        (objects_for-copied dst ∙ ground (arith, nat_beq_iff dst dst)),
    moved_tracking.0,
    copied_tracking.0,
  )
