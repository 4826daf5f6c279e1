-- ===== src/State/Ownership/Aliases.antt =====
-- Owner aliases: which locals a pointer may point into (crates/san/src/analysis/state.rs).
use san.Base.{
  List, [], ◌∷◌, Option, none, some, ◌≡◌, ◌≢◌, ◌∙◌, refl, sym, ap, nat_eq, nat_beq_iff, ◌==◌, ◌&&◌,
  ◌||◌, not, arith, Bool-cases, inl, inr,
}
use san.Base.Sets.{contains, remove, contains-remove, contains-insert, insert}
use san.Base.Maps.{Map, lookup, filter_map, put, erase, lookup-filter_map, lookup-put, lookup-erase}
use san.Join.{get_or}
use san.State.Locals.{Local}
use san.State.Tracking.{TrackingDomain}
use san.State.Ownership.{
  unless_empty, invalidate_owner, owners_of, set_owner_alias, copy_owner_alias,
}

contains-unless_empty :
    (xs : List Local) (x : Local) → contains (get_or (unless_empty xs) []) x ≡ contains xs x
contains-unless_empty [] x = refl
contains-unless_empty (y ∷ xs) x = refl

unless_empty_full : (xs : List Local) → unless_empty xs ≢ some []
unless_empty_full [] h = absurd (ground arith)
unless_empty_full (x ∷ xs) h = absurd (ground arith)

lookup-copied :
    (m : Map Local (List Local)) (dst : Local) (o : Option (List Local))
    → lookup (elim o [ some owners ↦ put m dst owners | none ↦ erase m dst ]) dst ≡ o
lookup-copied m dst none = ground (arith, lookup-erase m dst dst, nat_beq_iff dst dst)
lookup-copied m dst (some owners) = ground (arith, lookup-put m dst owners dst, nat_beq_iff dst dst)

lookup-copied_ne :
    (m : Map Local (List Local)) (dst : Local) (o : Option (List Local)) (other : Local)
    → dst ≢ other
    → lookup (elim o [ some owners ↦ put m dst owners | none ↦ erase m dst ]) other ≡ lookup m other
lookup-copied_ne m dst none other ne =
    ground (arith, lookup-erase m dst other, nat_beq_iff dst other)
lookup-copied_ne m dst (some owners) other ne =
    ground (arith, lookup-put m dst owners other, nat_beq_iff dst other)

-- What is left of the owners of one pointer.
abbrev without : Local → Option (List Local) → Option (List Local)
without owner none = none
without owner (some owners) = unless_empty (remove owners owner)

without_lem :
    (owner : Local) (o : Option (List Local))
    → elim (elim o as (λ _. Option (List Local)) [
      | none ↦ none
      | some owners ↦ some (remove owners owner)
    ])
        as (λ _. Option (List Local)) [ none ↦ none | some owners ↦ unless_empty owners ]
      ≡ without owner o
without_lem owner none = refl
without_lem owner (some owners) = refl

lookup-invalidate_owner :
    (s : TrackingDomain) (owner ptr : Local)
    → lookup (invalidate_owner s owner).owner_alias ptr ≡ without owner (lookup s.owner_alias ptr)
unfolding invalidate_owner
lookup-invalidate_owner s owner ptr =
    let inner = filter_map (λ _ owners. some (remove owners owner)) s.owner_alias in
    lookup-filter_map (λ _ owners. unless_empty owners) inner ptr
    ∙ rw (lookup-filter_map (λ _ owners. some (remove owners owner)) s.owner_alias ptr)
        (without_lem owner (lookup s.owner_alias ptr))

contains-without :
    (owner : Local) (o : Option (List Local)) (x : Local)
    → contains (get_or (without owner o) []) x ≡ (not (x == owner) && contains (get_or o []) x)
unfolding contains
contains-without owner none x = ground arith
contains-without owner (some owners) x =
    contains-unless_empty (remove owners owner) x ∙ contains-remove owners owner x

without_full : (owner : Local) (o : Option (List Local)) → without owner o ≢ some []
without_full owner none h = absurd (ground arith)
without_full owner (some owners) h = unless_empty_full (remove owners owner) h

-- After a write to an owner no pointer aliases it, every other alias stays, and no pointer is left
-- with an empty set of owners.
pub invalidate_owner_lem :
    (s : TrackingDomain) (owner ptr : Local)
    → ((x : Local)
        → contains (owners_of (invalidate_owner s owner) ptr) x
          ≡ (not (x == owner) && contains (owners_of s ptr) x))
      × (lookup (invalidate_owner s owner).owner_alias ptr ≢ some [])
unfolding owners_of
invalidate_owner_lem s owner ptr =
    let left = lookup-invalidate_owner s owner ptr in
    (
      λ x.
          ap (λ o. contains (get_or o []) x) left
          ∙ contains-without owner (lookup s.owner_alias ptr) x,
      λ h. without_full owner (lookup s.owner_alias ptr) (sym left ∙ h),
    )

-- Recording an alias adds this owner to those of this pointer, and nothing else.
pub set_owner_alias_lem :
    (s : TrackingDomain) (ptr owner other x : Local)
    → contains (owners_of (set_owner_alias s ptr owner) other) x
      ≡ (ptr == other && owner == x || contains (owners_of s other) x)
unfolding owners_of set_owner_alias
set_owner_alias_lem s ptr owner other x =
    let before = insert (get_or (lookup s.owner_alias ptr) []) owner in
    elim (Bool-cases (ptr == other)) [
      | inl same ↦
          let q : lookup s.owner_alias ptr ≡ lookup s.owner_alias other =
            ap (lookup s.owner_alias) ((nat_beq_iff ptr other).0 same) in
          let r : lookup (put s.owner_alias ptr before) other ≡ some before =
            ground (arith, lookup-put s.owner_alias ptr before other) in
          ap (λ o. contains (get_or o []) x) r
          ∙ (contains-insert (get_or (lookup s.owner_alias ptr) []) owner x
              ∙ ground (arith, ap (λ o. contains (get_or o []) x) q))
      | inr different ↦
          let r : lookup (put s.owner_alias ptr before) other ≡ lookup s.owner_alias other =
            ground (arith, lookup-put s.owner_alias ptr before other) in
          ap (λ o. contains (get_or o []) x) r ∙ ground arith
    ]

-- After a copy, both pointers alias the same owners, and every other pointer those it had.
pub copy_owner_alias_lem :
    (s : TrackingDomain) (dst src other : Local)
    → (owners_of (copy_owner_alias s dst src) dst ≡ owners_of s src)
      × (dst ≢ other → owners_of (copy_owner_alias s dst src) other ≡ owners_of s other)
unfolding owners_of copy_owner_alias
copy_owner_alias_lem s dst src other = (
  ap (λ o. get_or o []) (lookup-copied s.owner_alias dst (lookup s.owner_alias src)),
  λ ne.
      ap (λ o. get_or o [])
        (lookup-copied_ne s.owner_alias dst (lookup s.owner_alias src) other ne),
)
