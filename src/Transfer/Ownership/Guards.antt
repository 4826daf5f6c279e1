-- ===== src/Transfer/Ownership/Guards.antt =====
-- Guards of locks and epochs: dropped, or forgotten (`apply_terminator` of
-- crates/san/src/analysis/transfer.rs).
use san.Base.{
  ℕ, List, [], ◌∷◌, Bool, true, false, some, ◌≡◌, ◌⊎◌, refl, ap, ◌∙◌, nat_eq, arith, nat_beq_iff,
  ◌==◌, inl, inr, Bool-cases, any, if◌then◌else◌, opt_eq,
}
use san.Base.Sets.{contains}
use san.Base.Maps.{Map, lookup, put, erase, lookup-put, keys, lookup-keys}
use san.Object.{ProtocolId, ProtocolState, TypestateMap, protocol_eq}
use san.Join.{get_or}
use san.State.Locals.{Local}
use san.State.{BlockState}
use san.State.Tracking.{TrackingDomain}
use san.State.Ownership.{
  objects_for, is_empty, some_and, has_forgotten_protocol, any_protocol, is_forgotten,
}
use san.Transfer.Sound.Clear.{lookup-erase_self}
use san.Mir.{Body}
use san.Transfer.Handlers.{set_protocols, forget_tracked, is_guard_type}
use san.Transfer.Terminator.{apply_drop}

-- The protocols of the list have the new state, the others the one they had.
pub lookup-set_protocols :
    (ids : List ProtocolId) (m : TypestateMap) (state : ProtocolState) (id : ProtocolId)
    → lookup (set_protocols m ids state) id ≡ (if contains ids id then some state else lookup m id)
unfolding set_protocols contains
lookup-set_protocols [] m state id = refl
lookup-set_protocols (x ∷ ids) m state id =
    lookup-set_protocols ids (put m x state) state id ∙ ground (arith, lookup-put m x state id)

module _ (s : TrackingDomain) (local : Local) where
  -- The protocols that a local holds.
  abbrev pub held : List ProtocolId
  held = get_or (lookup s.local_proto local) []

held-erased : (m : Map Local (List ProtocolId)) (l : Local) → get_or (lookup (erase m l) l) [] ≡ []
held-erased m l = ap (λ o. get_or o []) (lookup-erase_self m l)

any-contains :
    (p : ℕ → Bool) (xs : List ℕ) (a : ℕ) → contains xs a ≡ true → p a ≡ true → any p xs ≡ true
unfolding contains
any-contains p [] a c h = absurd (ground arith)
any-contains p (x ∷ xs) a c h = elim (Bool-cases (x == a)) [
  | inl y ↦ ground (arith, ap p ((nat_beq_iff x a).0 y))
  | inr n ↦ ground (arith, any-contains p xs a)
]

-- A forgotten protocol is found.
forgotten_found :
    (s : TrackingDomain) (id : ProtocolId)
    → lookup s.typestate id ≡ some ProtocolState.forgotten
    → has_forgotten_protocol s ≡ true
unfolding has_forgotten_protocol any_protocol
forgotten_found s id h = elim (Bool-cases (contains (keys s.typestate) id)) [
  | inl y ↦
      let found =
        any-contains (λ k. some_and is_forgotten (lookup s.typestate k)) (keys s.typestate) id y
          (ap (some_and is_forgotten) h) in
      ground arith
  | inr n ↦ absurd (ground (arith, lookup-keys s.typestate id n))
]

module _ (s : BlockState) (local : Local) where
  -- Dropping a local consumes the protocols that it holds, and no others; it holds none afterwards,
  -- and points to no object.
  pub drop_lem :
      ((id : ProtocolId)
        → lookup (apply_drop s (some local)).typestate id ≡ (
            if contains (held s.tracking_domain local) id
            then some ProtocolState.consumed
            else lookup s.typestate id))
      × (held (apply_drop s (some local)).tracking_domain local ≡ [])
      × (objects_for (apply_drop s (some local)).tracking_domain local ≡ [])
  unfolding apply_drop objects_for
  drop_lem = (
    λ id. lookup-set_protocols (held s.tracking_domain local) s.typestate ProtocolState.consumed id,
    held-erased s.local_proto local,
    ap (λ o. get_or o []) (lookup-erase_self s.points_to local),
  )

module _ (s : TrackingDomain) (body : Body) (src : Local) where
  flagged :
      is_guard_type (body.ty src) ≡ true
      → is_empty (held s src) ≡ true
      → has_forgotten_protocol (forget_tracked s body src) ≡ true
  unfolding has_forgotten_protocol forget_tracked
  flagged g e = rw (g, e) (ground arith)

  first_held :
      (ids : List ProtocolId) → is_empty ids ≡ false → (id : ProtocolId) × (contains ids id ≡ true)
  unfolding contains
  first_held [] e = absurd (ground arith)
  first_held (x ∷ ids) e = (x, ground (arith, nat_beq_iff x x))

  -- Forgetting a local forgets the protocols that it holds, and no others; it holds none afterwards.
  -- Whatever it held, and even if it is only known to be a guard by its type, the body is known to
  -- have forgotten one.
  pub forget_lem :
      ((id : ProtocolId)
        → lookup (forget_tracked s body src).typestate id ≡ (
            if contains (held s src) id
            then some ProtocolState.forgotten
            else lookup s.typestate id))
      × (held (forget_tracked s body src) src ≡ [])
      × ((is_empty (held s src) ≡ false) ⊎ (is_guard_type (body.ty src) ≡ true)
          → has_forgotten_protocol (forget_tracked s body src) ≡ true)
  unfolding forget_tracked
  forget_lem = (
    λ id. lookup-set_protocols (held s src) s.typestate ProtocolState.forgotten id,
    held-erased s.local_proto src,
    λ h. elim (Bool-cases (is_empty (held s src))) [
      | inl e ↦ elim h [ inl n ↦ absurd (ground arith) | inr g ↦ flagged g e ]
      | inr n ↦
          let (id, c) = first_held (held s src) n in
          forgotten_found (forget_tracked s body src) id (
            lookup-set_protocols (held s src) s.typestate ProtocolState.forgotten id ∙ ground arith)
    ],
  )
