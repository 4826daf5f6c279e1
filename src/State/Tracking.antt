-- ===== src/State/Tracking.antt =====
-- Ownership tracking: the heap, what pointers point to, protocols and owner aliases.
-- One domain of `BlockState` and its part of `join_with` (crates/san/src/analysis/state.rs).
use san.Base.{ℕ, List, Bool, ◌||◌, ◌≡◌, refl, nat_eq, pair_eq, list_eq}
use san.Base.Sets.{Subset}
use san.Base.Maps.{Map}
use san.Object.{
  ObjectId, ProtocolId, HeapMap, TypestateMap, init_eq, heap_eq, protocol_eq, join_heap,
  join_protocol,
}
use san.Object.Lattice.{join_heap-Semilattice, join_protocol-Semilattice}
use san.Join.{join_union, join_values, join_sets, join_meet, join_flag, agree}
use san.Join.Laws.{JoinLaws, pair-JoinLaws, pullback-JoinLaws}
use san.Join.Each.Sets.{SetsBelow, join_union-JoinLaws, join_sets-JoinLaws}
use san.Join.Each.Values.{ValuesBelow, join_values-JoinLaws}
use san.Join.Meet.{MeetBelow, FlagBelow, join_meet-JoinLaws, join_flag-JoinLaws, agree-MergeLaws}
use san.State.Locals.{Local, DefId}

pub record TrackingDomain : Type 0 where
  pub heap : HeapMap
  pub points_to : Map Local (List ObjectId)
  pub local_proto : Map Local (List ProtocolId)
  pub typestate : TypestateMap
  pub untracked_forget_seen : Bool
  pub owner_alias : Map Local (List Local)
  pub fn_ptr_targets : Map Local DefId
  pub realloced_params : List Local
  pub field_owned : Map (Local × ℕ) (List ObjectId)

unfoldable pub join_tracking : TrackingDomain → TrackingDomain → TrackingDomain × Bool
join_tracking s o =
    let heap = join_values join_heap s.heap o.heap in
    let points_to = join_sets s.points_to o.points_to in
    let local_proto = join_sets s.local_proto o.local_proto in
    let typestate = join_values join_protocol s.typestate o.typestate in
    let untracked_forget_seen = join_flag s.untracked_forget_seen o.untracked_forget_seen in
    let owner_alias = join_sets s.owner_alias o.owner_alias in
    let fn_ptr_targets = join_meet agree s.fn_ptr_targets o.fn_ptr_targets in
    let realloced_params = join_union s.realloced_params o.realloced_params in
    let field_owned = join_sets s.field_owned o.field_owned in
    (
      record {
        heap = heap.0;
        points_to = points_to.0;
        local_proto = local_proto.0;
        typestate = typestate.0;
        untracked_forget_seen = untracked_forget_seen.0;
        owner_alias = owner_alias.0;
        fn_ptr_targets = fn_ptr_targets.0;
        realloced_params = realloced_params.0;
        field_owned = field_owned.0;
      },
      heap.1 || points_to.1 || local_proto.1 || typestate.1 || untracked_forget_seen.1
          || owner_alias.1 || fn_ptr_targets.1 || realloced_params.1 || field_owned.1,
    )

-- `t` claims no more than `s`, field by field.
pub record TrackingBelow (s t : TrackingDomain) : Type 0 where
  pub heap : ValuesBelow join_heap s.heap t.heap
  pub points_to : SetsBelow s.points_to t.points_to
  pub local_proto : SetsBelow s.local_proto t.local_proto
  pub typestate : ValuesBelow join_protocol s.typestate t.typestate
  pub untracked_forget_seen : FlagBelow s.untracked_forget_seen t.untracked_forget_seen
  pub owner_alias : SetsBelow s.owner_alias t.owner_alias
  pub fn_ptr_targets : MeetBelow ◌≡◌ s.fn_ptr_targets t.fn_ptr_targets
  pub realloced_params : Subset s.realloced_params t.realloced_params
  pub field_owned : SetsBelow s.field_owned t.field_owned

pub join_tracking-JoinLaws : JoinLaws join_tracking TrackingBelow
unfolding join_tracking
join_tracking-JoinLaws =
    pullback-JoinLaws
      (pair-JoinLaws
        (pair-JoinLaws
          (pair-JoinLaws
            (pair-JoinLaws
              (pair-JoinLaws
                (pair-JoinLaws
                  (pair-JoinLaws
                    (pair-JoinLaws (join_values-JoinLaws join_heap-Semilattice)
                      (join_sets-JoinLaws))
                    (join_sets-JoinLaws))
                  (join_values-JoinLaws join_protocol-Semilattice))
                (join_flag-JoinLaws))
              (join_sets-JoinLaws))
            (join_meet-JoinLaws agree-MergeLaws))
          (join_union-JoinLaws))
        (join_sets-JoinLaws))
      (λ s. (
        (
          (
            (
              ((((s.heap, s.points_to), s.local_proto), s.typestate), s.untracked_forget_seen),
              s.owner_alias,
            ),
            s.fn_ptr_targets,
          ),
          s.realloced_params,
        ),
        s.field_owned,
      ))
      (λ s t h. (
        (
          (
            (
              ((((h.heap, h.points_to), h.local_proto), h.typestate), h.untracked_forget_seen),
              h.owner_alias,
            ),
            h.fn_ptr_targets,
          ),
          h.realloced_params,
        ),
        h.field_owned,
      ))
      (λ s t h. record {
        heap = h.0.0.0.0.0.0.0.0;
        points_to = h.0.0.0.0.0.0.0.1;
        local_proto = h.0.0.0.0.0.0.1;
        typestate = h.0.0.0.0.0.1;
        untracked_forget_seen = h.0.0.0.0.1;
        owner_alias = h.0.0.0.1;
        fn_ptr_targets = h.0.0.1;
        realloced_params = h.0.1;
        field_owned = h.1;
      })
      (λ s o. refl) (λ s o. refl)
