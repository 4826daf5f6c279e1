-- ===== src/State.antt =====
-- `BlockState`: the abstract state at a program point, and its join
-- (crates/san/src/analysis/state.rs). The fields are grouped by domain, under their own names.
pub mod Locals
pub mod Tracking
pub mod Inits
pub mod Bounds
pub mod Capacity
pub mod Ranges
pub mod Pairs
pub mod Taints
pub mod Ownership
pub mod Proven
use san.Base.{Bool, ◌||◌, refl}
use san.Join.Laws.{JoinLaws, join_pair, BelowPair, pair-JoinLaws, pullback-JoinLaws}
use Tracking.{TrackingDomain, join_tracking, TrackingBelow, join_tracking-JoinLaws}
use Inits.{InitsDomain, join_inits, InitsBelow, join_inits-JoinLaws}
use Bounds.{BoundsDomain, join_bounds, BoundsBelow, join_bounds-JoinLaws}
use Capacity.{CapacityDomain, join_capacity, CapacityBelow, join_capacity-JoinLaws}
use Ranges.{RangesDomain, join_ranges, RangesBelow, join_ranges-JoinLaws}
use Pairs.{PairsDomain, join_pairs, PairsBelow, join_pairs-JoinLaws}
use Taints.{TaintsDomain, join_taints, TaintsBelow, join_taints-JoinLaws}

pub record BlockState : Type 0 where
  pub tracking_domain : TrackingDomain
  pub open tracking_domain use *
  pub inits_domain : InitsDomain
  pub open inits_domain use *
  pub bounds_domain : BoundsDomain
  pub open bounds_domain use *
  pub capacity_domain : CapacityDomain
  pub open capacity_domain use *
  pub ranges_domain : RangesDomain
  pub open ranges_domain use *
  pub pairs_domain : PairsDomain
  pub open pairs_domain use *
  pub taints_domain : TaintsDomain
  pub open taints_domain use *

-- `BlockState::join_with`: the merged state, and whether it differs from `s`.
unfoldable pub join_with : BlockState → BlockState → BlockState × Bool
join_with s o =
    let tracking = join_tracking s.tracking_domain o.tracking_domain in
    let inits = join_inits s.inits_domain o.inits_domain in
    let bounds = join_bounds s.bounds_domain o.bounds_domain in
    let capacity = join_capacity s.capacity_domain o.capacity_domain in
    let ranges = join_ranges s.ranges_domain o.ranges_domain in
    let pairs = join_pairs s.pairs_domain o.pairs_domain in
    let taints = join_taints s.taints_domain o.taints_domain in
    (
      record {
        tracking_domain = tracking.0;
        inits_domain = inits.0;
        bounds_domain = bounds.0;
        capacity_domain = capacity.0;
        ranges_domain = ranges.0;
        pairs_domain = pairs.0;
        taints_domain = taints.0;
      },
      tracking.1 || inits.1 || bounds.1 || capacity.1 || ranges.1 || pairs.1 || taints.1,
    )

-- `t` claims no more than `s`, domain by domain.
pub record StateBelow (s t : BlockState) : Type 0 where
  pub tracking : TrackingBelow s.tracking_domain t.tracking_domain
  pub inits : InitsBelow s.inits_domain t.inits_domain
  pub bounds : BoundsBelow s.bounds_domain t.bounds_domain
  pub capacity : CapacityBelow s.capacity_domain t.capacity_domain
  pub ranges : RangesBelow s.ranges_domain t.ranges_domain
  pub pairs : PairsBelow s.pairs_domain t.pairs_domain
  pub taints : TaintsBelow s.taints_domain t.taints_domain

pub join_with-JoinLaws : JoinLaws join_with StateBelow
unfolding join_with
join_with-JoinLaws =
    pullback-JoinLaws
      (pair-JoinLaws
        (pair-JoinLaws
          (pair-JoinLaws
            (pair-JoinLaws
              (pair-JoinLaws (pair-JoinLaws (join_tracking-JoinLaws) (join_inits-JoinLaws))
                (join_bounds-JoinLaws))
              (join_capacity-JoinLaws))
            (join_ranges-JoinLaws))
          (join_pairs-JoinLaws))
        (join_taints-JoinLaws))
      (λ s. (
        (
          (
            (((s.tracking_domain, s.inits_domain), s.bounds_domain), s.capacity_domain),
            s.ranges_domain,
          ),
          s.pairs_domain,
        ),
        s.taints_domain,
      ))
      (λ s t h. ((((((h.tracking, h.inits), h.bounds), h.capacity), h.ranges), h.pairs), h.taints))
      (λ s t h. record {
        tracking = h.0.0.0.0.0.0;
        inits = h.0.0.0.0.0.1;
        bounds = h.0.0.0.0.1;
        capacity = h.0.0.0.1;
        ranges = h.0.0.1;
        pairs = h.0.1;
        taints = h.1;
      })
      (λ s o. refl) (λ s o. refl)
