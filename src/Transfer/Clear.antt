-- ===== src/Transfer/Clear.antt =====
-- What an assignment to a local invalidates: the facts keyed on it, domain by domain
-- (`apply_statement` and `apply_terminator` of crates/san/src/analysis/transfer.rs).
use san.Base.{◌&&◌, not, List, ◌==◌, nat_eq, pair_eq}
use san.Base.Sets.{remove, retain}
use san.Base.Maps.{erase}
use san.State.Locals.{Local}
use san.State.{BlockState}
use san.State.Tracking.{TrackingDomain}
use san.State.Inits.{InitsDomain}
use san.State.Bounds.{BoundsDomain}
use san.State.Capacity.{CapacityDomain}
use san.State.Ranges.{RangesDomain}
use san.State.Pairs.{PairsDomain}
use san.State.Taints.{TaintsDomain}
use san.State.Ownership.{clear_field_owned_for}

abbrev pub on_tracking : (TrackingDomain → TrackingDomain) → BlockState → BlockState
on_tracking f s = record s { tracking_domain = f s.tracking_domain }

abbrev pub on_ranges : (RangesDomain → RangesDomain) → BlockState → BlockState
on_ranges f s = record s { ranges_domain = f s.ranges_domain }

abbrev pub on_capacity : (CapacityDomain → CapacityDomain) → BlockState → BlockState
on_capacity f s = record s { capacity_domain = f s.capacity_domain }

-- `retain(|&(a, b)| a != dst && b != dst)`
unfoldable pub without : List (Local × Local) → Local → List (Local × Local)
without pairs dst = retain (λ p. not (p.0 == dst) && not (p.1 == dst)) pairs

module _ (dst : Local) where
  unfoldable pub clear_capacity : CapacityDomain → CapacityDomain
  clear_capacity s = record {
    ref_base = erase s.ref_base dst;
    len_of = erase s.len_of dst;
    cap_of = erase s.cap_of dst;
    spare_if_true = erase s.spare_if_true dst;
    spare_if_false = erase s.spare_if_false dst;
    has_spare = remove s.has_spare dst;
    full_if_true = erase s.full_if_true dst;
    full_if_false = erase s.full_if_false dst;
    is_full = remove s.is_full dst;
  }

  unfoldable pub clear_ranges : RangesDomain → RangesDomain
  clear_ranges s = record {
    nonzero = remove s.nonzero dst;
    nonzero_if_true = erase s.nonzero_if_true dst;
    nonzero_if_false = erase s.nonzero_if_false dst;
    finite = remove s.finite dst;
    finite_if_true = erase s.finite_if_true dst;
    nan_if_true = erase s.nan_if_true dst;
    const_upper = erase s.const_upper dst;
    const_lower = erase s.const_lower dst;
    const_lt = erase s.const_lt dst;
    const_le = erase s.const_le dst;
    const_gt = erase s.const_gt dst;
    const_ge = erase s.const_ge dst;
  }

  unfoldable pub clear_pairs : PairsDomain → PairsDomain
  unfolding without
  clear_pairs s = record {
    ne_pair_if_true = erase s.ne_pair_if_true dst;
    eq_pair_if_true = erase s.eq_pair_if_true dst;
    keys_are_ne = without s.keys_are_ne dst;
    eq_locals = without s.eq_locals dst;
    cast_origin = erase s.cast_origin dst;
  }

  unfoldable pub clear_indices : BoundsDomain → BoundsDomain
  unfolding without
  clear_indices s = record s {
    array_components = erase s.array_components dst;
    lt_for = erase s.lt_for dst;
    le_for = erase s.le_for dst;
    index_bounded_for = without s.index_bounded_for dst;
    index_bounded_or_eq_for = without s.index_bounded_or_eq_for dst;
  }

  unfoldable pub clear_fds : TaintsDomain → TaintsDomain
  clear_fds s = record s {
    fd_origin = remove s.fd_origin dst;
    fd_consumed = remove s.fd_consumed dst;
  }

  -- What an assignment and a call clear of their destination.
  unfoldable pub clear_keyed : BlockState → BlockState
  unfolding clear_capacity clear_ranges clear_pairs clear_indices clear_fds
  clear_keyed s = record s {
    capacity_domain = clear_capacity s.capacity_domain;
    ranges_domain = clear_ranges s.ranges_domain;
    pairs_domain = clear_pairs s.pairs_domain;
    bounds_domain = clear_indices s.bounds_domain;
    taints_domain = clear_fds s.taints_domain;
  }

  -- What an assignment clears besides.
  unfoldable pub clear_assigned : BlockState → BlockState
  unfolding clear_keyed clear_field_owned_for
  clear_assigned s =
      let c = clear_keyed s in
      record c {
        taints_domain = record c.taints_domain {
          const_ptr_cast = remove c.taints_domain.const_ptr_cast dst;
          mul_overflow = remove c.taints_domain.mul_overflow dst;
          layout_overflow = remove c.taints_domain.layout_overflow dst;
        };
        inits_domain = record c.inits_domain {
          active_variant = erase c.inits_domain.active_variant dst;
          mu_raw_ptr = erase c.inits_domain.mu_raw_ptr dst;
          mu_field_inits = erase c.inits_domain.mu_field_inits dst;
        };
        tracking_domain = clear_field_owned_for c.tracking_domain dst;
      }

  -- `lt_facts`, `ge_facts`, `le_facts` and `gt_facts`
  unfoldable pub clear_comparisons : BoundsDomain → BoundsDomain
  clear_comparisons s = record s {
    lt_facts = erase s.lt_facts dst;
    ge_facts = erase s.ge_facts dst;
    le_facts = erase s.le_facts dst;
    gt_facts = erase s.gt_facts dst;
  }

  unfoldable pub clear_bounded : BoundsDomain → BoundsDomain
  clear_bounded s = record s {
    bounded = remove s.bounded dst;
    bounded_or_eq = remove s.bounded_or_eq dst;
  }

  unfoldable pub clear_init : InitsDomain → InitsDomain
  clear_init s = record s { init = erase s.init dst; buf_written = remove s.buf_written dst }

  unfoldable pub clear_protocols : TrackingDomain → TrackingDomain
  clear_protocols s = record s { local_proto = erase s.local_proto dst }

  -- The removals, from `init` to `bounded_or_eq`, at the end of most handlers.
  unfoldable pub clear_facts : BlockState → BlockState
  unfolding clear_comparisons clear_bounded clear_init
  clear_facts s = record s {
    inits_domain = clear_init s.inits_domain;
    bounds_domain = clear_bounded (clear_comparisons s.bounds_domain);
  }

  -- The same, with `local_proto`.
  unfoldable pub clear_proto_facts : BlockState → BlockState
  unfolding clear_facts clear_protocols
  clear_proto_facts s = clear_facts (on_tracking clear_protocols s)
