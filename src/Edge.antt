-- ===== src/Edge.antt =====
-- What a branch proves: `refine_switchint_edge` (crates/san/src/analysis/transfer.rs).
pub mod Memory
pub mod Ranges
pub mod Pairs
pub mod Bounds
pub mod Sound
pub mod Queries
pub mod Merge
use san.Base.{
  ℕ, suc, ◌+◌, ◌-◌, ◌^◌, min, max, List, [], ◌∷◌, Bool, true, false, not, ◌&&◌, Option, none, some,
  Eq, ◌==◌, nat_eq, pair_eq, opt_beq, if◌then◌else◌, leb,
}
use san.Base.Sets.{insert}
use san.Base.Maps.{Map, lookup, put}
use san.Join.{get_or}
use san.State.Locals.{Local, BasicBlock}
use san.State.{BlockState}
use san.State.Ranges.{RangesDomain}
use san.State.Pairs.{PairsDomain}
use san.State.Bounds.{BoundsDomain}
use san.State.Capacity.{CapacityDomain}
use san.Mir.{Place, Operand, copy, move, constant, SwitchTargets, TerminatorKind, switch_int}

abbrev pub u64_max : ℕ
u64_max = 2 ^ 64 - 1

-- `operand_local`: the local of a place without projections
abbrev pub plain_local : Place → Option Local
plain_local p = elim p.projection [ [] ↦ some p.local | _ ∷ _ ↦ none ]

unfoldable pub operand_local : Operand → Option Local
operand_local (copy p) = plain_local p
operand_local (move p) = plain_local p
operand_local (constant c) = none

-- `if let Some(x) = o { set.insert(x) }`
abbrev pub insert_some : {A : Type 0} ⦃e : Eq A⦄ → List A → Option A → List A
insert_some xs none = xs
insert_some xs (some x) = insert xs x

-- `let e = const_upper.entry(l).or_insert(u64::MAX); *e = (*e).min(ub)`
unfoldable pub tighten_upper : Map Local ℕ → Local → ℕ → Map Local ℕ
tighten_upper m l ub = put m l (min (get_or (lookup m l) u64_max) ub)

-- `let e = const_lower.entry(l).or_insert(0); *e = (*e).max(lb)`
unfoldable pub raise_lower : Map Local ℕ → Local → ℕ → Map Local ℕ
raise_lower m l lb = put m l (max (get_or (lookup m l) 0) lb)

-- `k.saturating_sub(1)` and `k.saturating_add(1)` on `u64`
abbrev pub pred_u64 : ℕ → ℕ
pred_u64 k = k - 1

abbrev pub succ_u64 : ℕ → ℕ
succ_u64 k = min (k + 1) u64_max

abbrev pub upper_from : (ℕ → ℕ) → Map Local ℕ → Option (Local × ℕ) → Map Local ℕ
upper_from f m none = m
upper_from f m (some (l, k)) = tighten_upper m l (f k)

abbrev pub lower_from : (ℕ → ℕ) → Map Local ℕ → Option (Local × ℕ) → Map Local ℕ
lower_from f m none = m
lower_from f m (some (l, k)) = raise_lower m l (f k)

abbrev pub same_u64 : ℕ → ℕ
same_u64 k = k

-- `if a.index() <= b.index() { (a, b) } else { (b, a) }`
abbrev pub ordered : Local × Local → Local × Local
ordered (a, b) = if leb a b then (a, b) else (b, a)

abbrev pub ordered_some : Option (Local × Local) → Option (Local × Local)
ordered_some none = none
ordered_some (some p) = some (ordered p)

-- The two branches of the function, domain by domain.
module _ (d : Local) where
  unfoldable pub bounds_true : BoundsDomain → BoundsDomain
  bounds_true s = record s {
    bounded = insert_some s.bounded (lookup s.lt_facts d);
    bounded_or_eq = insert_some s.bounded_or_eq (lookup s.le_facts d);
    index_bounded_for = insert_some s.index_bounded_for (lookup s.lt_for d);
    index_bounded_or_eq_for = insert_some s.index_bounded_or_eq_for (lookup s.le_for d);
  }

  unfoldable pub bounds_false : BoundsDomain → BoundsDomain
  bounds_false s = record s {
    bounded = insert_some s.bounded (lookup s.ge_facts d);
    bounded_or_eq = insert_some s.bounded_or_eq (lookup s.gt_facts d);
  }

  unfoldable pub capacity_true : CapacityDomain → CapacityDomain
  capacity_true s = record s {
    has_spare = insert_some s.has_spare (lookup s.spare_if_true d);
    is_full = insert_some s.is_full (lookup s.full_if_true d);
  }

  unfoldable pub capacity_false : CapacityDomain → CapacityDomain
  capacity_false s = record s {
    has_spare = insert_some s.has_spare (lookup s.spare_if_false d);
    is_full = insert_some s.is_full (lookup s.full_if_false d);
  }

  unfoldable pub ranges_true : RangesDomain → RangesDomain
  ranges_true s = record s {
    nonzero = insert_some s.nonzero (lookup s.nonzero_if_true d);
    finite = insert_some s.finite (lookup s.finite_if_true d);
    const_upper =
        upper_from same_u64 (upper_from pred_u64 s.const_upper (lookup s.const_lt d))
          (lookup s.const_le d);
    const_lower =
        lower_from same_u64 (lower_from succ_u64 s.const_lower (lookup s.const_gt d))
          (lookup s.const_ge d);
  }

  unfoldable pub ranges_false : RangesDomain → RangesDomain
  ranges_false s = record s {
    nonzero = insert_some s.nonzero (lookup s.nonzero_if_false d);
    finite = insert_some s.finite (lookup s.nan_if_true d);
    const_lower =
        lower_from succ_u64 (lower_from same_u64 s.const_lower (lookup s.const_lt d))
          (lookup s.const_le d);
    const_upper =
        upper_from pred_u64 (upper_from same_u64 s.const_upper (lookup s.const_gt d))
          (lookup s.const_ge d);
  }

  unfoldable pub pairs_true : PairsDomain → PairsDomain
  pairs_true s = record s {
    keys_are_ne = insert_some s.keys_are_ne (ordered_some (lookup s.ne_pair_if_true d));
    eq_locals = insert_some s.eq_locals (ordered_some (lookup s.eq_pair_if_true d));
  }

  unfoldable pub pairs_false : PairsDomain → PairsDomain
  pairs_false s = record s {
    keys_are_ne = insert_some s.keys_are_ne (ordered_some (lookup s.eq_pair_if_true d));
    eq_locals = insert_some s.eq_locals (ordered_some (lookup s.ne_pair_if_true d));
  }

  -- Discriminant nonzero: the comparison held.
  unfoldable pub refine_true : BlockState → BlockState
  unfolding bounds_true capacity_true ranges_true pairs_true
  refine_true s = record s {
    bounds_domain = bounds_true s.bounds_domain;
    capacity_domain = capacity_true s.capacity_domain;
    ranges_domain = ranges_true s.ranges_domain;
    pairs_domain = pairs_true s.pairs_domain;
  }

  -- Discriminant zero: the comparison was false.
  unfoldable pub refine_false : BlockState → BlockState
  unfolding bounds_false capacity_false ranges_false pairs_false
  refine_false s = record s {
    bounds_domain = bounds_false s.bounds_domain;
    capacity_domain = capacity_false s.capacity_domain;
    ranges_domain = ranges_false s.ranges_domain;
    pairs_domain = pairs_false s.pairs_domain;
  }

-- `targets.iter().find(|(v, _)| *v == 0).map(|(_, t)| t)`
unfoldable pub target_of : ℕ → List (ℕ × BasicBlock) → Option BasicBlock
target_of v [] = none
target_of v ((w, t) ∷ rest) = if w == v then some t else target_of v rest

-- `is_true_edge`, or `none` where the function returns
unfoldable pub edge_kind : SwitchTargets → BasicBlock → Option Bool
unfolding target_of
edge_kind targets succ =
    let zero_target = target_of 0 targets.values in
    let other_target = targets.otherwise in
    if succ == other_target && not (opt_beq (some succ) zero_target)
    then some true
    else if opt_beq (some succ) zero_target && not (succ == other_target)
    then some false
    else none

refine_kind : Option Bool → Local → BlockState → BlockState
unfolding refine_true refine_false
refine_kind none d s = s
refine_kind (some true) d s = refine_true d s
refine_kind (some false) d s = refine_false d s

refine_switch : Option Local → SwitchTargets → BasicBlock → BlockState → BlockState
unfolding refine_kind edge_kind
refine_switch none targets succ s = s
refine_switch (some d) targets succ s = refine_kind (edge_kind targets succ) d s

unfoldable pub refine_switchint_edge : BlockState → TerminatorKind → BasicBlock → BlockState
unfolding refine_switch operand_local
refine_switchint_edge s (switch_int discr targets) succ =
    refine_switch (operand_local discr) targets succ s
refine_switchint_edge s _ succ = s
