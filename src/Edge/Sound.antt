-- ===== src/Edge/Sound.antt =====
-- A branch and the memories that take it: `refine_switchint_edge` against the meaning of
-- `SwitchInt` (crates/san/src/analysis/transfer.rs).
use san.Base.{
  ℕ, Bool, true, false, Option, none, some, ◌≡◌, ◌≢◌, inl, inr, refl, sym, ◌∙◌, ap, arith, nat_eq,
  nat_beq_iff, opt_beq_iff, Option-cases,
}
use san.Join.{get_or}
use san.State.Locals.{Local, BasicBlock}
use san.State.{BlockState}
use san.Mir.{Operand, SwitchTargets, switch_int}
use san.Edge.{
  operand_local, refine_true, refine_false, target_of, edge_kind, refine_kind, refine_switch,
  refine_switchint_edge,
}
use san.Edge.Memory.{Memory}
use san.Edge.Ranges.{RangesHold, IsWide, ranges_true-RangesHold, ranges_false-RangesHold}
use san.Edge.Pairs.{PairsHold, pairs_true-PairsHold, pairs_false-PairsHold}
use san.Edge.Bounds.{
  BoundsHold, CapacityHold, bounds_true-BoundsHold, bounds_false-BoundsHold,
  capacity_true-CapacityHold, capacity_false-CapacityHold,
}

-- The block that `SwitchInt` goes on with, at the value of the discriminant.
abbrev pub switch_to : SwitchTargets → ℕ → BasicBlock
switch_to targets w = get_or (target_of w targets.values) targets.otherwise

-- A switch that tells zero from the other values: zero has a target of its own.
pub record TellsZero (targets : SwitchTargets) : Type 0 where
  pub zero_listed : target_of 0 targets.values ≢ none
  pub zero_alone : (w : ℕ) → target_of w targets.values ≡ target_of 0 targets.values → w ≡ 0

-- What the facts of the four refined domains say of a memory.
pub record StateHolds (m : Memory) (s : BlockState) : Type 0 where
  pub ranges : RangesHold m s.ranges_domain
  pub pairs : PairsHold m s.pairs_domain
  pub bounds : BoundsHold m s.bounds_domain
  pub capacity : CapacityHold m s.capacity_domain

edge_kind-true :
    (targets : SwitchTargets) (succ : BasicBlock)
    → edge_kind targets succ ≡ some true
    → (succ ≡ targets.otherwise) × (some succ ≢ target_of 0 targets.values)
unfolding edge_kind
edge_kind-true targets succ h = ground (
  arith,
  nat_beq_iff succ targets.otherwise,
  opt_beq_iff (some succ) (target_of 0 targets.values),
)

edge_kind-false :
    (targets : SwitchTargets) (succ : BasicBlock)
    → edge_kind targets succ ≡ some false
    → (some succ ≡ target_of 0 targets.values) × (succ ≢ targets.otherwise)
unfolding edge_kind
edge_kind-false targets succ h = ground (
  arith,
  nat_beq_iff succ targets.otherwise,
  opt_beq_iff (some succ) (target_of 0 targets.values),
)

-- The edge that a value takes tells whether it is zero.
edge_kind-switch_to-true :
    (targets : SwitchTargets) (w : ℕ)
    → TellsZero targets
    → edge_kind targets (switch_to targets w) ≡ some true
    → w ≢ 0
edge_kind-switch_to-true targets w tells h zero =
    let (_, n) = edge_kind-true targets (switch_to targets w) h in
    elim (Option-cases (target_of 0 targets.values)) [
      | inl unlisted ↦ tells.zero_listed unlisted
      | inr (t, q) ↦ n (
          ap (λ o. some (get_or o targets.otherwise))
            (ap (λ v. target_of v targets.values) zero ∙ q)
          ∙ sym q)
    ]

edge_kind-switch_to-false :
    (targets : SwitchTargets) (w : ℕ)
    → TellsZero targets
    → edge_kind targets (switch_to targets w) ≡ some false
    → w ≡ 0
edge_kind-switch_to-false targets w tells h =
    let (z, n) = edge_kind-false targets (switch_to targets w) h in
    elim (Option-cases (target_of w targets.values)) [
      | inl unlisted ↦ absurd (n (ap (λ o. get_or o targets.otherwise) unlisted))
      | inr (t, q) ↦
          tells.zero_alone w (q ∙ ap (λ o. some (get_or o targets.otherwise)) (sym q) ∙ z)
    ]

module _ (m : Memory) (wide : IsWide m) where
  refine_true-StateHolds :
      (d : Local) (s : BlockState) → m.value d ≢ 0 → StateHolds m s → StateHolds m (refine_true d s)
  unfolding refine_true
  refine_true-StateHolds d s t h = record {
    ranges = ranges_true-RangesHold m wide d s.ranges_domain t h.ranges;
    pairs = pairs_true-PairsHold m d s.pairs_domain t h.pairs;
    bounds = bounds_true-BoundsHold m d s.bounds_domain t h.bounds;
    capacity = capacity_true-CapacityHold m d s.capacity_domain t h.capacity;
  }

  refine_false-StateHolds :
      (d : Local) (s : BlockState)
      → m.value d ≡ 0
      → StateHolds m s
      → StateHolds m (refine_false d s)
  unfolding refine_false
  refine_false-StateHolds d s f h = record {
    ranges = ranges_false-RangesHold m wide d s.ranges_domain f h.ranges;
    pairs = pairs_false-PairsHold m d s.pairs_domain f h.pairs;
    bounds = bounds_false-BoundsHold m d s.bounds_domain f h.bounds;
    capacity = capacity_false-CapacityHold m d s.capacity_domain f h.capacity;
  }

  refine_kind-StateHolds :
      (k : Option Bool) (d : Local) (s : BlockState)
      → (k ≡ some true → m.value d ≢ 0)
      → (k ≡ some false → m.value d ≡ 0)
      → StateHolds m s
      → StateHolds m (refine_kind k d s)
  unfolding refine_kind
  refine_kind-StateHolds none d s t f h = h
  refine_kind-StateHolds (some true) d s t f h = refine_true-StateHolds d s (t refl) h
  refine_kind-StateHolds (some false) d s t f h = refine_false-StateHolds d s (f refl) h

  refine_switch-StateHolds :
      (o : Option Local) (targets : SwitchTargets) (w : ℕ) (s : BlockState)
      → TellsZero targets
      → ((d : Local) → o ≡ some d → m.value d ≡ w)
      → StateHolds m s
      → StateHolds m (refine_switch o targets (switch_to targets w) s)
  unfolding refine_switch
  refine_switch-StateHolds none targets w s tells reads h = h
  refine_switch-StateHolds (some d) targets w s tells reads h =
      let q = reads d refl in
      refine_kind-StateHolds (edge_kind targets (switch_to targets w)) d s
        (λ t z. edge_kind-switch_to-true targets w tells t (sym q ∙ z))
        (λ f. q ∙ edge_kind-switch_to-false targets w tells f) h

-- What a branch records is true: when the facts of a state hold in a memory of `u64` values and
-- the discriminant, which is the value of the local that it reads, is `w`, then the facts refined
-- for the block that the switch takes at `w` hold in this memory. The switch must tell zero from
-- the other values.
pub refine_switchint_edge_sound :
    (m : Memory)
    → IsWide m
    → (s : BlockState) (discr : Operand) (targets : SwitchTargets) (w : ℕ) → TellsZero targets
    → ((d : Local) → operand_local discr ≡ some d → m.value d ≡ w)
    → StateHolds m s
    → StateHolds m (refine_switchint_edge s (switch_int discr targets) (switch_to targets w))
unfolding refine_switchint_edge
refine_switchint_edge_sound m wide s discr targets w tells reads h =
    refine_switch-StateHolds m wide (operand_local discr) targets w s tells reads h
