-- ===== src/Edge/Bounds.antt =====
-- Index bounds and capacities along the two edges of a branch: what `refine_switchint_edge`
-- records in `bounded`, `index_bounded_for`, `has_spare`, `is_full` and their companions
-- (crates/san/src/analysis/transfer.rs).
use san.Base.{◌≡◌, ◌≢◌, ◌≤◌, ◌<◌, nat_eq, pair_eq}
use san.State.Locals.{Local}
use san.State.Bounds.{BoundsDomain}
use san.State.Capacity.{CapacityDomain}
use san.Edge.{bounds_true, bounds_false, capacity_true, capacity_false}
use san.Edge.Memory.{Memory, Members, Entries, Members-insert_some}

module _ (m : Memory) where
  abbrev pub Within : Local → Type 0
  Within l = m.value l < m.limit l

  abbrev pub WithinOrEq : Local → Type 0
  WithinOrEq l = m.value l ≤ m.limit l

  abbrev pub IndexWithin : Local × Local → Type 0
  IndexWithin p = m.value p.0 < m.len p.1

  abbrev pub IndexWithinOrEq : Local × Local → Type 0
  IndexWithinOrEq p = m.value p.0 ≤ m.len p.1

  -- What the fields that branches record say of a memory.
  pub record BoundsHold (s : BoundsDomain) : Type 0 where
    pub lt_facts : Entries (λ d l. m.value d ≢ 0 → Within l) s.lt_facts
    pub ge_facts : Entries (λ d l. m.value d ≡ 0 → Within l) s.ge_facts
    pub le_facts : Entries (λ d l. m.value d ≢ 0 → WithinOrEq l) s.le_facts
    pub gt_facts : Entries (λ d l. m.value d ≡ 0 → WithinOrEq l) s.gt_facts
    pub bounded : Members Within s.bounded
    pub bounded_or_eq : Members WithinOrEq s.bounded_or_eq
    pub lt_for : Entries (λ d p. m.value d ≢ 0 → IndexWithin p) s.lt_for
    pub le_for : Entries (λ d p. m.value d ≢ 0 → IndexWithinOrEq p) s.le_for
    pub index_bounded_for : Members IndexWithin s.index_bounded_for
    pub index_bounded_or_eq_for : Members IndexWithinOrEq s.index_bounded_or_eq_for

  abbrev pub Spare : Local → Type 0
  Spare l = m.len l < m.cap l

  abbrev pub Full : Local → Type 0
  Full l = m.len l ≡ m.cap l

  pub record CapacityHold (s : CapacityDomain) : Type 0 where
    pub spare_if_true : Entries (λ d l. m.value d ≢ 0 → Spare l) s.spare_if_true
    pub spare_if_false : Entries (λ d l. m.value d ≡ 0 → Spare l) s.spare_if_false
    pub has_spare : Members Spare s.has_spare
    pub full_if_true : Entries (λ d l. m.value d ≢ 0 → Full l) s.full_if_true
    pub full_if_false : Entries (λ d l. m.value d ≡ 0 → Full l) s.full_if_false
    pub is_full : Members Full s.is_full

  pub bounds_true-BoundsHold :
      (d : Local) (s : BoundsDomain) → m.value d ≢ 0 → BoundsHold s → BoundsHold (bounds_true d s)
  unfolding bounds_true
  bounds_true-BoundsHold d s t h = record {
    lt_facts = h.lt_facts;
    ge_facts = h.ge_facts;
    le_facts = h.le_facts;
    gt_facts = h.gt_facts;
    bounded = Members-insert_some s.bounded _ h.bounded (λ l e. h.lt_facts d l e t);
    bounded_or_eq =
        Members-insert_some s.bounded_or_eq _ h.bounded_or_eq (λ l e. h.le_facts d l e t);
    lt_for = h.lt_for;
    le_for = h.le_for;
    index_bounded_for =
        Members-insert_some s.index_bounded_for _ h.index_bounded_for (λ p e. h.lt_for d p e t);
    index_bounded_or_eq_for =
        Members-insert_some s.index_bounded_or_eq_for _ h.index_bounded_or_eq_for
          (λ p e. h.le_for d p e t);
  }

  pub bounds_false-BoundsHold :
      (d : Local) (s : BoundsDomain) → m.value d ≡ 0 → BoundsHold s → BoundsHold (bounds_false d s)
  unfolding bounds_false
  bounds_false-BoundsHold d s f h = record {
    lt_facts = h.lt_facts;
    ge_facts = h.ge_facts;
    le_facts = h.le_facts;
    gt_facts = h.gt_facts;
    bounded = Members-insert_some s.bounded _ h.bounded (λ l e. h.ge_facts d l e f);
    bounded_or_eq =
        Members-insert_some s.bounded_or_eq _ h.bounded_or_eq (λ l e. h.gt_facts d l e f);
    lt_for = h.lt_for;
    le_for = h.le_for;
    index_bounded_for = h.index_bounded_for;
    index_bounded_or_eq_for = h.index_bounded_or_eq_for;
  }

  pub capacity_true-CapacityHold :
      (d : Local) (s : CapacityDomain)
      → m.value d ≢ 0
      → CapacityHold s
      → CapacityHold (capacity_true d s)
  unfolding capacity_true
  capacity_true-CapacityHold d s t h = record {
    spare_if_true = h.spare_if_true;
    spare_if_false = h.spare_if_false;
    has_spare = Members-insert_some s.has_spare _ h.has_spare (λ l e. h.spare_if_true d l e t);
    full_if_true = h.full_if_true;
    full_if_false = h.full_if_false;
    is_full = Members-insert_some s.is_full _ h.is_full (λ l e. h.full_if_true d l e t);
  }

  pub capacity_false-CapacityHold :
      (d : Local) (s : CapacityDomain)
      → m.value d ≡ 0
      → CapacityHold s
      → CapacityHold (capacity_false d s)
  unfolding capacity_false
  capacity_false-CapacityHold d s f h = record {
    spare_if_true = h.spare_if_true;
    spare_if_false = h.spare_if_false;
    has_spare = Members-insert_some s.has_spare _ h.has_spare (λ l e. h.spare_if_false d l e f);
    full_if_true = h.full_if_true;
    full_if_false = h.full_if_false;
    is_full = Members-insert_some s.is_full _ h.is_full (λ l e. h.full_if_false d l e f);
  }
