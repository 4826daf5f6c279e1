-- ===== src/Tests/Branches.antt =====
-- A branch `if i < 8` over locals 1 (the test) and 2 (`i`), in a memory with `i` = 5.
use san.Base.{
  ℕ, List, [], ◌∷◌, true, false, none, some, ◌≡◌, ◌≢◌, ◌⊎◌, inl, inr, refl, nat_eq, pair_eq, ◌==◌,
  ◌≤◌, arith, In, Eq, nat_beq_iff, subst, subst₂, Bool-cases, if◌then◌else◌,
}
use san.Base.Sets.{contains}
use san.Base.Maps.{lookup}
use san.State.{BlockState, join_with}
use san.Edge.Merge.{ProvenHold, join_with-ProvenHold}
use san.State.Locals.{Local}
use san.State.Ranges.{RangesDomain}
use san.State.Pairs.{PairsDomain}
use san.State.Bounds.{BoundsDomain}
use san.State.Capacity.{CapacityDomain}
use san.State.Proven.{
  origins_are_eq, local_is_nonzero, local_is_ascii, local_is_valid_scalar, locals_are_eq,
  index_is_fully_bounded, local_is_bounded,
}
use san.Mir.{Operand, copy, SwitchTargets, switch_int}
use san.Edge.{edge_kind, refine_switchint_edge, target_of, operand_local}
use san.Edge.Memory.{Memory, Members, Entries}
use san.Edge.Ranges.{RangesHold, IsWide}
use san.Edge.Pairs.{PairsHold}
use san.Edge.Bounds.{BoundsHold, CapacityHold, Within}
use san.Edge.Sound.{StateHolds, TellsZero, switch_to, refine_switchint_edge_sound}
use san.Edge.Queries.{
  IsScalar, range_queries_sound, locals_are_eq_sound, index_is_fully_bounded_sound,
}

abbrev pub five : Memory
five = record {
  value = λ l. if l == 1 then 1 else 5;
  limit = λ l. 8;
  len = λ l. 8;
  cap = λ l. 9;
  is_finite = λ l. true;
}

pub Members-nil : {A : Type 0} ⦃e : Eq A⦄ (P : A → Type 0) → Members P []
unfolding contains
Members-nil P a m = absurd (ground arith)

pub Entries-nil : {V : Type 0} (P : Local → V → Type 0) → Entries P []
unfolding lookup
Entries-nil P d v e = absurd (ground arith)

pub Entries-one :
    {V : Type 0} (P : Local → V → Type 0) (l : Local) (x : V) → P l x → Entries P ((l, x) ∷ [])
unfolding lookup
Entries-one P l x h d v e = elim (Bool-cases (l == d)) [
  | inl same ↦ subst₂ (λ d v. P d v) ((nat_beq_iff l d).0 same) (ground arith) h
  | inr other ↦ absurd (ground arith)
]

pub Members-one : {A : Type 0} ⦃e : Eq A⦄ (P : A → Type 0) (x : A) → P x → Members P (x ∷ [])
unfolding contains
Members-one ⦃e⦄ P x h a m = subst (λ a. P a) ((e.beq_iff x a).0 (ground arith)) h

-- The facts that `i < 8` leaves, and what is known of `i` before: at least 1.
abbrev pub ranges : RangesDomain
ranges = record {
  nonzero = [];
  nonzero_if_true = [];
  nonzero_if_false = [];
  finite = [];
  finite_if_true = [];
  nan_if_true = [];
  const_upper = (2, 100) ∷ [];
  const_lower = (2, 1) ∷ [];
  const_lt = (1, (2, 8)) ∷ [];
  const_le = [];
  const_gt = [];
  const_ge = [];
}

abbrev pairs : PairsDomain
pairs = record {
  eq_locals = (2, 3) ∷ [];
  cast_origin = [];
  ne_pair_if_true = [];
  eq_pair_if_true = [];
  keys_are_ne = (1, 2) ∷ [];
}

abbrev pub bounds : BoundsDomain
bounds = record {
  lt_facts = (1, 2) ∷ [];
  ge_facts = [];
  le_facts = [];
  gt_facts = [];
  bounded = 3 ∷ [];
  bounded_or_eq = [];
  array_components = [];
  lt_for = [];
  le_for = [];
  index_bounded_for = [];
  index_bounded_or_eq_for = [];
}

abbrev capacity : CapacityDomain
capacity = record {
  ref_base = (4, 1) ∷ [];
  len_of = [];
  cap_of = [];
  spare_if_true = (1, 6) ∷ [];
  spare_if_false = [];
  has_spare = [];
  full_if_true = [];
  full_if_false = [];
  is_full = [];
}

abbrev pub before : BlockState
before = record {
  tracking_domain = record {
    heap = [];
    points_to = [];
    local_proto = [];
    typestate = [];
    untracked_forget_seen = false;
    owner_alias = [];
    fn_ptr_targets = [];
    realloced_params = [];
    field_owned = [];
  };
  inits_domain = record {
    init = [];
    buf_written = [];
    mu_raw_ptr = [];
    mu_field_inits = [];
    active_variant = [];
  };
  bounds_domain = bounds;
  capacity_domain = capacity;
  ranges_domain = ranges;
  pairs_domain = pairs;
  taints_domain = record {
    fd_origin = [];
    fd_consumed = [];
    thread_spawned = false;
    const_ptr_cast = [];
    mul_overflow = [];
    layout_overflow = [];
  };
}

pub ranges-RangesHold : RangesHold five ranges
ranges-RangesHold = record {
  nonzero = Members-nil _;
  nonzero_if_true = Entries-nil _;
  nonzero_if_false = Entries-nil _;
  finite = Members-nil _;
  finite_if_true = Entries-nil _;
  nan_if_true = Entries-nil _;
  const_upper = Entries-one _ 2 100 (omega arith);
  const_lower = Entries-one _ 2 1 (omega arith);
  const_lt = Entries-one _ 1 (2, 8) (λ _. omega arith, λ z. absurd (ground arith));
  const_le = Entries-nil _;
  const_gt = Entries-nil _;
  const_ge = Entries-nil _;
}

pairs-PairsHold : PairsHold five pairs
pairs-PairsHold = record {
  eq_locals = Members-one _ (2, 3) refl;
  keys_are_ne = Members-one _ (1, 2) (λ q. absurd (ground arith));
  ne_pair_if_true = Entries-nil _;
  eq_pair_if_true = Entries-nil _;
}

pub bounds-BoundsHold : BoundsHold five bounds
bounds-BoundsHold = record {
  lt_facts = Entries-one _ 1 2 (λ _. omega arith);
  ge_facts = Entries-nil _;
  le_facts = Entries-nil _;
  gt_facts = Entries-nil _;
  bounded = Members-one _ 3 (omega arith);
  bounded_or_eq = Members-nil _;
  lt_for = Entries-nil _;
  le_for = Entries-nil _;
  index_bounded_for = Members-nil _;
  index_bounded_or_eq_for = Members-nil _;
}

capacity-CapacityHold : CapacityHold five capacity
capacity-CapacityHold = record {
  spare_if_true = Entries-one _ 1 6 (λ _. omega arith);
  spare_if_false = Entries-nil _;
  has_spare = Members-nil _;
  full_if_true = Entries-nil _;
  full_if_false = Entries-nil _;
  is_full = Members-nil _;
}

before-StateHolds : StateHolds five before
before-StateHolds = record {
  ranges = ranges-RangesHold;
  pairs = pairs-PairsHold;
  bounds = bounds-BoundsHold;
  capacity = capacity-CapacityHold;
}

abbrev discr : Operand
discr = copy (record { local = 1; projection = [] })

abbrev targets : SwitchTargets
targets = record { values = (0, 4) ∷ []; otherwise = 3 }

pub five-IsWide : IsWide five
five-IsWide l = ground arith

zero_alone : (w : ℕ) → target_of w targets.values ≡ target_of 0 targets.values → w ≡ 0
unfolding target_of
zero_alone w h = ground arith

targets-TellsZero : TellsZero targets
unfolding target_of
targets-TellsZero = record { zero_listed = λ h. absurd (ground arith); zero_alone = zero_alone }

reads : (d : Local) → operand_local discr ≡ some d → five.value d ≡ 1
unfolding operand_local
reads d e = ground arith

refine_switchint_edge_sound_example :
    StateHolds five (refine_switchint_edge before (switch_int discr targets) (switch_to targets 1))
refine_switchint_edge_sound_example =
    refine_switchint_edge_sound five five-IsWide before discr targets 1 targets-TellsZero reads
      before-StateHolds

range_queries_sound_example :
    (local_is_nonzero ranges 2 ≡ true → five.value 2 ≢ 0)
    × (local_is_ascii ranges 2 ≡ true → five.value 2 ≤ 127)
    × (local_is_valid_scalar ranges 2 ≡ true → IsScalar (five.value 2))
range_queries_sound_example = range_queries_sound five ranges ranges-RangesHold 2

eq_2_3 : locals_are_eq pairs 2 3 ≡ true
unfolding locals_are_eq contains
eq_2_3 = refl

locals_are_eq_sound_example : five.value 2 ≡ five.value 3
locals_are_eq_sound_example =
    locals_are_eq_sound five pairs pairs-PairsHold (Entries-nil _) 2 3 eq_2_3

bounded_3 : index_is_fully_bounded bounds 3 ≡ true
unfolding index_is_fully_bounded local_is_bounded contains lookup
bounded_3 = refl

index_is_fully_bounded_sound_example :
    ((lookup bounds.array_components 3 ≡ none) × Within five 3)
    ⊎ ((components : List Local) × (lookup bounds.array_components 3 ≡ some components)
        × (components ≢ [])
        × ((c : Local) → In c components → Within five c))
index_is_fully_bounded_sound_example =
    index_is_fully_bounded_sound five bounds 3 bounds-BoundsHold bounded_3

-- Another path, with a tighter bound and one more fact.
abbrev other_path : BlockState
other_path = record before {
  ranges_domain = record ranges { nonzero = 2 ∷ []; const_upper = (2, 50) ∷ [] };
}

join_with-ProvenHold_example :
    (ProvenHold five before → ProvenHold five (join_with before other_path).0)
    × (ProvenHold five other_path → ProvenHold five (join_with before other_path).0)
join_with-ProvenHold_example = join_with-ProvenHold five before other_path

-- Both locals have a cast origin, and 1 is known to equal the origin of 2: the answer depends on the
-- order of the locals.
abbrev two_casts : PairsDomain
two_casts = record {
  eq_locals = (1, 4) ∷ [];
  cast_origin = (1, 3) ∷ (2, 4) ∷ [];
  ne_pair_if_true = [];
  eq_pair_if_true = [];
  keys_are_ne = [];
}

eq_1_2 : locals_are_eq two_casts 1 2 ≡ false
unfolding locals_are_eq origins_are_eq contains lookup
eq_1_2 = refl

eq_2_1 : locals_are_eq two_casts 2 1 ≡ true
unfolding locals_are_eq origins_are_eq contains lookup
eq_2_1 = refl

-- A switch with an arm for 5 alone: the edge that 0 takes is refined as nonzero.
no_zero_arm : edge_kind (record { values = (5, 4) ∷ []; otherwise = 3 }) 3 ≡ some true
unfolding edge_kind target_of
no_zero_arm = refl
