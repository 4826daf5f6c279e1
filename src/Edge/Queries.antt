-- ===== src/Edge/Queries.antt =====
-- What the answers about a local say of a memory in which the facts hold: the queries of
-- crates/san/src/analysis/state.rs that suppress a report.
use san.Base.{
  ℕ, List, [], ◌∷◌, Bool, true, false, Option, none, some, ◌≡◌, ◌≢◌, ◌⊎◌, ◌∙◌, inl, inr, refl, sym,
  ap, ◌≤◌, nat_eq, pair_eq, nat_beq_iff, ◌==◌, leb, ltb, arith, In, head, tail, all, Option-cases,
  Bool-cases,
}
use san.Base.Sets.{contains}
use san.Base.Maps.{lookup}
use san.State.Locals.{Local}
use san.State.Ranges.{RangesDomain}
use san.State.Pairs.{PairsDomain}
use san.State.Capacity.{CapacityDomain}
use san.State.Bounds.{BoundsDomain}
use san.State.Ownership.{some_and, is_empty}
use san.State.Proven.{
  local_is_nonzero, local_is_ascii, local_is_valid_scalar, locals_are_eq, origins_are_eq,
  locals_are_ne, referents_are_ne, canon, index_is_fully_bounded, local_is_bounded,
}
use san.Edge.Memory.{Memory, Entries}
use san.Edge.Ranges.{RangesHold}
use san.Edge.Pairs.{PairsHold}
use san.Edge.Bounds.{BoundsHold, Within}

pub some_and_lem :
    {A : Type 0} (p : A → Bool) (o : Option A)
    → some_and p o ≡ true
    → (a : A) × (o ≡ some a) × (p a ≡ true)
some_and_lem p none h = absurd (ground arith)
some_and_lem p (some a) h = (a, refl, h)

-- A Unicode scalar value: no surrogate and at most 0x10FFFF.
abbrev pub IsScalar : ℕ → Type 0
IsScalar n = (n ≤ 55295) ⊎ ((57344 ≤ n) × (n ≤ 1114111))

module _ (m : Memory) (s : RangesDomain) (h : RangesHold m s) (l : Local) where
  nonzero_sound : local_is_nonzero s l ≡ true → m.value l ≢ 0
  unfolding local_is_nonzero
  nonzero_sound q = elim (Bool-cases (contains s.nonzero l)) [
    | inl y ↦ h.nonzero l y
    | inr n ↦
        let (lb, e, le) = some_and_lem (λ lb. leb 1 lb) (lookup s.const_lower l) (ground arith) in
        let low = h.const_lower l lb e in λ z. ground arith
  ]

  ascii_sound : local_is_ascii s l ≡ true → m.value l ≤ 127
  unfolding local_is_ascii
  ascii_sound q =
      let (ub, e, le) = some_and_lem (λ ub. leb ub 127) (lookup s.const_upper l) q in
      let up = h.const_upper l ub e in ground arith

  local_is_valid_scalar-IsScalar : local_is_valid_scalar s l ≡ true → IsScalar (m.value l)
  unfolding local_is_valid_scalar
  local_is_valid_scalar-IsScalar q =
      let (u, e, le) = some_and_lem (λ u. leb u 1114111) (lookup s.const_upper l) (ground arith) in
      let up = h.const_upper l u e in
      elim (Bool-cases (some_and (λ u. ltb u 55296) (lookup s.const_upper l))) [
        | inl below ↦
            let (v, e', lt) = some_and_lem (λ u. ltb u 55296) (lookup s.const_upper l) below in
            let up' = h.const_upper l v e' in inl (ground arith)
        | inr above ↦
            let (v, e', lt) =
              some_and_lem (λ l. ltb 57343 l) (lookup s.const_lower l) (ground arith) in
            let low = h.const_lower l v e' in inr (ground arith, ground arith)
      ]

  -- In a memory in which the facts on ranges hold, a local that is reported to be nonzero, ASCII or
  -- a valid scalar is so: its value is not 0, is at most 127, or is a Unicode scalar value.
  pub range_queries_sound :
      (local_is_nonzero s l ≡ true → m.value l ≢ 0)
      × (local_is_ascii s l ≡ true → m.value l ≤ 127)
      × (local_is_valid_scalar s l ≡ true → IsScalar (m.value l))
  range_queries_sound = (nonzero_sound, ascii_sound, local_is_valid_scalar-IsScalar)

-- Equality, which looks through one cast that keeps the value.
module _ (m : Memory) (s : PairsDomain) (h : PairsHold m s)
    (casts : Entries (λ l o. m.value l ≡ m.value o) s.cast_origin) where
  canon_sound : (a b : Local) → contains s.eq_locals (canon a b) ≡ true → m.value a ≡ m.value b
  canon_sound a b q = elim (Bool-cases (leb a b)) [
    | inl le ↦ h.eq_locals (a, b) (rw le at q)
    | inr gt ↦ sym (h.eq_locals (b, a) (rw gt at q))
  ]

  same_value : (a b : Local) → (a == b) ≡ true → m.value a ≡ m.value b
  same_value a b q = ap m.value ((nat_beq_iff a b).0 q)

  origins_sound :
      (a b : Local) (oa ob : Option Local)
      → ((o : Local) → oa ≡ some o → m.value a ≡ m.value o)
      → ((o : Local) → ob ≡ some o → m.value b ≡ m.value o)
      → origins_are_eq s.eq_locals a b oa ob ≡ true
      → m.value a ≡ m.value b
  unfolding origins_are_eq
  origins_sound a b none none ca cb q = absurd (ground arith)
  origins_sound a b (some sa) none ca cb q = elim (Bool-cases (sa == b)) [
    | inl same ↦ ca sa refl ∙ same_value sa b same
    | inr n ↦ ca sa refl ∙ canon_sound sa b (rw n at q)
  ]
  origins_sound a b none (some sb) ca cb q = elim (Bool-cases (sb == a)) [
    | inl same ↦ sym (cb sb refl ∙ same_value sb a same)
    | inr n ↦ canon_sound a sb (rw n at q) ∙ sym (cb sb refl)
  ]
  origins_sound a b (some sa) (some sb) ca cb q = elim (Bool-cases (sa == b)) [
    | inl same ↦ ca sa refl ∙ same_value sa b same
    | inr n ↦ elim (Bool-cases (sb == a)) [
      | inl same ↦ sym (cb sb refl ∙ same_value sb a same)
      | inr n' ↦ elim (Bool-cases (sa == sb)) [
        | inl same ↦ ca sa refl ∙ (same_value sa sb same ∙ sym (cb sb refl))
        | inr k ↦ ca sa refl ∙ canon_sound sa b (rw (n, n', k) at q)
      ]
    ]
  ]

  -- Locals that are reported to be equal have the same value, when the recorded casts keep values.
  pub locals_are_eq_sound : (a b : Local) → locals_are_eq s a b ≡ true → m.value a ≡ m.value b
  unfolding locals_are_eq
  locals_are_eq_sound a b q = elim (Bool-cases (a == b)) [
    | inl same ↦ same_value a b same
    | inr n ↦ elim (Bool-cases (contains s.eq_locals (canon a b))) [
      | inl known ↦ canon_sound a b known
      | inr n' ↦
          origins_sound a b (lookup s.cast_origin a) (lookup s.cast_origin b) (casts a) (casts b)
            (rw (n, n') at q)
    ]
  ]

canon_comm : (a b : Local) → canon a b ≡ canon b a
canon_comm a b = ground arith

referents_comm :
    (nes : List (Local × Local)) (a b : Local) (oa ob : Option Local)
    → referents_are_ne nes a b oa ob ≡ referents_are_ne nes b a ob oa
unfolding referents_are_ne
referents_comm nes a b none none = refl
referents_comm nes a b (some sa) none = ap (contains nes) (canon_comm sa b)
referents_comm nes a b none (some sb) = ap (contains nes) (canon_comm a sb)
referents_comm nes a b (some sa) (some sb) = ground (
  arith,
  ap (contains nes) (canon_comm sa b),
  ap (contains nes) (canon_comm a sb),
  ap (contains nes) (canon_comm sa sb),
)

-- The answer whether two locals are unequal does not depend on their order.
pub locals_are_ne_comm :
    (s : PairsDomain) (refs : CapacityDomain) (a b : Local)
    → locals_are_ne s refs a b ≡ locals_are_ne s refs b a
unfolding locals_are_ne
locals_are_ne_comm s refs a b = ground (
  arith,
  ap (contains s.keys_are_ne) (canon_comm a b),
  referents_comm s.keys_are_ne a b (lookup refs.ref_base a) (lookup refs.ref_base b),
)

all-In :
    {A : Type 0} (p : A → Bool) (xs : List A) → all p xs ≡ true → (a : A) → In a xs → p a ≡ true
all-In p [] h a m = elim m [ ]
all-In p (x ∷ xs) h a (head q) = ap p q ∙ ground arith
all-In p (x ∷ xs) h a (tail m) = all-In p xs (ground arith) a m

full : (xs : List Local) → is_empty xs ≡ false → xs ≢ []
full [] h q = absurd (ground arith)
full (x ∷ xs) h q = absurd (ground arith)

-- An index that is reported to be fully bounded is less than the length it was compared with; if
-- it is an aggregate, it has components, and each of them is.
pub index_is_fully_bounded_sound :
    (m : Memory) (s : BoundsDomain) (l : Local)
    → BoundsHold m s
    → index_is_fully_bounded s l ≡ true
    → ((lookup s.array_components l ≡ none) × Within m l)
      ⊎ ((components : List Local) × (lookup s.array_components l ≡ some components)
          × (components ≢ [])
          × ((c : Local) → In c components → Within m c))
unfolding index_is_fully_bounded local_is_bounded
index_is_fully_bounded_sound m s l h q = elim (Option-cases (lookup s.array_components l)) [
  | inl e ↦ inl (e, h.bounded l (rw (index_is_fully_bounded, e) at q))
  | inr (components, e) ↦
      let q' = rw (index_is_fully_bounded, e) at q in
      inr (
        components,
        e,
        full components (ground arith),
        λ c i. h.bounded c (all-In (contains s.bounded) components (ground arith) c i),
      )
]
