-- ===== src/Precond/Violations.antt =====
-- What it means that no violation of a precondition is reported
-- (crates/san/src/checkers/precond_propagation.rs).
use san.Base.{
  ℕ, List, [], ◌∷◌, Bool, true, false, none, some, ◌≡◌, ◌≢◌, ◌⊎◌, ◌≤◌, ◌<◌, inl, inr, refl, ap, ◌∙◌,
  nat_eq, pair_eq, In, append_nil, head, tail, arith, Bool-cases,
}
use san.Base.Sets.{contains, contains-In}
use san.Base.Maps.{lookup}
use san.Base.Texts.{Text}
use san.State.{BlockState}
use san.State.Locals.{Local}
use san.State.Proven.{
  local_is_nonzero, local_is_ascii, local_is_bounded, index_is_bounded_for, deref_base,
}
use san.State.Ownership.{is_empty}
use san.Mir.{Body}
use san.Facts.{nth_arg_local}
use san.Edge.Memory.{Memory}
use san.Edge.Ranges.{RangesHold}
use san.Edge.Bounds.{Within, BoundsHold}
use san.Edge.Queries.{range_queries_sound}
use san.Summary.{ascending}
use san.Flow.{BlockView, Context}
use san.Flow.Frees.{In-ascending}
use san.Precond.Messages.{callee_short, nonzero_message, ascii_message, bounds_message}
use san.Precond.{
  PrecondSummary, PrecondSummaryMap, has_no_preconds, param_index, is_passed, index_is_safe,
  index_passes, violations_of, bound_violations, insert_pair, ascending_pairs, pair_leb, DirectCall,
  direct_call, arg_is_nonzero, arg_is_ascii, arg_is_in_bounds, call_violations, block_violations,
  precond_propagation,
}

-- Nothing is reported only if every argument passes.
all_pass :
    (passes : ℕ → Bool) (message : ℕ → Text) (b : BlockView) (is : List ℕ) (i : ℕ)
    → violations_of passes message b is ≡ []
    → In i is
    → passes i ≡ true
unfolding violations_of
all_pass passes message b [] i h m = elim m [ ]
all_pass passes message b (x ∷ is) i h m = elim (Bool-cases (passes x)) [
  | inr n ↦ absurd (ground arith)
  | inl y ↦ elim m [
    | head q ↦ ap passes q ∙ y
    | tail k ↦ all_pass passes message b is i (ground arith) k
  ]
]

all_bounds_pass :
    (passes : ℕ × ℕ → Bool) (message : ℕ × ℕ → Text) (b : BlockView) (ps : List (ℕ × ℕ)) (p : ℕ × ℕ)
    → bound_violations passes message b ps ≡ []
    → In p ps
    → passes p ≡ true
unfolding bound_violations
all_bounds_pass passes message b [] p h m = elim m [ ]
all_bounds_pass passes message b (x ∷ ps) p h m = elim (Bool-cases (passes x)) [
  | inr n ↦ absurd (ground arith)
  | inl y ↦ elim m [
    | head q ↦ ap passes q ∙ y
    | tail k ↦ all_bounds_pass passes message b ps p (ground arith) k
  ]
]

In-insert_pair :
    (x : ℕ × ℕ) (ys : List (ℕ × ℕ)) (a : ℕ × ℕ) → (a ≡ x) ⊎ In a ys → In a (insert_pair x ys)
unfolding insert_pair
In-insert_pair x [] a s = elim s [ inl q ↦ head q | inr n ↦ elim n [ ] ]
In-insert_pair x (y ∷ ys) a s = elim (Bool-cases (pair_leb x y)) [
  | inl first ↦ rw first (elim s [ inl q ↦ head q | inr n ↦ tail n ])
  | inr later ↦ rw later (elim s [
    | inl q ↦ tail (In-insert_pair x ys a (inl q))
    | inr n ↦ elim n [ head q ↦ head q | tail k ↦ tail (In-insert_pair x ys a (inr k)) ]
  ])
]

-- Sorting loses no pair.
In-ascending_pairs : (xs : List (ℕ × ℕ)) (a : ℕ × ℕ) → In a xs → In a (ascending_pairs xs)
unfolding ascending_pairs
In-ascending_pairs [] a m = m
In-ascending_pairs (x ∷ xs) a m = elim m [
  | head q ↦ In-insert_pair x (ascending_pairs xs) a (inl q)
  | tail n ↦ In-insert_pair x (ascending_pairs xs) a (inr (In-ascending_pairs xs a n))
]

-- An argument that passes, and is no parameter, is proven.
passed_is_proven :
    (is_proven : Local → Bool) (body : Body) (l : Local)
    → is_passed is_proven body (some l) ≡ true
    → param_index body l ≡ none
    → is_proven l ≡ true
unfolding is_passed
passed_is_proven is_proven body l h n = elim (Bool-cases (is_proven l)) [
  | inl y ↦ y
  | inr n' ↦ absurd (ground arith)
]

no_violations :
    (cx : Context) (preconds : PrecondSummaryMap) (bs : List BlockView) (b : BlockView)
    → precond_propagation cx preconds bs ≡ []
    → In b bs
    → block_violations cx preconds b (direct_call b) ≡ []
unfolding precond_propagation
no_violations cx preconds [] b h m = elim m [ ]
no_violations cx preconds (x ∷ bs) b h m =
    let (one, rest) =
      append_nil (block_violations cx preconds x (direct_call x))
        (precond_propagation cx preconds bs) h in
    elim m [
      | head q ↦ ap (λ y. block_violations cx preconds y (direct_call y)) q ∙ one
      | tail n ↦ no_violations cx preconds bs b rest n
    ]

-- An index that is known to be safe.
in_bounds :
    (m : Memory) (s : BlockState)
    → BoundsHold m s.bounds_domain
    → (coll l : Local) → index_is_safe s coll l ≡ true
    → (m.value l < m.len coll) ⊎ Within m l
unfolding index_is_safe index_is_bounded_for local_is_bounded
in_bounds m s h coll l safe = elim (Bool-cases (contains s.index_bounded_for (l, coll))) [
  | inl y ↦ inl (h.index_bounded_for (l, coll) y)
  | inr n ↦ inr (h.bounded l (ground arith))
]

not_empty : {A : Type 0} (xs : List A) (a : A) → In a xs → is_empty xs ≡ false
not_empty [] a m = elim m [ ]
not_empty (x ∷ xs) a m = refl

-- A call whose callee has preconditions, in a body of which nothing is reported.
module _ (cx : Context) (preconds : PrecondSummaryMap) (bs : List BlockView) (b : BlockView)
    (c : DirectCall) (p : PrecondSummary) where
  call_silent :
      precond_propagation cx preconds bs ≡ []
      → In b bs
      → direct_call b ≡ some c
      → lookup preconds c.callee ≡ some p
      → has_no_preconds p ≡ false
      → call_violations cx b c p ≡ []
  unfolding block_violations
  call_silent silent m called known has =
      let one = no_violations cx preconds bs b silent m in
      rw (called, block_violations, known, has) at one

  -- The three kinds of findings.
  parts :
      call_violations cx b c p ≡ []
      → (violations_of
            (arg_is_nonzero cx.body c)
            (nonzero_message (callee_short (cx.def_path_str c.callee)))
            b
            (ascending p.nonzero_args)
          ≡ [])
        × (violations_of
              (arg_is_ascii cx.body c)
              (ascii_message (callee_short (cx.def_path_str c.callee)))
              b
              (ascending p.ascii_args)
            ≡ [])
        × (bound_violations
              (arg_is_in_bounds cx.body c)
              (bounds_message (callee_short (cx.def_path_str c.callee)))
              b
              (ascending_pairs p.bounded_for_args)
            ≡ [])
  unfolding call_violations
  parts h =
      let (front, three) = append_nil _ _ h in
      let (one, two) = append_nil _ _ front in (one, two, three)

  pub has_nonzero : (i : ℕ) → contains p.nonzero_args i ≡ true → has_no_preconds p ≡ false
  unfolding has_no_preconds
  has_nonzero i h = ground (arith, not_empty p.nonzero_args i (contains-In i p.nonzero_args h))

  has_ascii : (i : ℕ) → contains p.ascii_args i ≡ true → has_no_preconds p ≡ false
  unfolding has_no_preconds
  has_ascii i h = ground (arith, not_empty p.ascii_args i (contains-In i p.ascii_args h))

  has_bound : (q : ℕ × ℕ) → contains p.bounded_for_args q ≡ true → has_no_preconds p ≡ false
  unfolding has_no_preconds
  has_bound q h =
      ground (arith, not_empty p.bounded_for_args q (contains-In q p.bounded_for_args h))

  -- If nothing is reported of a body, then at each call of a function with preconditions every
  -- argument that is a local, and no parameter of the body, meets them in each memory in which the
  -- facts before the call hold: it is not zero, it is ASCII, or it is in bounds.
  pub precond_propagation_sound :
      precond_propagation cx preconds bs ≡ []
      → In b bs
      → direct_call b ≡ some c
      → lookup preconds c.callee ≡ some p
      → (m : Memory) → RangesHold m c.state.ranges_domain
      → BoundsHold m c.state.bounds_domain
      → ((i : ℕ) (l : Local)
          → contains p.nonzero_args i ≡ true
          → nth_arg_local c.args i ≡ some l
          → param_index cx.body l ≡ none
          → m.value l ≢ 0)
        × ((i : ℕ) (l : Local)
            → contains p.ascii_args i ≡ true
            → nth_arg_local c.args i ≡ some l
            → param_index cx.body l ≡ none
            → m.value l ≤ 127)
        × ((i coll : ℕ) (l k : Local)
            → contains p.bounded_for_args (i, coll) ≡ true
            → nth_arg_local c.args i ≡ some l
            → nth_arg_local c.args coll ≡ some k
            → param_index cx.body l ≡ none
            → (m.value l < m.len (deref_base c.state.capacity_domain k)) ⊎ Within m l)
  unfolding arg_is_nonzero arg_is_ascii arg_is_in_bounds index_passes
  precond_propagation_sound silent mem called known m rh bh = (
    λ i l given arg n.
        let quiet = (parts (call_silent silent mem called known (has_nonzero i given))).0 in
        let passed =
          all_pass (arg_is_nonzero cx.body c) _ b (ascending p.nonzero_args) i quiet
            ((In-ascending p.nonzero_args i).1 (contains-In i p.nonzero_args given)) in
        (range_queries_sound m c.state.ranges_domain rh l).0 (
          passed_is_proven (local_is_nonzero c.state.ranges_domain) cx.body l
            (rw (arg_is_nonzero, arg) at passed) n),
    λ i l given arg n.
        let quiet = (parts (call_silent silent mem called known (has_ascii i given))).1 in
        let passed =
          all_pass (arg_is_ascii cx.body c) _ b (ascending p.ascii_args) i quiet
            ((In-ascending p.ascii_args i).1 (contains-In i p.ascii_args given)) in
        (range_queries_sound m c.state.ranges_domain rh l).1 (
          passed_is_proven (local_is_ascii c.state.ranges_domain) cx.body l
            (rw (arg_is_ascii, arg) at passed) n),
    λ i coll l k given arg of n.
        let quiet = (parts (call_silent silent mem called known (has_bound (i, coll) given))).2 in
        let passed =
          all_bounds_pass (arg_is_in_bounds cx.body c) _ b (ascending_pairs p.bounded_for_args)
            (i, coll) quiet
            (In-ascending_pairs p.bounded_for_args (i, coll)
              (contains-In (i, coll) p.bounded_for_args given)) in
        let safe =
          passed_is_proven (index_is_safe c.state (deref_base c.state.capacity_domain k)) cx.body l
            (rw (arg_is_in_bounds, index_passes, of, arg) at passed) n in
        in_bounds m c.state bh (deref_base c.state.capacity_domain k) l safe,
  )
