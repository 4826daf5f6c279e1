-- ===== src/Run/Callers.antt =====
-- A crate in which no violation of a precondition is reported (`run_checks` of
-- crates/san/src/lib.rs).
use san.Base.{
  ℕ, List, [], ◌∷◌, true, false, not, none, some, ◌≡◌, ◌≢◌, ◌⊎◌, inl, inr, refl, ap, sym, ◌∙◌,
  subst, nat_eq, list_eq, pair_eq, nat_beq_iff, ◌==◌, In, In-left, In-right, head, tail, arith,
  Bool-cases, if◌then◌else◌,
}
use san.Base.Sets.{contains}
use san.Base.Maps.{lookup, put, lookup-put, lookup-put_self}
use san.Base.Texts.{codes}
use san.State.Locals.{Local, DefId}
use san.Facts.{nth_arg_local}
use san.Edge.Memory.{Memory}
use san.Edge.Ranges.{RangesHold}
use san.Edge.Bounds.{BoundsHold}
use san.Report.{Finding}
use san.Flow.{BlockView, Context}
use san.Precond.{
  PrecondSummaryMap, has_no_preconds, param_index, is_nonzero_precond, DirectCall, direct_call,
  precond_propagation,
}
use san.Precond.Needs.{NeedsOf, proven_nonzero}
use san.Precond.Requires.{extract_precond_summary_lem}
use san.Precond.Violations.{has_nonzero, precond_propagation_sound}
use san.Run.{Checker, preconds_of, note_preconds, check_body, check_bodies, run_checks}
use san.Run.Findings.{violation, precond_propagation-AllOf, reported}

module _ (cx : DefId → Context) (flow : DefId → List BlockView) where
  abbrev note_one : PrecondSummaryMap → DefId → PrecondSummaryMap
  note_one m d =
      if not (has_no_preconds (preconds_of cx flow d)) then put m d (preconds_of cx flow d) else m

  noted_now :
      (m : PrecondSummaryMap) (d e : DefId)
      → has_no_preconds (preconds_of cx flow d) ≡ false
      → d ≡ e
      → lookup (note_one m e) d ≡ some (preconds_of cx flow d)
  noted_now m d e n q =
      subst (λ x. lookup (note_one m x) d ≡ some (preconds_of cx flow d)) q
        (rw n (lookup-put_self m d (preconds_of cx flow d)))

  noted_before :
      (m : PrecondSummaryMap) (d e : DefId)
      → has_no_preconds (preconds_of cx flow d) ≡ false
      → lookup m d ≡ some (preconds_of cx flow d)
      → lookup (note_one m e) d ≡ some (preconds_of cx flow d)
  noted_before m d e n q = elim (Bool-cases (e == d)) [
    | inl y ↦ noted_now m d e n (sym ((nat_beq_iff e d).0 y))
    | inr other ↦ elim (Bool-cases (has_no_preconds (preconds_of cx flow e))) [
      | inl none_there ↦ rw none_there q
      | inr some_there ↦ rw some_there (ground (arith, lookup-put m e (preconds_of cx flow e) d))
    ]
  ]

  -- What the map holds of a function that was looked at.
  noted :
      (ds : List DefId) (m : PrecondSummaryMap) (d : DefId)
      → has_no_preconds (preconds_of cx flow d) ≡ false
      → In d ds ⊎ (lookup m d ≡ some (preconds_of cx flow d))
      → lookup (note_preconds cx flow ds m) d ≡ some (preconds_of cx flow d)
  unfolding note_preconds
  noted [] m d n (inl k) = elim k [ ]
  noted [] m d n (inr q) = q
  noted (e ∷ ds) m d n (inr q) = noted ds (note_one m e) d n (inr (noted_before m d e n q))
  noted (e ∷ ds) m d n (inl k) = elim k [
    | head q ↦ noted ds (note_one m e) d n (inr (noted_now m d e n q))
    | tail t ↦ noted ds (note_one m e) d n (inl t)
  ]

  In-check_body :
      (checkers : List Checker) (preconds : PrecondSummaryMap) (d : DefId) (f : Finding)
      → In precond_propagation checkers
      → In f (precond_propagation (cx d) preconds (flow d))
      → In f (check_body cx flow checkers preconds d)
  unfolding check_body
  In-check_body [] preconds d f k m = elim k [ ]
  In-check_body (checker ∷ checkers) preconds d f k m = elim k [
    | head q ↦
        In-left (checker (cx d) preconds (flow d)) _
          (subst (λ (c : Checker). In f (c (cx d) preconds (flow d))) q m)
    | tail t ↦
        In-right (checker (cx d) preconds (flow d)) _ (In-check_body checkers preconds d f t m)
  ]

  In-check_bodies :
      (checkers : List Checker) (preconds : PrecondSummaryMap) (ds : List DefId) (d : DefId)
      (f : Finding)
      → In d ds
      → In f (check_body cx flow checkers preconds d)
      → In f (check_bodies cx flow checkers preconds ds)
  unfolding check_bodies
  In-check_bodies checkers preconds [] d f k m = elim k [ ]
  In-check_bodies checkers preconds (e ∷ ds) d f k m = elim k [
    | head q ↦
        In-left (check_body cx flow checkers preconds e) _
          (subst (λ x. In f (check_body cx flow checkers preconds x)) q m)
    | tail t ↦
        In-right (check_body cx flow checkers preconds e) _
          (In-check_bodies checkers preconds ds d f t m)
  ]

  module _ (checkers : List Checker) (crate_findings : List Finding) (local_fns : List DefId) where
    abbrev pub preconds : PrecondSummaryMap
    preconds = note_preconds cx flow local_fns []

    -- A report without violations comes from bodies without violations.
    bodies_silent :
        In precond_propagation checkers
        → ((g : Finding)
            → In g (run_checks cx flow checkers crate_findings local_fns)
            → g.rule_id ≢ violation)
        → (d : DefId) → In d local_fns
        → (fs : List Finding) → precond_propagation (cx d) preconds (flow d) ≡ fs
        → fs ≡ []
    unfolding run_checks
    bodies_silent listed silent d m [] e = refl
    bodies_silent listed silent d m (f ∷ fs) e =
        let here : In f (precond_propagation (cx d) preconds (flow d)) =
          subst (λ x. In f x) (sym e) (head refl) in
        let rule = precond_propagation-AllOf (cx d) preconds (flow d) f here in
        let listed_f = In-right crate_findings _ (
          In-check_bodies checkers preconds local_fns d f m
            (In-check_body checkers preconds d f listed here)) in
        let (g, k, same) = reported _ f listed_f (ap (λ r. r == codes "unsafe_fn_call") rule) in
        absurd (silent g k (same ∙ rule))

    -- If the report of a crate has no violation of a precondition, then where a local function calls
    -- another one that hands its parameter `i` to an unsafe constructor without a check, the
    -- argument is not zero, in each memory in which the facts before the call hold, if it is a local
    -- and no parameter of the caller.
    pub run_checks_nonzero :
        In precond_propagation checkers
        → ((g : Finding)
            → In g (run_checks cx flow checkers crate_findings local_fns)
            → g.rule_id ≢ codes "precond_violation")
        → (caller : DefId) (b : BlockView) (c : DirectCall) → In caller local_fns
        → In b (flow caller)
        → direct_call b ≡ some c
        → In c.callee local_fns
        → (inner : BlockView) (i : ℕ) → In inner (flow c.callee)
        → NeedsOf is_nonzero_precond proven_nonzero
            (cx c.callee).def_path_str
            (cx c.callee).body
            inner
            i
        → (l : Local) → nth_arg_local c.args i ≡ some l
        → param_index (cx caller).body l ≡ none
        → (m : Memory) → RangesHold m c.state.ranges_domain
        → BoundsHold m c.state.bounds_domain
        → m.value l ≢ 0
    run_checks_nonzero listed silent caller b c caller_in b_in called callee_in inner i inner_in
          needs l arg free m rh bh =
        let p = preconds_of cx flow c.callee in
        let member : contains p.nonzero_args i ≡ true =
          ((extract_precond_summary_lem (cx c.callee).def_path_str (cx c.callee).body
                (flow c.callee)).0
              i).1
            (inner, inner_in, needs) in
        let has = has_nonzero (cx caller) preconds (flow caller) b c p i member in
        let known = noted local_fns [] c.callee has (inl callee_in) in
        let quiet = bodies_silent listed silent caller caller_in _ refl in
        (precond_propagation_sound (cx caller) preconds (flow caller) b c p quiet b_in called known
            m rh bh).0
          i l member arg free
