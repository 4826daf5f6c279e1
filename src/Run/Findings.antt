-- ===== src/Run/Findings.antt =====
-- The findings of the checker of preconditions, and what is left of them in the report
-- (crates/san/src/checkers/precond_propagation.rs, crates/san/src/lib.rs).
use san.Base.{
  ℕ, List, [], ◌∷◌, ◌++◌, map, Bool, true, false, Option, none, some, ◌≡◌, inl, inr, ap, sym, ◌∙◌,
  nat_eq, list_eq, pair_eq, ◌==◌, In, In-append, In-map, map-In, head, tail, Bool-cases,
  Option-cases,
}
use san.Base.Sets.{contains, In-contains, contains-In}
use san.Base.Maps.{lookup}
use san.Base.Texts.{Text, codes}
use san.Report.{Finding, key, dedup, is_backstop, report}
use san.Report.Laws.{dedup_lem, report_lem}
use san.Flow.{BlockView, Context}
use san.Summary.{ascending}
use san.Precond.Messages.{callee_short, nonzero_message, ascii_message, bounds_message}
use san.Precond.{
  ascending_pairs, arg_is_nonzero, arg_is_ascii, arg_is_in_bounds, PrecondSummary,
  PrecondSummaryMap, has_no_preconds, violations_of, bound_violations, DirectCall, direct_call,
  call_violations, block_violations, precond_propagation,
}

-- All findings have one rule.
abbrev pub AllOf : Text → List Finding → Type 0
AllOf rule fs = (f : Finding) → In f fs → f.rule_id ≡ rule

abbrev pub violation : Text
violation = codes "precond_violation"

AllOf-append :
    (rule : Text) (xs ys : List Finding) → AllOf rule xs → AllOf rule ys → AllOf rule (xs ++ ys)
AllOf-append rule xs ys h k f m = elim (In-append xs ys m) [ inl a ↦ h f a | inr b ↦ k f b ]

violations_of-AllOf :
    (passes : ℕ → Bool) (message : ℕ → Text) (b : BlockView) (is : List ℕ)
    → AllOf violation (violations_of passes message b is)
unfolding violations_of
violations_of-AllOf passes message b [] f m = elim m [ ]
violations_of-AllOf passes message b (i ∷ is) f m = elim (Bool-cases (passes i)) [
  | inl y ↦ violations_of-AllOf passes message b is f (rw (violations_of, y) at m)
  | inr n ↦ elim (rw (violations_of, n) at m) [
    | head q ↦ ap (λ g. g.rule_id) q
    | tail k ↦ violations_of-AllOf passes message b is f k
  ]
]

bound_violations-AllOf :
    (passes : ℕ × ℕ → Bool) (message : ℕ × ℕ → Text) (b : BlockView) (ps : List (ℕ × ℕ))
    → AllOf violation (bound_violations passes message b ps)
unfolding bound_violations
bound_violations-AllOf passes message b [] f m = elim m [ ]
bound_violations-AllOf passes message b (p ∷ ps) f m = elim (Bool-cases (passes p)) [
  | inl y ↦ bound_violations-AllOf passes message b ps f (rw (bound_violations, y) at m)
  | inr n ↦ elim (rw (bound_violations, n) at m) [
    | head q ↦ ap (λ g. g.rule_id) q
    | tail k ↦ bound_violations-AllOf passes message b ps f k
  ]
]

call_violations-AllOf :
    (cx : Context) (b : BlockView) (c : DirectCall) (p : PrecondSummary)
    → AllOf violation (call_violations cx b c p)
unfolding call_violations
call_violations-AllOf cx b c p =
    let name = callee_short (cx.def_path_str c.callee) in
    AllOf-append violation _ _
      (AllOf-append violation _ _
        (violations_of-AllOf (arg_is_nonzero cx.body c) (nonzero_message name) b
          (ascending p.nonzero_args))
        (violations_of-AllOf (arg_is_ascii cx.body c) (ascii_message name) b
          (ascending p.ascii_args)))
      (bound_violations-AllOf (arg_is_in_bounds cx.body c) (bounds_message name) b
        (ascending_pairs p.bounded_for_args))

block_violations-AllOf :
    (cx : Context) (preconds : PrecondSummaryMap) (b : BlockView) (o : Option DirectCall)
    → AllOf violation (block_violations cx preconds b o)
unfolding block_violations
block_violations-AllOf cx preconds b none f m = elim m [ ]
block_violations-AllOf cx preconds b (some c) f m = elim (Option-cases (lookup preconds c.callee)) [
  | inl n ↦ elim (rw (block_violations, n) at m) [ ]
  | inr (p, q) ↦ elim (Bool-cases (has_no_preconds p)) [
    | inl y ↦ elim (rw (block_violations, q, y) at m) [ ]
    | inr n ↦ call_violations-AllOf cx b c p f (rw (block_violations, q, n) at m)
  ]
]

pub precond_propagation-AllOf :
    (cx : Context) (preconds : PrecondSummaryMap) (bs : List BlockView)
    → AllOf violation (precond_propagation cx preconds bs)
unfolding precond_propagation
precond_propagation-AllOf cx preconds [] = λ f m. elim m [ ]
precond_propagation-AllOf cx preconds (b ∷ bs) =
    AllOf-append violation (block_violations cx preconds b (direct_call b)) _
      (block_violations-AllOf cx preconds b (direct_call b))
      (precond_propagation-AllOf cx preconds bs)

-- A rule that speaks before the duplicates are dropped speaks in the report, unless it is the
-- backstop.
pub reported :
    (fs : List Finding) (f : Finding)
    → In f fs
    → is_backstop f ≡ false
    → (g : Finding) × In g (report fs) × (g.rule_id ≡ f.rule_id)
reported fs f m n =
    let listed : contains (map key (dedup fs)) (key f) ≡ true =
      (dedup_lem fs).1 (key f) ∙ In-contains (In-map key fs f m) in
    let (g, k, q) =
      map-In key (dedup fs) (key f) (contains-In (key f) (map key (dedup fs)) listed) in
    let same : f.rule_id ≡ g.rule_id = ap (λ t. t.0) q in
    let other : is_backstop g ≡ false = ap (λ r. r == codes "unsafe_fn_call") (sym same) ∙ n in
    (g, (report_lem fs g g).1 k other, sym same)
