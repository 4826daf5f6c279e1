-- ===== src/Precond/Wrappers.antt =====
-- A function that only hands its parameters on (crates/san/src/analysis/precond.rs,
-- crates/san/src/checkers/precond_propagation.rs).
use san.Base.{
  ℕ, List, [], ◌∷◌, ◌++◌, Bool, true, false, Option, none, some, ◌≡◌, inl, inr, refl, ap, ap₂, ◌∙◌,
  nat_eq, In, head, tail, arith, Bool-cases, Option-cases,
}
use san.Base.Maps.{lookup}
use san.Base.Texts.{Text}
use san.State.Locals.{Local}
use san.State.Proven.{local_is_nonzero, local_is_ascii, deref_base}
use san.Mir.{Body}
use san.Facts.{nth_arg_local}
use san.Summary.{ascending}
use san.Flow.{BlockView, Context}
use san.Precond.{
  PrecondSummary, no_preconds, PrecondSummaryMap, has_no_preconds, param_index, is_nonzero_precond,
  is_ascii_precond, is_index_precond, is_passed, index_is_safe, index_passes, violations_of,
  bound_violations, ascending_pairs, DirectCall, direct_call, note_call, note_block, note_blocks,
  extract_precond_summary, arg_is_nonzero, arg_is_ascii, arg_is_in_bounds, call_violations,
  block_violations, precond_propagation,
}

-- A call of a function that is no unsafe operation itself, with parameters of the body, constants
-- and projections as arguments.
pub record HandsOn (cx : Context) (c : DirectCall) : Type 0 where
  pub no_nonzero : is_nonzero_precond (cx.def_path_str c.callee) ≡ false
  pub no_ascii : is_ascii_precond (cx.def_path_str c.callee) ≡ false
  pub no_index : is_index_precond (cx.def_path_str c.callee) ≡ false
  pub params :
      (i : ℕ) (l : Local)
      → nth_arg_local c.args i ≡ some l
      → (k : ℕ) × (param_index cx.body l ≡ some k)

passed_param :
    (is_proven : Local → Bool) (body : Body) (o : Option Local)
    → ((l : Local) → o ≡ some l → (k : ℕ) × (param_index body l ≡ some k))
    → is_passed is_proven body o ≡ true
unfolding is_passed
passed_param is_proven body none h = refl
passed_param is_proven body (some l) h = elim (Bool-cases (is_proven l)) [
  | inl y ↦ ground arith
  | inr n ↦ let (k, q) = h l refl in ground arith
]

index_passed :
    (cx : Context) (c : DirectCall) (oi oc : Option Local)
    → ((l : Local) → oi ≡ some l → (k : ℕ) × (param_index cx.body l ≡ some k))
    → index_passes c.state cx.body oi oc ≡ true
unfolding index_passes
index_passed cx c oi none h = refl
index_passed cx c oi (some coll) h =
    passed_param (index_is_safe c.state (deref_base c.state.capacity_domain coll)) cx.body oi h

silent_params :
    (passes : ℕ → Bool) (message : ℕ → Text) (b : BlockView) (is : List ℕ)
    → ((i : ℕ) → passes i ≡ true)
    → violations_of passes message b is ≡ []
unfolding violations_of
silent_params passes message b [] h = refl
silent_params passes message b (i ∷ is) h = rw (h i) (silent_params passes message b is h)

silent_pairs :
    (passes : ℕ × ℕ → Bool) (message : ℕ × ℕ → Text) (b : BlockView) (ps : List (ℕ × ℕ))
    → ((p : ℕ × ℕ) → passes p ≡ true)
    → bound_violations passes message b ps ≡ []
unfolding bound_violations
silent_pairs passes message b [] h = refl
silent_pairs passes message b (p ∷ ps) h = rw (h p) (silent_pairs passes message b ps h)

module _ (cx : Context) (preconds : PrecondSummaryMap) where
  silent_call :
      (b : BlockView) (c : DirectCall) (p : PrecondSummary)
      → HandsOn cx c
      → call_violations cx b c p ≡ []
  unfolding call_violations arg_is_nonzero arg_is_ascii arg_is_in_bounds
  silent_call b c p h =
      ap₂ ◌++◌
        (ap₂ ◌++◌
          (silent_params (arg_is_nonzero cx.body c) _ b (ascending p.nonzero_args) (λ i.
            passed_param (local_is_nonzero c.state.ranges_domain) cx.body (nth_arg_local c.args i)
              (h.params i)))
          (silent_params (arg_is_ascii cx.body c) _ b (ascending p.ascii_args) (λ i.
            passed_param (local_is_ascii c.state.ranges_domain) cx.body (nth_arg_local c.args i)
              (h.params i))))
        (silent_pairs (arg_is_in_bounds cx.body c) _ b (ascending_pairs p.bounded_for_args)
          (λ (i, coll).
            index_passed cx c (nth_arg_local c.args i) (nth_arg_local c.args coll) (h.params i)))

  silent_block :
      (b : BlockView) (o : Option DirectCall)
      → ((c : DirectCall) → o ≡ some c → HandsOn cx c)
      → block_violations cx preconds b o ≡ []
  unfolding block_violations
  silent_block b none h = refl
  silent_block b (some c) h = elim (Option-cases (lookup preconds c.callee)) [
    | inl n ↦ rw (block_violations, n) refl
    | inr (p, q) ↦ elim (Bool-cases (has_no_preconds p)) [
      | inl y ↦ rw (block_violations, q, y) refl
      | inr n ↦ rw (block_violations, q, n) (silent_call b c p (h c refl))
    ]
  ]

  nothing_noted :
      (o : Option DirectCall) (p : PrecondSummary)
      → ((c : DirectCall) → o ≡ some c → HandsOn cx c)
      → note_block cx.def_path_str cx.body o p ≡ p
  unfolding note_block note_call
  nothing_noted none p h = refl
  nothing_noted (some c) p h = let k = h c refl in rw (k.no_nonzero, k.no_ascii, k.no_index) refl

  noted_blocks :
      (bs : List BlockView) (p : PrecondSummary)
      → ((b : BlockView) → In b bs → (c : DirectCall) → direct_call b ≡ some c → HandsOn cx c)
      → (note_blocks cx.def_path_str cx.body bs p ≡ p) × (precond_propagation cx preconds bs ≡ [])
  unfolding note_blocks precond_propagation
  noted_blocks [] p h = (refl, refl)
  noted_blocks (b ∷ bs) p h =
      let first = h b (head refl) in
      let (same, silent) = noted_blocks bs p (λ x m. h x (tail m)) in
      (
        ap (note_blocks cx.def_path_str cx.body bs) (nothing_noted (direct_call b) p first) ∙ same,
        ap₂ ◌++◌ (silent_block b (direct_call b) first) silent,
      )

  -- A function that only hands its parameters on to functions that are no unsafe operations has no
  -- preconditions, and none of its calls is reported, whatever its callees require.
  pub hands_on_lem :
      (bs : List BlockView)
      → ((b : BlockView) → In b bs → (c : DirectCall) → direct_call b ≡ some c → HandsOn cx c)
      → (extract_precond_summary cx.def_path_str cx.body bs ≡ no_preconds)
        × (precond_propagation cx preconds bs ≡ [])
  unfolding extract_precond_summary
  hands_on_lem bs h = noted_blocks bs no_preconds h
