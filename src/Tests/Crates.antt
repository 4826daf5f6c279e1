-- ===== src/Tests/Crates.antt =====
-- A crate of two functions: a wrapper of an unsafe constructor and a caller of the wrapper; and the
-- functions that get a summary.
use san.Base.{
  ◌+◌, List, [], ◌∷◌, Bool, true, none, some, ◌≡◌, ◌≢◌, ◌≤◌, refl, subst, nat_eq, pair_eq, list_eq,
  if◌then◌else◌, ◌==◌, In, head, tail, arith, length,
}
use san.Base.Sets.{contains, insert}
use san.Base.Maps.{lookup, put, erase}
use san.Base.Texts.{codes, ends_with, ends_with_any, has_text, starts_with}
use san.State.Locals.{DefId}
use san.State.Proven.{
  local_is_nonzero, local_is_ascii, local_is_bounded, index_is_bounded_for, deref_base,
}
use san.Mir.{copy, constant, bool, Body, call, no_cleanup}
use san.Edge.{operand_local}
use san.Facts.{first_arg_local, nth_arg_local}
use san.Summary.{ascending, insert_sorted}
use san.Report.{Finding, dedup, dedup_by, drop_covered, covered, retain_findings, report}
use san.Report.Laws.{Unique}
use san.Flow.{BlockView, Context}
use san.Precond.{
  has_no_preconds, param_index, is_nonzero_precond, is_ascii_precond, is_index_precond, is_passed,
  index_is_safe, index_passes, violations_of, bound_violations, insert_pair, ascending_pairs,
  direct_call, extract_precond_summary, arg_is_nonzero, arg_is_ascii, arg_is_in_bounds,
  call_violations, block_violations, precond_propagation, unguarded_param, unguarded_index,
  note_call, note_block, note_blocks,
}
use san.Precond.Needs.{NeedsOf, proven_nonzero}
use san.Run.{note_preconds, check_body, check_bodies, run_checks}
use san.Run.Callers.{run_checks_nonzero}
use san.Rounds.Callees.{max_external_fns, visit_callee, visit_blocks, visit_fns, walk, to_summarize}
use san.Rounds.Callees.Bounds.{IsWanted, to_summarize_lem}
use san.Transfer.Sound.Ranges.{plain}
use san.Tests.Branches.{five, before, ranges-RangesHold, bounds-BoundsHold}
use san.Tests.Preconds.{
  path_of, wrapper, closed, calling, unchecked, context, guarded, guarded_args, guarded_call,
  guarded_direct,
}

-- Function 8 is the wrapper, function 9 the caller.
abbrev asked : DefId → Context
asked d = context (if d == 8 then wrapper else closed)

abbrev views : DefId → List BlockView
views d = if d == 8 then unchecked else guarded

crate_silent : run_checks asked views (precond_propagation ∷ []) [] (8 ∷ 9 ∷ []) ≡ []
unfolding run_checks note_preconds check_body check_bodies report dedup dedup_by drop_covered
    covered retain_findings extract_precond_summary note_blocks note_block note_call
    is_nonzero_precond is_ascii_precond is_index_precond ends_with_any ends_with has_text
    starts_with unguarded_param unguarded_index precond_propagation block_violations call_violations
    has_no_preconds violations_of bound_violations arg_is_nonzero arg_is_ascii arg_is_in_bounds
    index_passes is_passed index_is_safe param_index nth_arg_local first_arg_local operand_local
    local_is_nonzero local_is_ascii index_is_bounded_for local_is_bounded contains insert lookup put
    direct_call ascending insert_sorted ascending_pairs insert_pair deref_base erase
crate_silent = refl

no_violation :
    (g : Finding)
    → In g (run_checks asked views (precond_propagation ∷ []) [] (8 ∷ 9 ∷ []))
    → g.rule_id ≢ codes "precond_violation"
no_violation g m = elim (subst (λ fs. In g fs) crate_silent m) [ ]

wrapper_needs :
    NeedsOf is_nonzero_precond proven_nonzero path_of wrapper (calling 7 (copy (plain 1) ∷ [])) 0
unfolding direct_call is_nonzero_precond ends_with_any ends_with first_arg_local operand_local
    local_is_nonzero contains lookup
wrapper_needs = record {
  c = record { state = before; callee = 7; args = copy (plain 1) ∷ [] };
  called = refl;
  needed = refl;
  l = 1;
  given = refl;
  unproven = refl;
  param = record { named = refl; bounded = omega arith };
}

first_guarded : nth_arg_local guarded_args 0 ≡ some 2
unfolding nth_arg_local operand_local
first_guarded = refl

no_param : param_index closed 2 ≡ none
unfolding param_index
no_param = refl

run_checks_nonzero_example : five.value 2 ≢ 0
run_checks_nonzero_example =
    run_checks_nonzero asked views (precond_propagation ∷ []) [] (8 ∷ 9 ∷ []) (head refl)
      no_violation 9 (calling 8 guarded_args) guarded_call (tail (head refl)) (head refl)
      guarded_direct (head refl) (calling 7 (copy (plain 1) ∷ [])) 0 (head refl) wrapper_needs 2
      first_guarded no_param five ranges-RangesHold bounds-BoundsHold

-- Each function calls the next one.
abbrev chain : DefId → Body
chain d = record {
  arg_count = 0;
  ty = λ _. bool;
  basic_blocks =
      record {
        statements = [];
        terminator = some (
            call (constant (record { scalar = none; fn_def = some (d + 1) })) [] (plain 0) none
              no_cleanup);
      }
      ∷ [];
}

abbrev any_function : DefId → Bool
any_function d = true

-- Two calls away from the local function, and no further.
chain_run : to_summarize chain any_function (0 ∷ []) ≡ 0 ∷ 1 ∷ 2 ∷ []
unfolding to_summarize walk visit_fns visit_blocks visit_callee contains insert
chain_run = refl

to_summarize_lem_example :
    let ds = to_summarize chain any_function (0 ∷ []) in
    (length ds ≤ length {A = DefId} (0 ∷ []) + max_external_fns)
    × ((d : DefId) → In d (0 ∷ []) → In d ds)
    × ((d : DefId) → In d ds → IsWanted chain any_function (0 ∷ []) ds d)
    × (Unique {K = DefId} (0 ∷ []) → Unique ds)
to_summarize_lem_example = to_summarize_lem chain any_function (0 ∷ [])
