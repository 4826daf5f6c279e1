-- ===== src/Run.antt =====
-- The passes over the bodies of a crate in `run_checks` (crates/san/src/lib.rs).
pub mod Findings
pub mod Callers
use san.Base.{List, [], ◌∷◌, ◌++◌, not, if◌then◌else◌, nat_eq}
use san.Base.Maps.{Map, put}
use san.State.Locals.{DefId}
use san.Report.{Finding, report}
use san.Flow.{BlockView, Context}
use san.Precond.{PrecondSummary, PrecondSummaryMap, has_no_preconds, extract_precond_summary}

-- `Checker::check`
abbrev pub Checker : Type 0
Checker = Context → PrecondSummaryMap → List BlockView → List Finding

-- What the checkers ask of a body, and its blocks with the states of `compute_flow`.
module _ (cx : DefId → Context) (flow : DefId → List BlockView) where
  abbrev pub preconds_of : DefId → PrecondSummary
  preconds_of d = extract_precond_summary (cx d).def_path_str (cx d).body (flow d)

  -- The pass for the preconditions.
  unfoldable pub note_preconds : List DefId → PrecondSummaryMap → PrecondSummaryMap
  unfolding extract_precond_summary has_no_preconds
  note_preconds [] m = m
  note_preconds (d ∷ ds) m =
      note_preconds ds
        (if not (has_no_preconds (preconds_of d)) then put m d (preconds_of d) else m)

  unfoldable pub check_body : List Checker → PrecondSummaryMap → DefId → List Finding
  check_body [] preconds d = []
  check_body (checker ∷ checkers) preconds d =
      checker (cx d) preconds (flow d) ++ check_body checkers preconds d

  unfoldable pub check_bodies : List Checker → PrecondSummaryMap → List DefId → List Finding
  unfolding check_body
  check_bodies checkers preconds [] = []
  check_bodies checkers preconds (d ∷ ds) =
      check_body checkers preconds d ++ check_bodies checkers preconds ds

  -- With the findings of the checks of the whole crate, which come first.
  unfoldable pub run_checks : List Checker → List Finding → List DefId → List Finding
  unfolding note_preconds check_bodies report
  run_checks checkers crate_findings local_fns =
      report (crate_findings ++ check_bodies checkers (note_preconds local_fns []) local_fns)
