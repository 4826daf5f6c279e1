-- ===== src/Transfer/Replay.antt =====
-- The analysis of a body: the engine with the effects of its blocks, and the replay of statements
-- to a location (crates/san/src/analysis/dataflow.rs).
use san.Base.{
  ℕ, List, [], ◌∷◌, Bool, true, false, Option, none, some, length, get_elem?, min, zero, suc,
  if◌then◌else◌,
}
use san.State.Locals.{BasicBlock}
use san.State.{BlockState, join_with}
use san.Mir.{Body, BasicBlockData, TerminatorKind}
use san.Edge.{refine_switchint_edge}
use san.Facts.{seed_param_type_facts}
use san.State.Tracking.{TrackingDomain}
use san.State.Ranges.{RangesDomain}
use san.Summary.{summary_initial_state, empty_tracking, FnSummary, extract_summary}
use san.Dataflow.{Analysis, Outcome, done, run_fixpoint, state_at}
use san.Dataflow.Successors.{block_successors}
use san.Transfer.Statement.{apply_statements}
use san.Transfer.Terminator.{apply_terminator}
use san.Transfer.Calls.{TyCtxt, SummaryMap}

abbrev pub take : {A : Type 0} → ℕ → List A → List A
take zero xs = []
take (suc n) [] = []
take (suc n) (x ∷ xs) = x ∷ take n xs

abbrev pub no_block : BasicBlockData
no_block = record { statements = []; terminator = none }

-- `body.basic_blocks[bb]`
abbrev pub block_at : Body → BasicBlock → BasicBlockData
block_at body bb = elim (get_elem? body.basic_blocks bb) [ none ↦ no_block | some b ↦ b ]

-- `BlockState::default()`, with these facts on ranges and this tracking.
abbrev pub initial_state : TrackingDomain → RangesDomain → BlockState
initial_state tracking ranges = record {
  tracking_domain = tracking;
  inits_domain = record {
    init = [];
    buf_written = [];
    mu_raw_ptr = [];
    mu_field_inits = [];
    active_variant = [];
  };
  bounds_domain = record {
    lt_facts = [];
    ge_facts = [];
    le_facts = [];
    gt_facts = [];
    bounded = [];
    bounded_or_eq = [];
    array_components = [];
    lt_for = [];
    le_for = [];
    index_bounded_for = [];
    index_bounded_or_eq_for = [];
  };
  capacity_domain = record {
    ref_base = [];
    len_of = [];
    cap_of = [];
    spare_if_true = [];
    spare_if_false = [];
    has_spare = [];
    full_if_true = [];
    full_if_false = [];
    is_full = [];
  };
  ranges_domain = ranges;
  pairs_domain = record {
    eq_locals = [];
    cast_origin = [];
    ne_pair_if_true = [];
    eq_pair_if_true = [];
    keys_are_ne = [];
  };
  taints_domain = record {
    fd_origin = [];
    fd_consumed = [];
    thread_spawned = false;
    const_ptr_cast = [];
    mul_overflow = [];
    layout_overflow = [];
  };
}

abbrev pub empty_ranges : RangesDomain
empty_ranges = record {
  nonzero = [];
  nonzero_if_true = [];
  nonzero_if_false = [];
  finite = [];
  finite_if_true = [];
  nan_if_true = [];
  const_upper = [];
  const_lower = [];
  const_lt = [];
  const_le = [];
  const_gt = [];
  const_ge = [];
}

abbrev pub apply_some_terminator :
    TyCtxt → SummaryMap → BlockState → Body → BasicBlock → Option TerminatorKind → BlockState
apply_some_terminator tcx summaries s body bb none = s
apply_some_terminator tcx summaries s body bb (some term) =
    apply_terminator tcx summaries s body bb term

abbrev pub refine_some_edge : BlockState → Option TerminatorKind → BasicBlock → BlockState
refine_some_edge s none succ = s
refine_some_edge s (some term) succ = refine_switchint_edge s term succ

-- What `run_fixpoint` computes with: the exit state of a block, its successors, and the edges.
unfoldable pub body_analysis : TyCtxt → SummaryMap → Body → Analysis BlockState
unfolding apply_statements apply_terminator block_successors refine_switchint_edge join_with
body_analysis tcx summaries body = record {
  num_blocks = length body.basic_blocks;
  join = join_with;
  exit = λ bb s.
      apply_some_terminator tcx summaries (apply_statements s body (block_at body bb).statements)
        body bb (block_at body bb).terminator;
  refine = λ bb succ s. refine_some_edge s (block_at body bb).terminator succ;
  successors = λ bb. block_successors (block_at body bb).terminator;
}

-- With fuel for the rounds of the engine.
unfoldable pub compute_flow : TyCtxt → SummaryMap → Body → ℕ → Outcome BlockState
unfolding body_analysis run_fixpoint seed_param_type_facts
compute_flow tcx summaries body fuel =
    run_fixpoint (body_analysis tcx summaries body) fuel
      (initial_state empty_tracking (seed_param_type_facts empty_ranges body))

unfoldable pub compute_flow_for_summary : TyCtxt → SummaryMap → Body → ℕ → Outcome BlockState
unfolding body_analysis run_fixpoint summary_initial_state
compute_flow_for_summary tcx summaries body fuel =
    run_fixpoint (body_analysis tcx summaries body) fuel
      (initial_state (summary_initial_state body) empty_ranges)

abbrev pub map_state : (BlockState → BlockState) → Option BlockState → Option BlockState
map_state f none = none
map_state f (some s) = some (f s)

-- `states` are the entry states of a body.
module _ (states : List (Option BlockState)) (body : Body) where
  unfoldable pub state_before_terminator : BasicBlock → Option BlockState
  unfolding apply_statements
  state_before_terminator bb =
      map_state (λ s. apply_statements s body (block_at body bb).statements) (state_at states bb)

  -- At the statement with this index, or at the terminator if there are no more statements.
  unfoldable pub state_at_location : BasicBlock → ℕ → Option BlockState
  unfolding apply_statements
  state_at_location bb statement_index =
      let stmts = (block_at body bb).statements in
      let upto = min statement_index (length stmts) in
      map_state (λ s. apply_statements s body (take upto stmts)) (state_at states bb)

abbrev pub is_return : Option TerminatorKind → Bool
is_return (some TerminatorKind.return) = true
is_return _ = false

-- The states at the `Return` terminators, from block `bb` on, in the order of the blocks.
unfoldable pub return_states :
    List (Option BlockState) → Body → BasicBlock → List BasicBlockData → List (Option BlockState)
unfolding state_before_terminator
return_states states body bb [] = []
return_states states body bb (block ∷ blocks) =
    let rest = return_states states body (suc bb) blocks in
    if is_return block.terminator then state_before_terminator states body bb ∷ rest else rest

abbrev pub summary_from : Body → Outcome BlockState → Option FnSummary
summary_from body (done states) =
    some (extract_summary body (return_states states body 0 body.basic_blocks))
summary_from body _ = none

-- The summary of a body against the summaries of the functions that it calls, if the engine ends.
unfoldable pub summarize : TyCtxt → SummaryMap → Body → ℕ → Option FnSummary
unfolding compute_flow_for_summary return_states extract_summary
summarize tcx summaries body fuel =
    summary_from body (compute_flow_for_summary tcx summaries body fuel)
