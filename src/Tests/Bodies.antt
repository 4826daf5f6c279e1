-- ===== src/Tests/Bodies.antt =====
-- The analysis of a small body, and the states that checkers ask for.
use san.Base.{ℕ, suc, List, [], ◌∷◌, Option, none, some, ◌≡◌, nat_eq, ◌≤◌, length, get_elem?}
use san.State.{BlockState}
use san.Mir.{
  copy, constant, Constant, uint, u8, Body, Statement, use_of, assign, goto, TerminatorKind,
}
use san.Summary.{empty_tracking}
use san.Transfer.Replay.{initial_state, empty_ranges}
use san.Facts.{seed_param_type_facts}
use san.Dataflow.{Outcome, done}
use san.Transfer.Statement.{apply_statement}
use san.Transfer.Sound.Ranges.{plain}
use san.Transfer.Replay.{
  block_at, map_state, state_before_terminator, state_at_location, compute_flow,
}
use san.Transfer.Locations.{state_at_location_lem}
use san.Tests.Transfers.{boxes}

abbrev one : Constant
one = record { scalar = some 1; fn_def = none }

abbrev store : Statement
store = assign (plain 1) (use_of (constant one))

abbrev share : Statement
share = assign (plain 2) (use_of (copy (plain 1)))

-- `_1 = 1; _2 = _1; goto 1` and `return`
abbrev small : Body
small = record {
  arg_count = 0;
  ty = λ _. uint u8;
  basic_blocks =
      (record { statements = store ∷ share ∷ []; terminator = some (goto 1) })
      ∷ (record { statements = []; terminator = some TerminatorKind.return })
      ∷ [];
}

abbrev states_of : Outcome BlockState → List (Option BlockState)
states_of (done states) = states
states_of _ = []

abbrev small_states : List (Option BlockState)
small_states = states_of (compute_flow boxes [] small 5)

state_at_location_lem_example :
    ((i : ℕ) (stmt : Statement)
      → get_elem? (block_at small 0).statements i ≡ some stmt
      → state_at_location small_states small 0 (suc i)
        ≡ map_state (λ s. apply_statement s small stmt) (state_at_location small_states small 0 i))
    × ((i : ℕ)
        → length (block_at small 0).statements ≤ i
        → state_at_location small_states small 0 i ≡ state_before_terminator small_states small 0)
state_at_location_lem_example = state_at_location_lem small_states small 0

abbrev state_or : Option BlockState → BlockState → BlockState
state_or none s = s
state_or (some t) s = t

abbrev before_goto : BlockState
before_goto =
    state_or (state_before_terminator small_states small 0)
      (initial_state empty_tracking (seed_param_type_facts empty_ranges small))
