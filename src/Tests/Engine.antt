-- ===== src/Tests/Engine.antt =====
-- The worklist engine on a body with a loop: 0 branches to 1 and 2, 1 jumps back to 0. Block 1
-- spawns a thread, and the state is the flag `thread_spawned`.
use san.Base.{
  ℕ, List, [], ◌∷◌, Bool, true, false, ◌||◌, ◌==◌, nat_eq, Option, some, ◌≡◌, refl, In, head, tail,
  get_elem?, arith,
}
use san.Base.Sets.{contains, insert, remove, retain}
use san.Join.{join_flag}
use san.Join.Meet.{FlagBelow, join_flag-JoinLaws}
use san.Mir.{copy, TerminatorKind, goto, switch_int, return}
use san.Dataflow.{
  Analysis, done, run_fixpoint, state_at, work_loop, propagate, visit, merge_state, start,
}
use san.Dataflow.Successors.{block_successors, terminator_successors}
use san.Dataflow.Fixpoint.{IsFixpoint, run_fixpoint-IsFixpoint}
use san.Dataflow.Sound.{Reaches, entry, edge, Semantics, run_fixpoint_reached}

abbrev terminators : List TerminatorKind
terminators =
    switch_int (copy (record { local = 1; projection = [] }))
      (record { values = (0, 1) ∷ []; otherwise = 2 })
    ∷ goto 0
    ∷ return
    ∷ []

abbrev looping : Analysis Bool
looping = record {
  num_blocks = 3;
  join = join_flag;
  exit = λ b s. b == 1 || s;
  refine = λ b t s. s;
  successors = λ b. block_successors (get_elem? terminators b);
}

abbrev all_spawned : List (Option Bool)
all_spawned = some true ∷ some true ∷ some true ∷ []

looping_run : run_fixpoint looping 7 false ≡ done all_spawned
unfolding run_fixpoint work_loop propagate visit merge_state start block_successors
    terminator_successors contains insert remove retain join_flag
looping_run = refl

run_fixpoint-IsFixpoint_example : IsFixpoint looping join_flag-JoinLaws false all_spawned
run_fixpoint-IsFixpoint_example =
    run_fixpoint-IsFixpoint looping join_flag-JoinLaws 7 false all_spawned looping_run

to_two : Reaches looping 2
unfolding block_successors terminator_successors
to_two = edge (edge (edge entry (head refl)) (head refl)) (tail (head refl))

run_fixpoint_reached_example : (s : Bool) × (state_at all_spawned 2 ≡ some s)
run_fixpoint_reached_example =
    run_fixpoint_reached looping join_flag-JoinLaws 7 false all_spawned looping_run to_two

spawned : (c m n s : Bool) → n ≡ (c || m) → FlagBelow m s → FlagBelow n (c || s)
spawned c m n s e h k = ground arith

-- The memory is whether a thread was spawned.
abbrev spawning : Semantics looping FlagBelow Bool
spawning = record {
  Holds = λ s m. FlagBelow m s;
  Moves = λ b m t n. (n ≡ (b == 1 || m)) × In t (looping.successors b);
  weaken = λ s t m le h k. le (h k);
  along = λ b m t n s mv h. (mv.1, spawned (b == 1) m n s mv.0 h);
}

abbrev flag_height : Bool → ℕ
flag_height true = 0
flag_height false = 1
