-- ===== src/Dataflow.antt =====
-- The worklist engine (crates/san/src/analysis/dataflow.rs), over any states with a join.
pub mod Successors
pub mod Propagate
pub mod Fixpoint
pub mod Terminates
pub mod Sound
use san.Base.{
  ℕ, zero, suc, List, [], ◌∷◌, ◌++◌, Bool, true, false, ◌&&◌, not, Option, none, some,
  if◌then◌else◌, get_elem?, set, replicate, nat_eq,
}
use san.Base.Sets.{contains, insert, remove}

-- What `run_fixpoint` works on: the blocks of a body, the effect of a block, and that of an edge.
pub record Analysis (S : Type 0) : Type 0 where
  pub num_blocks : ℕ
  -- `join_with`
  pub join : S → S → S × Bool
  -- the statements and the terminator of a block
  pub exit : ℕ → S → S
  -- `refine_switchint_edge`, from a block to a successor
  pub refine : ℕ → ℕ → S → S
  -- `block_successors`
  pub successors : ℕ → List ℕ

-- `worklist` and `in_worklist` are `queue` and `queued`.
pub record Work (S : Type 0) : Type 0 where
  pub entry_states : List (Option S)
  pub queue : List ℕ
  pub queued : List ℕ

pub data Outcome (S : Type 0) : Type 0 where
  done : List (Option S) → Outcome S
  -- an index out of bounds
  panic : Outcome S
  out_of_fuel : Outcome S

module _ {S : Type 0} (a : Analysis S) where
  -- The new entry state of a successor, and whether it changed.
  unfoldable pub merge_state : Option S → S → Option S × Bool
  merge_state none e = (some e, true)
  merge_state (some x) e =
      let (merged, changed) = a.join x e in if changed then (some merged, true) else (some x, false)

  -- One successor, whose entry state is `cell`.
  unfoldable pub visit : ℕ → S → Option S → Work S → Work S
  unfolding merge_state
  visit t e cell w =
      let (state, changed) = merge_state cell e in
      let entry_states = if changed then set w.entry_states t state else w.entry_states in
      if changed && not (contains w.queued t)
      then record {
        entry_states = entry_states;
        queue = w.queue ++ t ∷ [];
        queued = insert w.queued t;
      }
      else record w { entry_states = entry_states }

  -- The loop over the successors of `bb`, whose exit state is `state`.
  unfoldable pub propagate : ℕ → S → List ℕ → Work S → Option (Work S)
  unfolding visit
  propagate bb state [] w = some w
  propagate bb state (t ∷ ts) w = elim (get_elem? w.entry_states t) [
    | none ↦ none
    | some cell ↦ propagate bb state ts (visit t (a.refine bb t state) cell w)
  ]

  -- The worklist loop, with fuel for its rounds.
  unfoldable pub work_loop : ℕ → Work S → Outcome S
  unfolding propagate
  work_loop zero w = elim w.queue [ [] ↦ done w.entry_states | _ ∷ _ ↦ out_of_fuel ]
  work_loop (suc fuel) w = elim w.queue [
    | [] ↦ done w.entry_states
    | bb ∷ rest ↦ elim (get_elem? w.entry_states bb) [
      | none ↦ panic
      | some cell ↦
          let popped = record w { queue = rest; queued = remove w.queued bb } in
          elim cell [
            | none ↦ work_loop fuel popped
            | some s ↦ elim (propagate bb (a.exit bb s) (a.successors bb) popped) [
              | none ↦ panic
              | some next ↦ work_loop fuel next
            ]
          ]
    ]
  ]

  -- The entry block alone is queued at first.
  unfoldable pub start : S → Work S
  start initial = record {
    entry_states = set (replicate a.num_blocks none) 0 (some initial);
    queue = 0 ∷ [];
    queued = 0 ∷ [];
  }

  unfoldable pub run_fixpoint : ℕ → S → Outcome S
  unfolding work_loop start
  run_fixpoint fuel initial = elim (get_elem? (replicate {A = Option S} a.num_blocks none) 0) [
    | none ↦ panic
    | some _ ↦ work_loop fuel (start initial)
  ]

abbrev pub cell_at : {S : Type 0} → Option (Option S) → Option S
cell_at none = none
cell_at (some cell) = cell

-- `FlowResults::state_at`
abbrev pub state_at : {S : Type 0} → List (Option S) → ℕ → Option S
state_at states b = cell_at (get_elem? states b)
