-- ===== src/Dataflow/Sound.antt =====
-- What a fixpoint says of the executions of the body (dataflow.rs).
use san.Base.{ℕ, List, Option, none, some, ◌≡◌, refl, In}
use san.Join.Laws.{JoinLaws}
use san.Dataflow.{Analysis, done, run_fixpoint, state_at}
use san.Dataflow.Propagate.{CellBelow}
use san.Dataflow.Fixpoint.{IsFixpoint, run_fixpoint-IsFixpoint}

-- The paths of the control-flow graph from the entry block.
pub data Reaches {S : Type 0} (a : Analysis S) : ℕ → Type 0 where
  entry : Reaches a 0
  edge : {b t : ℕ} → Reaches a b → In t (a.successors b) → Reaches a t

-- A semantics of the blocks: what holds of a memory by a state, and how an execution moves from
-- the entry of a block to the entry of a successor.
pub record Semantics {S : Type 0} (a : Analysis S) (Below : S → S → Type 0) (Memory : Type 0)
    : Type 1 where
  pub Holds : S → Memory → Type 0
  pub Moves : ℕ → Memory → ℕ → Memory → Type 0
  pub weaken : (s t : S) (m : Memory) → Below s t → Holds s m → Holds t m
  pub along :
      (b : ℕ) (m : Memory) (t : ℕ) (n : Memory) (s : S)
      → Moves b m t n
      → Holds s m
      → In t (a.successors b) × Holds (a.refine b t (a.exit b s)) n

pub data Runs {Memory : Type 0} (Moves : ℕ → Memory → ℕ → Memory → Type 0) (m : Memory)
    : ℕ → Memory → Type 0 where
  here : Runs Moves m 0 m
  next : {b t : ℕ} {n k : Memory} → Runs Moves m b n → Moves b n t k → Runs Moves m t k

module _ {S : Type 0} (a : Analysis S) {Below : S → S → Type 0} (laws : JoinLaws a.join Below) where
  CellBelow-some :
      (x : S) (cell : Option S)
      → CellBelow a laws (some x) cell
      → (y : S) × (cell ≡ some y) × Below x y
  CellBelow-some x none h = absurd h
  CellBelow-some x (some y) h = (y, refl, h)

  -- Every block that a path of the graph leads to has a state: `None` means unreachable.
  reached :
      (initial : S) (states : List (Option S))
      → IsFixpoint a laws initial states
      → {b : ℕ} → Reaches a b
      → (s : S) × (state_at states b ≡ some s)
  reached initial states h entry =
      let (y, e, _) = CellBelow-some initial (state_at states 0) h.seeded in (y, e)
  reached initial states h (edge {b} {t} r m) =
      let (s, e) = reached initial states h r in
      let (y, e', _) = CellBelow-some _ (state_at states t) (h.covered b s e t m) in (y, e')

-- After a run that ends, a block with no entry state is one that no path of the control-flow graph
-- leads to.
pub run_fixpoint_reached :
    {S : Type 0} (a : Analysis S) {Below : S → S → Type 0} (laws : JoinLaws a.join Below) (fuel : ℕ)
    (initial : S) (states : List (Option S))
    → run_fixpoint a fuel initial ≡ done states
    → {b : ℕ} → Reaches a b
    → (s : S) × (state_at states b ≡ some s)
run_fixpoint_reached a laws fuel initial states h =
    reached a laws initial states (run_fixpoint-IsFixpoint a laws fuel initial states h)
