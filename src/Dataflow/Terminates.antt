-- ===== src/Dataflow/Terminates.antt =====
-- The worklist loop ends: every push is paid for by a state that falls (dataflow.rs).
use san.Base.{
  ℕ, zero, suc, List, [], ◌∷◌, Option, none, some, ◌≡◌, In, get_elem?, set, replicate, length,
  arith, ◌+◌, ◌*◌, ◌≤◌, ◌<◌, nat_eq,
}
use san.Base.Sets.{remove}
use san.Join.Laws.{Descends}
use san.Dataflow.{Analysis, Work, state_at}

module _ {S : Type 0} (cost : Option S → ℕ) where
  abbrev pub total : List (Option S) → ℕ
  total [] = 0
  total (x ∷ xs) = cost x + total xs

  pub total-set :
      (xs : List (Option S)) (i : ℕ) (v : Option S) {x : Option S}
      → get_elem? xs i ≡ some x
      → total (set xs i v) + cost x ≡ total xs + cost v
  total-set [] i v h = absurd (ground arith)
  total-set (y ∷ xs) zero v h = ground arith
  total-set (y ∷ xs) (suc i) v h = omega (arith, total-set xs i v h)

  pub total-replicate : (n : ℕ) → total (replicate n none) ≡ n * cost none
  total-replicate zero = omega arith
  total-replicate (suc n) = grind (arith, total-replicate n)

-- States of bounded height, kept by the effects of blocks and edges that lead to blocks.
pub record IsBounded {S : Type 0} (a : Analysis S) (Fits : S → Type 0) (height : S → ℕ) (top : ℕ)
    : Type 0 where
  pub descends : Descends a.join Fits height
  pub height_le : (s : S) → Fits s → height s ≤ top
  pub exit_fits : (b : ℕ) (s : S) → Fits s → Fits (a.exit b s)
  pub refine_fits : (b t : ℕ) (s : S) → Fits s → Fits (a.refine b t s)
  pub successor_lt : (b t : ℕ) → In t (a.successors b) → t < a.num_blocks

module _ {S : Type 0} (a : Analysis S) {Fits : S → Type 0} {height : S → ℕ} {top : ℕ}
    (bound : IsBounded a Fits height top) where
  -- A block that has no state yet stands above all states.
  abbrev cost : Option S → ℕ
  cost none = suc top
  cost (some x) = height x

  abbrev CellFits : Option S → Type 0
  CellFits none = Unit
  CellFits (some x) = Fits x

  potential : Work S → ℕ
  potential w = length w.queue + total cost w.entry_states

  -- No index is out of bounds, and all states fit.
  record IsSafe (w : Work S) : Type 0 where
    size : length w.entry_states ≡ a.num_blocks
    queue_lt : (b : ℕ) → In b w.queue → b < a.num_blocks
    fits : (b : ℕ) → CellFits (state_at w.entry_states b)

  abbrev after_pop : Work S → ℕ → List ℕ → Work S
  after_pop w bb rest = record w { queue = rest; queued = remove w.queued bb }
