-- ===== src/Transfer/Locations.antt =====
-- The states that checkers ask for agree with the fixpoint that the engine computes
-- (crates/san/src/analysis/dataflow.rs).
use san.Base.{
  ℕ, zero, suc, List, [], ◌∷◌, Option, none, some, ◌≡◌, refl, ap, ◌≤◌, ◌<◌, length, get_elem?, min,
  arith,
}
use san.State.Locals.{BasicBlock}
use san.State.{BlockState}
use san.Mir.{Body, Statement}
use san.Dataflow.{state_at}
use san.Transfer.Statement.{apply_statement, apply_statements}
use san.Transfer.Replay.{take, block_at, map_state, state_before_terminator, state_at_location}

-- One more statement.
apply_statements-take :
    (s : BlockState) (body : Body) (stmts : List Statement) (i : ℕ) (stmt : Statement)
    → get_elem? stmts i ≡ some stmt
    → apply_statements s body (take (suc i) stmts)
      ≡ apply_statement (apply_statements s body (take i stmts)) body stmt
unfolding apply_statements
apply_statements-take s body [] i stmt h = absurd (ground arith)
apply_statements-take s body (x ∷ stmts) zero stmt h =
    let e : x ≡ stmt = ground arith in ap (λ y. apply_statement s body y) e
apply_statements-take s body (x ∷ stmts) (suc i) stmt h =
    apply_statements-take (apply_statement s body x) body stmts i stmt h

take-length : {A : Type 0} (xs : List A) → take (length xs) xs ≡ xs
take-length [] = refl
take-length (x ∷ xs) = ap (λ r. x ∷ r) (take-length xs)

get_elem?-lt : {A : Type 0} (xs : List A) (i : ℕ) (x : A) → get_elem? xs i ≡ some x → i < length xs
get_elem?-lt [] i x h = absurd (ground arith)
get_elem?-lt (y ∷ xs) zero x h = omega arith
get_elem?-lt (y ∷ xs) (suc i) x h = omega (arith, get_elem?-lt xs i x h)

map_state-comp :
    (f g h : BlockState → BlockState) (o : Option BlockState)
    → ((s : BlockState) → f s ≡ g (h s))
    → map_state f o ≡ map_state g (map_state h o)
map_state-comp f g h none e = refl
map_state-comp f g h (some s) e = ap some (e s)

map_state-ext :
    (f g : BlockState → BlockState) (o : Option BlockState)
    → ((s : BlockState) → f s ≡ g s)
    → map_state f o ≡ map_state g o
map_state-ext f g none e = refl
map_state-ext f g (some s) e = ap some (e s)

module _ (states : List (Option BlockState)) (body : Body) (bb : BasicBlock) where
  -- The state after a statement, and the state at a location past the last one, is what replaying
  -- gives: each statement changes the state as it does in the analysis, and from the end of the
  -- block on it is the state before the terminator.
  pub state_at_location_lem :
      ((i : ℕ) (stmt : Statement)
        → get_elem? (block_at body bb).statements i ≡ some stmt
        → state_at_location states body bb (suc i)
          ≡ map_state (λ s. apply_statement s body stmt) (state_at_location states body bb i))
      × ((i : ℕ)
          → length (block_at body bb).statements ≤ i
          → state_at_location states body bb i ≡ state_before_terminator states body bb)
  unfolding state_at_location state_before_terminator
  state_at_location_lem = (
    λ i stmt h.
        let stmts = (block_at body bb).statements in
        let lt = get_elem?-lt stmts i stmt h in
        let e : min (suc i) (length stmts) ≡ suc i = ground arith in
        let f : min i (length stmts) ≡ i = ground arith in
        rw (e, f)
          (map_state-comp _ _ _ (state_at states bb)
            (λ s. apply_statements-take s body stmts i stmt h)),
    λ i le.
        let stmts = (block_at body bb).statements in
        let e : min i (length stmts) ≡ length stmts = ground arith in
        rw e (
          map_state-ext _ _ (state_at states bb)
            (λ s. ap (λ r. apply_statements s body r) (take-length stmts))),
  )
