-- ===== src/Dataflow/Fixpoint.antt =====
-- When the worklist is empty, the entry states are a fixpoint (dataflow.rs).
use san.Base.{
  ℕ, zero, suc, List, [], ◌∷◌, true, Option, none, some, ◌≡◌, ◌⊎◌, inl, inr, refl, sym, ap, subst,
  ◌∙◌, In, head, tail, get_elem?, replicate, arith, Option-cases, nat_eq, nat_beq_iff,
}
use mathlib.Core.Option.{some-injective}
use san.Base.Sets.{contains, remove, contains-remove}
use san.Join.Laws.{JoinLaws}
use san.Dataflow.{
  Analysis, Work, done, visit, propagate, work_loop, start, run_fixpoint, state_at, cell_at,
}
use san.Dataflow.Propagate.{
  CellBelow, CellBelow-trans, QueuedIn, visit-Visited, Visited-queue, Visited-QueuedIn,
  Visited-stays, Visited-grows, Visited-covers,
}

-- To split on a list and keep the equation.
pub List-cases {ℓ} :
    {A : Type ℓ} (xs : List A) → (xs ≡ []) ⊎ ((x : A) × (rest : List A) × (xs ≡ x ∷ rest))
List-cases [] = inl refl
List-cases (x ∷ xs) = inr (x, xs, refl)

pub ℕ-cases : (n : ℕ) → (n ≡ 0) ⊎ ((m : ℕ) × (n ≡ suc m))
ℕ-cases zero = inl refl
ℕ-cases (suc n) = inr (n, refl)

singleton_contains : (b : ℕ) → contains (0 ∷ []) b ≡ true → 0 ≡ b
unfolding contains
singleton_contains b m = ground arith

pub state_at-replicate : {S : Type 0} (n b : ℕ) → state_at {S = S} (replicate n none) b ≡ none
state_at-replicate zero b = refl
state_at-replicate (suc n) zero = refl
state_at-replicate (suc n) (suc b) = state_at-replicate n b

started :
    {S : Type 0} (n : ℕ) (initial : S) (b : ℕ) (x : S)
    → state_at (some initial ∷ replicate n none) b ≡ some x
    → In b (0 ∷ [])
started n initial zero x m = head refl
started {S} n initial (suc b) x m = absurd (ground (arith, state_at-replicate {S = S} n b))

module _ {S : Type 0} (a : Analysis S) {Below : S → S → Type 0} (laws : JoinLaws a.join Below) where
  -- The state at the entry of `t` claims no more than what flows into it from `b` at `x`.
  abbrev pub Covered : List (Option S) → ℕ → S → ℕ → Type 0
  Covered states b x t = CellBelow a laws (some (a.refine b t (a.exit b x))) (state_at states t)

  -- The entry states are a fixpoint above `initial`.
  pub record IsFixpoint (initial : S) (states : List (Option S)) : Type 0 where
    pub seeded : CellBelow a laws (some initial) (state_at states 0)
    pub covered :
        (b : ℕ) (x : S)
        → state_at states b ≡ some x
        → (t : ℕ) → In t (a.successors b)
        → Covered states b x t

  -- Between two rounds: all but the queued blocks are covered. In the round of `bb`, at `s`, the
  -- successors in `rest` are still to be visited.
  record InRound (initial : S) (bb : ℕ) (s : S) (rest : List ℕ) (w : Work S) : Type 0 where
    queued : QueuedIn w
    seeded : CellBelow a laws (some initial) (state_at w.entry_states 0)
    covered :
        (b : ℕ) (x : S)
        → state_at w.entry_states b ≡ some x
        → In b w.queue
          ⊎ ((t : ℕ)
              → In t (a.successors b)
              → Covered w.entry_states b x t ⊎ (In t rest × (b ≡ bb) × (x ≡ s)))

  visit-InRound :
      (initial : S) (bb : ℕ) (s : S) (t : ℕ) (ts : List ℕ) (w : Work S) (cell : Option S)
      → get_elem? w.entry_states t ≡ some cell
      → InRound initial bb s (t ∷ ts) w
      → InRound initial bb s ts (visit a t (a.refine bb t (a.exit bb s)) cell w)
  visit-InRound initial bb s t ts w cell at h =
      let e = a.refine bb t (a.exit bb s) in
      let v = visit-Visited a w t e cell in
      let grows = Visited-grows a at laws v in
      record {
        queued = Visited-QueuedIn a v h.queued;
        seeded = CellBelow-trans a laws (some initial) _ _ h.seeded (grows 0);
        covered = λ b x m. elim (Visited-stays a at v h.queued b) [
          | inl q ↦ inl q
          | inr same ↦ elim (h.covered b x (sym same ∙ m)) [
            | inl q ↦ inl (Visited-queue a v b q)
            | inr f ↦ inr (λ u n. elim (f u n) [
              | inl c ↦
                  inl (CellBelow-trans a laws (some (a.refine b u (a.exit b x))) _ _ c (grows u))
              | inr (head q, eb, ex) ↦ inl (rw (q, eb, ex) (Visited-covers a at laws v))
              | inr (tail q, eb, ex) ↦ inr (q, eb, ex)
            ])
          ]
        ];
      }

  propagate-InRound :
      (initial : S) (bb : ℕ) (s : S) (ts : List ℕ) (w w' : Work S)
      → propagate a bb (a.exit bb s) ts w ≡ some w'
      → InRound initial bb s ts w
      → InRound initial bb s [] w'
  unfolding propagate
  propagate-InRound initial bb s [] w w' e h =
      subst (InRound initial bb s []) (some-injective _ _ e) h
  propagate-InRound initial bb s (t ∷ ts) w w' e h =
      elim (Option-cases (get_elem? w.entry_states t)) [
        | inl out ↦ absurd (ground arith)
        | inr (cell, at) ↦
            propagate-InRound initial bb s ts (visit a t (a.refine bb t (a.exit bb s)) cell w) w'
              (rw (at, propagate) at e) (visit-InRound initial bb s t ts w cell at h)
      ]

  abbrev popped : Work S → ℕ → List ℕ → Work S
  popped w bb rest = record w { queue = rest; queued = remove w.queued bb }

  popped-QueuedIn :
      (w : Work S) (bb : ℕ) (rest : List ℕ)
      → w.queue ≡ bb ∷ rest
      → QueuedIn w
      → QueuedIn (popped w bb rest)
  popped-QueuedIn w bb rest q h b m =
      elim (subst (In b) q (h b (ground (arith, contains-remove w.queued bb b)))) [
        | head p ↦ absurd (ground (arith, contains-remove w.queued bb b, nat_beq_iff b bb))
        | tail n ↦ n
      ]

  -- The round of a block begins with all of its successors to be visited.
  popped-InRound :
      (initial : S) (bb : ℕ) (rest : List ℕ) (s old : S) (other : ℕ) (w : Work S)
      → w.queue ≡ bb ∷ rest
      → state_at w.entry_states bb ≡ some s
      → InRound initial other old [] w
      → InRound initial bb s (a.successors bb) (popped w bb rest)
  popped-InRound initial bb rest s old other w q at h = record {
    queued = popped-QueuedIn w bb rest q h.queued;
    seeded = h.seeded;
    covered = λ b x m. elim (h.covered b x m) [
      | inl n ↦ elim (subst (In b) q n) [
        | head p ↦ inr (λ t k. inr (
          subst (λ z. In t (a.successors z)) p k,
          p,
          some-injective _ _ (sym m ∙ ap (state_at w.entry_states) p ∙ at),
        ))
        | tail k ↦ inl k
      ]
      | inr f ↦ inr (λ t k. elim (f t k) [ inl c ↦ inl c | inr (n, _, _) ↦ elim n [ ] ])
    ];
  }

  -- A queued block without a state is skipped.
  skipped-InRound :
      (initial : S) (bb : ℕ) (rest : List ℕ) (old : S) (other : ℕ) (w : Work S)
      → w.queue ≡ bb ∷ rest
      → state_at w.entry_states bb ≡ none
      → InRound initial other old [] w
      → InRound initial other old [] (popped w bb rest)
  skipped-InRound initial bb rest old other w q at h = record {
    queued = popped-QueuedIn w bb rest q h.queued;
    seeded = h.seeded;
    covered = λ b x m. elim (h.covered b x m) [
      | inl n ↦ elim (subst (In b) q n) [
        | head p ↦ absurd (ground (arith, ap (state_at w.entry_states) p))
        | tail k ↦ inl k
      ]
      | inr f ↦ inr f
    ];
  }

  finished :
      (initial : S) (old : S) (other : ℕ) (w : Work S)
      → w.queue ≡ []
      → InRound initial other old [] w
      → IsFixpoint initial w.entry_states
  finished initial old other w q h = record {
    seeded = h.seeded;
    covered = λ b x m t k. elim (h.covered b x m) [
      | inl n ↦ elim (subst (In b) q n) [ ]
      | inr f ↦ elim (f t k) [ inl c ↦ c | inr (n, _, _) ↦ elim n [ ] ]
    ];
  }

  done-injective : {xs ys : List (Option S)} → done xs ≡ done ys → xs ≡ ys
  done-injective h = ground arith

  loop-IsFixpoint :
      (initial : S) (fuel : ℕ) (w : Work S) (other : ℕ) (old : S) (states : List (Option S))
      → work_loop a fuel w ≡ done states
      → InRound initial other old [] w
      → IsFixpoint initial states
  unfolding work_loop
  loop-IsFixpoint initial zero w other old states e h = elim (List-cases w.queue) [
    | inl q ↦
        subst (IsFixpoint initial) (done-injective (rw (q, work_loop) at e))
          (finished initial old other w q h)
    | inr (bb, rest, q) ↦ absurd (ground arith)
  ]
  loop-IsFixpoint initial (suc fuel) w other old states e h = elim (List-cases w.queue) [
    | inl q ↦
        subst (IsFixpoint initial) (done-injective (rw (q, work_loop) at e))
          (finished initial old other w q h)
    | inr (bb, rest, q) ↦ elim (Option-cases (get_elem? w.entry_states bb)) [
      | inl out ↦ absurd (ground arith)
      | inr (none, at) ↦
          loop-IsFixpoint initial fuel (popped w bb rest) other old states
            (rw (q, at, work_loop) at e)
            (skipped-InRound initial bb rest old other w q (ap cell_at at) h)
      | inr (some s, at) ↦
          elim (Option-cases (propagate a bb (a.exit bb s) (a.successors bb) (popped w bb rest))) [
            | inl out ↦ absurd (ground arith)
            | inr (next, p) ↦
                loop-IsFixpoint initial fuel next bb s states (rw (q, at, p, work_loop) at e) (
                  propagate-InRound initial bb s (a.successors bb) (popped w bb rest) next p
                    (popped-InRound initial bb rest s old other w q (ap cell_at at) h))
          ]
    ]
  ]

  start-InRound :
      (n : ℕ) (initial : S) → a.num_blocks ≡ suc n → InRound initial 0 initial [] (start a initial)
  unfolding start
  start-InRound n initial e = rw e (record {
    queued = λ b m. subst (λ z. In z (0 ∷ [])) (singleton_contains b m) (head refl);
    seeded = laws.below_refl initial;
    covered = λ b x m. inl (started n initial b x m);
  })

-- One round of the loop, as equations.
module _ {S : Type 0} (a : Analysis S) (fuel : ℕ) (w : Work S) {bb : ℕ} {rest : List ℕ} where
  pub loop_skip :
      w.queue ≡ bb ∷ rest
      → get_elem? w.entry_states bb ≡ some none
      → work_loop a (suc fuel) w
        ≡ work_loop a fuel (record w { queue = rest; queued = remove w.queued bb })
  unfolding work_loop
  loop_skip q at = rw (q, at, work_loop)

  pub loop_step :
      w.queue ≡ bb ∷ rest
      → {s : S} → get_elem? w.entry_states bb ≡ some (some s)
      → {next : Work S}
      → propagate a bb
          (a.exit bb s)
          (a.successors bb)
          (record w { queue = rest; queued = remove w.queued bb })
        ≡ some next
      → work_loop a (suc fuel) w ≡ work_loop a fuel next
  unfolding work_loop
  loop_step q at p = rw (q, at, p, work_loop)

first_cell :
    {S : Type 0} {n m : ℕ} → n ≡ suc m → get_elem? (replicate {A = Option S} n none) 0 ≡ some none
first_cell e = rw e refl

pub run_fixpoint-start :
    {S : Type 0} (a : Analysis S) (fuel : ℕ) (initial : S) {n : ℕ}
    → a.num_blocks ≡ suc n
    → run_fixpoint a fuel initial ≡ work_loop a fuel (start a initial)
unfolding run_fixpoint
run_fixpoint-start {S} a fuel initial e = rw (first_cell {S = S} e, run_fixpoint)

-- A run that ends leaves a fixpoint above the initial state: at every edge of the body the entry
-- state of the target claims no more than what flows along the edge.
pub run_fixpoint-IsFixpoint :
    {S : Type 0} (a : Analysis S) {Below : S → S → Type 0} (laws : JoinLaws a.join Below) (fuel : ℕ)
    (initial : S) (states : List (Option S))
    → run_fixpoint a fuel initial ≡ done states
    → IsFixpoint a laws initial states
unfolding run_fixpoint
run_fixpoint-IsFixpoint {S} a laws fuel initial states h = elim (ℕ-cases a.num_blocks) [
  | inl e ↦ absurd (ground (arith, ap (λ n. get_elem? (replicate {A = Option S} n none) 0) e))
  | inr (n, e) ↦
      loop-IsFixpoint a laws initial fuel (start a initial) 0 initial states
        (rw (e, run_fixpoint) at h) (start-InRound a laws n initial e)
]
