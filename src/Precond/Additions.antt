-- ===== src/Precond/Additions.antt =====
-- The blocks of a body add to the sets of its summary one after the other
-- (crates/san/src/analysis/precond.rs).
use san.Base.{
  List, [], ◌∷◌, true, Option, none, some, ◌≡◌, ◌↔◌, ◌⊎◌, inl, inr, refl, ap, sym, ◌∙◌, Eq, ◌==◌,
  nat_eq, pair_eq, In, head, tail, arith, Bool-cases,
}
use san.Base.Sets.{contains, contains-insert}
use san.Base.Texts.{Text}
use san.State.Locals.{DefId}
use san.Mir.{Body}
use san.Edge.{insert_some}
use san.Flow.{BlockView}
use san.Precond.{PrecondSummary, no_preconds, DirectCall, direct_call, note_block, note_blocks}

-- Adding at most one element.
contains-insert_some :
    {A : Type 0} ⦃e : Eq A⦄ (xs : List A) (o : Option A) (x : A)
    → (contains (insert_some xs o) x ≡ true → (contains xs x ≡ true) ⊎ (o ≡ some x))
      × ((contains xs x ≡ true) ⊎ (o ≡ some x) → contains (insert_some xs o) x ≡ true)
contains-insert_some xs none x =
    (λ h. inl h, λ s. elim s [ inl h ↦ h | inr q ↦ absurd (ground arith) ])
contains-insert_some ⦃e⦄ xs (some y) x = (
  λ h. elim (Bool-cases (y == x)) [
    | inl same ↦ inr (ap some ((e.beq_iff y x).0 same))
    | inr other ↦ inl (ground (arith, contains-insert xs y x))
  ],
  λ s. elim s [
    | inl h ↦ ground (arith, contains-insert xs y x)
    | inr q ↦
        let same : y ≡ x = ground arith in
        let t = (e.beq_iff y x).1 same in ground (arith, contains-insert xs y x)
  ],
)

-- A set of the summary to which each block adds at most one element.
module _ {A : Type 0} ⦃e : Eq A⦄ (def_path_str : DefId → Text) (body : Body)
    (field : PrecondSummary → List A) (added : Option DirectCall → Option A)
    (step : (o : Option DirectCall) (p : PrecondSummary)
      → field (note_block def_path_str body o p) ≡ insert_some (field p) (added o)) where
  added_from :
      (bs : List BlockView) (p : PrecondSummary) (x : A)
      → contains (field (note_blocks def_path_str body bs p)) x ≡ true
      → (contains (field p) x ≡ true)
        ⊎ ((b : BlockView) × In b bs × (added (direct_call b) ≡ some x))
  unfolding note_blocks
  added_from [] p x h = inl h
  added_from (b ∷ bs) p x h =
      elim (added_from bs (note_block def_path_str body (direct_call b) p) x h) [
        | inr (c, m, q) ↦ inr (c, tail m, q)
        | inl k ↦
            elim ((contains-insert_some (field p) (added (direct_call b)) x).0
              (ap (λ s. contains s x) (sym (step (direct_call b) p)) ∙ k)) [
                | inl old ↦ inl old
                | inr new ↦ inr (b, head refl, new)
              ]
      ]

  stays_added :
      (bs : List BlockView) (p : PrecondSummary) (x : A)
      → (contains (field p) x ≡ true)
        ⊎ ((b : BlockView) × In b bs × (added (direct_call b) ≡ some x))
      → contains (field (note_blocks def_path_str body bs p)) x ≡ true
  unfolding note_blocks
  stays_added [] p x (inl h) = h
  stays_added [] p x (inr (b, m, q)) = elim m [ ]
  stays_added (b ∷ bs) p x s =
      let into : (contains (field p) x ≡ true) ⊎ (added (direct_call b) ≡ some x)
          → contains (field (note_block def_path_str body (direct_call b) p)) x ≡ true =
        λ k.
          ap (λ r. contains r x) (step (direct_call b) p)
          ∙ (contains-insert_some (field p) (added (direct_call b)) x).1 k in
      stays_added bs (note_block def_path_str body (direct_call b) p) x (elim s [
        | inl h ↦ inl (into (inl h))
        | inr (c, m, q) ↦ elim m [
          | head r ↦ inl (into (inr (ap (λ y. added (direct_call y)) (sym r) ∙ q)))
          | tail n ↦ inr (c, n, q)
        ]
      ])

  -- An element is in the set exactly if some block adds it.
  pub added_iff :
      (bs : List BlockView) (x : A)
      → field no_preconds ≡ []
      → (contains (field (note_blocks def_path_str body bs no_preconds)) x ≡ true)
        ↔ ((b : BlockView) × In b bs × (added (direct_call b) ≡ some x))
  unfolding contains
  added_iff bs x e = (
    λ h. elim (added_from bs no_preconds x h) [
      | inl k ↦
          let n : contains [] x ≡ true = ap (λ r. contains r x) (sym e) ∙ k in absurd (ground arith)
      | inr c ↦ c
    ],
    λ c. stays_added bs no_preconds x (inr c),
  )
