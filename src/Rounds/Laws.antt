-- ===== src/Rounds/Laws.antt =====
-- What the rounds of summaries promise (crates/san/src/lib.rs).
use san.Base.{
  ℕ, zero, suc, List, [], ◌∷◌, Bool, true, false, not, Option, none, some, if◌then◌else◌, ◌==◌,
  nat_eq, nat_beq_iff, ◌≡◌, ◌≢◌, ◌∙◌, inl, inr, refl, sym, ap, subst, In, head, tail, arith,
  Bool-cases,
}
use mathlib.Core.Option.{some-injective}
use san.Base.Maps.{lookup, lookup-put, lookup-erase, map_ne, map_ne-eq-false}
use san.Base.Texts.{Text}
use san.State.Locals.{DefId}
use san.Summary.{FnSummary}
use san.Rounds.{
  SummaryMap, trust_external, has_any_effect, summarise, update, summary_round, summary_rounds,
  converge, summary_eq,
}

none-some : {A : Type 0} {a : A} → none ≢ some a
none-some h = absurd (ground arith)

module _ (is_local : DefId → Bool) (def_path_str : DefId → Text)
    (analyse : SummaryMap → DefId → FnSummary) where
  -- An external function is not trusted to free or to allocate.
  abbrev Harmless : SummaryMap → Type 0
  Harmless m =
      (d : DefId) (s : FnSummary)
      → is_local d ≡ false
      → lookup m d ≡ some s
      → (s.param_effects ≡ []) × (s.returns_raw_owned ≡ false)

  -- The entry of a function after a round.
  abbrev pub entry_of : FnSummary → Option FnSummary
  entry_of s = if has_any_effect s then some s else none

  lookup-update :
      (snap m : SummaryMap) (d k : DefId)
      → lookup (update is_local def_path_str analyse snap d m) k
        ≡ (if d == k then entry_of (summarise is_local def_path_str analyse snap d) else lookup m k)
  unfolding update
  lookup-update snap m d k =
      elim (Bool-cases (has_any_effect (summarise is_local def_path_str analyse snap d))) [
        | inl y ↦ rw y (lookup-put m d (summarise is_local def_path_str analyse snap d) k)
        | inr n ↦ rw n (lookup-erase m d k)
      ]

  trusted :
      (path : Text) (s : FnSummary)
      → ((trust_external path s).param_effects ≡ [])
        × ((trust_external path s).returns_raw_owned ≡ false)
  unfolding trust_external
  trusted path s = (refl, refl)

  summarise_external :
      (snap : SummaryMap) (d : DefId)
      → is_local d ≡ false
      → ((summarise is_local def_path_str analyse snap d).param_effects ≡ [])
        × ((summarise is_local def_path_str analyse snap d).returns_raw_owned ≡ false)
  unfolding summarise
  summarise_external snap d ext = rw ext (trusted (def_path_str d) (analyse snap d))

  entry_of_lem : (s t : FnSummary) → entry_of s ≡ some t → s ≡ t
  entry_of_lem s t e = elim (Bool-cases (has_any_effect s)) [
    | inl y ↦ some-injective _ _ (rw y at e)
    | inr n ↦ absurd (none-some (rw n at e))
  ]

  Harmless-update :
      (snap m : SummaryMap) (d : DefId)
      → Harmless m
      → Harmless (update is_local def_path_str analyse snap d m)
  Harmless-update snap m d h k s ext e = elim (Bool-cases (d == k)) [
    | inl same ↦
        let entry = sym (lookup-update snap m d k) ∙ e in
        let q : summarise is_local def_path_str analyse snap d ≡ s =
          entry_of_lem (summarise is_local def_path_str analyse snap d) s (rw same at entry) in
        let ext' : is_local d ≡ false = ap is_local ((nat_beq_iff d k).0 same) ∙ ext in
        let (none_freed, none_made) = summarise_external snap d ext' in
        (
          subst (λ t. t.param_effects ≡ []) q none_freed,
          subst (λ t. t.returns_raw_owned ≡ false) q none_made,
        )
    | inr other ↦ let entry = sym (lookup-update snap m d k) ∙ e in h k s ext (rw other at entry)
  ]

  Harmless-summary_round :
      (snap : SummaryMap) (ds : List DefId) (m : SummaryMap)
      → Harmless m
      → Harmless (summary_round is_local def_path_str analyse snap ds m)
  unfolding summary_round
  Harmless-summary_round snap [] m h = h
  Harmless-summary_round snap (d ∷ ds) m h =
      Harmless-summary_round snap ds (update is_local def_path_str analyse snap d m)
        (Harmless-update snap m d h)

  Harmless-summary_rounds :
      (n : ℕ) (ds : List DefId) (m : SummaryMap)
      → Harmless m
      → Harmless (summary_rounds is_local def_path_str analyse n ds m).0
  unfolding summary_rounds
  Harmless-summary_rounds zero ds m h = h
  Harmless-summary_rounds (suc n) ds m h =
      let next = summary_round is_local def_path_str analyse m ds m in
      let good = Harmless-summary_round m ds m h in
      elim (Bool-cases (not (map_ne next m))) [
        | inl stable ↦ rw stable good
        | inr changed ↦ rw changed (Harmless-summary_rounds n ds next good)
      ]

  Harmless-nil : Harmless []
  unfolding lookup
  Harmless-nil d s ext e = absurd (none-some e)

  -- The summary of an external function never says that it frees a parameter or returns a fresh
  -- allocation.
  pub converge_external :
      (ds : List DefId) (d : DefId) (s : FnSummary)
      → is_local d ≡ false
      → lookup (converge is_local def_path_str analyse ds).0 d ≡ some s
      → (s.param_effects ≡ []) × (s.returns_raw_owned ≡ false)
  unfolding converge
  converge_external ds = Harmless-summary_rounds 8 ds [] Harmless-nil

  settled_stays :
      (snap : SummaryMap) (k : DefId) (ds : List DefId) (m : SummaryMap)
      → lookup m k ≡ entry_of (summarise is_local def_path_str analyse snap k)
      → lookup (summary_round is_local def_path_str analyse snap ds m) k
        ≡ entry_of (summarise is_local def_path_str analyse snap k)
  unfolding summary_round
  settled_stays snap k [] m h = h
  settled_stays snap k (d ∷ ds) m h =
      settled_stays snap k ds (update is_local def_path_str analyse snap d m)
        (elim (Bool-cases (d == k)) [
          | inl same ↦
              lookup-update snap m d k
              ∙ rw same (
                  ap (λ j. entry_of (summarise is_local def_path_str analyse snap j))
                    ((nat_beq_iff d k).0 same))
          | inr other ↦ lookup-update snap m d k ∙ rw other h
        ])

  lookup-summary_round :
      (snap : SummaryMap) (k : DefId) (ds : List DefId) (m : SummaryMap)
      → In k ds
      → lookup (summary_round is_local def_path_str analyse snap ds m) k
        ≡ entry_of (summarise is_local def_path_str analyse snap k)
  unfolding summary_round
  lookup-summary_round snap k [] m i = elim i [ ]
  lookup-summary_round snap k (d ∷ ds) m (head q) =
      settled_stays snap k ds (update is_local def_path_str analyse snap d m) (
        lookup-update snap m d k
        ∙ rw ((nat_beq_iff d k).1 (sym q))
            (ap (λ j. entry_of (summarise is_local def_path_str analyse snap j)) (sym q)))
  lookup-summary_round snap k (d ∷ ds) m (tail i) =
      lookup-summary_round snap k ds (update is_local def_path_str analyse snap d m) i

  -- The summaries `m` are those that the functions have against summaries with the same entries.
  pub record IsStable (ds : List DefId) (m : SummaryMap) : Type 0 where
    pub snap : SummaryMap
    pub same : (k : DefId) → lookup m k ≡ lookup snap k
    pub entries :
        (k : DefId)
        → In k ds
        → lookup m k ≡ entry_of (summarise is_local def_path_str analyse snap k)

  stable :
      (n : ℕ) (ds : List DefId) (m : SummaryMap)
      → (summary_rounds is_local def_path_str analyse n ds m).1 ≡ true
      → IsStable ds (summary_rounds is_local def_path_str analyse n ds m).0
  unfolding summary_rounds
  stable zero ds m h = absurd (ground arith)
  stable (suc n) ds m h =
      let next = summary_round is_local def_path_str analyse m ds m in
      elim (Bool-cases (not (map_ne next m))) [
        | inl quiet ↦ rw quiet (record {
          snap = m;
          same = map_ne-eq-false next m (ground arith);
          entries = λ k i. lookup-summary_round m k ds m i;
        })
        | inr changed ↦ rw changed (stable n ds next (rw (summary_rounds, changed) at h))
      ]

  -- When the rounds end before their limit, the summaries are a fixpoint: each function has the
  -- summary that its analysis gives against these summaries.
  pub converge-IsStable :
      (ds : List DefId)
      → (converge is_local def_path_str analyse ds).1 ≡ true
      → IsStable ds (converge is_local def_path_str analyse ds).0
  unfolding converge
  converge-IsStable ds h = stable 8 ds [] h
