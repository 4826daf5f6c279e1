-- ===== src/Edge/Pairs.antt =====
-- Equal and unequal pairs along the two edges of a branch: what `refine_switchint_edge` records
-- in `keys_are_ne` and `eq_locals` (crates/san/src/analysis/transfer.rs).
use san.Base.{
  Option, none, some, ◌≡◌, ◌≢◌, sym, refl, subst, nat_eq, pair_eq, arith, Bool-cases, inl, inr, leb,
}
use mathlib.Core.Option.{some-injective}
use san.State.Locals.{Local}
use san.State.Pairs.{PairsDomain}
use san.Edge.{ordered, ordered_some, pairs_true, pairs_false}
use san.Edge.Memory.{Memory, Members, Entries, Members-insert_some}

module _ (m : Memory) where
  abbrev pub EqPair : Local × Local → Type 0
  EqPair p = m.value p.0 ≡ m.value p.1

  abbrev pub NePair : Local × Local → Type 0
  NePair p = m.value p.0 ≢ m.value p.1

  -- What the fields that branches record say of a memory.
  pub record PairsHold (s : PairsDomain) : Type 0 where
    pub eq_locals : Members EqPair s.eq_locals
    pub keys_are_ne : Members NePair s.keys_are_ne
    pub ne_pair_if_true :
        Entries (λ d p. (m.value d ≢ 0 → NePair p) × (m.value d ≡ 0 → EqPair p)) s.ne_pair_if_true
    pub eq_pair_if_true :
        Entries (λ d p. (m.value d ≢ 0 → EqPair p) × (m.value d ≡ 0 → NePair p)) s.eq_pair_if_true

  EqPair-ordered : (p : Local × Local) → EqPair p → EqPair (ordered p)
  EqPair-ordered (a, b) h = elim (Bool-cases (leb a b)) [
    | inl le ↦ rw le h
    | inr gt ↦ rw gt (sym h)
  ]

  NePair-ordered : (p : Local × Local) → NePair p → NePair (ordered p)
  NePair-ordered (a, b) h = elim (Bool-cases (leb a b)) [
    | inl le ↦ rw le h
    | inr gt ↦ rw gt (λ q. h (sym q))
  ]

  ordered_some_lem :
      {P : Local × Local → Type 0} (o : Option (Local × Local))
      → ((p : Local × Local) → P p → P (ordered p))
      → ((p : Local × Local) → o ≡ some p → P p)
      → (q : Local × Local) → ordered_some o ≡ some q
      → P q
  ordered_some_lem none swap h q e = absurd (ground arith)
  ordered_some_lem {P} (some p) swap h q e = subst P (some-injective _ _ e) (swap p (h p refl))

  pub pairs_true-PairsHold :
      (d : Local) (s : PairsDomain) → m.value d ≢ 0 → PairsHold s → PairsHold (pairs_true d s)
  unfolding pairs_true
  pairs_true-PairsHold d s t h = record {
    eq_locals =
        Members-insert_some s.eq_locals _ h.eq_locals
          (ordered_some_lem {P = EqPair} _ EqPair-ordered (λ p e. (h.eq_pair_if_true d p e).0 t));
    keys_are_ne =
        Members-insert_some s.keys_are_ne _ h.keys_are_ne
          (ordered_some_lem {P = NePair} _ NePair-ordered (λ p e. (h.ne_pair_if_true d p e).0 t));
    ne_pair_if_true = h.ne_pair_if_true;
    eq_pair_if_true = h.eq_pair_if_true;
  }

  pub pairs_false-PairsHold :
      (d : Local) (s : PairsDomain) → m.value d ≡ 0 → PairsHold s → PairsHold (pairs_false d s)
  unfolding pairs_false
  pairs_false-PairsHold d s f h = record {
    eq_locals =
        Members-insert_some s.eq_locals _ h.eq_locals
          (ordered_some_lem {P = EqPair} _ EqPair-ordered (λ p e. (h.ne_pair_if_true d p e).1 f));
    keys_are_ne =
        Members-insert_some s.keys_are_ne _ h.keys_are_ne
          (ordered_some_lem {P = NePair} _ NePair-ordered (λ p e. (h.eq_pair_if_true d p e).1 f));
    ne_pair_if_true = h.ne_pair_if_true;
    eq_pair_if_true = h.eq_pair_if_true;
  }
