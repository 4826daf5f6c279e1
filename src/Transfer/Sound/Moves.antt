-- ===== src/Transfer/Sound/Moves.antt =====
-- Facts on ranges that a move or a copy of a local gives to its destination.
use san.Base.{
  ℕ, List, Bool, true, false, Option, none, some, ◌≡◌, ◌≢◌, ◌≤◌, refl, sym, ◌∙◌, subst, nat_eq,
  arith, inl, inr, Bool-cases, if◌then◌else◌,
}
use san.Base.Sets.{contains, insert, remove}
use san.Base.Maps.{Map, lookup, erase, put}
use san.State.Locals.{Local}
use san.State.Ranges.{RangesDomain}
use san.Edge.Memory.{Memory, Members, Entries, Entries-put, Members-insert_some}
use san.Edge.Ranges.{RangesHold}
use san.Transfer.Moves.{propagate_set, propagate_map, propagate_ranges}
use san.Transfer.Sound.Clear.{contains-remove-true, lookup-erase-some, IsUnknown}
use san.Transfer.Sound.Record.{with_nonzero, with_upper, with_lower, with_finite}

module _ (is_move : Bool) (dst src : Local) where
  Members-after :
      {P : Local → Type 0} (b : Bool) (xs : List Local)
      → Members P xs
      → Members P (if b then remove xs src else xs)
  Members-after true xs h a e = h a (contains-remove-true xs src a e).1
  Members-after false xs h a e = h a e

  Entries-after :
      {V : Type 0} {P : Local → V → Type 0} (b : Bool) (m : Map Local V)
      → Entries P m
      → Entries P (if b then erase m src else m)
  Entries-after true m h d v e = h d v (lookup-erase-some m src d e).1
  Entries-after false m h d v e = h d v e

  propagate_set-Members :
      {P : Local → Type 0} (xs : List Local)
      → Members P xs
      → (contains xs src ≡ true → P src → P dst)
      → Members P (propagate_set is_move dst src xs)
  unfolding propagate_set
  propagate_set-Members {P} xs h give = elim (Bool-cases (contains xs src)) [
    | inl y ↦ rw y (
        Members-after is_move (insert xs dst)
          (Members-insert_some xs (some dst) h (λ a e. subst P (ground arith) (give y (h src y)))))
    | inr n ↦ rw n h
  ]

  propagate_cell :
      {V : Type 0} {P : Local → V → Type 0} (m : Map Local V) (o : Option V)
      → Entries P m
      → ((v : V) → o ≡ some v → P dst v)
      → Entries P
          (elim o [ none ↦ m | some v ↦ if is_move then erase (put m dst v) src else put m dst v ])
  propagate_cell m none h give d v e = h d v e
  propagate_cell m (some w) h give d v e =
      Entries-after is_move (put m dst w) (Entries-put m dst w h (give w refl)) d v e

  propagate_map-Entries :
      {V : Type 0} {P : Local → V → Type 0} (m : Map Local V)
      → Entries P m
      → ((v : V) → lookup m src ≡ some v → P src v → P dst v)
      → Entries P (propagate_map is_move dst src m)
  unfolding propagate_map
  propagate_map-Entries m h give = propagate_cell m (lookup m src) h (λ v e. give v e (h src v e))

  -- The value and the finiteness of `dst` are those of `src`, if `src` is another local.
  pub propagate_ranges-RangesHold :
      (m : Memory) (s : RangesDomain)
      → IsUnknown dst s
      → (src ≢ dst → m.value dst ≡ m.value src)
      → (src ≢ dst → m.is_finite dst ≡ m.is_finite src)
      → RangesHold m s
      → RangesHold m (propagate_ranges is_move dst src s)
  unfolding propagate_ranges
  propagate_ranges-RangesHold m s u value finite h =
      let other =
        λ (xs : List Local) (c : contains xs src ≡ true) (d : contains xs dst ≡ false)
            (q : src ≡ dst).
          absurd {A = ⊥} (ground arith) in
      let other_key =
        λ (x : Map Local ℕ) (v : ℕ) (c : lookup x src ≡ some v) (d : lookup x dst ≡ none)
            (q : src ≡ dst).
          absurd {A = ⊥} (ground arith) in
      let h1 = with_nonzero m s h _ (
        propagate_set-Members s.nonzero h.nonzero
          (λ c p z. p (sym (value (other s.nonzero c u.nonzero)) ∙ z))) in
      let h2 =
        with_finite m _ h1 _ (
          propagate_set-Members s.finite h.finite
            (λ c p. finite (other s.finite c u.finite) ∙ p)) in
      let h3 = with_upper m _ h2 _ (
        propagate_map-Entries s.const_upper h.const_upper (λ v c p.
          subst (λ x. x ≤ v) (sym (value (other_key s.const_upper v c u.const_upper))) p)) in
      with_lower m _ h3 _ (
        propagate_map-Entries s.const_lower h.const_lower
          (λ v c p. subst (λ x. v ≤ x) (sym (value (other_key s.const_lower v c u.const_lower))) p))
