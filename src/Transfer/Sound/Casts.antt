-- ===== src/Transfer/Sound/Casts.antt =====
-- The facts on ranges that a cast of integers or a constant gives to its destination.
use san.Base.{
  ℕ, List, Bool, true, false, Option, none, some, ◌≡◌, ◌≢◌, ◌≤◌, refl, sym, ◌∙◌, subst, nat_eq,
  arith, nat_beq_iff, ◌==◌, inl, inr, Bool-cases, if◌then◌else◌,
}
use san.Base.Sets.{contains, insert, remove}
use san.Base.Maps.{Map}
use san.State.Locals.{Local}
use san.State.Ranges.{RangesDomain}
use san.Mir.{Ty}
use san.Edge.Memory.{
  Memory, Members, Entries, Upper, Entries-tighten_upper, Entries-put, Members-insert_some,
}
use san.Edge.Ranges.{RangesHold, IsWide}
use san.Facts.{uint_type_max}
use san.Facts.Types.{Inhabits, uint_type_max_sound}
use san.Transfer.Reads.{tighten_some, cast_int, set_const}
use san.Transfer.Sound.Clear.{IsUnknown, contains-remove-true}
use san.Transfer.Sound.Record.{with_nonzero, with_upper, with_lower}

module _ (m' : Memory) (wide' : IsWide m') (dst : Local) where
  Members-insert_dst :
      (xs : List Local) (b : Bool)
      → Members (λ l. m'.value l ≢ 0) xs
      → (b ≡ true → m'.value dst ≢ 0)
      → Members (λ l. m'.value l ≢ 0) (if b then insert xs dst else xs)
  Members-insert_dst xs false h n = h
  Members-insert_dst xs true h n =
      Members-insert_some xs (some dst) h
        (λ l e. subst (λ x. m'.value x ≢ 0) (ground arith) (n refl))

  Entries-tighten_some :
      (us : Map Local ℕ) (o : Option ℕ)
      → Entries (Upper m') us
      → ((k : ℕ) → o ≡ some k → m'.value dst ≤ k)
      → Entries (Upper m') (tighten_some us dst o)
  Entries-tighten_some us none h le d v e = h d v e
  Entries-tighten_some us (some k) h le d v e =
      Entries-tighten_upper m' us dst k (wide' dst) h (le k refl) d v e

  -- The cast keeps the value of `src`.
  pub cast_int-RangesHold :
      (s : RangesDomain) (src : Local) (ty : Ty)
      → IsUnknown dst s
      → Inhabits ty (m'.value dst)
      → (src ≢ dst → m'.value dst ≡ m'.value src)
      → RangesHold m' s
      → RangesHold m' (cast_int s dst src ty)
  unfolding cast_int
  cast_int-RangesHold s src ty u i kept h =
      let typed =
        Entries-tighten_some s.const_upper (uint_type_max ty) h.const_upper
          (λ k e. uint_type_max_sound ty (m'.value dst) k i e) in
      let h1 = with_nonzero m' s h _ (
        Members-insert_dst s.nonzero (contains s.nonzero src) h.nonzero
          (λ c z. h.nonzero src c (sym (kept (λ q. absurd (ground (arith, u.nonzero)))) ∙ z))) in
      with_upper m' _ h1 _ (
        Entries-tighten_some _ _ typed (λ k e. elim (Bool-cases (src == dst)) [
          | inl y ↦ subst (λ l. m'.value l ≤ k) ((nat_beq_iff src dst).0 y) (typed src k e)
          | inr n ↦
              subst (λ v. v ≤ k) (sym (kept (λ q. absurd (ground (arith, nat_beq_iff src dst)))))
                (typed src k e)
        ]))

  Members-set_const :
      (xs : List Local) (val : ℕ)
      → m'.value dst ≡ val
      → Members (λ l. m'.value l ≢ 0) xs
      → Members (λ l. m'.value l ≢ 0) (if val == 0 then remove xs dst else insert xs dst)
  Members-set_const xs val q h = elim (Bool-cases (val == 0)) [
    | inl y ↦ rw y (λ l e. h l (contains-remove-true xs dst l e).1)
    | inr n ↦
        let given : m'.value dst ≢ 0 = λ z. absurd (ground (arith, nat_beq_iff val 0)) in
        rw n (
          Members-insert_some xs (some dst) h
            (λ l e. subst (λ x. m'.value x ≢ 0) (ground arith) given))
  ]

  pub set_const-RangesHold :
      (s : RangesDomain) (o : Option ℕ)
      → ((k : ℕ) → o ≡ some k → m'.value dst ≡ k)
      → RangesHold m' s
      → RangesHold m' (set_const s dst o)
  set_const-RangesHold s none q h = h
  set_const-RangesHold s (some val) q h =
      let e = q val refl in
      let h1 = with_nonzero m' s h _ (Members-set_const s.nonzero val e h.nonzero) in
      let h2 =
        with_upper m' _ h1 _ (Entries-put s.const_upper dst val h.const_upper (ground arith)) in
      with_lower m' _ h2 _ (Entries-put s.const_lower dst val h.const_lower (ground arith))
