-- ===== src/Report/Laws.antt =====
-- The report has each finding once, and the backstop rule speaks only where no other rule does
-- (crates/san/src/lib.rs).
use san.Base.{
  List, [], ◌∷◌, Bool, true, false, ◌&&◌, not, ◌≡◌, ◌∙◌, inl, inr, refl, sym, ap, subst, ◌==◌,
  nat_eq, pair_eq, list_eq, any, map, In, head, tail, arith, Bool-cases, Eq,
}
use san.Base.Sets.{contains, insert, contains-insert}
use san.Report.{
  Finding, Key, key, dedup_by, dedup, is_backstop, covered, intersects, stays, retain_findings,
  drop_covered, report,
}

-- No key twice.
abbrev pub Unique : {K : Type 0} ⦃e : Eq K⦄ → List K → Type 0
Unique [] = Unit
Unique (k ∷ ks) = (contains ks k ≡ false) × Unique ks

module _ {F K : Type 0} ⦃e : Eq K⦄ (key : F → K) where
  -- The keys that are left are those of the findings, less the keys seen before.
  keys-dedup_by :
      (seen : List K) (fs : List F) (k : K)
      → contains (map key (dedup_by key seen fs)) k
        ≡ (not (contains seen k) && contains (map key fs) k)
  unfolding dedup_by contains
  keys-dedup_by seen [] k = ground arith
  keys-dedup_by seen (f ∷ fs) k =
      let rest = keys-dedup_by (insert seen (key f)) fs k in
      elim (Bool-cases (contains seen (key f))) [
        | inl old ↦
            let same : (key f == k) ≡ true → contains seen k ≡ true =
              λ b. subst (λ j. contains seen j ≡ true) ((e.beq_iff (key f) k).0 b) old in
            rw old (ground (arith, rest, contains-insert seen (key f) k, same))
        | inr new ↦
            let same : (key f == k) ≡ true → contains seen k ≡ false =
              λ b. subst (λ j. contains seen j ≡ false) ((e.beq_iff (key f) k).0 b) new in
            rw new (ground (arith, rest, contains-insert seen (key f) k, same))
      ]

  dedup_by-Unique : (seen : List K) (fs : List F) → Unique (map key (dedup_by key seen fs))
  unfolding dedup_by
  dedup_by-Unique seen [] = tt
  dedup_by-Unique seen (f ∷ fs) =
      let rest = dedup_by-Unique (insert seen (key f)) fs in
      elim (Bool-cases (contains seen (key f))) [
        | inl old ↦ rw old rest
        | inr new ↦ rw new (
          ground (
            arith,
            keys-dedup_by (insert seen (key f)) fs (key f),
            contains-insert seen (key f) (key f),
            e.beq_iff (key f) (key f),
          ),
          rest,
        )
      ]

-- After the duplicates are dropped no rule speaks twice at a place, and at every place each rule
-- speaks that did before.
pub dedup_lem :
    (fs : List Finding)
    → Unique (map key (dedup fs))
      × ((k : Key) → contains (map key (dedup fs)) k ≡ contains (map key fs) k)
unfolding dedup contains
dedup_lem fs = (dedup_by-Unique key [] fs, λ k. keys-dedup_by key [] fs k)

In-retain_findings :
    (p : Finding → Bool) (fs : List Finding) {f : Finding}
    → In f (retain_findings p fs)
    → In f fs × (p f ≡ true)
unfolding retain_findings
In-retain_findings p [] m = elim m [ ]
In-retain_findings p (g ∷ fs) {f} m = elim (Bool-cases (p g)) [
  | inl y ↦ elim (rw (retain_findings, y) at m) [
    | head q ↦ (head q, ap p q ∙ y)
    | tail t ↦ let (i, z) = In-retain_findings p fs t in (tail i, z)
  ]
  | inr n ↦ let (i, z) = In-retain_findings p fs (rw (retain_findings, n) at m) in (tail i, z)
]

retain_findings-In :
    (p : Finding → Bool) (fs : List Finding) {f : Finding}
    → In f fs
    → p f ≡ true
    → In f (retain_findings p fs)
unfolding retain_findings
retain_findings-In p [] m h = elim m [ ]
retain_findings-In p (g ∷ fs) (head q) h = rw (ap p (sym q) ∙ h) (head q)
retain_findings-In p (g ∷ fs) (tail m) h = elim (Bool-cases (p g)) [
  | inl y ↦ rw y (tail (retain_findings-In p fs m h))
  | inr n ↦ rw n (retain_findings-In p fs m h)
]

In-covered :
    (fs : List Finding) {f : Finding}
    → In f fs
    → is_backstop f ≡ false
    → In (f.lo, f.hi) (covered fs)
unfolding covered
In-covered [] m h = elim m [ ]
In-covered (g ∷ fs) {f} (head q) h =
    rw (ap is_backstop (sym q) ∙ h) (head (ap (λ f. (f.lo, f.hi)) q))
In-covered (g ∷ fs) (tail m) h = elim (Bool-cases (is_backstop g)) [
  | inl y ↦ rw y (In-covered fs m h)
  | inr n ↦ rw n (tail (In-covered fs m h))
]

none_of :
    {A : Type 0} (p : A → Bool) (xs : List A) → any p xs ≡ false → (a : A) → In a xs → p a ≡ false
none_of p [] h a m = elim m [ ]
none_of p (x ∷ xs) h a (head q) = ap p q ∙ ground arith
none_of p (x ∷ xs) h a (tail m) = none_of p xs (ground arith) a m

-- In the report no finding of the backstop rule meets the span of a finding of another rule, and no
-- finding of another rule is lost once the duplicates are dropped.
pub report_lem :
    (fs : List Finding) (f g : Finding)
    → (In f (report fs)
        → In g (report fs)
        → is_backstop f ≡ true
        → is_backstop g ≡ false
        → intersects f (g.lo, g.hi) ≡ false)
      × (In g (dedup fs) → is_backstop g ≡ false → In g (report fs))
unfolding report drop_covered
report_lem fs f g = (
  λ mf mg b c.
      let kept = dedup fs in
      let (_, sf) = In-retain_findings (stays (covered kept)) kept mf in
      let (ig, _) = In-retain_findings (stays (covered kept)) kept mg in
      let clear : any (intersects f) (covered kept) ≡ false = ground arith in
      none_of (intersects f) (covered kept) clear (g.lo, g.hi) (In-covered kept ig c),
  λ m c. retain_findings-In (stays (covered (dedup fs))) (dedup fs) m (rw c refl),
)
