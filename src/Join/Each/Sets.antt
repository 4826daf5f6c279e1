-- ===== src/Join/Each/Sets.antt =====
-- UNION of sets, and UNION of the sets that a map holds (state.rs).
use san.Base.{
  List, [], ◌∷◌, ◌≡◌, ◌≤◌, true, false, arith, Bool-cases, inl, inr, Eq, length, Option-cases, refl,
  if◌then◌else◌, ◌==◌, nat_eq,
}
use san.Base.Sets.{contains, insert, Subset, contains-insert, contains-In}
use san.Base.Maps.{Map, lookup, lookup-put, lookup-In}
use san.Join.{insert_new, join_union, extend, extend_entry, join_sets, get_or}
use san.Join.Laws.{JoinLaws}
use san.Join.Each.Fold.{StepLaws, each-left, each-right, each-settled}

module _ {A : Type 0} ⦃e : Eq A⦄ where
  contains-insert_new :
      (xs : List A) (a b : A) → contains (insert_new xs a).0 b ≡ contains (insert xs a) b
  unfolding insert_new insert
  contains-insert_new xs a b = elim (Bool-cases (contains xs a)) [
    | inl y ↦ rw y refl
    | inr n ↦ rw n refl
  ]

  insert_new-StepLaws : StepLaws insert_new Subset (λ (a : A) xs. contains xs a ≡ true)
  unfolding insert_new
  insert_new-StepLaws = record {
    refl_below = λ s a m. m;
    trans_below = λ s t u h k a m. k a (h a m);
    up = λ a s t m h. h a m;
    grows = λ s a b m. ground (arith, contains-insert_new s a b, contains-insert s a b);
    has = λ s a. ground (arith, contains-insert_new s a a, contains-insert s a a, e.beq_iff a a);
    idle = λ s a h. (ground arith, λ b m. ground arith);
  }

  pub join_union-JoinLaws : JoinLaws join_union (Subset {A = A})
  unfolding join_union
  join_union-JoinLaws = record {
    below_refl = λ s a m. m;
    below_trans = λ s t u h k a m. k a (h a m);
    left = each-left insert_new-StepLaws;
    right = λ s o a m. each-right insert_new-StepLaws s o (contains-In a o m);
    settled = λ s o h a m. each-settled insert_new-StepLaws s o h (contains-In a o m);
  }

  length-extend : (xs ys : List A) → length xs ≤ length (extend xs ys)
  unfolding extend insert
  length-extend xs [] = omega arith
  length-extend xs (y ∷ ys) = ground (arith, length-extend xs ys, length-extend (y ∷ xs) ys)

  pub extend_left : (xs ys : List A) → Subset xs (extend xs ys)
  unfolding extend
  extend_left xs [] a m = m
  extend_left xs (y ∷ ys) a m =
      extend_left (insert xs y) ys a (ground (arith, contains-insert xs y a))

  pub extend_right : (xs ys : List A) → Subset ys (extend xs ys)
  unfolding extend contains
  extend_right xs [] a m = absurd (ground arith)
  extend_right xs (y ∷ ys) a m = elim (Bool-cases (y == a)) [
    | inl q ↦ extend_left (insert xs y) ys a (ground (arith, contains-insert xs y a))
    | inr q ↦ extend_right (insert xs y) ys a (ground arith)
  ]

  pub not-contains-nil : (a : A) → ¬ (contains [] a ≡ true)
  unfolding contains
  not-contains-nil a h = cc

  -- A set that has not grown had all the elements, and is unchanged.
  pub extend_same :
      (xs ys : List A) → length (extend xs ys) ≡ length xs → Subset ys xs × (extend xs ys ≡ xs)
  unfolding extend insert contains
  extend_same xs [] h = (λ a m. absurd (ground arith), refl)
  extend_same xs (y ∷ ys) h = elim (Bool-cases (contains xs y)) [
    | inl old ↦
        let (sub, same) = extend_same xs ys (rw old at h) in
        (λ a m. ground (arith, sub a, e.beq_iff y a), rw old same)
    | inr new ↦ absurd (ground (arith, length-extend (y ∷ xs) ys))
  ]

module _ {K V : Type 0} ⦃e : Eq K⦄ ⦃f : Eq V⦄ where
  -- The set that a map holds for a key.
  abbrev pub members : Map K (List V) → K → List V
  members m k = get_or (lookup m k) []

  abbrev pub SetsBelow : Map K (List V) → Map K (List V) → Type 0
  SetsBelow s t = (k : K) → Subset (members s k) (members t k)

  members-extend_entry :
      (m : Map K (List V)) (k : K) (xs : List V) (j : K)
      → members (extend_entry m (k, xs)).0 j
        ≡ (if k == j then extend (members m k) xs else members m j)
  unfolding extend_entry
  members-extend_entry m k xs j = ground (arith, lookup-put m k (extend (members m k) xs) j)

  extend_entry_has :
      (m : Map K (List V)) (k : K) (xs : List V) → Subset xs (members (extend_entry m (k, xs)).0 k)
  extend_entry_has m k xs =
      rw (members-extend_entry m k xs k, (e.beq_iff k k).1 refl) (extend_right (members m k) xs)

  extend_entry_grows :
      (m : Map K (List V)) (k : K) (xs : List V) → SetsBelow m (extend_entry m (k, xs)).0
  extend_entry_grows m k xs j a h = elim (Bool-cases (k == j)) [
    | inl q ↦
        rw (members-extend_entry m k xs j, q)
          (extend_left (members m k) xs a (rw ((e.beq_iff k j).0 q) h))
    | inr q ↦ rw (members-extend_entry m k xs j, q) h
  ]

  extend_entry_idle :
      (m : Map K (List V)) (k : K) (xs : List V)
      → (extend_entry m (k, xs)).1 ≡ false
      → Subset xs (members m k) × SetsBelow (extend_entry m (k, xs)).0 m
  unfolding extend_entry
  extend_entry_idle m k xs h =
      let (sub, same) = extend_same (members m k) xs (ground arith) in
      (
        sub,
        λ j a n. elim (Bool-cases (k == j)) [
          | inl q ↦
              rw (← (e.beq_iff k j).0 q) (rw same at (rw (members-extend_entry m k xs j, q) at n))
          | inr q ↦ rw (members-extend_entry m k xs j, q) at n
        ],
      )

  extend_entry-StepLaws :
      StepLaws extend_entry SetsBelow (λ (x : K × List V) m. Subset x.1 (members m x.0))
  extend_entry-StepLaws = record {
    refl_below = λ s k a m. m;
    trans_below = λ s t u h k j a m. k j a (h j a m);
    up = λ x s t m h a n. h x.0 a (m a n);
    grows = λ s x. extend_entry_grows s x.0 x.1;
    has = λ s x. extend_entry_has s x.0 x.1;
    idle = λ s x. extend_entry_idle s x.0 x.1;
  }

  pub join_sets-JoinLaws : JoinLaws join_sets SetsBelow
  unfolding join_sets
  join_sets-JoinLaws = record {
    below_refl = λ s k a m. m;
    below_trans = λ s t u h k j a m. k j a (h j a m);
    left = each-left extend_entry-StepLaws;
    right = λ s o k. elim (Option-cases (lookup o k)) [
      | inl absent ↦ rw absent (λ a m. absurd (not-contains-nil a m))
      | inr (xs, q) ↦ rw q (each-right extend_entry-StepLaws s o (lookup-In o k q))
    ];
    settled = λ s o h k. elim (Option-cases (lookup o k)) [
      | inl absent ↦ rw absent (λ a m. absurd (not-contains-nil a m))
      | inr (xs, q) ↦ rw q (each-settled extend_entry-StepLaws s o h (lookup-In o k q))
    ];
  }
