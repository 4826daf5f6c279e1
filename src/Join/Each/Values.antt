-- ===== src/Join/Each/Values.antt =====
-- UNION of maps, and the joins of the values of a map (state.rs).
use san.Base.{
  [], ◌∷◌, ℕ, ◌≡◌, ◌≢◌, true, false, none, some, arith, Bool-cases, inl, inr, Eq, Option-cases,
  if◌then◌else◌, ◌==◌, ◌∙◌,
}
use san.Base.Maps.{Map, lookup, lookup-put, lookup-In}
use san.Object.Lattice.{Semilattice}
use san.Join.{join_each, or_insert, join_or_insert, join_entry, join_values, get_or}
use san.Join.Laws.{JoinLaws}
use san.Join.Each.Fold.{StepLaws, each-left, each-right, each-settled}

module _ {K V : Type 0} ⦃e : Eq K⦄ where
  -- `t` has every key of `s`.
  abbrev pub KeysBelow : Map K V → Map K V → Type 0
  KeysBelow s t = (k : K) → lookup t k ≡ none → lookup s k ≡ none

  abbrev HasKey : K × V → Map K V → Type 0
  HasKey x m = lookup m x.0 ≢ none

  -- An entry that is there stays, and a missing one is added.
  pub lookup-or_insert :
      (m : Map K V) (k : K) (v : V) (j : K)
      → lookup (or_insert m (k, v)).0 j
        ≡ (if k == j then some (get_or (lookup m k) v) else lookup m j)
  unfolding or_insert
  lookup-or_insert m k v j = ground (arith, lookup-put m k v j, e.beq_iff k j)

  or_insert-StepLaws : StepLaws or_insert KeysBelow HasKey
  unfolding or_insert
  or_insert-StepLaws = record {
    refl_below = λ s k h. h;
    trans_below = λ s t u h g k m. h k (g k m);
    up = λ x s t m h n. m (h x.0 n);
    grows = λ s x k h. ground (arith, lookup-or_insert s x.0 x.1 k, e.beq_iff x.0 k);
    has = λ s x h. ground (arith, lookup-or_insert s x.0 x.1 x.0, e.beq_iff x.0 x.0);
    idle = λ s x h. (λ q. ground arith, λ k q. ground arith);
  }

  pub join_or_insert-JoinLaws : JoinLaws join_or_insert KeysBelow
  unfolding join_or_insert
  join_or_insert-JoinLaws = record {
    below_refl = λ s k h. h;
    below_trans = λ s t u h g k m. h k (g k m);
    left = each-left or_insert-StepLaws;
    right = λ s o k h. elim (Option-cases (lookup o k)) [
      | inl absent ↦ absent
      | inr (v, q) ↦ absurd (each-right or_insert-StepLaws s o (lookup-In o k q) h)
    ];
    settled = λ s o c k h. elim (Option-cases (lookup o k)) [
      | inl absent ↦ absent
      | inr (v, q) ↦ absurd (each-settled or_insert-StepLaws s o c (lookup-In o k q) h)
    ];
  }

  -- An entry of `self` survives the union unchanged.
  pub join_or_insert-keeps :
      (s o : Map K V) (k : K) (v : V)
      → lookup s k ≡ some v
      → lookup (join_or_insert s o).0 k ≡ some v
  unfolding join_or_insert join_each
  join_or_insert-keeps s [] k v h = h
  join_or_insert-keeps s (x ∷ o) k v h =
      join_or_insert-keeps (or_insert s x).0 o k v
        (ground (arith, lookup-or_insert s x.0 x.1 k, e.beq_iff x.0 k))

module _ {K V : Type 0} ⦃e : Eq K⦄ ⦃f : Eq V⦄ (join : V → V → V) where
  -- The state that `t` has for a key absorbs that of `s`.
  abbrev pub ValuesBelow : Map K V → Map K V → Type 0
  ValuesBelow s t =
      (k : K) (v : V) → lookup s k ≡ some v → (w : V) × (lookup t k ≡ some w) × (join v w ≡ w)

  abbrev HasValue : K × V → Map K V → Type 0
  HasValue x m = (w : V) × (lookup m x.0 ≡ some w) × (join x.1 w ≡ w)

  -- The entry of `k` becomes its join with `v`.
  lookup-join_entry :
      (m : Map K V) (k : K) (v : V) (j : K)
      → lookup (join_entry join m (k, v)).0 j
        ≡ (if k == j then some (join (get_or (lookup m k) v) v) else lookup m j)
  unfolding join_entry or_insert
  lookup-join_entry m k v j =
      let m' = (or_insert m (k, v)).0 in
      let entry = get_or (lookup m' k) v in
      let joined = join entry v in
      ground (
        arith,
        lookup-or_insert m k v k,
        lookup-or_insert m k v j,
        lookup-put m' k joined j,
        f.beq_iff joined entry,
        e.beq_iff k k,
        e.beq_iff k j,
      )

  or_insert-some :
      (m : Map K V) (k : K) (v w : V) → lookup m k ≡ some w → or_insert m (k, v) ≡ (m, false)
  unfolding or_insert
  or_insert-some m k v w q = rw (q, or_insert)

  or_insert-none : (m : Map K V) (k : K) (v : V) → lookup m k ≡ none → (or_insert m (k, v)).1 ≡ true
  unfolding or_insert
  or_insert-none m k v q = rw (q, or_insert)

  join_entry-idle :
      (m : Map K V) (k : K) (v : V)
      → (join_entry join m (k, v)).1 ≡ false
      → (w : V) × (lookup m k ≡ some w) × (join w v ≡ w) × ((join_entry join m (k, v)).0 ≡ m)
  unfolding join_entry
  join_entry-idle m k v h = elim (Option-cases (lookup m k)) [
    | inl absent ↦ absurd (ground (arith, or_insert-none m k v absent))
    | inr (w, q) ↦
        let same = or_insert-some m k v w q in
        (w, q, ground (arith, f.beq_iff (join w v) w), ground (arith, f.beq_iff (join w v) w))
  ]

module _ {V : Type 0} {join : V → V → V} {rank : V → ℕ} (laws : Semilattice join rank) where
  open laws use {idem, comm, assoc}

  absorb_trans : (a b c : V) → join a b ≡ b → join b c ≡ c → join a c ≡ c
  absorb_trans a b c h k = cc (assoc a b c)

  absorb_right : (a b : V) → join b (join a b) ≡ join a b
  absorb_right a b = cc (comm a b, assoc b b a, idem b)

  absorb_left : (a b : V) → join a (join a b) ≡ join a b
  absorb_left a b = cc (assoc a a b, idem a)

  module _ {K : Type 0} ⦃e : Eq K⦄ ⦃f : Eq V⦄ where
    join_entry_grows : (s : Map K V) (x : K × V) → ValuesBelow join s (join_entry join s x).0
    join_entry_grows s (j, u) k v m = elim (Bool-cases (j == k)) [
      | inl q ↦
          (join v u, ground (arith, lookup-join_entry join s j u k, e.beq_iff j k), absorb_left v u)
      | inr q ↦ (v, ground (arith, lookup-join_entry join s j u k), idem v)
    ]

    join_entry-StepLaws : StepLaws (join_entry join) (ValuesBelow {K = K} join) (HasValue join)
    join_entry-StepLaws = record {
      refl_below = λ s k v h. (v, h, idem v);
      trans_below = λ s t u h g k v m.
          let (w, n, a) = h k v m in let (x, l, b) = g k w n in (x, l, absorb_trans v w x a b);
      up = λ x s t m h.
          let (w, n, a) = m in let (y, l, b) = h x.0 w n in (y, l, absorb_trans x.1 w y a b);
      grows = join_entry_grows;
      has = λ s x. (
        join (get_or (lookup s x.0) x.1) x.1,
        ground (arith, lookup-join_entry join s x.0 x.1 x.0, e.beq_iff x.0 x.0),
        absorb_right (get_or (lookup s x.0) x.1) x.1,
      );
      idle = λ s x h.
          let (w, q, r, same) = join_entry-idle join s x.0 x.1 h in
          ((w, q, comm x.1 w ∙ r), rw same (λ k v m. (v, m, idem v)));
    }

    pub join_values-JoinLaws : JoinLaws (join_values join) (ValuesBelow {K = K} join)
    unfolding join_values
    join_values-JoinLaws = record {
      below_refl = λ s k v h. (v, h, idem v);
      below_trans = join_entry-StepLaws.trans_below;
      left = each-left join_entry-StepLaws;
      right = λ s o k v m. each-right join_entry-StepLaws s o (lookup-In o k m);
      settled = λ s o h k v m. each-settled join_entry-StepLaws s o h (lookup-In o k m);
    }
