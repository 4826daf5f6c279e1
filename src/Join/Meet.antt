-- ===== src/Join/Meet.antt =====
-- INTERSECTION joins of sets and maps, and the flag (state.rs).
use san.Base.{
  ℕ, List, ◌≡◌, ◌≤◌, Bool, true, false, ◌&&◌, Option, none, some, arith, Bool-cases, inl, inr, Eq,
  refl, nat_eq, sym, ◌∙◌,
}
use san.Base.Sets.{contains, retain, set_beq, Subset, contains-retain, set_beq-Subset}
use san.Base.Maps.{Map, lookup, filter_map, map_ne, lookup-filter_map, map_ne-eq-false}
use san.Join.{
  join_inter, join_meet, join_flag, agree, weaker_upper, weaker_lower, common_fields, both,
}
use san.Join.Laws.{JoinLaws}

module _ {A : Type 0} ⦃e : Eq A⦄ where
  -- `t` proves no more than `s`.
  abbrev pub InterBelow : List A → List A → Type 0
  InterBelow s t = Subset t s

  pub contains-join_inter :
      (s o : List A) (a : A) → contains (join_inter s o).0 a ≡ (contains s a && contains o a)
  unfolding join_inter
  contains-join_inter s o a = elim (Bool-cases (set_beq (retain (contains o) s) s)) [
    | inl same ↦ rw same (
        ground (
          arith,
          set_beq-Subset (retain (contains o) s) s same a,
          contains-retain (contains o) s a,
        ))
    | inr other ↦ rw other (ground (arith, contains-retain (contains o) s a))
  ]

  join_inter-idle : (s o : List A) → (join_inter s o).1 ≡ false → Subset s o
  unfolding join_inter
  join_inter-idle s o h a m = elim (Bool-cases (set_beq (retain (contains o) s) s)) [
    | inl same ↦
        ground (
          arith,
          set_beq-Subset (retain (contains o) s) s same a m,
          contains-retain (contains o) s a,
        )
    | inr other ↦ absurd (ground arith)
  ]

  pub join_inter-JoinLaws : JoinLaws join_inter InterBelow
  join_inter-JoinLaws = record {
    below_refl = λ s a m. m;
    below_trans = λ s t u h k a m. h a (k a m);
    left = λ s o a m. ground (arith, contains-join_inter s o a);
    right = λ s o a m. ground (arith, contains-join_inter s o a);
    settled = join_inter-idle;
  }

-- A merge that only weakens: `Weaker a c` says that the value `c` claims no more than `a`.
pub record MergeLaws {V : Type 0} (merge : V → V → Option V) (Weaker : V → V → Type 0)
    : Type 0 where
  pub refl_weaker : (a : V) → Weaker a a
  pub trans_weaker : (a b c : V) → Weaker a b → Weaker b c → Weaker a c
  pub left_weaker : (a b c : V) → merge a b ≡ some c → Weaker a c
  pub right_weaker : (a b c : V) → merge a b ≡ some c → Weaker b c

abbrev pub meet_at : {V : Type 0} → (V → V → Option V) → Option V → Option V → Option V
meet_at merge none q = none
meet_at merge (some a) q = both merge a q

module _ {K V : Type 0} ⦃e : Eq K⦄ ⦃f : Eq V⦄ where
  abbrev pub MeetBelow : (V → V → Type 0) → Map K V → Map K V → Type 0
  MeetBelow Weaker s t =
      (k : K) (b : V) → lookup t k ≡ some b → (a : V) × (lookup s k ≡ some a) × Weaker a b

  abbrev kept_entries : (V → V → Option V) → Map K V → Map K V → Map K V
  kept_entries merge s o = filter_map (λ j a. both merge a (lookup o j)) s

  lookup-kept_entries :
      (merge : V → V → Option V) (s o : Map K V) (k : K)
      → lookup (kept_entries merge s o) k ≡ meet_at merge (lookup s k) (lookup o k)
  lookup-kept_entries merge s o k =
      ground (arith, lookup-filter_map (λ j a. both merge a (lookup o j)) s k)

  -- Key by key: both maps have the key, and `merge` keeps it.
  pub lookup-join_meet :
      (merge : V → V → Option V) (s o : Map K V) (k : K)
      → lookup (join_meet merge s o).0 k ≡ meet_at merge (lookup s k) (lookup o k)
  unfolding join_meet
  lookup-join_meet merge s o k = elim (Bool-cases (map_ne (kept_entries merge s o) s)) [
    | inl other ↦ rw other (lookup-kept_entries merge s o k)
    | inr same ↦
        rw same (
          sym (map_ne-eq-false (kept_entries merge s o) s same k) ∙ lookup-kept_entries merge s o k)
  ]

  join_meet-idle :
      (merge : V → V → Option V) (s o : Map K V)
      → (join_meet merge s o).1 ≡ false
      → (k : K) → meet_at merge (lookup s k) (lookup o k) ≡ lookup s k
  unfolding join_meet
  join_meet-idle merge s o h k = elim (Bool-cases (map_ne (kept_entries merge s o) s)) [
    | inl other ↦ absurd (ground arith)
    | inr same ↦
        sym (lookup-kept_entries merge s o k) ∙ map_ne-eq-false (kept_entries merge s o) s same k
  ]

meet_parts :
    {V : Type 0} (merge : V → V → Option V) (p q : Option V) (c : V)
    → meet_at merge p q ≡ some c
    → (a b : V) × (p ≡ some a) × (q ≡ some b) × (merge a b ≡ some c)
meet_parts merge none q c h = absurd (ground arith)
meet_parts merge (some a) none c h = absurd (ground arith)
meet_parts merge (some a) (some b) c h = (a, b, refl, refl, h)

module _ {K V : Type 0} ⦃e : Eq K⦄ ⦃f : Eq V⦄ {merge : V → V → Option V} {Weaker : V → V → Type 0}
    (laws : MergeLaws merge Weaker) where
  open laws use {refl_weaker, trans_weaker, left_weaker, right_weaker}

  join_meet-parts :
      (s o : Map K V) (k : K) (c : V)
      → lookup (join_meet merge s o).0 k ≡ some c
      → (a b : V) × (lookup s k ≡ some a) × (lookup o k ≡ some b) × (merge a b ≡ some c)
  join_meet-parts s o k c h =
      meet_parts merge (lookup s k) (lookup o k) c (rw (lookup-join_meet merge s o k) at h)

  pub join_meet-JoinLaws : JoinLaws (join_meet merge) (MeetBelow {K = K} Weaker)
  join_meet-JoinLaws = record {
    below_refl = λ s k b h. (b, h, refl_weaker b);
    below_trans = λ s t u h g k c m.
        let (b, n, v) = g k c m in let (a, l, w) = h k b n in (a, l, trans_weaker a b c w v);
    left =
        λ s o k c m. let (a, b, p, q, r) = join_meet-parts s o k c m in (a, p, left_weaker a b c r);
    right = λ s o k c m.
        let (a, b, p, q, r) = join_meet-parts s o k c m in (b, q, right_weaker a b c r);
    settled = λ s o h k c m.
        let (a, b, p, q, r) =
          meet_parts merge (lookup s k) (lookup o k) c (join_meet-idle merge s o h k ∙ m) in
        (b, q, right_weaker a b c r);
  }

pub agree-MergeLaws : {V : Type 0} ⦃f : Eq V⦄ → MergeLaws (agree {V = V}) ◌≡◌
agree-MergeLaws ⦃f⦄ = record {
  refl_weaker = λ a. refl;
  trans_weaker = λ a b c h k. h ∙ k;
  left_weaker = λ a b c h. ground (arith, f.beq_iff b a);
  right_weaker = λ a b c h. ground (arith, f.beq_iff b a);
}

pub weaker_upper-MergeLaws : MergeLaws weaker_upper ◌≤◌
weaker_upper-MergeLaws = record {
  refl_weaker = λ a. omega arith;
  trans_weaker = λ a b c h k. omega arith;
  left_weaker = λ a b c h. ground arith;
  right_weaker = λ a b c h. ground arith;
}

abbrev pub AtLeast : ℕ → ℕ → Type 0
AtLeast a b = b ≤ a

pub weaker_lower-MergeLaws : MergeLaws weaker_lower AtLeast
weaker_lower-MergeLaws = record {
  refl_weaker = λ a. omega arith;
  trans_weaker = λ a b c h k. omega arith;
  left_weaker = λ a b c h. ground arith;
  right_weaker = λ a b c h. ground arith;
}

pub common_fields-MergeLaws : MergeLaws common_fields InterBelow
common_fields-MergeLaws = record {
  refl_weaker = λ a x m. m;
  trans_weaker = λ a b c h k x m. h x (k x m);
  left_weaker = λ a b c h x m. ground (arith, contains-retain (contains b) a x);
  right_weaker = λ a b c h x m. ground (arith, contains-retain (contains b) a x);
}

-- The flags are ordered by implication.
abbrev pub FlagBelow : Bool → Bool → Type 0
FlagBelow s t = s ≡ true → t ≡ true

pub join_flag-JoinLaws : JoinLaws join_flag FlagBelow
unfolding join_flag
join_flag-JoinLaws = record {
  below_refl = λ s h. h;
  below_trans = λ s t u h k m. k (h m);
  left = λ s o m. ground arith;
  right = λ s o m. ground arith;
  settled = λ s o h m. ground arith;
}
