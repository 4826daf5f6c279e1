-- ===== src/Edge/Memory.antt =====
-- What the facts of a state say of a memory, and how one more fact is recorded
-- (crates/san/src/analysis/transfer.rs, with the fields of crates/san/src/analysis/state.rs).
use san.Base.{
  ℕ, List, Bool, true, Option, none, some, Eq, ◌==◌, ◌≡◌, inl, inr, ◌≤◌, min, max, refl, subst,
  nat_eq, arith, nat_beq_iff, Bool-cases, Option-cases,
}
use san.Base.Sets.{contains, contains-insert}
use san.Base.Maps.{Map, lookup, put, lookup-put}
use san.State.Locals.{Local}
use san.Join.{get_or}
use san.Edge.{u64_max, insert_some, tighten_upper, raise_lower}

-- The values that the facts are about. `limit l` is the length that `l` was compared with.
pub record Memory : Type 0 where
  pub value : Local → ℕ
  pub limit : Local → ℕ
  pub len : Local → ℕ
  pub cap : Local → ℕ
  pub is_finite : Local → Bool

-- What holds of each element of a set, and of each entry of a map.
abbrev pub Members : {A : Type 0} ⦃e : Eq A⦄ → (A → Type 0) → List A → Type 0
Members {A} P xs = (a : A) → contains xs a ≡ true → P a

abbrev pub Entries : {V : Type 0} → (Local → V → Type 0) → Map Local V → Type 0
Entries {V} P m = (d : Local) (v : V) → lookup m d ≡ some v → P d v

pub Members-insert_some :
    {A : Type 0} ⦃e : Eq A⦄ {P : A → Type 0} (xs : List A) (o : Option A)
    → Members P xs
    → ((a : A) → o ≡ some a → P a)
    → Members P (insert_some xs o)
Members-insert_some xs none h new a m = h a m
Members-insert_some ⦃e⦄ {P} xs (some x) h new a m = elim (Bool-cases (x == a)) [
  | inl same ↦ subst P ((e.beq_iff x a).0 same) (new x refl)
  | inr other ↦ h a (ground (arith, contains-insert xs x a))
]

-- Recording an entry for one local.
pub Entries-put :
    {V : Type 0} {P : Local → V → Type 0} (m : Map Local V) (l : Local) (v : V)
    → Entries P m
    → P l v
    → Entries P (put m l v)
Entries-put {V} {P} m l v h new d w e = elim (Bool-cases (l == d)) [
  | inl same ↦
      let q : l ≡ d = (nat_beq_iff l d).0 same in
      let r : v ≡ w = ground (arith, lookup-put m l v d) in
      subst (λ x. P d x) r (subst (λ x. P x v) q new)
  | inr other ↦ h d w (ground (arith, lookup-put m l v d))
]

module _ (m : Memory) where
  abbrev pub Upper : Local → ℕ → Type 0
  Upper l k = m.value l ≤ k

  abbrev pub Lower : Local → ℕ → Type 0
  Lower l k = k ≤ m.value l

  Upper-default :
      (us : Map Local ℕ) (l : Local)
      → Entries Upper us
      → m.value l ≤ u64_max
      → m.value l ≤ get_or (lookup us l) u64_max
  Upper-default us l h wide = elim (Option-cases (lookup us l)) [
    | inl q ↦ rw q wide
    | inr (k, q) ↦ rw q (h l k q)
  ]

  Lower-default :
      (ls : Map Local ℕ) (l : Local) → Entries Lower ls → get_or (lookup ls l) 0 ≤ m.value l
  Lower-default ls l h = elim (Option-cases (lookup ls l)) [
    | inl q ↦ rw q (omega arith)
    | inr (k, q) ↦ rw q (h l k q)
  ]

  pub Entries-tighten_upper :
      (us : Map Local ℕ) (l : Local) (k : ℕ)
      → m.value l ≤ u64_max
      → Entries Upper us
      → m.value l ≤ k
      → Entries Upper (tighten_upper us l k)
  unfolding tighten_upper
  Entries-tighten_upper us l k wide h le =
      Entries-put us l (min (get_or (lookup us l) u64_max) k) h
        (ground (arith, Upper-default us l h wide))

  pub Entries-raise_lower :
      (ls : Map Local ℕ) (l : Local) (k : ℕ)
      → Entries Lower ls
      → k ≤ m.value l
      → Entries Lower (raise_lower ls l k)
  unfolding raise_lower
  Entries-raise_lower ls l k h le =
      Entries-put ls l (max (get_or (lookup ls l) 0) k) h (ground (arith, Lower-default ls l h))
