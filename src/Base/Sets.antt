-- ===== src/Base/Sets.antt =====
-- `HashSet` and `BTreeSet`: a list of elements, read through `contains`.
use san.Base.Tests.{Eq, ◌==◌, if◌then◌else◌, Bool-cases}
use san.Base.Lists.{In, head, tail}
use mathlib.Core.Path.{◌≡◌, sym}
use mathlib.Core.Logic.{inl, inr}
use mathlib.Core.Bool.{Bool, true, false, ◌&&◌, ◌||◌, not}
use mathlib.Core.List.{List, [], ◌∷◌}
use native.Mathlib.Omega.{arith}

module _ {A : Type 0} ⦃e : Eq A⦄ where
  unfoldable pub contains : List A → A → Bool
  contains [] a = false
  contains (x ∷ xs) a = x == a || contains xs a

  unfoldable pub insert : List A → A → List A
  insert xs a = if contains xs a then xs else a ∷ xs

  -- `iter().filter(p).collect()`, `retain` and, for one element, `remove`
  unfoldable pub retain : (A → Bool) → List A → List A
  retain p [] = []
  retain p (x ∷ xs) = if p x then x ∷ retain p xs else retain p xs

  unfoldable pub remove : List A → A → List A
  remove xs a = retain (λ x. not (x == a)) xs

  unfoldable pub subset : List A → List A → Bool
  subset [] ys = true
  subset (x ∷ xs) ys = contains ys x && subset xs ys

  -- `==` on sets
  unfoldable pub set_beq : List A → List A → Bool
  set_beq xs ys = subset xs ys && subset ys xs

  pub contains-insert :
      (xs : List A) (a b : A) → contains (insert xs a) b ≡ (a == b || contains xs b)
  unfolding insert contains
  contains-insert xs a b = ground (arith, e.beq_iff a b)

  pub contains-retain :
      (p : A → Bool) (xs : List A) (a : A) → contains (retain p xs) a ≡ (p a && contains xs a)
  unfolding retain contains
  contains-retain p [] a = ground arith
  contains-retain p (x ∷ xs) a = ground (arith, contains-retain p xs a, e.beq_iff x a)

  pub contains-remove :
      (xs : List A) (a b : A) → contains (remove xs a) b ≡ (not (b == a) && contains xs b)
  unfolding remove
  contains-remove xs a b = contains-retain (λ x. not (x == a)) xs b

  -- Inclusion, as a statement.
  abbrev pub Subset : List A → List A → Type 0
  Subset xs ys = (a : A) → contains xs a ≡ true → contains ys a ≡ true

  pub subset-Subset : (xs ys : List A) → subset xs ys ≡ true → Subset xs ys
  unfolding subset contains
  subset-Subset [] ys h a m = cc
  subset-Subset (x ∷ xs) ys h a m =
      ground (arith, subset-Subset xs ys (ground arith) a, e.beq_iff x a)

  pub Subset-retain : (p : A → Bool) (xs : List A) → Subset (retain p xs) xs
  Subset-retain p xs a m = ground (arith, contains-retain p xs a)

  pub In-contains : {a : A} {xs : List A} → In a xs → contains xs a ≡ true
  unfolding contains
  In-contains {a} (head {x} q) = ground (arith, e.beq_iff x a)
  In-contains {a} (tail {x} m) = ground (arith, In-contains m)

  pub contains-In : (a : A) (xs : List A) → contains xs a ≡ true → In a xs
  unfolding contains
  contains-In a [] h = absurd (ground arith)
  contains-In a (x ∷ xs) h = elim (Bool-cases (x == a)) [
    | inl q ↦ head (sym ((e.beq_iff x a).0 q))
    | inr q ↦ tail (contains-In a xs (ground arith))
  ]

  -- An inclusion that fails, fails at an element.
  pub subset-eq-false :
      (xs ys : List A)
      → subset xs ys ≡ false
      → (a : A) × (contains xs a ≡ true) × (contains ys a ≡ false)
  unfolding subset contains
  subset-eq-false [] ys h = absurd (ground arith)
  subset-eq-false (x ∷ xs) ys h = elim (Bool-cases (contains ys x)) [
    | inl old ↦ let (a, m, n) = subset-eq-false xs ys (ground arith) in (a, ground arith, n)
    | inr new ↦ (x, ground (arith, e.beq_iff x x), new)
  ]

  -- Sets differ at an element of the one that the other lacks.
  pub set_beq-eq-false :
      (xs ys : List A)
      → set_beq xs ys ≡ false
      → Subset xs ys
      → (a : A) × (contains ys a ≡ true) × (contains xs a ≡ false)
  unfolding set_beq
  set_beq-eq-false xs ys h sub = elim (Bool-cases (subset xs ys)) [
    | inl y ↦ subset-eq-false ys xs (ground arith)
    | inr n ↦ let (a, m, l) = subset-eq-false xs ys n in absurd (ground (arith, sub a))
  ]

  pub set_beq-Subset : (xs ys : List A) → set_beq xs ys ≡ true → Subset ys xs
  unfolding set_beq
  set_beq-Subset xs ys h = subset-Subset ys xs (ground arith)
