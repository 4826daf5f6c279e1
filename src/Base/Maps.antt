-- ===== src/Base/Maps.antt =====
-- `HashMap`: an association list, read through `lookup`. An iteration meets each key once, so
-- the functions below that walk a map drop the later entries of a key that they have met.
use san.Base.Tests.{Eq, ◌==◌, if◌then◌else◌, Bool-cases, opt_beq, opt_beq_iff}
use mathlib.Core.Path.{◌≡◌, refl}
use mathlib.Core.Bool.{Bool, true, false, ◌||◌, not}
use mathlib.Core.Logic.{◌≢◌, inl, inr}
use san.Base.Sets.{contains}
use san.Base.Lists.{In, head, tail}
use mathlib.Core.Option.{Option, none, some}
use mathlib.Core.List.{List, [], ◌∷◌}
use native.Mathlib.Omega.{arith}

abbrev pub Map : Type 0 → Type 0 → Type 0
Map K V = List (K × V)

module _ {K V : Type 0} ⦃e : Eq K⦄ where
  -- `get`
  unfoldable pub lookup : Map K V → K → Option V
  lookup [] k = none
  lookup ((j, v) ∷ m) k = if j == k then some v else lookup m k

  unfoldable pub contains_key : Map K V → K → Bool
  contains_key m k = elim (lookup m k) [ none ↦ false | some _ ↦ true ]

  -- `remove`
  unfoldable pub erase : Map K V → K → Map K V
  erase [] k = []
  erase ((j, v) ∷ m) k = if j == k then erase m k else (j, v) ∷ erase m k

  unfoldable pub put : Map K V → K → V → Map K V
  put m k v = (k, v) ∷ erase m k

  pub lookup-erase :
      (m : Map K V) (k j : K) → lookup (erase m k) j ≡ (if k == j then none else lookup m j)
  unfolding lookup erase
  lookup-erase [] k j = ground arith
  lookup-erase ((i, v) ∷ m) k j =
      ground (arith, lookup-erase m k j, e.beq_iff i j, e.beq_iff k j, e.beq_iff i k)

  pub lookup-put :
      (m : Map K V) (k : K) (v : V) (j : K)
      → lookup (put m k v) j ≡ (if k == j then some v else lookup m j)
  unfolding lookup put
  lookup-put m k v j = ground (arith, lookup-erase m k j)

  pub lookup-put_self : (m : Map K V) (k : K) (v : V) → lookup (put m k v) k ≡ some v
  lookup-put_self m k v = ground (arith, lookup-put m k v k, e.beq_iff k k)

  pub lookup-In : (m : Map K V) (k : K) {v : V} → lookup m k ≡ some v → In (k, v) m
  unfolding lookup
  lookup-In [] k h = absurd (ground arith)
  lookup-In ((j, w) ∷ m) k h = elim (Bool-cases (j == k)) [
    | inl same ↦ head (ground (arith, e.beq_iff j k))
    | inr other ↦ tail (lookup-In m k (ground arith))
  ]

module _ {K V W : Type 0} ⦃e : Eq K⦄ where
  -- `iter().filter_map(f).collect()`, where `f` keeps the key
  unfoldable pub filter_map : (K → V → Option W) → Map K V → Map K W
  filter_map f [] = []
  filter_map f ((k, v) ∷ m) =
      let rest = erase (filter_map f m) k in elim (f k v) [ none ↦ rest | some w ↦ (k, w) ∷ rest ]

  pub lookup-filter_map :
      (f : K → V → Option W) (m : Map K V) (k : K)
      → lookup (filter_map f m) k ≡ elim (lookup m k) [ none ↦ none | some v ↦ f k v ]
  unfolding filter_map lookup
  lookup-filter_map f [] k = refl
  lookup-filter_map f ((j, v) ∷ m) k =
      ground (arith, lookup-filter_map f m k, e.beq_iff j k, lookup-erase (filter_map f m) j k)

module _ {K V : Type 0} ⦃e : Eq K⦄ ⦃f : Eq V⦄ where
  -- Some key of the list has other values in the two maps.
  unfoldable pub differs : Map K V → Map K V → List K → Bool
  differs m n [] = false
  differs m n (k ∷ ks) = not (opt_beq (lookup m k) (lookup n k)) || differs m n ks

  unfoldable pub keys : Map K V → List K
  keys [] = []
  keys ((k, v) ∷ m) = k ∷ keys m

  -- `!=` on maps
  unfoldable pub map_ne : Map K V → Map K V → Bool
  map_ne m n = differs m n (keys m) || differs m n (keys n)

  differs-eq-true :
      (m n : Map K V) (ks : List K) → differs m n ks ≡ true → (k : K) × (lookup m k ≢ lookup n k)
  unfolding differs
  differs-eq-true m n [] h = absurd (ground arith)
  differs-eq-true m n (k ∷ ks) h = elim (Bool-cases (opt_beq (lookup m k) (lookup n k))) [
    | inl same ↦ differs-eq-true m n ks (rw same at h)
    | inr other ↦ (k, λ q. absurd (ground (arith, opt_beq_iff (lookup m k) (lookup n k))))
  ]

  differs-eq-false :
      (m n : Map K V) (ks : List K) (k : K)
      → differs m n ks ≡ false
      → contains ks k ≡ true
      → lookup m k ≡ lookup n k
  unfolding differs contains
  differs-eq-false m n [] k h c = absurd (ground arith)
  differs-eq-false m n (j ∷ ks) k h c =
      ground
        (arith, e.beq_iff j k, opt_beq_iff (lookup m j) (lookup n j), differs-eq-false m n ks k)

  pub lookup-keys : (m : Map K V) (k : K) → contains (keys m) k ≡ false → lookup m k ≡ none
  unfolding contains keys lookup
  lookup-keys [] k h = refl
  lookup-keys ((j, v) ∷ m) k h = ground (arith, lookup-keys m k)

  -- Maps that compare unequal differ at a key.
  pub map_ne-eq-true : (m n : Map K V) → map_ne m n ≡ true → (k : K) × (lookup m k ≢ lookup n k)
  unfolding map_ne
  map_ne-eq-true m n h = elim (Bool-cases (differs m n (keys m))) [
    | inl y ↦ differs-eq-true m n (keys m) y
    | inr no_diff ↦ differs-eq-true m n (keys n) (rw no_diff at h)
  ]

  -- Maps that compare equal have the same entries.
  pub map_ne-eq-false : (m n : Map K V) → map_ne m n ≡ false → (k : K) → lookup m k ≡ lookup n k
  unfolding map_ne
  map_ne-eq-false m n h k = ground (
    arith,
    differs-eq-false m n (keys m) k,
    differs-eq-false m n (keys n) k,
    lookup-keys m k,
    lookup-keys n k,
    Bool-cases (contains (keys m) k),
    Bool-cases (contains (keys n) k),
  )
