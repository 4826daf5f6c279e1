-- ===== src/Join.antt =====
-- The joins that `BlockState::join_with` makes field by field, one function for each shape of
-- its code (crates/san/src/analysis/state.rs). Each returns the merged value and `changed`.
pub mod Laws
pub mod Each
pub mod Meet
use san.Base.{
  ℕ, suc, List, [], ◌∷◌, Bool, true, false, ◌&&◌, ◌||◌, not, Option, none, some, if◌then◌else◌, Eq,
  ◌==◌, nat_eq, length, max, min,
}
use san.Base.Sets.{contains, insert, retain, set_beq}
use san.Base.Maps.{Map, lookup, put, filter_map, map_ne}

abbrev pub get_or : {A : Type 0} → Option A → A → A
get_or none d = d
get_or (some a) d = a

-- `for x in other { changed |= step(x) }`
unfoldable pub join_each : {S E : Type 0} → (S → E → S × Bool) → S → List E → S × Bool
join_each step s [] = (s, false)
join_each step s (x ∷ o) = let (t, c) = step s x in let (u, d) = join_each step t o in (u, c || d)

module _ {A : Type 0} ⦃e : Eq A⦄ where
  -- INTERSECTION of sets
  unfoldable pub join_inter : List A → List A → List A × Bool
  join_inter s o =
      let kept = retain (contains o) s in if not (set_beq kept s) then (kept, true) else (s, false)

  -- `insert`, with its result
  unfoldable pub insert_new : List A → A → List A × Bool
  insert_new xs a = if contains xs a then (xs, false) else (a ∷ xs, true)

  -- UNION of sets
  unfoldable pub join_union : List A → List A → List A × Bool
  unfolding join_each insert_new
  join_union = join_each insert_new

  -- the loop that inserts the elements of `other`'s set
  unfoldable pub extend : List A → List A → List A
  extend xs [] = xs
  extend xs (y ∷ ys) = extend (insert xs y) ys

module _ {K V : Type 0} ⦃e : Eq K⦄ where
  -- `entry(k).or_insert_with(|| { changed = true; v })`
  unfoldable pub or_insert : Map K V → K × V → Map K V × Bool
  or_insert m (k, v) = elim (lookup m k) [ none ↦ (put m k v, true) | some _ ↦ (m, false) ]

  -- UNION of maps: the entry that is there first stays
  unfoldable pub join_or_insert : Map K V → Map K V → Map K V × Bool
  unfolding join_each or_insert
  join_or_insert = join_each or_insert

  -- the entry of `k`, joined with `v`
  unfoldable pub join_entry : ⦃f : Eq V⦄ → (V → V → V) → Map K V → K × V → Map K V × Bool
  unfolding or_insert
  join_entry join m (k, v) =
      let (m', inserted) = or_insert m (k, v) in
      let entry = get_or (lookup m' k) v in
      let joined = join entry v in
      if joined == entry then (m', inserted) else (put m' k joined, true)

  -- join of the values, key by key
  unfoldable pub join_values : ⦃f : Eq V⦄ → (V → V → V) → Map K V → Map K V → Map K V × Bool
  unfolding join_each join_entry
  join_values join = join_each (join_entry join)

  -- the entry of `k`, or the empty set, with the elements of `xs` added
  unfoldable pub extend_entry : ⦃f : Eq V⦄ → Map K (List V) → K × List V → Map K (List V) × Bool
  unfolding extend
  extend_entry m (k, xs) =
      let before = get_or (lookup m k) [] in
      let after = extend before xs in (put m k after, not (length after == length before))

  -- UNION of sets, key by key
  unfoldable pub join_sets : ⦃f : Eq V⦄ → Map K (List V) → Map K (List V) → Map K (List V) × Bool
  unfolding join_each extend_entry
  join_sets = join_each extend_entry

abbrev pub both : {V : Type 0} → (V → V → Option V) → V → Option V → Option V
both merge a none = none
both merge a (some b) = merge a b

-- The entries of both maps whose values `merge` to something.
module _ {K V : Type 0} ⦃e : Eq K⦄ ⦃f : Eq V⦄ where
  unfoldable pub join_meet : (V → V → Option V) → Map K V → Map K V → Map K V × Bool
  join_meet merge s o =
      let kept = filter_map (λ k a. both merge a (lookup o k)) s in
      if map_ne kept s then (kept, true) else (s, false)

-- INTERSECTION with agreement
abbrev pub agree : {V : Type 0} ⦃f : Eq V⦄ → V → V → Option V
agree a b = if b == a then some a else none

-- INTERSECTION of keys, MAX of values
abbrev pub weaker_upper : ℕ → ℕ → Option ℕ
weaker_upper a b = some (max a b)

-- INTERSECTION of keys, MIN of values
abbrev pub weaker_lower : ℕ → ℕ → Option ℕ
weaker_lower a b = some (min a b)

-- INTERSECTION of field sets
abbrev pub common_fields : List ℕ → List ℕ → Option (List ℕ)
common_fields a b = some (retain (contains b) a)

-- OR of flags
unfoldable pub join_flag : Bool → Bool → Bool × Bool
join_flag s o = if o && not s then (true, true) else (s, false)
