-- ===== src/Edge/Merge.antt =====
-- Where paths meet, what was proven on all of them stays true: `join_with`
-- (crates/san/src/analysis/state.rs) against the memories of Edge.Memory.
use san.Base.{List, true, ◌≡◌, ◌≢◌, nat_eq, pair_eq, arith, Eq}
use san.Base.Maps.{Map}
use san.State.{BlockState, join_with, StateBelow, join_with-JoinLaws}
use san.State.Locals.{Local}
use san.Join.Meet.{InterBelow, MeetBelow}
use san.Edge.Memory.{Memory, Members, Entries, Upper, Lower}
use san.Edge.Pairs.{EqPair, NePair}
use san.Edge.Bounds.{Within, WithinOrEq, IndexWithin, IndexWithinOrEq, Spare, Full}

-- What the facts that are proven, not conditional, say of a memory.
pub record ProvenHold (m : Memory) (s : BlockState) : Type 0 where
  pub nonzero : Members (λ l. m.value l ≢ 0) s.nonzero
  pub finite : Members (λ l. m.is_finite l ≡ true) s.finite
  pub const_upper : Entries (Upper m) s.const_upper
  pub const_lower : Entries (Lower m) s.const_lower
  pub eq_locals : Members (EqPair m) s.eq_locals
  pub keys_are_ne : Members (NePair m) s.keys_are_ne
  pub bounded : Members (Within m) s.bounded
  pub bounded_or_eq : Members (WithinOrEq m) s.bounded_or_eq
  pub index_bounded_for : Members (IndexWithin m) s.index_bounded_for
  pub index_bounded_or_eq_for : Members (IndexWithinOrEq m) s.index_bounded_or_eq_for
  pub has_spare : Members (Spare m) s.has_spare
  pub is_full : Members (Full m) s.is_full

fewer :
    {A : Type 0} ⦃e : Eq A⦄ {P : A → Type 0} (xs ys : List A)
    → InterBelow xs ys
    → Members P xs
    → Members P ys
fewer xs ys below h a m = h a (below a m)

weaker :
    {V : Type 0} ⦃f : Eq V⦄ {Weaker : V → V → Type 0} {P : Local → V → Type 0} (m n : Map Local V)
    → ((l : Local) (a b : V) → Weaker a b → P l a → P l b)
    → MeetBelow Weaker m n
    → Entries P m
    → Entries P n
weaker m n mono below h l b e = let (a, f, w) = below l b e in mono l a b w (h l a f)

ProvenHold-StateBelow :
    (m : Memory) (s t : BlockState) → StateBelow s t → ProvenHold m s → ProvenHold m t
ProvenHold-StateBelow m s t below h = record {
  nonzero = fewer s.nonzero t.nonzero below.ranges.nonzero h.nonzero;
  finite = fewer s.finite t.finite below.ranges.finite h.finite;
  const_upper =
      weaker s.const_upper t.const_upper (λ l a b w u. omega (arith, w, u)) below.ranges.const_upper
        h.const_upper;
  const_lower =
      weaker s.const_lower t.const_lower (λ l a b w u. omega (arith, w, u)) below.ranges.const_lower
        h.const_lower;
  eq_locals = fewer s.eq_locals t.eq_locals below.pairs.eq_locals h.eq_locals;
  keys_are_ne = fewer s.keys_are_ne t.keys_are_ne below.pairs.keys_are_ne h.keys_are_ne;
  bounded = fewer s.bounded t.bounded below.bounds.bounded h.bounded;
  bounded_or_eq = fewer s.bounded_or_eq t.bounded_or_eq below.bounds.bounded_or_eq h.bounded_or_eq;
  index_bounded_for =
      fewer s.index_bounded_for t.index_bounded_for below.bounds.index_bounded_for
        h.index_bounded_for;
  index_bounded_or_eq_for =
      fewer s.index_bounded_or_eq_for t.index_bounded_or_eq_for below.bounds.index_bounded_or_eq_for
        h.index_bounded_or_eq_for;
  has_spare = fewer s.has_spare t.has_spare below.capacity.has_spare h.has_spare;
  is_full = fewer s.is_full t.is_full below.capacity.is_full h.is_full;
}

-- Where two paths meet, what is proven holds in every memory of either path: the proven facts of the
-- merged state hold in a memory in which those of one of the two states do.
pub join_with-ProvenHold :
    (m : Memory) (s o : BlockState)
    → (ProvenHold m s → ProvenHold m (join_with s o).0)
      × (ProvenHold m o → ProvenHold m (join_with s o).0)
join_with-ProvenHold m s o = (
  ProvenHold-StateBelow m s (join_with s o).0 (join_with-JoinLaws.left s o),
  ProvenHold-StateBelow m o (join_with s o).0 (join_with-JoinLaws.right s o),
)
