-- ===== src/State/Proven.antt =====
-- The methods of `BlockState` that read what is proven of a local
-- (crates/san/src/analysis/state.rs).
use san.Base.{
  ℕ, List, Bool, true, false, ◌&&◌, ◌||◌, not, Option, none, some, if◌then◌else◌, ◌==◌, nat_eq,
  pair_eq, leb, ltb, all,
}
use san.Base.Sets.{contains}
use san.Base.Maps.{lookup}
use san.Object.{InitState}
use san.Join.{get_or}
use san.State.Locals.{Local}
use san.State.Inits.{InitsDomain}
use san.State.Bounds.{BoundsDomain}
use san.State.Capacity.{CapacityDomain}
use san.State.Ranges.{RangesDomain}
use san.State.Pairs.{PairsDomain}
use san.State.Taints.{TaintsDomain}
use san.State.Ownership.{some_and, is_empty}

unfoldable pub local_is_bounded : BoundsDomain → Local → Bool
local_is_bounded s local = contains s.bounded local

unfoldable pub local_is_bounded_or_eq : BoundsDomain → Local → Bool
local_is_bounded_or_eq s local = contains s.bounded local || contains s.bounded_or_eq local

unfoldable pub collection_has_spare : CapacityDomain → Local → Bool
collection_has_spare s local = contains s.has_spare local

unfoldable pub local_is_nonzero : RangesDomain → Local → Bool
local_is_nonzero s local =
    contains s.nonzero local || some_and (λ lb. leb 1 lb) (lookup s.const_lower local)

unfoldable pub local_is_finite : RangesDomain → Local → Bool
local_is_finite s local = contains s.finite local

-- The bounds are 0x10FFFF, 0xD800 and 0xDFFF.
unfoldable pub local_is_valid_scalar : RangesDomain → Local → Bool
local_is_valid_scalar s local =
    let upper = lookup s.const_upper local in
    let lower = lookup s.const_lower local in
    let in_range = some_and (λ u. leb u 1114111) upper in
    let below_surrogates = some_and (λ u. ltb u 55296) upper in
    let above_surrogates = some_and (λ l. ltb 57343 l) lower in
    if not in_range then false else below_surrogates || above_surrogates

unfoldable pub local_is_ascii : RangesDomain → Local → Bool
local_is_ascii s local = some_and (λ ub. leb ub 127) (lookup s.const_upper local)

unfoldable pub index_is_bounded_for : BoundsDomain → Local → Local → Bool
index_is_bounded_for s idx coll = contains s.index_bounded_for (idx, coll)

unfoldable pub index_is_bounded_or_eq_for : BoundsDomain → Local → Local → Bool
index_is_bounded_or_eq_for s idx coll = contains s.index_bounded_or_eq_for (idx, coll)

unfoldable pub local_upper_bound : RangesDomain → Local → Option ℕ
local_upper_bound s local = lookup s.const_upper local

unfoldable pub local_lower_bound : RangesDomain → Local → Option ℕ
local_lower_bound s local = lookup s.const_lower local

unfoldable pub collection_is_full : CapacityDomain → Local → Bool
collection_is_full s local = contains s.is_full local

unfoldable pub deref_base : CapacityDomain → Local → Local
deref_base s local = get_or (lookup s.ref_base local) local

-- The closure `canon`.
abbrev pub canon : Local → Local → Local × Local
canon x y = if leb x y then (x, y) else (y, x)

-- The `match` on the origins of both locals: its arms in their order.
unfoldable pub origins_are_eq :
    List (Local × Local) → Local → Local → Option Local → Option Local → Bool
origins_are_eq eqs a b none none = false
origins_are_eq eqs a b (some sa) none = if sa == b then true else contains eqs (canon sa b)
origins_are_eq eqs a b none (some sb) = if sb == a then true else contains eqs (canon a sb)
origins_are_eq eqs a b (some sa) (some sb) =
    if sa == b
    then true
    else if sb == a
    then true
    else if sa == sb
    then true
    else contains eqs (canon sa b)

unfoldable pub locals_are_eq : PairsDomain → Local → Local → Bool
unfolding origins_are_eq
locals_are_eq s a b =
    if a == b
    then true
    else if contains s.eq_locals (canon a b)
    then true
    else origins_are_eq s.eq_locals a b (lookup s.cast_origin a) (lookup s.cast_origin b)

-- The `match` on the referents of both locals: its arms in their order.
unfoldable pub referents_are_ne :
    List (Local × Local) → Local → Local → Option Local → Option Local → Bool
referents_are_ne nes a b none none = false
referents_are_ne nes a b (some sa) none = contains nes (canon sa b)
referents_are_ne nes a b none (some sb) = contains nes (canon a sb)
referents_are_ne nes a b (some sa) (some sb) =
    if contains nes (canon sa b)
    then true
    else if contains nes (canon a sb)
    then true
    else contains nes (canon sa sb)

-- `ref_base` is in another domain than `keys_are_ne`.
unfoldable pub locals_are_ne : PairsDomain → CapacityDomain → Local → Local → Bool
unfolding referents_are_ne
locals_are_ne s refs a b =
    if contains s.keys_are_ne (canon a b)
    then true
    else referents_are_ne s.keys_are_ne a b (lookup refs.ref_base a) (lookup refs.ref_base b)

unfoldable pub array_components_of : BoundsDomain → Local → Option (List Local)
array_components_of s local = lookup s.array_components local

unfoldable pub index_is_fully_bounded : BoundsDomain → Local → Bool
unfolding local_is_bounded
index_is_fully_bounded s local = elim (lookup s.array_components local) [
  | some components ↦ not (is_empty components) && all (local_is_bounded s) components
  | none ↦ local_is_bounded s local
]

unfoldable pub fd_was_transferred : TaintsDomain → Local → Bool
fd_was_transferred s local = contains s.fd_origin local

abbrev is_initialized : InitState → Bool
is_initialized InitState.initialized = true
is_initialized InitState.unknown = false

unfoldable pub local_is_maybeuninit_initialized : InitsDomain → Local → Bool
local_is_maybeuninit_initialized s local = some_and is_initialized (lookup s.init local)

unfoldable pub fd_is_consumed : TaintsDomain → Local → Bool
fd_is_consumed s local = contains s.fd_consumed local
