-- ===== src/Transfer/Reads.antt =====
-- An assignment from a field, an address, an aggregate, a cast or a constant (`apply_statement` of
-- crates/san/src/analysis/transfer.rs).
use san.Base.{
  ℕ, List, [], ◌∷◌, Bool, true, false, ◌&&◌, ◌||◌, not, Option, none, some, if◌then◌else◌, ◌==◌,
  nat_eq, pair_eq, all,
}
use san.Base.Sets.{contains, insert, remove}
use san.Base.Maps.{Map, lookup, put, erase}
use san.Object.{ObjectId}
use san.Join.{get_or, extend}
use san.State.Locals.{Local}
use san.State.{BlockState}
use san.State.Tracking.{TrackingDomain}
use san.State.Bounds.{BoundsDomain}
use san.State.Ranges.{RangesDomain}
use san.State.Inits.{InitsDomain}
use san.State.Ownership.{is_empty}
use san.Mir.{ProjectionElem, Place, Operand, Ty, raw_ptr, mutable, shared, Body, AggregateKind}
use san.Edge.{operand_local, tighten_upper}
use san.Facts.{is_deref, last_simple_field_idx, uint_type_max}
use san.Transfer.Clear.{on_tracking, clear_proto_facts}
use san.Transfer.Store.{is_std_crate}

-- `if let Some(objs) = found { points_to.insert(dst, objs) } else { points_to.remove(&dst) }`
unfoldable pub assign_objects : Local → Option (List ObjectId) → TrackingDomain → TrackingDomain
assign_objects dst none s = record s { points_to = erase s.points_to dst }
assign_objects dst (some objs) s = record s { points_to = put s.points_to dst objs }

-- The same, where an empty set counts as untracked.
abbrev pub some_nonempty : Option (List ObjectId) → Option (List ObjectId)
some_nonempty none = none
some_nonempty (some objs) = if is_empty objs then none else some objs

-- A projection with at most one dereference, which stands first.
unfoldable pub is_field_read : List ProjectionElem → Bool
is_field_read [] = false
is_field_read (e ∷ rest) = all (λ x. not (is_deref x)) rest

-- The objects that a field holds: those of the base, or those stored into the field.
unfoldable pub field_objects : TrackingDomain → Place → Option (List ObjectId)
unfolding last_simple_field_idx
field_objects s src = elim (lookup s.points_to src.local) [
  | some objs ↦ some objs
  | none ↦ elim (last_simple_field_idx src.projection) [
    | none ↦ none
    | some field_idx ↦ lookup s.field_owned (src.local, field_idx)
  ]
]

-- `dst = src.field`
unfoldable pub read_field : BlockState → Local → Place → BlockState
unfolding assign_objects field_objects clear_proto_facts
read_field s dst src =
    let c =
      clear_proto_facts dst
        (on_tracking (assign_objects dst (field_objects s.tracking_domain src)) s) in
    let tainted = c.taints_domain.mul_overflow in
    record c {
      taints_domain = record c.taints_domain {
        mul_overflow =
            if contains tainted src.local then insert tainted dst else remove tainted dst;
      };
    }

-- `dst = &base`, `dst = &raw const base` and `dst = &raw const (*base)`
unfoldable pub read_address : BlockState → Local → Local → BlockState
unfolding assign_objects clear_proto_facts
read_address s dst base =
    clear_proto_facts dst
      (on_tracking (assign_objects dst (some_nonempty (lookup s.tracking_domain.points_to base))) s)

unfoldable pub operand_objects : TrackingDomain → List Operand → List ObjectId
unfolding operand_local
operand_objects s [] = []
operand_objects s (op ∷ ops) = elim (operand_local op) [
  | none ↦ operand_objects s ops
  | some l ↦ extend (get_or (lookup s.points_to l) []) (operand_objects s ops)
]

-- `operands.iter().map(operand_local).collect::<Option<Vec<_>>>()`
unfoldable pub all_locals : List Operand → Option (List Local)
unfolding operand_local
all_locals [] = some []
all_locals (op ∷ ops) = elim (operand_local op) [
  | none ↦ none
  | some l ↦ elim (all_locals ops) [ none ↦ none | some ls ↦ some (l ∷ ls) ]
]

unfoldable pub set_variant : InitsDomain → Local → AggregateKind → InitsDomain
unfolding is_std_crate
set_variant s dst (AggregateKind.adt_kind krate (some active_field)) =
    if is_std_crate krate
    then s
    else record s { active_variant = put s.active_variant dst active_field }
set_variant s dst _ = s

abbrev pub is_indexed : AggregateKind → Bool
is_indexed AggregateKind.array = true
is_indexed AggregateKind.tuple_kind = true
is_indexed _ = false

abbrev pub set_components : BoundsDomain → Local → Option (List Local) → BoundsDomain
set_components s dst none = s
set_components s dst (some comps) =
    if is_empty comps then s else record s { array_components = put s.array_components dst comps }

unfoldable pub build_aggregate : BlockState → Local → AggregateKind → List Operand → BlockState
unfolding assign_objects operand_objects clear_proto_facts set_variant all_locals
build_aggregate s dst kind operands =
    let agg_objs = operand_objects s.tracking_domain operands in
    let c =
      clear_proto_facts dst (on_tracking (assign_objects dst (some_nonempty (some agg_objs))) s) in
    record c {
      inits_domain = set_variant c.inits_domain dst kind;
      bounds_domain =
          if is_indexed kind
          then set_components c.bounds_domain dst (all_locals operands)
          else c.bounds_domain;
    }

abbrev pub is_mut_ptr : Ty → Bool
is_mut_ptr (raw_ptr t mutable) = true
is_mut_ptr _ = false

abbrev pub is_const_ptr : Ty → Bool
is_const_ptr (raw_ptr t shared) = true
is_const_ptr _ = false

-- `CastKind::PtrToPtr` and `CastKind::Transmute`
unfoldable pub cast_pointer : BlockState → Body → Local → Local → Ty → BlockState
unfolding assign_objects clear_proto_facts
cast_pointer s body dst src dst_ptr_ty =
    let c =
      clear_proto_facts dst
        (on_tracking (assign_objects dst (lookup s.tracking_domain.points_to src)) s) in
    let tainted = c.taints_domain.const_ptr_cast in
    record c {
      taints_domain = record c.taints_domain {
        const_ptr_cast =
            if is_mut_ptr dst_ptr_ty && (is_const_ptr (body.ty src) || contains tainted src)
            then insert tainted dst
            else tainted;
      };
    }

abbrev pub tighten_some : Map Local ℕ → Local → Option ℕ → Map Local ℕ
tighten_some m dst none = m
tighten_some m dst (some k) = tighten_upper m dst k

-- `CastKind::IntToInt`
unfoldable pub cast_int : RangesDomain → Local → Local → Ty → RangesDomain
unfolding uint_type_max tighten_upper
cast_int s dst src cast_dst_ty =
    let typed = tighten_some s.const_upper dst (uint_type_max cast_dst_ty) in
    record s {
      nonzero = if contains s.nonzero src then insert s.nonzero dst else s.nonzero;
      const_upper = tighten_some typed dst (lookup typed src);
    }

-- The casts between numbers.
unfoldable pub cast_number : BlockState → Local → Local → Bool → Ty → BlockState
unfolding cast_int
cast_number s dst src int_to_int cast_dst_ty = record s {
  pairs_domain = record s.pairs_domain { cast_origin = put s.pairs_domain.cast_origin dst src };
  ranges_domain =
      if int_to_int then cast_int s.ranges_domain dst src cast_dst_ty else s.ranges_domain;
}

abbrev pub set_const : RangesDomain → Local → Option ℕ → RangesDomain
set_const s dst none = s
set_const s dst (some val) = record s {
  nonzero = if val == 0 then remove s.nonzero dst else insert s.nonzero dst;
  const_upper = put s.const_upper dst val;
  const_lower = put s.const_lower dst val;
}

-- `dst` points to no object, and no fact is known of it.
unfoldable pub untrack : Local → BlockState → BlockState
unfolding assign_objects clear_proto_facts
untrack dst s = clear_proto_facts dst (on_tracking (assign_objects dst none) s)

-- `dst = const val`
unfoldable pub assign_const : BlockState → Local → Option ℕ → BlockState
unfolding untrack
assign_const s dst val =
    untrack dst (record s { ranges_domain = set_const s.ranges_domain dst val })

-- The base of a projected move, and the field that it empties.
unfoldable pub empty_base : BlockState → Place → BlockState
unfolding untrack last_simple_field_idx
empty_base s src =
    let emptied =
      on_tracking
        (λ t. record t {
          field_owned = elim (last_simple_field_idx src.projection) [
            | none ↦ t.field_owned
            | some field_idx ↦ erase t.field_owned (src.local, field_idx)
          ];
        })
        s in
    untrack src.local emptied
