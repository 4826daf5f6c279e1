-- ===== src/Transfer/Store.antt =====
-- A store through a projection: the first half of `apply_statement`, and
-- `direct_union_field_access` (crates/san/src/analysis/transfer.rs).
use san.Base.{
  ℕ, List, [], ◌∷◌, Bool, true, false, ◌&&◌, not, Option, none, some, if◌then◌else◌, ◌==◌, nat_eq,
  pair_eq, leb, ltb, length,
}
use san.Base.Sets.{insert}
use san.Base.Maps.{lookup, put, erase}
use san.Base.Texts.{Text, is_any}
use Prim.Native.String.{String}
use san.Object.{InitState}
use san.Join.{get_or, extend}
use san.State.Locals.{Local}
use san.State.{BlockState}
use san.State.Tracking.{TrackingDomain}
use san.State.Inits.{InitsDomain}
use san.State.Ownership.{is_empty, escape_local}
use san.Mir.{Place, Ty, Body, adt, raw_ptr, reference, AdtDef, AdtKind, Rvalue, use_of}
use san.Edge.{operand_local}
use san.Facts.{last_simple_field_idx}
use san.Transfer.Owners.{has_deref}

unfoldable pub rvalue_local : Rvalue → Option Local
unfolding operand_local
rvalue_local (use_of op) = operand_local op
rvalue_local _ = none

-- A store into a field of the return place.
unfoldable pub store_return : TrackingDomain → Option Local → TrackingDomain
store_return s none = s
store_return s (some src_local) = elim (lookup s.points_to src_local) [
  | none ↦ s
  | some objs ↦ if is_empty objs then s else record s {
    points_to = put s.points_to 0 (extend (get_or (lookup s.points_to 0) []) objs);
  }
]

-- The field `key` takes over the objects of `src`.
unfoldable pub store_field : TrackingDomain → Local × ℕ → Local → TrackingDomain
store_field s key src = record s {
  points_to = erase s.points_to src;
  field_owned = elim (lookup s.points_to src) [
    | none ↦ erase s.field_owned key
    | some objs ↦ if is_empty objs then erase s.field_owned key else put s.field_owned key objs
  ];
  local_proto = erase s.local_proto src;
  owner_alias = erase s.owner_alias src;
}

unfoldable pub store_source : TrackingDomain → Place → Option Local → TrackingDomain
unfolding store_field escape_local last_simple_field_idx
store_source s dst none = s
store_source s dst (some src) = elim (last_simple_field_idx dst.projection) [
  | some field_idx ↦ store_field s (dst.local, field_idx) src
  | none ↦ escape_local s src
]

unfoldable pub store_objects : TrackingDomain → Place → Rvalue → TrackingDomain
unfolding store_return store_source rvalue_local
store_objects s dst rvalue =
    if dst.local == 0 && not (has_deref dst)
    then store_return s (rvalue_local rvalue)
    else store_source s dst (rvalue_local rvalue)

abbrev pub is_union : AdtKind → Bool
is_union AdtKind.union_kind = true
is_union _ = false

-- The union that a local is, or points to.
abbrev pub union_of : Ty → Option AdtDef
union_of (adt def) = if is_union def.kind then some def else none
union_of (raw_ptr (adt def) mutbl) = if is_union def.kind then some def else none
union_of (reference (adt def) mutbl) = if is_union def.kind then some def else none
union_of _ = none

abbrev pub std_crates : List String
std_crates = "core" ∷ "alloc" ∷ "std" ∷ []

unfoldable pub is_std_crate : Text → Bool
unfolding is_any
is_std_crate krate = is_any krate std_crates

unfoldable pub direct_union_field_access : Place → Body → Option (Local × ℕ)
unfolding is_std_crate last_simple_field_idx
direct_union_field_access place body = elim (union_of (body.ty place.local)) [
  | none ↦ none
  | some union_adt ↦
      if is_std_crate union_adt.crate_name
      then none
      else elim (last_simple_field_idx place.projection) [
        | none ↦ none
        | some field_idx ↦ some (place.local, field_idx)
      ]
]

unfoldable pub set_active : InitsDomain → Option (Local × ℕ) → InitsDomain
set_active s none = s
set_active s (some (union_local, field_idx)) = record s {
  active_variant = put s.active_variant union_local field_idx;
}

-- The number of fields of the struct that a raw pointer points to.
abbrev pub pointee_fields : Ty → Option ℕ
pointee_fields (raw_ptr (adt def) mutbl) = elim def.kind [
  | AdtKind.struct_of n_fields ↦ some n_fields
  | _ ↦ none
]
pointee_fields _ = none

-- One more field of the MaybeUninit local is written; the last one makes it initialised.
unfoldable pub write_mu_field : InitsDomain → Local → ℕ → ℕ → InitsDomain
write_mu_field s mu_local field_i n_fields =
    let written = insert (get_or (lookup s.mu_field_inits mu_local) []) field_i in
    record s {
      mu_field_inits = put s.mu_field_inits mu_local written;
      init =
          if leb n_fields (length written)
          then put s.init mu_local InitState.initialized
          else s.init;
    }

abbrev pub store_mu_struct : InitsDomain → Local → ℕ → Option ℕ → InitsDomain
store_mu_struct s mu_local field_i none = s
store_mu_struct s mu_local field_i (some n_fields) =
    if ltb 0 n_fields then write_mu_field s mu_local field_i n_fields else s

unfoldable pub store_mu_field : InitsDomain → Body → Place → InitsDomain
unfolding write_mu_field last_simple_field_idx
store_mu_field s body dst = elim (last_simple_field_idx dst.projection) [
  | none ↦ s
  | some field_i ↦ elim (lookup s.mu_raw_ptr dst.local) [
    | none ↦ s
    | some mu_local ↦ store_mu_struct s mu_local field_i (pointee_fields (body.ty dst.local))
  ]
]

unfoldable pub store_projection : BlockState → Body → Place → Rvalue → BlockState
unfolding store_objects set_active direct_union_field_access store_mu_field
store_projection s body dst rvalue = record s {
  tracking_domain = store_objects s.tracking_domain dst rvalue;
  inits_domain =
      store_mu_field (set_active s.inits_domain (direct_union_field_access dst body)) body dst;
}
