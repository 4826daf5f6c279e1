-- ===== src/Transfer/Owners.antt =====
-- Whose buffer a pointer points into, and which function a function pointer calls:
-- `update_owner_alias`, `update_fn_ptr_target`, `invalidate_owner_args`
-- (crates/san/src/analysis/transfer.rs).
use san.Base.{
  ℕ, ◌+◌, List, [], ◌∷◌, Bool, true, false, ◌&&◌, ◌||◌, Option, none, some, if◌then◌else◌, opt_beq,
  nat_eq, list_eq, leb, any,
}
use san.Base.Sets.{contains, insert}
use san.Base.Maps.{Map, lookup, put, erase, keys, contains_key}
use san.Join.{extend}
use san.State.Locals.{Local, DefId}
use san.State.Tracking.{TrackingDomain}
use san.State.Ownership.{owners_of, invalidate_owner, escape_local, is_empty}
use san.Mir.{
  ProjectionElem, field, Place, Operand, copy, move, constant, Ty, Body, int, float, bool, char,
  uint, reference, mutable, CastKind, Rvalue, use_of, ref_to, raw_ptr_to, cast, aggregate,
}
use san.Edge.{operand_local}
use san.Facts.{is_deref}
use san.Summary.{is_raw_ptr}
use san.Summary.Apply.{is_reference_param}

abbrev pub is_field : ProjectionElem → Bool
is_field (field i) = true
is_field _ = false

abbrev pub has_deref : Place → Bool
has_deref p = any is_deref p.projection

abbrev pub has_field : Place → Bool
has_field p = any is_field p.projection

unfoldable pub is_param : Body → Local → Bool
is_param body local = leb 1 local && leb local body.arg_count

abbrev pub is_mutable_ref_ty : Ty → Bool
is_mutable_ref_ty (reference t mutable) = true
is_mutable_ref_ty _ = false

-- `Operand::place`
abbrev pub operand_place : Operand → Option Place
operand_place (copy p) = some p
operand_place (move p) = some p
operand_place (constant c) = none

-- `func.const_fn_def()`
abbrev pub const_fn_def : Operand → Option DefId
const_fn_def (constant c) = c.fn_def
const_fn_def _ = none

-- The place that the pointer assigned by `rvalue` is read from.
unfoldable pub alias_source : Rvalue → Option Place
alias_source (use_of op) = operand_place op
alias_source (ref_to p) = some p
alias_source (raw_ptr_to p) = some p
alias_source (cast kind op ty) = operand_place op
alias_source _ = none

-- Types whose values point into no buffer.
abbrev pub is_scalar_ty : Ty → Bool
is_scalar_ty int = true
is_scalar_ty (uint w) = true
is_scalar_ty float = true
is_scalar_ty bool = true
is_scalar_ty char = true
is_scalar_ty _ = false

-- The owners of all operands together.
unfoldable pub operand_owners : TrackingDomain → List Operand → List Local
unfolding operand_local owners_of
operand_owners s [] = []
operand_owners s (op ∷ ops) = elim (operand_local op) [
  | none ↦ operand_owners s ops
  | some l ↦ extend (owners_of s l) (operand_owners s ops)
]

-- `if owners.is_empty() { owner_alias.remove(&dst) } else { owner_alias.insert(dst, owners) }`
unfoldable pub assign_owners : Map Local (List Local) → Local → List Local → Map Local (List Local)
assign_owners aliases dst owners =
    if is_empty owners then erase aliases dst else put aliases dst owners

-- The owners that a pointer read from `place` aliases.
unfoldable pub place_owners : TrackingDomain → Body → Place → List Local
unfolding is_reference_param is_param
place_owners s body place = elim (lookup s.owner_alias place.local) [
  | some existing ↦ existing
  | none ↦
      if has_deref place && is_reference_param body place.local
        || has_field place && is_param body place.local
      then place.local ∷ []
      else []
]

-- `owner_alias` after a pointer is read from a place, or from none.
unfoldable pub alias_place : TrackingDomain → Body → Local → Option Place → Map Local (List Local)
unfolding place_owners assign_owners
alias_place s body dst none = erase s.owner_alias dst
alias_place s body dst (some place) =
    if is_scalar_ty (body.ty dst)
    then erase s.owner_alias dst
    else assign_owners s.owner_alias dst (place_owners s body place)

unfoldable pub update_owner_alias : TrackingDomain → Body → Local → Rvalue → TrackingDomain
unfolding operand_owners assign_owners alias_place alias_source
update_owner_alias s body dst (aggregate kind operands) = record s {
  owner_alias = assign_owners s.owner_alias dst (operand_owners s operands);
}
update_owner_alias s body dst rvalue = record s {
  owner_alias = alias_place s body dst (alias_source rvalue);
}

-- The function that the value of `rvalue` is known to point to.
unfoldable pub fn_target : TrackingDomain → Rvalue → Option DefId
unfolding operand_local
fn_target s (cast CastKind.reify_fn_pointer op ty) = const_fn_def op
fn_target s (use_of op) = elim (operand_local op) [
  | none ↦ none
  | some l ↦ lookup s.fn_ptr_targets l
]
fn_target s _ = none

unfoldable pub update_fn_ptr_target : TrackingDomain → Local → Rvalue → TrackingDomain
unfolding fn_target
update_fn_ptr_target s dst rvalue = record s {
  fn_ptr_targets = elim (fn_target s rvalue) [
    | some did ↦ put s.fn_ptr_targets dst did
    | none ↦ erase s.fn_ptr_targets dst
  ];
}

-- `owner_alias.values().flatten()` contains `l`.
unfoldable pub is_live_owner : TrackingDomain → Local → Bool
unfolding owners_of
is_live_owner s l = any (λ p. contains (owners_of s p) l) (keys s.owner_alias)

-- The owners that the argument `arg`, which stands at position `i`, lets a callee reassign.
unfoldable pub exposed_owners : TrackingDomain → Body → Option ℕ → ℕ → Operand → List Local
unfolding is_live_owner owners_of
exposed_owners s body skip_arg i arg =
    if opt_beq (some i) skip_arg then [] else elim (operand_place arg) [
      | none ↦ []
      | some p ↦
          if is_mutable_ref_ty (body.ty p.local)
          then if is_live_owner s p.local
            then insert (owners_of s p.local) p.local
            else owners_of s p.local
          else []
    ]

-- `to_invalidate`, over the arguments from position `i` on
unfoldable pub to_invalidate : TrackingDomain → Body → Option ℕ → ℕ → List Operand → List Local
unfolding exposed_owners
to_invalidate s body skip_arg i [] = []
to_invalidate s body skip_arg i (arg ∷ args) =
    extend (exposed_owners s body skip_arg i arg) (to_invalidate s body skip_arg (i + 1) args)

unfoldable pub invalidate_owners : TrackingDomain → List Local → TrackingDomain
unfolding invalidate_owner
invalidate_owners s [] = s
invalidate_owners s (o ∷ os) = invalidate_owners (invalidate_owner s o) os

unfoldable pub invalidate_owner_args :
    TrackingDomain → Body → List Operand → Option ℕ → TrackingDomain
unfolding to_invalidate invalidate_owners
invalidate_owner_args s body args skip_arg =
    invalidate_owners s (to_invalidate s body skip_arg 0 args)

-- The raw pointers, and the locals that point to objects, among the arguments of an opaque call.
unfoldable pub escape_raw_ptr_args : TrackingDomain → Body → List Operand → TrackingDomain
unfolding operand_local escape_local
escape_raw_ptr_args s body [] = s
escape_raw_ptr_args s body (arg ∷ args) =
    escape_raw_ptr_args
      (elim (operand_local arg) [
        | none ↦ s
        | some l ↦
            if is_raw_ptr (body.ty l) || contains_key s.points_to l then escape_local s l else s
      ])
      body args
