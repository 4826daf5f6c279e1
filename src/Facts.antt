-- ===== src/Facts.antt =====
-- Facts that a comparison or a type gives: `record_spare`, `record_full`, `enforce_type_facts`,
-- `seed_param_type_facts`, and how arguments and fields are read off MIR
-- (crates/san/src/analysis/transfer.rs).
pub mod Types
pub mod Lengths
use san.Base.{
  ℕ, zero, suc, ◌+◌, ◌-◌, ◌^◌, List, [], ◌∷◌, ◌++◌, Bool, true, false, ◌&&◌, ◌||◌, not, Option,
  none, some, if◌then◌else◌, ◌==◌, nat_eq, any,
}
use san.Base.Sets.{insert}
use san.Base.Maps.{Map, lookup, put}
use Prim.Native.String.{String}
use san.Base.Texts.{Text, has_any}
use san.State.Locals.{Local}
use san.State.Capacity.{CapacityDomain}
use san.State.Ranges.{RangesDomain}
use san.Mir.{
  ProjectionElem, deref, field, Place, Operand, copy, move, constant, UintTy, usize, u8, u16, u32,
  u64, u128, Ty, bool, char, uint, adt, Body,
}
use san.Edge.{operand_local, tighten_upper, u64_max}

-- Whether `d` tells that the collection has spare capacity, on the one or the other branch.
unfoldable pub insert_spare : CapacityDomain → Local → Bool → Local → CapacityDomain
insert_spare s dst true coll = record s { spare_if_true = put s.spare_if_true dst coll }
insert_spare s dst false coll = record s { spare_if_false = put s.spare_if_false dst coll }

unfoldable pub insert_full : CapacityDomain → Local → Bool → Local → CapacityDomain
insert_full s dst true coll = record s { full_if_true = put s.full_if_true dst coll }
insert_full s dst false coll = record s { full_if_false = put s.full_if_false dst coll }

-- The collection that both locals belong to.
abbrev pub same_coll : Option Local → Option Local → Option Local
same_coll (some cl) (some cc) = if cl == cc then some cl else none
same_coll _ _ = none

abbrev pub swapped : Bool → Local × Local → Local × Local
swapped true (a, b) = (b, a)
swapped false p = p

abbrev pub both_locals : Option Local → Option Local → Option (Local × Local)
both_locals (some a) (some b) = some (a, b)
both_locals _ _ = none

unfoldable pub record_spare :
    CapacityDomain → Local → Operand → Operand → Bool → Bool → CapacityDomain
unfolding operand_local insert_spare
record_spare s dst op1 op2 on_true cap_first =
    elim (both_locals (operand_local op1) (operand_local op2)) [
      | none ↦ s
      | some p ↦
          let (len_l, cap_l) = swapped cap_first p in
          elim (same_coll (lookup s.len_of len_l) (lookup s.cap_of cap_l)) [
            | none ↦ s
            | some cl ↦ insert_spare s dst on_true cl
          ]
    ]

-- `(len, cap)` or `(cap, len)`
abbrev pub or_else : Option Local → Option Local → Option Local
or_else none o = o
or_else (some c) o = some c

unfoldable pub full_coll : CapacityDomain → Local → Local → Option Local
full_coll s a b =
    or_else (same_coll (lookup s.len_of a) (lookup s.cap_of b))
      (same_coll (lookup s.len_of b) (lookup s.cap_of a))

unfoldable pub record_full : CapacityDomain → Local → Operand → Operand → Bool → CapacityDomain
unfolding operand_local insert_full full_coll
record_full s dst op1 op2 on_true = elim (both_locals (operand_local op1) (operand_local op2)) [
  | none ↦ s
  | some (a, b) ↦ elim (full_coll s a b) [ none ↦ s | some coll ↦ insert_full s dst on_true coll ]
]

unfoldable pub first_arg_local : List Operand → Option Local
unfolding operand_local
first_arg_local [] = none
first_arg_local (a ∷ args) = operand_local a

unfoldable pub first_arg_base_local : List Operand → Option Local
first_arg_base_local [] = none
first_arg_base_local (copy p ∷ args) = some p.local
first_arg_base_local (move p ∷ args) = some p.local
first_arg_base_local (constant c ∷ args) = none

-- `args.get(idx)`, as the first argument of the rest
unfoldable pub nth_arg_local : List Operand → ℕ → Option Local
unfolding operand_local
nth_arg_local [] idx = none
nth_arg_local (a ∷ args) zero = operand_local a
nth_arg_local (a ∷ args) (suc idx) = nth_arg_local args idx

abbrev pub is_deref : ProjectionElem → Bool
is_deref deref = true
is_deref _ = false

-- The last field of a projection.
unfoldable pub last_field : List ProjectionElem → Option ℕ
last_field [] = none
last_field (field f ∷ rest) = elim (last_field rest) [ none ↦ some f | some g ↦ some g ]
last_field (e ∷ rest) = last_field rest

unfoldable pub last_simple_field_idx : List ProjectionElem → Option ℕ
unfolding last_field
last_simple_field_idx [] = none
last_simple_field_idx (e ∷ rest) = if any is_deref rest then none else last_field (e ∷ rest)

unfoldable pub uint_type_max : Ty → Option ℕ
uint_type_max bool = some 1
uint_type_max char = some 1114111
uint_type_max (uint u8) = some (2 ^ 8 - 1)
uint_type_max (uint u16) = some (2 ^ 16 - 1)
uint_type_max (uint u32) = some (2 ^ 32 - 1)
uint_type_max (uint u64) = some u64_max
uint_type_max (uint usize) = some u64_max
uint_type_max _ = none

abbrev pub nonzero_names : List String
nonzero_names = "NonZero" ∷ "NonNull" ∷ []

unfoldable pub ty_is_nonzero : Ty → Bool
unfolding has_any
ty_is_nonzero (adt def) = has_any def.path nonzero_names
ty_is_nonzero _ = false

unfoldable pub enforce_type_facts : RangesDomain → Local → Ty → RangesDomain
unfolding ty_is_nonzero uint_type_max tighten_upper
enforce_type_facts s local ty =
    let s' = if ty_is_nonzero ty then record s { nonzero = insert s.nonzero local } else s in
    elim (uint_type_max ty) [
      | none ↦ s'
      | some max_val ↦ record s' { const_upper = tighten_upper s'.const_upper local max_val }
    ]

-- `for local in body.args_iter()`: the first `n` arguments
unfoldable pub seed_params : ℕ → RangesDomain → Body → RangesDomain
unfolding enforce_type_facts
seed_params zero s body = s
seed_params (suc n) s body = enforce_type_facts (seed_params n s body) (suc n) (body.ty (suc n))

unfoldable pub seed_param_type_facts : RangesDomain → Body → RangesDomain
unfolding seed_params
seed_param_type_facts s body = seed_params body.arg_count s body
