-- ===== src/Transfer/Arith.antt =====
-- An assignment of an arithmetic operation: upper bounds of the result, and whether a size may
-- overflow (`apply_statement` of crates/san/src/analysis/transfer.rs).
use san.Base.{
  ℕ, ◌+◌, ◌*◌, ◌-◌, ◌/◌, ◌%◌, ◌^◌, min, List, Bool, true, false, ◌||◌, not, Option, none, some,
  if◌then◌else◌, ◌==◌, nat_eq, ltb,
}
use san.Base.Sets.{contains, insert, remove}
use san.Base.Maps.{lookup}
use san.Join.{get_or}
use san.Object.{ObjectId}
use san.State.Locals.{Local}
use san.State.{BlockState}
use san.State.Tracking.{TrackingDomain}
use san.State.Ranges.{RangesDomain}
use san.State.Ownership.{some_and}
use san.Mir.{Operand, Ty, int, uint, tuple, Body, BinOp}
use san.Edge.{operand_local, tighten_upper, u64_max}
use san.Facts.{or_else}
use san.Transfer.Clear.{on_ranges, clear_init, clear_bounded, clear_comparisons, clear_protocols}
use san.Transfer.Reads.{assign_objects, tighten_some}
use san.Transfer.Binary.{
  const_u64, isize_max, assign_lt, assign_ge, assign_le, assign_gt, assign_eq, assign_ne,
}

-- The upper bound that is known of an operand that is a local.
unfoldable pub local_upper : RangesDomain → Operand → Option ℕ
unfolding operand_local
local_upper s op = elim (operand_local op) [ none ↦ none | some l ↦ lookup s.const_upper l ]

-- `const_u64(op).or_else(|| ..)`: of any operand
unfoldable pub operand_upper : RangesDomain → Operand → Option ℕ
unfolding const_u64 local_upper
operand_upper s op = elim (const_u64 op) [ some k ↦ some k | none ↦ local_upper s op ]

unfoldable pub operand_is_nonzero : RangesDomain → Operand → Bool
unfolding operand_local const_u64
operand_is_nonzero s op =
    some_and (λ l. contains s.nonzero l) (operand_local op)
    || some_and (λ v. not (v == 0)) (const_u64 op)

-- `[a, b].into_iter().flatten().min()`
abbrev pub least : Option ℕ → Option ℕ → Option ℕ
least none b = b
least (some a) none = some a
least (some a) (some b) = some (min a b)

unfoldable pub range_bit_or : RangesDomain → Local → Operand → Operand → RangesDomain
unfolding operand_is_nonzero
range_bit_or s dst op1 op2 =
    if operand_is_nonzero s op1 || operand_is_nonzero s op2
    then record s { nonzero = insert s.nonzero dst }
    else s

unfoldable pub range_bit_and : RangesDomain → Local → Operand → Operand → RangesDomain
unfolding const_u64 local_upper tighten_upper
range_bit_and s dst op1 op2 =
    let const_ub = or_else (const_u64 op2) (const_u64 op1) in
    let best_ub = least const_ub (least (local_upper s op1) (local_upper s op2)) in
    record s { const_upper = tighten_some s.const_upper dst best_ub }

unfoldable pub range_rem : RangesDomain → Local → Operand → RangesDomain
unfolding const_u64 tighten_upper
range_rem s dst op2 = elim (const_u64 op2) [
  | none ↦ s
  | some divisor ↦
      if ltb 0 divisor
      then record s { const_upper = tighten_upper s.const_upper dst (divisor - 1) }
      else s
]

-- `src_ub.checked_shr(shift as u32).unwrap_or(0)`
unfoldable pub shifted : ℕ → ℕ → ℕ
shifted ub shift = if ltb (shift % 2 ^ 32) 64 then ub / 2 ^ (shift % 2 ^ 32) else 0

unfoldable pub range_shr : RangesDomain → Local → Operand → Operand → RangesDomain
unfolding const_u64 local_upper tighten_upper shifted
range_shr s dst op1 op2 = elim (const_u64 op2) [
  | none ↦ s
  | some shift ↦
      let src_ub = get_or (local_upper s op1) u64_max in
      record s { const_upper = tighten_upper s.const_upper dst (shifted src_ub shift) }
]

abbrev pub both_upper : Option ℕ → Option ℕ → Option (ℕ × ℕ)
both_upper (some a) (some b) = some (a, b)
both_upper _ _ = none

-- The bound `total` of a product or sum of known operands, of which `none` is unknown.
unfoldable pub apply_total : BlockState → Local → Option ℕ → BlockState
unfolding tighten_upper
apply_total s dst none = record s {
  taints_domain = record s.taints_domain { mul_overflow = insert s.taints_domain.mul_overflow dst };
}
apply_total s dst (some total) = record s {
  ranges_domain = record s.ranges_domain {
    const_upper = tighten_upper s.ranges_domain.const_upper dst (min total u64_max);
  };
  taints_domain = record s.taints_domain {
    mul_overflow =
        if ltb isize_max total
        then insert s.taints_domain.mul_overflow dst
        else remove s.taints_domain.mul_overflow dst;
  };
}

-- `u128::MAX`
abbrev pub u128_max : ℕ
u128_max = 2 ^ 128 - 1

unfoldable pub product_upper : RangesDomain → Operand → Operand → Option ℕ
unfolding operand_upper
product_upper s op1 op2 = elim (both_upper (operand_upper s op1) (operand_upper s op2)) [
  | none ↦ none
  | some (a, b) ↦ some (min (a * b) u128_max)
]

unfoldable pub sum_upper : RangesDomain → Operand → Operand → Option ℕ
unfolding operand_upper
sum_upper s op1 op2 = elim (both_upper (operand_upper s op1) (operand_upper s op2)) [
  | none ↦ none
  | some (a, b) ↦ some (a + b)
]

unfoldable pub assign_mul : BlockState → Local → Operand → Operand → BlockState
unfolding product_upper apply_total
assign_mul s dst op1 op2 = apply_total s dst (product_upper s.ranges_domain op1 op2)

abbrev pub is_int_ty : Ty → Bool
is_int_ty int = true
is_int_ty (uint w) = true
is_int_ty _ = false

abbrev pub elem_ty : Ty → Ty
elem_ty (tuple first) = first
elem_ty t = t

-- The sum, where the type of the result is an integer.
unfoldable pub assign_add : BlockState → Local → Ty → Operand → Operand → BlockState
unfolding sum_upper apply_total
assign_add s dst ty op1 op2 =
    if is_int_ty ty then apply_total s dst (sum_upper s.ranges_domain op1 op2) else s

abbrev pub is_pointer_step : BinOp → Bool
is_pointer_step BinOp.offset = true
is_pointer_step BinOp.add = true
is_pointer_step BinOp.sub = true
is_pointer_step _ = false

unfoldable pub objects_of_operand : TrackingDomain → Operand → Option (List ObjectId)
unfolding operand_local
objects_of_operand s op = elim (operand_local op) [ none ↦ none | some l ↦ lookup s.points_to l ]

-- The objects of the first operand that has some.
unfoldable pub stepped_objects : TrackingDomain → Operand → Operand → Option (List ObjectId)
unfolding objects_of_operand
stepped_objects s op1 op2 = elim (objects_of_operand s op1) [
  | some objs ↦ some objs
  | none ↦ objects_of_operand s op2
]

-- What all binary operations have in common.
unfoldable pub assign_binary : BlockState → Local → BinOp → Operand → Operand → BlockState
unfolding assign_objects stepped_objects clear_protocols clear_init clear_bounded
assign_binary s dst op op1 op2 =
    let objs : Option (List ObjectId) =
      if is_pointer_step op then stepped_objects s.tracking_domain op1 op2 else none in
    record s {
      tracking_domain = clear_protocols dst (assign_objects dst objs s.tracking_domain);
      inits_domain = clear_init dst s.inits_domain;
      bounds_domain = clear_bounded dst s.bounds_domain;
    }

-- `clear_comparisons` on the whole state
unfoldable pub forget_comparisons : Local → BlockState → BlockState
unfolding clear_comparisons
forget_comparisons dst s = record s { bounds_domain = clear_comparisons dst s.bounds_domain }

unfoldable pub apply_binary : BlockState → Body → Local → BinOp → Operand → Operand → BlockState
unfolding assign_lt assign_ge assign_le assign_gt assign_eq assign_ne assign_mul assign_add
    range_bit_or range_bit_and range_rem range_shr forget_comparisons
apply_binary s body dst BinOp.lt op1 op2 = assign_lt s dst op1 op2
apply_binary s body dst BinOp.ge op1 op2 = assign_ge s dst op1 op2
apply_binary s body dst BinOp.le op1 op2 = assign_le s dst op1 op2
apply_binary s body dst BinOp.gt op1 op2 = assign_gt s dst op1 op2
apply_binary s body dst BinOp.eq op1 op2 = assign_eq s dst op1 op2
apply_binary s body dst BinOp.ne op1 op2 = assign_ne s dst op1 op2
apply_binary s body dst BinOp.bit_or op1 op2 =
    forget_comparisons dst (on_ranges (λ r. range_bit_or r dst op1 op2) s)
apply_binary s body dst BinOp.bit_and op1 op2 =
    forget_comparisons dst (on_ranges (λ r. range_bit_and r dst op1 op2) s)
apply_binary s body dst BinOp.rem op1 op2 =
    forget_comparisons dst (on_ranges (λ r. range_rem r dst op2) s)
apply_binary s body dst BinOp.shr op1 op2 =
    forget_comparisons dst (on_ranges (λ r. range_shr r dst op1 op2) s)
apply_binary s body dst BinOp.mul op1 op2 = forget_comparisons dst (assign_mul s dst op1 op2)
apply_binary s body dst BinOp.add op1 op2 =
    forget_comparisons dst (assign_add s dst (body.ty dst) op1 op2)
apply_binary s body dst BinOp.mul_with_overflow op1 op2 = assign_mul s dst op1 op2
apply_binary s body dst BinOp.add_with_overflow op1 op2 =
    assign_add s dst (elem_ty (body.ty dst)) op1 op2
apply_binary s body dst _ op1 op2 = forget_comparisons dst s
