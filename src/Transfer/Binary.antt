-- ===== src/Transfer/Binary.antt =====
-- An assignment of a binary operation: comparisons record what each branch on them proves, and
-- arithmetic records upper bounds and overflows (`apply_statement` of
-- crates/san/src/analysis/transfer.rs).
use san.Base.{ℕ, ◌-◌, ◌^◌, Bool, true, false, Option, none, some, if◌then◌else◌, ◌==◌, nat_eq, leb}
use san.Base.Maps.{Map, lookup, put, erase}
use san.State.Locals.{Local}
use san.State.{BlockState}
use san.State.Capacity.{CapacityDomain}
use san.Mir.{Operand, constant}
use san.Edge.{operand_local}
use san.Facts.{record_spare, record_full, both_locals, or_else}
use san.Transfer.Clear.{clear_comparisons}

-- `const_u64`
unfoldable pub const_u64 : Operand → Option ℕ
const_u64 (constant c) = c.scalar
const_u64 _ = none

abbrev pub isize_max : ℕ
isize_max = 2 ^ 63 - 1

-- `if let Some(v) = o { m.insert(dst, v) } else { m.remove(&dst) }`
abbrev pub put_or_erase : {V : Type 0} → Map Local V → Local → Option V → Map Local V
put_or_erase m dst none = erase m dst
put_or_erase m dst (some v) = put m dst v

abbrev pub put_some : {V : Type 0} → Map Local V → Local → Option V → Map Local V
put_some m dst none = m
put_some m dst (some v) = put m dst v

abbrev pub local_const : Option Local → Option ℕ → Option (Local × ℕ)
local_const (some l) (some k) = some (l, k)
local_const _ _ = none

-- The local, if the constant passes the test.
abbrev pub local_if : (ℕ → Bool) → Option (Local × ℕ) → Option Local
local_if p none = none
local_if p (some (l, k)) = if p k then some l else none

-- The collection that a local is the length of, itself or through a borrow.
unfoldable pub len_coll : CapacityDomain → Local → Option Local
len_coll s rhs = elim (lookup s.len_of rhs) [
  | some coll ↦ some coll
  | none ↦ elim (lookup s.ref_base rhs) [ none ↦ none | some b ↦ lookup s.len_of b ]
]

unfoldable pub index_pair : CapacityDomain → Option Local → Option Local → Option (Local × Local)
unfolding len_coll
index_pair s (some lhs) (some rhs) = elim (len_coll s rhs) [
  | none ↦ none
  | some coll ↦ some (lhs, coll)
]
index_pair s _ _ = none

abbrev pub zero_const : Option (Local × ℕ) → Option Local
zero_const = local_if (λ k. k == 0)

abbrev pub positive_const : Option (Local × ℕ) → Option Local
positive_const = local_if (λ k. leb 1 k)

-- The local that is compared with the constant zero.
unfoldable pub zero_compared : Operand → Operand → Option Local
unfolding operand_local const_u64
zero_compared op1 op2 =
    or_else (zero_const (local_const (operand_local op1) (const_u64 op2)))
      (zero_const (local_const (operand_local op2) (const_u64 op1)))

-- The state of one of the handlers below, with its operands.
module _ (s : BlockState) (dst : Local) (op1 op2 : Operand) where
  unfoldable pub assign_lt : BlockState
  unfolding operand_local const_u64 index_pair clear_comparisons record_spare
  assign_lt =
      let l1 = operand_local op1 in
      let l2 = operand_local op2 in
      let b = s.bounds_domain in
      let r = s.ranges_domain in
      record s {
        bounds_domain = record (clear_comparisons dst b) {
          lt_facts = put_or_erase b.lt_facts dst l1;
          lt_for = put_or_erase b.lt_for dst (index_pair s.capacity_domain l1 l2);
        };
        capacity_domain = record_spare s.capacity_domain dst op1 op2 true false;
        ranges_domain = record r {
          const_lt = put_some r.const_lt dst (local_const l1 (const_u64 op2));
          const_gt = put_some r.const_gt dst (local_const l2 (const_u64 op1));
          nonzero_if_true =
              put_some r.nonzero_if_true dst (zero_const (local_const l2 (const_u64 op1)));
        };
      }

  unfoldable pub assign_ge : BlockState
  unfolding operand_local const_u64 clear_comparisons record_spare
  assign_ge =
      let l1 = operand_local op1 in
      let l2 = operand_local op2 in
      let b = s.bounds_domain in
      let r = s.ranges_domain in
      record s {
        bounds_domain = record (clear_comparisons dst b) {
          ge_facts = put_or_erase b.ge_facts dst l1;
        };
        capacity_domain = record_spare s.capacity_domain dst op1 op2 false false;
        ranges_domain = record r {
          const_ge = put_some r.const_ge dst (local_const l1 (const_u64 op2));
          nonzero_if_true =
              put_some r.nonzero_if_true dst (positive_const (local_const l1 (const_u64 op2)));
          const_le = put_some r.const_le dst (local_const l2 (const_u64 op1));
        };
      }

  unfoldable pub assign_le : BlockState
  unfolding operand_local const_u64 index_pair clear_comparisons record_spare
  assign_le =
      let l1 = operand_local op1 in
      let l2 = operand_local op2 in
      let b = s.bounds_domain in
      let r = s.ranges_domain in
      record s {
        bounds_domain = record (clear_comparisons dst b) {
          le_facts = put_or_erase b.le_facts dst l1;
          le_for = put_or_erase b.le_for dst (index_pair s.capacity_domain l1 l2);
        };
        capacity_domain = record_spare s.capacity_domain dst op1 op2 false true;
        ranges_domain = record r {
          const_le = put_some r.const_le dst (local_const l1 (const_u64 op2));
          const_ge = put_some r.const_ge dst (local_const l2 (const_u64 op1));
          nonzero_if_true =
              put_some r.nonzero_if_true dst (positive_const (local_const l2 (const_u64 op1)));
        };
      }

  unfoldable pub assign_gt : BlockState
  unfolding operand_local const_u64 clear_comparisons record_spare
  assign_gt =
      let l1 = operand_local op1 in
      let l2 = operand_local op2 in
      let b = s.bounds_domain in
      let r = s.ranges_domain in
      record s {
        bounds_domain = record (clear_comparisons dst b) {
          gt_facts = put_or_erase b.gt_facts dst l1;
        };
        capacity_domain = record_spare s.capacity_domain dst op1 op2 true true;
        ranges_domain = record r {
          const_gt = put_some r.const_gt dst (local_const l1 (const_u64 op2));
          nonzero_if_true =
              put_some r.nonzero_if_true dst (zero_const (local_const l1 (const_u64 op2)));
          const_lt = put_some r.const_lt dst (local_const l2 (const_u64 op1));
        };
      }

  unfoldable pub assign_eq : BlockState
  unfolding operand_local zero_compared clear_comparisons record_full
  assign_eq =
      let r = s.ranges_domain in
      let p = s.pairs_domain in
      record s {
        bounds_domain = clear_comparisons dst s.bounds_domain;
        capacity_domain = record_full s.capacity_domain dst op1 op2 true;
        ranges_domain = record r {
          nonzero_if_false = put_some r.nonzero_if_false dst (zero_compared op1 op2);
        };
        pairs_domain = record p {
          eq_pair_if_true =
              put_some p.eq_pair_if_true dst (both_locals (operand_local op1) (operand_local op2));
        };
      }

  unfoldable pub assign_ne : BlockState
  unfolding operand_local zero_compared clear_comparisons record_full
  assign_ne =
      let r = s.ranges_domain in
      let p = s.pairs_domain in
      record s {
        bounds_domain = clear_comparisons dst s.bounds_domain;
        capacity_domain = record_full s.capacity_domain dst op1 op2 false;
        ranges_domain = record r {
          nonzero_if_true = put_some r.nonzero_if_true dst (zero_compared op1 op2);
        };
        pairs_domain = record p {
          ne_pair_if_true =
              put_some p.ne_pair_if_true dst (both_locals (operand_local op1) (operand_local op2));
        };
      }
