-- ===== src/Transfer/Sound/Compare.antt =====
-- The facts on ranges that a comparison records hold after it.
use san.Base.{
  ℕ, Bool, true, Option, none, some, ◌≡◌, ◌≢◌, ◌⊎◌, sym, ◌∙◌, subst, nat_eq, arith, nat_beq_iff,
  ◌==◌, inl, inr, Bool-cases, leb,
}
use san.State.Locals.{Local}
use san.State.{BlockState}
use san.Mir.{Operand, BinOp}
use san.Edge.{operand_local}
use san.Edge.Memory.{Memory}
use san.Edge.Ranges.{RangesHold}
use san.Facts.{or_else}
use san.Transfer.Binary.{
  const_u64, local_const, local_if, zero_const, positive_const, zero_compared, assign_lt, assign_ge,
  assign_le, assign_gt, assign_eq, assign_ne,
}
use san.Transfer.Sound.Meaning.{Reads, BinResult}
use san.Transfer.Sound.Record.{
  with_nonzero_if_true, with_nonzero_if_false, with_const_lt, with_const_le, with_const_gt,
  with_const_ge,
}

local_const_lem :
    (o : Option Local) (p : Option ℕ) (c : Local × ℕ)
    → local_const o p ≡ some c
    → (o ≡ some c.0) × (p ≡ some c.1)
local_const_lem (some l) (some k) c e = ground arith
local_const_lem none p c e = absurd (ground arith)
local_const_lem (some l) none c e = absurd (ground arith)

local_if_lem :
    (p : ℕ → Bool) (o : Option (Local × ℕ)) (l : Local)
    → local_if p o ≡ some l
    → (k : ℕ) × (o ≡ some (l, k)) × (p k ≡ true)
local_if_lem p none l e = absurd (ground arith)
local_if_lem p (some (j, k)) l e = elim (Bool-cases (p k)) [
  | inl y ↦ (k, ground arith, y)
  | inr n ↦ absurd (ground arith)
]

or_else_lem : (o p : Option Local) (l : Local) → or_else o p ≡ some l → (o ≡ some l) ⊎ (p ≡ some l)
or_else_lem none p l e = inr e
or_else_lem (some j) p l e = inl e

module _ (m : Memory) (op1 op2 : Operand) (a b : ℕ) (r1 : Reads m op1 a) (r2 : Reads m op2 b) where
  -- A local and a constant that are compared have the values of the operands.
  local_left :
      (c : Local × ℕ)
      → local_const (operand_local op1) (const_u64 op2) ≡ some c
      → (m.value c.0 ≡ a) × (c.1 ≡ b)
  local_left c e =
      let (l, k) = local_const_lem (operand_local op1) (const_u64 op2) c e in
      (sym (r1.local c.0 l), sym (r2.const c.1 k))

  local_right :
      (c : Local × ℕ)
      → local_const (operand_local op2) (const_u64 op1) ≡ some c
      → (m.value c.0 ≡ b) × (c.1 ≡ a)
  local_right c e =
      let (l, k) = local_const_lem (operand_local op2) (const_u64 op1) c e in
      (sym (r2.local c.0 l), sym (r1.const c.1 k))

  if_left :
      (p : ℕ → Bool) (l : Local)
      → local_if p (local_const (operand_local op1) (const_u64 op2)) ≡ some l
      → (m.value l ≡ a) × (p b ≡ true)
  if_left p l e =
      let (k, f, t) = local_if_lem p (local_const (operand_local op1) (const_u64 op2)) l e in
      let (q, s) = local_left (l, k) f in (q, subst (λ x. p x ≡ true) s t)

  if_right :
      (p : ℕ → Bool) (l : Local)
      → local_if p (local_const (operand_local op2) (const_u64 op1)) ≡ some l
      → (m.value l ≡ b) × (p a ≡ true)
  if_right p l e =
      let (k, f, t) = local_if_lem p (local_const (operand_local op2) (const_u64 op1)) l e in
      let (q, s) = local_right (l, k) f in (q, subst (λ x. p x ≡ true) s t)

  -- Of the local that is compared with zero, and the other operand.
  zero_compared_lem :
      (l : Local)
      → zero_compared op1 op2 ≡ some l
      → ((m.value l ≡ a) × (b ≡ 0)) ⊎ ((m.value l ≡ b) × (a ≡ 0))
  unfolding zero_compared
  zero_compared_lem l e =
      elim (or_else_lem (zero_const (local_const (operand_local op1) (const_u64 op2)))
        (zero_const (local_const (operand_local op2) (const_u64 op1))) l e) [
          | inl f ↦ let (q, z) = if_left (λ k. k == 0) l f in inl (q, (nat_beq_iff b 0).0 z)
          | inr f ↦ let (q, z) = if_right (λ k. k == 0) l f in inr (q, (nat_beq_iff a 0).0 z)
        ]

  module _ (s : BlockState) (dst : Local) (h : RangesHold m s.ranges_domain) where
    abbrev Sound : BinOp → BlockState → Type 0
    Sound op t = BinResult op a b (m.value dst) → RangesHold m t.ranges_domain

    pub assign_lt-RangesHold : Sound BinOp.lt (assign_lt s dst op1 op2)
    unfolding assign_lt
    assign_lt-RangesHold v =
        let h1 =
          with_const_lt m s.ranges_domain h dst (local_const (operand_local op1) (const_u64 op2))
            (λ c e. let (q, r) = local_left c e in ground arith) in
        let h2 =
          with_const_gt m _ h1 dst (local_const (operand_local op2) (const_u64 op1))
            (λ c e. let (q, r) = local_right c e in ground arith) in
        with_nonzero_if_true m _ h2 dst
          (zero_const (local_const (operand_local op2) (const_u64 op1)))
          (λ l e t. let (q, z) = if_right (λ k. k == 0) l e in ground arith)

    pub assign_ge-RangesHold : Sound BinOp.ge (assign_ge s dst op1 op2)
    unfolding assign_ge
    assign_ge-RangesHold v =
        let h1 =
          with_const_ge m s.ranges_domain h dst (local_const (operand_local op1) (const_u64 op2))
            (λ c e. let (q, r) = local_left c e in ground arith) in
        let h2 =
          with_nonzero_if_true m _ h1 dst
            (positive_const (local_const (operand_local op1) (const_u64 op2)))
            (λ l e t. let (q, z) = if_left (λ k. leb 1 k) l e in ground arith) in
        with_const_le m _ h2 dst (local_const (operand_local op2) (const_u64 op1))
          (λ c e. let (q, r) = local_right c e in ground arith)

    pub assign_le-RangesHold : Sound BinOp.le (assign_le s dst op1 op2)
    unfolding assign_le
    assign_le-RangesHold v =
        let h1 =
          with_const_le m s.ranges_domain h dst (local_const (operand_local op1) (const_u64 op2))
            (λ c e. let (q, r) = local_left c e in ground arith) in
        let h2 =
          with_const_ge m _ h1 dst (local_const (operand_local op2) (const_u64 op1))
            (λ c e. let (q, r) = local_right c e in ground arith) in
        with_nonzero_if_true m _ h2 dst
          (positive_const (local_const (operand_local op2) (const_u64 op1)))
          (λ l e t. let (q, z) = if_right (λ k. leb 1 k) l e in ground arith)

    pub assign_gt-RangesHold : Sound BinOp.gt (assign_gt s dst op1 op2)
    unfolding assign_gt
    assign_gt-RangesHold v =
        let h1 =
          with_const_gt m s.ranges_domain h dst (local_const (operand_local op1) (const_u64 op2))
            (λ c e. let (q, r) = local_left c e in ground arith) in
        let h2 =
          with_nonzero_if_true m _ h1 dst
            (zero_const (local_const (operand_local op1) (const_u64 op2)))
            (λ l e t. let (q, z) = if_left (λ k. k == 0) l e in ground arith) in
        with_const_lt m _ h2 dst (local_const (operand_local op2) (const_u64 op1))
          (λ c e. let (q, r) = local_right c e in ground arith)

    -- The operands differ, so the one that is compared with zero is not zero.
    differ : (l : Local) → zero_compared op1 op2 ≡ some l → a ≢ b → m.value l ≢ 0
    differ l e n z = elim (zero_compared_lem l e) [
      | inl (q, y) ↦ n (sym q ∙ z ∙ sym y)
      | inr (q, y) ↦ n (y ∙ sym z ∙ q)
    ]

    pub assign_eq-RangesHold : Sound BinOp.eq (assign_eq s dst op1 op2)
    unfolding assign_eq
    assign_eq-RangesHold v =
        with_nonzero_if_false m s.ranges_domain h dst (zero_compared op1 op2)
          (λ l e z. differ l e (v.1 z))

    pub assign_ne-RangesHold : Sound BinOp.ne (assign_ne s dst op1 op2)
    unfolding assign_ne
    assign_ne-RangesHold v =
        with_nonzero_if_true m s.ranges_domain h dst (zero_compared op1 op2)
          (λ l e t. differ l e (v.0 t))
