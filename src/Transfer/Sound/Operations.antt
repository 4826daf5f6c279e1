-- ===== src/Transfer/Sound/Operations.antt =====
-- The facts on ranges after an assignment of a binary operation (`apply_statement` of
-- crates/san/src/analysis/transfer.rs).
use san.Base.{ℕ, true, some, ◌≡◌, ◌≢◌, refl, sym, ◌∙◌, nat_eq, inl, inr, Bool-cases}
use san.State.Locals.{Local}
use san.State.{BlockState}
use san.Mir.{Operand, Ty, Body, BinOp}
use san.Edge.{operand_local}
use san.Edge.Memory.{Memory}
use san.Edge.Ranges.{RangesHold, IsWide}
use san.Transfer.Arith.{apply_binary, assign_mul, assign_add, is_int_ty, elem_ty}
use san.Transfer.Sound.Meaning.{Reads, BinResult, is_comparison, AreOthers}
use san.Transfer.Sound.Clear.{IsUnknown}
use san.Transfer.Sound.Compare.{
  assign_lt-RangesHold, assign_ge-RangesHold, assign_le-RangesHold, assign_gt-RangesHold,
  assign_eq-RangesHold, assign_ne-RangesHold,
}
use san.Transfer.Sound.Arith.{
  range_bit_or-RangesHold, range_bit_and-RangesHold, range_rem-RangesHold, range_shr-RangesHold,
  product_upper_lem, sum_upper_lem, apply_total-RangesHold,
}

module _ (m m' : Memory) (wide : IsWide m) (wide' : IsWide m') (dst : Local)
    (same : (l : Local) → l ≢ dst → m'.value l ≡ m.value l) where
  -- An operand that is not overwritten reads the same afterwards.
  Reads-after :
      (op : Operand) (v : ℕ)
      → ((l : Local) → operand_local op ≡ some l → l ≢ dst)
      → Reads m op v
      → Reads m' op v
  Reads-after op v n r = record {
    local = λ l e. r.local l e ∙ sym (same l (n l e));
    const = r.const;
    wide = r.wide;
  }

  module _ (s : BlockState) (body : Body) (op1 op2 : Operand) (a b : ℕ) (r1 : Reads m op1 a)
      (r2 : Reads m op2 b) (u : IsUnknown dst s.ranges_domain)
      (h : RangesHold m' s.ranges_domain) where
    read1 : AreOthers dst op1 op2 → Reads m' op1 a
    read1 n = Reads-after op1 a n.0 r1

    read2 : AreOthers dst op1 op2 → Reads m' op2 b
    read2 n = Reads-after op2 b n.1 r2

    assign_mul-RangesHold :
        BinResult BinOp.mul a b (m'.value dst)
        → RangesHold m' (assign_mul s dst op1 op2).ranges_domain
    unfolding assign_mul
    assign_mul-RangesHold v =
        apply_total-RangesHold m' wide' s dst _
          (λ k e.
            product_upper_lem m m' wide wide' dst same s.ranges_domain u h op1 op2 a b r1 r2
              (m'.value dst) k (wide' dst) v e)
          h

    assign_add-RangesHold :
        (ty : Ty)
        → BinResult BinOp.add a b (m'.value dst)
        → RangesHold m' (assign_add s dst ty op1 op2).ranges_domain
    unfolding assign_add
    assign_add-RangesHold ty v = elim (Bool-cases (is_int_ty ty)) [
      | inl y ↦ rw y (
          apply_total-RangesHold m' wide' s dst _
            (λ k e.
              sum_upper_lem m m' wide wide' dst same s.ranges_domain u h op1 op2 a b r1 r2
                (m'.value dst) k v e)
            h)
      | inr n ↦ rw n h
    ]

    pub apply_binary-RangesHold :
        (op : BinOp)
        → (is_comparison op ≡ true → AreOthers dst op1 op2)
        → BinResult op a b (m'.value dst)
        → RangesHold m' (apply_binary s body dst op op1 op2).ranges_domain
    unfolding apply_binary
    apply_binary-RangesHold BinOp.lt n v =
        let k = n refl in assign_lt-RangesHold m' op1 op2 a b (read1 k) (read2 k) s dst h v
    apply_binary-RangesHold BinOp.ge n v =
        let k = n refl in assign_ge-RangesHold m' op1 op2 a b (read1 k) (read2 k) s dst h v
    apply_binary-RangesHold BinOp.le n v =
        let k = n refl in assign_le-RangesHold m' op1 op2 a b (read1 k) (read2 k) s dst h v
    apply_binary-RangesHold BinOp.gt n v =
        let k = n refl in assign_gt-RangesHold m' op1 op2 a b (read1 k) (read2 k) s dst h v
    apply_binary-RangesHold BinOp.eq n v =
        let k = n refl in assign_eq-RangesHold m' op1 op2 a b (read1 k) (read2 k) s dst h v
    apply_binary-RangesHold BinOp.ne n v =
        let k = n refl in assign_ne-RangesHold m' op1 op2 a b (read1 k) (read2 k) s dst h v
    apply_binary-RangesHold BinOp.bit_or n v =
        range_bit_or-RangesHold m m' wide wide' dst same s.ranges_domain u h op1 op2 a b r1 r2 v
    apply_binary-RangesHold BinOp.bit_and n v =
        range_bit_and-RangesHold m m' wide wide' dst same s.ranges_domain u h op1 op2 a b r1 r2 v
    apply_binary-RangesHold BinOp.rem n v =
        range_rem-RangesHold m m' wide wide' dst same s.ranges_domain u h op1 op2 a b r1 r2 v
    apply_binary-RangesHold BinOp.shr n v =
        range_shr-RangesHold m m' wide wide' dst same s.ranges_domain u h op1 op2 a b r1 r2 v
    apply_binary-RangesHold BinOp.mul n v = assign_mul-RangesHold v
    apply_binary-RangesHold BinOp.mul_with_overflow n v = assign_mul-RangesHold v
    apply_binary-RangesHold BinOp.add n v = assign_add-RangesHold (body.ty dst) v
    apply_binary-RangesHold BinOp.add_with_overflow n v =
        assign_add-RangesHold (elem_ty (body.ty dst)) v
    apply_binary-RangesHold BinOp.sub n v = h
    apply_binary-RangesHold BinOp.offset n v = h
    apply_binary-RangesHold BinOp.other_op n v = h
