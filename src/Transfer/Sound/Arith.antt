-- ===== src/Transfer/Sound/Arith.antt =====
-- The upper bounds that arithmetic records hold of its result.
use san.Base.{
  ℕ, ◌+◌, ◌*◌, ◌-◌, ◌/◌, ◌%◌, ◌^◌, true, Option, none, some, ◌≡◌, ◌≢◌, ◌≤◌, ◌<◌, refl, sym, ◌∙◌,
  subst, nat_eq, arith, ◌==◌, inl, inr, Bool-cases, Option-cases, min, ltb, not,
}
use native.Mathlib.Nat.{le-div_iff_mul-le, div-mul-le_self, le_trans, one-le-pow, mul-le-mul}
use san.Join.{get_or}
use san.Base.Sets.{contains}
use san.Base.Maps.{lookup}
use san.State.Locals.{Local}
use san.State.Ranges.{RangesDomain}
use san.State.{BlockState}
use san.Mir.{Operand, BinOp}
use san.Edge.{operand_local, u64_max}
use san.Edge.Memory.{Memory, Entries-tighten_upper, Members-insert_some}
use san.Edge.Ranges.{RangesHold, IsWide}
use san.Edge.Queries.{some_and_lem}
use san.State.Ownership.{some_and}
use san.Transfer.Binary.{const_u64}
use san.Transfer.Reads.{tighten_some}
use san.Transfer.Arith.{
  local_upper, operand_upper, operand_is_nonzero, least, range_bit_or, range_bit_and, range_rem,
  shifted, range_shr, both_upper, apply_total, product_upper, sum_upper,
}
use san.Transfer.Sound.Meaning.{Reads, BinResult}
use san.Transfer.Sound.Clear.{IsUnknown}
use san.Transfer.Sound.Record.{with_nonzero, with_upper}

-- `m` and `m'` are the memories before and after, `s` what is known before.
module _ (m m' : Memory) (wide : IsWide m) (wide' : IsWide m') (dst : Local)
    (same : (l : Local) → l ≢ dst → m'.value l ≡ m.value l) (s : RangesDomain) (u : IsUnknown dst s)
    (h : RangesHold m' s) where
  -- What is known of a local is known of its value before, since nothing is known of `dst`.
  upper_before : (l : Local) (k : ℕ) → lookup s.const_upper l ≡ some k → m.value l ≤ k
  upper_before l k e =
      let n = λ (q : l ≡ dst). absurd {A = ⊥} (ground (arith, u.const_upper)) in
      subst (λ v. v ≤ k) (same l n) (h.const_upper l k e)

  nonzero_before : (l : Local) → contains s.nonzero l ≡ true → m.value l ≢ 0
  nonzero_before l e z =
      let n = λ (q : l ≡ dst). absurd {A = ⊥} (ground (arith, u.nonzero)) in
      h.nonzero l e (same l n ∙ z)

  module _ (op : Operand) (a : ℕ) (r : Reads m op a) where
    local_upper_lem : (k : ℕ) → local_upper s op ≡ some k → a ≤ k
    unfolding local_upper
    local_upper_lem k e = elim (Option-cases (operand_local op)) [
      | inl n ↦ absurd (ground arith)
      | inr (l, q) ↦ let up = upper_before l k (ground arith) in let v = r.local l q in ground arith
    ]

    operand_upper_lem : (k : ℕ) → operand_upper s op ≡ some k → a ≤ k
    unfolding operand_upper
    operand_upper_lem k e = elim (Option-cases (const_u64 op)) [
      | inl n ↦ local_upper_lem k (ground arith)
      | inr (j, q) ↦ let v = r.const j q in ground arith
    ]

    operand_is_nonzero_lem : operand_is_nonzero s op ≡ true → a ≢ 0
    unfolding operand_is_nonzero
    operand_is_nonzero_lem e =
        elim (Bool-cases (some_and (λ l. contains s.nonzero l) (operand_local op))) [
          | inl y ↦
              let (l, q, c) = some_and_lem (λ l. contains s.nonzero l) (operand_local op) y in
              λ z. nonzero_before l c (sym (r.local l q) ∙ z)
          | inr n ↦
              let (k, q, c) = some_and_lem (λ v. not (v == 0)) (const_u64 op) (ground arith) in
              let v = r.const k q in λ z. ground arith
        ]

  upper_some :
      (o : Option ℕ)
      → ((k : ℕ) → o ≡ some k → m'.value dst ≤ k)
      → RangesHold m' (record s { const_upper = tighten_some s.const_upper dst o })
  upper_some none le = h
  upper_some (some k) le =
      with_upper m' s h _
        (Entries-tighten_upper m' s.const_upper dst k (wide' dst) h.const_upper (le k refl))

  least_lem :
      (o p : Option ℕ) (v k : ℕ)
      → ((j : ℕ) → o ≡ some j → v ≤ j)
      → ((j : ℕ) → p ≡ some j → v ≤ j)
      → least o p ≡ some k
      → v ≤ k
  least_lem none p v k f g e = g k e
  least_lem (some a) none v k f g e = f k e
  least_lem (some a) (some b) v k f g e = let x = f a refl in let y = g b refl in ground arith

  module _ (op1 op2 : Operand) (a b : ℕ) (r1 : Reads m op1 a) (r2 : Reads m op2 b) where
    abbrev Result : BinOp → Type 0
    Result op = BinResult op a b (m'.value dst)

    pub range_bit_or-RangesHold : Result BinOp.bit_or → RangesHold m' (range_bit_or s dst op1 op2)
    unfolding range_bit_or
    range_bit_or-RangesHold v =
        let given = λ (n : m'.value dst ≢ 0). with_nonzero m' s h _ (
          Members-insert_some s.nonzero (some dst) h.nonzero
            (λ l e. subst (λ x. m'.value x ≢ 0) (ground arith) n)) in
        elim (Bool-cases (operand_is_nonzero s op1)) [
          | inl y ↦ rw y (given (v.0 (operand_is_nonzero_lem op1 a r1 y)))
          | inr n ↦ elim (Bool-cases (operand_is_nonzero s op2)) [
            | inl y ↦ rw (n, y) (given (v.1 (operand_is_nonzero_lem op2 b r2 y)))
            | inr n' ↦ rw (n, n') h
          ]
        ]

    pub range_bit_and-RangesHold :
        Result BinOp.bit_and → RangesHold m' (range_bit_and s dst op1 op2)
    unfolding range_bit_and
    range_bit_and-RangesHold v = upper_some _ (λ k e.
        least_lem _ _ (m'.value dst) k
          (λ j f. elim (Option-cases (const_u64 op2)) [
            | inl n ↦ let q = r1.const j (ground arith) in ground arith
            | inr (i, q) ↦ let w = r2.const i q in ground arith
          ])
          (λ j f.
            least_lem (local_upper s op1) (local_upper s op2) (m'.value dst) j
              (λ i g. let w = local_upper_lem op1 a r1 i g in ground arith)
              (λ i g. let w = local_upper_lem op2 b r2 i g in ground arith) f)
          e)

    pub range_rem-RangesHold : Result BinOp.rem → RangesHold m' (range_rem s dst op2)
    unfolding range_rem
    range_rem-RangesHold v = elim (Option-cases (const_u64 op2)) [
      | inl n ↦ rw (n, range_rem) h
      | inr (k, q) ↦ elim (Bool-cases (ltb 0 k)) [
        | inl y ↦
            let w = r2.const k q in
            rw (q, range_rem, y) (upper_some (some (k - 1)) (λ j e. ground arith))
        | inr n ↦ rw (q, range_rem, n) h
      ]
    ]

    -- `checked_shr` below 64.
    shifted-small : (ub k : ℕ) → k < 64 → shifted ub k ≡ ub / 2 ^ k
    unfolding shifted
    shifted-small ub k lt = let q : k % 2 ^ 32 ≡ k = ground arith in rw q (ground arith)

    div_mono : (x y n : ℕ) → 0 < n → x ≤ y → x / n ≤ y / n
    div_mono x y n pos le = (le-div_iff_mul-le pos).1 (le_trans (div-mul-le_self x n) le)

    pub range_shr-RangesHold : Result BinOp.shr → RangesHold m' (range_shr s dst op1 op2)
    unfolding range_shr
    range_shr-RangesHold v = elim (Option-cases (const_u64 op2)) [
      | inl n ↦ rw (n, range_shr) h
      | inr (k, q) ↦
          let e = r2.const k q in
          let src_ub = get_or (local_upper s op1) u64_max in
          let up : a ≤ src_ub = elim (Option-cases (local_upper s op1)) [
            | inl n ↦ rw n r1.wide
            | inr (j, g) ↦ rw g (local_upper_lem op1 a r1 j g)
          ] in
          let bound : m'.value dst ≤ shifted src_ub k =
            rw (shifted-small src_ub k (ground arith), v.1, e)
              (div_mono a src_ub (2 ^ k) (one-le-pow k 2 (omega arith)) up) in
          rw (q, range_shr) (upper_some (some (shifted src_ub k)) (λ j f. ground arith))
    ]

    both_upper_lem :
        (o p : Option ℕ) (c : ℕ × ℕ) → both_upper o p ≡ some c → (o ≡ some c.0) × (p ≡ some c.1)
    both_upper_lem (some i) (some j) c e = ground arith
    both_upper_lem none p c e = absurd (ground arith)
    both_upper_lem (some i) none c e = absurd (ground arith)

    pub product_upper_lem :
        (v k : ℕ) → v ≤ u64_max → v ≤ a * b → product_upper s op1 op2 ≡ some k → v ≤ k
    unfolding product_upper
    product_upper_lem v k w le e =
        elim (Option-cases (both_upper (operand_upper s op1) (operand_upper s op2))) [
          | inl n ↦ absurd (ground arith)
          | inr ((i, j), q) ↦
              let (f, g) = both_upper_lem _ _ (i, j) q in
              let x = operand_upper_lem op1 a r1 i f in
              let y = operand_upper_lem op2 b r2 j g in
              let z : a * b ≤ i * j = mul-le-mul x y in ground arith
        ]

    pub sum_upper_lem : (v k : ℕ) → v ≤ a + b → sum_upper s op1 op2 ≡ some k → v ≤ k
    unfolding sum_upper
    sum_upper_lem v k le e =
        elim (Option-cases (both_upper (operand_upper s op1) (operand_upper s op2))) [
          | inl n ↦ absurd (ground arith)
          | inr ((i, j), q) ↦
              let (f, g) = both_upper_lem _ _ (i, j) q in
              let x = operand_upper_lem op1 a r1 i f in
              let y = operand_upper_lem op2 b r2 j g in ground arith
        ]

-- A bound of the total is a bound of the result.
pub apply_total-RangesHold :
    (m' : Memory)
    → IsWide m'
    → (s : BlockState) (dst : Local) (o : Option ℕ) → ((k : ℕ) → o ≡ some k → m'.value dst ≤ k)
    → RangesHold m' s.ranges_domain
    → RangesHold m' (apply_total s dst o).ranges_domain
unfolding apply_total
apply_total-RangesHold m' wide' s dst none le h = h
apply_total-RangesHold m' wide' s dst (some total) le h = with_upper m' s.ranges_domain h _ (
    Entries-tighten_upper m' s.ranges_domain.const_upper dst (min total u64_max) (wide' dst)
      h.const_upper (let x = le total refl in let y = wide' dst in ground arith))
