-- ===== src/Facts/Lengths.antt =====
-- The facts that comparisons of lengths with capacities give hold in the memories in which the
-- comparisons do (crates/san/src/analysis/transfer.rs).
use san.Base.{
  Bool, true, false, Option, none, some, ◌≡◌, ◌≢◌, ◌∙◌, inl, inr, refl, sym, ap, ◌<◌, nat_eq,
  nat_beq_iff, ◌==◌, arith, Bool-cases, Option-cases,
}
use mathlib.Core.Option.{some-injective}
use san.Base.Maps.{lookup}
use san.State.Locals.{Local}
use san.State.Capacity.{CapacityDomain}
use san.Mir.{Operand}
use san.Edge.{operand_local}
use san.Edge.Memory.{Memory, Entries, Entries-put}
use san.Edge.Bounds.{CapacityHold, Spare, Full}
use san.Facts.{
  same_coll, swapped, both_locals, record_spare, insert_spare, record_full, insert_full, full_coll,
}

-- The branch of the comparison `dst` on which `P` holds.
abbrev pub Decides : Memory → Local → Bool → Type 0 → Type 0
Decides m dst true P = m.value dst ≢ 0 → P
Decides m dst false P = m.value dst ≡ 0 → P

Decides_true :
    (m : Memory) (dst : Local) (b : Bool) (P : Type 0)
    → Decides m dst b P
    → b ≡ true
    → m.value dst ≢ 0
    → P
Decides_true m dst true P d e = d
Decides_true m dst false P d e = absurd (ground arith)

Decides_false :
    (m : Memory) (dst : Local) (b : Bool) (P : Type 0)
    → Decides m dst b P
    → b ≡ false
    → m.value dst ≡ 0
    → P
Decides_false m dst false P d e = d
Decides_false m dst true P d e = absurd (ground arith)

-- Comparisons of a length with a capacity.
module _ (m : Memory) (s : CapacityDomain) (lens : Entries (λ l c. m.value l ≡ m.len c) s.len_of)
    (caps : Entries (λ l c. m.value l ≡ m.cap c) s.cap_of) (h : CapacityHold m s)
    (dst : Local) where
  insert_spare-CapacityHold :
      (on_true : Bool) (coll : Local)
      → (on_true ≡ true → m.value dst ≢ 0 → Spare m coll)
      → (on_true ≡ false → m.value dst ≡ 0 → Spare m coll)
      → CapacityHold m (insert_spare s dst on_true coll)
  unfolding insert_spare
  insert_spare-CapacityHold true coll t f = record {
    spare_if_true = Entries-put s.spare_if_true dst coll h.spare_if_true (t refl);
    spare_if_false = h.spare_if_false;
    has_spare = h.has_spare;
    full_if_true = h.full_if_true;
    full_if_false = h.full_if_false;
    is_full = h.is_full;
  }
  insert_spare-CapacityHold false coll t f = record {
    spare_if_true = h.spare_if_true;
    spare_if_false = Entries-put s.spare_if_false dst coll h.spare_if_false (f refl);
    has_spare = h.has_spare;
    full_if_true = h.full_if_true;
    full_if_false = h.full_if_false;
    is_full = h.is_full;
  }

  insert_full-CapacityHold :
      (on_true : Bool) (coll : Local)
      → (on_true ≡ true → m.value dst ≢ 0 → Full m coll)
      → (on_true ≡ false → m.value dst ≡ 0 → Full m coll)
      → CapacityHold m (insert_full s dst on_true coll)
  unfolding insert_full
  insert_full-CapacityHold true coll t f = record {
    spare_if_true = h.spare_if_true;
    spare_if_false = h.spare_if_false;
    has_spare = h.has_spare;
    full_if_true = Entries-put s.full_if_true dst coll h.full_if_true (t refl);
    full_if_false = h.full_if_false;
    is_full = h.is_full;
  }
  insert_full-CapacityHold false coll t f = record {
    spare_if_true = h.spare_if_true;
    spare_if_false = h.spare_if_false;
    has_spare = h.has_spare;
    full_if_true = h.full_if_true;
    full_if_false = Entries-put s.full_if_false dst coll h.full_if_false (f refl);
    is_full = h.is_full;
  }

  same_coll_lem :
      (x y : Local) (ox oy : Option Local) (c : Local)
      → lookup s.len_of x ≡ ox
      → lookup s.cap_of y ≡ oy
      → same_coll ox oy ≡ some c
      → (m.value x ≡ m.len c) × (m.value y ≡ m.cap c)
  same_coll_lem x y none oy c p q e = absurd (ground arith)
  same_coll_lem x y (some cl) none c p q e = absurd (ground arith)
  same_coll_lem x y (some cl) (some cc) c p q e = elim (Bool-cases (cl == cc)) [
    | inl same ↦
        let r : cl ≡ c = ground arith in
        let r' : cc ≡ c = sym ((nat_beq_iff cl cc).0 same) ∙ r in
        (lens x c (p ∙ ap some r), caps y c (q ∙ ap some r'))
    | inr other ↦ absurd (ground arith)
  ]

  spare_coll-CapacityHold :
      (on_true : Bool) (x y : Local) (o : Option Local)
      → same_coll (lookup s.len_of x) (lookup s.cap_of y) ≡ o
      → (on_true ≡ true → m.value dst ≢ 0 → m.value x < m.value y)
      → (on_true ≡ false → m.value dst ≡ 0 → m.value x < m.value y)
      → CapacityHold m (elim o [ none ↦ s | some cl ↦ insert_spare s dst on_true cl ])
  spare_coll-CapacityHold when x y none e t f = h
  spare_coll-CapacityHold when x y (some c) e t f =
      let (lx, cy) = same_coll_lem x y (lookup s.len_of x) (lookup s.cap_of y) c refl refl e in
      insert_spare-CapacityHold when c (λ b n. rw (sym lx, sym cy) (t b n))
        (λ b z. rw (sym lx, sym cy) (f b z))

  full_coll_lem : (a b c : Local) → full_coll s a b ≡ some c → m.value a ≡ m.value b → Full m c
  unfolding full_coll
  full_coll_lem a b c e q =
      elim (Option-cases (same_coll (lookup s.len_of a) (lookup s.cap_of b))) [
        | inl unknown ↦
            let (lb, ca) =
              same_coll_lem b a (lookup s.len_of b) (lookup s.cap_of a) c refl refl
                (rw (full_coll, unknown) at e) in
            sym lb ∙ (sym q ∙ ca)
        | inr (c', known) ↦
            let same : c' ≡ c = some-injective _ _ (rw (full_coll, known) at e) in
            let (la, cb) =
              same_coll_lem a b (lookup s.len_of a) (lookup s.cap_of b) c refl refl
                (known ∙ ap some same) in
            sym la ∙ (q ∙ cb)
      ]

  spare_operands-CapacityHold :
      (when cap_first : Bool) (o : Option (Local × Local))
      → ((p : Local × Local)
          → o ≡ some p
          → Decides m dst when (m.value (swapped cap_first p).0 < m.value (swapped cap_first p).1))
      → CapacityHold m (elim o [
        | none ↦ s
        | some p ↦
            elim (same_coll
              (lookup s.len_of (swapped cap_first p).0)
              (lookup s.cap_of (swapped cap_first p).1)) [
                | none ↦ s
                | some cl ↦ insert_spare s dst when cl
              ]
      ])
  spare_operands-CapacityHold when cap_first none d = h
  spare_operands-CapacityHold when cap_first (some p) d =
      spare_coll-CapacityHold when (swapped cap_first p).0 (swapped cap_first p).1 _ refl
        (Decides_true m dst when _ (d p refl)) (Decides_false m dst when _ (d p refl))

  -- A comparison of a length with a capacity is recorded for what it says: if on the recorded branch
  -- the local on the length's side is less than the one on the capacity's side, then the facts on
  -- capacities still hold.
  pub record_spare_sound :
      (op1 op2 : Operand) (when cap_first : Bool)
      → ((p : Local × Local)
          → both_locals (operand_local op1) (operand_local op2) ≡ some p
          → Decides m dst when (m.value (swapped cap_first p).0 < m.value (swapped cap_first p).1))
      → CapacityHold m (record_spare s dst op1 op2 when cap_first)
  unfolding record_spare
  record_spare_sound op1 op2 when cap_first d =
      spare_operands-CapacityHold when cap_first
        (both_locals (operand_local op1) (operand_local op2)) d

  full_step-CapacityHold :
      (when : Bool) (a b : Local) (o : Option Local)
      → full_coll s a b ≡ o
      → Decides m dst when (m.value a ≡ m.value b)
      → CapacityHold m (elim o [ none ↦ s | some coll ↦ insert_full s dst when coll ])
  full_step-CapacityHold when a b none e d = h
  full_step-CapacityHold when a b (some c) e d =
      insert_full-CapacityHold when c
        (λ t n. full_coll_lem a b c e (Decides_true m dst when _ d t n))
        (λ f z. full_coll_lem a b c e (Decides_false m dst when _ d f z))

  full_operands-CapacityHold :
      (when : Bool) (o : Option (Local × Local))
      → ((p : Local × Local) → o ≡ some p → Decides m dst when (m.value p.0 ≡ m.value p.1))
      → CapacityHold m (elim o [
        | none ↦ s
        | some (a, b) ↦ elim (full_coll s a b) [
          | none ↦ s
          | some coll ↦ insert_full s dst when coll
        ]
      ])
  full_operands-CapacityHold when none d = h
  full_operands-CapacityHold when (some (a, b)) d =
      full_step-CapacityHold when a b (full_coll s a b) refl (d (a, b) refl)

  -- Likewise for a comparison that is an equation on the recorded branch: the collection that the
  -- two locals belong to is recorded as full there, whichever of them is the length.
  pub record_full_sound :
      (op1 op2 : Operand) (when : Bool)
      → ((p : Local × Local)
          → both_locals (operand_local op1) (operand_local op2) ≡ some p
          → Decides m dst when (m.value p.0 ≡ m.value p.1))
      → CapacityHold m (record_full s dst op1 op2 when)
  unfolding record_full
  record_full_sound op1 op2 when d =
      full_operands-CapacityHold when (both_locals (operand_local op1) (operand_local op2)) d
