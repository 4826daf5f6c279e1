-- ===== src/Transfer/Sound/Ranges.antt =====
-- The facts on ranges after an assignment to a local (`apply_statement` of
-- crates/san/src/analysis/transfer.rs).
use san.Base.{
  ℕ, List, [], ◌∷◌, Bool, true, false, Option, none, some, ◌≡◌, refl, sym, ◌∙◌, nat_eq,
  if◌then◌else◌,
}
use san.State.Locals.{Local}
use san.State.{BlockState}
use san.Mir.{
  ProjectionElem, Place, Operand, copy, move, constant, Ty, Body, CastKind, Rvalue, use_of, ref_to,
  raw_ptr_to, cast, binary_op, ptr_metadata, aggregate, other_rvalue, assign,
}
use san.Edge.{operand_local, plain_local}
use san.Edge.Memory.{Memory}
use san.Edge.Ranges.{RangesHold, IsWide}
use san.Facts.Types.{Inhabits, enforce_type_facts_sound}
use san.Transfer.Clear.{clear_ranges}
use san.Transfer.Moves.{propagate_plain, propagate_facts, propagate_ranges}
use san.Transfer.Store.{rvalue_local}
use san.Transfer.Statement.{
  prepare_assign, assign_use, use_projected, assign_cast, assign_rvalue, assign_local,
  apply_statement, is_borrow,
}
use san.State.Ownership.{invalidate_owner}
use san.Transfer.Binary.{const_u64}
use san.Transfer.Reads.{is_field_read, cast_number, untrack}
use san.Transfer.Sound.Meaning.{Assigns, IsSeparate, IsUnconditional}
use san.Transfer.Sound.Clear.{clear_ranges-RangesHold, clear_ranges-IsUnknown, IsUnknown}
use san.Transfer.Sound.Moves.{propagate_ranges-RangesHold}
use san.Transfer.Sound.Operations.{apply_binary-RangesHold}
use san.Transfer.Sound.Casts.{cast_int-RangesHold, set_const-RangesHold}

-- What holds of a state, where a test chooses between two.
module _ (P : BlockState → Type 0) {x y : BlockState} where
  by_test : (b : Bool) → P x → P y → P (if b then x else y)
  by_test true h k = h
  by_test false h k = k

  by_projection : (p : List ProjectionElem) → P x → P y → P (elim p [ [] ↦ x | _ ∷ _ ↦ y ])
  by_projection [] h k = h
  by_projection (e ∷ p) h k = k

module _ (m m' : Memory) (wide : IsWide m) (wide' : IsWide m') (dst : Local) (s : BlockState)
    (body : Body) (u : IsUnconditional dst s.ranges_domain) (h : RangesHold m s.ranges_domain) where
  -- Once the facts on the destination are cleared.
  cleared :
      (rvalue : Rvalue) → Assigns m m' dst rvalue → RangesHold m' (clear_ranges dst s.ranges_domain)
  cleared rvalue assigns =
      clear_ranges-RangesHold dst m m' assigns.keeps_value assigns.keeps_finite s.ranges_domain u h

  -- A move or a copy of a local.
  use_facts :
      (rvalue : Rvalue) (is_move : Bool) (src : Option Local) (t : BlockState)
      → Assigns m m' dst rvalue
      → ((l : Local) → src ≡ some l → m'.value dst ≡ m.value l)
      → ((l : Local) → src ≡ some l → m'.is_finite dst ≡ m.is_finite l)
      → RangesHold m' t.ranges_domain
      → IsUnknown dst t.ranges_domain
      → RangesHold m' (propagate_plain is_move dst src t).ranges_domain
  unfolding propagate_facts propagate_ranges
  use_facts rvalue is_move none t assigns value finite k unknown = k
  use_facts rvalue is_move (some l) t assigns value finite k unknown =
      propagate_ranges-RangesHold is_move dst l m' t.ranges_domain unknown
        (λ n. value l refl ∙ sym (assigns.keeps_value l n))
        (λ n. finite l refl ∙ sym (assigns.keeps_finite l n)) k

  prepare_assign-RangesHold :
      (rvalue : Rvalue)
      → Assigns m m' dst rvalue
      → RangesHold m' (prepare_assign s body dst rvalue).ranges_domain
  unfolding prepare_assign rvalue_local operand_local
  prepare_assign-RangesHold (use_of (move src)) a =
      use_facts (use_of (move src)) true (plain_local src) _ a (λ l e. a.value.local l e)
        (λ l e. a.finite l e) (cleared (use_of (move src)) a)
        (clear_ranges-IsUnknown dst s.ranges_domain)
  prepare_assign-RangesHold (use_of (copy src)) a =
      use_facts (use_of (copy src)) false (plain_local src) _ a (λ l e. a.value.local l e)
        (λ l e. a.finite l e) (cleared (use_of (copy src)) a)
        (clear_ranges-IsUnknown dst s.ranges_domain)
  prepare_assign-RangesHold (use_of (constant c)) a = cleared (use_of (constant c)) a
  prepare_assign-RangesHold (ref_to place) a = cleared (ref_to place) a
  prepare_assign-RangesHold (raw_ptr_to place) a = cleared (raw_ptr_to place) a
  prepare_assign-RangesHold (cast kind op ty) a = cleared (cast kind op ty) a
  prepare_assign-RangesHold (binary_op op op1 op2) a = cleared (binary_op op op1 op2) a
  prepare_assign-RangesHold (ptr_metadata op) a = cleared (ptr_metadata op) a
  prepare_assign-RangesHold (aggregate kind ops) a = cleared (aggregate kind ops) a
  prepare_assign-RangesHold other_rvalue a = cleared other_rvalue a

  abbrev Holds : BlockState → Type 0
  Holds t = RangesHold m' t.ranges_domain

  use_projected-Holds :
      (t : BlockState) (is_move : Bool) (src : Place)
      → Holds t
      → Holds (use_projected t dst is_move src)
  unfolding use_projected
  use_projected-Holds t is_move src k =
      by_test Holds (is_field_read src.projection) k
        (by_test Holds is_move (by_projection Holds src.projection k k) k)

  assign_use-Holds :
      (t : BlockState) (op : Operand)
      → ((j : ℕ) → const_u64 op ≡ some j → m'.value dst ≡ j)
      → Holds t
      → Holds (assign_use t dst op)
  unfolding assign_use const_u64
  assign_use-Holds t (constant c) q k =
      set_const-RangesHold m' wide' dst t.ranges_domain c.scalar q k
  assign_use-Holds t (move src) q k =
      by_projection Holds src.projection k (use_projected-Holds t true src k)
  assign_use-Holds t (copy src) q k =
      by_projection Holds src.projection k (use_projected-Holds t false src k)

  cast_int_number :
      (op : Operand) (src : Local) (ty : Ty)
      → operand_local op ≡ some src
      → Assigns m m' dst (cast CastKind.int_to_int op ty)
      → RangesHold m'
          (assign_cast
            (prepare_assign s body dst (cast CastKind.int_to_int op ty))
            body
            dst
            CastKind.int_to_int
            src
            ty).ranges_domain
  unfolding prepare_assign assign_cast cast_number
  cast_int_number op src ty q a =
      cast_int-RangesHold m' wide' dst _ src ty (clear_ranges-IsUnknown dst s.ranges_domain)
        a.value.1 (λ n. a.value.0.local src q ∙ sym (a.keeps_value src n))
        (cleared (cast CastKind.int_to_int op ty) a)

  -- A cast; only one of integers records facts on ranges.
  assign_cast-Holds :
      (kind : CastKind) (op : Operand) (src : Local) (ty : Ty)
      → operand_local op ≡ some src
      → Assigns m m' dst (cast kind op ty)
      → Holds (assign_cast (prepare_assign s body dst (cast kind op ty)) body dst kind src ty)
  unfolding assign_cast cast_number
  assign_cast-Holds CastKind.int_to_int op src ty q a = cast_int_number op src ty q a
  assign_cast-Holds CastKind.ptr_to_ptr op src ty q a = prepare_assign-RangesHold _ a
  assign_cast-Holds CastKind.transmute op src ty q a = prepare_assign-RangesHold _ a
  assign_cast-Holds CastKind.int_to_float op src ty q a = prepare_assign-RangesHold _ a
  assign_cast-Holds CastKind.float_to_int op src ty q a = prepare_assign-RangesHold _ a
  assign_cast-Holds CastKind.float_to_float op src ty q a = prepare_assign-RangesHold _ a
  assign_cast-Holds CastKind.reify_fn_pointer op src ty q a = prepare_assign-RangesHold _ a
  assign_cast-Holds CastKind.other_cast op src ty q a = prepare_assign-RangesHold _ a

  by_cast :
      (kind : CastKind) (op : Operand) (ty : Ty) (o : Option Local)
      → operand_local op ≡ o
      → Assigns m m' dst (cast kind op ty)
      → Holds (elim o [
        | some src ↦ assign_cast (prepare_assign s body dst (cast kind op ty)) body dst kind src ty
        | none ↦ untrack dst (prepare_assign s body dst (cast kind op ty))
      ])
  unfolding untrack
  by_cast kind op ty none q a = prepare_assign-RangesHold (cast kind op ty) a
  by_cast kind op ty (some src) q a = assign_cast-Holds kind op src ty q a

  assign_rvalue-Holds :
      (rvalue : Rvalue)
      → IsSeparate dst rvalue
      → Assigns m m' dst rvalue
      → Holds (assign_rvalue (prepare_assign s body dst rvalue) body dst rvalue)
  unfolding assign_rvalue untrack prepare_assign
  assign_rvalue-Holds (use_of op) sep a =
      assign_use-Holds _ op (λ j e. a.value.const j e) (prepare_assign-RangesHold (use_of op) a)
  assign_rvalue-Holds (ref_to place) sep a =
      let k = prepare_assign-RangesHold (ref_to place) a in by_projection Holds place.projection k k
  assign_rvalue-Holds (raw_ptr_to place) sep a =
      let k = prepare_assign-RangesHold (raw_ptr_to place) a in
      by_test Holds (is_borrow place.projection) k k
  assign_rvalue-Holds (cast kind op ty) sep a = by_cast kind op ty (operand_local op) refl a
  assign_rvalue-Holds (binary_op op op1 op2) sep a =
      let (x, y, r1, r2, v) = a.value in
      apply_binary-RangesHold m m' wide wide' dst a.keeps_value _ body op1 op2 x y r1 r2
        (clear_ranges-IsUnknown dst s.ranges_domain)
        (prepare_assign-RangesHold (binary_op op op1 op2) a) op sep v
  assign_rvalue-Holds (ptr_metadata op) sep a = prepare_assign-RangesHold (ptr_metadata op) a
  assign_rvalue-Holds (aggregate kind ops) sep a = prepare_assign-RangesHold (aggregate kind ops) a
  assign_rvalue-Holds other_rvalue sep a = prepare_assign-RangesHold other_rvalue a

-- A local as a place.
abbrev pub plain : Local → Place
plain l = record { local = l; projection = [] }

-- After an assignment to a local the facts on ranges hold, if they held before, the rvalue has its
-- meaning in MIR for unsigned values of `u64`, a comparison does not overwrite its operands, the new
-- value is one of the local's type, and no conditional fact was
-- about the local.
pub apply_statement_ranges_sound :
    (m m' : Memory)
    → IsWide m
    → IsWide m'
    → (s : BlockState) (body : Body) (dst : Local) (rvalue : Rvalue) → Assigns m m' dst rvalue
    → IsSeparate dst rvalue
    → Inhabits (body.ty dst) (m'.value dst)
    → IsUnconditional dst s.ranges_domain
    → RangesHold m s.ranges_domain
    → RangesHold m' (apply_statement s body (assign (plain dst) rvalue)).ranges_domain
unfolding apply_statement assign_local
apply_statement_ranges_sound m m' wide wide' s body dst rvalue a sep i u h =
    enforce_type_facts_sound m' wide' _ dst (body.ty dst) i (
      assign_rvalue-Holds m m' wide wide' dst
        (record s { tracking_domain = invalidate_owner s.tracking_domain dst }) body u h rvalue sep
        a)
