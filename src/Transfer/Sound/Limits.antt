-- ===== src/Transfer/Sound/Limits.antt =====
-- Facts that outlive the value that they are about (`apply_statement` of
-- crates/san/src/analysis/transfer.rs): the conditions under which the recorded facts are true are
-- needed.
use san.Base.{
  ℕ, List, Bool, true, false, Option, none, some, ◌≡◌, ◌≢◌, refl, ap, ◌∙◌, nat_eq, arith,
  nat_beq_iff, if◌then◌else◌,
}
use san.Base.Sets.{contains, insert, contains-insert}
use san.Base.Maps.{lookup, lookup-erase}
use san.State.Locals.{Local}
use san.State.{BlockState}
use san.State.Ranges.{RangesDomain}
use san.State.Proven.{local_is_nonzero}
use san.Mir.{Body, Ty, Constant, constant, use_of, assign}
use san.Edge.{refine_true, insert_some, tighten_upper}
use san.Facts.{enforce_type_facts, ty_is_nonzero, uint_type_max}
use san.Transfer.Reads.{set_const, assign_const}
use san.Transfer.Clear.{clear_ranges}
use san.Transfer.Statement.{
  apply_statement, assign_local, prepare_assign, assign_rvalue, assign_use,
}
use san.Transfer.Sound.Ranges.{plain}

-- The facts of a type do not touch the conditional facts, and take no member from `nonzero`.
typed_conditions :
    (b : Bool) (o : Option ℕ) (r : RangesDomain) (l : Local)
    → (elim o as (λ _. RangesDomain) [
      | none ↦ if b then record r { nonzero = insert r.nonzero l } else r
      | some k ↦ record (if b then record r { nonzero = insert r.nonzero l } else r) {
        const_upper =
            tighten_upper
              (if b then record r { nonzero = insert r.nonzero l } else r).const_upper
              l
              k;
      }
    ]).nonzero_if_true
      ≡ r.nonzero_if_true
typed_conditions true none r l = refl
typed_conditions false none r l = refl
typed_conditions true (some k) r l = refl
typed_conditions false (some k) r l = refl

enforce_conditions :
    (r : RangesDomain) (l : Local) (ty : Ty)
    → (enforce_type_facts r l ty).nonzero_if_true ≡ r.nonzero_if_true
unfolding enforce_type_facts
enforce_conditions r l ty = typed_conditions (ty_is_nonzero ty) (uint_type_max ty) r l

set_const_conditions :
    (r : RangesDomain) (x : Local) (o : Option ℕ)
    → (set_const r x o).nonzero_if_true ≡ r.nonzero_if_true
set_const_conditions r x none = refl
set_const_conditions r x (some v) = refl

insert_some_self :
    (xs : List Local) (o : Option Local) (x : Local)
    → o ≡ some x
    → contains (insert_some xs o) x ≡ true
insert_some_self xs none x e = absurd (ground arith)
insert_some_self xs (some y) x e = ground (arith, contains-insert xs y x, nat_beq_iff y x)

-- A condition outlives the local that it is about: where `d` tells that `x` is not zero, `x` is
-- taken to be not zero on the branch on which `d` is true also after a constant, zero included, is
-- assigned to `x`.
pub stale_condition :
    (s : BlockState) (body : Body) (d x : Local) (c : Constant)
    → d ≢ x
    → lookup s.nonzero_if_true d ≡ some x
    → local_is_nonzero
        (refine_true d
          (apply_statement s body (assign (plain x) (use_of (constant c))))).ranges_domain
        x
      ≡ true
unfolding refine_true apply_statement assign_local prepare_assign assign_rvalue assign_use
    assign_const clear_ranges local_is_nonzero
stale_condition s body d x c n h =
    let after = apply_statement s body (assign (plain x) (use_of (constant c))) in
    let kept : lookup after.nonzero_if_true d ≡ some x =
      ap (λ m. lookup m d)
        (enforce_conditions _ x (body.ty x)
          ∙ set_const_conditions (clear_ranges x s.ranges_domain) x c.scalar)
      ∙ ground (arith, lookup-erase s.nonzero_if_true x d, nat_beq_iff x d)
      ∙ h in
    let member = insert_some_self after.nonzero (lookup after.nonzero_if_true d) x kept in
    ground arith
