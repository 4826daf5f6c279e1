-- ===== src/Facts/Types.antt =====
-- The facts that types give hold in the memories in which the locals have values of their types
-- (crates/san/src/analysis/transfer.rs).
use san.Base.{
  ℕ, Bool, true, false, Option, none, some, ◌≡◌, ◌≢◌, refl, subst, ◌≤◌, ◌<◌, ◌^◌, nat_eq,
  if◌then◌else◌, arith,
}
use mathlib.Core.Option.{some-injective}
use san.Base.Sets.{insert}
use san.Base.Texts.{has_any}
use san.State.Locals.{Local}
use san.State.Ranges.{RangesDomain}
use san.Mir.{
  usize, u8, u16, u32, u64, u128, Ty, bool, char, uint, adt, raw_ptr, reference, other_ty, int,
  float, tuple,
}
use san.Edge.{tighten_upper}
use san.Edge.Memory.{Memory, Members-insert_some, Entries-tighten_upper}
use san.Edge.Ranges.{RangesHold, IsWide}
use san.Edge.Queries.{IsScalar}
use san.Facts.{nonzero_names, uint_type_max, ty_is_nonzero, enforce_type_facts}

-- The values of a type. A type named NonZero or NonNull has no zero.
abbrev pub Inhabits : Ty → ℕ → Type 0
Inhabits bool n = n < 2
Inhabits char n = IsScalar n
Inhabits (uint u8) n = n < 2 ^ 8
Inhabits (uint u16) n = n < 2 ^ 16
Inhabits (uint u32) n = n < 2 ^ 32
Inhabits (uint u64) n = n < 2 ^ 64
Inhabits (uint usize) n = n < 2 ^ 64
Inhabits (adt def) n = has_any def.path nonzero_names ≡ true → n ≢ 0
Inhabits _ n = Unit

pub uint_type_max_sound : (ty : Ty) (n k : ℕ) → Inhabits ty n → uint_type_max ty ≡ some k → n ≤ k
unfolding uint_type_max
uint_type_max_sound bool n k h e = ground arith
uint_type_max_sound char n k h e = ground arith
uint_type_max_sound (uint u8) n k h e = ground arith
uint_type_max_sound (uint u16) n k h e = ground arith
uint_type_max_sound (uint u32) n k h e = ground arith
uint_type_max_sound (uint u64) n k h e = ground arith
uint_type_max_sound (uint usize) n k h e = ground arith
uint_type_max_sound (uint u128) n k h e = absurd (ground arith)
uint_type_max_sound (adt def) n k h e = absurd (ground arith)
uint_type_max_sound (raw_ptr t mutbl) n k h e = absurd (ground arith)
uint_type_max_sound (reference t mutbl) n k h e = absurd (ground arith)
uint_type_max_sound other_ty n k h e = absurd (ground arith)
uint_type_max_sound int n k h e = absurd (ground arith)
uint_type_max_sound float n k h e = absurd (ground arith)
uint_type_max_sound (tuple t) n k h e = absurd (ground arith)

ty_is_nonzero_sound : (ty : Ty) (n : ℕ) → Inhabits ty n → ty_is_nonzero ty ≡ true → n ≢ 0
unfolding ty_is_nonzero
ty_is_nonzero_sound (adt def) n h e = h e
ty_is_nonzero_sound bool n h e = absurd (ground arith)
ty_is_nonzero_sound char n h e = absurd (ground arith)
ty_is_nonzero_sound (uint w) n h e = absurd (ground arith)
ty_is_nonzero_sound (raw_ptr t mutbl) n h e = absurd (ground arith)
ty_is_nonzero_sound (reference t mutbl) n h e = absurd (ground arith)
ty_is_nonzero_sound other_ty n h e = absurd (ground arith)
ty_is_nonzero_sound int n h e = absurd (ground arith)
ty_is_nonzero_sound float n h e = absurd (ground arith)
ty_is_nonzero_sound (tuple t) n h e = absurd (ground arith)

module _ (m : Memory) (wide : IsWide m) where
  with_nonzero :
      (s : RangesDomain) (l : Local)
      → m.value l ≢ 0
      → RangesHold m s
      → RangesHold m (record s { nonzero = insert s.nonzero l })
  with_nonzero s l n h = record {
    nonzero =
        Members-insert_some s.nonzero (some l) h.nonzero
          (λ a e. subst (λ x. m.value x ≢ 0) (some-injective _ _ e) n);
    nonzero_if_true = h.nonzero_if_true;
    nonzero_if_false = h.nonzero_if_false;
    finite = h.finite;
    finite_if_true = h.finite_if_true;
    nan_if_true = h.nan_if_true;
    const_upper = h.const_upper;
    const_lower = h.const_lower;
    const_lt = h.const_lt;
    const_le = h.const_le;
    const_gt = h.const_gt;
    const_ge = h.const_ge;
  }

  with_upper :
      (s : RangesDomain) (l : Local) (k : ℕ)
      → m.value l ≤ k
      → RangesHold m s
      → RangesHold m (record s { const_upper = tighten_upper s.const_upper l k })
  with_upper s l k le h = record {
    nonzero = h.nonzero;
    nonzero_if_true = h.nonzero_if_true;
    nonzero_if_false = h.nonzero_if_false;
    finite = h.finite;
    finite_if_true = h.finite_if_true;
    nan_if_true = h.nan_if_true;
    const_upper = Entries-tighten_upper m s.const_upper l k (wide l) h.const_upper le;
    const_lower = h.const_lower;
    const_lt = h.const_lt;
    const_le = h.const_le;
    const_gt = h.const_gt;
    const_ge = h.const_ge;
  }

  nonzero_step :
      (b : Bool) (s : RangesDomain) (l : Local)
      → (b ≡ true → m.value l ≢ 0)
      → RangesHold m s
      → RangesHold m (if b then record s { nonzero = insert s.nonzero l } else s)
  nonzero_step true s l n h = with_nonzero s l (n refl) h
  nonzero_step false s l n h = h

  upper_step :
      (o : Option ℕ) (s : RangesDomain) (l : Local)
      → ((k : ℕ) → o ≡ some k → m.value l ≤ k)
      → RangesHold m s
      → RangesHold m (elim o [
        | none ↦ s
        | some k ↦ record s { const_upper = tighten_upper s.const_upper l k }
      ])
  upper_step none s l le h = h
  upper_step (some k) s l le h = with_upper s l k (le k refl) h

  pub enforce_type_facts_sound :
      (s : RangesDomain) (l : Local) (ty : Ty)
      → Inhabits ty (m.value l)
      → RangesHold m s
      → RangesHold m (enforce_type_facts s l ty)
  unfolding enforce_type_facts
  enforce_type_facts_sound s l ty i h =
      upper_step (uint_type_max ty) _ l (λ k e. uint_type_max_sound ty (m.value l) k i e)
        (nonzero_step (ty_is_nonzero ty) s l (ty_is_nonzero_sound ty (m.value l) i) h)
