-- ===== src/Edge/Ranges.antt =====
-- Value ranges along the two edges of a branch: what `refine_switchint_edge` records in `nonzero`,
-- `finite`, `const_upper` and `const_lower` (crates/san/src/analysis/transfer.rs).
use san.Base.{ℕ, true, Option, none, some, ◌≡◌, ◌≢◌, ◌≤◌, ◌<◌, refl, nat_eq, arith}
use san.Base.Maps.{Map, lookup}
use san.State.Locals.{Local}
use san.State.Ranges.{RangesDomain}
use san.Edge.{
  u64_max, pred_u64, succ_u64, same_u64, upper_from, lower_from, ranges_true, ranges_false,
}
use san.Edge.Memory.{
  Memory, Members, Entries, Upper, Lower, Members-insert_some, Entries-tighten_upper,
  Entries-raise_lower,
}

-- What each field of the domain says of a memory.
pub record RangesHold (m : Memory) (s : RangesDomain) : Type 0 where
  pub nonzero : Members (λ l. m.value l ≢ 0) s.nonzero
  pub nonzero_if_true : Entries (λ d l. m.value d ≢ 0 → m.value l ≢ 0) s.nonzero_if_true
  pub nonzero_if_false : Entries (λ d l. m.value d ≡ 0 → m.value l ≢ 0) s.nonzero_if_false
  pub finite : Members (λ l. m.is_finite l ≡ true) s.finite
  pub finite_if_true : Entries (λ d l. m.value d ≢ 0 → m.is_finite l ≡ true) s.finite_if_true
  pub nan_if_true : Entries (λ d l. m.value d ≡ 0 → m.is_finite l ≡ true) s.nan_if_true
  pub const_upper : Entries (Upper m) s.const_upper
  pub const_lower : Entries (Lower m) s.const_lower
  pub const_lt :
      Entries
        (λ d c. (m.value d ≢ 0 → m.value c.0 < c.1) × (m.value d ≡ 0 → c.1 ≤ m.value c.0))
        s.const_lt
  pub const_le :
      Entries
        (λ d c. (m.value d ≢ 0 → m.value c.0 ≤ c.1) × (m.value d ≡ 0 → c.1 < m.value c.0))
        s.const_le
  pub const_gt :
      Entries
        (λ d c. (m.value d ≢ 0 → c.1 < m.value c.0) × (m.value d ≡ 0 → m.value c.0 ≤ c.1))
        s.const_gt
  pub const_ge :
      Entries
        (λ d c. (m.value d ≢ 0 → c.1 ≤ m.value c.0) × (m.value d ≡ 0 → m.value c.0 < c.1))
        s.const_ge

-- The values are of `u64`.
abbrev pub IsWide : Memory → Type 0
IsWide m = (l : Local) → m.value l ≤ u64_max

module _ (m : Memory) (wide : IsWide m) where
  Entries-upper_from :
      (f : ℕ → ℕ) (us : Map Local ℕ) (o : Option (Local × ℕ))
      → Entries (Upper m) us
      → ((c : Local × ℕ) → o ≡ some c → m.value c.0 ≤ f c.1)
      → Entries (Upper m) (upper_from f us o)
  Entries-upper_from f us none h new d k e = h d k e
  Entries-upper_from f us (some (l, k)) h new d j e =
      Entries-tighten_upper m us l (f k) (wide l) h (new (l, k) refl) d j e

  Entries-lower_from :
      (f : ℕ → ℕ) (ls : Map Local ℕ) (o : Option (Local × ℕ))
      → Entries (Lower m) ls
      → ((c : Local × ℕ) → o ≡ some c → f c.1 ≤ m.value c.0)
      → Entries (Lower m) (lower_from f ls o)
  Entries-lower_from f ls none h new d k e = h d k e
  Entries-lower_from f ls (some (l, k)) h new d j e =
      Entries-raise_lower m ls l (f k) h (new (l, k) refl) d j e

  succ_u64_le : (l k : ℕ) → k < m.value l → succ_u64 k ≤ m.value l
  succ_u64_le l k h = omega arith

  pred_u64_le : (l k : ℕ) → m.value l < k → m.value l ≤ pred_u64 k
  pred_u64_le l k h = omega arith

  pub ranges_true-RangesHold :
      (d : Local) (s : RangesDomain)
      → m.value d ≢ 0
      → RangesHold m s
      → RangesHold m (ranges_true d s)
  unfolding ranges_true
  ranges_true-RangesHold d s t h = record {
    nonzero = Members-insert_some s.nonzero _ h.nonzero (λ l e. h.nonzero_if_true d l e t);
    nonzero_if_true = h.nonzero_if_true;
    nonzero_if_false = h.nonzero_if_false;
    finite = Members-insert_some s.finite _ h.finite (λ l e. h.finite_if_true d l e t);
    finite_if_true = h.finite_if_true;
    nan_if_true = h.nan_if_true;
    const_upper =
        Entries-upper_from same_u64 _ (lookup s.const_le d)
          (Entries-upper_from pred_u64 s.const_upper (lookup s.const_lt d) h.const_upper
            (λ c e. pred_u64_le c.0 c.1 ((h.const_lt d c e).0 t)))
          (λ c e. (h.const_le d c e).0 t);
    const_lower =
        Entries-lower_from same_u64 _ (lookup s.const_ge d)
          (Entries-lower_from succ_u64 s.const_lower (lookup s.const_gt d) h.const_lower
            (λ c e. succ_u64_le c.0 c.1 ((h.const_gt d c e).0 t)))
          (λ c e. (h.const_ge d c e).0 t);
    const_lt = h.const_lt;
    const_le = h.const_le;
    const_gt = h.const_gt;
    const_ge = h.const_ge;
  }

  pub ranges_false-RangesHold :
      (d : Local) (s : RangesDomain)
      → m.value d ≡ 0
      → RangesHold m s
      → RangesHold m (ranges_false d s)
  unfolding ranges_false
  ranges_false-RangesHold d s f h = record {
    nonzero = Members-insert_some s.nonzero _ h.nonzero (λ l e. h.nonzero_if_false d l e f);
    nonzero_if_true = h.nonzero_if_true;
    nonzero_if_false = h.nonzero_if_false;
    finite = Members-insert_some s.finite _ h.finite (λ l e. h.nan_if_true d l e f);
    finite_if_true = h.finite_if_true;
    nan_if_true = h.nan_if_true;
    const_upper =
        Entries-upper_from pred_u64 _ (lookup s.const_ge d)
          (Entries-upper_from same_u64 s.const_upper (lookup s.const_gt d) h.const_upper
            (λ c e. (h.const_gt d c e).1 f))
          (λ c e. pred_u64_le c.0 c.1 ((h.const_ge d c e).1 f));
    const_lower =
        Entries-lower_from succ_u64 _ (lookup s.const_le d)
          (Entries-lower_from same_u64 s.const_lower (lookup s.const_lt d) h.const_lower
            (λ c e. (h.const_lt d c e).1 f))
          (λ c e. succ_u64_le c.0 c.1 ((h.const_le d c e).1 f));
    const_lt = h.const_lt;
    const_le = h.const_le;
    const_gt = h.const_gt;
    const_ge = h.const_ge;
  }
