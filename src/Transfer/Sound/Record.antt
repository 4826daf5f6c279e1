-- ===== src/Transfer/Sound/Record.antt =====
-- One more fact on ranges that holds leaves a state whose facts hold, field by field.
use san.Base.{ℕ, List, Option, none, some, true, ◌≡◌, ◌≢◌, ◌≤◌, ◌<◌, refl, nat_eq}
use san.Base.Maps.{Map}
use san.State.Locals.{Local}
use san.State.Ranges.{RangesDomain}
use san.Edge.Memory.{Memory, Members, Entries, Upper, Lower, Entries-put}
use san.Edge.Ranges.{RangesHold}
use san.Transfer.Binary.{put_some}

Entries-put_some :
    {V : Type 0} {P : Local → V → Type 0} (m : Map Local V) (dst : Local) (o : Option V)
    → Entries P m
    → ((v : V) → o ≡ some v → P dst v)
    → Entries P (put_some m dst o)
Entries-put_some m dst none h new d v e = h d v e
Entries-put_some m dst (some w) h new d v e = Entries-put m dst w h (new w refl) d v e

module _ (m : Memory) (s : RangesDomain) (h : RangesHold m s) where
  pub with_nonzero :
      (nonzero' : List Local)
      → Members (λ l. m.value l ≢ 0) nonzero'
      → RangesHold m (record s { nonzero = nonzero' })
  with_nonzero nonzero' k = record {
    nonzero = k;
    nonzero_if_true = h.nonzero_if_true;
    nonzero_if_false = h.nonzero_if_false;
    finite = h.finite;
    finite_if_true = h.finite_if_true;
    nan_if_true = h.nan_if_true;
    const_upper = h.const_upper;
    const_lower = h.const_lower;
    const_lt = h.const_lt;
    const_le = h.const_le;
    const_gt = h.const_gt;
    const_ge = h.const_ge;
  }

  pub with_upper :
      (upper : Map Local ℕ)
      → Entries (Upper m) upper
      → RangesHold m (record s { const_upper = upper })
  with_upper upper k = record {
    nonzero = h.nonzero;
    nonzero_if_true = h.nonzero_if_true;
    nonzero_if_false = h.nonzero_if_false;
    finite = h.finite;
    finite_if_true = h.finite_if_true;
    nan_if_true = h.nan_if_true;
    const_upper = k;
    const_lower = h.const_lower;
    const_lt = h.const_lt;
    const_le = h.const_le;
    const_gt = h.const_gt;
    const_ge = h.const_ge;
  }

  pub with_lower :
      (lower : Map Local ℕ)
      → Entries (Lower m) lower
      → RangesHold m (record s { const_lower = lower })
  with_lower lower k = record {
    nonzero = h.nonzero;
    nonzero_if_true = h.nonzero_if_true;
    nonzero_if_false = h.nonzero_if_false;
    finite = h.finite;
    finite_if_true = h.finite_if_true;
    nan_if_true = h.nan_if_true;
    const_upper = h.const_upper;
    const_lower = k;
    const_lt = h.const_lt;
    const_le = h.const_le;
    const_gt = h.const_gt;
    const_ge = h.const_ge;
  }

  pub with_finite :
      (finite' : List Local)
      → Members (λ l. m.is_finite l ≡ true) finite'
      → RangesHold m (record s { finite = finite' })
  with_finite finite' k = record {
    nonzero = h.nonzero;
    nonzero_if_true = h.nonzero_if_true;
    nonzero_if_false = h.nonzero_if_false;
    finite = k;
    finite_if_true = h.finite_if_true;
    nan_if_true = h.nan_if_true;
    const_upper = h.const_upper;
    const_lower = h.const_lower;
    const_lt = h.const_lt;
    const_le = h.const_le;
    const_gt = h.const_gt;
    const_ge = h.const_ge;
  }

  pub with_nonzero_if_true :
      (dst : Local) (o : Option (Local))
      → ((l : Local) → o ≡ some l → m.value dst ≢ 0 → m.value l ≢ 0)
      → RangesHold m (record s { nonzero_if_true = put_some s.nonzero_if_true dst o })
  with_nonzero_if_true dst o new = record {
    nonzero = h.nonzero;
    nonzero_if_true = Entries-put_some s.nonzero_if_true dst o h.nonzero_if_true new;
    nonzero_if_false = h.nonzero_if_false;
    finite = h.finite;
    finite_if_true = h.finite_if_true;
    nan_if_true = h.nan_if_true;
    const_upper = h.const_upper;
    const_lower = h.const_lower;
    const_lt = h.const_lt;
    const_le = h.const_le;
    const_gt = h.const_gt;
    const_ge = h.const_ge;
  }

  pub with_nonzero_if_false :
      (dst : Local) (o : Option (Local))
      → ((l : Local) → o ≡ some l → m.value dst ≡ 0 → m.value l ≢ 0)
      → RangesHold m (record s { nonzero_if_false = put_some s.nonzero_if_false dst o })
  with_nonzero_if_false dst o new = record {
    nonzero = h.nonzero;
    nonzero_if_true = h.nonzero_if_true;
    nonzero_if_false = Entries-put_some s.nonzero_if_false dst o h.nonzero_if_false new;
    finite = h.finite;
    finite_if_true = h.finite_if_true;
    nan_if_true = h.nan_if_true;
    const_upper = h.const_upper;
    const_lower = h.const_lower;
    const_lt = h.const_lt;
    const_le = h.const_le;
    const_gt = h.const_gt;
    const_ge = h.const_ge;
  }

  pub with_const_lt :
      (dst : Local) (o : Option (Local × ℕ))
      → ((c : Local × ℕ)
          → o ≡ some c
          → (m.value dst ≢ 0 → m.value c.0 < c.1) × (m.value dst ≡ 0 → c.1 ≤ m.value c.0))
      → RangesHold m (record s { const_lt = put_some s.const_lt dst o })
  with_const_lt dst o new = record {
    nonzero = h.nonzero;
    nonzero_if_true = h.nonzero_if_true;
    nonzero_if_false = h.nonzero_if_false;
    finite = h.finite;
    finite_if_true = h.finite_if_true;
    nan_if_true = h.nan_if_true;
    const_upper = h.const_upper;
    const_lower = h.const_lower;
    const_lt = Entries-put_some s.const_lt dst o h.const_lt new;
    const_le = h.const_le;
    const_gt = h.const_gt;
    const_ge = h.const_ge;
  }

  pub with_const_le :
      (dst : Local) (o : Option (Local × ℕ))
      → ((c : Local × ℕ)
          → o ≡ some c
          → (m.value dst ≢ 0 → m.value c.0 ≤ c.1) × (m.value dst ≡ 0 → c.1 < m.value c.0))
      → RangesHold m (record s { const_le = put_some s.const_le dst o })
  with_const_le dst o new = record {
    nonzero = h.nonzero;
    nonzero_if_true = h.nonzero_if_true;
    nonzero_if_false = h.nonzero_if_false;
    finite = h.finite;
    finite_if_true = h.finite_if_true;
    nan_if_true = h.nan_if_true;
    const_upper = h.const_upper;
    const_lower = h.const_lower;
    const_lt = h.const_lt;
    const_le = Entries-put_some s.const_le dst o h.const_le new;
    const_gt = h.const_gt;
    const_ge = h.const_ge;
  }

  pub with_const_gt :
      (dst : Local) (o : Option (Local × ℕ))
      → ((c : Local × ℕ)
          → o ≡ some c
          → (m.value dst ≢ 0 → c.1 < m.value c.0) × (m.value dst ≡ 0 → m.value c.0 ≤ c.1))
      → RangesHold m (record s { const_gt = put_some s.const_gt dst o })
  with_const_gt dst o new = record {
    nonzero = h.nonzero;
    nonzero_if_true = h.nonzero_if_true;
    nonzero_if_false = h.nonzero_if_false;
    finite = h.finite;
    finite_if_true = h.finite_if_true;
    nan_if_true = h.nan_if_true;
    const_upper = h.const_upper;
    const_lower = h.const_lower;
    const_lt = h.const_lt;
    const_le = h.const_le;
    const_gt = Entries-put_some s.const_gt dst o h.const_gt new;
    const_ge = h.const_ge;
  }

  pub with_const_ge :
      (dst : Local) (o : Option (Local × ℕ))
      → ((c : Local × ℕ)
          → o ≡ some c
          → (m.value dst ≢ 0 → c.1 ≤ m.value c.0) × (m.value dst ≡ 0 → m.value c.0 < c.1))
      → RangesHold m (record s { const_ge = put_some s.const_ge dst o })
  with_const_ge dst o new = record {
    nonzero = h.nonzero;
    nonzero_if_true = h.nonzero_if_true;
    nonzero_if_false = h.nonzero_if_false;
    finite = h.finite;
    finite_if_true = h.finite_if_true;
    nan_if_true = h.nan_if_true;
    const_upper = h.const_upper;
    const_lower = h.const_lower;
    const_lt = h.const_lt;
    const_le = h.const_le;
    const_gt = h.const_gt;
    const_ge = Entries-put_some s.const_ge dst o h.const_ge new;
  }
