-- ===== src/Transfer/Sound/Clear.antt =====
-- Facts on ranges after their local is cleared: they do not depend on the new value.
use san.Base.{
  ℕ, List, true, false, none, some, ◌≡◌, ◌≢◌, ◌≤◌, ◌<◌, sym, ◌∙◌, subst, nat_eq, arith, nat_beq_iff,
}
use san.Base.Sets.{contains, remove, contains-remove}
use san.Base.Maps.{Map, lookup, erase, lookup-erase}
use san.State.Locals.{Local}
use san.State.Ranges.{RangesDomain}
use san.Edge.Memory.{Memory, Members, Entries}
use san.Edge.Ranges.{RangesHold}
use san.Transfer.Clear.{clear_ranges}
use san.Transfer.Sound.Meaning.{IsUnconditional}

pub lookup-erase_self : {V : Type 0} (m : Map Local V) (k : Local) → lookup (erase m k) k ≡ none
lookup-erase_self m k = ground (arith, lookup-erase m k k, nat_beq_iff k k)

pub contains-remove_self : (xs : List Local) (k : Local) → contains (remove xs k) k ≡ false
contains-remove_self xs k = ground (arith, contains-remove xs k k, nat_beq_iff k k)

-- An entry that is left is the entry of another key.
pub lookup-erase-some :
    {V : Type 0} (m : Map Local V) (k d : Local) {v : V}
    → lookup (erase m k) d ≡ some v
    → (d ≢ k) × (lookup m d ≡ some v)
lookup-erase-some m k d e = (
  λ q. absurd (ground (arith, lookup-erase m k d, nat_beq_iff k d)),
  ground (arith, lookup-erase m k d),
)

pub contains-remove-true :
    (xs : List Local) (k a : Local)
    → contains (remove xs k) a ≡ true
    → (a ≢ k) × (contains xs a ≡ true)
contains-remove-true xs k a e = (
  λ q. absurd (ground (arith, contains-remove xs k a, nat_beq_iff a k)),
  ground (arith, contains-remove xs k a),
)

module _ (dst : Local) where
  -- Facts on locals other than `dst` go over.
  Members-remove :
      {P Q : Local → Type 0} (xs : List Local)
      → Members P xs
      → ((a : Local) → a ≢ dst → P a → Q a)
      → Members Q (remove xs dst)
  Members-remove xs h f a e = let (n, c) = contains-remove-true xs dst a e in f a n (h a c)

  Entries-erase :
      {V : Type 0} {P Q : Local → V → Type 0} (m : Map Local V)
      → Entries P m
      → ((d : Local) (v : V) → lookup m d ≡ some v → d ≢ dst → P d v → Q d v)
      → Entries Q (erase m dst)
  Entries-erase m h f d v e = let (n, c) = lookup-erase-some m dst d e in f d v c n (h d v c)

  module _ (m m' : Memory) where
    abbrev pub SameValues : Type 0
    SameValues = (l : Local) → l ≢ dst → m'.value l ≡ m.value l

    abbrev pub SameFinite : Type 0
    SameFinite = (l : Local) → l ≢ dst → m'.is_finite l ≡ m.is_finite l

    module _ (same : SameValues) where
      nonzero_over : (l : Local) → l ≢ dst → m.value l ≢ 0 → m'.value l ≢ 0
      nonzero_over l n h z = h (sym (same l n) ∙ z)

      zero_back : (d : Local) → d ≢ dst → m'.value d ≡ 0 → m.value d ≡ 0
      zero_back d n z = sym (same d n) ∙ z

      nonzero_back : (d : Local) → d ≢ dst → m'.value d ≢ 0 → m.value d ≢ 0
      nonzero_back d n h z = h (same d n ∙ z)

      -- A comparison with a constant goes over.
      compare_over :
          (d l k : Local) (P Q : ℕ → ℕ → Type 0)
          → d ≢ dst
          → l ≢ dst
          → (m.value d ≢ 0 → P (m.value l) k) × (m.value d ≡ 0 → Q (m.value l) k)
          → (m'.value d ≢ 0 → P (m'.value l) k) × (m'.value d ≡ 0 → Q (m'.value l) k)
      compare_over d l k P Q n n' h = (
        λ t. subst (λ v. P v k) (sym (same l n')) (h.0 (nonzero_back d n t)),
        λ z. subst (λ v. Q v k) (sym (same l n')) (h.1 (zero_back d n z)),
      )

      pub clear_ranges-RangesHold :
          SameFinite
          → (s : RangesDomain) → IsUnconditional dst s
          → RangesHold m s
          → RangesHold m' (clear_ranges dst s)
      unfolding clear_ranges
      clear_ranges-RangesHold fin s u h = record {
        nonzero = Members-remove s.nonzero h.nonzero (λ l n p. nonzero_over l n p);
        nonzero_if_true =
            Entries-erase s.nonzero_if_true h.nonzero_if_true
              (λ d l e n p t. nonzero_over l (u.nonzero_if_true d l e) (p (nonzero_back d n t)));
        nonzero_if_false =
            Entries-erase s.nonzero_if_false h.nonzero_if_false
              (λ d l e n p z. nonzero_over l (u.nonzero_if_false d l e) (p (zero_back d n z)));
        finite = Members-remove s.finite h.finite (λ l n p. fin l n ∙ p);
        finite_if_true =
            Entries-erase s.finite_if_true h.finite_if_true
              (λ d l e n p t. fin l (u.finite_if_true d l e) ∙ p (nonzero_back d n t));
        nan_if_true =
            Entries-erase s.nan_if_true h.nan_if_true
              (λ d l e n p z. fin l (u.nan_if_true d l e) ∙ p (zero_back d n z));
        const_upper =
            Entries-erase s.const_upper h.const_upper
              (λ l k e n p. subst (λ v. v ≤ k) (sym (same l n)) p);
        const_lower =
            Entries-erase s.const_lower h.const_lower
              (λ l k e n p. subst (λ v. k ≤ v) (sym (same l n)) p);
        const_lt = Entries-erase s.const_lt h.const_lt (λ d c e n p.
            compare_over d c.0 c.1 (λ a b. a < b) (λ a b. b ≤ a) n (u.const_lt d c e) p);
        const_le = Entries-erase s.const_le h.const_le (λ d c e n p.
            compare_over d c.0 c.1 (λ a b. a ≤ b) (λ a b. b < a) n (u.const_le d c e) p);
        const_gt = Entries-erase s.const_gt h.const_gt (λ d c e n p.
            compare_over d c.0 c.1 (λ a b. b < a) (λ a b. a ≤ b) n (u.const_gt d c e) p);
        const_ge = Entries-erase s.const_ge h.const_ge (λ d c e n p.
            compare_over d c.0 c.1 (λ a b. b ≤ a) (λ a b. a < b) n (u.const_ge d c e) p);
      }

-- Nothing unconditional is known of `dst`.
pub record IsUnknown (dst : Local) (s : RangesDomain) : Type 0 where
  pub nonzero : contains s.nonzero dst ≡ false
  pub finite : contains s.finite dst ≡ false
  pub const_upper : lookup s.const_upper dst ≡ none
  pub const_lower : lookup s.const_lower dst ≡ none

pub clear_ranges-IsUnknown : (dst : Local) (s : RangesDomain) → IsUnknown dst (clear_ranges dst s)
unfolding clear_ranges
clear_ranges-IsUnknown dst s = record {
  nonzero = contains-remove_self s.nonzero dst;
  finite = contains-remove_self s.finite dst;
  const_upper = lookup-erase_self s.const_upper dst;
  const_lower = lookup-erase_self s.const_lower dst;
}
