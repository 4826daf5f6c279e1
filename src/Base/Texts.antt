-- ===== src/Base/Texts.antt =====
-- `str` as its list of code points, with the tests that the source makes against literals.
use Prim.Native.Nat.{ℕ}
use Prim.Native.Char.{code}
use Prim.Native.String.{String}
use san.Base.Tests.{nat_eq, list_eq, list_beq, list_beq_iff, ◌==◌, Bool-cases}
use mathlib.Core.Path.{◌≡◌, refl, subst}
use mathlib.Core.Logic.{◌⊎◌, inl, inr}
use mathlib.Core.Bool.{Bool, true, false, ◌&&◌, ◌||◌}
use mathlib.Core.List.{List, [], ◌∷◌}
use native.Mathlib.Omega.{arith}

abbrev pub Text : Type 0
Text = List ℕ

abbrev pub codes : String → Text
codes String.[] = []
codes (String.◌∷◌ c s) = code c ∷ codes s

unfoldable pub starts_with : Text → Text → Bool
starts_with s [] = true
starts_with [] (p ∷ ps) = false
starts_with (c ∷ s) (p ∷ ps) = c == p && starts_with s ps

unfoldable pub ends_with : Text → Text → Bool
ends_with [] p = list_beq [] p
ends_with (c ∷ s) p = list_beq (c ∷ s) p || ends_with s p

-- `str::contains`
unfoldable pub has_text : Text → Text → Bool
unfolding starts_with
has_text [] p = starts_with [] p
has_text (c ∷ s) p = starts_with (c ∷ s) p || has_text s p

-- Several tests against literals, joined by `||`.
unfoldable pub ends_with_any : Text → List String → Bool
unfolding ends_with
ends_with_any s [] = false
ends_with_any s (p ∷ ps) = ends_with s (codes p) || ends_with_any s ps

unfoldable pub has_any : Text → List String → Bool
unfolding has_text
has_any s [] = false
has_any s (p ∷ ps) = has_text s (codes p) || has_any s ps

-- `matches!(s, p | ...)`
unfoldable pub is_any : Text → List String → Bool
is_any s [] = false
is_any s (p ∷ ps) = list_beq s (codes p) || is_any s ps

pub ends_with_refl : (s : Text) → ends_with s s ≡ true
unfolding ends_with
ends_with_refl [] = refl
ends_with_refl (c ∷ s) = ground (arith, list_beq_iff (c ∷ s) (c ∷ s))

-- Of two ends of one text, one is an end of the other.
pub ends_with_nested :
    (s p q : Text)
    → ends_with s p ≡ true
    → ends_with s q ≡ true
    → (ends_with p q ≡ true) ⊎ (ends_with q p ≡ true)
unfolding ends_with
ends_with_nested [] p q h k = inl (subst (λ p. ends_with p q ≡ true) ((list_beq_iff [] p).0 h) k)
ends_with_nested (c ∷ s) p q h k = elim (Bool-cases (list_beq (c ∷ s) p)) [
  | inl whole ↦ inl (subst (λ p. ends_with p q ≡ true) ((list_beq_iff (c ∷ s) p).0 whole) k)
  | inr shorter ↦ elim (Bool-cases (list_beq (c ∷ s) q)) [
    | inl whole ↦ inr (subst (λ q. ends_with q p ≡ true) ((list_beq_iff (c ∷ s) q).0 whole) h)
    | inr shorter' ↦ ends_with_nested s p q (rw shorter at h) (rw shorter' at k)
  ]
]

-- Some literal of one list is an end of a literal of the other, or the other way round.
unfoldable pub nested : String → List String → Bool
unfolding ends_with
nested p [] = false
nested p (q ∷ qs) = ends_with (codes p) (codes q) || ends_with (codes q) (codes p) || nested p qs

unfoldable pub clash : List String → List String → Bool
unfolding nested
clash [] qs = false
clash (p ∷ ps) qs = nested p qs || clash ps qs

nested_lem :
    (s : Text) (p : String) (qs : List String)
    → ends_with s (codes p) ≡ true
    → ends_with_any s qs ≡ true
    → nested p qs ≡ true
unfolding nested ends_with_any
nested_lem s p [] h k = absurd (ground arith)
nested_lem s p (q ∷ qs) h k = elim (Bool-cases (ends_with s (codes q))) [
  | inl y ↦ elim (ends_with_nested s (codes p) (codes q) h y) [
    | inl a ↦ ground arith
    | inr b ↦ ground arith
  ]
  | inr n ↦ ground (arith, nested_lem s p qs h (ground arith))
]

-- A text that ends with a literal of both lists shows that they clash.
pub clash_lem :
    (s : Text) (ps qs : List String)
    → ends_with_any s ps ≡ true
    → ends_with_any s qs ≡ true
    → clash ps qs ≡ true
unfolding clash ends_with_any
clash_lem s [] qs h k = absurd (ground arith)
clash_lem s (p ∷ ps) qs h k = elim (Bool-cases (ends_with s (codes p))) [
  | inl y ↦ ground (arith, nested_lem s p qs y k)
  | inr n ↦ ground (arith, clash_lem s ps qs (ground arith) k)
]

-- A text that is one of the literals ends with it.
pub is_any_ends : (s : Text) (ps : List String) → is_any s ps ≡ true → ends_with_any s ps ≡ true
unfolding is_any ends_with_any
is_any_ends s [] h = absurd (ground arith)
is_any_ends s (p ∷ ps) h = elim (Bool-cases (list_beq s (codes p))) [
  | inl y ↦
      let e : ends_with s (codes p) ≡ true =
        subst (λ t. ends_with s t ≡ true) ((list_beq_iff s (codes p)).0 y) (ends_with_refl s) in
      ground arith
  | inr n ↦ ground (arith, is_any_ends s ps (ground arith))
]
