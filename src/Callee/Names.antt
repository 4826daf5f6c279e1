-- ===== src/Callee/Names.antt =====
-- The names that reports give to calls: `from_raw_short`
-- (crates/san/src/checkers/flow/ownership.rs) and `force_unlock_name`
-- (crates/san/src/checkers/flow/lock_state.rs).
use Prim.Native.String.{String}
use text.Mathlib.TextEquality.{eq_iff}
use san.Base.{
  ℕ, true, ◌||◌, [], ◌∷◌, ◌≡◌, ◌≢◌, inl, inr, arith, Bool-cases, if◌then◌else◌, nat_eq, list_eq,
}
use san.Base.Texts.{Text, codes, ends_with, has_text, starts_with}

unfoldable pub from_raw_short : Text → String
unfolding ends_with has_text
from_raw_short path =
    if ends_with path (codes "dealloc")
    then "alloc::dealloc"
    else if has_text path (codes "triomphe")
    then "triomphe::Arc::from_raw"
    else if has_text path (codes "Weak")
    then "Weak::from_raw"
    else if has_text path (codes "Box")
    then "Box::from_raw"
    else if has_text path (codes "Arc")
    then "Arc::from_raw"
    else if has_text path (codes "Rc")
    then "Rc::from_raw"
    else if has_text path (codes "Vec")
    then "Vec::from_raw_parts"
    else if has_text path (codes "String")
    then "String::from_raw_parts"
    else if has_text path (codes "CString")
    then "CString::from_raw"
    else if has_text path (codes "Thread")
    then "Thread::from_raw"
    else "from_raw"

unfoldable pub force_unlock_name : Text → String
unfolding ends_with
force_unlock_name path =
    if ends_with path (codes "::force_unlock_write")
      || ends_with path (codes "::force_unlock_write_fair")
    then "force_unlock_write"
    else if ends_with path (codes "::force_unlock_read")
        || ends_with path (codes "::force_unlock_read_fair")
    then "force_unlock_read"
    else if ends_with path (codes "::force_unlock_fair")
    then "force_unlock_fair"
    else "force_unlock"

starts_with_has : (s p : Text) → starts_with s p ≡ true → has_text s p ≡ true
unfolding has_text
starts_with_has [] p h = h
starts_with_has (d ∷ s) p h = ground arith

-- A text that has `c ∷ p` in it has `p` in it.
has_text_tail : (s : Text) (c : ℕ) (p : Text) → has_text s (c ∷ p) ≡ true → has_text s p ≡ true
unfolding has_text starts_with
has_text_tail [] c p h = absurd (ground arith)
has_text_tail (d ∷ s) c p h = elim (Bool-cases (starts_with (d ∷ s) (c ∷ p))) [
  | inl y ↦ ground (arith, starts_with_has s p (ground arith))
  | inr n ↦ ground (arith, has_text_tail s c p (ground arith))
]

-- No call is reported as `CString::from_raw`: a path with "CString" in it has "String" in it, which
-- is asked first.
pub from_raw_short-CString : (path : Text) → from_raw_short path ≢ "CString::from_raw"
unfolding from_raw_short
from_raw_short-CString path h = ground (
  arith,
  has_text_tail path 67 (codes "String"),
  eq_iff "alloc::dealloc" "CString::from_raw",
  eq_iff "triomphe::Arc::from_raw" "CString::from_raw",
  eq_iff "Weak::from_raw" "CString::from_raw",
  eq_iff "Box::from_raw" "CString::from_raw",
  eq_iff "Arc::from_raw" "CString::from_raw",
  eq_iff "Rc::from_raw" "CString::from_raw",
  eq_iff "Vec::from_raw_parts" "CString::from_raw",
  eq_iff "String::from_raw_parts" "CString::from_raw",
  eq_iff "Thread::from_raw" "CString::from_raw",
  eq_iff "from_raw" "CString::from_raw",
)
