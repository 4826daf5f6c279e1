-- ===== src/Report.antt =====
-- Findings, and what is left of them in the report: the end of `run_checks`
-- (crates/san/src/lib.rs).
pub mod Laws
use san.Base.{
  ℕ, List, [], ◌∷◌, Bool, true, false, ◌&&◌, ◌||◌, not, if◌then◌else◌, ltb, ◌==◌, nat_eq, pair_eq,
  list_eq, any, Eq,
}
use san.Base.Sets.{contains, insert}
use san.Base.Texts.{Text, codes}

pub data Severity : Type 0 where
  error warning info : Severity

-- A span is its byte range; `message` is the text that a checker formats.
pub record Finding : Type 0 where
  pub rule_id : Text
  pub severity : Severity
  pub lo : ℕ
  pub hi : ℕ
  pub message : Text

abbrev pub Key : Type 0
Key = Text × (ℕ × ℕ)

abbrev pub key : Finding → Key
key f = (f.rule_id, (f.lo, f.hi))

-- `findings.retain(|f| seen.insert(key(f)))`
module _ {F K : Type 0} ⦃e : Eq K⦄ (key : F → K) where
  unfoldable pub dedup_by : List K → List F → List F
  dedup_by seen [] = []
  dedup_by seen (f ∷ fs) =
      let rest = dedup_by (insert seen (key f)) fs in
      if contains seen (key f) then rest else f ∷ rest

unfoldable pub dedup : List Finding → List Finding
unfolding dedup_by
dedup fs = dedup_by key [] fs

abbrev pub is_backstop : Finding → Bool
is_backstop f = f.rule_id == codes "unsafe_fn_call"

-- The spans of the findings of the other rules. The source sorts them; they are only searched.
unfoldable pub covered : List Finding → List (ℕ × ℕ)
covered [] = []
covered (f ∷ fs) = if not (is_backstop f) then (f.lo, f.hi) ∷ covered fs else covered fs

abbrev pub intersects : Finding → ℕ × ℕ → Bool
intersects f c = ltb c.0 f.hi && ltb f.lo c.1

abbrev pub stays : List (ℕ × ℕ) → Finding → Bool
stays spans f = if not (is_backstop f) then true else not (any (intersects f) spans)

unfoldable pub retain_findings : (Finding → Bool) → List Finding → List Finding
retain_findings p [] = []
retain_findings p (f ∷ fs) = if p f then f ∷ retain_findings p fs else retain_findings p fs

unfoldable pub drop_covered : List Finding → List Finding
unfolding covered retain_findings
drop_covered fs = retain_findings (stays (covered fs)) fs

unfoldable pub report : List Finding → List Finding
unfolding dedup drop_covered
report fs = drop_covered (dedup fs)
