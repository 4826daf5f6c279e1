-- ===== src/Rounds.antt =====
-- The rounds of summaries of `run_checks` (crates/san/src/lib.rs): each recomputes the summary of
-- every function against those of the round before, until they stop changing.
pub mod Laws
pub mod Callees
use Prim.Native.String.{String}
use san.Base.{
  ℕ, zero, suc, List, [], ◌∷◌, Bool, true, false, ◌&&◌, ◌||◌, not, Option, none, some,
  if◌then◌else◌, ◌==◌, nat_eq, pair_eq, opt_eq, opt_beq, list_eq, Eq, ◌≡◌, ◌↔◌, refl, ap, arith,
}
use san.Base.Maps.{Map, lookup, put, erase, map_ne}
use san.Base.Texts.{Text, codes, ends_with, has_text, ends_with_any, has_any}
use san.State.Locals.{DefId}
use san.Callee.Other.{is_owned_buffer_accessor, raw_ptr_types}
use san.Callee.{pointer_types}
use san.Summary.{FnSummary, ParamHeapEffect}

abbrev pub effect_beq : ParamHeapEffect → ParamHeapEffect → Bool
effect_beq ParamHeapEffect.no_effect ParamHeapEffect.no_effect = true
effect_beq ParamHeapEffect.reconstituted ParamHeapEffect.reconstituted = true
effect_beq ParamHeapEffect.escaped ParamHeapEffect.escaped = true
effect_beq _ _ = false

pub effect_beq_iff : (a b : ParamHeapEffect) → (effect_beq a b ≡ true) ↔ (a ≡ b)
effect_beq_iff a b = ground arith

instance abbrev pub effect_eq : Eq ParamHeapEffect
effect_eq = record { beq = effect_beq; beq_iff = effect_beq_iff }

abbrev pub bool_beq : Bool → Bool → Bool
bool_beq true b = b
bool_beq false b = not b

pub bool_beq_iff : (a b : Bool) → (bool_beq a b ≡ true) ↔ (a ≡ b)
bool_beq_iff a b = ground arith

instance abbrev pub bool_eq : Eq Bool
bool_eq = record { beq = bool_beq; beq_iff = bool_beq_iff }

-- `PartialEq` of `FnSummary`, field by field.
abbrev pub fields :
    FnSummary → List (ℕ × ParamHeapEffect) × (Bool × (Option ℕ × (Option ℕ × Option ℕ)))
fields s = (
  s.param_effects,
  (s.returns_raw_owned, (s.returns_alias_of_param, (s.returns_ptr_of_param, s.reallocs_param))),
)

abbrev of_fields :
    List (ℕ × ParamHeapEffect) × (Bool × (Option ℕ × (Option ℕ × Option ℕ))) → FnSummary
of_fields t = record {
  param_effects = t.0;
  returns_raw_owned = t.1.0;
  returns_alias_of_param = t.1.1.0;
  returns_ptr_of_param = t.1.1.1.0;
  reallocs_param = t.1.1.1.1;
}

abbrev pub summary_beq : FnSummary → FnSummary → Bool
summary_beq s t = fields s == fields t

pub summary_beq_iff : (s t : FnSummary) → (summary_beq s t ≡ true) ↔ (s ≡ t)
summary_beq_iff s t =
    let iff =
      (pair_eq {A = List (ℕ × ParamHeapEffect)}
          {B = Bool × (Option ℕ × (Option ℕ × Option ℕ))}).beq_iff
        (fields s) (fields t) in
    (λ h. ap of_fields (iff.0 h), λ q. iff.1 (ap fields q))

instance abbrev pub summary_eq : Eq FnSummary
summary_eq = record { beq = summary_beq; beq_iff = summary_beq_iff }

abbrev pub SummaryMap : Type 0
SummaryMap = Map DefId FnSummary

abbrev pub new_ends : List String
new_ends = "::new_unchecked" ∷ "::new" ∷ []

abbrev pub is_ptr_cast : Text → Bool
is_ptr_cast path = has_text path (codes "::cast") && has_any path pointer_types

abbrev pub is_nonnull_wrap : Text → Bool
is_nonnull_wrap path = has_text path (codes "NonNull") && ends_with_any path new_ends

-- What is trusted of the summary of an external function.
unfoldable pub trust_external : Text → FnSummary → FnSummary
unfolding is_owned_buffer_accessor has_text has_any ends_with_any
trust_external path s = record {
  param_effects = [];
  returns_raw_owned = false;
  returns_alias_of_param =
      if is_owned_buffer_accessor path then some 0 else s.returns_alias_of_param;
  returns_ptr_of_param =
      if not (is_ptr_cast path) && not (is_nonnull_wrap path) then none else s.returns_ptr_of_param;
  reallocs_param = s.reallocs_param;
}

abbrev pub is_some : Option ℕ → Bool
is_some none = false
is_some (some _) = true

abbrev pub has_effects : List (ℕ × ParamHeapEffect) → Bool
has_effects [] = false
has_effects (_ ∷ _) = true

unfoldable pub has_any_effect : FnSummary → Bool
has_any_effect s =
    has_effects s.param_effects
    || s.returns_raw_owned
    || is_some s.returns_alias_of_param
    || is_some s.returns_ptr_of_param
    || is_some s.reallocs_param

-- The functions to summarise, and the analysis of one of them: `compute_flow_for_summary` and
-- `extract_summary` against the summaries of the round before.
module _ (is_local : DefId → Bool) (def_path_str : DefId → Text)
    (analyse : SummaryMap → DefId → FnSummary) where
  unfoldable pub summarise : SummaryMap → DefId → FnSummary
  unfolding trust_external
  summarise snap d =
      if not (is_local d) then trust_external (def_path_str d) (analyse snap d) else analyse snap d

  unfoldable pub update : SummaryMap → DefId → SummaryMap → SummaryMap
  unfolding summarise has_any_effect
  update snap d summaries =
      let s = summarise snap d in if has_any_effect s then put summaries d s else erase summaries d

  -- One round, over the functions that are left.
  unfoldable pub summary_round : SummaryMap → List DefId → SummaryMap → SummaryMap
  unfolding update
  summary_round snap [] summaries = summaries
  summary_round snap (d ∷ ds) summaries = summary_round snap ds (update snap d summaries)

  -- At most `n` rounds, and whether the last one changed nothing.
  unfoldable pub summary_rounds : ℕ → List DefId → SummaryMap → SummaryMap × Bool
  unfolding summary_round
  summary_rounds zero ds summaries = (summaries, false)
  summary_rounds (suc n) ds snap =
      let summaries = summary_round snap ds snap in
      let rest = summary_rounds n ds summaries in
      if not (map_ne summaries snap) then (summaries, true) else rest

  -- `MAX_SUMMARY_ROUNDS` is 8.
  unfoldable pub converge : List DefId → SummaryMap × Bool
  unfolding summary_rounds
  converge ds = summary_rounds 8 ds []
