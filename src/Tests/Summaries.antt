-- ===== src/Tests/Summaries.antt =====
-- Rounds of summaries: function 2 frees its parameter, 1 passes its own on to 2, and 3 is an
-- external function whose analysis says that it frees its parameter.
use san.Base.{
  List, [], ◌∷◌, Bool, true, false, not, Option, none, some, ◌≡◌, refl, nat_eq, ◌==◌, if◌then◌else◌,
}
use san.Base.Maps.{lookup, put, erase, map_ne, differs, keys}
use san.Base.Texts.{Text, codes, ends_with, ends_with_any, has_text, has_any, starts_with}
use san.State.Locals.{DefId}
use san.Callee.Other.{is_owned_buffer_accessor}
use san.Summary.{FnSummary, ParamHeapEffect, no_summary}
use san.Rounds.{
  SummaryMap, converge, summary_rounds, summary_round, update, summarise, trust_external,
  has_any_effect,
}
use san.Rounds.Laws.{IsStable, converge-IsStable, converge_external}

abbrev frees : FnSummary
frees = record no_summary { param_effects = (0, ParamHeapEffect.reconstituted) ∷ [] }

abbrev local_fn : DefId → Bool
local_fn d = not (d == 3)

abbrev path_of : DefId → Text
path_of d = codes "alloc::vec::Vec::<T>::as_ptr"

abbrev or_nothing : Option FnSummary → FnSummary
or_nothing none = no_summary
or_nothing (some s) = s

abbrev analysis : SummaryMap → DefId → FnSummary
analysis snap d = if d == 1 then or_nothing (lookup snap 2) else frees

abbrev functions : List DefId
functions = 1 ∷ 2 ∷ 3 ∷ []

ends : (converge local_fn path_of analysis functions).1 ≡ true
unfolding converge summary_rounds summary_round update summarise trust_external has_any_effect
    lookup put erase map_ne differs keys ends_with ends_with_any has_text has_any starts_with
    is_owned_buffer_accessor
ends = refl

caller_frees : lookup (converge local_fn path_of analysis functions).0 1 ≡ some frees
unfolding converge summary_rounds summary_round update summarise trust_external has_any_effect
    lookup put erase map_ne differs keys ends_with ends_with_any has_text has_any starts_with
    is_owned_buffer_accessor
caller_frees = refl

converge-IsStable_example :
    IsStable local_fn path_of analysis functions (converge local_fn path_of analysis functions).0
converge-IsStable_example = converge-IsStable local_fn path_of analysis functions ends

abbrev points_into : FnSummary
points_into = record no_summary { returns_alias_of_param = some 0 }

external_entry : lookup (converge local_fn path_of analysis functions).0 3 ≡ some points_into
unfolding converge summary_rounds summary_round update summarise trust_external has_any_effect
    lookup put erase map_ne differs keys ends_with ends_with_any has_text has_any starts_with
    is_owned_buffer_accessor
external_entry = refl

converge_external_example :
    (points_into.param_effects ≡ []) × (points_into.returns_raw_owned ≡ false)
converge_external_example =
    converge_external local_fn path_of analysis functions 3 points_into refl external_entry
