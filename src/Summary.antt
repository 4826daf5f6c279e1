-- ===== src/Summary.antt =====
-- What a function does to its raw-pointer parameters, and what a call of it does to the caller's
-- state (crates/san/src/analysis/summary.rs).
pub mod Apply
pub mod Frees
pub mod Returns
use san.Base.{
  ℕ, zero, suc, ◌+◌, ◌-◌, ◌^◌, ◌%◌, List, [], ◌∷◌, ◌++◌, Bool, true, false, ◌&&◌, ◌||◌, not, Option,
  none, some, if◌then◌else◌, ◌==◌, nat_eq, ltb, leb, any,
}
use san.Base.Maps.{lookup, put}
use san.Object.{ObjectId, HeapState}
use san.State.{BlockState, join_with}
use san.State.Locals.{Local}
use san.State.Tracking.{TrackingDomain}
use san.State.Ownership.{objects_for, owners_of, is_raw_owned}
use san.Mir.{Ty, raw_ptr, Body}

-- 0x8000_0000
abbrev pub summary_base : ℕ
summary_base = 2 ^ 31

-- `ObjectId(SUMMARY_BASE + param_idx as u32)`
abbrev pub param_object : ℕ → ObjectId
param_object param_idx = (summary_base + param_idx % 2 ^ 32) % 2 ^ 32

pub data ParamHeapEffect : Type 0 where
  no_effect reconstituted escaped : ParamHeapEffect

pub record FnSummary : Type 0 where
  pub param_effects : List (ℕ × ParamHeapEffect)
  pub returns_raw_owned : Bool
  pub returns_alias_of_param : Option ℕ
  pub returns_ptr_of_param : Option ℕ
  pub reallocs_param : Option ℕ

abbrev pub is_raw_ptr : Ty → Bool
is_raw_ptr (raw_ptr pointee mutbl) = true
is_raw_ptr _ = false

unfoldable pub seed_raw_ptr : TrackingDomain → ℕ → Ty → TrackingDomain
seed_raw_ptr s param_idx ty =
    if is_raw_ptr ty
    then record s {
      points_to = put s.points_to (param_idx + 1) (param_object param_idx ∷ []);
      heap = put s.heap (param_object param_idx) HeapState.raw_owned;
    }
    else s

abbrev pub empty_tracking : TrackingDomain
empty_tracking = record {
  heap = [];
  points_to = [];
  local_proto = [];
  typestate = [];
  untracked_forget_seen = false;
  owner_alias = [];
  fn_ptr_targets = [];
  realloced_params = [];
  field_owned = [];
}

-- The loop over the first `n` parameters. The other domains of the state stay empty.
unfoldable pub seed_raw_ptrs : Body → ℕ → TrackingDomain
unfolding seed_raw_ptr
seed_raw_ptrs body zero = empty_tracking
seed_raw_ptrs body (suc n) = seed_raw_ptr (seed_raw_ptrs body n) n (body.ty (n + 1))

unfoldable pub summary_initial_state : Body → TrackingDomain
unfolding seed_raw_ptrs
summary_initial_state body = seed_raw_ptrs body body.arg_count

-- The join of the states at the `Return` terminators, which the engine gives in their order, with
-- `none` where the block is unreachable.
unfoldable pub join_returns : Option BlockState → List (Option BlockState) → Option BlockState
unfolding join_with
join_returns joined [] = joined
join_returns joined (none ∷ rest) = join_returns joined rest
join_returns none (some state ∷ rest) = join_returns (some state) rest
join_returns (some existing) (some state ∷ rest) =
    join_returns (some (join_with existing state).0) rest

abbrev pub effect_of : Option HeapState → ParamHeapEffect
effect_of (some HeapState.reconstituted) = ParamHeapEffect.reconstituted
effect_of (some HeapState.escaped) = ParamHeapEffect.escaped
effect_of (some HeapState.maybe_freed) = ParamHeapEffect.escaped
effect_of _ = ParamHeapEffect.no_effect

abbrev pub push_effect :
    List (ℕ × ParamHeapEffect) → ℕ → ParamHeapEffect → List (ℕ × ParamHeapEffect)
push_effect effects param_idx ParamHeapEffect.no_effect = effects
push_effect effects param_idx change = effects ++ (param_idx, change) ∷ []

-- The effects on the first `n` parameters.
unfoldable pub effects_on : TrackingDomain → ℕ → List (ℕ × ParamHeapEffect)
effects_on s zero = []
effects_on s (suc n) = push_effect (effects_on s n) n (effect_of (lookup s.heap (param_object n)))

-- A `BTreeSet` is iterated in ascending order.
unfoldable pub insert_sorted : ℕ → List ℕ → List ℕ
insert_sorted x [] = x ∷ []
insert_sorted x (y ∷ ys) = if leb x y then x ∷ y ∷ ys else y ∷ insert_sorted x ys

unfoldable pub ascending : List ℕ → List ℕ
unfolding insert_sorted
ascending [] = []
ascending (x ∷ xs) = insert_sorted x (ascending xs)

unfoldable pub find_map : (ℕ → Option ℕ) → List ℕ → Option ℕ
find_map f [] = none
find_map f (x ∷ xs) = elim (f x) [ none ↦ find_map f xs | some y ↦ some y ]

-- The parameter that a local is.
unfoldable pub param_of : ℕ → Local → Option ℕ
param_of arg_count k = if leb 1 k && leb k arg_count then some (k - 1) else none

-- The parameter that an object stands for.
unfoldable pub param_of_object : ℕ → ObjectId → Option ℕ
unfolding param_of
param_of_object arg_count id =
    if leb summary_base id
    then (if ltb (id - summary_base) arg_count then some (id - summary_base) else none)
    else param_of arg_count id

unfoldable pub summary_of : ℕ → TrackingDomain → FnSummary
unfolding effects_on objects_for owners_of find_map ascending param_of param_of_object
summary_of arg_count exit_state = record {
  param_effects = effects_on exit_state arg_count;
  returns_raw_owned =
      any (λ id. ltb id summary_base && is_raw_owned (lookup exit_state.heap id))
        (objects_for exit_state 0);
  returns_alias_of_param = find_map (param_of arg_count) (ascending (owners_of exit_state 0));
  returns_ptr_of_param =
      find_map (param_of_object arg_count) (ascending (objects_for exit_state 0));
  reallocs_param = find_map (param_of arg_count) (ascending exit_state.realloced_params);
}

abbrev pub no_summary : FnSummary
no_summary = record {
  param_effects = [];
  returns_raw_owned = false;
  returns_alias_of_param = none;
  returns_ptr_of_param = none;
  reallocs_param = none;
}

unfoldable pub extract_summary : Body → List (Option BlockState) → FnSummary
unfolding join_returns summary_of
extract_summary body returns = elim (join_returns none returns) [
  | none ↦ no_summary
  | some exit_state ↦ summary_of body.arg_count exit_state.tracking_domain
]
