-- ===== src/Summary/Returns.antt =====
-- What a summary says: the parameters that it names, and the summary of a body that does nothing
-- (crates/san/src/analysis/summary.rs).
use san.Base.{
  ℕ, zero, suc, ◌+◌, ◌-◌, ◌<◌, List, [], ◌∷◌, ◌++◌, Bool, true, false, Option, none, some, ◌≡◌, ◌≢◌,
  ◌∙◌, inl, inr, refl, sym, ap, subst, if◌then◌else◌, ◌==◌, nat_eq, nat_beq_iff, arith, Bool-cases,
  Option-cases, ltb, leb, any, In,
}
use san.Base.Maps.{lookup, put, lookup-put}
use san.Object.{ObjectId, HeapState}
use san.State.{BlockState}
use san.State.Locals.{Local}
use san.State.Tracking.{TrackingDomain}
use san.State.Ownership.{objects_for, owners_of}
use san.Mir.{Body}
use san.Summary.{
  summary_base, param_object, ParamHeapEffect, FnSummary, is_raw_ptr, seed_raw_ptr, seed_raw_ptrs,
  summary_initial_state, join_returns, effect_of, push_effect, effects_on, ascending, find_map,
  param_of, param_of_object, summary_of, no_summary, extract_summary,
}
use san.Dataflow.Propagate.{In-append_cases}

-- A fact on each result of `f` holds of what is found.
find_map_lem :
    {P : ℕ → Type 0} (f : ℕ → Option ℕ) (xs : List ℕ)
    → ((x y : ℕ) → f x ≡ some y → P y)
    → (y : ℕ) → find_map f xs ≡ some y
    → P y
unfolding find_map
find_map_lem f [] h y e = absurd (ground arith)
find_map_lem f (x ∷ xs) h y e = elim (Option-cases (f x)) [
  | inl q ↦ find_map_lem f xs h y (rw (find_map, q) at e)
  | inr (z, q) ↦ h x y (q ∙ (rw (find_map, q) at e))
]

param_of_lt : (n k y : ℕ) → param_of n k ≡ some y → y < n
unfolding param_of
param_of_lt n k y e = ground arith

guarded_lt : (n d y : ℕ) → (if ltb d n then some d else none) ≡ some y → y < n
guarded_lt n d y e = ground arith

param_of_object_lt : (n k y : ℕ) → param_of_object n k ≡ some y → y < n
unfolding param_of_object
param_of_object_lt n k y e = elim (Bool-cases (leb summary_base k)) [
  | inl high ↦ guarded_lt n (k - summary_base) y (rw (param_of_object, high) at e)
  | inr low ↦ param_of_lt n k y (rw (param_of_object, low) at e)
]

-- The effects are on parameters, and none of them is empty.
abbrev pub IsEffectOn : ℕ → ℕ × ParamHeapEffect → Type 0
IsEffectOn n e = (e.0 < n) × (e.1 ≢ ParamHeapEffect.no_effect)

one_more : (n : ℕ) (e : ℕ × ParamHeapEffect) → IsEffectOn n e → IsEffectOn (suc n) e
one_more n e h = (omega (arith, h.0), h.1)

appended-IsEffectOn :
    (effects : List (ℕ × ParamHeapEffect)) (n : ℕ) (change : ParamHeapEffect)
    → ((e : ℕ × ParamHeapEffect) → In e effects → IsEffectOn n e)
    → change ≢ ParamHeapEffect.no_effect
    → (e : ℕ × ParamHeapEffect) → In e (effects ++ (n, change) ∷ [])
    → IsEffectOn (suc n) e
appended-IsEffectOn effects n change h ne e m = elim (In-append_cases effects m) [
  | inl old ↦ one_more n e (h e old)
  | inr q ↦ subst (IsEffectOn (suc n)) (sym q) (omega arith, ne)
]

push_effect-IsEffectOn :
    (effects : List (ℕ × ParamHeapEffect)) (n : ℕ) (change : ParamHeapEffect)
    → ((e : ℕ × ParamHeapEffect) → In e effects → IsEffectOn n e)
    → (e : ℕ × ParamHeapEffect) → In e (push_effect effects n change)
    → IsEffectOn (suc n) e
push_effect-IsEffectOn effects n ParamHeapEffect.no_effect h e m = one_more n e (h e m)
push_effect-IsEffectOn effects n ParamHeapEffect.reconstituted h e m =
    appended-IsEffectOn effects n ParamHeapEffect.reconstituted h (λ q. absurd (ground arith)) e m
push_effect-IsEffectOn effects n ParamHeapEffect.escaped h e m =
    appended-IsEffectOn effects n ParamHeapEffect.escaped h (λ q. absurd (ground arith)) e m

effects_on-IsEffectOn :
    (s : TrackingDomain) (n : ℕ) (e : ℕ × ParamHeapEffect) → In e (effects_on s n) → IsEffectOn n e
unfolding effects_on
effects_on-IsEffectOn s zero e m = elim m [ ]
effects_on-IsEffectOn s (suc n) e m =
    push_effect-IsEffectOn (effects_on s n) n (effect_of (lookup s.heap (param_object n)))
      (effects_on-IsEffectOn s n) e m

-- The parameters that a summary names are parameters of the body.
pub record NamesParams (arg_count : ℕ) (summary : FnSummary) : Type 0 where
  pub effects : (e : ℕ × ParamHeapEffect) → In e summary.param_effects → IsEffectOn arg_count e
  pub alias : (n : ℕ) → summary.returns_alias_of_param ≡ some n → n < arg_count
  pub ptr : (n : ℕ) → summary.returns_ptr_of_param ≡ some n → n < arg_count
  pub reallocs : (n : ℕ) → summary.reallocs_param ≡ some n → n < arg_count

summary_of-NamesParams : (n : ℕ) (s : TrackingDomain) → NamesParams n (summary_of n s)
unfolding summary_of
summary_of-NamesParams n s = record {
  effects = effects_on-IsEffectOn s n;
  alias = find_map_lem {P = λ y. y < n} (param_of n) (ascending (owners_of s 0)) (param_of_lt n);
  ptr =
      find_map_lem {P = λ y. y < n} (param_of_object n) (ascending (objects_for s 0))
        (param_of_object_lt n);
  reallocs =
      find_map_lem {P = λ y. y < n} (param_of n) (ascending s.realloced_params) (param_of_lt n);
}

joined-NamesParams :
    (n : ℕ) (o : Option BlockState)
    → NamesParams n
        (elim o [ none ↦ no_summary | some exit_state ↦ summary_of n exit_state.tracking_domain ])
joined-NamesParams n none = record {
  effects = λ e m. elim m [ ];
  alias = λ k e. absurd (ground arith);
  ptr = λ k e. absurd (ground arith);
  reallocs = λ k e. absurd (ground arith);
}
joined-NamesParams n (some exit_state) = summary_of-NamesParams n exit_state.tracking_domain

-- Whatever states a body returns in, the effects of its summary are on its parameters, none of them
-- is empty, and the parameters whose alias, pointer or reallocation it reports are its own.
pub extract_summary-NamesParams :
    (body : Body) (returns : List (Option BlockState))
    → NamesParams body.arg_count (extract_summary body returns)
unfolding extract_summary
extract_summary-NamesParams body returns =
    joined-NamesParams body.arg_count (join_returns none returns)

-- A body that does nothing.
no_effect_put :
    (m : List (ObjectId × HeapState)) (id j : ObjectId)
    → effect_of (lookup m j) ≡ ParamHeapEffect.no_effect
    → effect_of (lookup (put m id HeapState.raw_owned) j) ≡ ParamHeapEffect.no_effect
no_effect_put m id j h = elim (Bool-cases (id == j)) [
  | inl same ↦ ap effect_of (
      lookup-put m id HeapState.raw_owned j
      ∙ ap (λ b. if b then some HeapState.raw_owned else lookup m j) same)
  | inr other ↦
      ap effect_of (
        lookup-put m id HeapState.raw_owned j
        ∙ ap (λ b. if b then some HeapState.raw_owned else lookup m j) other)
      ∙ h
]

idle_nil : (j : ObjectId) → effect_of (lookup [] j) ≡ ParamHeapEffect.no_effect
unfolding lookup
idle_nil j = refl

no_entry : lookup {K = Local} {V = List ObjectId} [] 0 ≡ none
unfolding lookup
no_entry = refl

-- The initial state has no freed object, no pointer in the return place and no alias.
record IsIdle (s : TrackingDomain) : Type 0 where
  pub heap : (j : ObjectId) → effect_of (lookup s.heap j) ≡ ParamHeapEffect.no_effect
  pub points_to : lookup s.points_to 0 ≡ none
  pub owner_alias : s.owner_alias ≡ []
  pub realloced : s.realloced_params ≡ []

seed_raw_ptr-IsIdle :
    (s : TrackingDomain) (n : ℕ) (b : Bool)
    → IsIdle s
    → IsIdle (
        if b
        then record s {
          points_to = put s.points_to (n + 1) (param_object n ∷ []);
          heap = put s.heap (param_object n) HeapState.raw_owned;
        }
        else s)
seed_raw_ptr-IsIdle s n false h = h
seed_raw_ptr-IsIdle s n true h = record {
  heap = λ j. no_effect_put s.heap (param_object n) j (h.heap j);
  points_to =
      lookup-put s.points_to (n + 1) (param_object n ∷ []) 0
      ∙ ground (arith, h.points_to, nat_beq_iff (n + 1) 0);
  owner_alias = h.owner_alias;
  realloced = h.realloced;
}

seed_raw_ptrs-IsIdle : (body : Body) (n : ℕ) → IsIdle (seed_raw_ptrs body n)
unfolding seed_raw_ptrs seed_raw_ptr
seed_raw_ptrs-IsIdle body zero = record {
  heap = λ j. idle_nil j;
  points_to = no_entry;
  owner_alias = refl;
  realloced = refl;
}
seed_raw_ptrs-IsIdle body (suc n) =
    seed_raw_ptr-IsIdle (seed_raw_ptrs body n) n (is_raw_ptr (body.ty (n + 1)))
      (seed_raw_ptrs-IsIdle body n)

effects_on_idle : (s : TrackingDomain) (n : ℕ) → IsIdle s → effects_on s n ≡ []
unfolding effects_on
effects_on_idle s zero h = refl
effects_on_idle s (suc n) h = rw (h.heap (param_object n), effects_on_idle s n h) refl

owners_idle : (s : TrackingDomain) → IsIdle s → owners_of s 0 ≡ []
unfolding owners_of lookup
owners_idle s h = rw h.owner_alias refl

objects_idle : (s : TrackingDomain) → IsIdle s → objects_for s 0 ≡ []
unfolding objects_for
objects_idle s h = rw h.points_to refl

-- A summary without any effect.
pub record IsNeutral (summary : FnSummary) : Type 0 where
  pub param_effects : summary.param_effects ≡ []
  pub returns_raw_owned : summary.returns_raw_owned ≡ false
  pub returns_alias_of_param : summary.returns_alias_of_param ≡ none
  pub returns_ptr_of_param : summary.returns_ptr_of_param ≡ none
  pub reallocs_param : summary.reallocs_param ≡ none

find_map_nil : (f : ℕ → Option ℕ) (xs : List ℕ) → xs ≡ [] → find_map f (ascending xs) ≡ none
unfolding find_map ascending
find_map_nil f xs h = rw h refl

any_nil : (p : ObjectId → Bool) (xs : List ObjectId) → xs ≡ [] → any p xs ≡ false
any_nil p xs h = rw h refl

summary_of_idle : (n : ℕ) (s : TrackingDomain) → IsIdle s → IsNeutral (summary_of n s)
unfolding summary_of
summary_of_idle n s h = record {
  param_effects = effects_on_idle s n h;
  returns_raw_owned = any_nil _ (objects_for s 0) (objects_idle s h);
  returns_alias_of_param = find_map_nil (param_of n) (owners_of s 0) (owners_idle s h);
  returns_ptr_of_param = find_map_nil (param_of_object n) (objects_for s 0) (objects_idle s h);
  reallocs_param = find_map_nil (param_of n) s.realloced_params h.realloced;
}

-- A body that returns once, with the tracking that it was started with, has no effect on its
-- parameters, and returns neither a fresh pointer nor one of a parameter.
pub extract_summary-summary_initial_state :
    (body : Body) (state : BlockState)
    → state.tracking_domain ≡ summary_initial_state body
    → IsNeutral (extract_summary body (some state ∷ []))
unfolding extract_summary summary_initial_state join_returns
extract_summary-summary_initial_state body state e =
    subst (λ t. IsNeutral (summary_of body.arg_count t)) (sym e)
      (summary_of_idle body.arg_count (seed_raw_ptrs body body.arg_count)
        (seed_raw_ptrs-IsIdle body body.arg_count))
