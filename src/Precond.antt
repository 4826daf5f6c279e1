-- ===== src/Precond.antt =====
-- Preconditions that a function places on its arguments, and the calls that violate them
-- (crates/san/src/analysis/precond.rs, crates/san/src/checkers/precond_propagation.rs).
pub mod Messages
pub mod Additions
pub mod Needs
pub mod Requires
pub mod Violations
pub mod Wrappers
use san.Base.{
  ℕ, ◌-◌, List, [], ◌∷◌, ◌++◌, Bool, true, false, ◌&&◌, ◌||◌, not, Option, none, some, leb, ◌==◌,
  nat_eq, pair_eq, if◌then◌else◌,
}
use san.Base.Maps.{Map, lookup}
use san.Base.Texts.{Text, codes, ends_with_any, has_text}
use san.State.{BlockState}
use san.State.Locals.{Local, DefId}
use san.State.Proven.{
  local_is_nonzero, local_is_ascii, index_is_bounded_for, local_is_bounded, deref_base,
}
use san.State.Ownership.{is_empty}
use san.Mir.{Operand, TerminatorKind, call, Body}
use san.Edge.{insert_some}
use san.Facts.{first_arg_local, nth_arg_local}
use san.Summary.{ascending}
use san.Report.{Finding}
use san.Flow.{BlockView, Context, const_fn_def, warn}
use san.Precond.Messages.{callee_short, nonzero_message, ascii_message, bounds_message}

pub record PrecondSummary : Type 0 where
  pub nonzero_args : List ℕ
  pub ascii_args : List ℕ
  pub bounded_for_args : List (ℕ × ℕ)

abbrev pub no_preconds : PrecondSummary
no_preconds = record { nonzero_args = []; ascii_args = []; bounded_for_args = [] }

unfoldable pub has_no_preconds : PrecondSummary → Bool
has_no_preconds p = is_empty p.nonzero_args && is_empty p.ascii_args && is_empty p.bounded_for_args

unfoldable pub param_index : Body → Local → Option ℕ
param_index body local = if leb 1 local && leb local body.arg_count then some (local - 1) else none

unfoldable pub is_nonzero_precond : Text → Bool
unfolding ends_with_any
is_nonzero_precond path = ends_with_any path (
    "::new_unchecked" ∷ "::unchecked_new" ∷ "::from_mut_unchecked" ∷ "ctlz_nonzero" ∷ "cttz_nonzero"
    ∷ [])

unfoldable pub is_ascii_precond : Text → Bool
unfolding ends_with_any
is_ascii_precond path = ends_with_any path ("::as_ascii_unchecked" ∷ "Char::from_u8_unchecked" ∷ [])

unfoldable pub is_index_precond : Text → Bool
unfolding ends_with_any has_text
is_index_precond path =
    ends_with_any path ("get_unchecked_mut" ∷ "get_unchecked" ∷ [])
    && not (has_text path (codes "pin::Pin"))

-- The parameter that an argument is, unless the fact that is asked for is proven of it.
unfoldable pub unguarded_param : (Local → Bool) → Body → Option Local → Option ℕ
unfolding param_index
unguarded_param is_proven body none = none
unguarded_param is_proven body (some a) = if is_proven a then none else param_index body a

abbrev pub both : Option ℕ → Option ℕ → Option (ℕ × ℕ)
both (some x) (some y) = some (x, y)
both _ _ = none

-- `state.index_is_bounded_for(idx, recv) || state.local_is_bounded(idx)`
unfoldable pub index_is_safe : BlockState → Local → Local → Bool
unfolding index_is_bounded_for local_is_bounded
index_is_safe s recv idx =
    index_is_bounded_for s.bounds_domain idx recv || local_is_bounded s.bounds_domain idx

-- An index and a collection that are both parameters.
unfoldable pub unguarded_index : BlockState → Body → Option Local → Option Local → Option (ℕ × ℕ)
unfolding index_is_safe param_index deref_base
unguarded_index s body (some l) (some idx) =
    let recv = deref_base s.capacity_domain l in
    if index_is_safe s recv idx then none else both (param_index body idx) (param_index body recv)
unguarded_index s body _ _ = none

-- What a call of the function at `path` adds.
unfoldable pub note_call : BlockState → Body → Text → List Operand → PrecondSummary → PrecondSummary
unfolding is_nonzero_precond is_ascii_precond is_index_precond first_arg_local nth_arg_local
    unguarded_param unguarded_index local_is_nonzero local_is_ascii
note_call s body path args p = record {
  nonzero_args = insert_some p.nonzero_args (
      if is_nonzero_precond path
      then unguarded_param (local_is_nonzero s.ranges_domain) body (first_arg_local args)
      else none);
  ascii_args = insert_some p.ascii_args (
      if is_ascii_precond path
      then unguarded_param (local_is_ascii s.ranges_domain) body (first_arg_local args)
      else none);
  bounded_for_args = insert_some p.bounded_for_args (
      if is_index_precond path
      then unguarded_index s body (nth_arg_local args 0) (nth_arg_local args 1)
      else none);
}

-- A call of a known function, in a block that is reached.
pub record DirectCall : Type 0 where
  pub state : BlockState
  pub callee : DefId
  pub args : List Operand

unfoldable pub direct_call : BlockView → Option DirectCall
direct_call b = elim b.terminator [
  | some (call func args destination target unwind) ↦ elim (const_fn_def func) [
    | some d ↦ elim b.state [
      | some s ↦ some (record { state = s; callee = d; args = args })
      | none ↦ none
    ]
    | none ↦ none
  ]
  | _ ↦ none
]

-- What a block adds.
unfoldable pub note_block :
    (DefId → Text) → Body → Option DirectCall → PrecondSummary → PrecondSummary
unfolding note_call
note_block def_path_str body none p = p
note_block def_path_str body (some c) p = note_call c.state body (def_path_str c.callee) c.args p

unfoldable pub note_blocks :
    (DefId → Text) → Body → List BlockView → PrecondSummary → PrecondSummary
unfolding note_block direct_call
note_blocks def_path_str body [] p = p
note_blocks def_path_str body (b ∷ bs) p =
    note_blocks def_path_str body bs (note_block def_path_str body (direct_call b) p)

unfoldable pub extract_precond_summary : (DefId → Text) → Body → List BlockView → PrecondSummary
unfolding note_blocks
extract_precond_summary def_path_str body blocks = note_blocks def_path_str body blocks no_preconds

abbrev pub PrecondSummaryMap : Type 0
PrecondSummaryMap = Map DefId PrecondSummary

-- An argument that is proven, or is a parameter, which the callers of this function answer for.
unfoldable pub is_passed : (Local → Bool) → Body → Option Local → Bool
unfolding param_index
is_passed is_proven body none = true
is_passed is_proven body (some l) =
    if is_proven l then true else elim (param_index body l) [ none ↦ false | some i ↦ true ]

unfoldable pub violations_of : (ℕ → Bool) → (ℕ → Text) → BlockView → List ℕ → List Finding
violations_of passes message b [] = []
violations_of passes message b (i ∷ is) =
    let rest = violations_of passes message b is in
    if passes i then rest else warn b "precond_violation" (message i) ∷ rest

-- The index and the collection of a bound.
unfoldable pub index_passes : BlockState → Body → Option Local → Option Local → Bool
unfolding index_is_safe is_passed deref_base
index_passes s body idx (some coll) =
    is_passed (index_is_safe s (deref_base s.capacity_domain coll)) body idx
index_passes s body idx none = true

-- A set of pairs in lexicographic order.
abbrev pub pair_leb : ℕ × ℕ → ℕ × ℕ → Bool
pair_leb (a, b) (c, d) = if a == c then leb b d else leb a c

unfoldable pub insert_pair : ℕ × ℕ → List (ℕ × ℕ) → List (ℕ × ℕ)
insert_pair x [] = x ∷ []
insert_pair x (y ∷ ys) = if pair_leb x y then x ∷ y ∷ ys else y ∷ insert_pair x ys

unfoldable pub ascending_pairs : List (ℕ × ℕ) → List (ℕ × ℕ)
unfolding insert_pair
ascending_pairs [] = []
ascending_pairs (x ∷ xs) = insert_pair x (ascending_pairs xs)

unfoldable pub bound_violations :
    (ℕ × ℕ → Bool) → (ℕ × ℕ → Text) → BlockView → List (ℕ × ℕ) → List Finding
bound_violations passes message b [] = []
bound_violations passes message b (p ∷ ps) =
    let rest = bound_violations passes message b ps in
    if passes p then rest else warn b "precond_violation" (message p) ∷ rest

unfoldable pub arg_is_nonzero : Body → DirectCall → ℕ → Bool
unfolding is_passed nth_arg_local local_is_nonzero
arg_is_nonzero body c i =
    is_passed (local_is_nonzero c.state.ranges_domain) body (nth_arg_local c.args i)

unfoldable pub arg_is_ascii : Body → DirectCall → ℕ → Bool
unfolding is_passed nth_arg_local local_is_ascii
arg_is_ascii body c i =
    is_passed (local_is_ascii c.state.ranges_domain) body (nth_arg_local c.args i)

unfoldable pub arg_is_in_bounds : Body → DirectCall → ℕ × ℕ → Bool
unfolding index_passes nth_arg_local
arg_is_in_bounds body c (i, coll) =
    index_passes c.state body (nth_arg_local c.args i) (nth_arg_local c.args coll)

-- What is reported of a call whose callee has these preconditions.
unfoldable pub call_violations : Context → BlockView → DirectCall → PrecondSummary → List Finding
unfolding violations_of bound_violations arg_is_nonzero arg_is_ascii arg_is_in_bounds ascending
    ascending_pairs
call_violations cx b c p =
    let name = callee_short (cx.def_path_str c.callee) in
    violations_of (arg_is_nonzero cx.body c) (nonzero_message name) b (ascending p.nonzero_args)
    ++ violations_of (arg_is_ascii cx.body c) (ascii_message name) b (ascending p.ascii_args)
    ++ bound_violations (arg_is_in_bounds cx.body c) (bounds_message name) b
        (ascending_pairs p.bounded_for_args)

unfoldable pub block_violations :
    Context → PrecondSummaryMap → BlockView → Option DirectCall → List Finding
unfolding call_violations has_no_preconds
block_violations cx preconds b none = []
block_violations cx preconds b (some c) = elim (lookup preconds c.callee) [
  | none ↦ []
  | some p ↦ if has_no_preconds p then [] else call_violations cx b c p
]

-- `PrecondPropagation::check`
unfoldable pub precond_propagation : Context → PrecondSummaryMap → List BlockView → List Finding
unfolding block_violations direct_call
precond_propagation cx preconds [] = []
precond_propagation cx preconds (b ∷ bs) =
    block_violations cx preconds b (direct_call b) ++ precond_propagation cx preconds bs
