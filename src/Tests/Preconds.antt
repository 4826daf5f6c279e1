-- ===== src/Tests/Preconds.antt =====
-- Preconditions on concrete blocks.
use san.Base.{
  ℕ, zero, suc, List, [], ◌∷◌, true, false, none, some, ◌≡◌, sym, ap, subst, ◌∙◌, ◌≢◌, ◌⊎◌, ◌↔◌,
  ◌≤◌, ◌<◌, refl, nat_eq, pair_eq, if◌then◌else◌, ◌==◌, In, head, tail, arith,
}
use san.Base.Sets.{contains, insert}
use san.Base.Maps.{lookup}
use san.Base.Texts.{Text, codes, ends_with, ends_with_any, has_text, starts_with}
use san.State.Locals.{Local, DefId}
use san.State.Proven.{
  local_is_nonzero, local_is_ascii, local_is_bounded, index_is_bounded_for, deref_base,
}
use san.Mir.{Operand, copy, constant, bool, Body, call, no_cleanup}
use san.Edge.{operand_local}
use san.Edge.Bounds.{Within}
use san.Facts.{first_arg_local, nth_arg_local}
use san.Summary.{ascending, insert_sorted}
use san.Join.{get_or}
use san.Flow.{BlockView, Context}
use san.Precond.{
  PrecondSummary, no_preconds, PrecondSummaryMap, has_no_preconds, param_index, is_nonzero_precond,
  is_ascii_precond, is_index_precond, is_passed, index_is_safe, index_passes, violations_of,
  bound_violations, insert_pair, ascending_pairs, DirectCall, direct_call, extract_precond_summary,
  arg_is_nonzero, arg_is_ascii, arg_is_in_bounds, call_violations, block_violations,
  precond_propagation, unguarded_param, note_call, note_block, note_blocks,
}
use san.Precond.Messages.{callee_short, take_segments}
use san.Precond.Needs.{NeedsOf, NeedsBound, proven_nonzero, proven_ascii}
use san.Precond.Requires.{extract_precond_summary_lem}
use san.Precond.Violations.{precond_propagation_sound}
use san.Precond.Wrappers.{HandsOn, hands_on_lem}
use san.Transfer.Sound.Ranges.{plain}
use san.Tests.Branches.{five, before, ranges-RangesHold, bounds-BoundsHold}

-- Function 7 is a constructor without a check, function 8 a wrapper of it.
abbrev pub path_of : DefId → Text
path_of d = if d == 7 then codes "core::num::NonZero::<u32>::new_unchecked" else codes "app::wrap"

abbrev function : DefId → Operand
function d = constant (record { scalar = none; fn_def = some d })

abbrev pub wrapper : Body
wrapper = record { arg_count = 1; ty = λ _. bool; basic_blocks = [] }

-- `_0 = f(args)`
abbrev pub calling : DefId → List Operand → BlockView
calling d args = record {
  state = some before;
  terminator = some (call (function d) args (plain 0) none no_cleanup);
  lo = 0;
  hi = 9;
}

-- `_0 = new_unchecked(_1)`, where `_1` is the parameter of the body.
abbrev pub unchecked : List BlockView
unchecked = calling 7 (copy (plain 1) ∷ []) ∷ []

extract_precond_summary_lem_example :
    ((i : ℕ)
      → (contains (extract_precond_summary path_of wrapper unchecked).nonzero_args i ≡ true) ↔ (
          (b : BlockView) × In b unchecked
          × NeedsOf is_nonzero_precond proven_nonzero path_of wrapper b i))
    × ((i : ℕ)
        → (contains (extract_precond_summary path_of wrapper unchecked).ascii_args i ≡ true) ↔ (
            (b : BlockView) × In b unchecked
            × NeedsOf is_ascii_precond proven_ascii path_of wrapper b i))
    × ((ip rp : ℕ)
        → (contains (extract_precond_summary path_of wrapper unchecked).bounded_for_args (ip, rp)
            ≡ true)
          ↔ ((b : BlockView) × In b unchecked × NeedsBound path_of wrapper b ip rp))
extract_precond_summary_lem_example = extract_precond_summary_lem path_of wrapper unchecked

-- The parameter is in the summary.
unchecked_run : (extract_precond_summary path_of wrapper unchecked).nonzero_args ≡ 0 ∷ []
unfolding extract_precond_summary note_blocks note_block note_call is_nonzero_precond ends_with_any
    ends_with unguarded_param param_index local_is_nonzero first_arg_local operand_local contains
    lookup direct_call insert
unchecked_run = refl

short_run : callee_short (path_of 7) ≡ codes "<u32>::new_unchecked"
unfolding callee_short take_segments starts_with
short_run = refl

abbrev all_of : PrecondSummary
all_of = record { nonzero_args = 0 ∷ []; ascii_args = 0 ∷ []; bounded_for_args = (1, 0) ∷ [] }

abbrev required : PrecondSummaryMap
required = (8, all_of) ∷ []

abbrev pub context : Body → Context
context body = record {
  body = body;
  def_path_str = path_of;
  item_name = path_of;
  summaries = [];
  in_drop = false;
  in_closure = false;
}

-- `_0 = wrap(_2, _3)`, where `_2` is from 1 to 100 and `_3` is bounded.
abbrev pub closed : Body
closed = record { arg_count = 0; ty = λ _. bool; basic_blocks = [] }

abbrev pub guarded_args : List Operand
guarded_args = copy (plain 2) ∷ copy (plain 3) ∷ []

abbrev pub guarded_call : DirectCall
guarded_call = record { state = before; callee = 8; args = guarded_args }

abbrev pub guarded : List BlockView
guarded = calling 8 guarded_args ∷ []

guarded_silent : precond_propagation (context closed) required guarded ≡ []
unfolding precond_propagation block_violations call_violations has_no_preconds violations_of
    bound_violations arg_is_nonzero arg_is_ascii arg_is_in_bounds index_passes is_passed
    index_is_safe param_index nth_arg_local operand_local local_is_nonzero local_is_ascii
    index_is_bounded_for local_is_bounded contains lookup direct_call ascending insert_sorted
    ascending_pairs insert_pair deref_base
guarded_silent = refl

pub guarded_direct : direct_call (calling 8 guarded_args) ≡ some guarded_call
unfolding direct_call
guarded_direct = refl

required_8 : lookup required 8 ≡ some all_of
unfolding lookup
required_8 = refl

precond_propagation_sound_example :
    ((i : ℕ) (l : Local)
      → contains all_of.nonzero_args i ≡ true
      → nth_arg_local guarded_args i ≡ some l
      → param_index closed l ≡ none
      → five.value l ≢ 0)
    × ((i : ℕ) (l : Local)
        → contains all_of.ascii_args i ≡ true
        → nth_arg_local guarded_args i ≡ some l
        → param_index closed l ≡ none
        → five.value l ≤ 127)
    × ((i coll : ℕ) (l k : Local)
        → contains all_of.bounded_for_args (i, coll) ≡ true
        → nth_arg_local guarded_args i ≡ some l
        → nth_arg_local guarded_args coll ≡ some k
        → param_index closed l ≡ none
        → (five.value l < five.len (deref_base before.capacity_domain k)) ⊎ Within five l)
precond_propagation_sound_example =
    precond_propagation_sound (context closed) required guarded (calling 8 guarded_args)
      guarded_call all_of guarded_silent (head refl) guarded_direct required_8 five
      ranges-RangesHold bounds-BoundsHold

-- `_0 = wrap(_1)`, where `_1` is the parameter: the wrapper of the wrapper.
abbrev handing : List BlockView
handing = calling 8 (copy (plain 1) ∷ []) ∷ []

only_param :
    (i : ℕ) (l : Local)
    → nth_arg_local (copy (plain 1) ∷ []) i ≡ some l
    → (k : ℕ) × (param_index wrapper l ≡ some k)
unfolding nth_arg_local operand_local param_index
only_param zero l h = (0, ground arith)
only_param (suc i) l h = absurd (ground arith)

abbrev handed : DirectCall
handed = record { state = before; callee = 8; args = copy (plain 1) ∷ [] }

handed-HandsOn : HandsOn (context wrapper) handed
unfolding is_nonzero_precond is_ascii_precond is_index_precond ends_with_any ends_with has_text
handed-HandsOn = record { no_nonzero = refl; no_ascii = refl; no_index = refl; params = only_param }

handing-HandsOn :
    (b : BlockView)
    → In b handing
    → (c : DirectCall) → direct_call b ≡ some c
    → HandsOn (context wrapper) c
unfolding direct_call
handing-HandsOn b m c h = elim m [
  | tail n ↦ elim n [ ]
  | head q ↦
      let same : some handed ≡ some c = sym (ap direct_call q) ∙ h in
      let e : handed ≡ c = ap (λ o. get_or o handed) same in
      subst (HandsOn (context wrapper)) e handed-HandsOn
]

hands_on_lem_example :
    (extract_precond_summary path_of wrapper handing ≡ no_preconds)
    × (precond_propagation (context wrapper) required handing ≡ [])
hands_on_lem_example = hands_on_lem (context wrapper) required handing handing-HandsOn
