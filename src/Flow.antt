-- ===== src/Flow.antt =====
-- The flow checkers (crates/san/src/checkers/flow): what they report of a body, given the states
-- before the terminators of its blocks.
pub mod Ownership
pub mod Frees
pub mod Leaks
use Prim.Native.String.{String}
use san.Base.{
  ℕ, List, [], ◌∷◌, ◌++◌, Bool, true, false, ◌&&◌, ◌||◌, not, Option, none, some, if◌then◌else◌,
}
use san.Base.Maps.{Map}
use san.Base.Texts.{Text, codes, ends_with, has_text}
use san.State.{BlockState}
use san.State.Locals.{DefId}
use san.State.Ownership.{has_forgotten_protocol, has_hazard_protocol}
use san.Mir.{Operand, copy, move, constant, TerminatorKind, call, Body}
use san.Callee.Other.{is_force_unlock, is_shared_deref}
use san.Callee.Names.{force_unlock_name}
use san.Summary.{FnSummary}
use san.Report.{Finding, Severity, warning}

-- A block: `state_before_terminator`, the terminator, and its span.
pub record BlockView : Type 0 where
  pub state : Option BlockState
  pub terminator : Option TerminatorKind
  pub lo : ℕ
  pub hi : ℕ

-- What a checker asks the compiler, and the summaries of the callees. `in_drop` is
-- `is_drop_method`, `in_closure` is `is_closure_like`.
pub record Context : Type 0 where
  pub body : Body
  pub def_path_str : DefId → Text
  pub item_name : DefId → Text
  pub summaries : Map DefId FnSummary
  pub in_drop : Bool
  pub in_closure : Bool

-- `func.const_fn_def()`
abbrev pub const_fn_def : Operand → Option DefId
const_fn_def (constant c) = c.fn_def
const_fn_def _ = none

abbrev pub warn : BlockView → String → Text → Finding
warn b rule message = record {
  rule_id = codes rule;
  severity = warning;
  lo = b.lo;
  hi = b.hi;
  message = message;
}

-- The callee of a call terminator.
abbrev pub direct_callee : Option TerminatorKind → Option DefId
direct_callee (some (call func args destination target unwind)) = const_fn_def func
direct_callee _ = none

-- What a checker that looks at calls reports of a block.
abbrev pub at_call :
    (BlockState → Text → List Finding)
    → Context
    → BlockView
    → Option BlockState
    → Option DefId
    → List Finding
at_call report cx b (some s) (some d) = report s (cx.def_path_str d)
at_call report cx b _ _ = []

abbrev pub on_blocks : (BlockView → List Finding) → List BlockView → List Finding
on_blocks f [] = []
on_blocks f (b ∷ bs) = f b ++ on_blocks f bs

unfoldable pub lock_call : BlockView → BlockState → Text → List Finding
unfolding is_force_unlock has_forgotten_protocol force_unlock_name
lock_call b s path =
    if not (is_force_unlock path)
    then []
    else if has_forgotten_protocol s.tracking_domain
    then []
    else warn b "lock_force_unlock_unpaired" (
        codes "`"
        ++ codes (force_unlock_name path)
        ++ codes
            "` called without a preceding `lock()` + `mem::forget(guard)` on this path — calling force_unlock on an unlocked mutex corrupts its internal state")
      ∷ []

-- `LockState::check`
unfoldable pub lock_state : Context → List BlockView → List Finding
unfolding lock_call
lock_state cx = on_blocks (λ b. at_call (lock_call b) cx b b.state (direct_callee b.terminator))

unfoldable pub is_defer_destroy : Text → Bool
unfolding ends_with has_text
is_defer_destroy path = ends_with path (codes "::defer_destroy") && has_text path (codes "Guard")

unfoldable pub op_name : Text → String
unfolding ends_with
op_name path =
    if ends_with path (codes "::deref_mut")
    then "Shared::deref_mut"
    else if ends_with path (codes "::defer_destroy")
    then "Guard::defer_destroy"
    else "Shared::deref"

unfoldable pub epoch_call : BlockView → BlockState → Text → List Finding
unfolding is_shared_deref is_defer_destroy has_hazard_protocol op_name
epoch_call b s path =
    if not (is_shared_deref path) && not (is_defer_destroy path)
    then []
    else if has_hazard_protocol s.tracking_domain
    then warn b "epoch_guard_expired" (
        codes "`"
        ++ codes (op_name path)
        ++ codes
            "` called but an epoch guard may have been dropped — dereferencing a `Shared` pointer after its guard is dropped is use-after-free")
      ∷ []
    else []

-- `EpochGuard::check`
unfoldable pub epoch_guard : Context → List BlockView → List Finding
unfolding epoch_call
epoch_guard cx = on_blocks (λ b. at_call (epoch_call b) cx b b.state (direct_callee b.terminator))
