-- ===== src/Dataflow/Successors.antt =====
-- The successors of a block, by its terminator (dataflow.rs, `block_successors`).
use san.Base.{List, [], ◌∷◌, ◌++◌, Option, none, some}
use san.State.Locals.{BasicBlock}
use san.Mir.{
  UnwindAction, cleanup, no_cleanup, all_targets, TerminatorKind, goto, switch_int, return,
  unreachable, coroutine_drop, tail_call, unwind_resume, unwind_terminate, call, drop, assert,
  false_edge, false_unwind, yield_to, inline_asm,
}

-- `push_unwind`
unfoldable pub push_unwind : List BasicBlock → UnwindAction → List BasicBlock
push_unwind succs (cleanup bb) = succs ++ bb ∷ []
push_unwind succs no_cleanup = succs

-- `if let Some(t) = target { succs.push(t) }`
unfoldable pub push_some : List BasicBlock → Option BasicBlock → List BasicBlock
push_some succs none = succs
push_some succs (some t) = succs ++ t ∷ []

unfoldable pub terminator_successors : TerminatorKind → List BasicBlock
unfolding push_unwind push_some
terminator_successors (goto target) = target ∷ []
terminator_successors (switch_int discr targets) = all_targets targets
terminator_successors return = []
terminator_successors unreachable = []
terminator_successors coroutine_drop = []
terminator_successors tail_call = []
terminator_successors (call func args destination target unwind) =
    push_unwind (push_some [] target) unwind
terminator_successors (drop place target unwind) = push_unwind (target ∷ []) unwind
terminator_successors (assert cond expected target unwind) = push_unwind (target ∷ []) unwind
terminator_successors (false_edge real_target imaginary_target) =
    real_target ∷ imaginary_target ∷ []
terminator_successors (false_unwind real_target unwind) = push_unwind (real_target ∷ []) unwind
terminator_successors (yield_to resume dropped) = push_some (resume ∷ []) dropped
terminator_successors (inline_asm targets unwind) = push_unwind targets unwind
terminator_successors unwind_resume = []
terminator_successors unwind_terminate = []

-- A block without a terminator has none.
unfoldable pub block_successors : Option TerminatorKind → List BasicBlock
unfolding terminator_successors
block_successors none = []
block_successors (some term) = terminator_successors term
