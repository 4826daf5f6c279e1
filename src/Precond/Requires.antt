-- ===== src/Precond/Requires.antt =====
-- What `extract_precond_summary` records of a body (crates/san/src/analysis/precond.rs).
use san.Base.{ℕ, List, [], Bool, true, Option, none, some, ◌≡◌, ◌↔◌, refl, nat_eq, pair_eq, In}
use san.Base.Sets.{contains}
use san.Base.Texts.{Text}
use san.State.{BlockState}
use san.State.Locals.{Local, DefId}
use san.Mir.{Body}
use san.Edge.{insert_some}
use san.Flow.{BlockView}
use san.Precond.{
  PrecondSummary, no_preconds, is_nonzero_precond, is_ascii_precond, note_call, DirectCall,
  note_block, note_blocks, extract_precond_summary,
}
use san.Precond.Additions.{added_iff}
use san.Precond.Needs.{
  NeedsOf, NeedsBound, added_param, added_index, proven_nonzero, proven_ascii, added_param-NeedsOf,
  NeedsOf-added_param, added_index-NeedsBound, NeedsBound-added_index,
}

-- The fields of a block's summary.
module _ (def_path_str : DefId → Text) (body : Body) where
  step_nonzero :
      (o : Option DirectCall) (p : PrecondSummary)
      → (note_block def_path_str body o p).nonzero_args
        ≡ insert_some p.nonzero_args
            (added_param is_nonzero_precond proven_nonzero def_path_str body o)
  unfolding note_block note_call
  step_nonzero none p = refl
  step_nonzero (some c) p = refl

  step_ascii :
      (o : Option DirectCall) (p : PrecondSummary)
      → (note_block def_path_str body o p).ascii_args
        ≡ insert_some p.ascii_args (added_param is_ascii_precond proven_ascii def_path_str body o)
  unfolding note_block note_call
  step_ascii none p = refl
  step_ascii (some c) p = refl

  step_index :
      (o : Option DirectCall) (p : PrecondSummary)
      → (note_block def_path_str body o p).bounded_for_args
        ≡ insert_some p.bounded_for_args (added_index def_path_str body o)
  unfolding note_block note_call
  step_index none p = refl
  step_index (some c) p = refl

  of_params :
      (needs : Text → Bool) (is_proven : BlockState → Local → Bool)
      (field : PrecondSummary → List ℕ)
      → ((o : Option DirectCall) (p : PrecondSummary)
          → field (note_block def_path_str body o p)
            ≡ insert_some (field p) (added_param needs is_proven def_path_str body o))
      → field no_preconds ≡ []
      → (blocks : List BlockView) (i : ℕ)
      → (contains (field (note_blocks def_path_str body blocks no_preconds)) i ≡ true)
        ↔ ((b : BlockView) × In b blocks × NeedsOf needs is_proven def_path_str body b i)
  of_params needs is_proven field step e blocks i =
      let iff =
        added_iff def_path_str body field (added_param needs is_proven def_path_str body) step
          blocks i e in
      (
        λ h.
            let (b, m, q) = iff.0 h in
            (b, m, added_param-NeedsOf def_path_str body b needs is_proven i q),
        λ (b, m, n). iff.1 (b, m, NeedsOf-added_param def_path_str body b needs is_proven i n),
      )

  -- A parameter is in the summary of a body exactly if some block that is reached calls a function
  -- that needs the fact of it, and the fact is not proven before the call: nonzero, ASCII, or, with
  -- the parameter that is indexed, in bounds.
  pub extract_precond_summary_lem :
      (blocks : List BlockView)
      → ((i : ℕ)
          → (contains (extract_precond_summary def_path_str body blocks).nonzero_args i ≡ true) ↔ (
              (b : BlockView) × In b blocks
              × NeedsOf is_nonzero_precond proven_nonzero def_path_str body b i))
        × ((i : ℕ)
            → (contains (extract_precond_summary def_path_str body blocks).ascii_args i ≡ true) ↔ (
                (b : BlockView) × In b blocks
                × NeedsOf is_ascii_precond proven_ascii def_path_str body b i))
        × ((ip rp : ℕ)
            → (contains (extract_precond_summary def_path_str body blocks).bounded_for_args (ip, rp)
                ≡ true)
              ↔ ((b : BlockView) × In b blocks × NeedsBound def_path_str body b ip rp))
  unfolding extract_precond_summary
  extract_precond_summary_lem blocks = (
    of_params is_nonzero_precond proven_nonzero (λ p. p.nonzero_args) step_nonzero refl blocks,
    of_params is_ascii_precond proven_ascii (λ p. p.ascii_args) step_ascii refl blocks,
    λ ip rp.
        let iff =
          added_iff def_path_str body (λ p. p.bounded_for_args) (added_index def_path_str body)
            step_index blocks (ip, rp) refl in
        (
          λ h.
              let (b, m, q) = iff.0 h in (b, m, added_index-NeedsBound def_path_str body b ip rp q),
          λ (b, m, n). iff.1 (b, m, NeedsBound-added_index def_path_str body b ip rp n),
        ),
  )
