-- ===== src/Rounds/Callees.antt =====
-- Which functions get a summary: the local ones and the external functions that are called from them
-- (`run_checks` of crates/san/src/lib.rs).
pub mod Bounds
use san.Base.{
  ℕ, zero, suc, ◌+◌, List, [], ◌∷◌, ◌++◌, Bool, true, false, ◌||◌, Option, none, some,
  if◌then◌else◌, leb, nat_eq,
}
use san.Base.Sets.{contains, insert}
use san.State.Locals.{DefId}
use san.State.Ownership.{is_empty}
use san.Mir.{Body, BasicBlockData}
use san.Flow.{direct_callee}

-- `MAX_EXTERNAL_FNS`
abbrev pub max_external_fns : ℕ
max_external_fns = 600

-- The variables of the loops.
pub record Walk : Type 0 where
  pub in_set : List DefId
  pub to_summarize : List DefId
  pub next : List DefId
  pub ext_count : ℕ

-- The body of a function, and whether a callee is a function whose MIR is available.
module _ (optimized_mir : DefId → Body) (is_summarizable : DefId → Bool) where
  unfoldable pub visit_callee : Walk → Option DefId → Walk
  visit_callee w none = w
  visit_callee w (some callee) =
      if contains w.in_set callee || leb max_external_fns w.ext_count
      then w
      else if is_summarizable callee
      then record {
        in_set = insert w.in_set callee;
        to_summarize = w.to_summarize ++ callee ∷ [];
        next = w.next ++ callee ∷ [];
        ext_count = w.ext_count + 1;
      }
      else w

  unfoldable pub visit_blocks : Walk → List BasicBlockData → Walk
  unfolding visit_callee
  visit_blocks w [] = w
  visit_blocks w (b ∷ bs) = visit_blocks (visit_callee w (direct_callee b.terminator)) bs

  unfoldable pub visit_fns : Walk → List DefId → Walk
  unfolding visit_blocks
  visit_fns w [] = w
  visit_fns w (d ∷ ds) = visit_fns (visit_blocks w (optimized_mir d).basic_blocks) ds

  -- At most `depth` calls away from the frontier.
  unfoldable pub walk : ℕ → Walk → List DefId → Walk
  unfolding visit_fns
  walk zero w frontier = w
  walk (suc depth) w frontier =
      let visited = visit_fns (record w { next = [] }) frontier in
      let rest = walk depth visited visited.next in
      if leb max_external_fns w.ext_count
      then w
      else if is_empty visited.next
      then visited
      else rest

  -- `MAX_EXTERNAL_DEPTH` is 2.
  unfoldable pub to_summarize : List DefId → List DefId
  unfolding walk
  to_summarize local_fns =
      (walk 2 (record { in_set = local_fns; to_summarize = local_fns; next = []; ext_count = 0 })
        local_fns).to_summarize
