-- ===== src/Flow/Ownership.antt =====
-- `OwnershipProtocol::check` (crates/san/src/checkers/flow/ownership.rs).
use san.Base.{
  ℕ, List, [], ◌∷◌, ◌++◌, ◌&&◌, ◌||◌, not, Option, none, some, if◌then◌else◌, nat_eq, list_eq, any,
}
use san.Base.Sets.{contains, insert}
use san.Base.Maps.{lookup, keys}
use san.Base.Texts.{Text, codes}
use san.Object.{ObjectId, HeapState, HeapMap}
use san.State.{BlockState}
use san.State.Locals.{Local, DefId}
use san.State.Tracking.{TrackingDomain}
use san.State.Ownership.{objects_for, owners_of, is_raw_owned, is_empty}
use san.Mir.{Operand, TerminatorKind, call, return}
use san.Callee.{is_from_raw}
use san.Callee.Names.{from_raw_short}
use san.Edge.{operand_local}
use san.Facts.{first_arg_local, first_arg_base_local, nth_arg_local, or_else}
use san.Summary.{ParamHeapEffect, ascending}
use san.Summary.Apply.{is_reference_param}
use san.Report.{Finding}
use san.Flow.{BlockView, Context, const_fn_def, warn}

-- The sets `seen` and `leaked_objects`, and the findings so far.
pub record LeakScan : Type 0 where
  pub seen : List ObjectId
  pub leaked : List ObjectId
  pub findings : List Finding

abbrev pub leak_message : Text
leak_message =
    codes "raw pointer obtained from `into_raw` is never reconstituted via `from_raw` — memory leak"

unfoldable pub leak_object : BlockView → HeapMap → List ObjectId → ObjectId → LeakScan → LeakScan
leak_object b heap returned obj acc =
    if contains returned obj || contains acc.seen obj
    then acc
    else if is_raw_owned (lookup heap obj) && not (contains acc.leaked obj)
    then record {
      seen = insert acc.seen obj;
      leaked = insert acc.leaked obj;
      findings = acc.findings ++ warn b "ownership_leak" leak_message ∷ [];
    }
    else record acc { seen = insert acc.seen obj }

unfoldable pub leak_objects :
    BlockView → HeapMap → List ObjectId → List ObjectId → LeakScan → LeakScan
unfolding leak_object
leak_objects b heap returned [] acc = acc
leak_objects b heap returned (obj ∷ objs) acc =
    leak_objects b heap returned objs (leak_object b heap returned obj acc)

-- The objects of all the locals, in the order of the map.
unfoldable pub all_objects : TrackingDomain → List Local → List ObjectId
unfolding objects_for
all_objects s [] = []
all_objects s (l ∷ ls) = objects_for s l ++ all_objects s ls

-- A `Return` terminator, with `leaked_objects` carried from block to block.
unfoldable pub check_return : BlockView → TrackingDomain → List ObjectId → LeakScan
unfolding leak_objects all_objects objects_for
check_return b s leaked =
    leak_objects b s.heap (objects_for s 0) (all_objects s (keys s.points_to))
      (record { seen = []; leaked = leaked; findings = [] })

abbrev pub to_list : Option Local → List Local
to_list none = []
to_list (some l) = l ∷ []

unfoldable pub freed_by_effects : List Operand → List (ℕ × ParamHeapEffect) → List Local
unfolding nth_arg_local
freed_by_effects args [] = []
freed_by_effects args ((idx, ParamHeapEffect.reconstituted) ∷ rest) =
    to_list (nth_arg_local args idx) ++ freed_by_effects args rest
freed_by_effects args ((idx, change) ∷ rest) = freed_by_effects args rest

-- The argument locals that a call frees.
unfoldable pub freed_by : Context → DefId → List Operand → List Local
unfolding is_from_raw first_arg_local first_arg_base_local freed_by_effects
freed_by cx d args =
    if is_from_raw (cx.def_path_str d)
    then to_list (or_else (first_arg_local args) (first_arg_base_local args))
    else elim (lookup cx.summaries d) [
      | none ↦ []
      | some summary ↦ freed_by_effects args summary.param_effects
    ]

abbrev pub dangling_message : Text
dangling_message =
    codes
      "freeing a pointer that still aliases memory owned by a live value (e.g. `&mut self`'s buffer) — the owner is left with a dangling pointer; double-free when it is dropped"

unfoldable pub dangling : Context → BlockView → TrackingDomain → List Local → List Finding
unfolding owners_of is_reference_param
dangling cx b s [] = []
dangling cx b s (l ∷ ls) =
    let owns_live_ref = any (is_reference_param cx.body) (owners_of s l) in
    let rest = dangling cx b s ls in
    if not cx.in_drop && owns_live_ref
    then warn b "use_after_free" dangling_message ∷ rest
    else rest

unfoldable pub call_name : Context → DefId → Text
unfolding is_from_raw from_raw_short
call_name cx d =
    let path = cx.def_path_str d in
    if is_from_raw path then codes (from_raw_short path) else cx.item_name d

abbrev pub double_free_object : BlockView → Text → Option HeapState → List Finding
double_free_object b name (some HeapState.reconstituted) =
    warn b "ownership_double_free" (
      codes "`"
      ++ name
      ++ codes "` called on a pointer that was already reconstituted on this path — double-free")
    ∷ []
double_free_object b name (some HeapState.maybe_freed) =
    warn b "ownership_double_free" (
      codes "`"
      ++ name
      ++ codes
          "` — potential double-free: pointer may have already been reconstituted on another control-flow path")
    ∷ []
double_free_object b name _ = []

unfoldable pub double_free_objects : BlockView → Text → HeapMap → List ObjectId → List Finding
double_free_objects b name heap [] = []
double_free_objects b name heap (obj ∷ objs) =
    double_free_object b name (lookup heap obj) ++ double_free_objects b name heap objs

unfoldable pub double_free : BlockView → Text → TrackingDomain → Local → List Finding
unfolding double_free_objects objects_for ascending
double_free b name s l = double_free_objects b name s.heap (ascending (objects_for s l))

unfoldable pub double_frees : BlockView → Text → TrackingDomain → List Local → List Finding
unfolding double_free
double_frees b name s [] = []
double_frees b name s (l ∷ ls) = double_free b name s l ++ double_frees b name s ls

-- A `Call` terminator: the callee is a function item, or the one that a function pointer holds.
abbrev pub callee_of : TrackingDomain → Operand → Option DefId
callee_of s func =
    or_else (const_fn_def func)
      (elim (operand_local func) [ none ↦ none | some l ↦ lookup s.fn_ptr_targets l ])

unfoldable pub check_callee :
    Context → BlockView → TrackingDomain → List Operand → DefId → List Finding
unfolding freed_by dangling double_frees call_name
check_callee cx b s args d =
    let freed = freed_by cx d args in
    if is_empty freed then [] else dangling cx b s freed ++ double_frees b (call_name cx d) s freed

unfoldable pub check_call :
    Context → BlockView → TrackingDomain → Operand → List Operand → List Finding
unfolding check_callee operand_local
check_call cx b s func args = elim (callee_of s func) [
  | none ↦ []
  | some d ↦ check_callee cx b s args d
]

-- One block: `leaked_objects` and the findings.
unfoldable pub check_block :
    Context
    → BlockView
    → TrackingDomain
    → TerminatorKind
    → List ObjectId
    → List ObjectId × List Finding
unfolding check_return check_call
check_block cx b s return leaked =
    let scan = check_return b s leaked in
    if cx.in_closure then (leaked, []) else (scan.leaked, scan.findings)
check_block cx b s (call func args destination target unwind) leaked =
    (leaked, check_call cx b s func args)
check_block cx b s _ leaked = (leaked, [])

abbrev check_view :
    Context
    → BlockView
    → Option BlockState
    → Option TerminatorKind
    → List ObjectId
    → List ObjectId × List Finding
check_view cx b (some s) (some t) leaked = check_block cx b s.tracking_domain t leaked
check_view cx b _ _ leaked = (leaked, [])

-- `OwnershipProtocol::check`
unfoldable pub check_blocks : Context → List BlockView → List ObjectId → List Finding
unfolding check_block
check_blocks cx [] leaked = []
check_blocks cx (b ∷ bs) leaked =
    let (leaked', findings) = check_view cx b b.state b.terminator leaked in
    findings ++ check_blocks cx bs leaked'

unfoldable pub ownership_protocol : Context → List BlockView → List Finding
unfolding check_blocks
ownership_protocol cx bs = check_blocks cx bs []
