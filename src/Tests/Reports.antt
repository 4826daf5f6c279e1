-- ===== src/Tests/Reports.antt =====
-- What is reported: duplicates, the backstop rule, leaks and double frees.
use Prim.Native.String.{String}
use san.Base.{
  ℕ, ◌+◌, List, [], ◌∷◌, true, false, ◌&&◌, ◌||◌, not, none, some, ◌≡◌, ◌↔◌, nat_eq, list_eq,
  pair_eq, length, In,
}
use san.Base.Sets.{contains}
use san.Base.Maps.{lookup, keys}
use san.Base.Texts.{codes}
use san.Object.{ObjectId}
use san.State.Ownership.{FreedKind, freed_kind, objects_for, is_raw_owned}
use san.Mir.{return}
use san.Report.{Finding, warning, dedup, is_backstop, intersects, report}
use san.Report.Laws.{report_lem}
use san.Flow.{BlockView}
use san.Flow.Ownership.{check_return, all_objects, double_free}
use san.Flow.Frees.{double_free_lem}
use san.Flow.Leaks.{check_return_lem}
use san.Tests.Owners.{owned}

abbrev at : String → ℕ → ℕ → Finding
at rule lo hi = record {
  rule_id = codes rule;
  severity = warning;
  lo = lo;
  hi = hi;
  message = codes "unsafe";
}

-- The same place twice, and the backstop rule inside of another finding and elsewhere.
abbrev found : List Finding
found =
    at "raw_ptr_deref" 10 20
    ∷ at "unsafe_fn_call" 12 15
    ∷ at "raw_ptr_deref" 10 20
    ∷ at "unsafe_fn_call" 30 40
    ∷ []

report_lem_example :
    (In (at "unsafe_fn_call" 30 40) (report found)
      → In (at "raw_ptr_deref" 10 20) (report found)
      → is_backstop (at "unsafe_fn_call" 30 40) ≡ true
      → is_backstop (at "raw_ptr_deref" 10 20) ≡ false
      → intersects (at "unsafe_fn_call" 30 40) (10, 20) ≡ false)
    × (In (at "raw_ptr_deref" 10 20) (dedup found)
        → is_backstop (at "raw_ptr_deref" 10 20) ≡ false
        → In (at "raw_ptr_deref" 10 20) (report found))
report_lem_example = report_lem found (at "unsafe_fn_call" 30 40) (at "raw_ptr_deref" 10 20)

abbrev block : BlockView
block = record { state = none; terminator = some return; lo = 0; hi = 9 }

-- Object 9 is owned by local 8 and leaks; object 7 is freed.
check_return_lem_example :
    ((x : ObjectId)
      → contains (check_return block owned []).leaked x ≡ (
          contains [] x
          || (contains (all_objects owned (keys owned.points_to)) x
              && is_raw_owned (lookup owned.heap x)
              && not (contains (objects_for owned 0) x))))
    × (length (check_return block owned []).findings + length {A = ObjectId} []
        ≡ length (check_return block owned []).leaked)
check_return_lem_example = check_return_lem block owned []

double_free_lem_example :
    (double_free block (codes "Box::from_raw") owned 5 ≡ [])
    ↔ (freed_kind owned 5 ≡ FreedKind.not_freed)
double_free_lem_example = double_free_lem block (codes "Box::from_raw") owned 5
