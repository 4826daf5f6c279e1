-- ===== src/Callee/Disjoint.antt =====
-- No function is known for two things: the tests for ownership that a call is dispatched on
-- (crates/san/src/analysis/transfer.rs).
use Prim.Native.String.{String}
use san.Base.{Bool, true, false, ◌&&◌, ◌||◌, List, [], ◌∷◌, ◌++◌, ◌≡◌, refl, sym, ◌∙◌, arith}
use san.Base.Texts.{Text, ends_with, ends_with_any, clash, clash_lem, nested, is_any_ends}
use san.Callee.{
  is_into_raw, into_raw_ends, alloc_paths, alloc_ends, is_from_raw, from_non_null_ends,
  from_raw_parts_ends, dealloc_paths, is_mem_forget, forget_paths, is_raw_realloc, realloc_paths,
  realloc_ends,
}

ends_with_any-append :
    (s : Text) (ps qs : List String)
    → ends_with_any s (ps ++ qs) ≡ (ends_with_any s ps || ends_with_any s qs)
unfolding ends_with_any
ends_with_any-append s [] qs = refl
ends_with_any-append s (p ∷ ps) qs = ground (arith, ends_with_any-append s ps qs)

-- What the path of such a function ends with.
abbrev giving : List String
giving = into_raw_ends ++ alloc_paths ++ alloc_ends

abbrev taking : List String
taking =
    "::from_raw"
    ∷ "::from_raw_in"
    ∷ "::from_raw_slice"
    ∷ "Allocator::deallocate"
    ∷ (from_non_null_ends ++ from_raw_parts_ends ++ dealloc_paths)

abbrev moving : List String
moving = realloc_paths ++ realloc_ends

is_into_raw_ends : (path : Text) → is_into_raw path ≡ true → ends_with_any path giving ≡ true
unfolding is_into_raw
is_into_raw_ends path h = ground (
  arith,
  ends_with_any-append path into_raw_ends (alloc_paths ++ alloc_ends),
  ends_with_any-append path alloc_paths alloc_ends,
  is_any_ends path alloc_paths,
)

is_from_raw_ends : (path : Text) → is_from_raw path ≡ true → ends_with_any path taking ≡ true
unfolding is_from_raw ends_with_any
is_from_raw_ends path h = ground (
  arith,
  ends_with_any-append path from_non_null_ends (from_raw_parts_ends ++ dealloc_paths),
  ends_with_any-append path from_raw_parts_ends dealloc_paths,
  is_any_ends path dealloc_paths,
)

is_raw_realloc_ends : (path : Text) → is_raw_realloc path ≡ true → ends_with_any path moving ≡ true
unfolding is_raw_realloc
is_raw_realloc_ends path h =
    ground
      (arith, ends_with_any-append path realloc_paths realloc_ends, is_any_ends path realloc_paths)

is_mem_forget_ends :
    (path : Text) → is_mem_forget path ≡ true → ends_with_any path forget_paths ≡ true
unfolding is_mem_forget
is_mem_forget_ends path h = is_any_ends path forget_paths h

-- Two tests whose literals do not clash exclude each other.
exclusive :
    (path : Text) (a b : Bool) (ps qs : List String)
    → (a ≡ true → ends_with_any path ps ≡ true)
    → (b ≡ true → ends_with_any path qs ≡ true)
    → clash ps qs ≡ false
    → (a && b) ≡ false
exclusive path true true ps qs f g h = sym (clash_lem path ps qs (f refl) (g refl)) ∙ h
exclusive path true false ps qs f g h = refl
exclusive path false b ps qs f g h = refl

giving-taking : clash giving taking ≡ false
unfolding clash nested ends_with
giving-taking = refl

giving-moving : clash giving moving ≡ false
unfolding clash nested ends_with
giving-moving = refl

taking-moving : clash taking moving ≡ false
unfolding clash nested ends_with
taking-moving = refl

forgetting : clash forget_paths (giving ++ taking ++ moving) ≡ false
unfolding clash nested ends_with
forgetting = refl

tracked_ends :
    (path : Text)
    → (is_into_raw path || is_from_raw path || is_raw_realloc path) ≡ true
    → ends_with_any path (giving ++ taking ++ moving) ≡ true
tracked_ends path h = ground (
  arith,
  is_into_raw_ends path,
  is_from_raw_ends path,
  is_raw_realloc_ends path,
  ends_with_any-append path giving (taking ++ moving),
  ends_with_any-append path taking moving,
)

-- A call gives ownership away, takes it back, moves an allocation or forgets a value, and never two
-- of these: whatever order a call is tested in, the same handler is chosen.
pub ownership_calls_exclusive :
    (path : Text)
    → ((is_into_raw path && is_from_raw path) ≡ false)
      × ((is_into_raw path && is_raw_realloc path) ≡ false)
      × ((is_from_raw path && is_raw_realloc path) ≡ false)
      × ((is_mem_forget path && (is_into_raw path || is_from_raw path || is_raw_realloc path))
          ≡ false)
ownership_calls_exclusive path =
    let into = is_into_raw_ends path in
    let from = is_from_raw_ends path in
    let re = is_raw_realloc_ends path in
    (
      exclusive path (is_into_raw path) (is_from_raw path) giving taking into from giving-taking,
      exclusive path (is_into_raw path) (is_raw_realloc path) giving moving into re giving-moving,
      exclusive path (is_from_raw path) (is_raw_realloc path) taking moving from re taking-moving,
      exclusive path (is_mem_forget path)
          (is_into_raw path || is_from_raw path || is_raw_realloc path) forget_paths
          (giving ++ taking ++ moving) (is_mem_forget_ends path) (tracked_ends path) forgetting,
    )
