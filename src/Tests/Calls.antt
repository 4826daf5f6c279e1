-- ===== src/Tests/Calls.antt =====
-- Callees by their path, types of parameters, and summaries of callees.
use san.Base.{
  suc, [], ◌∷◌, true, false, ◌&&◌, ◌||◌, none, some, ◌≡◌, refl, nat_eq, ◌==◌, ◌<◌, arith, subst,
  if◌then◌else◌,
}
use san.Base.Texts.{Text, codes, ends_with, ends_with_any, has_text, has_any, starts_with, is_any}
use san.Callee.{is_into_raw, is_from_raw, is_mem_forget, is_raw_realloc}
use san.Callee.Disjoint.{ownership_calls_exclusive}
use san.Callee.Names.{from_raw_short}
use san.State.{BlockState}
use san.State.Locals.{Local}
use san.State.Capacity.{CapacityDomain}
use san.Mir.{Operand, copy, Ty, uint, u8, raw_ptr, other_ty, mutable, Body}
use san.Edge.{operand_local}
use san.Edge.Memory.{Memory}
use san.Edge.Bounds.{CapacityHold}
use san.Facts.{record_spare, both_locals, swapped}
use san.Facts.Lengths.{Decides, record_spare_sound}
use san.Summary.{ParamHeapEffect, FnSummary, summary_initial_state, extract_summary}
use san.Summary.Returns.{
  NamesParams, IsNeutral, extract_summary-NamesParams, extract_summary-summary_initial_state,
}
use mathlib.Core.Option.{some-injective}
use san.Tests.Branches.{before, Entries-one, Members-nil, Entries-nil}

abbrev box_into_raw : Text
box_into_raw = codes "alloc::boxed::Box::<T>::into_raw"

box_gives : is_into_raw box_into_raw ≡ true
unfolding is_into_raw ends_with_any ends_with has_any has_text starts_with is_any
box_gives = refl

ownership_calls_exclusive_example :
    ((is_into_raw box_into_raw && is_from_raw box_into_raw) ≡ false)
    × ((is_into_raw box_into_raw && is_raw_realloc box_into_raw) ≡ false)
    × ((is_from_raw box_into_raw && is_raw_realloc box_into_raw) ≡ false)
    × ((is_mem_forget box_into_raw
          && (is_into_raw box_into_raw || is_from_raw box_into_raw || is_raw_realloc box_into_raw))
        ≡ false)
ownership_calls_exclusive_example = ownership_calls_exclusive box_into_raw

abbrev cstring : Text
cstring = codes "alloc::ffi::CString::from_raw"

cstring_name : from_raw_short cstring ≡ "String::from_raw_parts"
unfolding from_raw_short ends_with has_text starts_with
cstring_name = refl

-- `fn f(p: *mut T, n: u8)`
abbrev two_types : Local → Ty
two_types (suc (suc l)) = uint u8
two_types _ = raw_ptr other_ty mutable

abbrev two_args : Body
two_args = record { arg_count = 2; ty = two_types; basic_blocks = [] }

-- Local 7 is the length of 6 and local 8 its capacity, in a memory of our own.
abbrev vec : Memory
vec = record {
  value = λ l. if l == 7 then 3 else if l == 8 then 5 else 1;
  limit = λ l. 8;
  len = λ l. 3;
  cap = λ l. 5;
  is_finite = λ l. true;
}

abbrev lens : CapacityDomain
lens = record {
  ref_base = [];
  len_of = (7, 6) ∷ [];
  cap_of = (8, 6) ∷ [];
  spare_if_true = [];
  spare_if_false = [];
  has_spare = [];
  full_if_true = [];
  full_if_false = [];
  is_full = [];
}

lens-CapacityHold : CapacityHold vec lens
lens-CapacityHold = record {
  spare_if_true = Entries-nil _;
  spare_if_false = Entries-nil _;
  has_spare = Members-nil _;
  full_if_true = Entries-nil _;
  full_if_false = Entries-nil _;
  is_full = Members-nil _;
}

abbrev of_local : Local → Operand
of_local l = copy (record { local = l; projection = [] })

len_below_cap :
    (p : Local × Local)
    → both_locals (operand_local (of_local 7)) (operand_local (of_local 8)) ≡ some p
    → Decides vec 1 true (vec.value (swapped false p).0 < vec.value (swapped false p).1)
unfolding operand_local
len_below_cap p e n =
    subst (λ p. vec.value p.0 < vec.value p.1) (some-injective _ _ e) (omega arith)

record_spare_sound_example :
    CapacityHold vec (record_spare lens 1 (of_local 7) (of_local 8) true false)
record_spare_sound_example =
    record_spare_sound vec lens (Entries-one _ 7 6 refl) (Entries-one _ 8 6 refl) lens-CapacityHold
      1 (of_local 7) (of_local 8) true false len_below_cap

-- The test 1 is nonzero, so the branch on which 7 and 8 would be equal is the false one.
never_equal :
    (p : Local × Local)
    → both_locals (operand_local (of_local 7)) (operand_local (of_local 8)) ≡ some p
    → Decides vec 1 false (vec.value p.0 ≡ vec.value p.1)
never_equal p e z = absurd (ground arith)

abbrev allocates : FnSummary
allocates = record {
  param_effects = (0, ParamHeapEffect.escaped) ∷ [];
  returns_raw_owned = true;
  returns_alias_of_param = none;
  returns_ptr_of_param = none;
  reallocs_param = none;
}

extract_summary-NamesParams_example : NamesParams 2 (extract_summary two_args (some before ∷ []))
extract_summary-NamesParams_example = extract_summary-NamesParams two_args (some before ∷ [])

abbrev started : BlockState
started = record before { tracking_domain = summary_initial_state two_args }

extract_summary-summary_initial_state_example :
    IsNeutral (extract_summary two_args (some started ∷ []))
extract_summary-summary_initial_state_example =
    extract_summary-summary_initial_state two_args started refl
