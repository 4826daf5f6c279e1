-- ===== src/Transfer/Ownership/Lifecycle.antt =====
-- An allocation is given away by a call of an `into_raw` function and taken back by one of a
-- `from_raw` function (`apply_terminator` of crates/san/src/analysis/transfer.rs).
use san.Base.{
  List, [], ◌∷◌, true, false, Option, none, some, ◌≡◌, ◌≢◌, refl, subst, ap, sym, ◌∙◌, nat_eq,
  arith, nat_beq_iff, In,
}
use san.Base.Maps.{Map, lookup, erase, lookup-erase}
use san.Object.{ObjectId}
use san.Base.Texts.{Text}
use san.Callee.{is_into_raw, is_from_raw, is_raw_realloc}
use san.Callee.Disjoint.{ownership_calls_exclusive}
use san.Join.{get_or}
use san.State.Locals.{Local, BasicBlock, DefId}
use san.State.{BlockState}
use san.State.Tracking.{TrackingDomain}
use san.State.Ownership.{
  FreedKind, objects_for, freed_kind, kind_in, ptr_is_raw_owned, invalidate_owner,
}
use san.Mir.{Operand, Body, UnwindAction, call}
use san.Summary.{ParamHeapEffect}
use san.Summary.Apply.{apply_effect, reconstitute}
use san.Summary.Frees.{apply_effect_frees}
use san.Transfer.Owners.{to_invalidate, invalidate_owners, invalidate_owner_args}
use san.Transfer.Calls.{
  alias_src_arg, TyCtxt, SummaryMap, callee_of, realloc_recv, reallocate, before_call,
}
use san.Transfer.Known.{record_call}
use san.Transfer.Handlers.{call_from_raw, rebuild, take_back, from_raw_source}
use san.Transfer.Terminator.{
  call_handler, apply_known, apply_callee, apply_call, record_result, apply_terminator,
}
use san.Transfer.Sound.Ranges.{plain}

-- What breaking aliases leaves alone.
pub record KeepsObjects (s t : TrackingDomain) : Type 0 where
  pub heap : t.heap ≡ s.heap
  pub points_to : t.points_to ≡ s.points_to
  pub local_proto : t.local_proto ≡ s.local_proto
  pub typestate : t.typestate ≡ s.typestate
  pub untracked : t.untracked_forget_seen ≡ s.untracked_forget_seen

invalidate_owners-KeepsObjects :
    (s : TrackingDomain) (os : List Local) → KeepsObjects s (invalidate_owners s os)
unfolding invalidate_owners invalidate_owner
invalidate_owners-KeepsObjects s [] = record {
  heap = refl;
  points_to = refl;
  local_proto = refl;
  typestate = refl;
  untracked = refl;
}
invalidate_owners-KeepsObjects s (o ∷ os) =
    let h = invalidate_owners-KeepsObjects (invalidate_owner s o) os in
    record {
      heap = h.heap;
      points_to = h.points_to;
      local_proto = h.local_proto;
      typestate = h.typestate;
      untracked = h.untracked;
    }

kept_objects :
    (s t : TrackingDomain) (l : Local) → KeepsObjects s t → objects_for t l ≡ objects_for s l
unfolding objects_for
kept_objects s t l k = ap (λ m. get_or (lookup m l) []) k.points_to

kept_owned :
    (s t : TrackingDomain) (l : Local)
    → KeepsObjects s t
    → ptr_is_raw_owned t l ≡ ptr_is_raw_owned s l
unfolding ptr_is_raw_owned objects_for
kept_owned s t l k = rw (ptr_is_raw_owned, objects_for, k.heap, k.points_to) refl

erase_other :
    {V : Type 0} (m : Map Local V) (dest l : Local)
    → l ≢ dest
    → lookup (erase m dest) l ≡ lookup m l
erase_other m dest l n = ground (arith, lookup-erase m dest l, nat_beq_iff dest l)

module _ (tcx : TyCtxt) (summaries : SummaryMap) (s : BlockState) (body : Body) (bb : BasicBlock)
    (func : Operand) (args : List Operand) (dest : Local) (target : Option BasicBlock)
    (unwind : UnwindAction) (id : DefId) where
  -- The state after the call, and before its handler is chosen.
  abbrev pub after_call : BlockState
  after_call = apply_terminator tcx summaries s body bb (call func args (plain dest) target unwind)

  abbrev pub prepared : BlockState
  prepared = before_call tcx summaries s body (some id) args dest

  pub prepared-KeepsObjects :
      realloc_recv tcx summaries (some id) args ≡ none
      → KeepsObjects s.tracking_domain prepared.tracking_domain
  unfolding before_call invalidate_owner_args invalidate_owner reallocate
  prepared-KeepsObjects e =
      let h =
        invalidate_owners-KeepsObjects s.tracking_domain
          (to_invalidate s.tracking_domain body (alias_src_arg summaries (some id)) 0 args) in
      record {
        heap = rw (e, reallocate) h.heap;
        points_to = rw (e, reallocate) h.points_to;
        local_proto = rw (e, reallocate) h.local_proto;
        typestate = rw (e, reallocate) h.typestate;
        untracked = rw (e, reallocate) h.untracked;
      }

  abbrev pub path : Text
  path = tcx.def_path_str id

  -- A known function with a local as its destination is handled.
  pub after_call-tracking :
      callee_of tcx s.tracking_domain func ≡ some id
      → after_call.tracking_domain
        ≡ (call_handler
            (record_call prepared dest path args)
            body
            dest
            path
            bb
            args
            (lookup summaries id)).tracking_domain
  unfolding apply_terminator apply_call apply_known record_result
  after_call-tracking e =
      ap
        (λ c.
          (apply_callee tcx summaries (before_call tcx summaries s body c args dest) body bb args c
            (some dest)).tracking_domain)
        e

  abbrev pub recorded : BlockState
  recorded = record_call prepared dest path args

  handled_from :
      is_from_raw path ≡ true
      → call_handler recorded body dest path bb args (lookup summaries id)
        ≡ call_from_raw recorded dest args
  unfolding call_handler
  handled_from from =
      let re : is_raw_realloc path ≡ false = ground (arith, (ownership_calls_exclusive path).2) in
      let into : is_into_raw path ≡ false = ground (arith, (ownership_calls_exclusive path).0) in
      rw (re, into, from) refl

  -- A rebuilt container leaves its pointers as the effect of a freeing callee does.
  rebuild-freed :
      (t : TrackingDomain) (src ptr : Local)
      → ptr ≢ dest
      → freed_kind (rebuild t dest (some src)) ptr
        ≡ freed_kind (apply_effect t src ParamHeapEffect.reconstituted) ptr
  unfolding rebuild apply_effect take_back freed_kind objects_for
  rebuild-freed t src ptr n =
      ap (λ o. kind_in (reconstitute t.heap (get_or (lookup t.points_to src) [])) (get_or o []))
        (erase_other t.points_to dest ptr n)

  -- A call of a `from_raw` function, or of a deallocator, that reallocates no buffer frees the
  -- pointer that it is given: every other local but the result that was owned and points only to
  -- objects of that pointer, the pointer itself included, is definitely freed.
  pub from_raw_frees :
      callee_of tcx s.tracking_domain func ≡ some id
      → is_from_raw (tcx.def_path_str id) ≡ true
      → realloc_recv tcx summaries (some id) args ≡ none
      → (src : Local) → from_raw_source args ≡ some src
      → (ptr : Local) → ptr ≢ dest
      → ptr_is_raw_owned s.tracking_domain ptr ≡ true
      → ((o : ObjectId)
          → In o (objects_for s.tracking_domain ptr)
          → In o (objects_for s.tracking_domain src))
      → freed_kind after_call.tracking_domain ptr ≡ FreedKind.definite
  unfolding call_from_raw record_call before_call
  from_raw_frees e from no_realloc src given ptr n owned within =
      let kept = prepared-KeepsObjects no_realloc in
      ap (λ t. freed_kind t ptr)
        (after_call-tracking e ∙ ap (λ t. t.tracking_domain) (handled_from from))
      ∙ ap (λ o. freed_kind (rebuild prepared.tracking_domain dest o) ptr) given
      ∙ rebuild-freed prepared.tracking_domain src ptr n
      ∙ apply_effect_frees prepared.tracking_domain src ptr
          (kept_owned s.tracking_domain prepared.tracking_domain ptr kept ∙ owned)
          (λ o m.
            subst (λ x. In o x)
              (sym (kept_objects s.tracking_domain prepared.tracking_domain src kept))
              (within o (
                subst (λ x. In o x)
                  (kept_objects s.tracking_domain prepared.tracking_domain ptr kept) m)))
