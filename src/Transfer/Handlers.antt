-- ===== src/Transfer/Handlers.antt =====
-- What a call of a known function does to its destination and its arguments: the handlers of
-- `apply_terminator` (crates/san/src/analysis/transfer.rs).
use san.Base.{◌%◌, ◌^◌, List, [], ◌∷◌, Bool, false, ◌&&◌, ◌||◌, Option, none, some, nat_eq}
use san.Base.Sets.{insert, remove}
use san.Base.Maps.{lookup, put, erase}
use san.Base.Texts.{has_text, codes}
use san.Object.{ObjectId, HeapState, HeapMap, InitState, ProtocolId, ProtocolState, TypestateMap}
use san.Join.{get_or}
use san.State.Locals.{Local, BasicBlock}
use san.State.{BlockState}
use san.State.Tracking.{TrackingDomain}
use san.State.Inits.{InitsDomain}
use san.State.Ownership.{objects_for, is_empty}
use san.Mir.{Operand, Ty, adt, reference, AdtDef, Body}
use san.Facts.{first_arg_local, first_arg_base_local}
use san.Summary.Apply.{reconstitute, call_object}
use san.Transfer.Clear.{on_tracking, clear_facts, clear_proto_facts}
use san.Transfer.Reads.{assign_objects, some_nonempty, untrack}

abbrev pub on_inits : (InitsDomain → InitsDomain) → BlockState → BlockState
on_inits f s = record s { inits_domain = f s.inits_domain }

-- The raw-owned objects of `src` are taken back; the pointer keeps its objects.
unfoldable pub take_back : TrackingDomain → Option Local → TrackingDomain
unfolding objects_for reconstitute
take_back s none = s
take_back s (some src) = record s { heap = reconstitute s.heap (objects_for s src) }

-- `dest` owns the allocation of the call at `bb`.
unfoldable pub own_fresh : Local → BasicBlock → TrackingDomain → TrackingDomain
own_fresh dest bb s = record s {
  points_to = put s.points_to dest (call_object bb ∷ []);
  heap = put s.heap (call_object bb) HeapState.raw_owned;
}

unfoldable pub call_raw_realloc : BlockState → Local → BasicBlock → List Operand → BlockState
unfolding take_back own_fresh clear_facts first_arg_local
call_raw_realloc s dest bb args =
    clear_facts dest (on_tracking (λ t. own_fresh dest bb (take_back t (first_arg_local args))) s)

unfoldable pub call_into_raw : BlockState → Local → BasicBlock → BlockState
unfolding own_fresh clear_facts
call_into_raw s dest bb = clear_facts dest (on_tracking (own_fresh dest bb) s)

abbrev pub or_local : Option Local → Option Local → Option Local
or_local none p = p
or_local (some l) p = some l

-- The argument that a `from_raw` call rebuilds a container from.
unfoldable pub from_raw_source : List Operand → Option Local
unfolding first_arg_local first_arg_base_local
from_raw_source args = or_local (first_arg_local args) (first_arg_base_local args)

-- `dest` aliases what `src` aliased.
abbrev pub alias_rebuilt : TrackingDomain → Local → Option Local → TrackingDomain
alias_rebuilt s dest none = s
alias_rebuilt s dest (some src) = record s {
  owner_alias = elim (lookup s.owner_alias src) [
    | none ↦ s.owner_alias
    | some owners ↦ put s.owner_alias dest owners
  ];
}

unfoldable pub rebuild : TrackingDomain → Local → Option Local → TrackingDomain
unfolding take_back
rebuild s dest src =
    let taken = take_back s src in
    alias_rebuilt
      (record taken {
        points_to = erase taken.points_to dest;
        local_proto = erase taken.local_proto dest;
        owner_alias = erase taken.owner_alias dest;
      })
      dest src

unfoldable pub call_from_raw : BlockState → Local → List Operand → BlockState
unfolding rebuild clear_facts from_raw_source
call_from_raw s dest args =
    clear_facts dest (on_tracking (λ t. rebuild t dest (from_raw_source args)) s)

-- The definition whose name tells whether a type is a guard.
abbrev pub guard_def : Ty → Option AdtDef
guard_def (adt def) = some def
guard_def (reference (adt def) mutbl) = some def
guard_def _ = none

unfoldable pub is_guard_type : Ty → Bool
unfolding has_text
is_guard_type ty = elim (guard_def ty) [
  | none ↦ false
  | some def ↦ has_text def.item_name (codes "Guard")
]

unfoldable pub escape_all : HeapMap → List ObjectId → HeapMap
escape_all heap [] = heap
escape_all heap (id ∷ ids) = escape_all (put heap id HeapState.escaped) ids

unfoldable pub set_protocols : TypestateMap → List ProtocolId → ProtocolState → TypestateMap
set_protocols m [] state = m
set_protocols m (id ∷ ids) state = set_protocols (put m id state) ids state

unfoldable pub forget_tracked : TrackingDomain → Body → Local → TrackingDomain
unfolding objects_for escape_all set_protocols is_guard_type
forget_tracked s body src =
    let proto_ids = get_or (lookup s.local_proto src) [] in
    record s {
      heap = escape_all s.heap (objects_for s src);
      points_to = erase s.points_to src;
      local_proto = erase s.local_proto src;
      typestate = set_protocols s.typestate proto_ids ProtocolState.forgotten;
      untracked_forget_seen =
          s.untracked_forget_seen || is_empty proto_ids && is_guard_type (body.ty src);
    }

abbrev pub forget_source : BlockState → Body → Option Local → BlockState
forget_source s body none = s
forget_source s body (some src) = record s {
  tracking_domain = forget_tracked s.tracking_domain body src;
  inits_domain = record s.inits_domain {
    init = erase s.inits_domain.init src;
    buf_written = remove s.inits_domain.buf_written src;
  };
}

unfoldable pub call_mem_forget : BlockState → Body → Local → List Operand → BlockState
unfolding forget_tracked untrack first_arg_base_local
call_mem_forget s body dest args = untrack dest (forget_source s body (first_arg_base_local args))

-- The protocol of the call at `bb`, `ProtocolId(bb.index() as u32)`.
abbrev pub call_protocol : BasicBlock → ProtocolId
call_protocol bb = bb % 2 ^ 32

-- A lock is taken, or an epoch pinned.
unfoldable pub acquire : Local → BasicBlock → TrackingDomain → TrackingDomain
acquire dest bb s = record s {
  local_proto =
      put s.local_proto dest (insert (get_or (lookup s.local_proto dest) []) (call_protocol bb));
  typestate = put s.typestate (call_protocol bb) ProtocolState.active;
}

unfoldable pub call_acquire : BlockState → Local → BasicBlock → BlockState
unfolding acquire clear_facts
call_acquire s dest bb = clear_facts dest (on_tracking (acquire dest bb) s)

-- The objects of the first argument.
unfoldable pub arg_objects : TrackingDomain → List Operand → Option (List ObjectId)
unfolding first_arg_local
arg_objects s args = elim (first_arg_local args) [
  | none ↦ none
  | some src ↦ some_nonempty (lookup s.points_to src)
]

-- `dest` points to the objects of the first argument.
unfoldable pub share_objects : BlockState → Local → List Operand → BlockState
unfolding arg_objects assign_objects
share_objects s dest args = on_tracking (assign_objects dest (arg_objects s.tracking_domain args)) s

abbrev pub uninit_source : InitsDomain → Option Local → InitsDomain
uninit_source s none = s
uninit_source s (some src) = record s { init = erase s.init src }

unfoldable pub call_assume_init : BlockState → Local → List Operand → BlockState
unfolding share_objects clear_proto_facts first_arg_local
call_assume_init s dest args =
    clear_proto_facts dest
      (share_objects (on_inits (λ i. uninit_source i (first_arg_local args)) s) dest args)

unfoldable pub call_ptr_read : BlockState → Local → List Operand → BlockState
unfolding share_objects clear_proto_facts
call_ptr_read s dest args = clear_proto_facts dest (share_objects s dest args)

unfoldable pub call_uninit_new : BlockState → Local → List Operand → BlockState
unfolding share_objects clear_proto_facts
call_uninit_new s dest args =
    on_inits (λ i. record i { init = put i.init dest InitState.initialized })
      (clear_proto_facts dest (share_objects s dest args))

-- The MaybeUninit local that a reference to it stands for.
unfoldable pub mu_local : BlockState → Local → Local
mu_local s self_ref = get_or (lookup s.capacity_domain.ref_base self_ref) self_ref

unfoldable pub call_uninit_write : BlockState → Local → List Operand → BlockState
unfolding clear_proto_facts first_arg_local mu_local
call_uninit_write s dest args = clear_proto_facts dest (elim (first_arg_local args) [
  | none ↦ s
  | some self_ref ↦
      on_inits (λ i. record i { init = put i.init (mu_local s self_ref) InitState.initialized }) s
])

unfoldable pub call_uninit_ptr : BlockState → Local → List Operand → BlockState
unfolding clear_proto_facts first_arg_local mu_local
call_uninit_ptr s dest args = clear_proto_facts dest (elim (first_arg_local args) [
  | none ↦ s
  | some self_ref ↦
      on_inits (λ i. record i { mu_raw_ptr = put i.mu_raw_ptr dest (mu_local s self_ref) }) s
])

unfoldable pub call_buf_write : BlockState → Local → List Operand → BlockState
unfolding untrack first_arg_local
call_buf_write s dest args = untrack dest (elim (first_arg_local args) [
  | none ↦ s
  | some buf ↦ on_inits (λ i. record i { buf_written = insert i.buf_written buf }) s
])
