-- ===== src/Object.antt =====
-- Abstract heap objects, protocol instances and `MaybeUninit` states
-- (crates/san/src/analysis/object.rs and typestate.rs).
pub mod Lattice
use san.Base.{ℕ, Bool, true, false, if◌then◌else◌, Eq, ◌==◌, ◌≡◌, ◌↔◌, refl, arith}
use san.Base.Maps.{Map}

-- `ObjectId` and `ProtocolId` are newtypes of `u32`.
abbrev pub ObjectId : Type 0
ObjectId = ℕ

abbrev pub ProtocolId : Type 0
ProtocolId = ℕ

pub data InitState : Type 0 where
  initialized unknown : InitState

abbrev pub init_beq : InitState → InitState → Bool
init_beq InitState.initialized InitState.initialized = true
init_beq InitState.unknown InitState.unknown = true
init_beq _ _ = false

pub init_beq_iff : (a b : InitState) → (init_beq a b ≡ true) ↔ (a ≡ b)
init_beq_iff a b = ground arith

instance abbrev pub init_eq : Eq InitState
init_eq = record { beq = init_beq; beq_iff = init_beq_iff }

-- `InitState::join`
unfoldable pub join_init : InitState → InitState → InitState
join_init a b = if a == b then a else InitState.unknown

pub data HeapState : Type 0 where
  raw_owned reconstituted maybe_freed escaped : HeapState

abbrev pub heap_beq : HeapState → HeapState → Bool
heap_beq HeapState.raw_owned HeapState.raw_owned = true
heap_beq HeapState.reconstituted HeapState.reconstituted = true
heap_beq HeapState.maybe_freed HeapState.maybe_freed = true
heap_beq HeapState.escaped HeapState.escaped = true
heap_beq _ _ = false

pub heap_beq_iff : (a b : HeapState) → (heap_beq a b ≡ true) ↔ (a ≡ b)
heap_beq_iff a b = ground arith

instance abbrev pub heap_eq : Eq HeapState
heap_eq = record { beq = heap_beq; beq_iff = heap_beq_iff }

-- the `match` of `HeapState::join`, on unequal states
merge_heap : HeapState → HeapState → HeapState
merge_heap HeapState.escaped _ = HeapState.escaped
merge_heap _ HeapState.escaped = HeapState.escaped
merge_heap _ _ = HeapState.maybe_freed

-- `HeapState::join`
unfoldable pub join_heap : HeapState → HeapState → HeapState
unfolding merge_heap
join_heap a b = if a == b then a else merge_heap a b

-- `HeapState::is_hazard`
unfoldable pub heap_is_hazard : HeapState → Bool
heap_is_hazard HeapState.maybe_freed = true
heap_is_hazard _ = false

abbrev pub HeapMap : Type 0
HeapMap = Map ObjectId HeapState

pub data ProtocolState : Type 0 where
  active consumed forgotten maybe_active : ProtocolState

abbrev pub protocol_beq : ProtocolState → ProtocolState → Bool
protocol_beq ProtocolState.active ProtocolState.active = true
protocol_beq ProtocolState.consumed ProtocolState.consumed = true
protocol_beq ProtocolState.forgotten ProtocolState.forgotten = true
protocol_beq ProtocolState.maybe_active ProtocolState.maybe_active = true
protocol_beq _ _ = false

pub protocol_beq_iff : (a b : ProtocolState) → (protocol_beq a b ≡ true) ↔ (a ≡ b)
protocol_beq_iff a b = ground arith

instance abbrev pub protocol_eq : Eq ProtocolState
protocol_eq = record { beq = protocol_beq; beq_iff = protocol_beq_iff }

-- `ProtocolState::join`
unfoldable pub join_protocol : ProtocolState → ProtocolState → ProtocolState
join_protocol a b = if a == b then a else ProtocolState.maybe_active

-- `ProtocolState::is_hazard`
unfoldable pub protocol_is_hazard : ProtocolState → Bool
protocol_is_hazard ProtocolState.consumed = true
protocol_is_hazard ProtocolState.maybe_active = true
protocol_is_hazard _ = false

abbrev pub TypestateMap : Type 0
TypestateMap = Map ProtocolId ProtocolState
