-- ===== src/Object/Lattice.antt =====
-- The joins of the three state types are semilattices of small height (object.rs, typestate.rs).
use san.Base.{ℕ, ◌<◌, ◌≡◌, ◌≢◌, arith}
use san.Object.{
  InitState, HeapState, ProtocolState, join_init, join_heap, join_protocol, init_eq, heap_eq,
  protocol_eq,
}

-- An idempotent, commutative and associative join, whose strict chains `rank` bounds.
pub record Semilattice {V : Type 0} (join : V → V → V) (rank : V → ℕ) : Type 0 where
  pub idem : (a : V) → join a a ≡ a
  pub comm : (a b : V) → join a b ≡ join b a
  pub assoc : (a b c : V) → join (join a b) c ≡ join a (join b c)
  pub falls : (a b : V) → join a b ≢ a → rank (join a b) < rank a

abbrev pub init_rank : InitState → ℕ
init_rank InitState.initialized = 1
init_rank InitState.unknown = 0

abbrev pub heap_rank : HeapState → ℕ
heap_rank HeapState.raw_owned = 2
heap_rank HeapState.reconstituted = 2
heap_rank HeapState.maybe_freed = 1
heap_rank HeapState.escaped = 0

abbrev pub protocol_rank : ProtocolState → ℕ
protocol_rank ProtocolState.maybe_active = 0
protocol_rank _ = 1

pub join_init-Semilattice : Semilattice join_init init_rank
unfolding join_init
join_init-Semilattice = record {
  idem = λ a. ground arith;
  comm = λ a b. ground arith;
  assoc = λ a b c. ground arith;
  falls = λ a b h. ground arith;
}

pub join_heap-Semilattice : Semilattice join_heap heap_rank
unfolding join_heap
join_heap-Semilattice = record {
  idem = λ a. ground arith;
  comm = λ a b. ground arith;
  assoc = λ a b c. ground arith;
  falls = λ a b h. ground arith;
}

pub join_protocol-Semilattice : Semilattice join_protocol protocol_rank
unfolding join_protocol
join_protocol-Semilattice = record {
  idem = λ a. ground arith;
  comm = λ a b. ground arith;
  assoc = λ a b c. ground arith;
  falls = λ a b h. ground arith;
}
