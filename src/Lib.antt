-- ===== src/Lib.antt =====
-- A verification of the dataflow analysis of san, a static analyser that looks for undefined
-- behaviour of unsafe Rust in the MIR of a crate.
--
-- For each body the analyser computes an abstract state at the entry of every basic block: it
-- starts with the parameters' facts, applies the statements and the terminator of a block, refines
-- the result along each branch, and joins it into the states of the successors until nothing
-- changes. Checkers then read the states to report, or to suppress, a finding.
--
--   Base      equality, lists, sets and maps: a HashSet is a list read through `contains`, a
--             HashMap an association list read through `lookup`.
--   Object    the states of heap objects, lock protocols and MaybeUninit locals, with their joins
--             (crates/san/src/analysis/object.rs, typestate.rs).
--   Join      the shapes of the field joins of `BlockState::join_with`, and their laws
--             (crates/san/src/analysis/state.rs).
--   State     `BlockState`, grouped into seven domains, `join_with`, and the methods: Ownership for
--             the tracking of pointers, Proven for the questions whether a fact is proven.
--   Mir       the shapes of rustc's MIR that the source matches on.
--   Dataflow  the worklist engine (`run_fixpoint`, `block_successors` of
--             crates/san/src/analysis/dataflow.rs), over any states with a join, and with the
--             effects of blocks and edges as parameters, which Transfer fills.
--   Edge      `refine_switchint_edge` (crates/san/src/analysis/transfer.rs) and what the facts of
--             a state say of a memory.
--   Callee    the functions that the analysis knows by their path (transfer.rs, lib.rs), and the names
--             that reports give to calls (crates/san/src/checkers/flow).
--   Facts     what types and comparisons of lengths with capacities record, and how arguments and
--             fields are read off MIR (transfer.rs).
--   Summary   what a function does to its raw-pointer parameters, and what a call of it does to the
--             caller's state (crates/san/src/analysis/summary.rs).
--   Transfer  `apply_statement` and `apply_terminator` (transfer.rs). Statement: what an assignment
--             clears (Clear), the aliases (Owners), stores through projections (Store), moves and
--             copies (Moves), field reads, addresses, aggregates, casts and constants (Reads),
--             comparisons and arithmetic (Binary, Arith). Terminator: what holds of every call
--             (Calls), what a known path records (Known), the handlers of calls (Handlers),
--             assertions and drops. Replay: the engine run on a body, and the states that checkers
--             ask for (`compute_flow`, `state_at_location` of dataflow.rs). Sound is about the facts
--             against memories, Ownership about the tracking of allocations and guards.
--   Rounds    which functions get a summary, and the rounds of summaries of `run_checks`
--             (crates/san/src/lib.rs), at most 8, over the analysis of one function as a parameter.
--   Report    the end of `run_checks` (crates/san/src/lib.rs): duplicates and the backstop rule.
--   Flow      the flow checkers (crates/san/src/checkers/flow), over the states before the
--             terminators.
--   Precond   the preconditions that a function places on its arguments, and the calls that violate
--             them (crates/san/src/analysis/precond.rs, crates/san/src/checkers/precond_propagation.rs).
--   Run       the passes over the bodies of a crate in `run_checks` (crates/san/src/lib.rs), with the
--             list of checkers as a parameter.
--   Tests     runs on concrete bodies and states.
--
-- Locals, blocks and fields are natural numbers, and the bounds of const_upper and const_lower are
-- numbers up to 2 ^ 64 - 1 with their saturating arithmetic. A MIR constant is what the source
-- asks of it: its value as a u64 and the function that it names. The worklist loop has fuel for its
-- rounds; 1 + blocks * (height + 1) of them are enough. A state's map may list a key twice: only
-- `lookup` reads it, and the first entry counts. Paths are lists of code points. The types of locals
-- are the kinds that the source tells apart.
--
-- Questions to the compiler about functions (the path of one, whether it is a method of a trait,
-- what a call of it resolves to) are the parameter `TyCtxt`; the definition behind a type is the
-- record `AdtDef`. The object of a stale pointer wraps around at 2 ^ 32, and the products and
-- sums of upper bounds saturate as the u128 of the source does.
--
-- Not modelled: the other checkers that look at single calls, which match paths, ask the facts that
-- are modelled and print a message, the debugging output, and the compiler driver. The height of
-- `BlockState` over a body is not bounded, so the fuel of `compute_flow` is an argument. A constant is
-- read by its bits, as the source does, and the meaning of statements is given for unsigned values of
-- 64 bits.
pub mod Base
pub mod Object
pub mod Join
pub mod State
pub mod Mir
pub mod Callee
pub mod Edge
pub mod Facts
pub mod Summary
pub mod Transfer
pub mod Report
pub mod Flow
pub mod Precond
pub mod Rounds
pub mod Run
pub mod Dataflow
pub mod Tests
