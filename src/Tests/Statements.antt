-- ===== src/Tests/Statements.antt =====
-- Assignments on concrete states.
use san.Base.{
  [], ◌∷◌, true, none, some, ◌≡◌, refl, nat_eq, ◌==◌, arith, if◌then◌else◌, nat_beq_iff, Bool-cases,
  inl, inr,
}
use san.Base.Maps.{lookup}
use mathlib.Core.Option.{some-injective}
use san.State.{BlockState}
use san.State.Proven.{local_is_nonzero}
use san.Mir.{copy, constant, Constant, bool, Body, BinOp, binary_op, use_of, Rvalue, assign}
use san.Edge.{operand_local, refine_true}
use san.Edge.Memory.{Memory}
use san.Edge.Ranges.{RangesHold, IsWide}
use san.Transfer.Binary.{const_u64}
use san.Transfer.Statement.{apply_statement}
use san.Transfer.Store.{rvalue_local}
use san.Transfer.Sound.Meaning.{Reads, Assigns, IsUnconditional, AreOthers}
use san.Transfer.Sound.Ranges.{plain, apply_statement_ranges_sound}
use san.Transfer.Sound.Limits.{stale_condition}
use san.Tests.Branches.{five, five-IsWide, before, ranges-RangesHold, Entries-one, Entries-nil}

-- `_4 = copy _2 < const 50`, where `_2` is 5
abbrev fifty : Constant
fifty = record { scalar = some 50; fn_def = none }

abbrev less : Rvalue
less = binary_op BinOp.lt (copy (plain 2)) (constant fifty)

abbrev compared : Memory
compared = record five { value = λ l. if l == 4 then 1 else five.value l }

abbrev flags : Body
flags = record { arg_count = 0; ty = λ _. bool; basic_blocks = [] }

compared-IsWide : IsWide compared
compared-IsWide l = elim (Bool-cases (l == 4)) [
  | inl y ↦ rw y (omega arith)
  | inr n ↦ rw n (five-IsWide l)
]

two_read : Reads five (copy (plain 2)) 5
unfolding operand_local const_u64
two_read = record {
  local = λ l e. ground (arith, some-injective 2 l e);
  const = λ k e. absurd (ground arith);
  wide = omega arith;
}

fifty_read : Reads five (constant fifty) 50
unfolding operand_local const_u64
fifty_read = record {
  local = λ l e. absurd (ground arith);
  const = λ k e. some-injective 50 k e;
  wide = omega arith;
}

less_assigned : Assigns five compared 4 less
unfolding rvalue_local
less_assigned = record {
  value = (5, 50, two_read, fifty_read, (λ _. omega arith, λ z. absurd (ground arith)));
  finite = λ src e. refl;
  keeps_value = λ l n. ground (arith, nat_beq_iff l 4);
  keeps_finite = λ l n. refl;
}

others : AreOthers 4 (copy (plain 2)) (constant fifty)
unfolding operand_local
others = (λ l e q. absurd (ground (arith, some-injective 2 l e)), λ l e. absurd (ground arith))

before_free : IsUnconditional 4 before.ranges_domain
before_free = record {
  nonzero_if_true = Entries-nil _;
  nonzero_if_false = Entries-nil _;
  finite_if_true = Entries-nil _;
  nan_if_true = Entries-nil _;
  const_lt = Entries-one _ 1 (2, 8) (λ q. absurd (ground arith));
  const_le = Entries-nil _;
  const_gt = Entries-nil _;
  const_ge = Entries-nil _;
}

apply_statement_ranges_sound_example :
    RangesHold compared (apply_statement before flags (assign (plain 4) less)).ranges_domain
apply_statement_ranges_sound_example =
    apply_statement_ranges_sound five compared five-IsWide compared-IsWide before flags 4 less
      less_assigned (λ _. others) (omega arith) before_free ranges-RangesHold

-- `if flag { .. }` after `flag = x != 0; x = 0`
abbrev tested : BlockState
tested = record before {
  ranges_domain = record before.ranges_domain { nonzero = 2 ∷ []; nonzero_if_true = (1, 2) ∷ [] };
}

abbrev nothing : Constant
nothing = record { scalar = some 0; fn_def = none }

tested_one : lookup tested.nonzero_if_true 1 ≡ some 2
unfolding lookup
tested_one = refl

stale_condition_example :
    local_is_nonzero
      (refine_true 1
        (apply_statement tested flags (assign (plain 2) (use_of (constant nothing))))).ranges_domain
      2
    ≡ true
stale_condition_example =
    stale_condition tested flags 1 2 nothing (λ q. absurd (ground arith)) tested_one
