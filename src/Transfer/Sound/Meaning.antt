-- ===== src/Transfer/Sound/Meaning.antt =====
-- The meaning of the assignments that record facts on ranges: what MIR says of the value that is
-- assigned. Values are unsigned; a cast keeps the value.
use san.Base.{ℕ, ◌+◌, ◌*◌, ◌/◌, ◌^◌, ◌≤◌, ◌<◌, ◌≡◌, ◌≢◌, Bool, true, false, some}
use san.State.Locals.{Local}
use san.State.Ranges.{RangesDomain}
use san.Mir.{Operand, BinOp, CastKind, Rvalue, use_of, cast, binary_op}
use san.Edge.{operand_local, u64_max}
use san.Edge.Memory.{Memory, Entries}
use san.Facts.Types.{Inhabits}
use san.Transfer.Store.{rvalue_local}
use san.Transfer.Binary.{const_u64}

-- `v` is a `u64`, and the value of the operand if it is a local or a known constant.
pub record Reads (m : Memory) (op : Operand) (v : ℕ) : Type 0 where
  pub local : (l : Local) → operand_local op ≡ some l → v ≡ m.value l
  pub const : (k : ℕ) → const_u64 op ≡ some k → v ≡ k
  pub wide : v ≤ u64_max

-- `v` is the result for `a` and `b`. A comparison gives zero exactly if it is false; a product and
-- a sum may wrap around.
abbrev pub BinResult : BinOp → ℕ → ℕ → ℕ → Type 0
BinResult BinOp.lt a b v = (v ≢ 0 → a < b) × (v ≡ 0 → b ≤ a)
BinResult BinOp.ge a b v = (v ≢ 0 → b ≤ a) × (v ≡ 0 → a < b)
BinResult BinOp.le a b v = (v ≢ 0 → a ≤ b) × (v ≡ 0 → b < a)
BinResult BinOp.gt a b v = (v ≢ 0 → b < a) × (v ≡ 0 → a ≤ b)
BinResult BinOp.eq a b v = (v ≢ 0 → a ≡ b) × (v ≡ 0 → a ≢ b)
BinResult BinOp.ne a b v = (v ≢ 0 → a ≢ b) × (v ≡ 0 → a ≡ b)
BinResult BinOp.bit_or a b v = (a ≢ 0 → v ≢ 0) × (b ≢ 0 → v ≢ 0)
BinResult BinOp.bit_and a b v = (v ≤ a) × (v ≤ b)
BinResult BinOp.rem a b v = 0 < b → v < b
BinResult BinOp.shr a b v = (b < 64) × (v ≡ a / 2 ^ b)
BinResult BinOp.mul a b v = v ≤ a * b
BinResult BinOp.mul_with_overflow a b v = v ≤ a * b
BinResult BinOp.add a b v = v ≤ a + b
BinResult BinOp.add_with_overflow a b v = v ≤ a + b
BinResult _ a b v = Unit

-- `v` is a value of the rvalue in `m`.
abbrev pub Evaluates : Memory → Rvalue → ℕ → Type 0
Evaluates m (use_of op) v = Reads m op v
Evaluates m (cast CastKind.int_to_int op ty) v = Reads m op v × Inhabits ty v
Evaluates m (binary_op op op1 op2) v =
    (a : ℕ) × (b : ℕ) × Reads m op1 a × Reads m op2 b × BinResult op a b v
Evaluates m _ v = Unit

-- `m'` is the memory `m` after `dst = rvalue`.
pub record Assigns (m m' : Memory) (dst : Local) (rvalue : Rvalue) : Type 0 where
  pub value : Evaluates m rvalue (m'.value dst)
  pub finite : (src : Local) → rvalue_local rvalue ≡ some src → m'.is_finite dst ≡ m.is_finite src
  pub keeps_value : (l : Local) → l ≢ dst → m'.value l ≡ m.value l
  pub keeps_finite : (l : Local) → l ≢ dst → m'.is_finite l ≡ m.is_finite l

abbrev pub is_comparison : BinOp → Bool
is_comparison BinOp.lt = true
is_comparison BinOp.le = true
is_comparison BinOp.gt = true
is_comparison BinOp.ge = true
is_comparison BinOp.eq = true
is_comparison BinOp.ne = true
is_comparison _ = false

abbrev pub AreOthers : Local → Operand → Operand → Type 0
AreOthers dst op1 op2 =
    ((l : Local) → operand_local op1 ≡ some l → l ≢ dst)
    × ((l : Local) → operand_local op2 ≡ some l → l ≢ dst)

-- A comparison does not overwrite one of its operands.
abbrev pub IsSeparate : Local → Rvalue → Type 0
IsSeparate dst (binary_op op op1 op2) = is_comparison op ≡ true → AreOthers dst op1 op2
IsSeparate dst _ = Unit

-- No conditional fact is about `dst`.
pub record IsUnconditional (dst : Local) (s : RangesDomain) : Type 0 where
  pub nonzero_if_true : Entries (λ d l. l ≢ dst) s.nonzero_if_true
  pub nonzero_if_false : Entries (λ d l. l ≢ dst) s.nonzero_if_false
  pub finite_if_true : Entries (λ d l. l ≢ dst) s.finite_if_true
  pub nan_if_true : Entries (λ d l. l ≢ dst) s.nan_if_true
  pub const_lt : Entries (λ d c. c.0 ≢ dst) s.const_lt
  pub const_le : Entries (λ d c. c.0 ≢ dst) s.const_le
  pub const_gt : Entries (λ d c. c.0 ≢ dst) s.const_gt
  pub const_ge : Entries (λ d c. c.0 ≢ dst) s.const_ge
