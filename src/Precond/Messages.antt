-- ===== src/Precond/Messages.antt =====
-- The texts of crates/san/src/checkers/precond_propagation.rs.
use san.Base.{
  ℕ, zero, suc, ◌+◌, ◌-◌, ◌/◌, ◌%◌, [], ◌∷◌, ◌++◌, Bool, true, false, if◌then◌else◌, ◌==◌, ltb,
  nat_eq,
}
use mathlib.Core.List.{reverse}
use san.Base.Texts.{Text, codes, starts_with}

-- What stands before the `n`th separator `::`, read from the end of a path.
unfoldable pub take_segments : ℕ → Bool → Text → Text
unfolding starts_with
take_segments n in_separator [] = []
take_segments n true (c ∷ s) = c ∷ take_segments n false s
take_segments n false (c ∷ s) =
    let within = take_segments n false s in
    let after = take_segments (n - 1) true s in
    if starts_with (c ∷ s) (codes "::") then (if n == 1 then [] else c ∷ after) else c ∷ within

-- The last two segments of a path.
unfoldable pub callee_short : Text → Text
unfolding take_segments
callee_short path = reverse (take_segments 2 false (reverse path))

unfoldable digits : ℕ → ℕ → Text
digits zero n = []
digits (suc fuel) n =
    let rest = digits fuel (n / 10) in
    if ltb n 10 then (48 + n) ∷ [] else rest ++ (48 + n % 10) ∷ []

-- A number in decimal, with one digit of fuel for each unit.
unfoldable pub decimal : ℕ → Text
unfolding digits
decimal n = digits (suc n) n

unfoldable pub nonzero_message : Text → ℕ → Text
unfolding decimal
nonzero_message callee i =
    codes "`"
    ++ callee
    ++ codes "` requires arg["
    ++ decimal i
    ++ codes "] to be nonzero, but the value is not provably nonzero at this call site; `"
    ++ callee
    ++ codes
        "` is a safe function that internally calls unsafe code without verifying this precondition — the caller can trigger UB without writing `unsafe`"

unfoldable pub ascii_message : Text → ℕ → Text
unfolding decimal
ascii_message callee i =
    codes "`"
    ++ callee
    ++ codes "` requires arg["
    ++ decimal i
    ++ codes "] to be valid ASCII (≤ 127), but the value is not provably ASCII at this call site; `"
    ++ callee
    ++ codes
        "` is a safe function that internally calls `as_ascii_unchecked` without verifying this precondition"

unfoldable pub bounds_message : Text → ℕ × ℕ → Text
unfolding decimal
bounds_message callee (i, coll) =
    codes "`"
    ++ callee
    ++ codes "` requires arg["
    ++ decimal i
    ++ codes "] < arg["
    ++ decimal coll
    ++ codes "].len(), but the index is not provably in-bounds at this call site; `"
    ++ callee
    ++ codes
        "` is a safe function wrapping `get_unchecked` without a bounds check — the caller can trigger an out-of-bounds read via safe code"
