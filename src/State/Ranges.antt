-- ===== src/State/Ranges.antt =====
-- Value ranges: nonzero and finite locals, and constant bounds (`u64`).
-- One domain of `BlockState` and its part of `join_with` (crates/san/src/analysis/state.rs).
use san.Base.{ℕ, List, Bool, ◌||◌, ◌≤◌, refl, nat_eq, pair_eq, list_eq}
use san.Base.Maps.{Map}
use san.Object.{init_eq, heap_eq, protocol_eq}
use san.Join.{join_inter, join_or_insert, join_meet, weaker_upper, weaker_lower}
use san.Join.Laws.{JoinLaws, pair-JoinLaws, pullback-JoinLaws}
use san.Join.Each.Values.{KeysBelow, join_or_insert-JoinLaws}
use san.Join.Meet.{
  InterBelow, MeetBelow, AtLeast, join_inter-JoinLaws, join_meet-JoinLaws, weaker_upper-MergeLaws,
  weaker_lower-MergeLaws,
}
use san.State.Locals.{Local}

pub record RangesDomain : Type 0 where
  pub nonzero : List Local
  pub nonzero_if_true : Map Local Local
  pub nonzero_if_false : Map Local Local
  pub finite : List Local
  pub finite_if_true : Map Local Local
  pub nan_if_true : Map Local Local
  pub const_upper : Map Local ℕ
  pub const_lower : Map Local ℕ
  pub const_lt : Map Local (Local × ℕ)
  pub const_le : Map Local (Local × ℕ)
  pub const_gt : Map Local (Local × ℕ)
  pub const_ge : Map Local (Local × ℕ)

unfoldable pub join_ranges : RangesDomain → RangesDomain → RangesDomain × Bool
join_ranges s o =
    let nonzero = join_inter s.nonzero o.nonzero in
    let nonzero_if_true = join_or_insert s.nonzero_if_true o.nonzero_if_true in
    let nonzero_if_false = join_or_insert s.nonzero_if_false o.nonzero_if_false in
    let finite = join_inter s.finite o.finite in
    let finite_if_true = join_or_insert s.finite_if_true o.finite_if_true in
    let nan_if_true = join_or_insert s.nan_if_true o.nan_if_true in
    let const_upper = join_meet weaker_upper s.const_upper o.const_upper in
    let const_lower = join_meet weaker_lower s.const_lower o.const_lower in
    let const_lt = join_or_insert s.const_lt o.const_lt in
    let const_le = join_or_insert s.const_le o.const_le in
    let const_gt = join_or_insert s.const_gt o.const_gt in
    let const_ge = join_or_insert s.const_ge o.const_ge in
    (
      record {
        nonzero = nonzero.0;
        nonzero_if_true = nonzero_if_true.0;
        nonzero_if_false = nonzero_if_false.0;
        finite = finite.0;
        finite_if_true = finite_if_true.0;
        nan_if_true = nan_if_true.0;
        const_upper = const_upper.0;
        const_lower = const_lower.0;
        const_lt = const_lt.0;
        const_le = const_le.0;
        const_gt = const_gt.0;
        const_ge = const_ge.0;
      },
      nonzero.1 || nonzero_if_true.1 || nonzero_if_false.1 || finite.1 || finite_if_true.1
          || nan_if_true.1 || const_upper.1 || const_lower.1 || const_lt.1 || const_le.1
          || const_gt.1 || const_ge.1,
    )

-- `t` claims no more than `s`, field by field.
pub record RangesBelow (s t : RangesDomain) : Type 0 where
  pub nonzero : InterBelow s.nonzero t.nonzero
  pub nonzero_if_true : KeysBelow s.nonzero_if_true t.nonzero_if_true
  pub nonzero_if_false : KeysBelow s.nonzero_if_false t.nonzero_if_false
  pub finite : InterBelow s.finite t.finite
  pub finite_if_true : KeysBelow s.finite_if_true t.finite_if_true
  pub nan_if_true : KeysBelow s.nan_if_true t.nan_if_true
  pub const_upper : MeetBelow ◌≤◌ s.const_upper t.const_upper
  pub const_lower : MeetBelow AtLeast s.const_lower t.const_lower
  pub const_lt : KeysBelow s.const_lt t.const_lt
  pub const_le : KeysBelow s.const_le t.const_le
  pub const_gt : KeysBelow s.const_gt t.const_gt
  pub const_ge : KeysBelow s.const_ge t.const_ge

pub join_ranges-JoinLaws : JoinLaws join_ranges RangesBelow
unfolding join_ranges
join_ranges-JoinLaws =
    pullback-JoinLaws
      (pair-JoinLaws
        (pair-JoinLaws
          (pair-JoinLaws
            (pair-JoinLaws
              (pair-JoinLaws
                (pair-JoinLaws
                  (pair-JoinLaws
                    (pair-JoinLaws
                      (pair-JoinLaws
                        (pair-JoinLaws
                          (pair-JoinLaws (join_inter-JoinLaws) (join_or_insert-JoinLaws))
                          (join_or_insert-JoinLaws))
                        (join_inter-JoinLaws))
                      (join_or_insert-JoinLaws))
                    (join_or_insert-JoinLaws))
                  (join_meet-JoinLaws weaker_upper-MergeLaws))
                (join_meet-JoinLaws weaker_lower-MergeLaws))
              (join_or_insert-JoinLaws))
            (join_or_insert-JoinLaws))
          (join_or_insert-JoinLaws))
        (join_or_insert-JoinLaws))
      (λ s. (
        (
          (
            (
              (
                (
                  (
                    (
                      (((s.nonzero, s.nonzero_if_true), s.nonzero_if_false), s.finite),
                      s.finite_if_true,
                    ),
                    s.nan_if_true,
                  ),
                  s.const_upper,
                ),
                s.const_lower,
              ),
              s.const_lt,
            ),
            s.const_le,
          ),
          s.const_gt,
        ),
        s.const_ge,
      ))
      (λ s t h. (
        (
          (
            (
              (
                (
                  (
                    (
                      (((h.nonzero, h.nonzero_if_true), h.nonzero_if_false), h.finite),
                      h.finite_if_true,
                    ),
                    h.nan_if_true,
                  ),
                  h.const_upper,
                ),
                h.const_lower,
              ),
              h.const_lt,
            ),
            h.const_le,
          ),
          h.const_gt,
        ),
        h.const_ge,
      ))
      (λ s t h. record {
        nonzero = h.0.0.0.0.0.0.0.0.0.0.0;
        nonzero_if_true = h.0.0.0.0.0.0.0.0.0.0.1;
        nonzero_if_false = h.0.0.0.0.0.0.0.0.0.1;
        finite = h.0.0.0.0.0.0.0.0.1;
        finite_if_true = h.0.0.0.0.0.0.0.1;
        nan_if_true = h.0.0.0.0.0.0.1;
        const_upper = h.0.0.0.0.0.1;
        const_lower = h.0.0.0.0.1;
        const_lt = h.0.0.0.1;
        const_le = h.0.0.1;
        const_gt = h.0.1;
        const_ge = h.1;
      })
      (λ s o. refl) (λ s o. refl)
