-- ===== src/State/Pairs.antt =====
-- Pairs of locals that are proven equal or unequal.
-- One domain of `BlockState` and its part of `join_with` (crates/san/src/analysis/state.rs).
use san.Base.{List, Bool, ◌||◌, refl, nat_eq, pair_eq, list_eq}
use san.Base.Maps.{Map}
use san.Object.{init_eq, heap_eq, protocol_eq}
use san.Join.{join_inter, join_or_insert}
use san.Join.Laws.{JoinLaws, pair-JoinLaws, pullback-JoinLaws}
use san.Join.Each.Values.{KeysBelow, join_or_insert-JoinLaws}
use san.Join.Meet.{InterBelow, join_inter-JoinLaws}
use san.State.Locals.{Local}

pub record PairsDomain : Type 0 where
  pub eq_locals : List (Local × Local)
  pub cast_origin : Map Local Local
  pub ne_pair_if_true : Map Local (Local × Local)
  pub eq_pair_if_true : Map Local (Local × Local)
  pub keys_are_ne : List (Local × Local)

unfoldable pub join_pairs : PairsDomain → PairsDomain → PairsDomain × Bool
join_pairs s o =
    let eq_locals = join_inter s.eq_locals o.eq_locals in
    let cast_origin = join_or_insert s.cast_origin o.cast_origin in
    let ne_pair_if_true = join_or_insert s.ne_pair_if_true o.ne_pair_if_true in
    let eq_pair_if_true = join_or_insert s.eq_pair_if_true o.eq_pair_if_true in
    let keys_are_ne = join_inter s.keys_are_ne o.keys_are_ne in
    (
      record {
        eq_locals = eq_locals.0;
        cast_origin = cast_origin.0;
        ne_pair_if_true = ne_pair_if_true.0;
        eq_pair_if_true = eq_pair_if_true.0;
        keys_are_ne = keys_are_ne.0;
      },
      eq_locals.1 || cast_origin.1 || ne_pair_if_true.1 || eq_pair_if_true.1 || keys_are_ne.1,
    )

-- `t` claims no more than `s`, field by field.
pub record PairsBelow (s t : PairsDomain) : Type 0 where
  pub eq_locals : InterBelow s.eq_locals t.eq_locals
  pub cast_origin : KeysBelow s.cast_origin t.cast_origin
  pub ne_pair_if_true : KeysBelow s.ne_pair_if_true t.ne_pair_if_true
  pub eq_pair_if_true : KeysBelow s.eq_pair_if_true t.eq_pair_if_true
  pub keys_are_ne : InterBelow s.keys_are_ne t.keys_are_ne

pub join_pairs-JoinLaws : JoinLaws join_pairs PairsBelow
unfolding join_pairs
join_pairs-JoinLaws =
    pullback-JoinLaws
      (pair-JoinLaws
        (pair-JoinLaws
          (pair-JoinLaws (pair-JoinLaws (join_inter-JoinLaws) (join_or_insert-JoinLaws))
            (join_or_insert-JoinLaws))
          (join_or_insert-JoinLaws))
        (join_inter-JoinLaws))
      (λ s. ((((s.eq_locals, s.cast_origin), s.ne_pair_if_true), s.eq_pair_if_true), s.keys_are_ne))
      (λ s t h.
        ((((h.eq_locals, h.cast_origin), h.ne_pair_if_true), h.eq_pair_if_true), h.keys_are_ne))
      (λ s t h. record {
        eq_locals = h.0.0.0.0;
        cast_origin = h.0.0.0.1;
        ne_pair_if_true = h.0.0.1;
        eq_pair_if_true = h.0.1;
        keys_are_ne = h.1;
      })
      (λ s o. refl) (λ s o. refl)
