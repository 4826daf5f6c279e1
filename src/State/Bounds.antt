-- ===== src/State/Bounds.antt =====
-- Index bounds: facts of comparison results, and the locals that they prove bounded.
-- One domain of `BlockState` and its part of `join_with` (crates/san/src/analysis/state.rs).
use san.Base.{List, Bool, ◌||◌, refl, nat_eq, pair_eq, list_eq}
use san.Base.Maps.{Map}
use san.Object.{init_eq, heap_eq, protocol_eq}
use san.Join.{join_inter, join_or_insert}
use san.Join.Laws.{JoinLaws, pair-JoinLaws, pullback-JoinLaws}
use san.Join.Each.Values.{KeysBelow, join_or_insert-JoinLaws}
use san.Join.Meet.{InterBelow, join_inter-JoinLaws}
use san.State.Locals.{Local}

pub record BoundsDomain : Type 0 where
  pub lt_facts : Map Local Local
  pub ge_facts : Map Local Local
  pub le_facts : Map Local Local
  pub gt_facts : Map Local Local
  pub bounded : List Local
  pub bounded_or_eq : List Local
  pub array_components : Map Local (List Local)
  pub lt_for : Map Local (Local × Local)
  pub le_for : Map Local (Local × Local)
  pub index_bounded_for : List (Local × Local)
  pub index_bounded_or_eq_for : List (Local × Local)

unfoldable pub join_bounds : BoundsDomain → BoundsDomain → BoundsDomain × Bool
join_bounds s o =
    let lt_facts = join_or_insert s.lt_facts o.lt_facts in
    let ge_facts = join_or_insert s.ge_facts o.ge_facts in
    let le_facts = join_or_insert s.le_facts o.le_facts in
    let gt_facts = join_or_insert s.gt_facts o.gt_facts in
    let bounded = join_inter s.bounded o.bounded in
    let bounded_or_eq = join_inter s.bounded_or_eq o.bounded_or_eq in
    let array_components = join_or_insert s.array_components o.array_components in
    let lt_for = join_or_insert s.lt_for o.lt_for in
    let le_for = join_or_insert s.le_for o.le_for in
    let index_bounded_for = join_inter s.index_bounded_for o.index_bounded_for in
    let index_bounded_or_eq_for = join_inter s.index_bounded_or_eq_for o.index_bounded_or_eq_for in
    (
      record {
        lt_facts = lt_facts.0;
        ge_facts = ge_facts.0;
        le_facts = le_facts.0;
        gt_facts = gt_facts.0;
        bounded = bounded.0;
        bounded_or_eq = bounded_or_eq.0;
        array_components = array_components.0;
        lt_for = lt_for.0;
        le_for = le_for.0;
        index_bounded_for = index_bounded_for.0;
        index_bounded_or_eq_for = index_bounded_or_eq_for.0;
      },
      lt_facts.1 || ge_facts.1 || le_facts.1 || gt_facts.1 || bounded.1 || bounded_or_eq.1
          || array_components.1 || lt_for.1 || le_for.1 || index_bounded_for.1
          || index_bounded_or_eq_for.1,
    )

-- `t` claims no more than `s`, field by field.
pub record BoundsBelow (s t : BoundsDomain) : Type 0 where
  pub lt_facts : KeysBelow s.lt_facts t.lt_facts
  pub ge_facts : KeysBelow s.ge_facts t.ge_facts
  pub le_facts : KeysBelow s.le_facts t.le_facts
  pub gt_facts : KeysBelow s.gt_facts t.gt_facts
  pub bounded : InterBelow s.bounded t.bounded
  pub bounded_or_eq : InterBelow s.bounded_or_eq t.bounded_or_eq
  pub array_components : KeysBelow s.array_components t.array_components
  pub lt_for : KeysBelow s.lt_for t.lt_for
  pub le_for : KeysBelow s.le_for t.le_for
  pub index_bounded_for : InterBelow s.index_bounded_for t.index_bounded_for
  pub index_bounded_or_eq_for : InterBelow s.index_bounded_or_eq_for t.index_bounded_or_eq_for

pub join_bounds-JoinLaws : JoinLaws join_bounds BoundsBelow
unfolding join_bounds
join_bounds-JoinLaws =
    pullback-JoinLaws
      (pair-JoinLaws
        (pair-JoinLaws
          (pair-JoinLaws
            (pair-JoinLaws
              (pair-JoinLaws
                (pair-JoinLaws
                  (pair-JoinLaws
                    (pair-JoinLaws
                      (pair-JoinLaws
                        (pair-JoinLaws (join_or_insert-JoinLaws) (join_or_insert-JoinLaws))
                        (join_or_insert-JoinLaws))
                      (join_or_insert-JoinLaws))
                    (join_inter-JoinLaws))
                  (join_inter-JoinLaws))
                (join_or_insert-JoinLaws))
              (join_or_insert-JoinLaws))
            (join_or_insert-JoinLaws))
          (join_inter-JoinLaws))
        (join_inter-JoinLaws))
      (λ s. (
        (
          (
            (
              (
                (
                  ((((s.lt_facts, s.ge_facts), s.le_facts), s.gt_facts), s.bounded),
                  s.bounded_or_eq,
                ),
                s.array_components,
              ),
              s.lt_for,
            ),
            s.le_for,
          ),
          s.index_bounded_for,
        ),
        s.index_bounded_or_eq_for,
      ))
      (λ s t h. (
        (
          (
            (
              (
                (
                  ((((h.lt_facts, h.ge_facts), h.le_facts), h.gt_facts), h.bounded),
                  h.bounded_or_eq,
                ),
                h.array_components,
              ),
              h.lt_for,
            ),
            h.le_for,
          ),
          h.index_bounded_for,
        ),
        h.index_bounded_or_eq_for,
      ))
      (λ s t h. record {
        lt_facts = h.0.0.0.0.0.0.0.0.0.0;
        ge_facts = h.0.0.0.0.0.0.0.0.0.1;
        le_facts = h.0.0.0.0.0.0.0.0.1;
        gt_facts = h.0.0.0.0.0.0.0.1;
        bounded = h.0.0.0.0.0.0.1;
        bounded_or_eq = h.0.0.0.0.0.1;
        array_components = h.0.0.0.0.1;
        lt_for = h.0.0.0.1;
        le_for = h.0.0.1;
        index_bounded_for = h.0.1;
        index_bounded_or_eq_for = h.1;
      })
      (λ s o. refl) (λ s o. refl)
