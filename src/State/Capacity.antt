-- ===== src/State/Capacity.antt =====
-- Capacity of collections: what `len` and `capacity` were called on, and what they prove.
-- One domain of `BlockState` and its part of `join_with` (crates/san/src/analysis/state.rs).
use san.Base.{List, Bool, ◌||◌, refl, nat_eq, pair_eq, list_eq}
use san.Base.Maps.{Map}
use san.Object.{init_eq, heap_eq, protocol_eq}
use san.Join.{join_inter, join_or_insert}
use san.Join.Laws.{JoinLaws, pair-JoinLaws, pullback-JoinLaws}
use san.Join.Each.Values.{KeysBelow, join_or_insert-JoinLaws}
use san.Join.Meet.{InterBelow, join_inter-JoinLaws}
use san.State.Locals.{Local}

pub record CapacityDomain : Type 0 where
  pub ref_base : Map Local Local
  pub len_of : Map Local Local
  pub cap_of : Map Local Local
  pub spare_if_true : Map Local Local
  pub spare_if_false : Map Local Local
  pub has_spare : List Local
  pub full_if_true : Map Local Local
  pub full_if_false : Map Local Local
  pub is_full : List Local

unfoldable pub join_capacity : CapacityDomain → CapacityDomain → CapacityDomain × Bool
join_capacity s o =
    let ref_base = join_or_insert s.ref_base o.ref_base in
    let len_of = join_or_insert s.len_of o.len_of in
    let cap_of = join_or_insert s.cap_of o.cap_of in
    let spare_if_true = join_or_insert s.spare_if_true o.spare_if_true in
    let spare_if_false = join_or_insert s.spare_if_false o.spare_if_false in
    let has_spare = join_inter s.has_spare o.has_spare in
    let full_if_true = join_or_insert s.full_if_true o.full_if_true in
    let full_if_false = join_or_insert s.full_if_false o.full_if_false in
    let is_full = join_inter s.is_full o.is_full in
    (
      record {
        ref_base = ref_base.0;
        len_of = len_of.0;
        cap_of = cap_of.0;
        spare_if_true = spare_if_true.0;
        spare_if_false = spare_if_false.0;
        has_spare = has_spare.0;
        full_if_true = full_if_true.0;
        full_if_false = full_if_false.0;
        is_full = is_full.0;
      },
      ref_base.1 || len_of.1 || cap_of.1 || spare_if_true.1 || spare_if_false.1 || has_spare.1
          || full_if_true.1 || full_if_false.1 || is_full.1,
    )

-- `t` claims no more than `s`, field by field.
pub record CapacityBelow (s t : CapacityDomain) : Type 0 where
  pub ref_base : KeysBelow s.ref_base t.ref_base
  pub len_of : KeysBelow s.len_of t.len_of
  pub cap_of : KeysBelow s.cap_of t.cap_of
  pub spare_if_true : KeysBelow s.spare_if_true t.spare_if_true
  pub spare_if_false : KeysBelow s.spare_if_false t.spare_if_false
  pub has_spare : InterBelow s.has_spare t.has_spare
  pub full_if_true : KeysBelow s.full_if_true t.full_if_true
  pub full_if_false : KeysBelow s.full_if_false t.full_if_false
  pub is_full : InterBelow s.is_full t.is_full

pub join_capacity-JoinLaws : JoinLaws join_capacity CapacityBelow
unfolding join_capacity
join_capacity-JoinLaws =
    pullback-JoinLaws
      (pair-JoinLaws
        (pair-JoinLaws
          (pair-JoinLaws
            (pair-JoinLaws
              (pair-JoinLaws
                (pair-JoinLaws
                  (pair-JoinLaws (pair-JoinLaws (join_or_insert-JoinLaws) (join_or_insert-JoinLaws))
                    (join_or_insert-JoinLaws))
                  (join_or_insert-JoinLaws))
                (join_or_insert-JoinLaws))
              (join_inter-JoinLaws))
            (join_or_insert-JoinLaws))
          (join_or_insert-JoinLaws))
        (join_inter-JoinLaws))
      (λ s. (
        (
          (
            (
              ((((s.ref_base, s.len_of), s.cap_of), s.spare_if_true), s.spare_if_false),
              s.has_spare,
            ),
            s.full_if_true,
          ),
          s.full_if_false,
        ),
        s.is_full,
      ))
      (λ s t h. (
        (
          (
            (
              ((((h.ref_base, h.len_of), h.cap_of), h.spare_if_true), h.spare_if_false),
              h.has_spare,
            ),
            h.full_if_true,
          ),
          h.full_if_false,
        ),
        h.is_full,
      ))
      (λ s t h. record {
        ref_base = h.0.0.0.0.0.0.0.0;
        len_of = h.0.0.0.0.0.0.0.1;
        cap_of = h.0.0.0.0.0.0.1;
        spare_if_true = h.0.0.0.0.0.1;
        spare_if_false = h.0.0.0.0.1;
        has_spare = h.0.0.0.1;
        full_if_true = h.0.0.1;
        full_if_false = h.0.1;
        is_full = h.1;
      })
      (λ s o. refl) (λ s o. refl)
