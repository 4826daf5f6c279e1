-- ===== src/State/Taints.antt =====
-- File descriptors, spawned threads, const casts and overflowing sizes.
-- One domain of `BlockState` and its part of `join_with` (crates/san/src/analysis/state.rs).
use san.Base.{List, Bool, ◌||◌, refl, nat_eq, pair_eq, list_eq}
use san.Base.Sets.{Subset}
use san.Object.{init_eq, heap_eq, protocol_eq}
use san.Join.{join_inter, join_union, join_flag}
use san.Join.Laws.{JoinLaws, pair-JoinLaws, pullback-JoinLaws}
use san.Join.Each.Sets.{join_union-JoinLaws}
use san.Join.Meet.{InterBelow, FlagBelow, join_inter-JoinLaws, join_flag-JoinLaws}
use san.State.Locals.{Local}

pub record TaintsDomain : Type 0 where
  pub fd_origin : List Local
  pub fd_consumed : List Local
  pub thread_spawned : Bool
  pub const_ptr_cast : List Local
  pub mul_overflow : List Local
  pub layout_overflow : List Local

unfoldable pub join_taints : TaintsDomain → TaintsDomain → TaintsDomain × Bool
join_taints s o =
    let fd_origin = join_inter s.fd_origin o.fd_origin in
    let fd_consumed = join_union s.fd_consumed o.fd_consumed in
    let thread_spawned = join_flag s.thread_spawned o.thread_spawned in
    let const_ptr_cast = join_union s.const_ptr_cast o.const_ptr_cast in
    let mul_overflow = join_union s.mul_overflow o.mul_overflow in
    let layout_overflow = join_union s.layout_overflow o.layout_overflow in
    (
      record {
        fd_origin = fd_origin.0;
        fd_consumed = fd_consumed.0;
        thread_spawned = thread_spawned.0;
        const_ptr_cast = const_ptr_cast.0;
        mul_overflow = mul_overflow.0;
        layout_overflow = layout_overflow.0;
      },
      fd_origin.1 || fd_consumed.1 || thread_spawned.1 || const_ptr_cast.1 || mul_overflow.1
          || layout_overflow.1,
    )

-- `t` claims no more than `s`, field by field.
pub record TaintsBelow (s t : TaintsDomain) : Type 0 where
  pub fd_origin : InterBelow s.fd_origin t.fd_origin
  pub fd_consumed : Subset s.fd_consumed t.fd_consumed
  pub thread_spawned : FlagBelow s.thread_spawned t.thread_spawned
  pub const_ptr_cast : Subset s.const_ptr_cast t.const_ptr_cast
  pub mul_overflow : Subset s.mul_overflow t.mul_overflow
  pub layout_overflow : Subset s.layout_overflow t.layout_overflow

pub join_taints-JoinLaws : JoinLaws join_taints TaintsBelow
unfolding join_taints
join_taints-JoinLaws =
    pullback-JoinLaws
      (pair-JoinLaws
        (pair-JoinLaws
          (pair-JoinLaws
            (pair-JoinLaws (pair-JoinLaws (join_inter-JoinLaws) (join_union-JoinLaws))
              (join_flag-JoinLaws))
            (join_union-JoinLaws))
          (join_union-JoinLaws))
        (join_union-JoinLaws))
      (λ s. (
        ((((s.fd_origin, s.fd_consumed), s.thread_spawned), s.const_ptr_cast), s.mul_overflow),
        s.layout_overflow,
      ))
      (λ s t h. (
        ((((h.fd_origin, h.fd_consumed), h.thread_spawned), h.const_ptr_cast), h.mul_overflow),
        h.layout_overflow,
      ))
      (λ s t h. record {
        fd_origin = h.0.0.0.0.0;
        fd_consumed = h.0.0.0.0.1;
        thread_spawned = h.0.0.0.1;
        const_ptr_cast = h.0.0.1;
        mul_overflow = h.0.1;
        layout_overflow = h.1;
      })
      (λ s o. refl) (λ s o. refl)
