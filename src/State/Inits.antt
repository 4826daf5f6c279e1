-- ===== src/State/Inits.antt =====
-- Initialisation: `MaybeUninit` locals, written buffers, and the active fields of unions.
-- One domain of `BlockState` and its part of `join_with` (crates/san/src/analysis/state.rs).
use san.Base.{ℕ, List, Bool, ◌||◌, ◌≡◌, refl, nat_eq, pair_eq, list_eq}
use san.Base.Maps.{Map}
use san.Object.{InitState, init_eq, heap_eq, protocol_eq, join_init}
use san.Object.Lattice.{join_init-Semilattice}
use san.Join.{join_inter, join_values, join_meet, agree, common_fields}
use san.Join.Laws.{JoinLaws, pair-JoinLaws, pullback-JoinLaws}
use san.Join.Each.Values.{ValuesBelow, join_values-JoinLaws}
use san.Join.Meet.{
  InterBelow, MeetBelow, join_inter-JoinLaws, join_meet-JoinLaws, agree-MergeLaws,
  common_fields-MergeLaws,
}
use san.State.Locals.{Local}

pub record InitsDomain : Type 0 where
  pub init : Map Local InitState
  pub buf_written : List Local
  pub mu_raw_ptr : Map Local Local
  pub mu_field_inits : Map Local (List ℕ)
  pub active_variant : Map Local ℕ

unfoldable pub join_inits : InitsDomain → InitsDomain → InitsDomain × Bool
join_inits s o =
    let init = join_values join_init s.init o.init in
    let buf_written = join_inter s.buf_written o.buf_written in
    let mu_raw_ptr = join_meet agree s.mu_raw_ptr o.mu_raw_ptr in
    let mu_field_inits = join_meet common_fields s.mu_field_inits o.mu_field_inits in
    let active_variant = join_meet agree s.active_variant o.active_variant in
    (
      record {
        init = init.0;
        buf_written = buf_written.0;
        mu_raw_ptr = mu_raw_ptr.0;
        mu_field_inits = mu_field_inits.0;
        active_variant = active_variant.0;
      },
      init.1 || buf_written.1 || mu_raw_ptr.1 || mu_field_inits.1 || active_variant.1,
    )

-- `t` claims no more than `s`, field by field.
pub record InitsBelow (s t : InitsDomain) : Type 0 where
  pub init : ValuesBelow join_init s.init t.init
  pub buf_written : InterBelow s.buf_written t.buf_written
  pub mu_raw_ptr : MeetBelow ◌≡◌ s.mu_raw_ptr t.mu_raw_ptr
  pub mu_field_inits : MeetBelow InterBelow s.mu_field_inits t.mu_field_inits
  pub active_variant : MeetBelow ◌≡◌ s.active_variant t.active_variant

pub join_inits-JoinLaws : JoinLaws join_inits InitsBelow
unfolding join_inits
join_inits-JoinLaws =
    pullback-JoinLaws
      (pair-JoinLaws
        (pair-JoinLaws
          (pair-JoinLaws
            (pair-JoinLaws (join_values-JoinLaws join_init-Semilattice) (join_inter-JoinLaws))
            (join_meet-JoinLaws agree-MergeLaws))
          (join_meet-JoinLaws common_fields-MergeLaws))
        (join_meet-JoinLaws agree-MergeLaws))
      (λ s. ((((s.init, s.buf_written), s.mu_raw_ptr), s.mu_field_inits), s.active_variant))
      (λ s t h. ((((h.init, h.buf_written), h.mu_raw_ptr), h.mu_field_inits), h.active_variant))
      (λ s t h. record {
        init = h.0.0.0.0;
        buf_written = h.0.0.0.1;
        mu_raw_ptr = h.0.0.1;
        mu_field_inits = h.0.1;
        active_variant = h.1;
      })
      (λ s o. refl) (λ s o. refl)
