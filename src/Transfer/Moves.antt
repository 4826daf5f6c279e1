-- ===== src/Transfer/Moves.antt =====
-- An assignment of a local to a local: the facts that a move takes along and a copy shares
-- (`apply_statement` of crates/san/src/analysis/transfer.rs).
use san.Base.{List, Bool, true, false, Option, none, some, if◌then◌else◌, nat_eq}
use san.Base.Sets.{contains, insert, remove}
use san.Base.Maps.{Map, lookup, put, erase}
use san.State.Locals.{Local}
use san.State.{BlockState}
use san.State.Inits.{InitsDomain}
use san.State.Ranges.{RangesDomain}
use san.State.Taints.{TaintsDomain}
use san.State.Ownership.{is_empty}
use san.Mir.{copy, move, Rvalue, use_of}
use san.Edge.{plain_local}

-- `dst = src`, for one field: where `src` has an entry it is shared or, by a move, taken along.
module _ (is_move : Bool) (dst src : Local) where
  -- `propagate_set!`
  unfoldable pub propagate_set : List Local → List Local
  propagate_set xs =
      if contains xs src then if is_move then remove (insert xs dst) src else insert xs dst else xs

  -- `propagate_map_u64!`, and the same for `cast_origin` and `array_components`
  unfoldable pub propagate_map : {V : Type 0} → Map Local V → Map Local V
  propagate_map m = elim (lookup m src) [
    | none ↦ m
    | some v ↦ if is_move then erase (put m dst v) src else put m dst v
  ]

  -- the same, where an untracked source leaves `dst` untracked
  unfoldable pub propagate_or_clear : {V : Type 0} → Map Local V → Map Local V
  propagate_or_clear m = elim (lookup m src) [
    | none ↦ erase m dst
    | some v ↦ if is_move then erase (put m dst v) src else put m dst v
  ]

  unfoldable pub propagate_ranges : RangesDomain → RangesDomain
  unfolding propagate_set propagate_map
  propagate_ranges s = record s {
    nonzero = propagate_set s.nonzero;
    finite = propagate_set s.finite;
    const_upper = propagate_map s.const_upper;
    const_lower = propagate_map s.const_lower;
  }

  unfoldable pub propagate_inits : InitsDomain → InitsDomain
  unfolding propagate_or_clear
  propagate_inits s = record s {
    active_variant = propagate_or_clear s.active_variant;
    mu_raw_ptr = propagate_or_clear s.mu_raw_ptr;
    mu_field_inits = propagate_or_clear s.mu_field_inits;
  }

  unfoldable pub propagate_taints : TaintsDomain → TaintsDomain
  unfolding propagate_set
  propagate_taints s = record s {
    fd_origin = propagate_set s.fd_origin;
    fd_consumed = propagate_set s.fd_consumed;
    mul_overflow = propagate_set s.mul_overflow;
    layout_overflow = propagate_set s.layout_overflow;
  }

  -- The facts that travel with a plain move or copy.
  unfoldable pub propagate_facts : BlockState → BlockState
  unfolding propagate_ranges propagate_inits propagate_taints propagate_set propagate_map
  propagate_facts s = record s {
    capacity_domain = record s.capacity_domain {
      has_spare = propagate_set s.capacity_domain.has_spare;
      is_full = propagate_set s.capacity_domain.is_full;
    };
    ranges_domain = propagate_ranges s.ranges_domain;
    taints_domain = propagate_taints s.taints_domain;
    inits_domain = propagate_inits s.inits_domain;
    pairs_domain = record s.pairs_domain { cast_origin = propagate_map s.pairs_domain.cast_origin };
    bounds_domain = record s.bounds_domain {
      array_components = propagate_map s.bounds_domain.array_components;
    };
  }

abbrev pub propagate_plain : Bool → Local → Option Local → BlockState → BlockState
propagate_plain is_move dst none s = s
propagate_plain is_move dst (some src) s = propagate_facts is_move dst src s

unfoldable pub propagate_use : BlockState → Local → Rvalue → BlockState
unfolding propagate_facts
propagate_use s dst (use_of (move src)) = propagate_plain true dst (plain_local src) s
propagate_use s dst (use_of (copy src)) = propagate_plain false dst (plain_local src) s
propagate_use s dst _ = s

module _ (dst src : Local) where
  -- `if let Some(v) = m.remove(&src) { m.insert(dst, v) } else { m.remove(&dst) }`
  unfoldable pub move_entry : {V : Type 0} → Map Local V → Map Local V
  move_entry m = elim (lookup m src) [
    | none ↦ erase (erase m src) dst
    | some v ↦ put (erase m src) dst v
  ]

  -- the same, where an empty set counts as untracked
  unfoldable pub move_set_entry : {A : Type 0} → Map Local (List A) → Map Local (List A)
  move_set_entry m = elim (lookup m src) [
    | none ↦ erase (erase m src) dst
    | some v ↦ if is_empty v then erase (erase m src) dst else put (erase m src) dst v
  ]

  -- `if set.remove(&src) { set.insert(dst) } else { set.remove(&dst) }`
  unfoldable pub move_member : List Local → List Local
  move_member xs =
      if contains xs src then insert (remove xs src) dst else remove (remove xs src) dst

  -- `if let Some(v) = m.get(&src).cloned() { m.insert(dst, v) } else { m.remove(&dst) }`
  unfoldable pub copy_entry : {V : Type 0} → Map Local V → Map Local V
  copy_entry m = elim (lookup m src) [ none ↦ erase m dst | some v ↦ put m dst v ]

  unfoldable pub copy_member : List Local → List Local
  copy_member xs = if contains xs src then insert xs dst else remove xs dst

  -- `Rvalue::Use(Operand::Move(src))`. The destination has no projection here.
  unfoldable pub move_local : BlockState → BlockState
  unfolding move_entry move_set_entry move_member
  move_local s = record s {
    tracking_domain = record s.tracking_domain {
      points_to = move_set_entry s.tracking_domain.points_to;
      local_proto = move_set_entry s.tracking_domain.local_proto;
    };
    inits_domain = record s.inits_domain {
      init = move_entry s.inits_domain.init;
      buf_written = move_member s.inits_domain.buf_written;
    };
    bounds_domain = record s.bounds_domain {
      lt_facts = move_entry s.bounds_domain.lt_facts;
      ge_facts = move_entry s.bounds_domain.ge_facts;
      le_facts = move_entry s.bounds_domain.le_facts;
      gt_facts = move_entry s.bounds_domain.gt_facts;
      bounded = move_member s.bounds_domain.bounded;
      bounded_or_eq = move_member s.bounds_domain.bounded_or_eq;
    };
    taints_domain = record s.taints_domain {
      const_ptr_cast = move_member s.taints_domain.const_ptr_cast;
    };
  }

  -- `Rvalue::Use(Operand::Copy(src))`
  unfoldable pub copy_local : BlockState → BlockState
  unfolding copy_entry copy_member
  copy_local s = record s {
    tracking_domain = record s.tracking_domain {
      points_to = copy_entry s.tracking_domain.points_to;
      local_proto = copy_entry s.tracking_domain.local_proto;
    };
    inits_domain = record s.inits_domain {
      init = copy_entry s.inits_domain.init;
      buf_written = copy_member s.inits_domain.buf_written;
    };
    bounds_domain = record s.bounds_domain {
      lt_facts = copy_entry s.bounds_domain.lt_facts;
      ge_facts = copy_entry s.bounds_domain.ge_facts;
      le_facts = copy_entry s.bounds_domain.le_facts;
      gt_facts = copy_entry s.bounds_domain.gt_facts;
      bounded = copy_member s.bounds_domain.bounded;
      bounded_or_eq = copy_member s.bounds_domain.bounded_or_eq;
    };
    taints_domain = record s.taints_domain {
      const_ptr_cast = copy_member s.taints_domain.const_ptr_cast;
    };
  }
