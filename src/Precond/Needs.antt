-- ===== src/Precond/Needs.antt =====
-- What a call needs of the parameters of the body that it stands in
-- (crates/san/src/analysis/precond.rs).
use san.Base.{
  ℕ, suc, Bool, true, false, Option, none, some, ◌≡◌, ◌↔◌, ◌≤◌, inl, inr, refl, ap, sym, ◌∙◌,
  nat_eq, pair_eq, arith, Bool-cases, Option-cases, if◌then◌else◌,
}
use san.Base.Texts.{Text}
use san.State.{BlockState}
use san.State.Locals.{Local, DefId}
use san.State.Proven.{local_is_nonzero, local_is_ascii, deref_base}
use san.Mir.{Body}
use san.Facts.{first_arg_local, nth_arg_local}
use san.Flow.{BlockView}
use san.Precond.{
  param_index, is_index_precond, unguarded_param, both, index_is_safe, unguarded_index, DirectCall,
  direct_call,
}

-- What a block adds to a set of parameters.
abbrev pub added_param :
    (Text → Bool)
    → (BlockState → Local → Bool)
    → (DefId → Text)
    → Body
    → Option DirectCall
    → Option ℕ
added_param needs is_proven def_path_str body none = none
added_param needs is_proven def_path_str body (some c) =
    if needs (def_path_str c.callee)
    then unguarded_param (is_proven c.state) body (first_arg_local c.args)
    else none

abbrev pub proven_nonzero : BlockState → Local → Bool
proven_nonzero s = local_is_nonzero s.ranges_domain

abbrev pub proven_ascii : BlockState → Local → Bool
proven_ascii s = local_is_ascii s.ranges_domain

abbrev pub added_index : (DefId → Text) → Body → Option DirectCall → Option (ℕ × ℕ)
added_index def_path_str body none = none
added_index def_path_str body (some c) =
    if is_index_precond (def_path_str c.callee)
    then unguarded_index c.state body (nth_arg_local c.args 0) (nth_arg_local c.args 1)
    else none

-- A local is a parameter, counted from 0.
pub record IsParam (body : Body) (l : Local) (i : ℕ) : Type 0 where
  pub named : l ≡ suc i
  pub bounded : l ≤ body.arg_count

pub param_index-IsParam :
    (body : Body) (l : Local) (i : ℕ) → (param_index body l ≡ some i) ↔ IsParam body l i
unfolding param_index
param_index-IsParam body l i = (
  λ h. record { named = ground arith; bounded = ground arith },
  λ p. let n = p.named in let b = p.bounded in ground arith,
)

-- A block calls a function that needs the fact of its first argument, which is parameter `i`, and
-- the fact is not proven before the call.
pub record NeedsOf (needs : Text → Bool) (is_proven : BlockState → Local → Bool)
    (def_path_str : DefId → Text) (body : Body) (b : BlockView) (i : ℕ) : Type 0 where
  pub c : DirectCall
  pub called : direct_call b ≡ some c
  pub needed : needs (def_path_str c.callee) ≡ true
  pub l : Local
  pub given : first_arg_local c.args ≡ some l
  pub unproven : is_proven c.state l ≡ false
  pub param : IsParam body l i

-- A block calls a function that indexes a collection, parameter `rp` or a view of it, with
-- parameter `ip`, and the index is not known to be in bounds.
pub record NeedsBound (def_path_str : DefId → Text) (body : Body) (b : BlockView) (ip rp : ℕ)
    : Type 0 where
  pub c : DirectCall
  pub called : direct_call b ≡ some c
  pub needed : is_index_precond (def_path_str c.callee) ≡ true
  pub receiver : Local
  pub given_receiver : nth_arg_local c.args 0 ≡ some receiver
  pub idx : Local
  pub given_idx : nth_arg_local c.args 1 ≡ some idx
  pub unproven : index_is_safe c.state (deref_base c.state.capacity_domain receiver) idx ≡ false
  pub idx_param : IsParam body idx ip
  pub receiver_param : IsParam body (deref_base c.state.capacity_domain receiver) rp

unguarded_iff :
    (is_proven : Local → Bool) (body : Body) (o : Option Local) (i : ℕ)
    → unguarded_param is_proven body o ≡ some i
    → (l : Local) × (o ≡ some l) × (is_proven l ≡ false) × IsParam body l i
unfolding unguarded_param
unguarded_iff is_proven body none i h = absurd (ground arith)
unguarded_iff is_proven body (some l) i h = elim (Bool-cases (is_proven l)) [
  | inl y ↦ absurd (ground arith)
  | inr n ↦ (l, refl, n, (param_index-IsParam body l i).0 (ground arith))
]

both-some : (a b : Option ℕ) (x y : ℕ) → both a b ≡ some (x, y) → (a ≡ some x) × (b ≡ some y)
both-some none b x y h = absurd (ground arith)
both-some (some u) none x y h = absurd (ground arith)
both-some (some u) (some v) x y h = (ground arith, ground arith)

-- Both arguments are locals, and both are parameters.
unguarded_index_iff :
    (s : BlockState) (body : Body) (ol oi : Option Local) (ip rp : ℕ)
    → unguarded_index s body ol oi ≡ some (ip, rp)
    → (l : Local) × (ol ≡ some l)
      × ((idx : Local) × (oi ≡ some idx)
          × (index_is_safe s (deref_base s.capacity_domain l) idx ≡ false)
          × IsParam body idx ip
          × IsParam body (deref_base s.capacity_domain l) rp)
unfolding unguarded_index
unguarded_index_iff s body none oi ip rp h = absurd (ground arith)
unguarded_index_iff s body (some l) none ip rp h = absurd (ground arith)
unguarded_index_iff s body (some l) (some idx) ip rp h =
    let recv = deref_base s.capacity_domain l in
    elim (Bool-cases (index_is_safe s recv idx)) [
      | inl y ↦ absurd (ground arith)
      | inr n ↦
          let (p, q) =
            both-some (param_index body idx) (param_index body recv) ip rp (ground arith) in
          (
            l,
            refl,
            (
              idx,
              refl,
              n,
              (param_index-IsParam body idx ip).0 p,
              (param_index-IsParam body recv rp).0 q,
            ),
          )
    ]

module _ (def_path_str : DefId → Text) (body : Body) (b : BlockView) where
  module _ (needs : Text → Bool) (is_proven : BlockState → Local → Bool) (i : ℕ) where
    pub added_param-NeedsOf :
        added_param needs is_proven def_path_str body (direct_call b) ≡ some i
        → NeedsOf needs is_proven def_path_str body b i
    added_param-NeedsOf h = elim (Option-cases (direct_call b)) [
      | inl n ↦ absurd (ground arith)
      | inr (c, q) ↦
          let h' : added_param needs is_proven def_path_str body (some c) ≡ some i =
            ap (added_param needs is_proven def_path_str body) (sym q) ∙ h in
          elim (Bool-cases (needs (def_path_str c.callee))) [
            | inl y ↦
                let (l, given, unproven, param) =
                  unguarded_iff (is_proven c.state) body (first_arg_local c.args) i (rw y at h') in
                record {
                  c = c;
                  called = q;
                  needed = y;
                  l = l;
                  given = given;
                  unproven = unproven;
                  param = param;
                }
            | inr n ↦ absurd (ground arith)
          ]
    ]

    pub NeedsOf-added_param :
        NeedsOf needs is_proven def_path_str body b i
        → added_param needs is_proven def_path_str body (direct_call b) ≡ some i
    unfolding unguarded_param
    NeedsOf-added_param n =
        let p = (param_index-IsParam body n.l i).1 n.param in
        rw (n.called, n.needed, n.given, n.unproven) p

  module _ (ip rp : ℕ) where
    pub added_index-NeedsBound :
        added_index def_path_str body (direct_call b) ≡ some (ip, rp)
        → NeedsBound def_path_str body b ip rp
    added_index-NeedsBound h = elim (Option-cases (direct_call b)) [
      | inl n ↦ absurd (ground arith)
      | inr (c, q) ↦
          let h' : added_index def_path_str body (some c) ≡ some (ip, rp) =
            ap (added_index def_path_str body) (sym q) ∙ h in
          elim (Bool-cases (is_index_precond (def_path_str c.callee))) [
            | inl y ↦
                let (l, given, (idx, given_idx, unproven, idx_param, recv_param)) =
                  unguarded_index_iff c.state body (nth_arg_local c.args 0) (nth_arg_local c.args 1)
                    ip rp (rw y at h') in
                record {
                  c = c;
                  called = q;
                  needed = y;
                  receiver = l;
                  given_receiver = given;
                  idx = idx;
                  given_idx = given_idx;
                  unproven = unproven;
                  idx_param = idx_param;
                  receiver_param = recv_param;
                }
            | inr n ↦ absurd (ground arith)
          ]
    ]

    pub NeedsBound-added_index :
        NeedsBound def_path_str body b ip rp
        → added_index def_path_str body (direct_call b) ≡ some (ip, rp)
    unfolding unguarded_index
    NeedsBound-added_index n =
        let p = (param_index-IsParam body n.idx ip).1 n.idx_param in
        let q = (param_index-IsParam body _ rp).1 n.receiver_param in
        rw (n.called, n.needed, n.given_receiver, n.given_idx, n.unproven, p, q) refl
