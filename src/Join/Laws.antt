-- ===== src/Join/Laws.antt =====
-- What the joins promise to the fixpoint engine.
use san.Base.{ℕ, ◌≤◌, ◌<◌, ◌≡◌, Bool, true, false, ◌||◌, arith}

-- `Below s t`: whatever holds by `t` holds by `s`.
pub record JoinLaws {D : Type 0} (join : D → D → D × Bool) (Below : D → D → Type 0) : Type 0 where
  pub below_refl : (s : D) → Below s s
  pub below_trans : (s t u : D) → Below s t → Below t u → Below s u
  pub left : (s o : D) → Below s (join s o).0
  pub right : (s o : D) → Below o (join s o).0
  pub settled : (s o : D) → (join s o).1 ≡ false → Below o s

-- Over a finite universe, `changed` means that a height falls.
pub record Descends {D : Type 0} (join : D → D → D × Bool) (Fits : D → Type 0) (height : D → ℕ)
    : Type 0 where
  pub keeps : (s o : D) → Fits s → Fits o → Fits (join s o).0
  pub falls : (s o : D) → Fits s → Fits o → (join s o).1 ≡ true → height (join s o).0 < height s
  pub stays : (s o : D) → Fits s → Fits o → (join s o).1 ≡ false → height (join s o).0 ≤ height s

module _ {A B : Type 0} where
  -- Two fields are joined one by one.
  abbrev pub join_pair : (A → A → A × Bool) → (B → B → B × Bool) → A × B → A × B → (A × B) × Bool
  join_pair f g s o = (((f s.0 o.0).0, (g s.1 o.1).0), (f s.0 o.0).1 || (g s.1 o.1).1)

  abbrev pub BelowPair : (A → A → Type 0) → (B → B → Type 0) → A × B → A × B → Type 0
  BelowPair R S s t = R s.0 t.0 × S s.1 t.1

  module _ {f : A → A → A × Bool} {g : B → B → B × Bool} {R : A → A → Type 0}
      {S : B → B → Type 0} where
    pub pair-JoinLaws : JoinLaws f R → JoinLaws g S → JoinLaws (join_pair f g) (BelowPair R S)
    pair-JoinLaws p q = record {
      below_refl = λ s. (p.below_refl s.0, q.below_refl s.1);
      below_trans =
          λ s t u h k. (p.below_trans s.0 t.0 u.0 h.0 k.0, q.below_trans s.1 t.1 u.1 h.1 k.1);
      left = λ s o. (p.left s.0 o.0, q.left s.1 o.1);
      right = λ s o. (p.right s.0 o.0, q.right s.1 o.1);
      settled = λ s o h. (p.settled s.0 o.0 (ground arith), q.settled s.1 o.1 (ground arith));
    }

-- A record is joined through the tuple of its fields.
module _ {D E : Type 0} {f : D → D → D × Bool} {g : E → E → E × Bool} {Below : D → D → Type 0}
    {R : E → E → Type 0} (laws : JoinLaws g R) (fields : D → E)
    (to : (s t : D) → Below s t → R (fields s) (fields t))
    (from : (s t : D) → R (fields s) (fields t) → Below s t)
    (same : (s o : D) → fields (f s o).0 ≡ (g (fields s) (fields o)).0)
    (same_flag : (s o : D) → (f s o).1 ≡ (g (fields s) (fields o)).1) where
  pub pullback-JoinLaws : JoinLaws f Below
  pullback-JoinLaws = record {
    below_refl = λ s. from s s (laws.below_refl (fields s));
    below_trans = λ s t u h k.
        from s u (laws.below_trans (fields s) (fields t) (fields u) (to s t h) (to t u k));
    left = λ s o. from s (f s o).0 (rw (same s o) (laws.left (fields s) (fields o)));
    right = λ s o. from o (f s o).0 (rw (same s o) (laws.right (fields s) (fields o)));
    settled = λ s o h. from o s (laws.settled (fields s) (fields o) (rw (same_flag s o) at h));
  }
