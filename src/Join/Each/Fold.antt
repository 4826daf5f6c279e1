-- ===== src/Join/Each/Fold.antt =====
-- The loop over the entries of `other`, for any step that adds one of them.
use san.Base.{List, [], ◌∷◌, ◌≡◌, Bool, false, arith, In, head, tail, subst, sym}
use san.Join.{join_each}

pub record StepLaws {S E : Type 0} (step : S → E → S × Bool) (Below : S → S → Type 0)
    (Has : E → S → Type 0) : Type 0 where
  pub refl_below : (s : S) → Below s s
  pub trans_below : (s t u : S) → Below s t → Below t u → Below s u
  pub up : (x : E) (s t : S) → Has x s → Below s t → Has x t
  pub grows : (s : S) (x : E) → Below s (step s x).0
  pub has : (s : S) (x : E) → Has x (step s x).0
  pub idle : (s : S) (x : E) → (step s x).1 ≡ false → Has x s × Below (step s x).0 s

module _ {S E : Type 0} {step : S → E → S × Bool} {Below : S → S → Type 0} {Has : E → S → Type 0}
    (laws : StepLaws step Below Has) where
  open laws use {refl_below, trans_below, up, grows, has, idle}

  pub each-left : (s : S) (o : List E) → Below s (join_each step s o).0
  unfolding join_each
  each-left s [] = refl_below s
  each-left s (x ∷ o) = trans_below s (step s x).0 _ (grows s x) (each-left (step s x).0 o)

  pub each-right : (s : S) (o : List E) {x : E} → In x o → Has x (join_each step s o).0
  unfolding join_each
  each-right s [] m = elim m [ ]
  each-right s (y ∷ o) {x} (head q) =
      subst (λ z. Has z (join_each step (step s y).0 o).0) (sym q)
        (up y (step s y).0 _ (has s y) (each-left (step s y).0 o))
  each-right s (y ∷ o) (tail m) = each-right (step s y).0 o m

  pub each-settled :
      (s : S) (o : List E) {x : E} → (join_each step s o).1 ≡ false → In x o → Has x s
  unfolding join_each
  each-settled s [] h m = elim m [ ]
  each-settled s (y ∷ o) {x} h (head q) = subst (λ z. Has z s) (sym q) (idle s y (ground arith)).0
  each-settled s (y ∷ o) {x} h (tail m) =
      up x (step s y).0 s (each-settled (step s y).0 o (ground arith) m) (idle s y (ground arith)).1
