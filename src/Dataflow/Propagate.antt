-- ===== src/Dataflow/Propagate.antt =====
-- What one pass over the successors of a block does to the worklist (dataflow.rs).
use san.Base.{
  ℕ, zero, suc, List, [], ◌∷◌, ◌++◌, true, false, Option, none, some, ◌≡◌, ◌≢◌, ◌⊎◌, inl, inr, refl,
  sym, ap, subst, ◌∙◌, subst₂, In, head, tail, get_elem?, set, length, length-set,
  get_elem?-set_self, get_elem?-set_ne, arith, Bool-cases, nat_eq, ◌==◌, nat_beq_iff, ◌<◌,
}
use san.Base.Sets.{contains, insert, contains-insert}
use san.Join.Laws.{JoinLaws}
use san.Dataflow.{Analysis, Work, merge_state, visit, state_at, cell_at}

pub In-append_left {ℓ} :
    {A : Type ℓ} {x : A} {xs : List A} (ys : List A) → In x xs → In x (xs ++ ys)
In-append_left ys (head q) = head q
In-append_left ys (tail m) = tail (In-append_left ys m)

pub In-append_last {ℓ} : {A : Type ℓ} (x : A) (xs : List A) → In x (xs ++ x ∷ [])
In-append_last x [] = head refl
In-append_last x (y ∷ xs) = tail (In-append_last x xs)

pub In-append_cases {ℓ} :
    {A : Type ℓ} {x y : A} (xs : List A) → In x (xs ++ y ∷ []) → In x xs ⊎ (x ≡ y)
In-append_cases [] (head q) = inr q
In-append_cases [] (tail m) = elim m [ ]
In-append_cases (z ∷ xs) (head q) = inl (head q)
In-append_cases (z ∷ xs) (tail m) = elim (In-append_cases xs m) [
  | inl n ↦ inl (tail n)
  | inr q ↦ inr q
]

pub lt_of_get_elem? {ℓ} :
    {A : Type ℓ} (xs : List A) (i : ℕ) {x : A} → get_elem? xs i ≡ some x → i < length xs
lt_of_get_elem? [] i h = absurd (ground arith)
lt_of_get_elem? (y ∷ xs) zero h = omega arith
lt_of_get_elem? (y ∷ xs) (suc i) h = omega (arith, lt_of_get_elem? xs i h)

set_present {ℓ} :
    {A : Type ℓ} (xs : List A) (i : ℕ) (v : A) {x : A}
    → get_elem? xs i ≡ some x
    → get_elem? (set xs i v) i ≡ some v
set_present xs i v h = get_elem?-set_self xs i v (lt_of_get_elem? xs i h)

module _ {S : Type 0} (a : Analysis S) {Below : S → S → Type 0} (laws : JoinLaws a.join Below) where
  -- `p` claims all that `q` claims; a block with no state claims everything.
  abbrev pub CellBelow : Option S → Option S → Type 0
  CellBelow none q = Unit
  CellBelow (some x) none = ⊥
  CellBelow (some x) (some y) = Below x y

  pub CellBelow-refl : (p : Option S) → CellBelow p p
  CellBelow-refl none = tt
  CellBelow-refl (some x) = laws.below_refl x

  pub CellBelow-trans : (p q r : Option S) → CellBelow p q → CellBelow q r → CellBelow p r
  CellBelow-trans none q r h k = tt
  CellBelow-trans (some x) none r h k = absurd h
  CellBelow-trans (some x) (some y) none h k = absurd k
  CellBelow-trans (some x) (some y) (some z) h k = laws.below_trans x y z h k

  merge_state_grows : (cell : Option S) (e : S) → CellBelow cell (merge_state a cell e).0
  unfolding merge_state
  merge_state_grows none e = tt
  merge_state_grows (some x) e = elim (Bool-cases (a.join x e).1) [
    | inl y ↦ rw y (laws.left x e)
    | inr n ↦ rw n (laws.below_refl x)
  ]

  merge_state_covers : (cell : Option S) (e : S) → CellBelow (some e) (merge_state a cell e).0
  unfolding merge_state
  merge_state_covers none e = laws.below_refl e
  merge_state_covers (some x) e = elim (Bool-cases (a.join x e).1) [
    | inl y ↦ rw y (laws.right x e)
    | inr n ↦ rw n (laws.settled x e n)
  ]

module _ {S : Type 0} (a : Analysis S) where
  merge_state_idle :
      (cell : Option S) (e : S) → (merge_state a cell e).1 ≡ false → (merge_state a cell e).0 ≡ cell
  unfolding merge_state
  merge_state_idle none e h = absurd (ground arith)
  merge_state_idle (some x) e h = elim (Bool-cases (a.join x e).1) [
    | inl y ↦ absurd (ground arith)
    | inr n ↦ rw n refl
  ]

-- The three ways in which `visit` ends.
module _ {S : Type 0} (a : Analysis S) (w : Work S) (t : ℕ) (e : S) (cell : Option S) where
  abbrev pub with_state : Work S
  with_state = record w { entry_states = set w.entry_states t (merge_state a cell e).0 }

  abbrev pub with_queued : Work S
  with_queued = record {
    entry_states = set w.entry_states t (merge_state a cell e).0;
    queue = w.queue ++ t ∷ [];
    queued = insert w.queued t;
  }

  pub data Visited : Work S → Type 0 where
    same : (merge_state a cell e).1 ≡ false → Visited w
    known : (merge_state a cell e).1 ≡ true → contains w.queued t ≡ true → Visited with_state
    fresh : (merge_state a cell e).1 ≡ true → contains w.queued t ≡ false → Visited with_queued

  pub visit-Visited : Visited (visit a t e cell w)
  unfolding visit
  visit-Visited = elim (Bool-cases (merge_state a cell e).1) [
    | inr n ↦ rw n (same n)
    | inl y ↦ elim (Bool-cases (contains w.queued t)) [
      | inl k ↦ rw (y, k) (known y k)
      | inr k ↦ rw (y, k) (fresh y k)
    ]
  ]

abbrev pub QueuedIn : {S : Type 0} → Work S → Type 0
QueuedIn v = (b : ℕ) → contains v.queued b ≡ true → In b v.queue

module _ {S : Type 0} (a : Analysis S) {w : Work S} {t : ℕ} {e : S} {cell : Option S} where
  pub Visited-queue : {v : Work S} → Visited a w t e cell v → (b : ℕ) → In b w.queue → In b v.queue
  Visited-queue (same n) b m = m
  Visited-queue (known y k) b m = m
  Visited-queue (fresh y k) b m = In-append_left (t ∷ []) m

  pub Visited-QueuedIn : {v : Work S} → Visited a w t e cell v → QueuedIn w → QueuedIn v
  Visited-QueuedIn (same n) h b m = h b m
  Visited-QueuedIn (known y k) h b m = h b m
  Visited-QueuedIn (fresh y k) h b m = elim (Bool-cases (t == b)) [
    | inl q ↦
        subst (λ z. In z (w.queue ++ t ∷ [])) ((nat_beq_iff t b).0 q) (In-append_last t w.queue)
    | inr q ↦ In-append_left (t ∷ []) (h b (ground (arith, contains-insert w.queued t b)))
  ]

  pub Visited-length :
      {v : Work S} → Visited a w t e cell v → length v.entry_states ≡ length w.entry_states
  Visited-length (same n) = refl
  Visited-length (known y k) = length-set w.entry_states t (merge_state a cell e).0
  Visited-length (fresh y k) = length-set w.entry_states t (merge_state a cell e).0

  pub Visited-ne :
      {v : Work S}
      → Visited a w t e cell v
      → (b : ℕ) → t ≢ b
      → get_elem? v.entry_states b ≡ get_elem? w.entry_states b
  Visited-ne (same n) b h = refl
  Visited-ne (known y k) b h = get_elem?-set_ne w.entry_states t b (merge_state a cell e).0 h
  Visited-ne (fresh y k) b h = get_elem?-set_ne w.entry_states t b (merge_state a cell e).0 h

  module _ (at : get_elem? w.entry_states t ≡ some cell) where
    pub Visited-self :
        {v : Work S}
        → Visited a w t e cell v
        → get_elem? v.entry_states t ≡ some (merge_state a cell e).0
    Visited-self (same n) = at ∙ ap some (sym (merge_state_idle a cell e n))
    Visited-self (known y k) = set_present w.entry_states t (merge_state a cell e).0 at
    Visited-self (fresh y k) = set_present w.entry_states t (merge_state a cell e).0 at

    -- A block whose state changed is on the worklist.
    pub Visited-stays :
        {v : Work S}
        → Visited a w t e cell v
        → QueuedIn w
        → (b : ℕ) → In b v.queue ⊎ (state_at v.entry_states b ≡ state_at w.entry_states b)
    Visited-stays (same n) h b = inr refl
    Visited-stays (known y k) h b = elim (Bool-cases (t == b)) [
      | inl q ↦ inl (subst (λ z. In z w.queue) ((nat_beq_iff t b).0 q) (h t k))
      | inr q ↦ inr (ap cell_at (Visited-ne (known y k) b (λ p. ground (arith, nat_beq_iff t b))))
    ]
    Visited-stays (fresh y k) h b = elim (Bool-cases (t == b)) [
      | inl q ↦
          inl (
            subst (λ z. In z (w.queue ++ t ∷ [])) ((nat_beq_iff t b).0 q)
              (In-append_last t w.queue))
      | inr q ↦ inr (ap cell_at (Visited-ne (fresh y k) b (λ p. ground (arith, nat_beq_iff t b))))
    ]

    pub Visited-grows :
        {v : Work S} {Below : S → S → Type 0} (laws : JoinLaws a.join Below)
        → Visited a w t e cell v
        → (b : ℕ) → CellBelow a laws (state_at w.entry_states b) (state_at v.entry_states b)
    Visited-grows {v} laws h b = elim (Bool-cases (t == b)) [
      | inl q ↦
          subst (λ z. CellBelow a laws (state_at w.entry_states z) (state_at v.entry_states z))
            ((nat_beq_iff t b).0 q)
            (subst₂ (CellBelow a laws) (sym (ap cell_at at)) (sym (ap cell_at (Visited-self h)))
              (merge_state_grows a laws cell e))
      | inr q ↦
          subst (CellBelow a laws (state_at w.entry_states b))
            (sym (ap cell_at (Visited-ne h b (λ p. ground (arith, nat_beq_iff t b)))))
            (CellBelow-refl a laws (state_at w.entry_states b))
    ]

    pub Visited-covers :
        {v : Work S} {Below : S → S → Type 0} (laws : JoinLaws a.join Below)
        → Visited a w t e cell v
        → CellBelow a laws (some e) (state_at v.entry_states t)
    Visited-covers laws h =
        subst (CellBelow a laws (some e)) (sym (ap cell_at (Visited-self h)))
          (merge_state_covers a laws cell e)
