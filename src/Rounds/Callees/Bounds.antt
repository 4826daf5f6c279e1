-- ===== src/Rounds/Callees/Bounds.antt =====
-- The functions that get a summary are few, and each of them is wanted
-- (`run_checks` of crates/san/src/lib.rs).
use san.Base.{
  ℕ, zero, suc, ◌+◌, List, [], ◌∷◌, ◌++◌, Bool, true, false, ◌||◌, Option, none, some, ◌≡◌, ◌⊎◌,
  ◌≤◌, inl, inr, refl, sym, ◌∙◌, subst, leb, nat_eq, ◌==◌, nat_beq_iff, length, length-append, In,
  In-append, In-left, In-right, head, tail, arith, Bool-cases,
}
use san.Base.Sets.{contains, insert, contains-insert}
use san.State.Locals.{DefId}
use san.State.Ownership.{is_empty}
use san.Mir.{Body, BasicBlockData}
use san.Flow.{direct_callee}
use san.Report.Laws.{Unique}
use san.Rounds.Callees.{
  max_external_fns, Walk, visit_callee, visit_blocks, visit_fns, walk, to_summarize,
}

In-append_one : {A : Type 0} {a : A} (xs : List A) (y : A) → In a (xs ++ y ∷ []) → In a xs ⊎ (a ≡ y)
In-append_one xs y m = elim (In-append xs (y ∷ []) m) [
  | inl k ↦ inl k
  | inr (head q) ↦ inr q
  | inr (tail n) ↦ elim n [ ]
]

contains-append_one :
    (xs : List DefId) (y x : DefId) → contains (xs ++ y ∷ []) x ≡ (contains xs x || y == x)
unfolding contains
contains-append_one [] y x = ground arith
contains-append_one (z ∷ xs) y x = ground (arith, contains-append_one xs y x)

-- A new element at the end.
Unique-append_one :
    (xs : List DefId) (y : DefId) → Unique xs → contains xs y ≡ false → Unique (xs ++ y ∷ [])
unfolding contains
Unique-append_one [] y u n = (refl, u)
Unique-append_one (x ∷ xs) y u n =
    let apart : contains (xs ++ y ∷ []) x ≡ false =
      ground (arith, u.0, contains-append_one xs y x, nat_beq_iff x y, nat_beq_iff y x) in
    (apart, Unique-append_one xs y u.1 (ground arith))

module _ (optimized_mir : DefId → Body) (is_summarizable : DefId → Bool)
    (local_fns : List DefId) where
  -- One of `ds` calls the function.
  pub record IsCalled (ds : List DefId) (callee : DefId) : Type 0 where
    pub caller : DefId
    pub block : BasicBlockData
    pub caller_in : In caller ds
    pub block_in : In block (optimized_mir caller).basic_blocks
    pub calls : direct_callee block.terminator ≡ some callee

  -- A function of the list is local, or a callee of the list that can be summarised.
  pub data IsWanted (ds : List DefId) (d : DefId) : Type 0 where
    local_fn : In d local_fns → IsWanted ds d
    external_fn : is_summarizable d ≡ true → IsCalled ds d → IsWanted ds d

  record IsWalk (w : Walk) : Type 0 where
    same : (d : DefId) → contains w.in_set d ≡ contains w.to_summarize d
    counted : length w.to_summarize ≡ length local_fns + w.ext_count
    few : w.ext_count ≤ max_external_fns
    wanted : (d : DefId) → In d w.to_summarize → IsWanted w.to_summarize d
    locals : (d : DefId) → In d local_fns → In d w.to_summarize
    next_in : (d : DefId) → In d w.next → In d w.to_summarize
    unique : Unique local_fns → Unique w.to_summarize

  IsWanted-append : (ds : List DefId) (e d : DefId) → IsWanted ds d → IsWanted (ds ++ e ∷ []) d
  IsWanted-append ds e d (local_fn m) = local_fn m
  IsWanted-append ds e d (external_fn s k) = external_fn s (record {
    caller = k.caller;
    block = k.block;
    caller_in = In-left ds (e ∷ []) k.caller_in;
    block_in = k.block_in;
    calls = k.calls;
  })

  -- A new callee of a function that is in the list.
  push-IsWalk :
      (w : Walk) (caller callee : DefId) (b : BasicBlockData)
      → IsWalk w
      → In caller w.to_summarize
      → In b (optimized_mir caller).basic_blocks
      → direct_callee b.terminator ≡ some callee
      → contains w.in_set callee ≡ false
      → leb max_external_fns w.ext_count ≡ false
      → is_summarizable callee ≡ true
      → IsWalk (record {
        in_set = insert w.in_set callee;
        to_summarize = w.to_summarize ++ callee ∷ [];
        next = w.next ++ callee ∷ [];
        ext_count = w.ext_count + 1;
      })
  push-IsWalk w caller callee b h m bm q new room ok = record {
    same = λ d. ground (
      arith,
      contains-insert w.in_set callee d,
      contains-append_one w.to_summarize callee d,
      h.same d,
    );
    counted = ground (arith, length-append w.to_summarize (callee ∷ []), h.counted);
    few = ground (arith, h.few);
    wanted = λ d k. elim (In-append_one w.to_summarize callee k) [
      | inl old ↦ IsWanted-append w.to_summarize callee d (h.wanted d old)
      | inr e ↦
          subst (λ x. IsWanted (w.to_summarize ++ callee ∷ []) x) (sym e)
            (external_fn ok (record {
              caller = caller;
              block = b;
              caller_in = In-left w.to_summarize (callee ∷ []) m;
              block_in = bm;
              calls = q;
            }))
    ];
    locals = λ d k. In-left w.to_summarize (callee ∷ []) (h.locals d k);
    next_in = λ d k. elim (In-append_one w.next callee k) [
      | inl old ↦ In-left w.to_summarize (callee ∷ []) (h.next_in d old)
      | inr e ↦
          subst (λ x. In x (w.to_summarize ++ callee ∷ [])) (sym e)
            (In-right w.to_summarize (callee ∷ []) (head refl))
    ];
    unique = λ u. Unique-append_one w.to_summarize callee (h.unique u) (sym (h.same callee) ∙ new);
  }

  -- The walk goes on, and loses nothing.
  record GoesOn (w v : Walk) : Type 0 where
    walks : IsWalk v
    keeps : (d : DefId) → In d w.to_summarize → In d v.to_summarize

  stays_put : (w : Walk) → IsWalk w → GoesOn w w
  stays_put w h = record { walks = h; keeps = λ d m. m }

  then_on : (w v u : Walk) → GoesOn w v → GoesOn v u → GoesOn w u
  then_on w v u f g = record { walks = g.walks; keeps = λ d m. g.keeps d (f.keeps d m) }

  visit_callee-GoesOn :
      (w : Walk) (caller : DefId) (b : BasicBlockData) (o : Option DefId)
      → IsWalk w
      → In caller w.to_summarize
      → In b (optimized_mir caller).basic_blocks
      → direct_callee b.terminator ≡ o
      → GoesOn w (visit_callee optimized_mir is_summarizable w o)
  unfolding visit_callee
  visit_callee-GoesOn w caller b none h m bm q = stays_put w h
  visit_callee-GoesOn w caller b (some callee) h m bm q =
      elim (Bool-cases (contains w.in_set callee || leb max_external_fns w.ext_count)) [
        | inl old ↦ rw (visit_callee, old) (stays_put w h)
        | inr new ↦ elim (Bool-cases (is_summarizable callee)) [
          | inr n ↦ rw (visit_callee, new, n) (stays_put w h)
          | inl y ↦
              rw (visit_callee, new, y)
                (record {
                  walks = push-IsWalk w caller callee b h m bm q (ground arith) (ground arith) y;
                  keeps = λ d k. In-left w.to_summarize (callee ∷ []) k;
                })
        ]
      ]

  visit_blocks-GoesOn :
      (bs : List BasicBlockData) (w : Walk) (caller : DefId)
      → IsWalk w
      → In caller w.to_summarize
      → ((b : BasicBlockData) → In b bs → In b (optimized_mir caller).basic_blocks)
      → GoesOn w (visit_blocks optimized_mir is_summarizable w bs)
  unfolding visit_blocks
  visit_blocks-GoesOn [] w caller h m within = stays_put w h
  visit_blocks-GoesOn (b ∷ bs) w caller h m within =
      let first =
        visit_callee-GoesOn w caller b (direct_callee b.terminator) h m (within b (head refl))
          refl in
      let v = visit_callee optimized_mir is_summarizable w (direct_callee b.terminator) in
      then_on w v _ first (
        visit_blocks-GoesOn bs v caller first.walks (first.keeps caller m)
          (λ x k. within x (tail k)))

  visit_fns-GoesOn :
      (ds : List DefId) (w : Walk)
      → IsWalk w
      → ((d : DefId) → In d ds → In d w.to_summarize)
      → GoesOn w (visit_fns optimized_mir is_summarizable w ds)
  unfolding visit_fns
  visit_fns-GoesOn [] w h within = stays_put w h
  visit_fns-GoesOn (d ∷ ds) w h within =
      let first =
        visit_blocks-GoesOn (optimized_mir d).basic_blocks w d h (within d (head refl))
          (λ b m. m) in
      let v = visit_blocks optimized_mir is_summarizable w (optimized_mir d).basic_blocks in
      then_on w v _ first
        (visit_fns-GoesOn ds v first.walks (λ x k. first.keeps x (within x (tail k))))

  walk-IsWalk :
      (depth : ℕ) (w : Walk) (frontier : List DefId)
      → IsWalk w
      → ((d : DefId) → In d frontier → In d w.to_summarize)
      → IsWalk (walk optimized_mir is_summarizable depth w frontier)
  unfolding walk
  walk-IsWalk zero w frontier h within = h
  walk-IsWalk (suc depth) w frontier h within =
      let cleared : Walk = record w { next = [] } in
      let k : IsWalk cleared = record {
        same = h.same;
        counted = h.counted;
        few = h.few;
        wanted = h.wanted;
        locals = h.locals;
        next_in = λ d m. elim m [ ];
        unique = h.unique;
      } in
      let visited = visit_fns optimized_mir is_summarizable cleared frontier in
      let goes = visit_fns-GoesOn frontier cleared k within in
      let rest = walk-IsWalk depth visited visited.next goes.walks goes.walks.next_in in
      elim (Bool-cases (leb max_external_fns w.ext_count)) [
        | inl full ↦ rw full h
        | inr room ↦ elim (Bool-cases (is_empty visited.next)) [
          | inl y ↦ rw (room, y) goes.walks
          | inr n ↦ rw (room, n) rest
        ]
      ]

  start-IsWalk :
      IsWalk (record { in_set = local_fns; to_summarize = local_fns; next = []; ext_count = 0 })
  start-IsWalk = record {
    same = λ d. refl;
    counted = ground arith;
    few = ground arith;
    wanted = λ d m. local_fn m;
    locals = λ d m. m;
    next_in = λ d m. elim m [ ];
    unique = λ u. u;
  }

  -- The functions that get a summary are the local ones and at most 600 others, none twice if no
  -- local one is listed twice; each of the others can be summarised and is called by a function of
  -- the list.
  pub to_summarize_lem :
      let ds = to_summarize optimized_mir is_summarizable local_fns in
      (length ds ≤ length local_fns + max_external_fns)
      × ((d : DefId) → In d local_fns → In d ds)
      × ((d : DefId) → In d ds → IsWanted ds d)
      × (Unique local_fns → Unique ds)
  unfolding to_summarize
  to_summarize_lem =
      let h = walk-IsWalk 2 _ local_fns start-IsWalk (λ d m. m) in
      (ground (arith, h.counted, h.few), h.locals, h.wanted, h.unique)
