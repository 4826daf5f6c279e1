-- ===== src/Flow/Leaks.antt =====
-- Which objects a `Return` reports as leaked (crates/san/src/checkers/flow/ownership.rs).
use san.Base.{
  suc, ◌+◌, List, [], ◌∷◌, Bool, true, false, ◌&&◌, ◌||◌, not, ◌≡◌, ◌∙◌, inl, inr, refl, subst,
  ◌==◌, nat_eq, list_eq, nat_beq_iff, length, length-append, arith, Bool-cases,
}
use san.Base.Sets.{contains, insert, contains-insert}
use san.Base.Maps.{lookup, keys}
use san.Object.{ObjectId, HeapMap}
use san.State.Tracking.{TrackingDomain}
use san.State.Ownership.{objects_for, is_raw_owned}
use san.Flow.{BlockView, warn}
use san.Flow.Ownership.{
  LeakScan, leak_message, leak_object, leak_objects, all_objects, check_return,
}

module _ (b : BlockView) (heap : HeapMap) (returned : List ObjectId) where
  abbrev raw : ObjectId → Bool
  raw id = is_raw_owned (lookup heap id)

  -- An object that was seen and is still owned has been reported.
  abbrev Reported : LeakScan → Type 0
  Reported acc =
      (x : ObjectId) → contains acc.seen x ≡ true → raw x ≡ true → contains acc.leaked x ≡ true

  -- From one scan to a later one, the objects that satisfy `p` are added, each with a finding.
  record Adds (p : ObjectId → Bool) (acc next : LeakScan) : Type 0 where
    reported : Reported next
    leaked : (x : ObjectId) → contains next.leaked x ≡ (contains acc.leaked x || p x)
    counted : length next.findings + length acc.leaked ≡ length acc.findings + length next.leaked

  length-insert_new :
      (xs : List ObjectId) (x : ObjectId)
      → contains xs x ≡ false
      → length (insert xs x) ≡ suc (length xs)
  unfolding insert
  length-insert_new xs x h = rw h refl

  skipped :
      (obj : ObjectId) (acc : LeakScan)
      → Reported acc
      → (contains returned obj || contains acc.seen obj) ≡ true
      → (x : ObjectId)
      → contains acc.leaked x
        ≡ (contains acc.leaked x || (obj == x && raw x && not (contains returned x)))
  skipped obj acc inv skip x = elim (Bool-cases (obj == x)) [
    | inl same ↦
        let q : obj ≡ x = (nat_beq_iff obj x).0 same in
        let skip' : (contains returned x || contains acc.seen x) ≡ true =
          subst (λ o. (contains returned o || contains acc.seen o) ≡ true) q skip in
        ground (arith, inv x)
    | inr other ↦ ground arith
  ]

  leaking :
      (obj : ObjectId) (acc : LeakScan)
      → (contains returned obj || contains acc.seen obj) ≡ false
      → (raw obj && not (contains acc.leaked obj)) ≡ true
      → (x : ObjectId)
      → contains (insert acc.leaked obj) x
        ≡ (contains acc.leaked x || (obj == x && raw x && not (contains returned x)))
  leaking obj acc fresh leak x = elim (Bool-cases (obj == x)) [
    | inl same ↦
        let q : obj ≡ x = (nat_beq_iff obj x).0 same in
        let fresh' : contains returned x ≡ false =
          subst (λ o. contains returned o ≡ false) q (ground arith) in
        let leak' : raw x ≡ true = subst (λ o. raw o ≡ true) q (ground arith) in
        ground (arith, contains-insert acc.leaked obj x)
    | inr other ↦ ground (arith, contains-insert acc.leaked obj x)
  ]

  keeping :
      (obj : ObjectId) (acc : LeakScan)
      → (raw obj && not (contains acc.leaked obj)) ≡ false
      → (x : ObjectId)
      → contains acc.leaked x
        ≡ (contains acc.leaked x || (obj == x && raw x && not (contains returned x)))
  keeping obj acc quiet x = elim (Bool-cases (obj == x)) [
    | inl same ↦
        let q : obj ≡ x = (nat_beq_iff obj x).0 same in
        let quiet' : (raw x && not (contains acc.leaked x)) ≡ false =
          subst (λ o. (raw o && not (contains acc.leaked o)) ≡ false) q quiet in
        ground arith
    | inr other ↦ ground arith
  ]

  still-Reported :
      (obj : ObjectId) (acc : LeakScan)
      → Reported acc
      → (raw obj && not (contains acc.leaked obj)) ≡ false
      → (x : ObjectId) → contains (insert acc.seen obj) x ≡ true
      → raw x ≡ true
      → contains acc.leaked x ≡ true
  still-Reported obj acc inv quiet x sn rx = elim (Bool-cases (obj == x)) [
    | inl same ↦
        let q : obj ≡ x = (nat_beq_iff obj x).0 same in
        let quiet' : (raw x && not (contains acc.leaked x)) ≡ false =
          subst (λ o. (raw o && not (contains acc.leaked o)) ≡ false) q quiet in
        ground arith
    | inr other ↦ ground (arith, contains-insert acc.seen obj x, inv x)
  ]

  leak_object-Adds :
      (obj : ObjectId) (acc : LeakScan)
      → Reported acc
      → Adds
          (λ x. obj == x && raw x && not (contains returned x))
          acc
          (leak_object b heap returned obj acc)
  unfolding leak_object
  leak_object-Adds obj acc inv =
      elim (Bool-cases (contains returned obj || contains acc.seen obj)) [
        | inl skip ↦ rw skip (record {
          reported = inv;
          leaked = λ x. skipped obj acc inv skip x;
          counted = omega arith;
        })
        | inr fresh ↦ elim (Bool-cases (raw obj && not (contains acc.leaked obj))) [
          | inl leak ↦
              rw (fresh, leak)
                (record {
                  reported = λ x sn rx. ground (
                    arith,
                    contains-insert acc.seen obj x,
                    contains-insert acc.leaked obj x,
                    inv x,
                  );
                  leaked = λ x. leaking obj acc fresh leak x;
                  counted = omega (
                    arith,
                    length-append acc.findings (warn b "ownership_leak" leak_message ∷ []),
                    length-insert_new acc.leaked obj (ground arith),
                  );
                })
          | inr quiet ↦
              rw (fresh, quiet)
                (record {
                  reported = λ x sn rx. still-Reported obj acc inv quiet x sn rx;
                  leaked = λ x. keeping obj acc quiet x;
                  counted = omega arith;
                })
        ]
      ]

  leak_objects-Adds :
      (objs : List ObjectId) (acc : LeakScan)
      → Reported acc
      → Adds
          (λ x. contains objs x && raw x && not (contains returned x))
          acc
          (leak_objects b heap returned objs acc)
  unfolding leak_objects contains
  leak_objects-Adds [] acc inv = record {
    reported = inv;
    leaked = λ x. ground arith;
    counted = omega arith;
  }
  leak_objects-Adds (obj ∷ objs) acc inv =
      let next = leak_object b heap returned obj acc in
      let one = leak_object-Adds obj acc inv in
      let rest = leak_objects-Adds objs next one.reported in
      record {
        reported = rest.reported;
        leaked = λ x. ground (arith, one.leaked x, rest.leaked x);
        counted = omega (arith, one.counted, rest.counted);
      }

nothing : (x : ObjectId) → contains [] x ≡ true → ⊥
unfolding contains
nothing x h = absurd (ground arith)

-- At a `Return` the objects that become leaked are those that some local points to, that are still
-- owned, and that are not returned; each gives one finding, and none of them was leaked before.
pub check_return_lem :
    (b : BlockView) (s : TrackingDomain) (leaked : List ObjectId)
    → ((x : ObjectId)
        → contains (check_return b s leaked).leaked x ≡ (
            contains leaked x
            || (contains (all_objects s (keys s.points_to)) x
                && is_raw_owned (lookup s.heap x)
                && not (contains (objects_for s 0) x))))
      × (length (check_return b s leaked).findings + length leaked
          ≡ length (check_return b s leaked).leaked)
unfolding check_return
check_return_lem b s leaked =
    let adds =
      leak_objects-Adds b s.heap (objects_for s 0) (all_objects s (keys s.points_to))
        (record { seen = []; leaked = leaked; findings = [] }) (λ x h r. absurd (nothing x h)) in
    (adds.leaked, adds.counted ∙ omega arith)
