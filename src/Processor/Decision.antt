-- ===== src/Processor/Decision.antt =====
-- What `shouldDrop` of processor.go decides, and what it changes.
use otel_cardinality_process.Base.{
  ℕ, ◌+◌, ◌≡◌, refl, String, Bool, true, false, inl, inr, Option, none, some, arith, ltb,
  Option-cases, Bool-cases, ite,
}
use mathlib.Core.Option
use otel_cardinality_process.External.{Env}
use otel_cardinality_process.Processor.{
  Processor, TrackerKey, find_tracker, is_full, reject_tracker, add_tracker, measure, should_drop,
  key_discrete, get_limit, store,
}
use otel_cardinality_process.Processor.Accounting.{
  IsValid, add_tracker-IsValid, find_tracker-add_tracker_any,
}
use otel_cardinality_process.Processor.Cases.{
  key_of, should_drop_found, should_drop_full, should_drop_new,
}
use otel_cardinality_process.Processor.Store.{find_tracker-store}
use otel_cardinality_process.Tracker.{Tracker, new_tracker, insert}

ite_again {ℓ} : {P A : Type ℓ} (d : Dec P) (a b c : A) → ite d a (ite d b c) ≡ ite d a c
ite_again (yes p) a b c = refl
ite_again (no n) a b c = refl

ite_missing {ℓ} :
    {K A : Type ℓ} (f : K → Option A) (k j : K) (d : Dec (k ≡ j))
    → f k ≡ none
    → f j ≡ ite d none (f j)
ite_missing f k j (yes p) e = rw (← p) e
ite_missing f k j (no n) e = refl

module _ (env : Env) where
  open env use {Sketch, hll, sum64}

  -- The tracker at hand, or a new one if there is room.
  abbrev or_new : Bool → Option (Tracker Sketch) → Option (Tracker Sketch)
  or_new full (some t) = some t
  or_new true none = none
  or_new false none = some (new_tracker hll)

  -- The tracker that a label value is counted in.
  abbrev pub tracker_for : Processor Sketch → TrackerKey → Option (Tracker Sketch)
  tracker_for p key = or_new (is_full env p) (find_tracker env p key)

  -- The value is dropped when the estimate has grown past the baseline by more than the limit.
  abbrev pub exceeds : ℕ → ℕ → Option (Tracker Sketch) → Bool
  exceeds limit hash_val none = false
  exceeds limit hash_val (some t) =
      let (t', curr, prev) = insert hll hash_val t in ltb (prev + limit) curr

  measure_decides :
      (key : TrackerKey) (hash_val : ℕ) (t : Tracker Sketch) (p q : Processor Sketch)
      → get_limit q key.metric_name ≡ get_limit p key.metric_name
      → (measure env key hash_val t q).0 ≡ exceeds (get_limit p key.metric_name) hash_val (some t)
  unfolding measure
  measure_decides key hash_val t p q same = rw same (ground arith)

  add_tracker-limit :
      (p : Processor Sketch) (key : TrackerKey) (name : String)
      → get_limit (add_tracker env key p) name ≡ get_limit p name
  unfolding add_tracker store get_limit
  add_tracker-limit p key name = refl

  -- `shouldDrop` returns true exactly when the value is counted in a tracker whose estimate after
  -- the insert is more than the metric's limit above the baseline of the last epoch.
  pub should_drop_decides :
      (metric_name attr_key attr_val : String) (p : Processor Sketch)
      → (should_drop env metric_name attr_key attr_val p).0
        ≡ exceeds
            (get_limit p metric_name)
            (sum64 attr_val)
            (tracker_for p (key_of metric_name attr_key))
  should_drop_decides m k a p = elim (Option-cases (find_tracker env p (key_of m k))) [
    | inl missing ↦ elim (Bool-cases (is_full env p)) [
      | inl full ↦ rw (should_drop_full env m k a p missing full, missing, full)
      | inr room ↦
          rw (should_drop_new env m k a p missing room, missing, room)
            (measure_decides (key_of m k) (sum64 a) (new_tracker hll) p
              (add_tracker env (key_of m k) p) (add_tracker-limit p (key_of m k) m))
    ]
    | inr (t, found) ↦
        rw (should_drop_found env m k a p found, found)
          (measure_decides (key_of m k) (sum64 a) t p p refl)
  ]

  store_twice :
      (p : Processor Sketch) (key j : TrackerKey) (t : Tracker Sketch)
      → IsValid env p
      → find_tracker env p key ≡ none
      → is_full env p ≡ false
      → find_tracker env (store env key t (add_tracker env key p)) j
        ≡ ite (key_discrete key j) (some t) (find_tracker env p j)
  store_twice p key j t v missing room =
      rw
        (find_tracker-store env (add_tracker env key p)
          (add_tracker-IsValid env p key missing room v).width key j t)
        (rw (find_tracker-add_tracker_any env p key j v) (ite_again (key_discrete key j) _ _ _))

  reject_tracker-shards : (p : Processor Sketch) → (reject_tracker env p).shards ≡ p.shards
  unfolding reject_tracker
  reject_tracker-shards p = ground arith

  -- `shouldDrop` inserts the hash of the value into the tracker of the pair, which it makes if
  -- there is none and there is room, and leaves every other tracker as it was.
  pub find_tracker-should_drop :
      (metric_name attr_key attr_val : String) (p : Processor Sketch) (j : TrackerKey)
      → IsValid env p
      → find_tracker env (should_drop env metric_name attr_key attr_val p).1 j
        ≡ ite
            (key_discrete (key_of metric_name attr_key) j)
            (Option.map
              (λ t. (insert hll (sum64 attr_val) t).0)
              (tracker_for p (key_of metric_name attr_key)))
            (find_tracker env p j)
  unfolding measure
  find_tracker-should_drop m k a p j v = elim (Option-cases (find_tracker env p (key_of m k))) [
    | inl missing ↦ elim (Bool-cases (is_full env p)) [
      | inl full ↦
          rw (should_drop_full env m k a p missing full, missing, full, reject_tracker-shards p)
            (ite_missing (find_tracker env p) (key_of m k) j (key_discrete (key_of m k) j) missing)
      | inr room ↦
          rw (should_drop_new env m k a p missing room, missing, room)
            (store_twice p (key_of m k) j (insert hll (sum64 a) (new_tracker hll)).0 v missing room)
    ]
    | inr (t, found) ↦
        rw (should_drop_found env m k a p found, found)
          (find_tracker-store env p v.width (key_of m k) j (insert hll (sum64 a) t).0)
  ]
