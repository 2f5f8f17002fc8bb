-- ===== src/Processor/Keeps.antt =====
-- What `shouldDrop` of processor.go leaves alone.
use otel_cardinality_process.Base.{ℕ, ◌≡◌, String, inl, inr, arith, Option-cases, Bool-cases}
use otel_cardinality_process.External.{Env}
use otel_cardinality_process.Processor.{
  Processor, TrackerKey, find_tracker, is_full, reject_tracker, add_tracker, measure, should_drop,
  store, is_protected,
}
use otel_cardinality_process.Processor.Cases.{
  key_of, should_drop_found, should_drop_full, should_drop_new,
}
use otel_cardinality_process.Tracker.{Tracker, new_tracker}

-- `q` differs from `p` in its trackers, their counters and the log at most.
pub record Keeps {S : Type 0} (p q : Processor S) : Type 0 where
  pub config : q.config ≡ p.config
  pub protected_labels : q.protected_labels ≡ p.protected_labels
  pub enforcement_mode : q.enforcement_mode ≡ p.enforcement_mode
  pub labels_stripped : q.labels_stripped ≡ p.labels_stripped
  pub drop_log_count : q.drop_log_count ≡ p.drop_log_count
  pub drops_this_epoch : q.drops_this_epoch ≡ p.drops_this_epoch
  pub top_offenders : q.top_offenders ≡ p.top_offenders

module _ (env : Env) where
  open env use {Sketch, hll, sum64}

  measure-Keeps :
      (key : TrackerKey) (hash_val : ℕ) (t : Tracker Sketch) (p : Processor Sketch)
      → Keeps p (measure env key hash_val t p).1
  unfolding measure store
  measure-Keeps key hash_val t p = ground arith

  measure_added-Keeps :
      (key : TrackerKey) (hash_val : ℕ) (t : Tracker Sketch) (p : Processor Sketch)
      → Keeps p (measure env key hash_val t (add_tracker env key p)).1
  unfolding measure store add_tracker
  measure_added-Keeps key hash_val t p = ground arith

  reject_tracker-Keeps : (p : Processor Sketch) → Keeps p (reject_tracker env p)
  unfolding reject_tracker
  reject_tracker-Keeps p = ground arith

  pub should_drop-Keeps :
      (m k v : String) (p : Processor Sketch) → Keeps p (should_drop env m k v p).1
  should_drop-Keeps m k v p = elim (Option-cases (find_tracker env p (key_of m k))) [
    | inl missing ↦ elim (Bool-cases (is_full env p)) [
      | inl full ↦ rw (should_drop_full env m k v p missing full) (reject_tracker-Keeps p)
      | inr room ↦
          rw (should_drop_new env m k v p missing room)
            (measure_added-Keeps (key_of m k) (sum64 v) (new_tracker hll) p)
    ]
    | inr (t, found) ↦
        rw (should_drop_found env m k v p found) (measure-Keeps (key_of m k) (sum64 v) t p)
  ]

-- Protection depends on the set of labels alone.
pub is_protected-same :
    {S : Type 0} (p q : Processor S) (k : String)
    → q.protected_labels ≡ p.protected_labels
    → is_protected q k ≡ is_protected p k
unfolding is_protected
is_protected-same p q k e = rw e
