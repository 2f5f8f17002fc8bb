-- ===== src/Processor/Cases.antt =====
-- The three ways through `shouldDrop` of processor.go.
use otel_cardinality_process.Base.{◌≡◌, String, true, false, none, some}
use otel_cardinality_process.External.{Env}
use otel_cardinality_process.Processor.{
  Processor, TrackerKey, find_tracker, is_full, reject_tracker, add_tracker, create_tracker,
  measure, should_drop,
}
use otel_cardinality_process.Tracker.{Tracker, new_tracker}

abbrev pub key_of : String → String → TrackerKey
key_of metric_name attr_key = record { metric_name = metric_name; attr_key = attr_key }

module _ (env : Env) (m k v : String) (p : Processor env.hll.Sketch) where
  pub should_drop_found :
      {t : Tracker env.hll.Sketch}
      → find_tracker env p (key_of m k) ≡ some t
      → should_drop env m k v p ≡ measure env (key_of m k) (env.sum64 v) t p
  unfolding should_drop
  should_drop_found found = rw (found, should_drop)

  pub should_drop_full :
      find_tracker env p (key_of m k) ≡ none
      → is_full env p ≡ true
      → should_drop env m k v p ≡ (false, reject_tracker env p)
  unfolding should_drop create_tracker
  should_drop_full missing full = rw (missing, should_drop) (rw (missing, create_tracker) (rw full))

  pub should_drop_new :
      find_tracker env p (key_of m k) ≡ none
      → is_full env p ≡ false
      → should_drop env m k v p
        ≡ measure env
            (key_of m k)
            (env.sum64 v)
            (new_tracker env.hll)
            (add_tracker env (key_of m k) p)
  unfolding should_drop create_tracker
  should_drop_new missing room = rw (missing, should_drop) (rw (missing, create_tracker) (rw room))
