-- ===== src/Run.antt =====
-- The processor over its life: batches and epoch rotations in any order, from the state that
-- newCardinalityProcessor of cardinalityprocessor/processor.go makes.
use otel_cardinality_process.Base.{ℕ, String, List, [], ◌∷◌, All}
use otel_cardinality_process.Config.{Config}
use otel_cardinality_process.Dispatch.{consume_metrics}
use otel_cardinality_process.Dispatch.State.{consume_metrics-IsValid, consume_metrics-LogsAgree}
use otel_cardinality_process.Enforce.Counts.{LogsAgree}
use otel_cardinality_process.External.{Env, PdataLaws}
use otel_cardinality_process.Metrics.{ResourceMetrics}
use otel_cardinality_process.Processor.{Processor, Shard, new_cardinality_processor}
use otel_cardinality_process.Processor.Accounting.{IsValid}
use otel_cardinality_process.Processor.Initial.{
  new_cardinality_processor-IsValid, new_cardinality_processor-LogsAgree,
}
use otel_cardinality_process.Reaggregate.{Floats}
use otel_cardinality_process.Rotation.{rotate}
use otel_cardinality_process.Rotation.Epochs.{rotate-IsValid, rotate-LogsAgree}
use otel_cardinality_process.Rotation.Shards.{Visits}

module _ (env : Env) (fl : Floats) (B : Type 0) where
  open env use {Sketch, Value, Exemplar}

  -- A call of ConsumeMetrics, or a tick with the orders in which its range statements go.
  pub data Event : Type 0 where
    batch : List (ResourceMetrics Value Exemplar B) → Event
    tick : (ℕ → Shard Sketch → Shard Sketch) → Event

  abbrev pub IsSound : Event → Type 0
  IsSound (batch md) = Unit
  IsSound (tick order) = Visits env order

  abbrev pub step : Event → Processor Sketch → Processor Sketch
  step (batch md) p = (consume_metrics env fl (λ md'. md') md p).1
  step (tick order) p = rotate env order p

  abbrev pub run : List Event → Processor Sketch → Processor Sketch
  run [] p = p
  run (e ∷ es) p = run es (step e p)

  module _ (laws : PdataLaws env.pdata) where
    run_keeps :
        (es : List Event) (p : Processor Sketch)
        → All IsSound es
        → IsValid env p
        → LogsAgree p
        → IsValid env (run es p) × LogsAgree (run es p)
    run_keeps [] p s v a = (v, a)
    run_keeps (batch md ∷ es) p s v a =
        run_keeps es (step (batch md) p) s.1
          (consume_metrics-IsValid env laws fl (λ md'. md') md p v)
          (consume_metrics-LogsAgree env laws fl (λ md'. md') md p a)
    run_keeps (tick order ∷ es) p s v a =
        run_keeps es (step (tick order) p) s.1 (rotate-IsValid env order s.0 p v)
          (rotate-LogsAgree env order s.0 p)

    -- After any sequence of batches and rotations on a new processor the maps are well formed, the
    -- counter is their number of trackers and within MaxTrackerCount if that is set, and the two
    -- drop counters are equal, or the log counter is zero if drop logs are unlimited.
    pub run-IsValid :
        (to_lower : String → String) (cfg : Config) (es : List Event)
        → All IsSound es
        → IsValid env (run es (new_cardinality_processor to_lower cfg))
          × LogsAgree (run es (new_cardinality_processor to_lower cfg))
    run-IsValid to_lower cfg es sound =
        run_keeps es (new_cardinality_processor to_lower cfg) sound
          (new_cardinality_processor-IsValid env to_lower cfg)
          (new_cardinality_processor-LogsAgree to_lower cfg)
