-- ===== src/Telemetry/Callbacks.antt =====
-- The callbacks that newCardinalityProcessor of processor.go registers, and the constructor with its
-- error paths.
use mathlib.Core.List.{map}
use otel_cardinality_process.Base.{ℕ, String, List, [], ◌∷◌, length}
use otel_cardinality_process.Base.Int.{add64}
use otel_cardinality_process.Config.{Config}
use otel_cardinality_process.Processor.{Processor, Offender, Shard, new_cardinality_processor}
use otel_cardinality_process.Telemetry.{
  Sdk, Float64, Attributes, TelemetryBuilder, Builds, Try, ok, ◌>>=◌, make_builder,
  register_trackers_active_callback, register_labels_stripped_callback,
  register_savings_estimated_callback, register_trackers_rejected_callback,
  register_top_offenders_callback,
}

abbrev offender_reading : Offender → ℕ × Attributes
offender_reading o = (o.delta, ("metric_name", o.metric_name) ∷ ("label_key", o.label_key) ∷ [])

-- The callbacks of newCardinalityProcessor, on the state that they see.
module _ {S : Type 0} where
  unfoldable pub add_active : List (Shard S) → ℕ → ℕ
  add_active [] total_active = total_active
  add_active (s ∷ ss) total_active = add_active ss (add64 total_active (length s))

  abbrev pub observe_active : Processor S → List (ℕ × Attributes)
  observe_active p = (add_active p.shards 0, []) ∷ []

  abbrev pub observe_stripped : Processor S → List (ℕ × Attributes)
  observe_stripped p = (p.labels_stripped, []) ∷ []

  abbrev pub observe_rejected : Processor S → List (ℕ × Attributes)
  observe_rejected p = (p.trackers_rejected, []) ∷ []

  -- 0x4059000000000000 is 100.
  abbrev pub observe_savings : Float64 → Processor S → List (ℕ × Attributes)
  observe_savings fl p =
      let savings =
        fl.mul (fl.of_int64 p.labels_stripped) p.config.estimated_cost_per_metric_month in
      (fl.div (fl.round (fl.mul savings 0x4059000000000000)) 0x4059000000000000, []) ∷ []

  abbrev pub observe_offenders : Processor S → List (ℕ × Attributes)
  observe_offenders p = map offender_reading p.top_offenders

module _ {S : Type 0} (sdk : Sdk S) (fl : Float64) where
  open sdk use {Provider, Err}

  -- The rest of the constructor when the builder is made.
  unfoldable pub register_callbacks : TelemetryBuilder sdk → Builds sdk
  register_callbacks builder = do
    b₁ ← register_trackers_active_callback sdk observe_active builder
    b₂ ← register_labels_stripped_callback sdk observe_stripped b₁
    b₃ ← register_savings_estimated_callback sdk (observe_savings fl) b₂
    b₄ ← register_trackers_rejected_callback sdk observe_rejected b₃
    register_top_offenders_callback sdk observe_offenders b₄

  -- `newCardinalityProcessor`: the processor and its telemetry, or an error.
  unfoldable pub new_processor :
      (String → String) → Config → Try Provider Err (Processor S × TelemetryBuilder sdk)
  new_processor to_lower cfg = do
    builder ← make_builder sdk
    telemetry ← register_callbacks builder
    ok (new_cardinality_processor to_lower cfg, telemetry)
