-- ===== src/Telemetry/Gauges.antt =====
-- What the gauge of active trackers of processor.go shows over the life of a processor.
use otel_cardinality_process.Base.{
  ℕ, ◌+◌, ◌%◌, ◌<◌, ◌≡◌, ap, String, List, [], ◌∷◌, arith, length, All,
}
use otel_cardinality_process.Base.Int.{add64, u64_mod}
use otel_cardinality_process.Config.{Config}
use otel_cardinality_process.External.{Env, PdataLaws}
use otel_cardinality_process.Processor.{Shard, new_cardinality_processor}
use otel_cardinality_process.Processor.Accounting.{IsValid}
use otel_cardinality_process.Processor.Store.{total}
use otel_cardinality_process.Reaggregate.{Floats}
use otel_cardinality_process.Run.{Event, IsSound, run, run-IsValid}
use otel_cardinality_process.Telemetry.Callbacks.{add_active, observe_active}

add_active_lem :
    {S : Type 0} (ss : List (Shard S)) (n : ℕ)
    → n < u64_mod
    → add_active ss n ≡ (n + total ss) % u64_mod
unfolding add_active
add_active_lem [] n h = omega (arith, h)
add_active_lem (s ∷ ss) n h = omega (arith, add_active_lem ss (add64 n (length s)) (omega arith))

-- After any batches and rotations on a new processor, the gauge of active trackers observes one
-- value, which is the counter that MaxTrackerCount is checked against.
pub observe_active-run :
    (env : Env) (fl : Floats) (B : Type 0) (laws : PdataLaws env.pdata) (to_lower : String → String)
    (cfg : Config) (es : List (Event env fl B))
    → All (IsSound env fl B) es
    → observe_active (run env fl B es (new_cardinality_processor to_lower cfg))
      ≡ ((run env fl B es (new_cardinality_processor to_lower cfg)).tracker_count, []) ∷ []
observe_active-run env fl B laws to_lower cfg es sound =
    let p = run env fl B es (new_cardinality_processor to_lower cfg) in
    let v : IsValid env p = (run-IsValid env fl B laws to_lower cfg es sound).0 in
    ap (λ n. (n, []) ∷ []) (omega (arith, add_active_lem p.shards 0 (omega arith), v.counted))
