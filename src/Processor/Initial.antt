-- ===== src/Processor/Initial.antt =====
-- The processor that newCardinalityProcessor of processor.go makes.
use otel_cardinality_process.Base.{
  ℕ, zero, suc, ◌≡◌, refl, String, [], arith, replicate, length-replicate,
}
use otel_cardinality_process.Config.{Config}
use otel_cardinality_process.Enforce.Counts.{LogsAgree}
use otel_cardinality_process.External.{Env}
use otel_cardinality_process.Processor.{Shard, num_shards, new_cardinality_processor}
use otel_cardinality_process.Processor.Accounting.{IsValid}
use otel_cardinality_process.Processor.Store.{total, AreMaps}

replicate-AreMaps : (S : Type 0) (n : ℕ) → AreMaps {S = S} (replicate n [])
replicate-AreMaps S zero = tt
replicate-AreMaps S (suc n) = (tt, replicate-AreMaps S n)

total-replicate : (S : Type 0) (n : ℕ) → total {S = S} (replicate n []) ≡ 0
total-replicate S zero = refl
total-replicate S (suc n) = omega (arith, total-replicate S n)

-- Whatever its configuration, a new processor has 256 shards whose maps are empty, and a tracker
-- counter that agrees with them.
pub new_cardinality_processor-IsValid :
    (env : Env) (to_lower : String → String) (cfg : Config)
    → IsValid env (new_cardinality_processor to_lower cfg)
unfolding new_cardinality_processor
new_cardinality_processor-IsValid env to_lower cfg = record {
  width = length-replicate {A = Shard env.hll.Sketch} num_shards [];
  maps = replicate-AreMaps env.hll.Sketch num_shards;
  counted = omega (arith, total-replicate env.hll.Sketch num_shards);
  bounded = λ l. omega (arith, total-replicate env.hll.Sketch num_shards);
}

pub new_cardinality_processor-LogsAgree :
    {S : Type 0} (to_lower : String → String) (cfg : Config)
    → LogsAgree {S = S} (new_cardinality_processor to_lower cfg)
unfolding new_cardinality_processor
new_cardinality_processor-LogsAgree to_lower cfg = record {
  limited = λ h. refl;
  unlimited = λ h. refl;
}
