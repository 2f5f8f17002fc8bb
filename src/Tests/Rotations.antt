-- ===== src/Tests/Rotations.antt =====
-- The theorems on the epoch rotation and on whole runs, at concrete inputs.
use otel_cardinality_process.Base.{String, ℕ, ◌≡◌, refl, List, [], ◌∷◌}
use otel_cardinality_process.Base.Int.{pos}
use otel_cardinality_process.Enforce.Counts.{LogsAgree}
use otel_cardinality_process.Metrics.{NumberPoint, gauge, int}
use otel_cardinality_process.Config.{Config}
use otel_cardinality_process.Processor.{Processor, Shard, find_tracker, new_cardinality_processor}
use otel_cardinality_process.Processor.Accounting.{IsValid, should_drop-IsValid}
use otel_cardinality_process.Processor.Cases.{key_of}
use otel_cardinality_process.Rotation.{rotate}
use otel_cardinality_process.Rotation.Epochs.{find_tracker-rotate}
use otel_cardinality_process.Rotation.Shards.{Visits, next_epoch}
use otel_cardinality_process.Run.{Event, batch, tick, run, run-IsValid}
use otel_cardinality_process.Tests.World.{
  Value, text, containers-laws, world, floats, strict, start, warm, start-IsValid,
}

abbrev pub in_order : ℕ → Shard (List ℕ) → Shard (List ℕ)
in_order i m = m

pub in_order-Visits : Visits world in_order
in_order-Visits i m h = (h, λ k. refl)

warm-IsValid : IsValid world warm
warm-IsValid = should_drop-IsValid world "reqs" "user" "a" start start-IsValid

find_tracker-rotate_example :
    find_tracker world (rotate world in_order warm) (key_of "reqs" "user")
    ≡ next_epoch world (find_tracker world warm (key_of "reqs" "user"))
find_tracker-rotate_example =
    find_tracker-rotate world in_order in_order-Visits warm (key_of "reqs" "user") warm-IsValid

abbrev life : List (Event world floats ℕ)
life =
    batch (
      record {
        scope_metrics =
            record {
              metrics =
                  record {
                    name = "reqs";
                    points = gauge (
                        record {
                          attributes = ("user", text "a") ∷ [];
                          start_timestamp = 1;
                          timestamp = 2;
                          value = int 7;
                          exemplars = [];
                        }
                        ∷ []);
                  }
                  ∷ [];
            }
            ∷ [];
      }
      ∷ [])
    ∷ tick in_order
    ∷ tick in_order
    ∷ []

run-IsValid_example :
    IsValid world (run world floats ℕ life (new_cardinality_processor (λ s. s) strict))
    × LogsAgree (run world floats ℕ life (new_cardinality_processor (λ s. s) strict))
run-IsValid_example =
    run-IsValid world floats ℕ containers-laws (λ s. s) strict life
      (tt, (in_order-Visits, (in_order-Visits, tt)))

-- Three values of a label that may grow by one, without a limit on drop logs.
abbrev stripping : Config
stripping = record strict {
  enforcement_mode = "strip_and_reaggregate";
  drop_log_max_per_epoch = pos 0;
}

abbrev point_of : String → NumberPoint Value ℕ
point_of s = record {
  attributes = ("user", text s) ∷ [];
  start_timestamp = 1;
  timestamp = 2;
  value = int 7;
  exemplars = [];
}

abbrev noisy_life : List (Event world floats ℕ)
noisy_life =
    batch (
      record {
        scope_metrics =
            record {
              metrics =
                  record {
                    name = "reqs";
                    points = gauge (point_of "a" ∷ point_of "bb" ∷ point_of "ccc" ∷ []);
                  }
                  ∷ [];
            }
            ∷ [];
      }
      ∷ [])
    ∷ []

abbrev noisy : Processor (List ℕ)
noisy = run world floats ℕ noisy_life (new_cardinality_processor (λ s. s) stripping)
