-- ===== src/Tests/Labels.antt =====
-- The theorems on the enforcement and on batches, at concrete inputs.
use otel_cardinality_process.Base.{
  ℕ, ◌≡◌, refl, ◌≢◌, String, true, false, List, [], ◌∷◌, map, some, ite, if◌then◌else◌,
  text_discrete,
}
use otel_cardinality_process.Base.Assoc.{lookup}
use package.text.Mathlib.TextEquality.{eq_iff}
use otel_cardinality_process.Config.{
  enforcement_tag_only, enforcement_overflow_attribute, enforcement_strip_and_reaggregate,
  overflow_sentinel, resolved_enforcement_mode,
}
use otel_cardinality_process.Dispatch.{process_data}
use otel_cardinality_process.Dispatch.Fallback.{Untouched, process_data-Untouched}
use otel_cardinality_process.Enforce.{overflow_key, handle_attributes_with_mode}
use otel_cardinality_process.Enforce.Modes.{
  lookup-handle_tag_only, lookup-handle_overflow, handle_strip,
}
use otel_cardinality_process.Enforce.Protected.{lookup-handle_protected}
use otel_cardinality_process.Enforce.Verdicts.{decisions, any_true, marked, unmarked}
use otel_cardinality_process.External.{Attrs}
use otel_cardinality_process.Metrics.{
  gauge, histogram, NumberPoint, OtherPoint, ResourceMetrics, int,
}
use otel_cardinality_process.Processor.{
  should_drop, is_protected, mem_text, get_shard, store, add_tracker, new_cardinality_processor,
}
use otel_cardinality_process.Processor.Accounting.{IsValid, should_drop-IsValid}
use otel_cardinality_process.Tests.World.{
  Value, text, flag, containers-laws, world, floats, start, warm, start-IsValid,
}

-- The second value of "user" exceeds the limit; "region" is protected.
abbrev labels : Attrs Value
labels = ("region", text "eu") ∷ ("user", text "bc") ∷ []

abbrev tag_only : String
tag_only = enforcement_tag_only

lookup-handle_tag_only_example :
    lookup text_discrete overflow_key
      (handle_attributes_with_mode world "reqs" labels tag_only warm).0
    ≡ (if any_true (decisions world tag_only "reqs" labels warm)
        then ite
            (text_discrete overflow_key overflow_key)
            (some (flag true))
            (lookup text_discrete overflow_key labels)
        else lookup text_discrete overflow_key labels)
lookup-handle_tag_only_example =
    lookup-handle_tag_only world containers-laws "reqs" labels warm overflow_key

lookup-handle_overflow_example :
    lookup text_discrete "user"
      (handle_attributes_with_mode world "reqs" labels enforcement_overflow_attribute warm).0
    ≡ (if mem_text "user" (
          map
            (λ a. a.0)
            (marked (decisions world enforcement_overflow_attribute "reqs" labels warm) labels))
        then some (text overflow_sentinel)
        else lookup text_discrete "user" labels)
lookup-handle_overflow_example =
    lookup-handle_overflow world containers-laws "reqs" labels warm "user"

handle_strip_example :
    (handle_attributes_with_mode world "reqs" labels enforcement_strip_and_reaggregate warm).0
    ≡ unmarked (decisions world enforcement_strip_and_reaggregate "reqs" labels warm) labels
handle_strip_example = handle_strip world containers-laws "reqs" labels warm

region_protected : is_protected warm "region" ≡ true
unfolding is_protected should_drop lookup new_cardinality_processor get_shard store add_tracker
    text_discrete
region_protected = refl

not_the_tag : overflow_key ≢ "region"
not_the_tag e = let h : false ≡ true = (eq_iff overflow_key "region").1 e in cc

lookup-handle_protected_example :
    lookup text_discrete "region"
      (handle_attributes_with_mode world "reqs" labels enforcement_strip_and_reaggregate warm).0
    ≡ lookup text_discrete "region" labels
lookup-handle_protected_example =
    lookup-handle_protected world enforcement_strip_and_reaggregate "reqs" containers-laws labels
      warm "region" region_protected not_the_tag

warm-IsValid : IsValid world warm
warm-IsValid = should_drop-IsValid world "reqs" "user" "a" start start-IsValid

abbrev point : NumberPoint Value ℕ
point = record {
  attributes = labels;
  start_timestamp = 1;
  timestamp = 2;
  value = int 7;
  exemplars = [];
}

abbrev sizes : List (OtherPoint Value ℕ)
sizes = record { attributes = labels; body = 9 } ∷ []

abbrev batch : List (ResourceMetrics Value ℕ ℕ)
batch =
    record {
      scope_metrics =
          record {
            metrics =
                record { name = "reqs"; points = gauge (point ∷ point ∷ []) }
                ∷ record { name = "sizes"; points = histogram sizes }
                ∷ [];
          }
          ∷ [];
    }
    ∷ []

process_data-Untouched_example :
    Untouched world containers-laws
      (histogram sizes)
      (process_data world floats "sizes" (histogram sizes) start).0
unfolding new_cardinality_processor resolved_enforcement_mode
process_data-Untouched_example =
    process_data-Untouched world containers-laws floats "sizes" (histogram sizes) start refl
