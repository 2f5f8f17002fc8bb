-- ===== src/Dispatch/Fallback.antt =====
-- strip_and_reaggregate on the metric types that processMetric of processor.go does not
-- reaggregate.
use otel_cardinality_process.Base.{
  String, ◌≡◌, refl, ◌≢◌, List, [], ◌∷◌, if_pos, text_discrete, arith,
}
use otel_cardinality_process.Base.Assoc.{lookup}
use otel_cardinality_process.Config.{enforcement_tag_only, enforcement_strip_and_reaggregate}
use otel_cardinality_process.Dispatch.{
  process_number_data_points_with_mode, process_other_data_points_with_mode, process_other,
  process_cumulative_sum, process_data,
}
use otel_cardinality_process.Enforce.{overflow_key, handle_attributes_with_mode}
use otel_cardinality_process.Enforce.Modes.{lookup-handle_tag_only}
use otel_cardinality_process.External.{Env, Attrs, PdataLaws}
use otel_cardinality_process.Metrics.{
  NumberPoint, OtherPoint, MetricData, none_set, gauge, sum, histogram, exponential_histogram,
  summary, unspecified, delta, cumulative,
}
use otel_cardinality_process.Processor.{Processor}
use otel_cardinality_process.Reaggregate.{Floats}

module _ (env : Env) (laws : PdataLaws env.pdata) where
  open env use {Sketch, Value, Exemplar}

  -- Every label but the tag has the value that it had.
  abbrev pub SameLabels : Attrs Value → Attrs Value → Type 0
  SameLabels a b =
      (j : String) → overflow_key ≢ j → lookup text_discrete j b ≡ lookup text_discrete j a

  -- The same points in the same order, but for the tag.
  abbrev pub SameNumbers :
      List (NumberPoint Value Exemplar) → List (NumberPoint Value Exemplar) → Type 0
  SameNumbers [] [] = Unit
  SameNumbers [] (b ∷ bs) = ⊥
  SameNumbers (a ∷ as_) [] = ⊥
  SameNumbers (a ∷ as_) (b ∷ bs) =
      SameLabels a.attributes b.attributes
      × (b ≡ record a { attributes = b.attributes })
      × SameNumbers as_ bs

  abbrev pub SameOthers :
      {B : Type 0} → List (OtherPoint Value B) → List (OtherPoint Value B) → Type 0
  SameOthers [] [] = Unit
  SameOthers [] (b ∷ bs) = ⊥
  SameOthers (a ∷ as_) [] = ⊥
  SameOthers (a ∷ as_) (b ∷ bs) =
      SameLabels a.attributes b.attributes × (b.body ≡ a.body) × SameOthers as_ bs

  tag_only-SameLabels :
      (m : String) (attrs : Attrs Value) (p : Processor Sketch)
      → SameLabels attrs (handle_attributes_with_mode env m attrs enforcement_tag_only p).0
  tag_only-SameLabels m attrs p j other =
      rw (lookup-handle_tag_only env laws m attrs p j) (ground arith)

  number_tag_only :
      (m : String) (dps : List (NumberPoint Value Exemplar)) (p : Processor Sketch)
      → SameNumbers dps (process_number_data_points_with_mode env m dps enforcement_tag_only p).0
  unfolding process_number_data_points_with_mode
  number_tag_only m [] p = tt
  number_tag_only m (dp ∷ dps) p =
      (tag_only-SameLabels m dp.attributes p, refl, number_tag_only m dps _)

  other_tag_only :
      {B : Type 0} (m : String) (dps : List (OtherPoint Value B)) (p : Processor Sketch)
      → SameOthers dps (process_other_data_points_with_mode env m dps enforcement_tag_only p).0
  unfolding process_other_data_points_with_mode
  other_tag_only m [] p = tt
  other_tag_only m (dp ∷ dps) p =
      (tag_only-SameLabels m dp.attributes p, refl, other_tag_only m dps _)

  cumulative_falls_back :
      (m : String) (dps : List (NumberPoint Value Exemplar)) (p : Processor Sketch)
      → p.enforcement_mode ≡ enforcement_strip_and_reaggregate
      → process_cumulative_sum env m dps p
        ≡ process_number_data_points_with_mode env m dps enforcement_tag_only p
  unfolding process_cumulative_sum
  cumulative_falls_back m dps p strip =
      if_pos (text_discrete p.enforcement_mode enforcement_strip_and_reaggregate) strip _ _

  other_falls_back :
      {B : Type 0} (m : String) (dps : List (OtherPoint Value B)) (p : Processor Sketch)
      → p.enforcement_mode ≡ enforcement_strip_and_reaggregate
      → process_other env m dps p
        ≡ process_other_data_points_with_mode env m dps enforcement_tag_only p
  unfolding process_other
  other_falls_back m dps p strip =
      if_pos (text_discrete p.enforcement_mode enforcement_strip_and_reaggregate) strip _ _

  -- The metric types that strip_and_reaggregate does not reaggregate, with what it may change.
  abbrev pub Untouched :
      {B : Type 0} → MetricData Value Exemplar B → MetricData Value Exemplar B → Type 0
  Untouched (histogram a) (histogram b) = SameOthers a b
  Untouched (exponential_histogram a) (exponential_histogram b) = SameOthers a b
  Untouched (summary a) (summary b) = SameOthers a b
  Untouched (sum cumulative a) (sum cumulative b) = SameNumbers a b
  Untouched (sum unspecified a) (sum unspecified b) = SameNumbers a b
  Untouched (sum delta a) d = Unit
  Untouched (gauge a) d = Unit
  Untouched none_set none_set = Unit
  Untouched c d = ⊥

  -- In strip_and_reaggregate mode a cumulative sum, histogram, exponential histogram or summary
  -- keeps every data point, and every label of every point but "otel.metric.overflow".
  pub process_data-Untouched :
      {B : Type 0} (fl : Floats) (m : String) (d : MetricData Value Exemplar B)
      (p : Processor Sketch)
      → p.enforcement_mode ≡ enforcement_strip_and_reaggregate
      → Untouched d (process_data env fl m d p).0
  unfolding process_data
  process_data-Untouched fl m none_set p strip = tt
  process_data-Untouched fl m (gauge dps) p strip = tt
  process_data-Untouched fl m (sum delta dps) p strip = tt
  process_data-Untouched fl m (sum cumulative dps) p strip =
      rw (cumulative_falls_back m dps p strip) (number_tag_only m dps p)
  process_data-Untouched fl m (sum unspecified dps) p strip =
      rw (cumulative_falls_back m dps p strip) (number_tag_only m dps p)
  process_data-Untouched fl m (histogram dps) p strip =
      rw (other_falls_back m dps p strip) (other_tag_only m dps p)
  process_data-Untouched fl m (exponential_histogram dps) p strip =
      rw (other_falls_back m dps p strip) (other_tag_only m dps p)
  process_data-Untouched fl m (summary dps) p strip =
      rw (other_falls_back m dps p strip) (other_tag_only m dps p)
