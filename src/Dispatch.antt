-- ===== src/Dispatch.antt =====
-- processMetric and the data point loops of cardinalityprocessor/processor.go, and the walk of
-- ConsumeMetrics over a batch up to its hand-over to the next consumer.
pub mod State
pub mod Fallback
use otel_cardinality_process.Base.{String, Bool, true, false, List, [], ◌∷◌, ite, text_discrete}
use otel_cardinality_process.Config.{enforcement_tag_only, enforcement_strip_and_reaggregate}
use otel_cardinality_process.Enforce.{handle_attributes, handle_attributes_with_mode}
use otel_cardinality_process.External.{Env}
use otel_cardinality_process.Metrics.{
  NumberPoint, OtherPoint, Temporality, unspecified, delta, cumulative, MetricData, none_set, gauge,
  sum, histogram, exponential_histogram, summary, Metric, ScopeMetrics, ResourceMetrics, gauge_type,
  sum_type,
}
use otel_cardinality_process.Processor.{Processor}
use otel_cardinality_process.Reaggregate.{Floats, reaggregate_number_data_points}

abbrev pub is_delta : Temporality → Bool
is_delta delta = true
is_delta unspecified = false
is_delta cumulative = false

module _ (env : Env) where
  open env use {Sketch, Value, Exemplar}

  -- `processNumberDataPointsWithMode`.
  unfoldable pub process_number_data_points_with_mode :
      String
      → List (NumberPoint Value Exemplar)
      → String
      → Processor Sketch
      → List (NumberPoint Value Exemplar) × Processor Sketch
  process_number_data_points_with_mode name [] mode p = ([], p)
  process_number_data_points_with_mode name (dp ∷ dps) mode p =
      let (attrs, p₁) = handle_attributes_with_mode env name dp.attributes mode p in
      let (rest, p₂) = process_number_data_points_with_mode name dps mode p₁ in
      (record dp { attributes = attrs } ∷ rest, p₂)

  -- `processNumberDataPoints`.
  unfoldable pub process_number_data_points :
      String
      → List (NumberPoint Value Exemplar)
      → Processor Sketch
      → List (NumberPoint Value Exemplar) × Processor Sketch
  process_number_data_points name [] p = ([], p)
  process_number_data_points name (dp ∷ dps) p =
      let (attrs, p₁) = handle_attributes env name dp.attributes p in
      let (rest, p₂) = process_number_data_points name dps p₁ in
      (record dp { attributes = attrs } ∷ rest, p₂)

  module _ {B : Type 0} where
    -- The loops over histogram, exponential histogram and summary points, which are alike.
    unfoldable pub process_other_data_points_with_mode :
        String
        → List (OtherPoint Value B)
        → String
        → Processor Sketch
        → List (OtherPoint Value B) × Processor Sketch
    process_other_data_points_with_mode name [] mode p = ([], p)
    process_other_data_points_with_mode name (dp ∷ dps) mode p =
        let (attrs, p₁) = handle_attributes_with_mode env name dp.attributes mode p in
        let (rest, p₂) = process_other_data_points_with_mode name dps mode p₁ in
        (record dp { attributes = attrs } ∷ rest, p₂)

    unfoldable pub process_other_data_points :
        String
        → List (OtherPoint Value B)
        → Processor Sketch
        → List (OtherPoint Value B) × Processor Sketch
    process_other_data_points name [] p = ([], p)
    process_other_data_points name (dp ∷ dps) p =
        let (attrs, p₁) = handle_attributes env name dp.attributes p in
        let (rest, p₂) = process_other_data_points name dps p₁ in
        (record dp { attributes = attrs } ∷ rest, p₂)

    -- Histograms and summaries: in strip_and_reaggregate mode they fall back to tag_only.
    unfoldable pub process_other :
        String
        → List (OtherPoint Value B)
        → Processor Sketch
        → List (OtherPoint Value B) × Processor Sketch
    process_other name dps p =
        ite (text_discrete p.enforcement_mode enforcement_strip_and_reaggregate)
          (process_other_data_points_with_mode name dps enforcement_tag_only p)
          (process_other_data_points name dps p)

  -- A sum that is not delta: the fallback, or the points as they are.
  unfoldable pub process_cumulative_sum :
      String
      → List (NumberPoint Value Exemplar)
      → Processor Sketch
      → List (NumberPoint Value Exemplar) × Processor Sketch
  process_cumulative_sum name dps p =
      ite (text_discrete p.enforcement_mode enforcement_strip_and_reaggregate)
        (process_number_data_points_with_mode name dps enforcement_tag_only p)
        (process_number_data_points name dps p)

  module _ (fl : Floats) where
    -- The mode is read again after the points are processed.
    unfoldable pub process_gauge :
        String
        → List (NumberPoint Value Exemplar)
        → Processor Sketch
        → List (NumberPoint Value Exemplar) × Processor Sketch
    process_gauge name dps p =
        let (dps', p') = process_number_data_points name dps p in
        (
          ite (text_discrete p'.enforcement_mode enforcement_strip_and_reaggregate)
              (reaggregate_number_data_points env fl dps' gauge_type false) dps',
          p',
        )

    unfoldable pub process_delta_sum :
        String
        → List (NumberPoint Value Exemplar)
        → Processor Sketch
        → List (NumberPoint Value Exemplar) × Processor Sketch
    process_delta_sum name dps p =
        let (dps', p') = process_number_data_points name dps p in
        (
          ite (text_discrete p'.enforcement_mode enforcement_strip_and_reaggregate)
              (reaggregate_number_data_points env fl dps' sum_type true) dps',
          p',
        )

    abbrev process_sum :
        Bool
        → String
        → List (NumberPoint Value Exemplar)
        → Processor Sketch
        → List (NumberPoint Value Exemplar) × Processor Sketch
    process_sum true = process_delta_sum
    process_sum false = process_cumulative_sum

  module _ {B : Type 0} (fl : Floats) where
    unfoldable pub process_data :
        String
        → MetricData Value Exemplar B
        → Processor Sketch
        → MetricData Value Exemplar B × Processor Sketch
    process_data name none_set p = (none_set, p)
    process_data name (gauge dps) p =
        let (dps', p') = process_gauge fl name dps p in (gauge dps', p')
    process_data name (sum t dps) p =
        let (dps', p') = process_sum fl (is_delta t) name dps p in (sum t dps', p')
    process_data name (histogram dps) p =
        let (dps', p') = process_other name dps p in (histogram dps', p')
    process_data name (exponential_histogram dps) p =
        let (dps', p') = process_other name dps p in (exponential_histogram dps', p')
    process_data name (summary dps) p =
        let (dps', p') = process_other name dps p in (summary dps', p')

    unfoldable pub process_metric :
        Metric Value Exemplar B → Processor Sketch → Metric Value Exemplar B × Processor Sketch
    process_metric m p =
        let (points, p') = process_data m.name m.points p in (record m { points = points }, p')

    -- The loops of ConsumeMetrics over metrics, scopes and resources.
    unfoldable pub process_metrics :
        List (Metric Value Exemplar B)
        → Processor Sketch
        → List (Metric Value Exemplar B) × Processor Sketch
    process_metrics [] p = ([], p)
    process_metrics (m ∷ ms) p =
        let (m', p₁) = process_metric m p in let (ms', p₂) = process_metrics ms p₁ in (m' ∷ ms', p₂)

    unfoldable pub process_scopes :
        List (ScopeMetrics Value Exemplar B)
        → Processor Sketch
        → List (ScopeMetrics Value Exemplar B) × Processor Sketch
    process_scopes [] p = ([], p)
    process_scopes (s ∷ ss) p =
        let (ms, p₁) = process_metrics s.metrics p in
        let (ss', p₂) = process_scopes ss p₁ in (record s { metrics = ms } ∷ ss', p₂)

    unfoldable pub process_resources :
        List (ResourceMetrics Value Exemplar B)
        → Processor Sketch
        → List (ResourceMetrics Value Exemplar B) × Processor Sketch
    process_resources [] p = ([], p)
    process_resources (r ∷ rs) p =
        let (ss, p₁) = process_scopes r.scope_metrics p in
        let (rs', p₂) = process_resources rs p₁ in (record r { scope_metrics = ss } ∷ rs', p₂)

    -- The processed batch is handed to `next`, whose result is the result of the call.
    unfoldable pub consume_metrics :
        {E : Type 0}
        → (List (ResourceMetrics Value Exemplar B) → E)
        → List (ResourceMetrics Value Exemplar B)
        → Processor Sketch
        → E × Processor Sketch
    consume_metrics next md p = let (md', p') = process_resources md p in (next md', p')
