-- ===== src/Dispatch/State.antt =====
-- The processor's state across a whole batch: the loops of processor.go down from ConsumeMetrics.
use otel_cardinality_process.Base.{String, ◌≡◌, refl, ◌∙◌, List, [], ◌∷◌, ite, text_discrete}
use otel_cardinality_process.Config.{enforcement_tag_only, enforcement_strip_and_reaggregate}
use otel_cardinality_process.Dispatch.{
  process_number_data_points_with_mode, process_number_data_points,
  process_other_data_points_with_mode, process_other_data_points, process_other, process_gauge,
  process_delta_sum, process_cumulative_sum, process_data, process_metric, process_metrics,
  process_scopes, process_resources, consume_metrics,
}
use otel_cardinality_process.Enforce.{handle_attributes, handle_attributes_with_mode}
use otel_cardinality_process.Enforce.Counts.{
  LogsAgree, handle-IsValid, handle-LogsAgree, handle-config,
}
use otel_cardinality_process.External.{Env, Attrs, PdataLaws}
use otel_cardinality_process.Metrics.{
  NumberPoint, OtherPoint, MetricData, none_set, gauge, sum, histogram, exponential_histogram,
  summary, unspecified, delta, cumulative, Metric, ScopeMetrics, ResourceMetrics,
}
use otel_cardinality_process.Processor.{Processor}
use otel_cardinality_process.Processor.Accounting.{IsValid}
use otel_cardinality_process.Reaggregate.{Floats}

-- A property of the processor that the enforcement on one data point keeps in every mode.
abbrev pub Kept : (env : Env) → (Processor env.hll.Sketch → Type 0) → Type 0
Kept env P =
    (m mode : String) (attrs : Attrs env.Value) (p : Processor env.hll.Sketch)
    → P p
    → P (handle_attributes_with_mode env m attrs mode p).1

ite_rule {ℓ} : {Q A : Type 0} (P : A → Type ℓ) (d : Dec Q) {a b : A} → P a → P b → P (ite d a b)
ite_rule P (yes e) ha hb = ha
ite_rule P (no n) ha hb = hb

module _ (env : Env) (P : Processor env.hll.Sketch → Type 0) (kept : Kept env P) where
  open env use {Sketch, Value, Exemplar}

  number_with_mode_rule :
      (name : String) (dps : List (NumberPoint Value Exemplar)) (mode : String)
      (p : Processor Sketch)
      → P p
      → P (process_number_data_points_with_mode env name dps mode p).1
  unfolding process_number_data_points_with_mode
  number_with_mode_rule name [] mode p h = h
  number_with_mode_rule name (dp ∷ dps) mode p h =
      number_with_mode_rule name dps mode _ (kept name mode dp.attributes p h)

  number_rule :
      (name : String) (dps : List (NumberPoint Value Exemplar)) (p : Processor Sketch)
      → P p
      → P (process_number_data_points env name dps p).1
  unfolding process_number_data_points handle_attributes
  number_rule name [] p h = h
  number_rule name (dp ∷ dps) p h =
      number_rule name dps _ (kept name p.enforcement_mode dp.attributes p h)

  module _ {B : Type 0} where
    other_with_mode_rule :
        (name : String) (dps : List (OtherPoint Value B)) (mode : String) (p : Processor Sketch)
        → P p
        → P (process_other_data_points_with_mode env name dps mode p).1
    unfolding process_other_data_points_with_mode
    other_with_mode_rule name [] mode p h = h
    other_with_mode_rule name (dp ∷ dps) mode p h =
        other_with_mode_rule name dps mode _ (kept name mode dp.attributes p h)

    other_rule :
        (name : String) (dps : List (OtherPoint Value B)) (p : Processor Sketch)
        → P p
        → P (process_other_data_points env name dps p).1
    unfolding process_other_data_points handle_attributes
    other_rule name [] p h = h
    other_rule name (dp ∷ dps) p h =
        other_rule name dps _ (kept name p.enforcement_mode dp.attributes p h)

    process_other_rule :
        (name : String) (dps : List (OtherPoint Value B)) (p : Processor Sketch)
        → P p
        → P (process_other env name dps p).1
    unfolding process_other
    process_other_rule name dps p h =
        ite_rule (λ (r : List (OtherPoint Value B) × Processor Sketch). P r.1)
          (text_discrete p.enforcement_mode enforcement_strip_and_reaggregate)
          (other_with_mode_rule name dps enforcement_tag_only p h) (other_rule name dps p h)

  cumulative_rule :
      (name : String) (dps : List (NumberPoint Value Exemplar)) (p : Processor Sketch)
      → P p
      → P (process_cumulative_sum env name dps p).1
  unfolding process_cumulative_sum
  cumulative_rule name dps p h =
      ite_rule (λ (r : List (NumberPoint Value Exemplar) × Processor Sketch). P r.1)
        (text_discrete p.enforcement_mode enforcement_strip_and_reaggregate)
        (number_with_mode_rule name dps enforcement_tag_only p h) (number_rule name dps p h)

  module _ {B : Type 0} (fl : Floats) where
    data_rule :
        (name : String) (d : MetricData Value Exemplar B) (p : Processor Sketch)
        → P p
        → P (process_data env fl name d p).1
    unfolding process_data process_gauge process_delta_sum
    data_rule name none_set p h = h
    data_rule name (gauge dps) p h = number_rule name dps p h
    data_rule name (sum delta dps) p h = number_rule name dps p h
    data_rule name (sum unspecified dps) p h = cumulative_rule name dps p h
    data_rule name (sum cumulative dps) p h = cumulative_rule name dps p h
    data_rule name (histogram dps) p h = process_other_rule name dps p h
    data_rule name (exponential_histogram dps) p h = process_other_rule name dps p h
    data_rule name (summary dps) p h = process_other_rule name dps p h

    metrics_rule :
        (ms : List (Metric Value Exemplar B)) (p : Processor Sketch)
        → P p
        → P (process_metrics env fl ms p).1
    unfolding process_metrics process_metric
    metrics_rule [] p h = h
    metrics_rule (m ∷ ms) p h = metrics_rule ms _ (data_rule m.name m.points p h)

    scopes_rule :
        (ss : List (ScopeMetrics Value Exemplar B)) (p : Processor Sketch)
        → P p
        → P (process_scopes env fl ss p).1
    unfolding process_scopes
    scopes_rule [] p h = h
    scopes_rule (s ∷ ss) p h = scopes_rule ss _ (metrics_rule s.metrics p h)

    resources_rule :
        (rs : List (ResourceMetrics Value Exemplar B)) (p : Processor Sketch)
        → P p
        → P (process_resources env fl rs p).1
    unfolding process_resources
    resources_rule [] p h = h
    resources_rule (r ∷ rs) p h = resources_rule rs _ (scopes_rule r.scope_metrics p h)

module _ (env : Env) (laws : PdataLaws env.pdata) {B E : Type 0} (fl : Floats) where
  open env use {Sketch, Value, Exemplar}

  -- A batch keeps the tracker maps, their counter and the bound MaxTrackerCount, whatever the modes
  -- and the metrics in it.
  pub consume_metrics-IsValid :
      (next : List (ResourceMetrics Value Exemplar B) → E)
      → (md : List (ResourceMetrics Value Exemplar B)) (p : Processor Sketch) → IsValid env p
      → IsValid env (consume_metrics env fl next md p).1
  unfolding consume_metrics
  consume_metrics-IsValid next md p h =
      resources_rule env (IsValid env)
        (λ m mode attrs q v. handle-IsValid env laws m mode attrs q v) fl md p h

  -- A batch keeps the relation between the two drop counters: with a limit on drop logs they are
  -- equal, and with none the log counter is zero.
  pub consume_metrics-LogsAgree :
      (next : List (ResourceMetrics Value Exemplar B) → E)
      → (md : List (ResourceMetrics Value Exemplar B)) (p : Processor Sketch) → LogsAgree p
      → LogsAgree (consume_metrics env fl next md p).1
  unfolding consume_metrics
  consume_metrics-LogsAgree next md p h =
      resources_rule env LogsAgree (λ m mode attrs q v. handle-LogsAgree env laws m mode attrs q v)
        fl md p h

  pub consume_metrics-config :
      (next : List (ResourceMetrics Value Exemplar B) → E)
      → (md : List (ResourceMetrics Value Exemplar B)) (p : Processor Sketch)
      → (consume_metrics env fl next md p).1.config ≡ p.config
  unfolding consume_metrics
  consume_metrics-config next md p =
      resources_rule env (λ q. q.config ≡ p.config)
        (λ m mode attrs q e. handle-config env laws m mode attrs q ∙ e) fl md p refl
