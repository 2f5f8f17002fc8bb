-- ===== src/Metrics.antt =====
-- The metric data of the collector's `pdata` that the processor reads and writes: records for its
-- messages, with the fields that processor.go and reaggregation.go use. `V` is the type of
-- attribute values and `X` that of exemplars. Timestamps are `uint64`; an int value is the bit
-- pattern of an `int64`, a double value that of a `float64`.
use otel_cardinality_process.Base.{ℕ, String, List}
use otel_cardinality_process.External.{Attrs}

pub data NumberValue : Type 0 where
  empty : NumberValue
  int : ℕ → NumberValue
  double : ℕ → NumberValue

pub record NumberPoint (V X : Type 0) : Type 0 where
  pub attributes : Attrs V
  pub start_timestamp : ℕ
  pub timestamp : ℕ
  pub value : NumberValue
  pub exemplars : List X

-- The data points of the other types: the processor touches their attributes alone. `body` is the
-- rest of the point.
pub record OtherPoint (V B : Type 0) : Type 0 where
  pub attributes : Attrs V
  pub body : B

-- The aggregation temporality of a sum.
pub data Temporality : Type 0 where
  unspecified delta cumulative : Temporality

pub data MetricData (V X B : Type 0) : Type 0 where
  none_set : MetricData V X B
  gauge : List (NumberPoint V X) → MetricData V X B
  sum : Temporality → List (NumberPoint V X) → MetricData V X B
  histogram : List (OtherPoint V B) → MetricData V X B
  exponential_histogram : List (OtherPoint V B) → MetricData V X B
  summary : List (OtherPoint V B) → MetricData V X B

pub record Metric (V X B : Type 0) : Type 0 where
  pub name : String
  pub points : MetricData V X B

-- ScopeMetrics and ResourceMetrics, as far as the walk goes.
pub record ScopeMetrics (V X B : Type 0) : Type 0 where
  pub metrics : List (Metric V X B)

pub record ResourceMetrics (V X B : Type 0) : Type 0 where
  pub scope_metrics : List (ScopeMetrics V X B)

-- The types that the switch in `processMetric` and in the reaggregation tell apart.
pub data MetricType : Type 0 where
  gauge_type sum_type : MetricType
