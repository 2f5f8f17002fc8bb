-- ===== src/Metadatatest.antt =====
-- The assertions of cardinalityprocessor/internal/metadatatest/generated_telemetrytest.go, and
-- cardinalityprocessor/internal/metadata/generated_status.go. The reader of the test telemetry and
-- `metricdatatest.AssertEqual` are parameters.
pub mod Instruments
use otel_cardinality_process.Base.{String, Bool, true, false, List, ◌⊎◌, inl, inr}
use otel_cardinality_process.Factory.{Stability, alpha}

abbrev pub metadata_type : String
metadata_type = "cardinality_guardian"

abbrev pub scope_name : String
scope_name = "github.com/YElayyat/otel-cardinality-processor/cardinalityprocessor"

-- `MetricsStability`.
abbrev pub metrics_stability : Stability
metrics_stability = alpha

pub data Temporality : Type 0 where
  cumulative delta : Temporality

-- The data of a metric, with points that hold an int64 or a float64.
pub data Aggregation (Int64Point Float64Point : Type 0) : Type 0 where
  sum_int64 : Temporality → Bool → List Int64Point → Aggregation Int64Point Float64Point
  sum_float64 : Temporality → Bool → List Float64Point → Aggregation Int64Point Float64Point
  gauge_int64 : List Int64Point → Aggregation Int64Point Float64Point

-- `metricdata.Metrics`.
pub record Metrics (Int64Point Float64Point : Type 0) : Type 0 where
  pub name : String
  pub description : String
  pub unit : String
  pub content : Aggregation Int64Point Float64Point

-- `componenttest.Telemetry` as far as it is read, with the comparison of metrics.
pub record Reader : Type 1 where
  pub Int64Point : Type 0
  pub Float64Point : Type 0
  pub Telemetry : Type 0
  pub Err : Type 0
  pub Options : Type 0
  pub get_metric : Telemetry → String → Err ⊎ Metrics Int64Point Float64Point
  pub equal : Metrics Int64Point Float64Point → Metrics Int64Point Float64Point → Options → Bool
  pub Settings : Type 0
  pub nop_settings : Settings
  pub set_id : String → Settings → Settings
  pub new_telemetry_settings : Telemetry → Settings → Settings

module _ (reader : Reader) where
  open reader use {
    Int64Point, Float64Point, Telemetry, Err, Options, get_metric, equal, Settings, nop_settings,
    set_id, new_telemetry_settings,
  }

  unfoldable pub new_settings : Telemetry → Settings
  new_settings tt = new_telemetry_settings tt (set_id metadata_type nop_settings)

  -- Whether a test goes on unmarked: `require.NoError` stops it, `AssertEqual` marks it.
  abbrev pub assert_got :
      Metrics Int64Point Float64Point → Err ⊎ Metrics Int64Point Float64Point → Options → Bool
  assert_got want (inl e) opts = false
  assert_got want (inr got) opts = equal want got opts

  module _ (tt : Telemetry) where
    unfoldable pub assert_equal_labels_stripped : List Int64Point → Options → Bool
    assert_equal_labels_stripped dps opts =
        assert_got
          (record {
            name = "otelcol_processor_cardinality_labels.stripped";
            description = "Total number of high-cardinality labels stripped or tagged. [Alpha]";
            unit = "{labels}";
            content = sum_int64 cumulative true dps;
          })
          (get_metric tt "otelcol_processor_cardinality_labels.stripped") opts

    unfoldable pub assert_equal_savings_estimated : List Float64Point → Options → Bool
    assert_equal_savings_estimated dps opts =
        assert_got
          (record {
            name = "otelcol_processor_cardinality_savings.estimated";
            description =
                "Cumulative estimated dollar value of time-series churn prevented by the processor. [Alpha]";
            unit = "{dollars}";
            content = sum_float64 cumulative true dps;
          })
          (get_metric tt "otelcol_processor_cardinality_savings.estimated") opts

    unfoldable pub assert_equal_top_offenders : List Int64Point → Options → Bool
    assert_equal_top_offenders dps opts =
        assert_got
          (record {
            name = "otelcol_processor_cardinality_top.offenders";
            description =
                "Cardinality delta of the top-N highest-growth (metric, label) pairs from the last epoch rotation. [Alpha]";
            unit = "{pairs}";
            content = gauge_int64 dps;
          })
          (get_metric tt "otelcol_processor_cardinality_top.offenders") opts

    unfoldable pub assert_equal_trackers_active : List Int64Point → Options → Bool
    assert_equal_trackers_active dps opts =
        assert_got
          (record {
            name = "otelcol_processor_cardinality_trackers.active";
            description =
                "Current number of active cardinality trackers across all shards. [Alpha]";
            unit = "{trackers}";
            content = gauge_int64 dps;
          })
          (get_metric tt "otelcol_processor_cardinality_trackers.active") opts

    unfoldable pub assert_equal_trackers_rejected : List Int64Point → Options → Bool
    assert_equal_trackers_rejected dps opts =
        assert_got
          (record {
            name = "otelcol_processor_cardinality_trackers.rejected";
            description =
                "Number of new (metric, label) pairs ignored because max_tracker_count was reached. [Alpha]";
            unit = "{trackers}";
            content = sum_int64 cumulative true dps;
          })
          (get_metric tt "otelcol_processor_cardinality_trackers.rejected") opts
