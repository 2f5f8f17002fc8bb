-- ===== src/Factory.antt =====
-- cardinalityprocessor/factory.go and export_bench.go: how the collector comes to a processor. The
-- collector's factory is the record of what it is given.
use otel_cardinality_process.Base.{String, Bool, true, ◌⊎◌, inl, inr}
use otel_cardinality_process.Config.{Config, create_default_config}
use otel_cardinality_process.Processor.{Processor}
use otel_cardinality_process.Telemetry.{Sdk, Float64, TelemetryBuilder, Try}
use otel_cardinality_process.Telemetry.Callbacks.{new_processor}

abbrev pub type_str : String
type_str = "cardinality_guardian"

-- A component.Config: a `*Config`, or a value of another type, with its name.
pub data ComponentConfig : Type 0 where
  guardian : Config → ComponentConfig
  foreign : String → ComponentConfig

pub data CreateError (E : Type 0) : Type 0 where
  invalid_config_type : String → CreateError E
  telemetry : E → CreateError E

pub data Stability : Type 0 where
  development alpha beta stable : Stability

module _ {S : Type 0} (sdk : Sdk S) (fl : Float64) (to_lower : String → String) where
  open sdk use {Provider, Err}

  -- What a constructor returns, on the state of the meter provider.
  abbrev pub Creates : Type 0
  Creates = Try Provider (CreateError Err) (Processor S × TelemetryBuilder sdk)

  abbrev wrap_error :
      (Err ⊎ (Processor S × TelemetryBuilder sdk)) × Provider
      → (CreateError Err ⊎ (Processor S × TelemetryBuilder sdk)) × Provider
  wrap_error (inl e, pr) = (inl (telemetry e), pr)
  wrap_error (inr p, pr) = (inr p, pr)

  unfoldable pub create_metrics_processor : ComponentConfig → Creates
  create_metrics_processor (guardian cfg) pr = wrap_error (new_processor sdk fl to_lower cfg pr)
  create_metrics_processor (foreign name) pr = (inl (invalid_config_type name), pr)

  -- `NewFactory`.
  pub record Factory : Type 0 where
    pub component_type : String
    pub default_config : ComponentConfig
    pub create_metrics : ComponentConfig → Creates
    pub stability : Stability

  unfoldable pub new_factory : Factory
  new_factory = record {
    component_type = type_str;
    default_config = guardian create_default_config;
    create_metrics = create_metrics_processor;
    stability = development;
  }

  -- `NewCardinalityProcessorForTest`.
  unfoldable pub new_cardinality_processor_for_test :
      Config → Try Provider Err (Processor S × TelemetryBuilder sdk)
  new_cardinality_processor_for_test cfg = new_processor sdk fl to_lower cfg

-- `Capabilities`: whether the processor mutates the data.
abbrev pub capabilities : Bool
capabilities = true
