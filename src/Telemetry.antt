-- ===== src/Telemetry.antt =====
-- The instruments of the processor: internal/metadata/generated_telemetry.go, and their
-- registration in newCardinalityProcessor of processor.go. The meter of the OpenTelemetry SDK is a
-- parameter. A callback is a function of the processor's state when it is called.
pub mod Callbacks
pub mod Registrations
pub mod Constructor
pub mod Failures
pub mod Gauges
use mathlib.Core.List.{map}
use otel_cardinality_process.Base.{
  ℕ, ◌≡◌, ◌↔◌, String, Bool, true, false, Option, none, some, List, [], ◌∷◌, ◌++◌, length, ◌⊎◌, inl,
  inr, ite,
}
use otel_cardinality_process.Base.Int.{add64}
use otel_cardinality_process.Config.{Config}
use otel_cardinality_process.Processor.{Processor, Offender, Shard, new_cardinality_processor}

-- The value of an observation, as the bits of its word.
pub data Reading : Type 0 where
  int64 float64 : ℕ → Reading

abbrev pub Attributes : Type 0
Attributes = List (String × String)

pub record Observation (Instrument : Type 0) : Type 0 where
  pub instrument : Instrument
  pub value : Reading
  pub attributes : Attributes

pub data Kind : Type 0 where
  int64_counter float64_counter int64_gauge : Kind

-- `Provider` is the state of the meter provider; `registered` tells the callback behind a
-- registration that is in force.
pub record Sdk (S : Type 0) : Type 1 where
  pub Provider : Type 0
  pub Instrument : Type 0
  pub Registration : Type 0
  pub Err : Type 0
  -- `errors.Join`.
  pub join : Option Err → Option Err → Option Err
  pub instrument : Kind → String → String → String → Provider → (Instrument × Option Err) × Provider
  pub register_callback :
      (Processor S → List (Observation Instrument))
      → Instrument
      → Provider
      → (Err ⊎ Registration) × Provider
  pub unregister : Registration → Provider → Provider
  pub same : Discrete Registration
  pub registered : Provider → Registration → Option (Processor S → List (Observation Instrument))

-- A registration that succeeds is a new one, and is in force until it is taken back; one that fails
-- changes nothing that is registered.
pub record SdkLaws {S : Type 0} (sdk : Sdk S) : Type 0 where
  pub join-none : (a b : Option sdk.Err) → sdk.join a b ≡ none ↔ ((a ≡ none) × (b ≡ none))
  pub registered-instrument :
      (k : Kind) (name description unit : String) (pr : sdk.Provider) (r : sdk.Registration)
      → sdk.registered (sdk.instrument k name description unit pr).1 r ≡ sdk.registered pr r
  pub register-new :
      (cb : Processor S → List (Observation sdk.Instrument)) (i : sdk.Instrument)
      (pr pr' : sdk.Provider) (r : sdk.Registration)
      → sdk.register_callback cb i pr ≡ (inr r, pr')
      → sdk.registered pr r ≡ none
  pub registered-register :
      (cb : Processor S → List (Observation sdk.Instrument)) (i : sdk.Instrument)
      (pr pr' : sdk.Provider) (r j : sdk.Registration)
      → sdk.register_callback cb i pr ≡ (inr r, pr')
      → sdk.registered pr' j ≡ ite (sdk.same r j) (some cb) (sdk.registered pr j)
  pub registered-error :
      (cb : Processor S → List (Observation sdk.Instrument)) (i : sdk.Instrument)
      (pr pr' : sdk.Provider) (e : sdk.Err) (j : sdk.Registration)
      → sdk.register_callback cb i pr ≡ (inl e, pr')
      → sdk.registered pr' j ≡ sdk.registered pr j
  pub registered-unregister :
      (r j : sdk.Registration) (pr : sdk.Provider)
      → sdk.registered (sdk.unregister r pr) j ≡ ite (sdk.same r j) none (sdk.registered pr j)

-- A step that can fail, on the state of the provider.
abbrev pub Try : Type 0 → Type 0 → Type 0 → Type 0
Try P E A = P → (E ⊎ A) × P

abbrev pub bind_step : {P E A B : Type 0} → (A → Try P E B) → (E ⊎ A) × P → (E ⊎ B) × P
bind_step f (inl e, pr) = (inl e, pr)
bind_step f (inr a, pr) = f a pr

infixl 5 ◌>>=◌
abbrev pub ◌>>=◌ : {P E A B : Type 0} → Try P E A → (A → Try P E B) → Try P E B
(m >>= f) pr = bind_step f (m pr)

abbrev pub ok : {P E A : Type 0} → A → Try P E A
ok a pr = (inr a, pr)

-- The operations of float64 that the estimate of the savings uses, on bit patterns.
pub record Float64 : Type 0 where
  pub of_int64 : ℕ → ℕ
  pub mul : ℕ → ℕ → ℕ
  pub div : ℕ → ℕ → ℕ
  pub round : ℕ → ℕ

module _ {S : Type 0} (sdk : Sdk S) where
  open sdk use {
    Provider, Instrument, Registration, Err, join, instrument, register_callback, unregister,
  }

  pub record TelemetryBuilder : Type 0 where
    pub registrations : List Registration
    pub labels_stripped : Instrument
    pub savings_estimated : Instrument
    pub top_offenders : Instrument
    pub trackers_active : Instrument
    pub trackers_rejected : Instrument

  -- What a callback observes, before the observer adds the instrument.
  abbrev pub Callback : Type 0
  Callback = Processor S → List (ℕ × Attributes)

  abbrev observe :
      (ℕ → Reading) → Instrument → List (ℕ × Attributes) → List (Observation Instrument)
  observe reading inst [] = []
  observe reading inst ((v, attrs) ∷ vs) =
      record { instrument = inst; value = reading v; attributes = attrs } ∷ observe reading inst vs

  abbrev pub observer_int64 : Instrument → List (ℕ × Attributes) → List (Observation Instrument)
  observer_int64 = observe int64

  abbrev pub observer_float64 : Instrument → List (ℕ × Attributes) → List (Observation Instrument)
  observer_float64 = observe float64

  abbrev pub Builds : Type 0
  Builds = Try Provider Err TelemetryBuilder

  abbrev add_registration : TelemetryBuilder → Registration → TelemetryBuilder
  add_registration builder reg = record builder {
    registrations = builder.registrations ++ reg ∷ [];
  }

  unfoldable pub register_labels_stripped_callback : Callback → TelemetryBuilder → Builds
  register_labels_stripped_callback cb builder = do
    reg ←
        register_callback (λ p. observer_int64 builder.labels_stripped (cb p))
          builder.labels_stripped
    ok (add_registration builder reg)

  unfoldable pub register_savings_estimated_callback : Callback → TelemetryBuilder → Builds
  register_savings_estimated_callback cb builder = do
    reg ←
        register_callback (λ p. observer_float64 builder.savings_estimated (cb p))
          builder.savings_estimated
    ok (add_registration builder reg)

  unfoldable pub register_top_offenders_callback : Callback → TelemetryBuilder → Builds
  register_top_offenders_callback cb builder = do
    reg ← register_callback (λ p. observer_int64 builder.top_offenders (cb p)) builder.top_offenders
    ok (add_registration builder reg)

  unfoldable pub register_trackers_active_callback : Callback → TelemetryBuilder → Builds
  register_trackers_active_callback cb builder = do
    reg ←
        register_callback (λ p. observer_int64 builder.trackers_active (cb p))
          builder.trackers_active
    ok (add_registration builder reg)

  unfoldable pub register_trackers_rejected_callback : Callback → TelemetryBuilder → Builds
  register_trackers_rejected_callback cb builder = do
    reg ←
        register_callback (λ p. observer_int64 builder.trackers_rejected (cb p))
          builder.trackers_rejected
    ok (add_registration builder reg)

  -- `TelemetryBuilder.Shutdown`; the errors of `Unregister` are ignored.
  unfoldable pub unregister_all : List Registration → Provider → Provider
  unregister_all [] pr = pr
  unregister_all (reg ∷ regs) pr = unregister_all regs (unregister reg pr)

  -- `NewTelemetryBuilder` without options.
  unfoldable pub new_telemetry_builder : Provider → (TelemetryBuilder × Option Err) × Provider
  new_telemetry_builder pr =
      let (a, pr₁) =
        instrument int64_counter "otelcol_processor_cardinality_labels.stripped"
          "Total number of high-cardinality labels stripped or tagged. [Alpha]" "{labels}" pr in
      let (b, pr₂) =
        instrument float64_counter "otelcol_processor_cardinality_savings.estimated"
          "Cumulative estimated dollar value of time-series churn prevented by the processor. [Alpha]"
          "{dollars}" pr₁ in
      let (c, pr₃) =
        instrument int64_gauge "otelcol_processor_cardinality_top.offenders"
          "Cardinality delta of the top-N highest-growth (metric, label) pairs from the last epoch rotation. [Alpha]"
          "{pairs}" pr₂ in
      let (d, pr₄) =
        instrument int64_gauge "otelcol_processor_cardinality_trackers.active"
          "Current number of active cardinality trackers across all shards. [Alpha]" "{trackers}"
          pr₃ in
      let (e, pr₅) =
        instrument int64_counter "otelcol_processor_cardinality_trackers.rejected"
          "Number of new (metric, label) pairs ignored because max_tracker_count was reached. [Alpha]"
          "{trackers}" pr₄ in
      (
        (
          record {
            registrations = [];
            labels_stripped = a.0;
            savings_estimated = b.0;
            top_offenders = c.0;
            trackers_active = d.0;
            trackers_rejected = e.0;
          },
          join (join (join (join (join none a.1) b.1) c.1) d.1) e.1,
        ),
        pr₅,
      )

  -- The constructor gives up when an instrument cannot be made.
  abbrev pub checked_builder :
      (TelemetryBuilder × Option Err) × Provider → (Err ⊎ TelemetryBuilder) × Provider
  checked_builder ((builder, none), pr) = (inr builder, pr)
  checked_builder ((builder, some e), pr) = (inl e, pr)

  unfoldable pub make_builder : Builds
  make_builder pr = checked_builder (new_telemetry_builder pr)
