-- ===== src/Metadatatest/Instruments.antt =====
-- The expectations of generated_telemetrytest.go against the instruments that NewTelemetryBuilder of
-- generated_telemetry.go makes.
use text.Mathlib.Text.{◌==◌}
use text.Mathlib.TextEquality.{eq_iff}
use otel_cardinality_process.Base.{
  ◌≡◌, ◌≢◌, refl, sym, ap, ◌∙◌, String, true, false, Option, none, some, List, ◌⊎◌, inr,
}
use otel_cardinality_process.Metadatatest.{
  Aggregation, sum_int64, sum_float64, gauge_int64, cumulative, Reader, Metrics, assert_got,
  assert_equal_labels_stripped, assert_equal_savings_estimated, assert_equal_top_offenders,
  assert_equal_trackers_active, assert_equal_trackers_rejected,
}
use otel_cardinality_process.Telemetry.{
  Sdk, SdkLaws, Kind, int64_counter, float64_counter, int64_gauge, new_telemetry_builder,
}

-- What an instrument was made with.
pub record Made : Type 0 where
  pub kind : Kind
  pub description : String
  pub unit : String

differ : (s t : String) → (s == t) ≡ false → s ≢ t
differ s t e q = let h : true ≡ false = sym ((eq_iff s t).1 q) ∙ e in cc

-- What the provider keeps of its instruments, by name: one that is made without an error is kept as
-- it was made, and no other changes.
pub record Catalog {S : Type 0} (sdk : Sdk S) : Type 0 where
  pub made : sdk.Provider → String → Option Made
  pub made-instrument :
      (k : Kind) (name description unit : String) (pr : sdk.Provider)
      → (sdk.instrument k name description unit pr).0.1 ≡ none
      → made (sdk.instrument k name description unit pr).1 name
        ≡ some (record { kind = k; description = description; unit = unit })
  pub made-other :
      (k : Kind) (name description unit : String) (pr : sdk.Provider) (other : String)
      → name ≢ other
      → made (sdk.instrument k name description unit pr).1 other ≡ made pr other

-- The points that were collected, by the name of their instrument.
pub record Collected (Int64Point Float64Point : Type 0) : Type 0 where
  pub int64_points : String → List Int64Point
  pub float64_points : String → List Float64Point

-- The data that the SDK makes of an instrument of each kind.
abbrev pub content_of : {I F : Type 0} → Kind → String → Collected I F → Aggregation I F
content_of int64_counter name c = sum_int64 cumulative true (c.int64_points name)
content_of float64_counter name c = sum_float64 cumulative true (c.float64_points name)
content_of int64_gauge name c = gauge_int64 (c.int64_points name)

module _ (reader : Reader) where
  open reader use {Int64Point, Float64Point, Telemetry, Options, get_metric, equal}

  -- The reader gives each instrument of the provider with what it was made with.
  abbrev pub Reads : Telemetry → (String → Option Made) → Collected Int64Point Float64Point → Type 0
  Reads tel made c =
      (name : String) (x : Made)
      → made name ≡ some x
      → get_metric tel name
        ≡ inr (record {
          name = name;
          description = x.description;
          unit = x.unit;
          content = content_of x.kind name c;
        })

  module _ {S : Type 0} (sdk : Sdk S) (laws : SdkLaws sdk) (catalog : Catalog sdk)
      (pr : sdk.Provider) where
    open catalog use {made, made-instrument, made-other}

    abbrev built : String → Option Made
    built = made (new_telemetry_builder sdk pr).1

    -- When no instrument failed, the reader gives the instruments of the provider with what they were
    -- made with, and a metric equals itself, each of the five assertions passes on the points that were
    -- collected under its name: its name, description, unit and kind of data are those of the instrument
    -- that NewTelemetryBuilder makes.
    pub assert_equal-instruments :
        (tel : Telemetry) (opts : Options) (c : Collected Int64Point Float64Point)
        → (new_telemetry_builder sdk pr).0.1 ≡ none
        → Reads tel built c
        → ((m : Metrics Int64Point Float64Point) → equal m m opts ≡ true)
        → (assert_equal_labels_stripped reader tel
              (c.int64_points "otelcol_processor_cardinality_labels.stripped")
              opts
            ≡ true)
          × (assert_equal_savings_estimated reader tel
                (c.float64_points "otelcol_processor_cardinality_savings.estimated")
                opts
              ≡ true)
          × (assert_equal_top_offenders reader tel
                (c.int64_points "otelcol_processor_cardinality_top.offenders")
                opts
              ≡ true)
          × (assert_equal_trackers_active reader tel
                (c.int64_points "otelcol_processor_cardinality_trackers.active")
                opts
              ≡ true)
          × (assert_equal_trackers_rejected reader tel
                (c.int64_points "otelcol_processor_cardinality_trackers.rejected")
                opts
              ≡ true)
    unfolding assert_equal_labels_stripped assert_equal_savings_estimated assert_equal_top_offenders
        assert_equal_trackers_active assert_equal_trackers_rejected new_telemetry_builder
    assert_equal-instruments tel opts c fine reads same =
        let (fine₄, ok₅) = (laws.join-none _ _).0 fine in
        let (fine₃, ok₄) = (laws.join-none _ _).0 fine₄ in
        let (fine₂, ok₃) = (laws.join-none _ _).0 fine₃ in
        let (fine₁, ok₂) = (laws.join-none _ _).0 fine₂ in
        let (nothing, ok₁) = (laws.join-none _ _).0 fine₁ in
        (
          passes (
              reads _ _
                (past refl ∙ past refl ∙ past refl ∙ past refl ∙ made-instrument _ _ _ _ _ ok₁)),
          passes (reads _ _ (past refl ∙ past refl ∙ past refl ∙ made-instrument _ _ _ _ _ ok₂)),
          passes (reads _ _ (past refl ∙ past refl ∙ made-instrument _ _ _ _ _ ok₃)),
          passes (reads _ _ (past refl ∙ made-instrument _ _ _ _ _ ok₄)),
          passes (reads _ _ (made-instrument _ _ _ _ _ ok₅)),
        )
      where
        passes :
            {w : Metrics Int64Point Float64Point}
            {got : reader.Err ⊎ Metrics Int64Point Float64Point}
            → got ≡ inr w
            → assert_got reader w got opts ≡ true
        passes {w} e = ap (λ g. assert_got reader w g opts) e ∙ same w

        past :
            {k : Kind} {name description unit : String} {before : sdk.Provider} {other : String}
            → (name == other) ≡ false
            → made (sdk.instrument k name description unit before).1 other ≡ made before other
        past e = made-other _ _ _ _ _ _ (differ _ _ e)
