-- ===== src/Tests/Readings.antt =====
-- A concrete catalog of instruments, and the assertions of the test helpers on it.
use text.Mathlib.Text.{◌==◌}
use text.Mathlib.TextEquality.{eq_iff}
use otel_cardinality_process.Base.{
  ℕ, ◌≡◌, refl, ◌∙◌, String, Bool, true, ◌&&◌, ite, Option, none, some, List, [], ◌∷◌, ◌⊎◌, inl,
  inr, ℕ_discrete, text_discrete, if_pos, if_neg,
}
use otel_cardinality_process.Base.Assoc.{lookup, insert, lookup-insert}
use otel_cardinality_process.Metadatatest.{
  Reader, Metrics, assert_equal_labels_stripped, assert_equal_savings_estimated,
  assert_equal_top_offenders, assert_equal_trackers_active, assert_equal_trackers_rejected,
}
use otel_cardinality_process.Metadatatest.Instruments.{
  Made, Catalog, Collected, content_of, Reads, assert_equal-instruments,
}
use otel_cardinality_process.Telemetry.{Sdk, SdkLaws, new_telemetry_builder}
use otel_cardinality_process.Tests.Meters.{join_first, join_first-none}

abbrev Instruments : Type 0
Instruments = List (String × Made)

-- Every registration fails.
abbrev shelf : Sdk (List ℕ)
shelf = record {
  Provider = Instruments;
  Instrument = String;
  Registration = ℕ;
  Err = ℕ;
  join = join_first;
  instrument = λ k name description unit pr. (
    (name, none),
    insert text_discrete name (record { kind = k; description = description; unit = unit }) pr,
  );
  register_callback = λ cb i pr. (inl 0, pr);
  unregister = λ r pr. pr;
  same = ℕ_discrete;
  registered = λ pr r. none;
}

unregistered : {A B : Type 0} (d : Dec B) → ◌≡◌ {A = Option A} none (ite d none none)
unregistered (yes q) = refl
unregistered (no n) = refl

shelf-laws : SdkLaws shelf
shelf-laws = record {
  join-none = join_first-none;
  registered-instrument = λ k name description unit pr r. refl;
  register-new = λ cb i pr pr' r e. refl;
  registered-register = λ cb i pr pr' r j e. cc;
  registered-error = λ cb i pr pr' x j e. refl;
  registered-unregister = λ r j pr. unregistered (ℕ_discrete r j);
}

abbrev catalog : Catalog shelf
catalog = record {
  made = λ pr name. lookup text_discrete name pr;
  made-instrument = λ k name description unit pr fine.
      lookup-insert text_discrete name name _ pr ∙ if_pos (text_discrete name name) refl _ _;
  made-other = λ k name description unit pr other n.
      lookup-insert text_discrete name other _ pr ∙ if_neg (text_discrete name other) n _ _;
}

-- What was made, and the points.
abbrev Shelved : Type 0
Shelved = Instruments × Collected ℕ ℕ

abbrev shown : String → Collected ℕ ℕ → Option Made → ℕ ⊎ Metrics ℕ ℕ
shown name c none = inl 0
shown name c (some x) = inr (record {
  name = name;
  description = x.description;
  unit = x.unit;
  content = content_of x.kind name c;
})

abbrev same_header : Metrics ℕ ℕ → Metrics ℕ ℕ → ℕ → Bool
same_header m n opts = (m.name == n.name) && (m.description == n.description) && (m.unit == n.unit)

abbrev shop : Reader
shop = record {
  Int64Point = ℕ;
  Float64Point = ℕ;
  Telemetry = Shelved;
  Err = ℕ;
  Options = ℕ;
  get_metric = λ s name. shown name s.1 (lookup text_discrete name s.0);
  equal = same_header;
  Settings = ℕ;
  nop_settings = 0;
  set_id = λ id s. s;
  new_telemetry_settings = λ s n. n;
}

same_text : (s : String) → (s == s) ≡ true
same_text s = (eq_iff s s).1 refl

abbrev points : Collected ℕ ℕ
points = record { int64_points = λ name. 3 ∷ []; float64_points = λ name. 4 ∷ [] }

abbrev built : Instruments
built = (new_telemetry_builder shelf []).1

shop-Reads : Reads shop (built, points) (catalog.made built) points
shop-Reads name x e = rw e refl

abbrev Passed : Bool → Type 0
Passed b = b ≡ true

assert_equal-instruments_example :
    Passed (
      assert_equal_labels_stripped shop
        (built, points)
        (points.int64_points "otelcol_processor_cardinality_labels.stripped")
        0)
    × Passed (
        assert_equal_savings_estimated shop
          (built, points)
          (points.float64_points "otelcol_processor_cardinality_savings.estimated")
          0)
    × Passed (
        assert_equal_top_offenders shop
          (built, points)
          (points.int64_points "otelcol_processor_cardinality_top.offenders")
          0)
    × Passed (
        assert_equal_trackers_active shop
          (built, points)
          (points.int64_points "otelcol_processor_cardinality_trackers.active")
          0)
    × Passed (
        assert_equal_trackers_rejected shop
          (built, points)
          (points.int64_points "otelcol_processor_cardinality_trackers.rejected")
          0)
unfolding new_telemetry_builder
assert_equal-instruments_example =
    assert_equal-instruments shop shelf shelf-laws catalog [] (built, points) 0 points refl
      shop-Reads (λ m. rw (same_text m.name, same_text m.description, same_text m.unit) refl)
