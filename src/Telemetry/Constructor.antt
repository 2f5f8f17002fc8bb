-- ===== src/Telemetry/Constructor.antt =====
-- What newCardinalityProcessor of processor.go registers, and Shutdown takes back.
use otel_cardinality_process.Base.{
  ◌≡◌, refl, sym, ap, ◌∙◌, String, Option, none, some, [], ◌⊎◌, inl, inr,
}
use otel_cardinality_process.Config.{Config}
use otel_cardinality_process.Processor.{Processor, new_cardinality_processor}
use otel_cardinality_process.Telemetry.{
  Sdk, SdkLaws, Float64, TelemetryBuilder, Try, ok, bind_step, ◌>>=◌, Builds, make_builder,
  new_telemetry_builder, unregister_all, checked_builder,
}
use otel_cardinality_process.Telemetry.Callbacks.{register_callbacks, new_processor}
use otel_cardinality_process.Telemetry.Registrations.{
  without, IsAttached, attach_next, IsAttached-register_callbacks, unregister_all_lem,
  attached-Owns,
}

module _ {S : Type 0} (sdk : Sdk S) (laws : SdkLaws sdk) where
  open sdk use {
    Provider, Instrument, Registration, Err, join, register_callback, unregister, same, registered,
  }

  -- Making the instruments registers nothing.
  registered-new_telemetry_builder :
      (pr : Provider) (j : Registration)
      → registered (new_telemetry_builder sdk pr).1 j ≡ registered pr j
  unfolding new_telemetry_builder
  registered-new_telemetry_builder pr j =
      laws.registered-instrument _ _ _ _ _ j
      ∙ laws.registered-instrument _ _ _ _ _ j
      ∙ laws.registered-instrument _ _ _ _ _ j
      ∙ laws.registered-instrument _ _ _ _ _ j
      ∙ laws.registered-instrument _ _ _ _ pr j

  registrations-new_telemetry_builder :
      (pr : Provider) → (new_telemetry_builder sdk pr).0.0.registrations ≡ []
  unfolding new_telemetry_builder
  registrations-new_telemetry_builder pr = refl

  pub IsAttached-make_builder : (pr : Provider) → IsAttached sdk laws pr pr (make_builder sdk pr)
  unfolding make_builder
  IsAttached-make_builder pr =
      checked (new_telemetry_builder sdk pr) (registered-new_telemetry_builder pr)
        (registrations-new_telemetry_builder pr)
    where
      checked :
          (res : (TelemetryBuilder sdk × Option Err) × Provider)
          → ((j : Registration) → registered res.1 j ≡ registered pr j)
          → res.0.0.registrations ≡ []
          → IsAttached sdk laws pr pr (checked_builder sdk res)
      checked ((b, none), pr') kept new =
          (λ j live. kept j, λ j. ap (λ rs. without sdk laws rs pr' j) new ∙ kept j)
      checked ((b, some e), pr') kept new = (λ j live. kept j, tt)

  -- The constructor up to its result.
  IsAttached-all :
      (fl : Float64) (pr : Provider)
      → IsAttached sdk laws pr pr ((make_builder sdk >>= register_callbacks sdk fl) pr)
  IsAttached-all fl pr =
      attach_next sdk laws pr (make_builder sdk) (register_callbacks sdk fl) pr
        (IsAttached-make_builder pr)
        (λ b pr' owned. IsAttached-register_callbacks sdk laws pr fl b pr' owned)

  abbrev pub paired :
      Processor S → TelemetryBuilder sdk → Try Provider Err (Processor S × TelemetryBuilder sdk)
  paired c t = ok (c, t)

  -- The last step of the constructor changes no registration.
  pair_ok :
      (c : Processor S) (res : (Err ⊎ TelemetryBuilder sdk) × Provider) {p : Processor S}
      {b : TelemetryBuilder sdk} {pr' : Provider}
      → bind_step (paired c) res ≡ (inr (p, b), pr')
      → res ≡ (inr b, pr')
  pair_ok c (inl e, pr) h = cc
  pair_ok c (inr t, pr) h = cc

  pub pair_provider :
      (c : Processor S) (res : (Err ⊎ TelemetryBuilder sdk) × Provider)
      → (bind_step (paired c) res).1 ≡ res.1
  pair_provider c (inl e, pr) = refl
  pair_provider c (inr t, pr) = refl

  -- The order of the two binds does not matter.
  bind_assoc :
      (c : Processor S) (f : TelemetryBuilder sdk → Builds sdk)
      (res : (Err ⊎ TelemetryBuilder sdk) × Provider)
      → bind_step (λ b. f b >>= paired c) res ≡ bind_step (paired c) (bind_step f res)
  bind_assoc c f (inl e, pr) = refl
  bind_assoc c f (inr b, pr) = refl

  -- A constructor that succeeds, and `Shutdown` of its telemetry after it, leave nothing behind: what
  -- is registered then is what was registered before.
  pub unregister_all-new_processor :
      (fl : Float64) (to_lower : String → String) (cfg : Config) (pr pr' : Provider)
      (p : Processor S) (b : TelemetryBuilder sdk)
      → new_processor sdk fl to_lower cfg pr ≡ (inr (p, b), pr')
      → (j : Registration) → registered (unregister_all sdk b.registrations pr') j ≡ registered pr j
  unfolding new_processor
  unregister_all-new_processor fl to_lower cfg pr pr' p b e j =
      unregister_all_lem sdk laws b.registrations pr' j
      ∙ attached-Owns sdk laws pr pr pr' b _ (IsAttached-all fl pr)
          (pair_ok (new_cardinality_processor to_lower cfg) _ (
            sym (
              bind_assoc (new_cardinality_processor to_lower cfg) (register_callbacks sdk fl)
                (make_builder sdk pr))
            ∙ e))
          j
