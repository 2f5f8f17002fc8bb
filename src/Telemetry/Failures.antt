-- ===== src/Telemetry/Failures.antt =====
-- What newCardinalityProcessor of processor.go leaves registered when it fails.
use otel_cardinality_process.Base.{
  ◌≡◌, refl, sym, ap, ◌∙◌, String, none, some, [], ◌∷◌, ◌++◌, ◌⊎◌, inl, inr, if_pos, Option-cases,
}
use otel_cardinality_process.Config.{Config}
use otel_cardinality_process.Processor.{new_cardinality_processor}
use otel_cardinality_process.Telemetry.{
  Sdk, SdkLaws, Float64, TelemetryBuilder, ok, bind_step, ◌>>=◌, register_trackers_active_callback,
  make_builder, observer_int64,
}
use otel_cardinality_process.Telemetry.Callbacks.{register_callbacks, new_processor, observe_active}
use otel_cardinality_process.Telemetry.Constructor.{IsAttached-make_builder, paired, pair_provider}
use otel_cardinality_process.Telemetry.Registrations.{
  Listener, Owns, attach, attached-Owns, Keeps, register_others, IsAttached-register_others,
}

module _ {S : Type 0} (sdk : Sdk S) (laws : SdkLaws sdk) where
  open sdk use {Provider, Registration, Err, register_callback, same, registered}

  -- The callback of the gauge of active trackers.
  abbrev pub active_listener : TelemetryBuilder sdk → Listener sdk laws
  active_listener b q = observer_int64 sdk b.trackers_active (observe_active q)

  -- A registration that succeeds was not in force before, and is then.
  active-registered :
      (pr₁ pr₂ : Provider) (b b₁ : TelemetryBuilder sdk)
      → register_trackers_active_callback sdk observe_active b pr₁ ≡ (inr b₁, pr₂)
      → (r : Registration) × (registered pr₁ r ≡ none)
        × (registered pr₂ r ≡ some (active_listener b))
  unfolding register_trackers_active_callback
  active-registered pr₁ pr₂ b b₁ first =
      by_result (register_callback (active_listener b) b.trackers_active pr₁) refl first
    where
      by_result :
          (res : (Err ⊎ Registration) × Provider)
          → register_callback (active_listener b) b.trackers_active pr₁ ≡ res
          → bind_step {B = TelemetryBuilder sdk}
              (λ reg. ok (record b { registrations = b.registrations ++ reg ∷ [] }))
              res
            ≡ (inr b₁, pr₂)
          → (j : Registration) × (registered pr₁ j ≡ none)
            × (registered pr₂ j ≡ some (active_listener b))
      by_result (inl x, pr₃) q h = cc
      by_result (inr r, pr₃) q h =
          let same_provider : pr₃ ≡ pr₂ = ap (λ x. x.1) h in
          (
            r,
            laws.register-new _ _ pr₁ pr₃ r q,
            ap (λ x. registered x r) (sym same_provider)
                ∙ laws.registered-register _ _ pr₁ pr₃ r r q
                ∙ if_pos (same r r) refl _ _,
          )

  -- What is kept and is not there afterwards was not there before.
  Keeps-none :
      (pr pr' : Provider) (j : Registration)
      → Keeps sdk laws pr pr'
      → registered pr' j ≡ none
      → registered pr j ≡ none
  Keeps-none pr pr' j kept gone = elim (Option-cases (registered pr j)) [
    | inl e ↦ e
    | inr (a, e) ↦ let still = kept j (λ x. cc) in cc
  ]

  -- The provider that a failing constructor leaves.
  last_provider :
      (fl : Float64) (to_lower : String → String) (cfg : Config) (pr pr₁ pr₂ pr' : Provider)
      (b b₁ : TelemetryBuilder sdk) (e : Err)
      → make_builder sdk pr ≡ (inr b, pr₁)
      → register_trackers_active_callback sdk observe_active b pr₁ ≡ (inr b₁, pr₂)
      → new_processor sdk fl to_lower cfg pr ≡ (inl e, pr')
      → (register_others sdk laws fl b₁ pr₂).1 ≡ pr'
  unfolding new_processor register_callbacks
  last_provider fl to_lower cfg pr pr₁ pr₂ pr' b b₁ e made first failed =
      let c = new_cardinality_processor {S = S} to_lower cfg in
      sym (ap (λ x. (bind_step (register_others sdk laws fl) x).1) first)
      ∙ sym (pair_provider sdk laws c (register_callbacks sdk fl b pr₁))
      ∙ sym
          (ap (λ x. (bind_step (λ d. register_callbacks sdk fl d >>= paired sdk laws c) x).1) made)
      ∙ ap (λ x. x.1) failed

  active_owned :
      (pr pr₁ pr₂ : Provider) (b b₁ : TelemetryBuilder sdk)
      → make_builder sdk pr ≡ (inr b, pr₁)
      → register_trackers_active_callback sdk observe_active b pr₁ ≡ (inr b₁, pr₂)
      → Owns sdk laws pr b₁ pr₂
  unfolding register_trackers_active_callback
  active_owned pr pr₁ pr₂ b b₁ made first =
      attached-Owns sdk laws pr pr₁ pr₂ b₁ _
        (attach sdk laws pr (active_listener b) b.trackers_active b pr₁
          (attached-Owns sdk laws pr pr pr₁ b _ (IsAttached-make_builder sdk laws pr) made))
        first

  -- A constructor that fails behind the registration of its first callback leaves that callback
  -- registered: it was not before, and nobody holds a builder that could take it back.
  pub registered-new_processor_error :
      (fl : Float64) (to_lower : String → String) (cfg : Config) (pr pr₁ pr₂ pr' : Provider)
      (b b₁ : TelemetryBuilder sdk) (e : Err)
      → make_builder sdk pr ≡ (inr b, pr₁)
      → register_trackers_active_callback sdk observe_active b pr₁ ≡ (inr b₁, pr₂)
      → new_processor sdk fl to_lower cfg pr ≡ (inl e, pr')
      → (j : Registration) × (registered pr j ≡ none)
        × (registered pr' j ≡ some (active_listener b))
  registered-new_processor_error fl to_lower cfg pr pr₁ pr₂ pr' b b₁ e made first failed =
      let (j, new, live) = active-registered pr₁ pr₂ b b₁ first in
      let made_kept : Keeps sdk laws pr pr₁ = rw made at (IsAttached-make_builder sdk laws pr).0 in
      let kept =
        (IsAttached-register_others sdk laws pr fl b₁ pr₂
          (active_owned pr pr₁ pr₂ b b₁ made first)).0 in
      (
        j,
        Keeps-none pr pr₁ j made_kept new,
        ap (λ x. registered x j)
              (sym (last_provider fl to_lower cfg pr pr₁ pr₂ pr' b b₁ e made first failed))
            ∙ kept j (λ x. cc)
            ∙ live,
      )
