-- ===== src/Telemetry/Registrations.antt =====
-- Which callbacks are registered while newCardinalityProcessor of processor.go runs, and after
-- Shutdown.
use otel_cardinality_process.Base.{
  ◌≡◌, ◌≢◌, refl, sym, ap, ◌∙◌, Option, none, List, [], ◌∷◌, ◌++◌, ◌⊎◌, inl, inr, ite, if_pos,
  if_neg,
}
use otel_cardinality_process.Processor.{Processor}
use otel_cardinality_process.Telemetry.{
  Sdk, SdkLaws, Observation, Float64, TelemetryBuilder, ok, bind_step, ◌>>=◌, Builds,
  register_labels_stripped_callback, register_savings_estimated_callback,
  register_top_offenders_callback, register_trackers_active_callback,
  register_trackers_rejected_callback, unregister_all,
}
use otel_cardinality_process.Telemetry.Callbacks.{
  register_callbacks, observe_active, observe_stripped, observe_savings, observe_rejected,
  observe_offenders,
}

ite_swap :
    {P Q A : Type 0} (d : Dec P) (e : Dec Q) (o : Option A)
    → ite d none (ite e none o) ≡ ite e none (ite d none o)
ite_swap (yes p) (yes q) o = refl
ite_swap (yes p) (no n) o = refl
ite_swap (no n) (yes q) o = refl
ite_swap (no n) (no m) o = refl

module _ {S : Type 0} (sdk : Sdk S) (laws : SdkLaws sdk) where
  open sdk use {
    Provider, Instrument, Registration, Err, join, register_callback, unregister, same, registered,
  }

  abbrev pub Listener : Type 0
  Listener = Processor S → List (Observation Instrument)

  -- The provider without the registrations of a list.
  abbrev pub without : List Registration → Provider → Registration → Option Listener
  without [] pr j = registered pr j
  without (r ∷ rs) pr j = ite (same r j) none (without rs pr j)

  -- What is registered but for the builder's own registrations was registered before.
  abbrev pub Owns : Provider → TelemetryBuilder sdk → Provider → Type 0
  Owns pr₀ b pr = (j : Registration) → without b.registrations pr j ≡ registered pr₀ j

  without-append :
      (rs : List Registration) (r : Registration) (cb : Listener) (i : Instrument)
      (pr pr' : Provider)
      → register_callback cb i pr ≡ (inr r, pr')
      → (j : Registration) → without (rs ++ r ∷ []) pr' j ≡ without rs pr j
  without-append [] r cb i pr pr' e j = elim (same r j) [
    | yes q ↦
        if_pos (same r j) q _ _ ∙ sym (laws.register-new cb i pr pr' r e) ∙ ap (registered pr) q
    | no n ↦
        if_neg (same r j) n _ _
        ∙ laws.registered-register cb i pr pr' r j e
        ∙ if_neg (same r j) n _ _
  ]
  without-append (k ∷ rs) r cb i pr pr' e j =
      ap (ite (same k j) none) (without-append rs r cb i pr pr' e j)

  -- A registration that was in force stays in force.
  abbrev pub Keeps : Provider → Provider → Type 0
  Keeps pr pr' = (j : Registration) → registered pr j ≢ none → registered pr' j ≡ registered pr j

  -- What a registration does to the provider, whatever it returns.
  register-Keeps :
      (cb : Listener) (i : Instrument) (pr : Provider) → Keeps pr (register_callback cb i pr).1
  register-Keeps cb i pr = by_result (register_callback cb i pr) refl
    where
      by_result :
          (res : (Err ⊎ Registration) × Provider)
          → register_callback cb i pr ≡ res
          → Keeps pr (register_callback cb i pr).1
      by_result (inl e, pr') q j live =
          ap (λ x. registered x.1 j) q ∙ laws.registered-error cb i pr pr' e j q
      by_result (inr r, pr') q j live = ap (λ x. registered x.1 j) q ∙ (elim (same r j) [
        | yes here ↦
            absurd (live (ap (registered pr) (sym here) ∙ laws.register-new cb i pr pr' r q))
        | no n ↦ laws.registered-register cb i pr pr' r j q ∙ if_neg (same r j) n _ _
      ])

  pub unregister_all_lem :
      (rs : List Registration) (pr : Provider) (j : Registration)
      → registered (unregister_all sdk rs pr) j ≡ without rs pr j
  unfolding unregister_all
  unregister_all_lem [] pr j = refl
  unregister_all_lem (r ∷ rs) pr j =
      unregister_all_lem rs (unregister r pr) j ∙ without-unregister rs
    where
      without-unregister :
          (rs : List Registration)
          → without rs (unregister r pr) j ≡ ite (same r j) none (without rs pr j)
      without-unregister [] = laws.registered-unregister r j pr
      without-unregister (k ∷ rs) =
          ap (ite (same k j) none) (without-unregister rs)
          ∙ ite_swap (same k j) (same r j) (without rs pr j)

  -- What the result of a step is, on a provider `pr` that came from `pr₀`.
  abbrev pub OwnsIn : Provider → Err ⊎ TelemetryBuilder sdk → Provider → Type 0
  OwnsIn pr₀ (inl e) pr' = Unit
  OwnsIn pr₀ (inr b) pr' = Owns pr₀ b pr'

  abbrev pub IsAttached : Provider → Provider → (Err ⊎ TelemetryBuilder sdk) × Provider → Type 0
  IsAttached pr₀ pr res = Keeps pr res.1 × OwnsIn pr₀ res.0 res.1

  -- The registrations behind the first.
  abbrev pub register_others : Float64 → TelemetryBuilder sdk → Builds sdk
  register_others fl b₁ = do
    b₂ ← register_labels_stripped_callback sdk observe_stripped b₁
    b₃ ← register_savings_estimated_callback sdk (observe_savings fl) b₂
    b₄ ← register_trackers_rejected_callback sdk observe_rejected b₃
    register_top_offenders_callback sdk observe_offenders b₄

  module _ (pr₀ : Provider) where
    -- A registration that succeeds is the builder's.
    pub attach :
        (cb : Listener) (i : Instrument) (b : TelemetryBuilder sdk) (pr : Provider)
        → Owns pr₀ b pr
        → IsAttached pr₀ pr (
            (register_callback cb i >>= λ reg.
            ok (record b { registrations = b.registrations ++ reg ∷ [] }))
              pr)
    attach cb i b pr owned = by_result (register_callback cb i pr) refl (register-Keeps cb i pr)
      where
        by_result :
            (res : (Err ⊎ Registration) × Provider)
            → register_callback cb i pr ≡ res
            → Keeps pr (register_callback cb i pr).1
            → IsAttached pr₀ pr (
                (register_callback cb i >>= λ reg.
                ok (record b { registrations = b.registrations ++ reg ∷ [] }))
                  pr)
        by_result (inl e, pr') q kept = rw q (rw q at kept, tt)
        by_result (inr r, pr') q kept =
            rw q (rw q at kept, λ j. without-append b.registrations r cb i pr pr' q j ∙ owned j)

    -- Two steps, one after the other.
    pub attach_next :
        (m : Builds sdk) (f : TelemetryBuilder sdk → Builds sdk) (pr : Provider)
        → IsAttached pr₀ pr (m pr)
        → ((b : TelemetryBuilder sdk) (pr' : Provider)
            → Owns pr₀ b pr'
            → IsAttached pr₀ pr' (f b pr'))
        → IsAttached pr₀ pr ((m >>= f) pr)
    attach_next m f pr h next = by_result (m pr) h
      where
        by_result :
            (res : (Err ⊎ TelemetryBuilder sdk) × Provider)
            → IsAttached pr₀ pr res
            → IsAttached pr₀ pr (bind_step f res)
        by_result (inl e, pr') h = h
        by_result (inr b, pr') h =
            let (kept, owned) = next b pr' h.1 in
            (λ j live. kept j (λ e. live (sym (h.0 j live) ∙ e)) ∙ h.0 j live, owned)

    pub IsAttached-register_others :
        (fl : Float64) (b : TelemetryBuilder sdk) (pr : Provider)
        → Owns pr₀ b pr
        → IsAttached pr₀ pr (register_others fl b pr)
    unfolding register_labels_stripped_callback register_savings_estimated_callback
        register_trackers_rejected_callback register_top_offenders_callback
    IsAttached-register_others fl b₁ pr₁ o₁ =
        attach_next (register_labels_stripped_callback sdk observe_stripped b₁) _ pr₁
          (attach _ _ b₁ pr₁ o₁)
          (λ b₂ pr₂ o₂.
            attach_next (register_savings_estimated_callback sdk (observe_savings fl) b₂) _ pr₂
              (attach _ _ b₂ pr₂ o₂)
              (λ b₃ pr₃ o₃.
                attach_next (register_trackers_rejected_callback sdk observe_rejected b₃) _ pr₃
                  (attach _ _ b₃ pr₃ o₃) (λ b₄ pr₄ o₄. attach _ _ b₄ pr₄ o₄)))

    pub IsAttached-register_callbacks :
        (fl : Float64) (b : TelemetryBuilder sdk) (pr : Provider)
        → Owns pr₀ b pr
        → IsAttached pr₀ pr (register_callbacks sdk fl b pr)
    unfolding register_callbacks register_trackers_active_callback
    IsAttached-register_callbacks fl b pr owned =
        attach_next (register_trackers_active_callback sdk observe_active b) (register_others fl) pr
          (attach _ _ b pr owned) (IsAttached-register_others fl)

  pub attached-Owns :
      (pr₀ pr pr' : Provider) (b : TelemetryBuilder sdk)
      (res : (Err ⊎ TelemetryBuilder sdk) × Provider)
      → IsAttached pr₀ pr res
      → res ≡ (inr b, pr')
      → Owns pr₀ b pr'
  attached-Owns pr₀ pr pr' b res h e = (rw e at h).1
