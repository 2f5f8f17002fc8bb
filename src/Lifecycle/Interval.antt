-- ===== src/Lifecycle/Interval.antt =====
-- The interval of the ticker of processor.go, for configurations that Validate of config.go accepts.
use mathlib.Core.List.{Permᴰ}
use otel_cardinality_process.Base.{
  ◌*◌, ◌%◌, ◌≡◌, ◌≢◌, ◌↔◌, refl, sym, ap, ◌∙◌, inl, inr, String, List, true, false, none,
  Bool-cases, arith,
}
use otel_cardinality_process.Base.Int.{ℤ, pos, negsuc, ltb_ℤ, leb_ℤ, to_uint64, signed64, u64_mod}
use otel_cardinality_process.Config.{Config, validate}
use otel_cardinality_process.Config.Validation.{validate-none}
use otel_cardinality_process.Lifecycle.{
  Life, Routine, absent, launched, selecting, rotating, returned, crashed, interval, start,
  shutdown, Reach, begin, later, Steps, stay, step, host_start, host_shutdown, parent_done,
  new_ticker, new_ticker_panics, fire_selecting, fire_rotating, take_tick, rotated, take_done,
}
use otel_cardinality_process.Lifecycle.Ticker.{start_again, start_first}

abbrev interval_of : ℤ → ℤ
interval_of seconds = signed64 ((to_uint64 seconds * 1_000_000_000) % u64_mod)

-- Up to 9,223,372,036 seconds the nanoseconds fit an `int64`; then up to 18,446,744,073 they are
-- negative.
interval_fits :
    (seconds : ℤ)
    → leb_ℤ (pos 10) seconds ≡ true
    → ltb_ℤ (pos 9_223_372_036) seconds ≡ false
    → ltb_ℤ (pos 0) (interval_of seconds) ≡ true
interval_fits (pos n) low high = ground arith
interval_fits (negsuc n) low high = cc

interval_wraps :
    (seconds : ℤ)
    → ltb_ℤ (pos 9_223_372_036) seconds ≡ true
    → leb_ℤ seconds (pos 18_446_744_073) ≡ true
    → ltb_ℤ (pos 0) (interval_of seconds) ≡ false
interval_wraps (pos n) low high = ground arith
interval_wraps (negsuc n) low high = cc

module _ (cfg : Config) where
  start-crashed :
      (l : Life)
      → (l.routine ≡ crashed → ltb_ℤ (pos 0) (interval cfg) ≡ false)
      → (start l).routine ≡ crashed
      → ltb_ℤ (pos 0) (interval cfg) ≡ false
  start-crashed l h e = elim (Bool-cases l.started) [
    | inl f ↦ h (sym (ap (λ (k : Life). k.routine) (start_again l f)) ∙ e)
    | inr f ↦
        let new : launched ≡ crashed = sym (ap (λ (k : Life). k.routine) (start_first l f)) ∙ e in
        cc
  ]

  -- Only an interval that is not positive makes the goroutine panic.
  Reach-crashed :
      {l : Life} → Reach cfg l → l.routine ≡ crashed → ltb_ℤ (pos 0) (interval cfg) ≡ false
  unfolding shutdown
  Reach-crashed begin e = cc
  Reach-crashed (later {l} r host_start) e = start-crashed l (Reach-crashed r) e
  Reach-crashed (later r host_shutdown) e = Reach-crashed r e
  Reach-crashed (later r parent_done) e = Reach-crashed r e
  Reach-crashed (later r (new_ticker f p)) e = cc
  Reach-crashed (later r (new_ticker_panics f p)) e = p
  Reach-crashed (later r (fire_selecting f)) e = Reach-crashed r e
  Reach-crashed (later r (fire_rotating f)) e = Reach-crashed r e
  Reach-crashed (later r (take_tick f p)) e = cc
  Reach-crashed (later r (rotated f)) e = cc
  Reach-crashed (later r (take_done f p)) e = cc

  -- Wherever the goroutine stands when the context is done, it can return without another rotation,
  -- if its interval is positive.
  pub canceled-returns :
      {l : Life}
      → Reach cfg l
      → l.canceled ≡ true
      → ltb_ℤ (pos 0) (interval cfg) ≡ true
      → l.routine ≢ absent
      → (l' : Life) × Steps cfg l l' × (l'.routine ≡ returned) × (l'.rotations ≡ l.rotations)
  canceled-returns {l} r done positive there = from l.routine refl
    where
      from :
          (x : Routine)
          → l.routine ≡ x
          → (l' : Life) × Steps cfg l l' × (l'.routine ≡ returned) × (l'.rotations ≡ l.rotations)
      from absent e = absurd (there e)
      from launched e =
          (_, step (step stay (new_ticker e positive)) (take_done refl done), refl, refl)
      from selecting e = (_, step stay (take_done e done), refl, refl)
      from rotating e = (_, step (step stay (rotated e)) (take_done refl done), refl, refl)
      from returned e = (l, stay, e, refl)
      from crashed e = let not_positive = Reach-crashed r e in cc

  -- Start crashes when the interval is not positive.
  start-crashes :
      ltb_ℤ (pos 0) (interval cfg) ≡ false → (l : Life) × Reach cfg l × (l.routine ≡ crashed)
  unfolding start
  start-crashes p = (_, later (later begin host_start) (new_ticker_panics refl p), refl)

  -- For a configuration that Validate accepts, with an epoch of at most 18,446,744,073 seconds: Start
  -- can make the goroutine panic exactly when the epoch is longer than 9,223,372,036 seconds, where
  -- the nanoseconds of the interval do not fit an `int64`.
  pub crashed_iff :
      (to_lower : String → String) (order : List (String × ℤ) → List (String × ℤ))
      → Permᴰ (order cfg.metric_overrides) cfg.metric_overrides
      → validate to_lower order cfg ≡ none
      → leb_ℤ cfg.epoch_duration_seconds (pos 18_446_744_073) ≡ true
      → ((l : Life) × Reach cfg l × (l.routine ≡ crashed))
        ↔ (ltb_ℤ (pos 9_223_372_036) cfg.epoch_duration_seconds ≡ true)
  crashed_iff to_lower order visits valid short =
      let accepted = (validate-none to_lower order cfg visits).0 valid in
      (
        λ h. elim (Bool-cases (ltb_ℤ (pos 9_223_372_036) cfg.epoch_duration_seconds)) [
          | inl e ↦ e
          | inr e ↦
              let (l, r, c) = h in
              let positive = interval_fits cfg.epoch_duration_seconds accepted.epoch e in
              let not_positive = Reach-crashed r c in cc
        ],
        λ h. start-crashes (interval_wraps cfg.epoch_duration_seconds h short),
      )
