-- ===== src/Tests/Settings.antt =====
-- The theorems on the validation of a configuration, at concrete inputs.
use mathlib.Core.List.Permᴰ
use otel_cardinality_process.Base.{String, ◌≡◌, refl, none, List, [], ◌∷◌}
use otel_cardinality_process.Base.Int.{ℤ, pos}
use otel_cardinality_process.Config.{
  Config, validate, validate_tail, check_overrides, check_mode, create_default_config,
}
use otel_cardinality_process.Tests.World.{strict}

abbrev same : String → String
same s = s

abbrev in_order : List (String × ℤ) → List (String × ℤ)
in_order l = l

abbrev limits : List (String × ℤ)
limits = ("reqs", pos 7) ∷ []

abbrev overridden : Config
overridden = record strict { metric_overrides = limits }

-- The defaults pass.
defaults_pass : validate same in_order create_default_config ≡ none
unfolding validate validate_tail check_overrides check_mode create_default_config
defaults_pass = refl

overridden_passes : validate same in_order overridden ≡ none
unfolding validate validate_tail check_overrides check_mode
overridden_passes = refl
