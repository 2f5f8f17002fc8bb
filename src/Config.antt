-- ===== src/Config.antt =====
-- cardinalityprocessor/config.go, and the defaults of cardinalityprocessor/factory.go. An `int` is
-- an integer; a float64 is its IEEE 754 bit pattern.
pub mod Validation
use otel_cardinality_process.Base.{
  ℕ, ◌+◌, ◌^◌, String, Bool, false, not, ◌&&◌, ◌||◌, Option, none, some, List, [], ◌∷◌, ltb, leb,
  if◌then◌else◌,
}
use otel_cardinality_process.Base.Int.{ℤ, pos, leb_ℤ, ltb_ℤ}
use text.Mathlib.Text.{◌==◌ as str_eq}

-- Go maps from metric names to limits are association lists.
pub record Config : Type 0 where
  pub max_cardinality_delta_per_epoch : ℤ
  pub epoch_duration_seconds : ℤ
  pub never_drop_labels : List String
  pub tag_only : Bool
  pub enforcement_mode : String
  pub estimated_cost_per_metric_month : ℕ
  pub top_offenders_count : ℤ
  pub max_tracker_count : ℤ
  pub metric_overrides : List (String × ℤ)
  pub drop_log_max_per_epoch : ℤ

abbrev pub enforcement_tag_only : String
enforcement_tag_only = "tag_only"

abbrev pub enforcement_overflow_attribute : String
enforcement_overflow_attribute = "overflow_attribute"

abbrev pub enforcement_strip_and_reaggregate : String
enforcement_strip_and_reaggregate = "strip_and_reaggregate"

abbrev pub overflow_sentinel : String
overflow_sentinel = "otel.cardinality_overflow"

-- `x < 0` of a float64: the sign bit is set, and the rest is neither zero nor NaN.
abbrev pub float_negative : ℕ → Bool
float_negative w = ltb (2 ^ 63) w && leb w (2 ^ 63 + 0x7ff0000000000000)

pub data Error : Type 0 where
  delta_not_positive epoch_too_short cost_negative : Error
  offenders_out_of_range trackers_out_of_range : Error
  override_empty_name : Error
  override_not_positive : String → Error
  drop_log_negative : Error
  unknown_mode : String → Error

-- The loop over `MetricOverrides`, in the order of the range statement.
unfoldable pub check_overrides : List (String × ℤ) → Option Error
check_overrides [] = none
check_overrides ((name, limit) ∷ rest) =
    if str_eq name ""
    then some override_empty_name
    else if leb_ℤ limit (pos 0)
    then some (override_not_positive name)
    else check_overrides rest

-- `to_lower` is `strings.ToLower`.
module _ (to_lower : String → String) where
  unfoldable pub resolved_enforcement_mode : Config → String
  resolved_enforcement_mode c =
      if not (str_eq c.enforcement_mode "")
      then to_lower c.enforcement_mode
      else if c.tag_only
      then enforcement_tag_only
      else enforcement_strip_and_reaggregate

  unfoldable pub check_mode : Config → Option Error
  check_mode c =
      if not (str_eq c.enforcement_mode "")
      then if str_eq (to_lower c.enforcement_mode) enforcement_tag_only
          || str_eq (to_lower c.enforcement_mode) enforcement_overflow_attribute
          || str_eq (to_lower c.enforcement_mode) enforcement_strip_and_reaggregate
        then none
        else some (unknown_mode c.enforcement_mode)
      else none

  -- The checks behind the overrides, and those before them. `order` is the order in which the
  -- range statement visits the overrides, which Go does not fix.
  unfoldable pub validate_tail : Config → Option Error
  unfolding check_mode
  validate_tail c =
      if ltb_ℤ c.drop_log_max_per_epoch (pos 0) then some drop_log_negative else check_mode c

  unfoldable pub validate : (List (String × ℤ) → List (String × ℤ)) → Config → Option Error
  unfolding check_overrides validate_tail
  validate order c =
      if leb_ℤ c.max_cardinality_delta_per_epoch (pos 0)
      then some delta_not_positive
      else if ltb_ℤ c.epoch_duration_seconds (pos 10)
      then some epoch_too_short
      else if float_negative c.estimated_cost_per_metric_month
      then some cost_negative
      else if ltb_ℤ c.top_offenders_count (pos 0) || ltb_ℤ (pos 500) c.top_offenders_count
      then some offenders_out_of_range
      else if ltb_ℤ c.max_tracker_count (pos 0) || ltb_ℤ (pos 10_000_000) c.max_tracker_count
      then some trackers_out_of_range
      else elim (check_overrides (order c.metric_overrides)) [
        | some e ↦ some e
        | none ↦ validate_tail c
      ]

-- The bit pattern of 0.05.
unfoldable pub create_default_config : Config
create_default_config = record {
  max_cardinality_delta_per_epoch = pos 100;
  epoch_duration_seconds = pos 300;
  never_drop_labels = "http.status_code" ∷ "region" ∷ [];
  tag_only = false;
  enforcement_mode = "";
  estimated_cost_per_metric_month = 0x3fa999999999999a;
  top_offenders_count = pos 10;
  max_tracker_count = pos 0;
  metric_overrides = [];
  drop_log_max_per_epoch = pos 10;
}
