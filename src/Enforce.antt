-- ===== src/Enforce.antt =====
-- The enforcement on one attribute map: handleAttributesWithMode of
-- cardinalityprocessor/processor.go and the callback that it hands to `RemoveIf`.
pub mod Verdicts
pub mod Modes
pub mod Protected
pub mod Counts
use otel_cardinality_process.Base.{
  String, ◌≡◌, Bool, true, false, List, [], ◌∷◌, ◌++◌, ◌==◌, if◌then◌else◌, ite, text_discrete,
}
use otel_cardinality_process.Base.Int.{ℤ, pos, negsuc, leb_ℤ, signed64, add64}
use otel_cardinality_process.Config.{
  enforcement_tag_only, enforcement_overflow_attribute, enforcement_strip_and_reaggregate,
  overflow_sentinel,
}
use otel_cardinality_process.External.{Env, Attrs}
use otel_cardinality_process.Processor.{Processor, log, dropping, is_protected, should_drop}

abbrev pub overflow_key : String
overflow_key = "otel.metric.overflow"

-- What the callback changes: the processor, and the local variables of the function.
pub record Pass (S : Type 0) : Type 0 where
  pub proc : Processor S
  pub should_tag : Bool
  pub overflow_keys : List String

abbrev pub is_zero : ℤ → Bool
is_zero (pos n) = n == 0
is_zero (negsuc n) = false

-- The counters and the log record of a label that is stripped. With no limit the second counter
-- is not touched, since `||` stops.
unfoldable pub note_drop : {S : Type 0} → String → String → Processor S → Processor S
note_drop metric_name k p =
    let max_log = p.config.drop_log_max_per_epoch in
    let dropped = record p { drops_this_epoch = add64 p.drops_this_epoch 1 } in
    let counted = record dropped { drop_log_count = add64 p.drop_log_count 1 } in
    if is_zero max_log
    then log (dropping metric_name k) dropped
    else if leb_ℤ (signed64 counted.drop_log_count) max_log
    then log (dropping metric_name k) counted
    else counted

-- The switch on the mode, for an attribute that exceeds its limit.
unfoldable pub enforce : {S : Type 0} → String → String → String → Pass S → Bool × Pass S
enforce mode metric_name k s =
    ite (text_discrete mode enforcement_tag_only) (false, record s { should_tag = true })
      (ite (text_discrete mode enforcement_overflow_attribute)
        (false, record s { overflow_keys = s.overflow_keys ++ k ∷ [] })
        (ite (text_discrete mode enforcement_strip_and_reaggregate)
          (true, record s { proc = note_drop metric_name k s.proc }) (false, s)))

module _ (env : Env) where
  open env use {Sketch, Value, as_string, bool_value, str_value, put, remove_if}

  abbrev pub enforce_dropped :
      String → String → String → Bool × Processor Sketch → Pass Sketch → Bool × Pass Sketch
  enforce_dropped mode metric_name k (true, p) s =
      enforce mode metric_name k
        (record s { proc = record p { labels_stripped = add64 p.labels_stripped 1 } })
  enforce_dropped mode metric_name k (false, p) s = (false, record s { proc = p })

  -- The callback of `RemoveIf`.
  unfoldable pub check_attribute :
      String → String → String × Value → Pass Sketch → Bool × Pass Sketch
  check_attribute mode metric_name (k, v) s =
      if is_protected s.proc k
      then (false, s)
      else enforce_dropped mode metric_name k (should_drop env metric_name k (as_string v) s.proc) s

  abbrev pub put_sentinels : List String → Attrs Value → Attrs Value
  put_sentinels [] attrs = attrs
  put_sentinels (k ∷ ks) attrs = put_sentinels ks (put k (str_value overflow_sentinel) attrs)

  abbrev pub start_pass : Processor Sketch → Pass Sketch
  start_pass p = record { proc = p; should_tag = false; overflow_keys = [] }

  -- The mutations that wait until the iteration is over.
  abbrev pub finish : Attrs Value × Pass Sketch → Attrs Value × Processor Sketch
  finish (attrs, s) = (
    put_sentinels s.overflow_keys
        (if s.should_tag then put overflow_key (bool_value true) attrs else attrs),
    s.proc,
  )

  unfoldable pub handle_attributes_with_mode :
      String → Attrs Value → String → Processor Sketch → Attrs Value × Processor Sketch
  handle_attributes_with_mode metric_name attrs mode p = finish (
      remove_if (Pass Sketch) (String × Value) (check_attribute mode metric_name) attrs
        (start_pass p))

  unfoldable pub handle_attributes :
      String → Attrs Value → Processor Sketch → Attrs Value × Processor Sketch
  handle_attributes metric_name attrs p =
      handle_attributes_with_mode metric_name attrs p.enforcement_mode p
