-- ===== src/Tests/World.antt =====
-- Concrete sketches, hashes and containers, for which the laws hold: a sketch is the list of the
-- distinct hashes, a hash is a length, and a slice is a list.
use Prim.Native.String.{len}
use otel_cardinality_process.Base.{
  ℕ, ◌%◌, refl, String, Bool, true, false, List, [], ◌∷◌, ◌++◌, arith, length, ◌==◌, if◌then◌else◌,
  text_discrete, ◌+◌,
}
use otel_cardinality_process.Base.Assoc.{insert, lookup-insert}
use otel_cardinality_process.Base.Int.{pos, u64_mod}
use otel_cardinality_process.Config.{Config}
use otel_cardinality_process.External.{Hll, HllLaws, Pdata, PdataLaws, Env, retain}
use otel_cardinality_process.Processor.{Processor, new_cardinality_processor, should_drop}
use otel_cardinality_process.Processor.Accounting.{IsValid}
use otel_cardinality_process.Processor.Initial.{new_cardinality_processor-IsValid}
use otel_cardinality_process.Reaggregate.{Floats}

abbrev add_distinct : ℕ → List ℕ → List ℕ
add_distinct n [] = n ∷ []
add_distinct n (m ∷ ms) = if n == m then m ∷ ms else m ∷ add_distinct n ms

abbrev pub sketches : Hll
sketches = record {
  Sketch = List ℕ;
  new14 = [];
  insert_hash = add_distinct;
  estimate = λ s. length s % u64_mod;
}

pub sketches-laws : HllLaws sketches
sketches-laws = record { estimate-new14 = refl; estimate-lt = λ s. omega arith }

pub data Value : Type 0 where
  flag : Bool → Value
  text : String → Value

abbrev show : Value → String
show (flag true) = "true"
show (flag false) = "false"
show (text s) = s

abbrev pub containers : Pdata
containers = record {
  Value = Value;
  as_string = show;
  bool_value = flag;
  str_value = text;
  remove_if = retain;
  put = λ k v m. insert text_discrete k v m;
  Exemplar = ℕ;
  move_and_append_to = λ src dst. dst ++ src;
}

pub containers-laws : PdataLaws containers
containers-laws = record {
  remove_if_lem = λ S E f l s. refl;
  lookup-put = λ k j v m. lookup-insert text_discrete k j v m;
  as_string-str_value = λ s. refl;
  move_and_append_to_lem = λ src dst. refl;
}

abbrev pub world : Env
world = record { hll = sketches; pdata = containers; sum64 = len; shard_hash = len }

abbrev pub floats : Floats
floats = record { add = λ a b. a + b; of_int = λ n. n }

-- One new value per epoch, two trackers at most, and two drop logs.
abbrev pub strict : Config
strict = record {
  max_cardinality_delta_per_epoch = pos 1;
  epoch_duration_seconds = pos 300;
  never_drop_labels = "region" ∷ [];
  tag_only = false;
  enforcement_mode = "";
  estimated_cost_per_metric_month = 0;
  top_offenders_count = pos 10;
  max_tracker_count = pos 2;
  metric_overrides = [];
  drop_log_max_per_epoch = pos 2;
}

abbrev pub start : Processor (List ℕ)
start = new_cardinality_processor (λ s. s) strict

-- The state after the first value of the label "user", which fits.
abbrev pub warm : Processor (List ℕ)
warm = (should_drop world "reqs" "user" "a" start).1

pub start-IsValid : IsValid world start
start-IsValid = new_cardinality_processor-IsValid world (λ s. s) strict
