-- ===== src/Tests/Reports.antt =====
-- The theorems on the report of the fastest growing pairs, at concrete inputs.
use mathlib.Core.List.{Perm}
use mathlib.Core.List.Perm
use otel_cardinality_process.Base.{ℕ, List, [], ◌∷◌, ◌++◌, inl, refl, arith}
use otel_cardinality_process.Offenders.{sort_offenders, collect_shard_deltas}
use otel_cardinality_process.Offenders.Sorting.{IsDescending, sort_offenders-IsDescending}
use otel_cardinality_process.Offenders.TopN.{Holds, candidates, collect_shard_deltas-Holds}
use otel_cardinality_process.Base.Int.{pos}
use otel_cardinality_process.Processor.{Offender, TrackerKey}
use otel_cardinality_process.Processor.Cases.{key_of}
use otel_cardinality_process.Tests.World.{sketches}
use otel_cardinality_process.Tracker.{Tracker, new_tracker}

abbrev small : Offender
small = record { metric_name = "reqs"; label_key = "zone"; delta = 2 }

abbrev large : Offender
large = record { metric_name = "reqs"; label_key = "user"; delta = 9 }

abbrev report : List Offender
report = small ∷ large ∷ small ∷ []

sort_offenders-IsDescending_example :
    IsDescending (sort_offenders report) × Perm (sort_offenders report) report
sort_offenders-IsDescending_example = sort_offenders-IsDescending report

abbrev grown : ℕ → Tracker (List ℕ)
grown n = record (new_tracker sketches) { cached_curr = n }

abbrev entries : List (TrackerKey × Tracker (List ℕ))
entries =
    (key_of "reqs" "user", grown 4)
    ∷ (key_of "reqs" "zone", grown 0)
    ∷ (key_of "reqs" "path", grown 7)
    ∷ []

nothing_seen : Holds 1 [] []
nothing_seen = record {
  out = [];
  parts = Perm.refl [];
  largest = tt;
  bounded = omega arith;
  full = inl refl;
}

collect_shard_deltas-Holds_example :
    Holds 1 ([] ++ candidates entries) (collect_shard_deltas entries [] (pos 1))
collect_shard_deltas-Holds_example =
    collect_shard_deltas-Holds 1 entries [] [] (omega arith) nothing_seen
