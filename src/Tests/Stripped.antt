-- ===== src/Tests/Stripped.antt =====
-- A label that is stripped and logged, and the start of the next epoch.
use otel_cardinality_process.Base.{◌+◌, ◌≡◌, ◌≢◌, refl, [], ◌∷◌, arith}
use otel_cardinality_process.Base.Int.{ℤ, pos}
use otel_cardinality_process.Concurrent.Drops.{
  Counters, Epochs, Reach, start, later, Place, exceeded, switching, noted, granted, reported,
  before, totalled, exceed, count, close, strip, note, within, write, swap_drops, swap_logs,
  tallied,
}
use otel_cardinality_process.Concurrent.Drops.Accounts.{drop_logs-least, drops_accounted}
use otel_cardinality_process.Concurrent.Drops.Ledger.{
  is_stripped, is_noted, is_tested, is_passed, is_logged, places, places_in, least, drop_logs,
  total_of,
}
use otel_cardinality_process.Processor.{dropping}
use otel_cardinality_process.Tests.World.{strict}

-- One label, after its count.
abbrev stage : Place → Counters → Epochs
stage place c = record {
  counters = c;
  drops =
      record {
        metric_name = "requests";
        key = "zone";
        mode = "strip_and_reaggregate";
        place = place;
        epoch = 0;
      }
      ∷ [];
  close = before;
  totals = [];
  tallies = [];
}

abbrev zero_counters : Counters
zero_counters = record { labels_stripped = 0; drops_this_epoch = 0; drop_log_count = 0; logs = [] }

abbrev one_verdict : Counters
one_verdict = record zero_counters { labels_stripped = 1 }

abbrev one_drop : Counters
one_drop = record one_verdict { drops_this_epoch = 1 }

abbrev one_count : Counters
one_count = record one_drop { drop_log_count = 1 }

abbrev one_log : Counters
one_log = record one_count { logs = dropping "requests" "zone" ∷ [] }

abbrev swapped : Epochs
swapped = record (stage reported (record one_log { drops_this_epoch = 0 })) {
  close = totalled 1;
  totals = 1 ∷ [];
}

abbrev next_epoch : Epochs
next_epoch = record swapped {
  counters = record one_log { drops_this_epoch = 0; drop_log_count = 0 };
  close = tallied 1 1;
  tallies = 1 ∷ [];
}

limited : ◌≢◌ {A = ℤ} (pos 2) (pos 0)
limited e = cc

stripped_one : Reach strict (stage exceeded zero_counters)
stripped_one = later start (exceed "requests" "zone" "strip_and_reaggregate")

stripped_noted : Reach strict (stage noted one_drop)
stripped_noted =
    later {s = stage switching one_verdict}
      (later {s = stage exceeded zero_counters} stripped_one (count 0 (omega arith) strip))
      (count 0 (omega arith) (note refl))

next_epoch-Reach : Reach strict next_epoch
next_epoch-Reach =
    later {s = swapped}
      (later {s = stage reported one_log}
        (later {s = stage granted one_count}
          (later {s = stage noted one_drop} stripped_noted
            (count 0 (omega arith) (within limited refl)))
          (count 0 (omega arith) write))
        (close swap_drops))
      (close swap_logs)

drop_logs-least_example :
    (places_in 0 is_passed next_epoch.drops ≡ least 2 (places_in 0 is_tested next_epoch.drops))
    × (drop_logs next_epoch.counters.logs ≡ places is_logged next_epoch.drops)
drop_logs-least_example =
    drop_logs-least strict 2 refl (omega arith) next_epoch-Reach (omega arith) 0

drops_accounted_example :
    (total_of next_epoch.totals + next_epoch.counters.drops_this_epoch
      ≡ places is_noted next_epoch.drops)
    × (total_of next_epoch.tallies + next_epoch.counters.drop_log_count
        ≡ places is_tested next_epoch.drops)
    × (next_epoch.counters.labels_stripped ≡ places is_stripped next_epoch.drops)
drops_accounted_example = drops_accounted strict 2 refl (omega arith) next_epoch-Reach (omega arith)
