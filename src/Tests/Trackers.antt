-- ===== src/Tests/Trackers.antt =====
-- The theorems on trackers and on the decisions, at concrete inputs.
use mathlib.Core.Option
use otel_cardinality_process.Base.{
  ℕ, true, ◌+◌, ◌<◌, ◌≡◌, refl, List, [], ◌∷◌, arith, length, take, ite, text_discrete,
}
use otel_cardinality_process.Base.Assoc.{lookup, insert as insert_entry}
use otel_cardinality_process.Processor.{
  key_discrete, find_tracker, get_limit, should_drop, store, get_shard, add_tracker,
  new_cardinality_processor,
}
use otel_cardinality_process.Processor.Accounting.{should_drop-IsValid}
use otel_cardinality_process.Processor.Cases.{key_of}
use otel_cardinality_process.Processor.Decision.{
  exceeds, tracker_for, should_drop_decides, find_tracker-should_drop,
}
use otel_cardinality_process.Tests.World.{
  sketches, sketches-laws, world, start, warm, start-IsValid,
}
use otel_cardinality_process.Tracker.{Tracker, new_tracker, insert}
use otel_cardinality_process.Tracker.Epochs.{
  IsFresh, new_tracker-IsFresh, run_epoch, run_epoch_baseline,
}
use otel_cardinality_process.Tracker.Estimates.{
  covered, insert_all, sketch_of, insert_all-cached_curr,
}

abbrev values : List ℕ
values = 3 ∷ 5 ∷ 3 ∷ []

abbrev first : Tracker (List ℕ)
first = new_tracker sketches

insert_all-cached_curr_example :
    ((insert_all sketches values first).cached_curr
      ≡ sketches.estimate (sketch_of sketches (take (covered (length values)) values) []))
    × ((insert_all sketches values first).current ≡ sketch_of sketches values [])
    × (length values < covered (length values) + 64)
unfolding new_tracker
insert_all-cached_curr_example =
    insert_all-cached_curr sketches sketches-laws first values refl refl refl (omega arith)

run_epoch_baseline_example :
    IsFresh sketches (run_epoch sketches first values)
    × ((run_epoch sketches first values).previous ≡ sketch_of sketches values [])
    × ((run_epoch sketches first values).cached_prev
        ≡ sketches.estimate (sketch_of sketches (take (covered (length values)) values) []))
run_epoch_baseline_example =
    run_epoch_baseline sketches sketches-laws first values (new_tracker-IsFresh sketches)
      (omega arith)

-- The second value of the label exceeds the limit of one.
second_dropped : (should_drop world "reqs" "user" "bc" warm).0 ≡ true
unfolding should_drop get_limit store get_shard lookup insert_entry insert new_tracker
    new_cardinality_processor key_discrete text_discrete add_tracker
second_dropped = refl

should_drop_decides_example :
    (should_drop world "reqs" "user" "bc" warm).0
    ≡ exceeds world (get_limit warm "reqs") 2 (tracker_for world warm (key_of "reqs" "user"))
should_drop_decides_example = should_drop_decides world "reqs" "user" "bc" warm

find_tracker-should_drop_example :
    find_tracker world (should_drop world "reqs" "user" "bc" warm).1 (key_of "reqs" "user")
    ≡ ite
        (key_discrete (key_of "reqs" "user") (key_of "reqs" "user"))
        (Option.map (λ t. (insert sketches 2 t).0) (tracker_for world warm (key_of "reqs" "user")))
        (find_tracker world warm (key_of "reqs" "user"))
find_tracker-should_drop_example =
    find_tracker-should_drop world "reqs" "user" "bc" warm (key_of "reqs" "user")
      (should_drop-IsValid world "reqs" "user" "a" start start-IsValid)
