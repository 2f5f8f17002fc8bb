-- ===== src/Tests/Threads.antt =====
-- Two calls of shouldDrop in different shards, side by side, where one tracker is allowed.
use otel_cardinality_process.Base.{
  Bool, false, ◌<◌, zero, suc, none, some, get_or, ℕ, ◌+◌, ◌%◌, ◌≤◌, ◌≡◌, refl, true, List, [], ◌∷◌,
  arith, ℕ_discrete, ◌⊎◌,
}
use otel_cardinality_process.Base.Assoc.{lookup}
use otel_cardinality_process.Base.Int.{u64_mod, pos, to_ℕ}
use otel_cardinality_process.Base.Sums.{assign}
use otel_cardinality_process.Concurrent.{
  Memory, at_shard, Sweep, Turn, tick, finished, entered, missed, holding, absent, admitted, stored,
  waiting, miss, lock, miss_again, admit,
}
use otel_cardinality_process.Concurrent.Counts.{owes, size}
use otel_cardinality_process.Concurrent.Agreement.{pointer, Agrees}
use otel_cardinality_process.Concurrent.Determinism.{alone-should_drop}
use otel_cardinality_process.Concurrent.Overshoot.{call_at, next, Reach-next, both_created}
use otel_cardinality_process.Concurrent.Progress.{Ready, HolderSteps, no_deadlock}
use otel_cardinality_process.Concurrent.Refinement.{Alone, RunsAs, empty_memory-Agrees}
use otel_cardinality_process.Concurrent.Safety.{
  size-le, mutual_exclusion, lookup-admitted, tracker_count-size,
}
use otel_cardinality_process.Concurrent.System.{
  no_call, System, empty_memory, arrive, Runs, sweep, Reach, start, later,
}
use otel_cardinality_process.Concurrent.Waits.{rotation_no_deadlock}
use otel_cardinality_process.Concurrent.Creation.{made, Agrees-create}
use otel_cardinality_process.Concurrent.Epoch.{Rotates, look}
use otel_cardinality_process.Concurrent.Epoch.Runs.{rotation-rotate}
use otel_cardinality_process.Config.{Config}
use otel_cardinality_process.Processor.{
  key_discrete, TrackerKey, should_drop, new_cardinality_processor, get_shard, Processor,
  add_tracker, find_tracker,
}
use otel_cardinality_process.Processor.Accounting.{IsLimited, IsValid, add_tracker-IsValid}
use otel_cardinality_process.Processor.Initial.{new_cardinality_processor-IsValid}
use otel_cardinality_process.Rotation.{rotate}
use otel_cardinality_process.Tests.Rotations.{in_order, in_order-Visits}
use otel_cardinality_process.Tests.World.{world, strict}

abbrev pub single : Config
single = record strict { max_tracker_count = pos 1 }

single-IsLimited : IsLimited single.max_tracker_count
single-IsLimited = (refl, refl)

abbrev States : Type 0
States = System (List ℕ)

abbrev pub key_a : TrackerKey
key_a = record { metric_name = "a"; attr_key = "zone" }

abbrev key_b : TrackerKey
key_b = record { metric_name = "bb"; attr_key = "zone" }

-- Both calls have arrived: the second is in front.
abbrev arrived : States
arrived = record {
  mem = empty_memory world single;
  calls =
      record { key = key_b; hash_val = 2; pc = entered }
      ∷ record { key = key_a; hash_val = 1; pc = entered }
      ∷ [];
  sweep = waiting;
}

arrived-Reach : Reach world single arrived
arrived-Reach = later (later start (arrive key_a 1)) (arrive key_b 2)

-- The memory behind the lock of the call in place `j`.
abbrev locking : States → ℕ → Memory (List ℕ)
locking s j = record s.mem {
  locked = assign s.mem.locked (get_shard world (call_at world single s j).key.metric_name) true;
}

-- The states on the way of the call in place `j` to the test of the limit.
abbrev searched : States → ℕ → States
searched s j = next world single s j s.mem missed

abbrev entering : States → ℕ → States
entering s j = next world single (searched s j) j (locking (searched s j) j) holding

abbrev testing : States → ℕ → States
testing s j = next world single (entering s j) j (entering s j).mem absent

abbrev one_testing : States
one_testing = testing arrived 0

abbrev both_testing : States
both_testing = testing one_testing 1

one_testing-Reach : Reach world single one_testing
unfolding get_shard lookup
one_testing-Reach =
    Reach-next world single (entering arrived 0) 0 holding
      (Reach-next world single (searched arrived 0) 0 missed
        (Reach-next world single arrived 0 entered arrived-Reach (omega arith) refl
          (miss refl refl))
        (omega arith) refl (lock refl))
      (omega arith) refl (miss_again refl)

both_testing-Reach : Reach world single both_testing
unfolding get_shard lookup ℕ_discrete
both_testing-Reach =
    Reach-next world single (entering one_testing 1) 1 holding
      (Reach-next world single (searched one_testing 1) 1 missed
        (Reach-next world single one_testing 1 entered one_testing-Reach (omega arith) refl
          (miss refl refl))
        (omega arith) refl (lock refl))
      (omega arith) refl (miss_again refl)

size-le_example :
    (size both_testing.mem ≤ to_ℕ single.max_tracker_count + 255)
    × (both_testing.mem.tracker_count ≤ to_ℕ single.max_tracker_count + 255)
size-le_example = size-le world single single-IsLimited both_testing-Reach

mutual_exclusion_example : ◌≡◌ {A = ℕ} 0 0
mutual_exclusion_example =
    mutual_exclusion world single both_testing-Reach 0 0 (omega arith) (omega arith) refl refl refl

no_deadlock_example :
    Ready world single one_testing.mem key_a 1 entered ⊎ HolderSteps world single one_testing 1
unfolding get_shard
no_deadlock_example = no_deadlock world single one_testing-Reach 1 (omega arith) (λ b e. cc)

both_created_example :
    (t : States) × Runs world single both_testing t
    × ((call_at world single t 0).pc ≡ stored 0)
    × ((call_at world single t 1).pc ≡ stored 1)
    × (pointer world single t.mem key_b ≡ some 0)
    × (pointer world single t.mem key_a ≡ some 1)
    × (size t.mem ≡ size both_testing.mem + 2)
    × (t.mem.tracker_count ≡ 0)
both_created_example =
    both_created world single both_testing-Reach 0 1 (omega arith) (omega arith)
      (λ e. omega (arith, e)) refl refl refl

alone-should_drop_example :
    RunsAs world single key_a 1
      (empty_memory world single)
      (should_drop world "a" "zone" "x" (new_cardinality_processor (λ s. s) single))
    × ((u : Memory (List ℕ)) (b : Bool)
        → Alone world single key_a 1 (empty_memory world single) entered u (finished b)
        → (b ≡ (should_drop world "a" "zone" "x" (new_cardinality_processor (λ s. s) single)).0)
          × Agrees world single u
              (should_drop world "a" "zone" "x" (new_cardinality_processor (λ s. s) single)).1)
alone-should_drop_example =
    alone-should_drop world single "a" "zone" "x" (empty_memory world single)
      (new_cardinality_processor (λ s. s) single) (empty_memory-Agrees world single (λ s. s))
      (λ i. refl)

-- The second call has passed the test.
abbrev one_admitted : States
one_admitted = next world single both_testing 0 both_testing.mem admitted

one_admitted-Reach : Reach world single one_admitted
one_admitted-Reach =
    Reach-next world single both_testing 0 absent both_testing-Reach (omega arith) refl (admit refl)

lookup-admitted_example : lookup key_discrete key_b (one_admitted.mem.shards 2) ≡ none
unfolding get_shard
lookup-admitted_example = lookup-admitted world single one_admitted-Reach 0 (omega arith) refl

tracker_count-size_example : one_admitted.mem.tracker_count ≡ size one_admitted.mem % u64_mod
tracker_count-size_example = tracker_count-size world single one_admitted-Reach settled refl
  where
    settled : (j : ℕ) → j < 2 → owes (get_or one_admitted.calls j no_call).pc ≡ 0
    settled zero lt = refl
    settled (suc zero) lt = refl
    settled (suc (suc j)) lt = absurd (omega (arith, lt))

-- A rotation behind the write of a first tracker.
abbrev first_tracker : Memory (List ℕ)
first_tracker = record (made world single (empty_memory world single) key_a) { tracker_count = 1 }

abbrev with_first : Processor (List ℕ)
with_first = add_tracker world key_a (new_cardinality_processor (λ s. s) single)

first_tracker-Agrees : Agrees world single first_tracker with_first
first_tracker-Agrees =
    Agrees-create world single (empty_memory world single)
      (new_cardinality_processor (λ s. s) single) (empty_memory-Agrees world single (λ s. s)) key_a

with_first-IsValid : IsValid world with_first
unfolding new_cardinality_processor lookup get_shard
with_first-IsValid =
    add_tracker-IsValid world (new_cardinality_processor (λ s. s) single) key_a refl refl
      (new_cardinality_processor-IsValid world (λ s. s) single)

rotation-rotate_example :
    ((u : Memory (List ℕ)) × Rotates world single first_tracker u waiting)
    × ((u : Memory (List ℕ))
        → Rotates world single first_tracker u waiting
        → ((k : TrackerKey)
            → look world single u k ≡ find_tracker world (rotate world in_order with_first) k)
          × (u.rejection_warned ≡ false))
rotation-rotate_example =
    rotation-rotate world single first_tracker with_first first_tracker-Agrees in_order
      in_order-Visits with_first-IsValid (λ i. refl)

-- The rotation is about to visit the shard that the other call holds.
abbrev visiting : States
visiting = record one_testing { sweep = at_shard 0 }

visiting-Reach : Reach world single visiting
visiting-Reach = later {s = one_testing} one_testing-Reach (sweep tick)

rotation_no_deadlock_example :
    ((m : Memory (List ℕ)) × (w : Sweep) × Turn world single visiting.mem (at_shard 0) m w)
    ⊎ ((visiting.mem.locked 0 ≡ true) × HolderSteps world single visiting 0)
rotation_no_deadlock_example = rotation_no_deadlock world single visiting-Reach
