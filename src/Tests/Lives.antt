-- ===== src/Tests/Lives.antt =====
-- The life of a processor whose epoch is so long that the interval of its ticker wraps around, and of
-- one with an epoch of five minutes.
use mathlib.Core.List.Permᴰ
use otel_cardinality_process.Base.{[], ◌∷◌, ◌≤◌, ◌≡◌, ◌↔◌, refl, true, false}
use otel_cardinality_process.Base.Int.{pos, ltb_ℤ}
use otel_cardinality_process.Config.{Config, validate, validate_tail, check_overrides, check_mode}
use otel_cardinality_process.Lifecycle.{
  Life, selecting, returned, crashed, start, shutdown, Reach, begin, later, Steps, stay, step, made,
  host_start, host_shutdown, new_ticker, take_done,
}
use otel_cardinality_process.Lifecycle.Interval.{crashed_iff}
use otel_cardinality_process.Lifecycle.Ticker.{launches-once}
use otel_cardinality_process.Processor.{starting, shutting_down}
use otel_cardinality_process.Tests.World.{strict}

abbrev endless : Config
endless = record strict { epoch_duration_seconds = pos 10_000_000_000 }

crashed_iff_example :
    ((l : Life) × Reach endless l × (l.routine ≡ crashed))
    ↔ (ltb_ℤ (pos 9_223_372_036) (pos 10_000_000_000) ≡ true)
unfolding validate check_overrides validate_tail check_mode
crashed_iff_example = crashed_iff endless (λ s. s) (λ l. l) Permᴰ.nil refl refl

-- Started twice, then shut down, then at its end.
abbrev running : Life
running = record made { started = true; routine = selecting; launches = 1; logs = starting ∷ [] }

abbrev stopping : Life
stopping = record running {
  registered = false;
  canceled = true;
  logs = shutting_down ∷ starting ∷ [];
}

abbrev over : Life
over = record stopping { routine = returned }

stopping-Reach : Reach strict stopping
unfolding start shutdown
stopping-Reach =
    later (later (later (later begin host_start) host_start) (new_ticker refl refl)) host_shutdown

over-Reach : Reach strict over
over-Reach = later stopping-Reach (take_done refl refl)

started_again : Steps strict over over
unfolding start
started_again = step stay host_start

launches-once_example :
    (over.launches ≤ 1) × (over.routine ≡ returned → over.rotations ≡ over.rotations)
launches-once_example = launches-once strict over-Reach started_again
