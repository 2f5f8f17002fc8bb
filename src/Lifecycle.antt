-- ===== src/Lifecycle.antt =====
-- Start and Shutdown of processor.go, and the goroutine with the ticker between them. The channels
-- of the ticker and of the context are those of Go: a ticker's channel holds one tick at most, and a
-- select takes any of its cases that is ready.
pub mod Ticker
pub mod Interval
use otel_cardinality_process.Base.{
  ℕ, suc, ◌+◌, ◌*◌, ◌%◌, ◌≡◌, Bool, true, false, List, [], ◌∷◌, ltb,
}
use otel_cardinality_process.Base.Int.{ℤ, pos, negsuc, to_uint64, signed64, u64_mod, leb_ℤ, ltb_ℤ}
use otel_cardinality_process.Config.{Config}
use otel_cardinality_process.Processor.{Log, starting, shutting_down}

-- `time.Duration(EpochDurationSeconds) * time.Second`, an `int64` of nanoseconds.
abbrev pub interval : Config → ℤ
interval cfg = signed64 ((to_uint64 cfg.epoch_duration_seconds * 1_000_000_000) % u64_mod)

-- Where the goroutine that Start launches stands. `crashed` is the panic of NewTicker at an interval
-- that is not positive.
pub data Routine : Type 0 where
  absent launched selecting rotating returned crashed : Routine

-- `started` is the flag of `startOnce`, `pending` says that the ticker's channel holds a tick,
-- `canceled` that the child context is done, `registered` that the callbacks are in force, and
-- `rotations` counts the calls of `rotate`, whose own effects are elsewhere. `logs` holds the
-- records of Start and Shutdown, newest first.
pub record Life : Type 0 where
  pub started : Bool
  pub routine : Routine
  pub pending : Bool
  pub canceled : Bool
  pub registered : Bool
  pub launches : ℕ
  pub rotations : ℕ
  pub logs : List Log

-- What newCardinalityProcessor leaves.
abbrev pub made : Life
made = record {
  started = false;
  routine = absent;
  pending = false;
  canceled = false;
  registered = true;
  launches = 0;
  rotations = 0;
  logs = [];
}

-- `Start`.
abbrev pub start_once : Bool → Life → Life
start_once true l = l
start_once false l = record l {
  started = true;
  routine = launched;
  launches = suc l.launches;
  logs = starting ∷ l.logs;
}

unfoldable pub start : Life → Life
start l = start_once l.started l

-- `Shutdown`: the callbacks first, then the context.
unfoldable pub shutdown : Life → Life
shutdown l = record l { registered = false; canceled = true; logs = shutting_down ∷ l.logs }

module _ (cfg : Config) where
  pub data Step (l : Life) : Life → Type 0 where
    host_start : Step l (start l)
    host_shutdown : Step l (shutdown l)
    -- The context that the constructor was given ends, and its child with it.
    parent_done : Step l (record l { canceled = true })
    new_ticker :
        l.routine ≡ launched
        → ltb_ℤ (pos 0) (interval cfg) ≡ true
        → Step l (record l { routine = selecting })
    new_ticker_panics :
        l.routine ≡ launched
        → ltb_ℤ (pos 0) (interval cfg) ≡ false
        → Step l (record l { routine = crashed })
    -- The ticker fires while the goroutine selects or rotates; a tick that finds the channel full is lost.
    fire_selecting : l.routine ≡ selecting → Step l (record l { pending = true })
    fire_rotating : l.routine ≡ rotating → Step l (record l { pending = true })
    take_tick :
        l.routine ≡ selecting
        → l.pending ≡ true
        → Step l (record l { pending = false; routine = rotating; rotations = suc l.rotations })
    rotated : l.routine ≡ rotating → Step l (record l { routine = selecting })
    take_done : l.routine ≡ selecting → l.canceled ≡ true → Step l (record l { routine = returned })

  pub data Reach : Life → Type 0 where
    begin : Reach made
    later : {l l' : Life} → Reach l → Step l l' → Reach l'

  -- Steps from one state to another.
  pub data Steps (l : Life) : Life → Type 0 where
    stay : Steps l l
    step : {l' l'' : Life} → Steps l l' → Step l' l'' → Steps l l''
