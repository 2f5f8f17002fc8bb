-- ===== src/Concurrent/System.antt =====
-- The goroutines of processor.go together: any number of calls of shouldDrop, and the one that
-- rotates.
use otel_cardinality_process.Base.{ℕ, ◌<◌, false, List, [], ◌∷◌, length, get_or, set}
use otel_cardinality_process.Concurrent.{Memory, Pc, entered, Call, Sweep, waiting, Move, Turn}
use otel_cardinality_process.Config.{Config}
use otel_cardinality_process.External.{Env}
use otel_cardinality_process.Processor.{TrackerKey}
use otel_cardinality_process.Tracker.{new_tracker}

pub record System (S : Type 0) : Type 0 where
  pub mem : Memory S
  pub calls : List Call
  pub sweep : Sweep

abbrev pub no_call : Call
no_call = record { key = record { metric_name = ""; attr_key = "" }; hash_val = 0; pc = entered }

module _ (env : Env) (cfg : Config) where
  open env use {Sketch, hll}

  -- The memory of a new processor.
  abbrev pub empty_memory : Memory Sketch
  empty_memory = record {
    heap = λ a. new_tracker hll;
    fresh = 0;
    shards = λ i. [];
    locked = λ i. false;
    tracker_count = 0;
    trackers_rejected = 0;
    rejection_warned = false;
    logs = [];
  }

  pub data Step (s : System Sketch) : System Sketch → Type 0 where
    arrive :
        (key : TrackerKey) (hash_val : ℕ)
        → Step s
            (record s { calls = record { key = key; hash_val = hash_val; pc = entered } ∷ s.calls })
    call :
        (j : ℕ) {m : Memory Sketch} {pc : Pc}
        → j < length s.calls
        → Move env cfg s.mem
            (get_or s.calls j no_call).key
            (get_or s.calls j no_call).hash_val
            (get_or s.calls j no_call).pc
            m
            pc
        → Step s (record s {
          mem = m;
          calls = set s.calls j (record (get_or s.calls j no_call) { pc = pc });
        })
    sweep :
        {m : Memory Sketch} {w : Sweep}
        → Turn env cfg s.mem s.sweep m w
        → Step s (record s { mem = m; sweep = w })

  pub data Reach : System Sketch → Type 0 where
    start : Reach (record { mem = empty_memory; calls = []; sweep = waiting })
    later : {s t : System Sketch} → Reach s → Step s t → Reach t

  -- What the goroutines can reach from a state.
  pub data Runs (s : System Sketch) : System Sketch → Type 0 where
    here : Runs s s
    further : {t u : System Sketch} → Runs s t → Step t u → Runs s u
