-- ===== src/Tracker.antt =====
-- The trackers of cardinalityprocessor/processor.go: two HyperLogLog sketches, their cached
-- estimates and the epoch bookkeeping of one (metric, label) pair.
pub mod Estimates
pub mod Epochs
use Prim.Native.Nat.{bit_and}
use otel_cardinality_process.Base.{ℕ, ◌+◌, ◌-◌, Bool, ◌||◌, List, [], ◌∷◌, leb, ◌==◌, if◌then◌else◌}
use otel_cardinality_process.Base.Int.{add64}
use otel_cardinality_process.External.{Hll}

abbrev pub stale_sweep_epochs : ℕ
stale_sweep_epochs = 2

abbrev pub estimate_interval : ℕ
estimate_interval = 64

-- The mutex is left out: a tracker's methods hold it from their first line to their last.
-- `idle_epochs` is an `int`, which the eviction keeps below `stale_sweep_epochs` in the map.
pub record Tracker (S : Type 0) : Type 0 where
  pub current : S
  pub previous : S
  pub cached_curr : ℕ
  pub cached_prev : ℕ
  pub insert_count : ℕ
  pub idle_epochs : ℕ

-- The test in `insert`: a refresh on each of the first 64 inserts, then on every 64th.
abbrev pub refreshes : ℕ → Bool
refreshes count = leb count estimate_interval || bit_and count (estimate_interval - 1) == 0

module _ (h : Hll) where
  open h use {Sketch, new14, insert_hash, estimate}

  -- The new tracker, and the results `curr` and `prev`.
  unfoldable pub insert : ℕ → Tracker Sketch → Tracker Sketch × ℕ × ℕ
  insert hash_val t =
      let current : Sketch = insert_hash hash_val t.current in
      let count : ℕ = add64 t.insert_count 1 in
      let curr : ℕ = if refreshes count then estimate current else t.cached_curr in
      (
        record t { current = current; insert_count = count; cached_curr = curr },
        curr,
        t.cached_prev,
      )

  -- The new tracker, and whether it was idle in the epoch that ends.
  unfoldable pub rotate : Sketch → Tracker Sketch → Tracker Sketch × Bool
  rotate fresh t =
      let idle : Bool = t.insert_count == 0 in
      (
        record {
          current = fresh;
          previous = t.current;
          cached_curr = 0;
          cached_prev = t.cached_curr;
          insert_count = 0;
          idle_epochs = if idle then t.idle_epochs + 1 else 0;
        },
        idle,
      )

  -- `mustGetSketch`: nothing is ever put back in the pool, so it hands out what `New` makes.
  unfoldable pub must_get_sketch : Sketch
  must_get_sketch = new14

  unfoldable pub new_tracker : Tracker Sketch
  unfolding must_get_sketch
  new_tracker = record {
    current = must_get_sketch;
    previous = must_get_sketch;
    cached_curr = 0;
    cached_prev = 0;
    insert_count = 0;
    idle_epochs = 0;
  }
