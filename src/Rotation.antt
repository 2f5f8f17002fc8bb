-- ===== src/Rotation.antt =====
-- The epoch rotation: `rotate` of cardinalityprocessor/processor.go over the shards, with the
-- eviction of idle trackers and the summary of the suppressed drop logs.
pub mod Maps
pub mod Shards
pub mod Epochs
pub mod Summary
use otel_cardinality_process.Base.{
  ℕ, zero, suc, ◌+◌, Bool, true, false, ◌&&◌, List, [], ◌∷◌, ◌++◌, ltb, leb, if◌then◌else◌, length,
  set, ◌==◌,
}
use otel_cardinality_process.Base.Assoc.{insert, delete}
use otel_cardinality_process.Base.Int.{pos, ltb_ℤ, signed64, sub64}
use otel_cardinality_process.External.{Env}
use otel_cardinality_process.Offenders.{collect_shard_deltas, publish_top_offenders}
use otel_cardinality_process.Processor.{
  Processor, Shard, TrackerKey, Offender, key_discrete, num_shards, shard_at, log, rotating,
  evicted, suppressed,
}
use otel_cardinality_process.Tracker.{
  Tracker, rotate as rotate_tracker, must_get_sketch, stale_sweep_epochs,
}

-- The counters behind the loop, and the summary.
unfoldable pub close_epoch : {S : Type 0} → Processor S → Processor S
close_epoch p =
    let count = sub64 p.drops_this_epoch p.drop_log_count in
    let q = record p { rejection_warned = false; drops_this_epoch = 0; drop_log_count = 0 } in
    if ltb_ℤ (pos 0) (signed64 count) then log (suppressed count p.drops_this_epoch) q else q

module _ (env : Env) where
  open env use {Sketch, hll}

  -- A tracker at the end of the epoch, and whether its key is collected for eviction.
  abbrev pub advance : Tracker Sketch → Tracker Sketch × Bool
  advance t =
      let (t', idle) = rotate_tracker hll (must_get_sketch hll) t in
      (t', idle && leb stale_sweep_epochs t'.idle_epochs)

  -- The loop over the entries of the snapshot: each tracker is rotated where the map holds it, and
  -- the stale keys are collected.
  unfoldable pub rotate_entries :
      List (TrackerKey × Tracker Sketch)
      → Shard Sketch
      → List TrackerKey
      → Shard Sketch × List TrackerKey
  rotate_entries [] shard stale_keys = (shard, stale_keys)
  rotate_entries ((key, t) ∷ entries) shard stale_keys =
      let (t', stale) = advance t in
      rotate_entries entries (insert key_discrete key t' shard)
        (if stale then stale_keys ++ key ∷ [] else stale_keys)

  -- The loop over the stale keys, on the map and `trackerCount`.
  unfoldable pub evict : List TrackerKey → Shard Sketch → ℕ → Shard Sketch × ℕ
  evict [] shard count = (shard, count)
  evict (key ∷ keys) shard count = evict keys (delete key_discrete key shard) (sub64 count 1)

  -- One shard. `order` is the order in which the range statement visits the map of shard `i`,
  -- which Go does not fix.
  module _ (order : ℕ → Shard Sketch → Shard Sketch) where
    unfoldable pub rotate_shard :
        ℕ → Processor Sketch × List Offender → Processor Sketch × List Offender
    rotate_shard i (p, top_buf) =
        let entries = order i (shard_at env p i) in
        let (rotated, stale_keys) = rotate_entries entries (shard_at env p i) [] in
        let (swept, count) = evict stale_keys rotated p.tracker_count in
        let q = record p { shards = set p.shards i swept; tracker_count = count } in
        (
          (if ltb 0 (length stale_keys) then log (evicted (length stale_keys)) q else q),
          collect_shard_deltas entries top_buf p.config.top_offenders_count,
        )

    -- The loop over the shards: `left` rounds from index `i`.
    unfoldable pub rotate_shards :
        ℕ → ℕ → Processor Sketch × List Offender → Processor Sketch × List Offender
    unfolding rotate_shard
    rotate_shards zero i s = s
    rotate_shards (suc left) i s = rotate_shards left (i + 1) (rotate_shard i s)

    unfoldable pub rotate : Processor Sketch → Processor Sketch
    unfolding rotate_shards close_epoch
    rotate p =
        let (q, top_buf) = rotate_shards num_shards 0 (log rotating p, []) in
        publish_top_offenders top_buf (close_epoch q)
