-- ===== src/Concurrent.antt =====
-- Calls of shouldDrop and the rotation of cardinalityprocessor/processor.go, run by several
-- goroutines at once. A step is one access to the shared memory, or a section that runs under a
-- tracker's mutex or under a read lock, in which nobody writes. The shards' maps hold pointers.
pub mod System
pub mod Counts
pub mod Invariant
pub mod Lookups
pub mod Calls
pub mod Sweeps
pub mod Safety
pub mod Progress
pub mod Waits
pub mod Overshoot
pub mod Agreement
pub mod Creation
pub mod Refinement
pub mod Determinism
pub mod Epoch
pub mod Stale
pub mod Drops
use otel_cardinality_process.Base.{
  ℕ, zero, suc, ◌+◌, ◌-◌, ◌<◌, ◌≡◌, String, Bool, true, false, ◌&&◌, Option, none, some, List, [],
  ◌∷◌, ◌++◌, leb, ltb, if◌then◌else◌,
}
use otel_cardinality_process.Base.Assoc.{lookup, insert, delete, IsMap}
use otel_cardinality_process.Base.Int.{add64, sub64, sub_words}
use otel_cardinality_process.Base.Sums.{assign}
use otel_cardinality_process.Config.{Config}
use otel_cardinality_process.External.{Env}
use otel_cardinality_process.Processor.{
  TrackerKey, Log, limit_reached, key_discrete, get_shard, config_limit, at_limit,
}
use otel_cardinality_process.Rotation.{advance}
use otel_cardinality_process.Tracker.{Tracker, insert as insert_hash, new_tracker}

-- The map of a shard, from keys to the addresses of trackers.
abbrev pub Pointers : Type 0
Pointers = List (TrackerKey × ℕ)

-- The fields of the processor that these goroutines share. Trackers live in a heap, where the next
-- free address is `fresh`; `locked i` says that the write lock of shard `i` is held.
pub record Memory (S : Type 0) : Type 0 where
  pub heap : ℕ → Tracker S
  pub fresh : ℕ
  pub shards : ℕ → Pointers
  pub locked : ℕ → Bool
  pub tracker_count : ℕ
  pub trackers_rejected : ℕ
  pub rejection_warned : Bool
  pub logs : List Log

-- Where a call of `shouldDrop` stands, with the pointer that it holds there.
pub data Pc : Type 0 where
  entered : Pc  -- before the read lock of phase 1
  missed : Pc  -- before `shard.mu.Lock()`
  holding : Pc  -- before the second lookup
  absent : Pc  -- before the test of MaxTrackerCount
  admitted : Pc  -- before the new tracker is written to the map
  stored : ℕ → Pc  -- before `trackerCount.Add(1)`
  leaving : ℕ → Pc  -- before `shard.mu.Unlock()`
  refused : Pc  -- before the unlock of a refusal
  rejected : Pc  -- before `trackersRejected.Add(1)`
  warning : Pc  -- before `rejectionWarned.CompareAndSwap`
  measuring : ℕ → Pc  -- before `t.insert`
  finished : Bool → Pc

-- A call, with its key and the hash of its value.
pub record Call : Type 0 where
  pub key : TrackerKey
  pub hash_val : ℕ
  pub pc : Pc

-- Where `rotate` stands. A list of entries is what is left of a shard's snapshot.
pub data Sweep : Type 0 where
  waiting : Sweep  -- for the ticker
  at_shard : ℕ → Sweep  -- before the read lock of the shard
  turning : ℕ → Pointers → List TrackerKey → Sweep
  stale : ℕ → List TrackerKey → Sweep  -- before `shard.mu.Lock()`
  evicting : ℕ → List TrackerKey → Sweep  -- before the next `delete`
  evicted : ℕ → List TrackerKey → Sweep  -- before `trackerCount.Add(-1)`
  closing : Sweep  -- before `rejectionWarned.Store(false)`

module _ (env : Env) (cfg : Config) where
  open env use {Sketch, hll}

  -- The verdict of a call, from the results of `t.insert`.
  abbrev pub verdict_of : TrackerKey → ℕ → ℕ → Bool
  verdict_of key curr prev =
      if leb curr prev then false else ltb (config_limit cfg key.metric_name) (sub_words curr prev)

  module _ (m : Memory Sketch) (key : TrackerKey) (hash_val : ℕ) where
    abbrev home : ℕ
    home = get_shard env key.metric_name

    -- One step of a call.
    pub data Move : Pc → Memory Sketch → Pc → Type 0 where
      find :
          {a : ℕ}
          → m.locked home ≡ false
          → lookup key_discrete key (m.shards home) ≡ some a
          → Move entered m (measuring a)
      miss :
          m.locked home ≡ false
          → lookup key_discrete key (m.shards home) ≡ none
          → Move entered m missed
      lock :
          m.locked home ≡ false
          → Move missed (record m { locked = assign m.locked home true }) holding
      find_again :
          {a : ℕ} → lookup key_discrete key (m.shards home) ≡ some a → Move holding m (leaving a)
      miss_again : lookup key_discrete key (m.shards home) ≡ none → Move holding m absent
      admit : at_limit cfg m.tracker_count ≡ false → Move absent m admitted
      refuse : at_limit cfg m.tracker_count ≡ true → Move absent m refused
      create :
          Move admitted
            (record m {
              heap = assign m.heap m.fresh (new_tracker hll);
              fresh = suc m.fresh;
              shards = assign m.shards home (insert key_discrete key m.fresh (m.shards home));
            })
            (stored m.fresh)
      count :
          {a : ℕ}
          → Move (stored a) (record m { tracker_count = add64 m.tracker_count 1 }) (leaving a)
      unlock :
          {a : ℕ}
          → Move (leaving a) (record m { locked = assign m.locked home false }) (measuring a)
      unlock_refused : Move refused (record m { locked = assign m.locked home false }) rejected
      reject : Move rejected (record m { trackers_rejected = add64 m.trackers_rejected 1 }) warning
      warn :
          m.rejection_warned ≡ false
          → Move warning
              (record m {
                rejection_warned = true;
                logs = limit_reached cfg.max_tracker_count ∷ m.logs;
              })
              (finished false)
      warned : m.rejection_warned ≡ true → Move warning m (finished false)
      measure :
          {a : ℕ}
          → Move
              (measuring a)
              (record m { heap = assign m.heap a (insert_hash hll hash_val (m.heap a)).0 })
              (finished (
                verdict_of key
                  (insert_hash hll hash_val (m.heap a)).1
                  (insert_hash hll hash_val (m.heap a)).2))

  module _ (m : Memory Sketch) where
    -- One step of `rotate`, without its report.
    pub data Turn : Sweep → Memory Sketch → Sweep → Type 0 where
      tick : Turn waiting m (at_shard 0)
      -- The range statement visits each entry once, in some order.
      snapshot :
          {i : ℕ} (entries : Pointers)
          → i < 256
          → m.locked i ≡ false
          → IsMap key_discrete entries
          → ((k : TrackerKey) → lookup key_discrete k entries ≡ lookup key_discrete k (m.shards i))
          → Turn (at_shard i) m (turning i entries [])
      turn :
          {i a : ℕ} {k : TrackerKey} {entries : Pointers} {ks : List TrackerKey}
          → Turn
              (turning i ((k, a) ∷ entries) ks)
              (record m { heap = assign m.heap a (advance env (m.heap a)).0 })
              (turning i entries (if (advance env (m.heap a)).1 then ks ++ k ∷ [] else ks))
      none_stale : {i : ℕ} → Turn (turning i [] []) m (at_shard (suc i))
      some_stale :
          {i : ℕ} {k : TrackerKey} {ks : List TrackerKey}
          → Turn (turning i [] (k ∷ ks)) m (stale i (k ∷ ks))
      lock :
          {i : ℕ} {ks : List TrackerKey}
          → m.locked i ≡ false
          → Turn (stale i ks) (record m { locked = assign m.locked i true }) (evicting i ks)
      evict :
          {i : ℕ} {k : TrackerKey} {ks : List TrackerKey}
          → Turn
              (evicting i (k ∷ ks))
              (record m { shards = assign m.shards i (delete key_discrete k (m.shards i)) })
              (evicted i ks)
      discount :
          {i : ℕ} {ks : List TrackerKey}
          → Turn
              (evicted i ks)
              (record m { tracker_count = sub64 m.tracker_count 1 })
              (evicting i ks)
      unlock :
          {i : ℕ}
          → Turn (evicting i []) (record m { locked = assign m.locked i false }) (at_shard (suc i))
      finish : {i : ℕ} → i ≡ 256 → Turn (at_shard i) m closing
      close : Turn closing (record m { rejection_warned = false }) waiting
