-- ===== src/Concurrent/Epoch.antt =====
-- What a rotation of processor.go makes of the memory of pointers, step by step: how far the trackers of
-- each shard have come.
pub mod Rounds
pub mod Evictions
pub mod Runs
use mathlib.Core.Option.{map as map_option}
use otel_cardinality_process.Base.{
  ℕ, suc, ◌+◌, ◌≤◌, ◌<◌, ◌≡◌, ◌≢◌, refl, sym, ap, ◌∙◌, subst, Option, Bool, true, false, none, some,
  List, [], ◌∷◌, ◌++◌, arith, ite, if_pos, if_neg, if◌then◌else◌, ℕ_discrete, Option-cases,
  Bool-cases, inl, inr,
}
use otel_cardinality_process.Base.Assoc.{lookup, delete, IsMap, lookup-delete, delete-IsMap}
use otel_cardinality_process.Base.Sums.{assign}
use otel_cardinality_process.Concurrent.{
  Memory, Pointers, Sweep, waiting, at_shard, turning, stale, evicting, evicted, closing, Turn,
  tick, snapshot, turn, none_stale, some_stale, lock, evict, discount, unlock, finish, close,
}
use otel_cardinality_process.Concurrent.Agreement.{pointer}
use otel_cardinality_process.Config.{Config}
use otel_cardinality_process.External.{Env}
use otel_cardinality_process.Processor.{TrackerKey, key_discrete, get_shard}
use otel_cardinality_process.Processor.Store.{get_shard-lt}
use otel_cardinality_process.Rotation.{advance}
use otel_cardinality_process.Rotation.Maps.{has_key, updated, stale as is_stale}
use otel_cardinality_process.Rotation.Shards.{next_epoch, settle}
use otel_cardinality_process.Tracker.{Tracker}

has_key-snoc :
    (ks : List TrackerKey) (k j : TrackerKey)
    → has_key j (ks ++ k ∷ []) ≡ ite (key_discrete k j) true (has_key j ks)
has_key-snoc [] k j = refl
has_key-snoc (i ∷ ks) k j = ground (arith, has_key-snoc ks k j)

-- The key of an entry is collected when its tracker is stale.
pub has_key-collected :
    (b : Bool) (ks : List TrackerKey) (k : TrackerKey)
    → has_key k ks ≡ false
    → has_key k (if b then ks ++ k ∷ [] else ks) ≡ b
has_key-collected true ks k e = has_key-snoc ks k k ∙ if_pos (key_discrete k k) refl _ _
has_key-collected false ks k e = e

pub has_key-other :
    (b : Bool) (ks : List TrackerKey) (k j : TrackerKey)
    → k ≢ j
    → has_key j (if b then ks ++ k ∷ [] else ks) ≡ has_key j ks
has_key-other true ks k j n = has_key-snoc ks k j ∙ if_neg (key_discrete k j) n _ _
has_key-other false ks k j n = refl

module _ (env : Env) (cfg : Config) where
  open env use {Sketch}

  abbrev pub shard_of : TrackerKey → ℕ
  shard_of k = get_shard env k.metric_name

  abbrev pub look : Memory Sketch → TrackerKey → Option (Tracker Sketch)
  look m k = map_option m.heap (pointer env cfg m k)

  -- The run of a rotation from its tick, in which nothing else writes.
  pub data Rotates (m : Memory Sketch) : Memory Sketch → Sweep → Type 0 where
    ticked : Rotates m m (at_shard 0)
    on :
        {u u' : Memory Sketch} {w w' : Sweep}
        → Rotates m u w
        → w ≢ waiting
        → Turn env cfg u w u' w'
        → Rotates m u' w'

  -- `V` gives the trackers at the start of the rotation.
  module _ (V : TrackerKey → Option (Tracker Sketch)) where
    -- The shards behind and ahead of shard `i`.
    abbrev pub Others : Memory Sketch → ℕ → Type 0
    Others m i =
        (k : TrackerKey)
        → (shard_of k < i → look m k ≡ next_epoch env (V k)) × (i < shard_of k → look m k ≡ V k)

    pub record Turning (m : Memory Sketch) (i : ℕ) (es : Pointers) (ks : List TrackerKey)
        : Type 0 where
      pub one : IsMap key_discrete es
      pub exact :
          (k : TrackerKey) {a : ℕ}
          → lookup key_discrete k es ≡ some a
          → lookup key_discrete k (m.shards i) ≡ some a
      pub others : Others m i
      pub ahead :
          (k : TrackerKey) {a : ℕ}
          → lookup key_discrete k es ≡ some a
          → (look m k ≡ V k) × (has_key k ks ≡ false)
      pub behind :
          (k : TrackerKey)
          → shard_of k ≡ i
          → lookup key_discrete k es ≡ none
          → (look m k ≡ updated env (V k) (V k)) × (has_key k ks ≡ is_stale env (V k))

    pub record Swept (m : Memory Sketch) (i : ℕ) (ks : List TrackerKey) : Type 0 where
      pub others : Others m i
      pub doomed :
          (k : TrackerKey) → shard_of k ≡ i → has_key k ks ≡ true → is_stale env (V k) ≡ true
      pub settled :
          (k : TrackerKey) → shard_of k ≡ i → has_key k ks ≡ false → look m k ≡ next_epoch env (V k)

    abbrev pub IsAt : Memory Sketch → Sweep → Type 0
    IsAt m waiting =
        ((k : TrackerKey) → look m k ≡ next_epoch env (V k)) × (m.rejection_warned ≡ false)
    IsAt m (at_shard i) =
        (k : TrackerKey)
        → (shard_of k < i → look m k ≡ next_epoch env (V k)) × (i ≤ shard_of k → look m k ≡ V k)
    IsAt m (turning i es ks) = Turning m i es ks
    IsAt m (stale i ks) = Swept m i ks
    IsAt m (evicting i ks) = Swept m i ks
    IsAt m (evicted i ks) = Swept m i ks
    IsAt m closing = (k : TrackerKey) → look m k ≡ next_epoch env (V k)
