-- ===== src/Processor/Store.antt =====
-- Reads and writes of the sharded tracker maps of processor.go.
use otel_cardinality_process.Base.{
  ℕ, zero, suc, ◌+◌, ◌<◌, ◌≡◌, ap, String, none, some, List, [], ◌∷◌, arith, ite, if_neg, length,
  get_or, set, length-set, get_or-set_self, get_or-set_ne, All, All-get_or, All-set, ℕ_discrete,
}
use otel_cardinality_process.Base.Assoc.{
  insert, IsMap, lookup-insert, insert-IsMap, length-insert_new, length-insert_old,
}
use otel_cardinality_process.Base.Bits.{and_255}
use otel_cardinality_process.External.{Env}
use otel_cardinality_process.Processor.{
  Processor, Shard, TrackerKey, key_discrete, get_shard, shard_at, find_tracker, store,
}
use otel_cardinality_process.Tracker.{Tracker}

-- The trackers of all shards.
abbrev pub total : {S : Type 0} → List (Shard S) → ℕ
total [] = 0
total (s ∷ ss) = length s + total ss

abbrev pub AreMaps : {S : Type 0} → List (Shard S) → Type 0
AreMaps = All (IsMap key_discrete)

pub total-set :
    {S : Type 0} (ss : List (Shard S)) (i : ℕ) (s : Shard S)
    → i < length ss
    → total (set ss i s) + length (get_or ss i []) ≡ total ss + length s
total-set [] i s h = elim h [ ]
total-set (x ∷ ss) zero s h = omega arith
total-set (x ∷ ss) (suc i) s h = omega (arith, total-set ss i s (omega arith))

module _ (env : Env) where
  open env use {Sketch, shard_hash}

  -- Every metric name has a shard of the array.
  pub get_shard-lt : (metric_name : String) → get_shard env metric_name < 256
  unfolding get_shard
  get_shard-lt metric_name = omega (arith, and_255 (shard_hash metric_name))

  module _ (p : Processor Sketch) (width : length p.shards ≡ 256) where
    in_range : (name : String) → get_shard env name < length p.shards
    in_range name = omega (arith, get_shard-lt name)

    pub find_tracker-store :
        (key j : TrackerKey) (t : Tracker Sketch)
        → find_tracker env (store env key t p) j
          ≡ ite (key_discrete key j) (some t) (find_tracker env p j)
    unfolding store
    find_tracker-store key j t =
        elim (ℕ_discrete (get_shard env key.metric_name) (get_shard env j.metric_name)) [
          | yes same ↦
              rw
                (
                  ← same,
                  get_or-set_self p.shards (get_shard env key.metric_name) _ []
                      (in_range key.metric_name),
                )
                (lookup-insert key_discrete key j t
                  (shard_at env p (get_shard env key.metric_name)))
          | no other ↦ rw (
            get_or-set_ne p.shards (get_shard env key.metric_name) (get_shard env j.metric_name) _
                [] other,
            if_neg (key_discrete key j)
                (λ e. other (ap (λ (k : TrackerKey). get_shard env k.metric_name) e)),
          )
        ]

    pub store-AreMaps :
        (key : TrackerKey) (t : Tracker Sketch)
        → AreMaps p.shards
        → AreMaps (store env key t p).shards
    unfolding store
    store-AreMaps key t maps =
        All-set (IsMap key_discrete) p.shards (get_shard env key.metric_name) _ maps (
          insert-IsMap key_discrete key t _
            (All-get_or (IsMap key_discrete) p.shards (get_shard env key.metric_name) [] maps tt))

    pub total-store_new :
        (key : TrackerKey) (t : Tracker Sketch)
        → find_tracker env p key ≡ none
        → total (store env key t p).shards ≡ suc (total p.shards)
    unfolding store
    total-store_new key t h = omega (
      arith,
      total-set p.shards (get_shard env key.metric_name)
          (insert key_discrete key t (shard_at env p (get_shard env key.metric_name)))
          (in_range key.metric_name),
      length-insert_new key_discrete key t (shard_at env p (get_shard env key.metric_name)) h,
    )

    pub total-store_old :
        (key : TrackerKey) (t : Tracker Sketch) {u : Tracker Sketch}
        → find_tracker env p key ≡ some u
        → total (store env key t p).shards ≡ total p.shards
    unfolding store
    total-store_old key t h = omega (
      arith,
      total-set p.shards (get_shard env key.metric_name)
          (insert key_discrete key t (shard_at env p (get_shard env key.metric_name)))
          (in_range key.metric_name),
      length-insert_old key_discrete key t (shard_at env p (get_shard env key.metric_name)) h,
    )

    pub length-store :
        (key : TrackerKey) (t : Tracker Sketch) → length (store env key t p).shards ≡ 256
    unfolding store
    length-store key t = omega (arith, length-set p.shards (get_shard env key.metric_name) _)
