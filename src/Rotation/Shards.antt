-- ===== src/Rotation/Shards.antt =====
-- `rotate` of processor.go over all shards.
use otel_cardinality_process.Base.{
  ℕ, ◌+◌, ◌%◌, ◌≤◌, ◌≡◌, refl, sym, ap, ◌∙◌, Bool, true, false, ◌&&◌, Option, none, some, List, [],
  leb, ltb, ◌==◌, if◌then◌else◌, length, set, arith,
}
use otel_cardinality_process.Base.Assoc.{lookup, IsMap}
use otel_cardinality_process.Base.Int.{u64_mod}
use otel_cardinality_process.External.{Env}
use otel_cardinality_process.Processor.{
  Processor, Shard, TrackerKey, Offender, Log, log, evicted, key_discrete, shard_at,
}
use otel_cardinality_process.Rotation.{evict, rotate_shard}
use otel_cardinality_process.Rotation.Maps.{
  Covers, Present, rotated, stale_keys, updated, stale, rotate_entries_lem, lookup-rotated,
  rotated-IsMap, has_key-stale_keys, stale_keys-Distinct, length-rotated, lookup-evict,
  evict-counted,
}
use otel_cardinality_process.Tracker.{Tracker, rotate as rotate_tracker, must_get_sketch}

module _ (env : Env) where
  open env use {Sketch, hll}

  -- A range statement over a map visits each of its entries once.
  abbrev pub Visits : (ℕ → Shard Sketch → Shard Sketch) → Type 0
  Visits order =
      (i : ℕ) (m : Shard Sketch)
      → IsMap key_discrete m
      → IsMap key_discrete (order i m)
        × ((k : TrackerKey) → lookup key_discrete k (order i m) ≡ lookup key_discrete k m)

  -- What becomes of a tracker: it is gone after its second idle epoch in a row, and its sketches
  -- move on otherwise.
  abbrev pub next_epoch : Option (Tracker Sketch) → Option (Tracker Sketch)
  next_epoch none = none
  next_epoch (some t) =
      if (t.insert_count == 0) && leb 1 t.idle_epochs
      then none
      else some (rotate_tracker hll (must_get_sketch hll) t).0

  pub settle :
      (o : Option (Tracker Sketch)) → (if stale env o then none else updated env o o) ≡ next_epoch o
  unfolding rotate_tracker
  settle none = refl
  settle (some t) = ground arith

  pub is_some :
      (o : Option (Tracker Sketch))
      → stale env o ≡ true
      → (u : Tracker Sketch) × (updated env o o ≡ some u)
  is_some none e = cc
  is_some (some t) e = (_, refl)

  -- The rounds leave these fields alone.
  pub record Unwritten (q p : Processor Sketch) : Type 0 where
    pub config : q.config ≡ p.config
    pub mode : q.enforcement_mode ≡ p.enforcement_mode
    pub drops : q.drops_this_epoch ≡ p.drops_this_epoch
    pub drop_logs : q.drop_log_count ≡ p.drop_log_count

  logged :
      (b : Bool) (l : Log) (q p : Processor Sketch)
      → Unwritten q p
      → ((if b then log l q else q).shards ≡ q.shards)
        × ((if b then log l q else q).tracker_count ≡ q.tracker_count)
        × Unwritten (if b then log l q else q) p
  logged true l q p u = (
    refl,
    refl,
    record { config = u.config; mode = u.mode; drops = u.drops; drop_logs = u.drop_logs },
  )
  logged false l q p u = (refl, refl, u)

  module _ (order : ℕ → Shard Sketch → Shard Sketch) (visits : Visits order) where
    -- The map of shard `i` behind its round.
    abbrev pub swept : ℕ → Shard Sketch → ℕ → Shard Sketch × ℕ
    swept i shard count =
        evict env (stale_keys env (order i shard)) (rotated env (order i shard) shard) count

    pub lookup-swept :
        (i : ℕ) (shard : Shard Sketch) (count : ℕ) (k : TrackerKey)
        → IsMap key_discrete shard
        → lookup key_discrete k (swept i shard count).0 ≡ next_epoch (lookup key_discrete k shard)
    lookup-swept i shard count k m =
        let v = visits i shard m in
        lookup-evict env (stale_keys env (order i shard)) (rotated env (order i shard) shard) count
          k (rotated-IsMap env (order i shard) shard m)
        ∙ rw
            (
              has_key-stale_keys env (order i shard) k v.0,
              lookup-rotated env (order i shard) shard k v.0,
              v.1 k,
            )
            (settle (lookup key_discrete k shard))

    shard-Covers :
        (i : ℕ) (shard : Shard Sketch) → IsMap key_discrete shard → Covers env shard (order i shard)
    shard-Covers i shard m k t e = (t, sym ((visits i shard m).1 k) ∙ e)

    stale-Present :
        (i : ℕ) (shard : Shard Sketch)
        → IsMap key_discrete shard
        → Present env (rotated env (order i shard) shard) (stale_keys env (order i shard))
    stale-Present i shard m k e =
        let v = visits i shard m in
        let kept =
          is_some (lookup key_discrete k shard) (
            sym (ap (stale env) (v.1 k))
            ∙ sym (has_key-stale_keys env (order i shard) k v.0)
            ∙ e) in
        (kept.0, lookup-rotated env (order i shard) shard k v.0 ∙ rw (v.1 k) kept.1)

    pub swept-counted :
        (i : ℕ) (shard : Shard Sketch) (count all : ℕ)
        → IsMap key_discrete shard
        → count ≡ (all + length shard) % u64_mod
        → ((swept i shard count).1 ≡ (all + length (swept i shard count).0) % u64_mod)
          × (length (swept i shard count).0 ≤ length shard)
    swept-counted i shard count all m e =
        let v = visits i shard m in
        let same = length-rotated env (order i shard) shard v.0 (shard-Covers i shard m) in
        let done =
          evict-counted env (stale_keys env (order i shard)) (rotated env (order i shard) shard)
            count all (rotated-IsMap env (order i shard) shard m)
            (stale_keys-Distinct env (order i shard) v.0) (stale-Present i shard m)
            (omega (arith, e, same)) in
        (done.0, omega (arith, done.1, same))

    -- What a round changes.
    pub rotate_shard-state :
        (i : ℕ) (p : Processor Sketch) (buf : List Offender)
        → ((rotate_shard env order i (p, buf)).0.shards
            ≡ set p.shards i (swept i (shard_at env p i) p.tracker_count).0)
          × ((rotate_shard env order i (p, buf)).0.tracker_count
              ≡ (swept i (shard_at env p i) p.tracker_count).1)
          × Unwritten (rotate_shard env order i (p, buf)).0 p
    unfolding rotate_shard
    rotate_shard-state i p buf =
        rw (rotate_entries_lem env (order i (shard_at env p i)) (shard_at env p i) []) (
          logged (ltb 0 (length (stale_keys env (order i (shard_at env p i)))))
            (evicted (length (stale_keys env (order i (shard_at env p i)))))
            (record p {
              shards = set p.shards i (swept i (shard_at env p i) p.tracker_count).0;
              tracker_count = (swept i (shard_at env p i) p.tracker_count).1;
            })
            p (record { config = refl; mode = refl; drops = refl; drop_logs = refl }))
