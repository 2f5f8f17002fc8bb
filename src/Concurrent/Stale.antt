-- ===== src/Concurrent/Stale.antt =====
-- A tracker of processor.go that is in use when the rotation evicts it: between the rotation of the
-- tracker and the write lock of its shard, calls still find it.
use mathlib.Core.Option.{map as map_option}
use otel_cardinality_process.Base.{
  ℕ, ◌<◌, ◌≡◌, ◌≢◌, refl, sym, ap, ◌∙◌, subst, Option, Bool, true, false, none, some, List, [], ◌∷◌,
  arith, if_pos, if_neg, ◌⊎◌, inl, inr, ℕ_discrete,
}
use otel_cardinality_process.Base.Assoc.{lookup}
use otel_cardinality_process.Base.Sums.{assign}
use otel_cardinality_process.Concurrent.{
  Memory, Call, Pc, finished, Sweep, waiting, at_shard, turning, stale, evicting, Move, tick, find,
  miss, lock, miss_again, find_again, admit, refuse, create, count, unlock, unlock_refused, reject,
  warn, warned, measure, some_stale, evict, discount, verdict_of,
}
use otel_cardinality_process.Concurrent.Agreement.{pointer, Placed, Placed-same}
use otel_cardinality_process.Concurrent.Creation.{Placed-made}
use otel_cardinality_process.Concurrent.Epoch.{Rotates, ticked, on, shard_of, look}
use otel_cardinality_process.Concurrent.Epoch.Evictions.{
  evicting_memory, lookup-without_self, lookup-without_other,
}
use otel_cardinality_process.Concurrent.Epoch.Runs.{
  Placed-Turn, Rotates-holds, whole_run, collect_run, shards_run,
}
use otel_cardinality_process.Concurrent.Refinement.{empty_memory-Placed}
use otel_cardinality_process.Concurrent.System.{System, Reach, start, later, arrive, call, sweep}
use otel_cardinality_process.Config.{Config}
use otel_cardinality_process.External.{Env}
use otel_cardinality_process.Processor.{TrackerKey, key_discrete}
use otel_cardinality_process.Processor.Store.{get_shard-lt}
use otel_cardinality_process.Rotation.Maps.{has_key, stale as is_stale, updated}
use otel_cardinality_process.Rotation.Shards.{next_epoch, is_some}
use otel_cardinality_process.Tracker.{Tracker, insert as insert_hash}

module _ (env : Env) (cfg : Config) where
  open env use {Sketch, hll}

  Placed-Move :
      {m : Memory Sketch} {key : TrackerKey} {hash_val : ℕ} {pc pc' : Pc} {m' : Memory Sketch}
      → Move env cfg m key hash_val pc m' pc'
      → Placed env cfg m
      → Placed env cfg m'
  Placed-Move {m} {key} create g = Placed-made env cfg m g key
  Placed-Move (find free e) g = g
  Placed-Move (miss free e) g = g
  Placed-Move (find_again e) g = g
  Placed-Move (miss_again e) g = g
  Placed-Move (admit e) g = g
  Placed-Move (refuse e) g = g
  Placed-Move (warned e) g = g
  Placed-Move (lock free) g = Placed-same env cfg refl refl g
  Placed-Move count g = Placed-same env cfg refl refl g
  Placed-Move unlock g = Placed-same env cfg refl refl g
  Placed-Move unlock_refused g = Placed-same env cfg refl refl g
  Placed-Move reject g = Placed-same env cfg refl refl g
  Placed-Move (warn e) g = Placed-same env cfg refl refl g
  Placed-Move measure g = Placed-same env cfg refl refl g

  -- In every reachable state the keys stand in their shards.
  Reach-Placed : {s : System Sketch} → Reach env cfg s → Placed env cfg s.mem
  Reach-Placed start = empty_memory-Placed env cfg
  Reach-Placed (later r (arrive key h)) = Reach-Placed r
  Reach-Placed (later r (call j lt mv)) = Placed-Move mv (Reach-Placed r)
  Reach-Placed (later r (sweep t)) = Placed-Turn env cfg t (Reach-Placed r)

  -- The state of these calls.
  abbrev pub with_calls : List Call → Memory Sketch → Sweep → System Sketch
  with_calls cs m w = record { mem = m; calls = cs; sweep = w }

  Rotates-Reach :
      {m u : Memory Sketch} {cs : List Call} {w : Sweep}
      → Reach env cfg (with_calls cs m (at_shard 0))
      → Rotates env cfg m u w
      → Reach env cfg (with_calls cs u w)
  Rotates-Reach r ticked = r
  Rotates-Reach r (on rot n t) = later (Rotates-Reach r rot) (sweep t)

  -- A key that is to be evicted, or that has no tracker.
  abbrev Doomed : Memory Sketch → List TrackerKey → TrackerKey → Type 0
  Doomed m ks k = (has_key k ks ≡ true) ⊎ (pointer env cfg m k ≡ none)

  evict_all :
      (ks : List TrackerKey) (m : Memory Sketch) {cs : List Call} {i : ℕ}
      → Reach env cfg (with_calls cs m (evicting i ks))
      → (k : TrackerKey) → shard_of env cfg k ≡ i
      → Doomed m ks k
      → (u : Memory Sketch) × Reach env cfg (with_calls cs u (evicting i []))
        × (u.heap ≡ m.heap)
        × (pointer env cfg u k ≡ none)
  evict_all [] m r k home (inl e) = absurd cc
  evict_all [] m r k home (inr e) = (m, r, refl, e)
  evict_all (j ∷ js) m {cs} {i} r k home d =
      evict_all js _ (later (later r (sweep evict)) (sweep discount)) k home
        (elim (key_discrete j k) [
          | yes q ↦ inr (
              subst (λ x. pointer env cfg (evicting_memory env cfg m i j) x ≡ none) q
                (lookup-without_self env cfg m i j (Reach-Placed r)
                  (ap (shard_of env cfg) q ∙ home)))
          | no n ↦ after n d
        ])
    where
      after : j ≢ k → Doomed m (j ∷ js) k → Doomed (evicting_memory env cfg m i j) js k
      after n (inl e) = inl (sym (if_neg (key_discrete j k) n _ _) ∙ e)
      after n (inr e) = inr (lookup-without_other env cfg m i j (Reach-Placed r) k n ∙ e)

  -- The tracker behind a pointer.
  pointed :
      (f : ℕ → Tracker Sketch) (o : Option ℕ) {t : Tracker Sketch}
      → map_option f o ≡ some t
      → (a : ℕ) × (o ≡ some a) × (f a ≡ t)
  pointed f none e = absurd cc
  pointed f (some a) e = (a, refl, cc)

  abbrev IsFree : Memory Sketch → Type 0
  IsFree m = (i : ℕ) → m.locked i ≡ false

  -- A rotation from a reachable state between two epochs, on its own.
  module _ (m : Memory Sketch) (cs : List Call) (r : Reach env cfg (with_calls cs m waiting))
      (free : IsFree m) where
    pub whole_Reach :
        (u : Memory Sketch) × Reach env cfg (with_calls cs u waiting)
        × IsFree u
        × ((k : TrackerKey) → look env cfg u k ≡ next_epoch env (look env cfg m k))
    whole_Reach =
        let (u, run, free') = whole_run env cfg m (Reach-Placed r) free in
        (
          u,
          Rotates-Reach (later r (sweep tick)) run,
          free',
          (Rotates-holds env cfg (look env cfg m) run (Reach-Placed r) (λ k. refl)).1.0,
        )

    -- It collects the keys of the stale trackers of a shard before it takes the lock.
    pub stale_Reach :
        (k : TrackerKey)
        → is_stale env (look env cfg m k) ≡ true
        → (v : Memory Sketch) × (ks : List TrackerKey) × (a : ℕ) × Reach env cfg
            (with_calls cs v (stale (shard_of env cfg k) ks))
          × (v.locked (shard_of env cfg k) ≡ false)
          × (pointer env cfg v k ≡ some a)
          × (has_key k ks ≡ true)
    unfolding lookup
    stale_Reach k idle =
        let below : shard_of env cfg k < 256 = get_shard-lt env k.metric_name in
        let (u, run, free') =
          shards_run env cfg m (Reach-Placed r) (shard_of env cfg k) (shard_of env cfg k) 0
            (omega (arith, below)) (omega arith) ticked free in
        let (v, ks, run', free'') =
          collect_run env cfg m (Reach-Placed r) (shard_of env cfg k) below run free' in
        collected ks run' free'' (
          (Rotates-holds env cfg (look env cfg m) run' (Reach-Placed r) (λ k. refl)).1.behind k refl
            refl)
      where
        collected :
            {v : Memory Sketch} (ks : List TrackerKey)
            → Rotates env cfg m v (turning (shard_of env cfg k) [] ks)
            → IsFree v
            → (look env cfg v k ≡ updated env (look env cfg m k) (look env cfg m k))
              × (has_key k ks ≡ is_stale env (look env cfg m k))
            → (v : Memory Sketch) × (ks : List TrackerKey) × (a : ℕ) × Reach env cfg
                (with_calls cs v (stale (shard_of env cfg k) ks))
              × (v.locked (shard_of env cfg k) ≡ false)
              × (pointer env cfg v k ≡ some a)
              × (has_key k ks ≡ true)
        collected [] run open_locks h = absurd (let e : false ≡ true = h.1 ∙ idle in cc)
        collected {v} (j ∷ js) run open_locks h =
            let (t, found) = is_some env (look env cfg m k) idle in
            let (a, here, same) = pointed v.heap (pointer env cfg v k) (h.0 ∙ found) in
            (
              v,
              j ∷ js,
              a,
              later (Rotates-Reach (later r (sweep tick)) run) (sweep some_stale),
              open_locks _,
              here,
              h.1 ∙ idle,
            )

  abbrev pub called : TrackerKey → ℕ → Pc → Call
  called k hash_val pc = record { key = k; hash_val = hash_val; pc = pc }

  -- The verdict of a call that inserts into the tracker at `a`.
  abbrev pub verdict : Memory Sketch → TrackerKey → ℕ → ℕ → Bool
  verdict m k hash_val a =
      verdict_of env cfg k (insert_hash hll hash_val (m.heap a)).1
        (insert_hash hll hash_val (m.heap a)).2

  -- A tracker that the rotation has collected is found by a call, before the lock of its shard is
  -- taken.
  module _ (m : Memory Sketch) (cs : List Call) (k : TrackerKey) (hash_val : ℕ) (a : ℕ)
      (ks : List TrackerKey) (r : Reach env cfg (with_calls cs m (stale (shard_of env cfg k) ks)))
      (free : m.locked (shard_of env cfg k) ≡ false) (here : pointer env cfg m k ≡ some a)
      (listed : has_key k ks ≡ true) where
    abbrev inserted : Memory Sketch
    inserted = record m { heap = assign m.heap a (insert_hash hll hash_val (m.heap a)).0 }

    inserted-Reach : Reach env cfg (
        with_calls
          (called k hash_val (finished (verdict m k hash_val a)) ∷ cs)
          inserted
          (stale (shard_of env cfg k) ks))
    inserted-Reach =
        later (later (later r (arrive k hash_val)) (call 0 (omega arith) (find free here)))
          (call 0 (omega arith) measure)

    -- In a reachable state where the rotation has collected a key as stale and waits for the lock of its
    -- shard, which is free: a call can still find the tracker, insert its hash and return the verdict,
    -- and the rotation then takes the tracker out of the map with that hash in it.
    pub evicted_in_use :
        (u : Memory Sketch) × Reach env cfg (
          with_calls
            (called k hash_val (finished (verdict m k hash_val a)) ∷ cs)
            u
            (evicting (shard_of env cfg k) []))
        × (u.heap a ≡ (insert_hash hll hash_val (m.heap a)).0)
        × (pointer env cfg u k ≡ none)
    evicted_in_use =
        let (u, r', same, gone) =
          evict_all ks (record inserted { locked = assign m.locked (shard_of env cfg k) true })
            (later inserted-Reach (sweep (lock free))) k refl (inl listed) in
        (u, r', ap (λ h. h a) same ∙ if_pos (ℕ_discrete a a) refl _ _, gone)
