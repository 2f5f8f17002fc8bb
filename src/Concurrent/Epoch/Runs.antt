-- ===== src/Concurrent/Epoch/Runs.antt =====
-- A whole rotation of processor.go on the memory of pointers, when nothing else writes: it comes to
-- its end, and makes of the trackers what `rotate` makes of them.
use otel_cardinality_process.Base.{
  ℕ, zero, suc, ◌+◌, ◌≤◌, ◌<◌, ◌≡◌, ◌≢◌, refl, sym, ◌∙◌, subst, Option, Bool, true, false, List, [],
  ◌∷◌, arith,
}
use otel_cardinality_process.Base.Sums.{assign}
use otel_cardinality_process.Concurrent.{
  Memory, Pointers, Sweep, waiting, at_shard, turning, evicting, Turn, tick, snapshot, turn,
  none_stale, some_stale, lock, evict, discount, unlock, finish, close,
}
use otel_cardinality_process.Concurrent.Agreement.{Placed, Placed-same, Agrees}
use otel_cardinality_process.Concurrent.Epoch.{Swept, IsAt, Rotates, ticked, on, look}
use otel_cardinality_process.Concurrent.Epoch.Rounds.{Turning-turn}
use otel_cardinality_process.Config.{Config}
use otel_cardinality_process.External.{Env}
use otel_cardinality_process.Processor.Accounting.{IsValid}
use otel_cardinality_process.Rotation.{rotate}
use otel_cardinality_process.Rotation.Epochs.{find_tracker-rotate}
use otel_cardinality_process.Processor.{find_tracker, Processor, Shard, TrackerKey}
use otel_cardinality_process.Processor.Store.{get_shard-lt}
use otel_cardinality_process.Rotation.Shards.{Visits}
use otel_cardinality_process.Tracker.{Tracker}
use otel_cardinality_process.Concurrent.Epoch.Evictions.{
  Placed-evict, Turning-done, Swept-all, snapshot-Turning, Swept-evict,
}

module _ (env : Env) (cfg : Config) where
  open env use {Sketch}

  abbrev IsPlaced : Memory Sketch → Type 0
  IsPlaced = Placed env cfg

  pub Placed-Turn :
      {m m' : Memory Sketch} {w w' : Sweep} → Turn env cfg m w m' w' → IsPlaced m → IsPlaced m'
  Placed-Turn {m} (evict {i} {k} {ks}) placed = Placed-evict env cfg m i k placed
  Placed-Turn {m} tick placed = placed
  Placed-Turn {m} (snapshot es lt free one same) placed = placed
  Placed-Turn {m} none_stale placed = placed
  Placed-Turn {m} some_stale placed = placed
  Placed-Turn {m} (finish e) placed = placed
  Placed-Turn {m} (turn {i} {a} {k}) placed = Placed-same env cfg refl refl placed
  Placed-Turn {m} (lock free) placed = Placed-same env cfg refl refl placed
  Placed-Turn {m} discount placed = Placed-same env cfg refl refl placed
  Placed-Turn {m} unlock placed = Placed-same env cfg refl refl placed
  Placed-Turn {m} close placed = Placed-same env cfg refl refl placed

  module _ (V : TrackerKey → Option (Tracker Sketch)) where
    abbrev Here : Memory Sketch → Sweep → Type 0
    Here = IsAt env cfg V

    same_trackers :
        {m m' : Memory Sketch} {i : ℕ} {ks : List TrackerKey}
        → m'.shards ≡ m.shards
        → m'.heap ≡ m.heap
        → Swept env cfg V m i ks
        → Swept env cfg V m' i ks
    same_trackers e f h = record {
      others = rw (e, f) h.others;
      doomed = h.doomed;
      settled = rw (e, f) h.settled;
    }

    IsAt-Turn :
        {m m' : Memory Sketch} {w w' : Sweep}
        → Turn env cfg m w m' w'
        → w ≢ waiting
        → IsPlaced m
        → Here m w
        → Here m' w'
    IsAt-Turn tick n placed h = absurd (n refl)
    IsAt-Turn (snapshot es lt free one same) n placed h =
        snapshot-Turning env cfg V es placed one same h
    IsAt-Turn {m} (turn {i} {a} {k} {entries = es} {ks}) n placed h =
        Turning-turn env cfg V m placed i a k es ks h
    IsAt-Turn none_stale n placed h = Swept-all env cfg V (Turning-done env cfg V h)
    IsAt-Turn some_stale n placed h = Turning-done env cfg V h
    IsAt-Turn (lock free) n placed h = same_trackers refl refl h
    IsAt-Turn evict n placed h = Swept-evict env cfg V placed h
    IsAt-Turn discount n placed h = same_trackers refl refl h
    IsAt-Turn {m} (unlock {i}) n placed h =
        Swept-all env cfg V {m = record m { locked = assign m.locked i false }}
          (same_trackers refl refl h)
    IsAt-Turn (finish e) n placed h =
        λ k. (h k).0 (omega (arith, e, get_shard-lt env k.metric_name))
    IsAt-Turn close n placed h = (h, refl)

    -- What holds at every step of the run.
    pub Rotates-holds :
        {m u : Memory Sketch} {w : Sweep}
        → Rotates env cfg m u w
        → IsPlaced m
        → ((k : TrackerKey) → look env cfg m k ≡ V k)
        → IsPlaced u × Here u w
    Rotates-holds ticked placed v = (placed, λ k. (λ lt. absurd (omega (arith, lt)), λ le. v k))
    Rotates-holds (on r n t) placed v =
        let (s, h) = Rotates-holds r placed v in (Placed-Turn t s, IsAt-Turn t n s h)

  -- The run can go on to its end when the locks are free.
  module _ (m : Memory Sketch) (placed : IsPlaced m) where
    abbrev To : Memory Sketch → Sweep → Type 0
    To = Rotates env cfg m

    abbrev IsFree : Memory Sketch → Type 0
    IsFree u = (i : ℕ) → u.locked i ≡ false

    entries_run :
        (es : Pointers) {u : Memory Sketch} {i : ℕ} {ks : List TrackerKey}
        → To u (turning i es ks)
        → IsFree u
        → (u' : Memory Sketch) × (ks' : List TrackerKey) × To u' (turning i [] ks') × IsFree u'
    entries_run [] {u} {i} {ks} r free = (u, ks, r, free)
    entries_run ((k, a) ∷ es) r free = entries_run es (on r (λ e. cc) turn) free

    evictions_run :
        (ks : List TrackerKey) {u : Memory Sketch} {i : ℕ}
        → To u (evicting i ks)
        → (u' : Memory Sketch) × To u' (evicting i []) × (u'.locked ≡ u.locked)
    evictions_run [] {u} r = (u, r, refl)
    evictions_run (k ∷ ks) r = evictions_run ks (on (on r (λ e. cc) evict) (λ e. cc) discount)

    unlocked :
        (l l' : ℕ → Bool) (i : ℕ)
        → ((j : ℕ) → l j ≡ false)
        → l' ≡ assign l i true
        → (j : ℕ) → assign l' i false j ≡ false
    unlocked l l' i free e j = rw e (ground (arith, free j))

    -- The rotation of the entries of a shard.
    pub collect_run :
        (i : ℕ) {u : Memory Sketch}
        → i < 256
        → To u (at_shard i)
        → IsFree u
        → (v : Memory Sketch) × (ks : List TrackerKey) × To v (turning i [] ks) × IsFree v
    collect_run i {u} lt r free =
        entries_run (u.shards i)
          (on r (λ e. cc)
            (snapshot (u.shards i) lt (free i)
              ((Rotates-holds (look env cfg m) r placed (λ k. refl)).0.maps i) (λ k. refl)))
          free

    shard_run :
        (i : ℕ) {u : Memory Sketch}
        → i < 256
        → To u (at_shard i)
        → IsFree u
        → (u' : Memory Sketch) × To u' (at_shard (suc i)) × IsFree u'
    shard_run i {u} lt r free = behind (collect_run i lt r free)
      where
        behind :
            (v : Memory Sketch) × (ks : List TrackerKey) × To v (turning i [] ks) × IsFree v
            → (u' : Memory Sketch) × To u' (at_shard (suc i)) × IsFree u'
        behind (v, [], r, free) = (v, on r (λ e. cc) none_stale, free)
        behind (v, k ∷ ks, r, free) =
            let (v', r', e) =
              evictions_run (k ∷ ks) (on (on r (λ e. cc) some_stale) (λ e. cc) (lock (free i))) in
            (
              record v' { locked = assign v'.locked i false },
              on r' (λ e. cc) unlock,
              unlocked v.locked v'.locked i free e,
            )

    -- The shards below `top`.
    pub shards_run :
        (top n i : ℕ) {u : Memory Sketch}
        → top ≤ 256
        → n + i ≡ top
        → To u (at_shard i)
        → IsFree u
        → (u' : Memory Sketch) × To u' (at_shard top) × IsFree u'
    shards_run top zero i {u} le e r free =
        let q : i ≡ top = omega (arith, e) in (u, subst (λ x. To u (at_shard x)) q r, free)
    shards_run top (suc n) i le e r free =
        let (v, r', free') = shard_run i (omega (arith, e, le)) r free in
        shards_run top n (suc i) le (omega (arith, e)) r' free'

    pub whole_run : IsFree m → (u : Memory Sketch) × To u waiting × IsFree u
    whole_run free =
        let (v, r, free') = shards_run 256 256 0 (omega arith) refl ticked free in
        (_, on (on r (λ e. cc) (finish refl)) (λ e. cc) close, free')

  module _ (m : Memory Sketch) (p : Processor Sketch) (g : Agrees env cfg m p) where
    -- From a memory that holds what a well-formed processor holds, with its locks free, when nothing
    -- else writes: the rotation can run to its end, and wherever it ends each key has the tracker that
    -- `rotate` leaves it, in whatever order that visits the entries, and the next refusal is warned of
    -- again.
    pub rotation-rotate :
        (order : ℕ → Shard Sketch → Shard Sketch)
        → Visits env order
        → IsValid env p
        → ((i : ℕ) → m.locked i ≡ false)
        → ((u : Memory Sketch) × Rotates env cfg m u waiting)
          × ((u : Memory Sketch)
              → Rotates env cfg m u waiting
              → ((k : TrackerKey) → look env cfg u k ≡ find_tracker env (rotate env order p) k)
                × (u.rejection_warned ≡ false))
    rotation-rotate order visits valid free = (
      (let (u, r, free') = whole_run m g.placed free in (u, r)),
      λ u r.
          let (ended, again) = (Rotates-holds (find_tracker env p) r g.placed g.view).1 in
          (λ k. ended k ∙ sym (find_tracker-rotate env order visits p k valid), again),
    )
