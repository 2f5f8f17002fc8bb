-- ===== src/Concurrent/Agreement.antt =====
-- A memory of pointers against a processor whose maps hold the trackers themselves, with the writes
-- of shouldDrop of processor.go on both.
use mathlib.Core.Option.{map as map_option}
use otel_cardinality_process.Base.{
  ℕ, ◌<◌, ◌≡◌, ◌≢◌, refl, sym, ap, ◌∙◌, Option, Bool, true, false, none, some, ite, if_pos, if_neg,
  length, ℕ_discrete, subst, ◌∷◌,
}
use otel_cardinality_process.Base.Assoc.{lookup, IsMap}
use otel_cardinality_process.Base.Int.{add64}
use otel_cardinality_process.Base.Sums.{assign}
use otel_cardinality_process.Concurrent.{Memory}
use otel_cardinality_process.Config.{Config}
use otel_cardinality_process.External.{Env}
use otel_cardinality_process.Processor.{
  Processor, TrackerKey, key_discrete, get_shard, find_tracker, store, reject_tracker,
  limit_reached,
}
use otel_cardinality_process.Processor.Store.{find_tracker-store, length-store}
use otel_cardinality_process.Tracker.{Tracker}

module _ (env : Env) (cfg : Config) where
  open env use {Sketch, hll, sum64}

  -- The pointer of a key.
  abbrev pub pointer : Memory Sketch → TrackerKey → Option ℕ
  pointer m k = lookup key_discrete k (m.shards (get_shard env k.metric_name))

  -- Keys stand in the map of their shard, and no two share a tracker.
  pub record Placed (m : Memory Sketch) : Type 0 where
    pub maps : (i : ℕ) → IsMap key_discrete (m.shards i)
    pub homed :
        (i : ℕ) (k : TrackerKey) {a : ℕ}
        → lookup key_discrete k (m.shards i) ≡ some a
        → get_shard env k.metric_name ≡ i
    pub apart : (k j : TrackerKey) {a : ℕ} → pointer m k ≡ some a → pointer m j ≡ some a → k ≡ j
    pub taken : (k : TrackerKey) {a : ℕ} → pointer m k ≡ some a → a < m.fresh

  -- A step that leaves the maps alone.
  pub Placed-same :
      {m m' : Memory Sketch} → m'.shards ≡ m.shards → m'.fresh ≡ m.fresh → Placed m → Placed m'
  Placed-same e f g = record {
    maps = rw e g.maps;
    homed = rw e g.homed;
    apart = rw e g.apart;
    taken = rw (e, f) g.taken;
  }

  -- The memory holds what the processor holds.
  pub record Agrees (m : Memory Sketch) (p : Processor Sketch) : Type 0 where
    pub same_config : p.config ≡ cfg
    pub width : length p.shards ≡ 256
    pub placed : Placed m
    pub view : (k : TrackerKey) → map_option m.heap (pointer m k) ≡ find_tracker env p k
    pub same_count : m.tracker_count ≡ p.tracker_count
    pub same_rejected : m.trackers_rejected ≡ p.trackers_rejected
    pub same_warned : m.rejection_warned ≡ p.rejection_warned
    pub same_logs : m.logs ≡ p.logs

  pub relock :
      {m : Memory Sketch} {p : Processor Sketch} (l : ℕ → Bool)
      → Agrees m p
      → Agrees (record m { locked = l }) p
  relock l g = record {
    same_config = g.same_config;
    width = g.width;
    view = g.view;
    placed = Placed-same refl refl g.placed;
    same_count = g.same_count;
    same_rejected = g.same_rejected;
    same_warned = g.same_warned;
    same_logs = g.same_logs;
  }

  -- The write through a pointer is the write of that key's tracker.
  module _ (key : TrackerKey) (m : Memory Sketch) (p : Processor Sketch) (g : Agrees m p) (a : ℕ)
      (t : Tracker Sketch) (here : pointer m key ≡ some a) where
    view-write :
        (k : TrackerKey)
        → map_option (assign m.heap a t) (pointer m k)
          ≡ ite (key_discrete key k) (some t) (find_tracker env p k)
    view-write k = elim (key_discrete key k) [
      | yes q ↦
          ap (map_option (assign m.heap a t)) (subst (λ j. pointer m j ≡ some a) q here)
          ∙ ap some (if_pos (ℕ_discrete a a) refl t (m.heap a))
          ∙ sym (if_pos (key_discrete key k) q (some t) (find_tracker env p k))
      | no n ↦
          unwritten k n (pointer m k) refl (g.view k)
          ∙ sym (if_neg (key_discrete key k) n (some t) (find_tracker env p k))
    ]
      where
        unwritten :
            (k : TrackerKey)
            → key ≢ k
            → (o : Option ℕ) → pointer m k ≡ o
            → map_option m.heap (pointer m k) ≡ find_tracker env p k
            → map_option (assign m.heap a t) (pointer m k) ≡ find_tracker env p k
        unwritten k n none e v = rw e (rw e at v)
        unwritten k n (some b) e v =
            rw
              (
                e,
                if_neg (ℕ_discrete a b)
                    (λ q.
                      n (g.placed.apart key k here (subst (λ x. pointer m k ≡ some x) (sym q) e)))
                    t (m.heap b),
              )
              (rw e at v)

    pub Agrees-write : Agrees (record m { heap = assign m.heap a t }) (store env key t p)
    unfolding store
    Agrees-write = record {
      same_config = g.same_config;
      width = length-store env p g.width key t;
      view = λ k. view-write k ∙ sym (find_tracker-store env p g.width key k t);
      placed = Placed-same refl refl g.placed;
      same_count = g.same_count;
      same_rejected = g.same_rejected;
      same_warned = g.same_warned;
      same_logs = g.same_logs;
    }

  pub Agrees-reject_again :
      (m : Memory Sketch) (p : Processor Sketch)
      → Agrees m p
      → m.rejection_warned ≡ true
      → Agrees (record m { trackers_rejected = add64 m.trackers_rejected 1 }) (reject_tracker env p)
  unfolding reject_tracker
  Agrees-reject_again m p g e = rw (sym g.same_warned ∙ e) record {
    same_config = g.same_config;
    width = g.width;
    view = g.view;
    placed = Placed-same refl refl g.placed;
    same_count = g.same_count;
    same_rejected = ap (λ n. add64 n 1) g.same_rejected;
    same_warned = e;
    same_logs = g.same_logs;
  }

  abbrev pub warned_memory : Memory Sketch → Memory Sketch
  warned_memory m = record m {
    trackers_rejected = add64 m.trackers_rejected 1;
    rejection_warned = true;
    logs = limit_reached cfg.max_tracker_count ∷ m.logs;
  }

  pub Agrees-reject_first :
      (m : Memory Sketch) (p : Processor Sketch)
      → Agrees m p
      → m.rejection_warned ≡ false
      → Agrees (warned_memory m) (reject_tracker env p)
  unfolding reject_tracker
  Agrees-reject_first m p g e = rw (sym g.same_warned ∙ e) record {
    same_config = g.same_config;
    width = g.width;
    view = g.view;
    placed = Placed-same refl refl g.placed;
    same_count = g.same_count;
    same_rejected = ap (λ n. add64 n 1) g.same_rejected;
    same_warned = refl;
    same_logs = rw (g.same_config, g.same_logs) refl;
  }
