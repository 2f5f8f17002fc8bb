-- ===== src/Rotation/Epochs.antt =====
-- A whole call of `rotate` of processor.go.
use otel_cardinality_process.Base.{
  ℕ, zero, suc, ◌+◌, ◌-◌, ◌≤◌, ◌<◌, ◌≡◌, refl, sym, ap, ◌∙◌, List, [], ◌∷◌, length, get_or, arith,
  length-set, ℕ_discrete, get_or-set_self, get_or-set_ne, All-get_or, All-set,
}
use otel_cardinality_process.Base.Assoc.{lookup, IsMap}
use otel_cardinality_process.External.{Env}
use otel_cardinality_process.Offenders.{publish_top_offenders}
use otel_cardinality_process.Processor.{
  Processor, Shard, TrackerKey, Offender, key_discrete, shard_at, find_tracker, get_shard, Log, log,
  rotating,
}
use otel_cardinality_process.Processor.Accounting.{IsValid}
use otel_cardinality_process.Processor.Store.{total, total-set, get_shard-lt}
use otel_cardinality_process.Rotation.{rotate_shard, rotate_shards, close_epoch, rotate}
use otel_cardinality_process.Rotation.Maps.{stale_keys, rotated-IsMap, evict-IsMap}
use otel_cardinality_process.Rotation.Shards.{
  Visits, next_epoch, Unwritten, swept, lookup-swept, swept-counted, rotate_shard-state,
}
use otel_cardinality_process.Enforce.Counts.{LogsAgree}

module _ (env : Env) where
  open env use {Sketch}

  module _ (order : ℕ → Shard Sketch → Shard Sketch) (visits : Visits env order) where
    abbrev round : ℕ → Processor Sketch × List Offender → Processor Sketch × List Offender
    round = rotate_shard env order

    round-IsValid :
        (i : ℕ) (s : Processor Sketch × List Offender)
        → i < 256
        → IsValid env s.0
        → IsValid env (round i s).0
    round-IsValid i (p, buf) h v =
        let state = rotate_shard-state env order visits i p buf in
        let m = All-get_or (IsMap key_discrete) p.shards i [] v.maps tt in
        let in_range : i < length p.shards = omega (arith, v.width) in
        let inside = total-set p.shards i [] in_range in
        let done =
          swept-counted env order visits i (shard_at env p i) p.tracker_count
            (total p.shards - length (shard_at env p i)) m (omega (arith, v.counted, inside)) in
        let moved =
          total-set p.shards i (swept env order visits i (shard_at env p i) p.tracker_count).0
            in_range in
        let sum = ap total state.0 in
        record {
          width = ap length state.0 ∙ length-set p.shards i _ ∙ v.width;
          maps = rw state.0 (
              All-set (IsMap key_discrete) p.shards i _ v.maps (
                evict-IsMap env (stale_keys env (order i (shard_at env p i))) _ p.tracker_count
                  (rotated-IsMap env (order i (shard_at env p i)) (shard_at env p i) m)));
          counted = omega (arith, state.1, done.0, moved, inside, sum);
          bounded = rw state.2.config (λ l. omega (arith, done.1, moved, inside, sum, v.bounded l));
        }

    rounds-IsValid :
        (left i : ℕ) (s : Processor Sketch × List Offender)
        → i + left ≤ 256
        → IsValid env s.0
        → IsValid env (rotate_shards env order left i s).0
    unfolding rotate_shards
    rounds-IsValid zero i s h v = v
    rounds-IsValid (suc left) i s h v =
        rounds-IsValid left (i + 1) (round i s) (omega arith) (round-IsValid i s (omega arith) v)

    -- Shards in front of the loop's index keep their maps, the others have them moved on.
    rounds-before :
        (left i : ℕ) (s : Processor Sketch × List Offender) (j : ℕ)
        → j < i
        → shard_at env (rotate_shards env order left i s).0 j ≡ shard_at env s.0 j
    unfolding rotate_shards
    rounds-before zero i s j h = refl
    rounds-before (suc left) i (p, buf) j h =
        rounds-before left (i + 1) (round i (p, buf)) j (omega arith)
        ∙ ap (λ l. get_or l j []) (rotate_shard-state env order visits i p buf).0
        ∙ get_or-set_ne p.shards i j _ [] (λ e. omega (arith, e, h))

    rounds-from :
        (left i : ℕ) (s : Processor Sketch × List Offender) (j : ℕ) (k : TrackerKey)
        → i + left ≤ 256
        → IsValid env s.0
        → i ≤ j
        → j < i + left
        → lookup key_discrete k (shard_at env (rotate_shards env order left i s).0 j)
          ≡ next_epoch env (lookup key_discrete k (shard_at env s.0 j))
    unfolding rotate_shards
    rounds-from zero i s j k h v a b = absurd (omega (arith, a, b))
    rounds-from (suc left) i (p, buf) j k h v a b = elim (ℕ_discrete i j) [
      | yes e ↦
          let state = rotate_shard-state env order visits i p buf in
          rw (← e) (
            ap (lookup key_discrete k)
              (rounds-before left (i + 1) (round i (p, buf)) i (omega arith))
            ∙ ap (λ l. lookup key_discrete k (get_or l i [])) state.0
            ∙ ap (lookup key_discrete k) (get_or-set_self p.shards i _ [] (omega (arith, v.width)))
            ∙ lookup-swept env order visits i (shard_at env p i) p.tracker_count k
                (All-get_or (IsMap key_discrete) p.shards i [] v.maps tt))
      | no n ↦
          rounds-from left (i + 1) (round i (p, buf)) j k (omega arith)
            (round-IsValid i (p, buf) (omega arith) v) (omega (arith, n)) (omega arith)
          ∙ ap (λ l. next_epoch env (lookup key_discrete k (get_or l j [])))
              (rotate_shard-state env order visits i p buf).0
          ∙ ap (λ m. next_epoch env (lookup key_discrete k m)) (get_or-set_ne p.shards i j _ [] n)
    ]

    rounds-Unwritten :
        (left i : ℕ) (s : Processor Sketch × List Offender)
        → Unwritten env (rotate_shards env order left i s).0 s.0
    unfolding rotate_shards
    rounds-Unwritten zero i s = record {
      config = refl;
      mode = refl;
      drops = refl;
      drop_logs = refl;
    }
    rounds-Unwritten (suc left) i (p, buf) =
        let here = (rotate_shard-state env order visits i p buf).2 in
        let rest = rounds-Unwritten left (i + 1) (round i (p, buf)) in
        record {
          config = rest.config ∙ here.config;
          mode = rest.mode ∙ here.mode;
          drops = rest.drops ∙ here.drops;
          drop_logs = rest.drop_logs ∙ here.drop_logs;
        }

  -- What the end of the call leaves alone.
  record Closed (q p : Processor Sketch) : Type 0 where
    shards : q.shards ≡ p.shards
    tracker_count : q.tracker_count ≡ p.tracker_count
    config : q.config ≡ p.config
    drops : q.drops_this_epoch ≡ 0
    drop_logs : q.drop_log_count ≡ 0

  close_epoch-Closed : (p : Processor Sketch) → Closed (close_epoch p) p
  unfolding close_epoch
  close_epoch-Closed p = ground arith

  publish-Closed :
      (buf : List Offender) (q p : Processor Sketch)
      → Closed q p
      → Closed (publish_top_offenders buf q) p
  unfolding publish_top_offenders
  publish-Closed [] q p c = c
  publish-Closed (o ∷ buf) q p c = record {
    shards = c.shards;
    tracker_count = c.tracker_count;
    config = c.config;
    drops = c.drops;
    drop_logs = c.drop_logs;
  }

  Closed-IsValid : (q p : Processor Sketch) → Closed q p → IsValid env p → IsValid env q
  Closed-IsValid q p c v = record {
    width = ap length c.shards ∙ v.width;
    maps = rw c.shards v.maps;
    counted = rw (c.shards, c.tracker_count) v.counted;
    bounded = rw (c.shards, c.config) v.bounded;
  }

  logged-IsValid : (l : Log) (p : Processor Sketch) → IsValid env p → IsValid env (log l p)
  logged-IsValid l p v = record {
    width = v.width;
    maps = v.maps;
    counted = v.counted;
    bounded = v.bounded;
  }

  module _ (order : ℕ → Shard Sketch → Shard Sketch) (visits : Visits env order)
      (p : Processor Sketch) where
    -- The state and the report when the loop over the shards is over.
    abbrev rounds : Processor Sketch × List Offender
    rounds = rotate_shards env order 256 0 (log rotating p, [])

    rotate-Closed : Closed (rotate env order p) rounds.0
    unfolding rotate
    rotate-Closed =
        publish-Closed rounds.1 (close_epoch rounds.0) rounds.0 (close_epoch-Closed rounds.0)

    -- In a well-formed state, and when the range over a map visits each entry once, a rotation
    -- removes the trackers that saw no insert in this epoch and in the one before, moves the
    -- sketches of every other tracker on, and makes none.
    pub find_tracker-rotate :
        (key : TrackerKey)
        → IsValid env p
        → find_tracker env (rotate env order p) key ≡ next_epoch env (find_tracker env p key)
    find_tracker-rotate key v =
        ap (λ l. lookup key_discrete key (get_or l (get_shard env key.metric_name) []))
          rotate-Closed.shards
        ∙ rounds-from order visits 256 0 (log rotating p, []) (get_shard env key.metric_name) key
            (omega arith) (logged-IsValid rotating p v) (omega arith)
            (omega (arith, get_shard-lt env key.metric_name))

    -- When the range over a map visits each entry once, a rotation keeps the tracker maps, their
    -- counter and the bound MaxTrackerCount.
    pub rotate-IsValid : IsValid env p → IsValid env (rotate env order p)
    rotate-IsValid v = Closed-IsValid (rotate env order p) rounds.0 rotate-Closed (
        rounds-IsValid order visits 256 0 (log rotating p, []) (omega arith)
          (logged-IsValid rotating p v))

    pub rotate-config : (rotate env order p).config ≡ p.config
    rotate-config =
        rotate-Closed.config ∙ (rounds-Unwritten order visits 256 0 (log rotating p, [])).config

    pub rotate-LogsAgree : LogsAgree (rotate env order p)
    rotate-LogsAgree = record {
      limited = λ h. rotate-Closed.drop_logs ∙ sym rotate-Closed.drops;
      unlimited = λ h. rotate-Closed.drop_logs;
    }
