-- ===== src/Processor.antt =====
-- The state of cardinalityprocessor/processor.go and the decision on one label value:
-- newCardinalityProcessor, getShard, isProtected, getLimit and shouldDrop. A run is sequential: a
-- section that the source holds a lock for is one step, and a tracker is read and written through
-- the map of its shard.
pub mod Store
pub mod Keeps
pub mod Cases
pub mod Accounting
pub mod Decision
pub mod Initial
use Prim.Native.Nat.{bit_and}
use otel_cardinality_process.Base.{
  ℕ, ◌-◌, String, ◌≡◌, ap, Bool, true, false, ◌&&◌, Option, none, some, List, [], ◌∷◌, leb, ltb,
  if◌then◌else◌, get_or, set, replicate, text_discrete,
}
use otel_cardinality_process.Base.Assoc.{lookup, insert as insert_entry}
use otel_cardinality_process.Base.Int.{ℤ, pos, ltb_ℤ, leb_ℤ, signed64, to_uint64, add64, sub_words}
use otel_cardinality_process.Config.{Config, resolved_enforcement_mode}
use otel_cardinality_process.External.{Env}
use otel_cardinality_process.Tracker.{Tracker, insert, new_tracker}

abbrev pub num_shards : ℕ
num_shards = 256

pub record TrackerKey : Type 0 where
  pub metric_name : String
  pub attr_key : String

key_of_names :
    (a b : TrackerKey)
    → Dec (a.metric_name ≡ b.metric_name)
    → Dec (a.attr_key ≡ b.attr_key)
    → Dec (a ≡ b)
key_of_names a b (yes p) (yes q) = yes (λ i. record { metric_name = p i; attr_key = q i })
key_of_names a b (no p) q = no (λ e. p (ap (λ (k : TrackerKey). k.metric_name) e))
key_of_names a b (yes p) (no q) = no (λ e. q (ap (λ (k : TrackerKey). k.attr_key) e))

unfoldable pub key_discrete : Discrete TrackerKey
unfolding key_of_names
key_discrete a b =
    key_of_names a b (text_discrete a.metric_name b.metric_name)
      (text_discrete a.attr_key b.attr_key)

-- A shard is its map of trackers.
abbrev pub Shard : Type 0 → Type 0
Shard S = List (TrackerKey × Tracker S)

pub record Offender : Type 0 where
  pub metric_name : String
  pub label_key : String
  pub delta : ℕ

-- The log records that the processor writes.
pub data Log : Type 0 where
  rotating starting shutting_down : Log
  dropping : String → String → Log
  limit_reached : ℤ → Log
  evicted : ℕ → Log
  suppressed : ℕ → ℕ → Log
  top_offender : Offender → Log

-- The atomic counters are bit patterns of an `int64`; `logs` holds the log records, newest first.
-- The map seed is part of `Env.shard_hash`.
pub record Processor (S : Type 0) : Type 0 where
  pub config : Config
  pub protected_labels : List String
  pub shards : List (Shard S)
  pub enforcement_mode : String
  pub labels_stripped : ℕ
  pub tracker_count : ℕ
  pub trackers_rejected : ℕ
  pub rejection_warned : Bool
  pub drop_log_count : ℕ
  pub drops_this_epoch : ℕ
  pub top_offenders : List Offender
  pub logs : List Log

-- `to_lower` is `strings.ToLower`.
unfoldable pub new_cardinality_processor : {S : Type 0} → (String → String) → Config → Processor S
new_cardinality_processor to_lower cfg = record {
  config = cfg;
  protected_labels = cfg.never_drop_labels;
  shards = replicate num_shards [];
  enforcement_mode = resolved_enforcement_mode to_lower cfg;
  labels_stripped = 0;
  tracker_count = 0;
  trackers_rejected = 0;
  rejection_warned = false;
  drop_log_count = 0;
  drops_this_epoch = 0;
  top_offenders = [];
  logs = [];
}

-- Membership in the set of protected labels.
unfoldable pub mem_text : String → List String → Bool
mem_text k [] = false
mem_text k (l ∷ ls) = elim (text_discrete l k) [ yes _ ↦ true | no _ ↦ mem_text k ls ]

-- The part of `getLimit` behind the processor.
unfoldable pub config_limit : Config → String → ℕ
config_limit cfg metric_name = elim (lookup text_discrete metric_name cfg.metric_overrides) [
  | some v ↦ to_uint64 v
  | none ↦ to_uint64 cfg.max_cardinality_delta_per_epoch
]

-- The test of `MaxTrackerCount` against the counter.
abbrev pub at_limit : Config → ℕ → Bool
at_limit cfg count =
    ltb_ℤ (pos 0) cfg.max_tracker_count && leb_ℤ cfg.max_tracker_count (signed64 count)

module _ {S : Type 0} where
  abbrev pub log : Log → Processor S → Processor S
  log l p = record p { logs = l ∷ p.logs }

  unfoldable pub is_protected : Processor S → String → Bool
  unfolding mem_text
  is_protected p key = mem_text key p.protected_labels

  unfoldable pub get_limit : Processor S → String → ℕ
  unfolding config_limit
  get_limit p metric_name = config_limit p.config metric_name

module _ (env : Env) where
  open env use {Sketch, hll, sum64, shard_hash}

  -- The index of the shard of a metric.
  unfoldable pub get_shard : String → ℕ
  get_shard metric_name = bit_and (shard_hash metric_name) (num_shards - 1)

  abbrev pub shard_at : Processor Sketch → ℕ → Shard Sketch
  shard_at p i = get_or p.shards i []

  abbrev pub find_tracker : Processor Sketch → TrackerKey → Option (Tracker Sketch)
  find_tracker p key = lookup key_discrete key (shard_at p (get_shard key.metric_name))

  -- A write to the shard's map, or through a tracker's pointer in it.
  unfoldable pub store : TrackerKey → Tracker Sketch → Processor Sketch → Processor Sketch
  store key t p = record p {
    shards =
        let i = get_shard key.metric_name in
        set p.shards i (insert_entry key_discrete key t (shard_at p i));
  }

  -- `shouldDrop`, phase 2: under the write lock a tracker is found after all, refused because
  -- MaxTrackerCount is reached, or made.
  abbrev pub is_full : Processor Sketch → Bool
  is_full p = at_limit p.config p.tracker_count

  unfoldable pub reject_tracker : Processor Sketch → Processor Sketch
  reject_tracker p =
      let q = record p {
        trackers_rejected = add64 p.trackers_rejected 1;
        rejection_warned = true;
      } in
      if p.rejection_warned then q else log (limit_reached p.config.max_tracker_count) q

  unfoldable pub add_tracker : TrackerKey → Processor Sketch → Processor Sketch
  unfolding store
  add_tracker key p = record (store key (new_tracker hll) p) {
    tracker_count = add64 p.tracker_count 1;
  }

  unfoldable pub create_tracker :
      TrackerKey → Processor Sketch → Option (Tracker Sketch) × Processor Sketch
  create_tracker key p = elim (find_tracker p key) [
    | some t ↦ (some t, p)
    | none ↦
        if is_full p then (none, reject_tracker p) else (some (new_tracker hll), add_tracker key p)
  ]

  -- The part of `shouldDrop` behind the map: the insert, and the test of the growth.
  unfoldable pub measure :
      TrackerKey → ℕ → Tracker Sketch → Processor Sketch → Bool × Processor Sketch
  measure key hash_val t p =
      let (t', curr, prev) = insert hll hash_val t in
      (
        (if leb curr prev then false else ltb (get_limit p key.metric_name) (sub_words curr prev)),
        store key t' p,
      )

  abbrev measure_created :
      TrackerKey → ℕ → Option (Tracker Sketch) × Processor Sketch → Bool × Processor Sketch
  measure_created key hash_val (none, p) = (false, p)
  measure_created key hash_val (some t, p) = measure key hash_val t p

  unfoldable pub should_drop : String → String → String → Processor Sketch → Bool × Processor Sketch
  unfolding measure create_tracker
  should_drop metric_name attr_key attr_val p =
      let key : TrackerKey = record { metric_name = metric_name; attr_key = attr_key } in
      elim (find_tracker p key) [
        | some t ↦ measure key (sum64 attr_val) t p
        | none ↦ measure_created key (sum64 attr_val) (create_tracker key p)
      ]
