-- ===== src/Processor/Accounting.antt =====
-- The bookkeeping of trackers in `shouldDrop` of processor.go: the maps, their number and the bound
-- MaxTrackerCount.
use otel_cardinality_process.Base.{
  ℕ, suc, ◌%◌, ◌≤◌, ◌≡◌, refl, String, true, false, inl, inr, none, some, arith, length,
  Option-cases, Bool-cases, ◌&&◌, if_pos, ite,
}
use otel_cardinality_process.Base.Int.{ℤ, pos, negsuc, to_ℕ, ltb_ℤ, leb_ℤ, signed64, u64_mod}
use otel_cardinality_process.External.{Env}
use otel_cardinality_process.Processor.{
  Processor, TrackerKey, find_tracker, store, is_full, reject_tracker, add_tracker, measure,
  should_drop, key_discrete,
}
use otel_cardinality_process.Processor.Cases.{
  key_of, should_drop_found, should_drop_full, should_drop_new,
}
use otel_cardinality_process.Processor.Store.{
  total, AreMaps, store-AreMaps, total-store_new, total-store_old, length-store, find_tracker-store,
}
use otel_cardinality_process.Tracker.{Tracker, new_tracker, insert}

-- A limit on the number of trackers that passes validation and is set.
abbrev pub IsLimited : ℤ → Type 0
IsLimited limit = (ltb_ℤ (pos 0) limit ≡ true) × (leb_ℤ limit (pos 10_000_000) ≡ true)

room_below :
    (limit : ℤ) (n all : ℕ)
    → n ≡ all % u64_mod
    → IsLimited limit
    → all ≤ to_ℕ limit
    → (ltb_ℤ (pos 0) limit && leb_ℤ limit (signed64 n)) ≡ false
    → suc all ≤ to_ℕ limit
room_below (pos m) n all e l h r = ground arith
room_below (negsuc m) n all e l h r = ground arith

module _ (env : Env) where
  open env use {Sketch, hll}

  -- The shard array has its 256 maps, in which no key occurs twice; the atomic counter is their
  -- number of trackers, as a 64-bit word; and a limit that is set is kept.
  pub record IsValid (p : Processor Sketch) : Type 0 where
    pub width : length p.shards ≡ 256
    pub maps : AreMaps p.shards
    pub counted : p.tracker_count ≡ total p.shards % u64_mod
    pub bounded :
        IsLimited p.config.max_tracker_count → total p.shards ≤ to_ℕ p.config.max_tracker_count

  -- Storing a tracker under a key that has one.
  store-IsValid :
      (p : Processor Sketch) (key : TrackerKey) (t u : Tracker Sketch)
      → find_tracker env p key ≡ some u
      → IsValid p
      → IsValid (store env key t p)
  unfolding store
  store-IsValid p key t u found v = record {
    width = length-store env p v.width key t;
    maps = store-AreMaps env p v.width key t v.maps;
    counted = rw (total-store_old env p v.width key t {u = u} found) v.counted;
    bounded = λ l. rw (total-store_old env p v.width key t {u = u} found) (v.bounded l);
  }

  pub add_tracker-IsValid :
      (p : Processor Sketch) (key : TrackerKey)
      → find_tracker env p key ≡ none
      → is_full env p ≡ false
      → IsValid p
      → IsValid (add_tracker env key p)
  unfolding add_tracker store
  add_tracker-IsValid p key missing room v =
      let more = total-store_new env p v.width key (new_tracker hll) missing in
      record {
        width = length-store env p v.width key (new_tracker hll);
        maps = store-AreMaps env p v.width key (new_tracker hll) v.maps;
        counted = omega (arith, v.counted, more);
        bounded = λ l. rw more (
            room_below p.config.max_tracker_count p.tracker_count (total p.shards) v.counted l
              (v.bounded l) room);
      }

  reject_tracker-IsValid : (p : Processor Sketch) → IsValid p → IsValid (reject_tracker env p)
  unfolding reject_tracker
  reject_tracker-IsValid p v = elim (Bool-cases p.rejection_warned) [
    | inl e ↦
        rw (e, reject_tracker)
          (record { width = v.width; maps = v.maps; counted = v.counted; bounded = v.bounded })
    | inr e ↦
        rw (e, reject_tracker)
          (record { width = v.width; maps = v.maps; counted = v.counted; bounded = v.bounded })
  ]

  pub find_tracker-add_tracker_any :
      (p : Processor Sketch) (key j : TrackerKey)
      → IsValid p
      → find_tracker env (add_tracker env key p) j
        ≡ ite (key_discrete key j) (some (new_tracker hll)) (find_tracker env p j)
  unfolding add_tracker
  find_tracker-add_tracker_any p key j v = find_tracker-store env p v.width key j (new_tracker hll)

  find_tracker-add_tracker :
      (p : Processor Sketch) (key : TrackerKey)
      → IsValid p
      → find_tracker env (add_tracker env key p) key ≡ some (new_tracker hll)
  find_tracker-add_tracker p key v =
      rw (find_tracker-add_tracker_any p key key v) (if_pos (key_discrete key key) refl _ _)

  measure-IsValid :
      (p : Processor Sketch) (key : TrackerKey) (hash_val : ℕ) (t u : Tracker Sketch)
      → find_tracker env p key ≡ some u
      → IsValid p
      → IsValid (measure env key hash_val t p).1
  unfolding measure
  measure-IsValid p key hash_val t u found v =
      store-IsValid p key (insert hll hash_val t).0 u found v

  -- A decision on a label value keeps the maps well formed, the counter equal to the number of
  -- trackers, and that number within MaxTrackerCount.
  pub should_drop-IsValid :
      (metric_name attr_key attr_val : String) (p : Processor Sketch)
      → IsValid p
      → IsValid (should_drop env metric_name attr_key attr_val p).1
  should_drop-IsValid m k a p v = elim (Option-cases (find_tracker env p (key_of m k))) [
    | inl missing ↦ elim (Bool-cases (is_full env p)) [
      | inl full ↦ rw (should_drop_full env m k a p missing full) (reject_tracker-IsValid p v)
      | inr room ↦ rw (should_drop_new env m k a p missing room) (
          measure-IsValid (add_tracker env (key_of m k) p) (key_of m k) (env.sum64 a)
            (new_tracker hll) (new_tracker hll) (find_tracker-add_tracker p (key_of m k) v)
            (add_tracker-IsValid p (key_of m k) missing room v))
    ]
    | inr (t, found) ↦
        rw (should_drop_found env m k a p found)
          (measure-IsValid p (key_of m k) (env.sum64 a) t t found v)
  ]
