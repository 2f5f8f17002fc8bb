-- ===== src/Concurrent/Creation.antt =====
-- The creation of a tracker by shouldDrop of processor.go, in the memory of pointers and in the maps of
-- the processor.
use mathlib.Core.Option.{map as map_option}
use otel_cardinality_process.Base.{
  ℕ, suc, ◌<◌, ◌≡◌, ◌≢◌, refl, sym, ap, subst, ◌∙◌, Option, none, some, arith, ite, if_pos, if_neg,
  ℕ_discrete, inl, inr, ◌⊎◌,
}
use otel_cardinality_process.Base.Assoc.{lookup, insert, lookup-insert, IsMap, insert-IsMap}
use otel_cardinality_process.Base.Int.{add64}
use otel_cardinality_process.Base.Sums.{assign}
use otel_cardinality_process.Concurrent.{Memory}
use otel_cardinality_process.Config.{Config}
use otel_cardinality_process.External.{Env}
use otel_cardinality_process.Processor.{
  Processor, TrackerKey, key_discrete, get_shard, find_tracker, store, add_tracker,
}
use otel_cardinality_process.Processor.Store.{find_tracker-store, length-store}
use otel_cardinality_process.Tracker.{new_tracker}
use otel_cardinality_process.Concurrent.Agreement.{pointer, Placed, Placed-same, Agrees}

module _ (env : Env) (cfg : Config) where
  open env use {Sketch, hll}

  -- The memory behind the write of a new tracker.
  abbrev pub made : Memory Sketch → TrackerKey → Memory Sketch
  made m key = record m {
    heap = assign m.heap m.fresh (new_tracker hll);
    fresh = suc m.fresh;
    shards =
        assign m.shards (get_shard env key.metric_name)
          (insert key_discrete key m.fresh (m.shards (get_shard env key.metric_name)));
  }

  -- The map behind the write of a new pointer.
  pub pointer-made :
      (m : Memory Sketch) (key k : TrackerKey)
      → pointer env cfg (made m key) k
        ≡ ite (key_discrete key k) (some m.fresh) (pointer env cfg m k)
  pointer-made m key k =
      elim (ℕ_discrete (get_shard env key.metric_name) (get_shard env k.metric_name)) [
        | yes same ↦
            ap (lookup key_discrete k) (
              if_pos (ℕ_discrete (get_shard env key.metric_name) (get_shard env k.metric_name)) same
                _ _)
            ∙ lookup-insert key_discrete key k m.fresh (m.shards (get_shard env key.metric_name))
            ∙ ap (λ i. ite (key_discrete key k) (some m.fresh) (lookup key_discrete k (m.shards i)))
                same
        | no other ↦
            ap (lookup key_discrete k) (
              if_neg (ℕ_discrete (get_shard env key.metric_name) (get_shard env k.metric_name))
                other _ _)
            ∙ sym (
                if_neg (key_discrete key k)
                  (λ e. other (ap (λ (j : TrackerKey). get_shard env j.metric_name) e)) _ _)
      ]

  module _ (m : Memory Sketch) (g : Placed env cfg m) (key : TrackerKey) where
    -- Each key has its old pointer or the new one.
    fresh_or_old :
        (k : TrackerKey) {a : ℕ}
        → pointer env cfg (made m key) k ≡ some a
        → ((key ≡ k) × (a ≡ m.fresh)) ⊎ ((key ≢ k) × (pointer env cfg m k ≡ some a))
    fresh_or_old k {a} e = elim (key_discrete key k) [
      | yes q ↦ inl (
        q,
        (let same : some m.fresh ≡ some a =
              sym (if_pos (key_discrete key k) q _ _) ∙ sym (pointer-made m key k) ∙ e in
            cc),
      )
      | no n ↦ inr (n, sym (if_neg (key_discrete key k) n _ _) ∙ sym (pointer-made m key k) ∙ e)
    ]

    made-homed :
        (i : ℕ) (k : TrackerKey) {a : ℕ}
        → lookup key_discrete k ((made m key).shards i) ≡ some a
        → get_shard env k.metric_name ≡ i
    made-homed i k {a} e = elim (ℕ_discrete (get_shard env key.metric_name) i) [
      | yes here ↦ elim (key_discrete key k) [
        | yes q ↦ sym (ap (λ (j : TrackerKey). get_shard env j.metric_name) q) ∙ here
        | no n ↦
            g.homed (get_shard env key.metric_name) k (
              sym (if_neg (key_discrete key k) n _ _)
              ∙ sym (
                  lookup-insert key_discrete key k m.fresh
                    (m.shards (get_shard env key.metric_name)))
              ∙ sym (
                  ap (lookup key_discrete k)
                    (if_pos (ℕ_discrete (get_shard env key.metric_name) i) here _ _))
              ∙ e)
            ∙ here
      ]
      | no away ↦ g.homed i k (
          sym (
            ap (lookup key_discrete k)
              (if_neg (ℕ_discrete (get_shard env key.metric_name) i) away _ _))
          ∙ e)
    ]

    made-IsMap : (i : ℕ) → IsMap key_discrete ((made m key).shards i)
    made-IsMap i = elim (ℕ_discrete (get_shard env key.metric_name) i) [
      | yes here ↦
          subst (IsMap key_discrete)
            (sym (if_pos (ℕ_discrete (get_shard env key.metric_name) i) here _ _))
            (insert-IsMap key_discrete key m.fresh _ (g.maps _))
      | no away ↦
          subst (IsMap key_discrete)
            (sym (if_neg (ℕ_discrete (get_shard env key.metric_name) i) away _ _)) (g.maps i)
    ]

    made-taken :
        (k : TrackerKey) {a : ℕ} → pointer env cfg (made m key) k ≡ some a → a < suc m.fresh
    made-taken k e = elim (fresh_or_old k e) [
      | inl (q, same) ↦ omega (arith, same)
      | inr (n, old) ↦ omega (arith, g.taken k old)
    ]

    made-apart :
        (k j : TrackerKey) {a : ℕ}
        → pointer env cfg (made m key) k ≡ some a
        → pointer env cfg (made m key) j ≡ some a
        → k ≡ j
    made-apart k j e f = both (fresh_or_old k e) (fresh_or_old j f)
      where
        both :
            {a : ℕ}
            → ((key ≡ k) × (a ≡ m.fresh)) ⊎ ((key ≢ k) × (pointer env cfg m k ≡ some a))
            → ((key ≡ j) × (a ≡ m.fresh)) ⊎ ((key ≢ j) × (pointer env cfg m j ≡ some a))
            → k ≡ j
        both (inl (q, same)) (inl (r, its)) = sym q ∙ r
        both (inl (q, same)) (inr (n, old)) = absurd (omega (arith, same, g.taken j old))
        both (inr (n, old)) (inl (q, same)) = absurd (omega (arith, same, g.taken k old))
        both (inr (n, old)) (inr (o, its)) = g.apart k j old its

    pub Placed-made : Placed env cfg (made m key)
    Placed-made = record {
      maps = made-IsMap;
      homed = made-homed;
      apart = made-apart;
      taken = made-taken;
    }

  module _ (m : Memory Sketch) (p : Processor Sketch) (g : Agrees env cfg m p)
      (key : TrackerKey) where
    made-view :
        (k : TrackerKey)
        → map_option (made m key).heap (pointer env cfg (made m key) k)
          ≡ ite (key_discrete key k) (some (new_tracker hll)) (find_tracker env p k)
    made-view k = elim (key_discrete key k) [
      | yes q ↦
          ap (map_option (made m key).heap)
            (pointer-made m key k ∙ if_pos (key_discrete key k) q _ _)
          ∙ ap some (if_pos (ℕ_discrete m.fresh m.fresh) refl (new_tracker hll) (m.heap m.fresh))
          ∙ sym (if_pos (key_discrete key k) q _ _)
      | no n ↦
          ap (map_option (made m key).heap)
            (pointer-made m key k ∙ if_neg (key_discrete key k) n _ _)
          ∙ unmade (pointer env cfg m k) (λ b below. g.placed.taken k below)
          ∙ g.view k
          ∙ sym (if_neg (key_discrete key k) n _ _)
    ]
      where
        unmade :
            (o : Option ℕ)
            → ((b : ℕ) → o ≡ some b → b < m.fresh)
            → map_option (made m key).heap o ≡ map_option m.heap o
        unmade none below = refl
        unmade (some b) below =
            ap some (if_neg (ℕ_discrete m.fresh b) (λ e. omega (arith, e, below b refl)) _ _)

    pub Agrees-create :
        Agrees env cfg
          (record (made m key) { tracker_count = add64 m.tracker_count 1 })
          (add_tracker env key p)
    unfolding add_tracker store
    Agrees-create = record {
      same_config = g.same_config;
      width = length-store env p g.width key (new_tracker hll);
      placed = Placed-same env cfg refl refl (Placed-made m g.placed key);
      view = λ k. made-view k ∙ sym (find_tracker-store env p g.width key k (new_tracker hll));
      same_count = ap (λ n. add64 n 1) g.same_count;
      same_rejected = g.same_rejected;
      same_warned = g.same_warned;
      same_logs = g.same_logs;
    }
