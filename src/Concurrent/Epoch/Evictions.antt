-- ===== src/Concurrent/Epoch/Evictions.antt =====
-- The evictions of a rotation of processor.go, and its way from shard to shard.
use mathlib.Core.Option.{map as map_option}
use otel_cardinality_process.Base.{
  ℕ, suc, ◌≡◌, ◌≢◌, refl, sym, ap, ◌∙◌, subst, Option, Bool, true, false, none, some, List, [], ◌∷◌,
  arith, ite, if_pos, if_neg, if◌then◌else◌, ℕ_discrete,
}
use otel_cardinality_process.Base.Assoc.{lookup, delete, IsMap, lookup-delete, delete-IsMap}
use otel_cardinality_process.Base.Sums.{assign}
use otel_cardinality_process.Concurrent.{Memory, Pointers, Sweep, at_shard}
use otel_cardinality_process.Concurrent.Agreement.{pointer, Placed}
use otel_cardinality_process.Concurrent.Epoch.{Turning, Swept, IsAt, shard_of, look}
use otel_cardinality_process.Config.{Config}
use otel_cardinality_process.External.{Env}
use otel_cardinality_process.Processor.{TrackerKey, key_discrete}
use otel_cardinality_process.Rotation.Maps.{updated, stale as is_stale}
use otel_cardinality_process.Rotation.Shards.{next_epoch, settle}
use otel_cardinality_process.Tracker.{Tracker}

lookup-ite :
    {B : Type 0} (j : TrackerKey) (d : Dec B) (p q : Pointers)
    → lookup key_discrete j (ite d p q) ≡ ite d (lookup key_discrete j p) (lookup key_discrete j q)
lookup-ite j (yes e) p q = refl
lookup-ite j (no n) p q = refl

ite-IsMap :
    {B : Type 0} (d : Dec B) (p q : Pointers)
    → IsMap key_discrete p
    → IsMap key_discrete q
    → IsMap key_discrete (ite d p q)
ite-IsMap (yes e) p q h k = h
ite-IsMap (no n) p q h k = k

module _ (env : Env) (cfg : Config) where
  open env use {Sketch}

  -- The map of shard `i` loses the entry of `k`.
  module _ (m : Memory Sketch) (i : ℕ) (k : TrackerKey) where
    abbrev without : ℕ → Pointers
    without = assign m.shards i (delete key_discrete k (m.shards i))

    abbrev pub evicting_memory : Memory Sketch
    evicting_memory = record m { shards = without }

    module _ (placed : Placed env cfg m) where
      lookup-without :
          (x : ℕ) (j : TrackerKey)
          → lookup key_discrete j (without x)
            ≡ ite
                (ℕ_discrete i x)
                (ite (key_discrete k j) none (lookup key_discrete j (m.shards i)))
                (lookup key_discrete j (m.shards x))
      lookup-without x j =
          lookup-ite j (ℕ_discrete i x) _ _
          ∙ ap (λ o. ite (ℕ_discrete i x) o (lookup key_discrete j (m.shards x)))
              (lookup-delete key_discrete k j (m.shards i) (placed.maps i))

      lookup-kept :
          (x : ℕ) (j : TrackerKey) {a : ℕ}
          → lookup key_discrete j (without x) ≡ some a
          → lookup key_discrete j (m.shards x) ≡ some a
      lookup-kept x j e = ground (arith, sym (lookup-without x j) ∙ e)

      pub lookup-without_self : shard_of env cfg k ≡ i → pointer env cfg evicting_memory k ≡ none
      lookup-without_self e = ground (arith, lookup-without (shard_of env cfg k) k)

      pub lookup-without_other :
          (j : TrackerKey) → k ≢ j → pointer env cfg evicting_memory j ≡ pointer env cfg m j
      lookup-without_other j n = ground (arith, lookup-without (shard_of env cfg j) j)

      pub lookup-without_away :
          (j : TrackerKey)
          → shard_of env cfg j ≢ i
          → pointer env cfg evicting_memory j ≡ pointer env cfg m j
      lookup-without_away j n = ground (arith, lookup-without (shard_of env cfg j) j)

      pub Placed-evict : Placed env cfg evicting_memory
      Placed-evict = record {
        maps = λ x.
            ite-IsMap (ℕ_discrete i x) _ _
              (delete-IsMap key_discrete k (m.shards i) (placed.maps i)) (placed.maps x);
        homed = λ x j e. placed.homed x j (lookup-kept x j e);
        taken = λ j e. placed.taken j (lookup-kept (shard_of env cfg j) j e);
        apart = λ j l e f.
            placed.apart j l (lookup-kept (shard_of env cfg j) j e)
              (lookup-kept (shard_of env cfg l) l f);
      }

  -- What became of the trackers of `V`.
  module _ (V : TrackerKey → Option (Tracker Sketch)) where
    abbrev Here : Memory Sketch → Sweep → Type 0
    Here = IsAt env cfg V

    abbrev home_of : TrackerKey → ℕ
    home_of = shard_of env cfg

    settled_by :
        (b : Bool) (k : TrackerKey) (o : Option (Tracker Sketch))
        → b ≡ is_stale env (V k)
        → b ≡ false
        → o ≡ updated env (V k) (V k)
        → o ≡ next_epoch env (V k)
    settled_by b k o e f u =
        u
        ∙ ap (λ c. if c then none else updated env (V k) (V k)) (sym (sym e ∙ f))
        ∙ settle env (V k)

    gone_by : (k : TrackerKey) → is_stale env (V k) ≡ true → none ≡ next_epoch env (V k)
    gone_by k e = ap (λ c. if c then none else updated env (V k) (V k)) (sym e) ∙ settle env (V k)

    pub Turning-done :
        {m : Memory Sketch} {i : ℕ} {ks : List TrackerKey}
        → Turning env cfg V m i [] ks
        → Swept env cfg V m i ks
    unfolding lookup
    Turning-done h = record {
      others = h.others;
      doomed = λ k here e. sym (h.behind k here refl).1 ∙ e;
      settled = λ k here e. settled_by _ k _ (h.behind k here refl).1 e (h.behind k here refl).0;
    }

    pub Swept-all : {m : Memory Sketch} {i : ℕ} → Swept env cfg V m i [] → Here m (at_shard (suc i))
    Swept-all {m} {i} h k = (
      λ lt. elim (ℕ_discrete (home_of k) i) [
        | yes q ↦ h.settled k q refl
        | no n ↦ (h.others k).0 (omega (arith, lt, n))
      ],
      λ le. (h.others k).1 (omega (arith, le)),
    )

    pub snapshot-Turning :
        {m : Memory Sketch} {i : ℕ} (entries : Pointers)
        → Placed env cfg m
        → IsMap key_discrete entries
        → ((k : TrackerKey) → lookup key_discrete k entries ≡ lookup key_discrete k (m.shards i))
        → Here m (at_shard i)
        → Turning env cfg V m i entries []
    snapshot-Turning {m} {i} entries placed one same h = record {
      one = one;
      exact = λ k e. sym (same k) ∙ e;
      others = λ k. ((h k).0, λ lt. (h k).1 (omega (arith, lt)));
      ahead = λ k e. ((h k).1 (omega (arith, placed.homed i k (sym (same k) ∙ e))), refl);
      behind = λ k here e.
          let gone : look env cfg m k ≡ none = ap (map_option m.heap) (
            subst (λ x. lookup key_discrete k (m.shards x) ≡ none) (sym here) (sym (same k) ∙ e)) in
          let old : V k ≡ none = sym ((h k).1 (omega (arith, here))) ∙ gone in rw old (gone, refl);
    }

    pub Swept-evict :
        {m : Memory Sketch} {i : ℕ} {k : TrackerKey} {ks : List TrackerKey}
        → (placed : Placed env cfg m) → Swept env cfg V m i (k ∷ ks)
        → Swept env cfg V (evicting_memory m i k) i ks
    Swept-evict {m} {i} {k} {ks} placed h = record {
      others = λ j. (
        λ lt.
            ap (map_option m.heap) (lookup-without_away m i k placed j (omega (arith, lt)))
            ∙ (h.others j).0 lt,
        λ lt.
            ap (map_option m.heap) (lookup-without_away m i k placed j (omega (arith, lt)))
            ∙ (h.others j).1 lt,
      );
      doomed = λ j here e. h.doomed j here (ground (arith, e));
      settled = λ j here e. elim (key_discrete k j) [
        | yes q ↦
            subst (λ x. look env cfg (evicting_memory m i k) x ≡ next_epoch env (V x)) q
              (first (ap home_of q ∙ here))
        | no n ↦
            ap (map_option m.heap) (lookup-without_other m i k placed j n)
            ∙ h.settled j here (if_neg (key_discrete k j) n _ _ ∙ e)
      ];
    }
      where
        first : home_of k ≡ i → look env cfg (evicting_memory m i k) k ≡ next_epoch env (V k)
        first e =
            ap (map_option m.heap) (lookup-without_self m i k placed e)
            ∙ gone_by k (h.doomed k e (if_pos (key_discrete k k) refl _ _))
