-- ===== src/Concurrent/Sweeps.antt =====
-- A step of the rotation keeps the invariant.
use mathlib.Core.List.{append-nil}
use otel_cardinality_process.Base.{
  ℕ, ◌%◌, ◌+◌, suc, ◌≤◌, ◌<◌, ◌≡◌, refl, sym, subst, Option, none, List, ◌∷◌, arith, ite, if_pos,
  if_neg, length, get_or, ℕ_discrete,
}
use otel_cardinality_process.Base.Assoc.{
  lookup, delete, IsMap, delete-IsMap, lookup-delete, length-delete,
}
use otel_cardinality_process.Base.Int.{u64_mod, to_ℕ}
use otel_cardinality_process.Base.Sums.{assign, sum_below, sum_below-le}
use otel_cardinality_process.Concurrent.{
  evicting, Memory, Pc, absent, admitted, Call, Sweep, Turn, tick, snapshot, turn, none_stale,
  some_stale, lock, evict, discount, unlock, finish, close,
}
use otel_cardinality_process.Concurrent.Calls.{limit_small}
use otel_cardinality_process.Concurrent.Lookups.{flag-le}
use otel_cardinality_process.Concurrent.Counts.{
  holds, owes, passed, flag, sweep_holds, overcounted, home_of, calls_at, calls_at_mono, size,
  size-assign, owes-le, passed-le,
}
use otel_cardinality_process.Concurrent.Invariant.{
  Inv, IsUnseen, IsSwept, Listed, Listed-delete, Listed-turn, snapshot-Listed, keys_of,
}
use otel_cardinality_process.Concurrent.System.{no_call}
use otel_cardinality_process.Config.{Config}
use otel_cardinality_process.External.{Env}
use otel_cardinality_process.Processor.{TrackerKey, key_discrete}
use otel_cardinality_process.Processor.Accounting.{IsLimited}
use otel_cardinality_process.Rotation.{advance}

ite-none {ℓ} : {P : Type 0} {A : Type ℓ} (d : Dec P) (o : Option A) → o ≡ none → ite d none o ≡ none
ite-none (yes p) o e = refl
ite-none (no n) o e = e

module _ (env : Env) (cfg : Config) (m : Memory env.hll.Sketch) (cs : List Call) where
  open env use {Sketch}

  abbrev Turns : Sweep → Memory Sketch → Sweep → Type 0
  Turns = Turn env cfg m

  Turn-maps :
      {w w' : Sweep} {m' : Memory Sketch}
      → Turns w m' w'
      → ((i : ℕ) → IsMap key_discrete (m.shards i))
      → (i : ℕ) → IsMap key_discrete (m'.shards i)
  Turn-maps (evict {i = s} {k}) maps i = elim (ℕ_discrete s i) [
    | yes q ↦
        rw (if_pos (ℕ_discrete s i) q (delete key_discrete k (m.shards s)) (m.shards i))
          (delete-IsMap key_discrete k (m.shards s) (maps s))
    | no n ↦
        rw (if_neg (ℕ_discrete s i) n (delete key_discrete k (m.shards s)) (m.shards i)) (maps i)
  ]
  Turn-maps tn maps i = maps i

  Turn-excluded :
      {w w' : Sweep} {m' : Memory Sketch}
      → Turns w m' w'
      → (i : ℕ) → calls_at env holds cs i + sweep_holds w i ≡ flag (m.locked i)
      → calls_at env holds cs i + sweep_holds w' i ≡ flag (m'.locked i)
  Turn-excluded (lock {i = s} free) i h = ground arith
  Turn-excluded (unlock {i = s}) i h = ground arith
  Turn-excluded tn i h = ground arith

  -- While the rotation holds the lock of a shard, no call there owes a count.
  none_owed :
      {w : Sweep} (inv : Inv env cfg m cs w) (i : ℕ)
      → sweep_holds w i ≡ 1
      → calls_at env owes cs i ≡ 0
  none_owed inv i e = omega (
    arith,
    inv.excluded i,
    e,
    flag-le (m.locked i),
    calls_at_mono env owes passed cs i owes-le,
    calls_at_mono env passed holds cs i passed-le,
  )

  Turn-backed :
      {w w' : Sweep} {m' : Memory Sketch}
      → Turns w m' w'
      → Inv env cfg m cs w
      → (i : ℕ) → calls_at env owes cs i ≤ length (m'.shards i)
  Turn-backed (evict {i = s} {k}) inv i = elim (ℕ_discrete s i) [
    | yes q ↦ omega (arith, none_owed inv i (if_pos (ℕ_discrete s i) q 1 0))
    | no n ↦
        rw (if_neg (ℕ_discrete s i) n (delete key_discrete k (m.shards s)) (m.shards i))
          (inv.backed i)
  ]
  Turn-backed tn inv i = inv.backed i

  -- An eviction takes one tracker out of the maps.
  size-evict :
      (s : ℕ) (k : TrackerKey) (ks : List TrackerKey)
      → Inv env cfg m cs (evicting s (k ∷ ks))
      → suc (sum_below 256 (λ i. length (assign m.shards s (delete key_discrete k (m.shards s)) i)))
        ≡ size m
  size-evict s k ks inv =
      let here = inv.swept.1.present k (if_pos (key_discrete k k) refl _ _) in
      omega (
        arith,
        size-assign m.shards s (delete key_discrete k (m.shards s)) inv.swept.0,
        length-delete key_discrete k {w = here.0} (m.shards s) here.1,
      )

  Turn-counted :
      {w w' : Sweep} {m' : Memory Sketch}
      → Turns w m' w'
      → Inv env cfg m cs w
      → IsLimited cfg.max_tracker_count
      → size m' + overcounted w' ≡ m'.tracker_count + sum_below 256 (calls_at env owes cs)
  Turn-counted (evict {i = s} {k} {ks}) inv l = omega (arith, inv.counted l, size-evict s k ks inv)
  Turn-counted discount inv l = omega (
    arith,
    inv.counted l,
    inv.bounded l,
    limit_small cfg.max_tracker_count l,
    sum_below-le 256 (calls_at env owes cs) (λ i. length (m.shards i)) inv.backed,
  )
  Turn-counted tn inv l = omega (arith, inv.counted l)

  Turn-word :
      {w w' : Sweep} {m' : Memory Sketch}
      → Turns w m' w'
      → Inv env cfg m cs w
      → m'.tracker_count < u64_mod
  Turn-word discount inv = omega arith
  Turn-word tn inv = inv.word

  Turn-congruent :
      {w w' : Sweep} {m' : Memory Sketch}
      → Turns w m' w'
      → Inv env cfg m cs w
      → (size m' + overcounted w') % u64_mod
        ≡ (m'.tracker_count + sum_below 256 (calls_at env owes cs)) % u64_mod
  Turn-congruent (evict {i = s} {k} {ks}) inv = omega (arith, inv.congruent, size-evict s k ks inv)
  Turn-congruent discount inv = omega (arith, inv.congruent, inv.word)
  Turn-congruent tn inv = omega (arith, inv.congruent)

  Turn-bounded :
      {w w' : Sweep} {m' : Memory Sketch}
      → Turns w m' w'
      → Inv env cfg m cs w
      → IsLimited cfg.max_tracker_count
      → m'.tracker_count + sum_below 256 (calls_at env passed cs) ≤ to_ℕ cfg.max_tracker_count + 255
  Turn-bounded discount inv l = omega (
    arith,
    inv.counted l,
    inv.bounded l,
    limit_small cfg.max_tracker_count l,
    sum_below-le 256 (calls_at env owes cs) (λ i. length (m.shards i)) inv.backed,
  )
  Turn-bounded tn inv l = inv.bounded l

  deleted_none :
      (s i : ℕ) (k j : TrackerKey)
      → IsMap key_discrete (m.shards s)
      → lookup key_discrete j (m.shards i) ≡ none
      → lookup key_discrete j (assign m.shards s (delete key_discrete k (m.shards s)) i) ≡ none
  deleted_none s i k j maps e = elim (ℕ_discrete s i) [
    | yes q ↦
        rw
          (
            if_pos (ℕ_discrete s i) q (delete key_discrete k (m.shards s)) (m.shards i),
            lookup-delete key_discrete k j (m.shards s) maps,
          )
          (ite-none (key_discrete k j) _
            (subst (λ x. lookup key_discrete j (m.shards x) ≡ none) (sym q) e))
    | no n ↦ rw (if_neg (ℕ_discrete s i) n (delete key_discrete k (m.shards s)) (m.shards i)) e
  ]

  Turn-IsUnseen :
      {w w' : Sweep} {m' : Memory Sketch}
      → Turns w m' w'
      → Inv env cfg m cs w
      → (d : Call) (pc : Pc) → IsUnseen env cfg m d pc
      → IsUnseen env cfg m' d pc
  Turn-IsUnseen (evict {i = s} {k}) inv d absent u =
      deleted_none s (home_of env d) k d.key (inv.maps s) u
  Turn-IsUnseen (evict {i = s} {k}) inv d admitted u =
      deleted_none s (home_of env d) k d.key (inv.maps s) u
  Turn-IsUnseen (evict {i = s} {k}) inv d pc u = tt
  Turn-IsUnseen tn inv d pc u = u

  Turn-swept :
      {w w' : Sweep} {m' : Memory Sketch} → Turns w m' w' → Inv env cfg m cs w → IsSwept m' w'
  Turn-swept tick inv = tt
  Turn-swept (snapshot {i} entries below free one same) inv =
      (below, snapshot-Listed entries (m.shards i) one same)
  Turn-swept (turn {i} {a} {k} {entries} {ks}) inv = (
    inv.swept.0,
    Listed-turn (m.shards i) ks (keys_of entries) k (advance env (m.heap a)).1 inv.swept.1,
  )
  Turn-swept none_stale inv = tt
  Turn-swept (some_stale {i} {k} {ks}) inv =
      (inv.swept.0, subst (Listed (m.shards i)) (append-nil (k ∷ ks)) inv.swept.1)
  Turn-swept (lock free) inv = inv.swept
  Turn-swept (evict {i} {k} {ks}) inv = (
    inv.swept.0,
    rw (if_pos (ℕ_discrete i i) refl (delete key_discrete k (m.shards i)) (m.shards i))
        (Listed-delete (m.shards i) k ks (inv.maps i) inv.swept.1),
  )
  Turn-swept discount inv = inv.swept
  Turn-swept unlock inv = tt
  Turn-swept (finish e) inv = tt
  Turn-swept close inv = tt

  -- A step of the rotation keeps the invariant.
  pub Turn-Inv :
      {w w' : Sweep} {m' : Memory Sketch}
      → Turns w m' w'
      → Inv env cfg m cs w
      → Inv env cfg m' cs w'
  Turn-Inv tn inv = record {
    maps = Turn-maps tn inv.maps;
    excluded = λ i. Turn-excluded tn i (inv.excluded i);
    backed = Turn-backed tn inv;
    counted = Turn-counted tn inv;
    word = Turn-word tn inv;
    congruent = Turn-congruent tn inv;
    bounded = Turn-bounded tn inv;
    unseen = λ j lt.
        Turn-IsUnseen tn inv (get_or cs j no_call) (get_or cs j no_call).pc (inv.unseen j lt);
    swept = Turn-swept tn inv;
  }
