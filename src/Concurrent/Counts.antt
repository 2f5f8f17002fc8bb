-- ===== src/Concurrent/Counts.antt =====
-- Who is in the critical section of a shard, and what the goroutines still owe to the counter of
-- trackers.
use otel_cardinality_process.Base.{
  ℕ, ◌+◌, ◌≤◌, ◌<◌, ◌≡◌, ◌≢◌, Bool, true, false, List, arith, refl, sym, ap, ite, if_pos, if_neg,
  ℕ_discrete, length, get_or, set,
}
use otel_cardinality_process.Base.Sums.{
  sum_by, sum_by-set, sum_by_mono, sum_below, sum_below-change, assign,
}
use otel_cardinality_process.Concurrent.{
  Memory, Pointers, Pc, holding, absent, admitted, stored, leaving, refused, Call, Sweep, evicting,
  evicted,
}
use otel_cardinality_process.Concurrent.System.{no_call}
use otel_cardinality_process.External.{Env}
use otel_cardinality_process.Processor.{get_shard}
use otel_cardinality_process.Processor.Store.{get_shard-lt}

-- A call that holds the write lock of its shard.
abbrev pub holds : Pc → ℕ
holds holding = 1
holds absent = 1
holds admitted = 1
holds (stored _) = 1
holds (leaving _) = 1
holds refused = 1
holds _ = 0

-- A tracker that is in the map and not counted.
abbrev pub owes : Pc → ℕ
owes (stored _) = 1
owes _ = 0

-- A call that has passed the test, and has not counted its tracker.
abbrev pub passed : Pc → ℕ
passed admitted = 1
passed (stored _) = 1
passed _ = 0

abbrev pub flag : Bool → ℕ
flag true = 1
flag false = 0

-- The weight of a place in shard `i`.
abbrev pub only_at : ℕ → ℕ → ℕ → ℕ
only_at i s n = ite (ℕ_discrete s i) n 0

-- The same for the rotation.
abbrev pub sweep_holds : Sweep → ℕ → ℕ
sweep_holds (evicting s _) i = only_at i s 1
sweep_holds (evicted s _) i = only_at i s 1
sweep_holds _ i = 0

-- A tracker that is out of the map and still counted.
abbrev pub overcounted : Sweep → ℕ
overcounted (evicted _ _) = 1
overcounted _ = 0

pub only_at_self : (s n : ℕ) → only_at s s n ≡ n
only_at_self s n = if_pos (ℕ_discrete s s) refl n 0

pub only_at_ne : (i s n : ℕ) → i ≢ s → only_at i s n ≡ 0
only_at_ne i s n other = if_neg (ℕ_discrete s i) (λ e. other (sym e)) n 0

module _ (env : Env) where
  abbrev pub home_of : Call → ℕ
  home_of c = get_shard env c.key.metric_name

  -- The calls at shard `i`, by a weight of their places.
  abbrev pub calls_at : (Pc → ℕ) → List Call → ℕ → ℕ
  calls_at w cs i = sum_by (λ c. only_at i (home_of c) (w c.pc)) cs

  pub calls_at-set :
      (w : Pc → ℕ) (cs : List Call) (j : ℕ) (pc : Pc) (i : ℕ)
      → j < length cs
      → calls_at w (set cs j (record (get_or cs j no_call) { pc = pc })) i
          + only_at i (home_of (get_or cs j no_call)) (w (get_or cs j no_call).pc)
        ≡ calls_at w cs i + only_at i (home_of (get_or cs j no_call)) (w pc)
  calls_at-set w cs j pc i h =
      sum_by-set (λ (c : Call). only_at i (home_of c) (w c.pc)) cs j
        (record (get_or cs j no_call) { pc = pc }) no_call h

  only_at_mono : (i s n k : ℕ) → n ≤ k → only_at i s n ≤ only_at i s k
  only_at_mono i s n k h = ground arith

  pub calls_at_mono :
      (v w : Pc → ℕ) (cs : List Call) (i : ℕ)
      → ((pc : Pc) → v pc ≤ w pc)
      → calls_at v cs i ≤ calls_at w cs i
  calls_at_mono v w cs i below =
      sum_by_mono (λ (c : Call). only_at i (home_of c) (v c.pc))
        (λ (c : Call). only_at i (home_of c) (w c.pc))
        (λ c. only_at_mono i (home_of c) (v c.pc) (w c.pc) (below c.pc)) cs

-- The trackers in all maps.
abbrev pub size : {S : Type 0} → Memory S → ℕ
size m = sum_below 256 (λ i. length (m.shards i))

pub owes-le : (pc : Pc) → owes pc ≤ passed pc
owes-le pc = ground arith

pub passed-le : (pc : Pc) → passed pc ≤ holds pc
passed-le pc = ground arith

module _ (env : Env) where
  -- A call that goes from one place to another changes the sum over the shards by its weight.
  pub sum-set :
      (w : Pc → ℕ) (cs : List Call) (j : ℕ) (pc : Pc)
      → j < length cs
      → sum_below 256 (calls_at env w (set cs j (record (get_or cs j no_call) { pc = pc })))
          + w (get_or cs j no_call).pc
        ≡ sum_below 256 (calls_at env w cs) + w pc
  sum-set w cs j pc h =
      let s : ℕ = home_of env (get_or cs j no_call) in
      let new : List Call = set cs j (record (get_or cs j no_call) { pc = pc }) in
      omega (
        arith,
        sum_below-change 256 s (calls_at env w new) (calls_at env w cs)
            (get_shard-lt env (get_or cs j no_call).key.metric_name)
            (λ i other.
              elsewhere i (only_at_ne i s _ other) (only_at_ne i s _ other)
                (calls_at-set env w cs j pc i h)),
        calls_at-set env w cs j pc s h,
        only_at_self s (w (get_or cs j no_call).pc),
        only_at_self s (w pc),
      )
    where
      elsewhere : (i : ℕ) {x y a b : ℕ} → a ≡ 0 → b ≡ 0 → x + a ≡ y + b → x ≡ y
      elsewhere i e f g = omega (arith, e, f, g)

-- A write to the map of a shard.
pub size-assign :
    (shards : ℕ → Pointers) (i : ℕ) (l : Pointers)
    → i < 256
    → sum_below 256 (λ k. length (assign shards i l k)) + length (shards i)
      ≡ sum_below 256 (λ k. length (shards k)) + length l
size-assign shards i l h = omega (
  arith,
  sum_below-change 256 i (λ k. length (assign shards i l k)) (λ k. length (shards k)) h
      (λ k other. ap length (if_neg (ℕ_discrete i k) (λ e. other (sym e)) l (shards k))),
  ap length (if_pos (ℕ_discrete i i) refl l (shards i)),
)
