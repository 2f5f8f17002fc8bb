-- ===== src/Concurrent/Safety.antt =====
-- What holds of the goroutines of processor.go in every state that they reach, in any interleaving.
use otel_cardinality_process.Base.{
  subst, none, ℕ, zero, suc, ◌+◌, ◌%◌, ◌≤◌, ◌<◌, ◌≡◌, refl, List, [], ◌∷◌, arith, length, get_or,
  ℕ_discrete,
}
use otel_cardinality_process.Base.Assoc.{lookup}
use otel_cardinality_process.Base.Int.{u64_mod, to_ℕ}
use otel_cardinality_process.Base.Sums.{sum_below, sum_below-le, sum_below-zero, sum_below-eq}
use otel_cardinality_process.Concurrent.{Memory, Pc, entered, admitted, Call, Sweep, waiting}
use otel_cardinality_process.Concurrent.Calls.{Move-Inv}
use otel_cardinality_process.Concurrent.Lookups.{alone}
use otel_cardinality_process.Concurrent.Counts.{
  overcounted, only_at, holds, owes, passed, home_of, calls_at, calls_at_mono, size, owes-le,
}
use otel_cardinality_process.Concurrent.Invariant.{Inv, IsUnseen}
use otel_cardinality_process.Concurrent.Sweeps.{Turn-Inv}
use otel_cardinality_process.Concurrent.System.{
  System, no_call, empty_memory, arrive, call, sweep, Reach, start, later,
}
use otel_cardinality_process.Config.{Config}
use otel_cardinality_process.External.{Env}
use otel_cardinality_process.Processor.{TrackerKey, key_discrete}
use otel_cardinality_process.Processor.Accounting.{IsLimited}

module _ (env : Env) (cfg : Config) where
  open env use {Sketch}

  Inv-start : Inv env cfg (empty_memory env cfg) [] waiting
  Inv-start = record {
    maps = λ i. tt;
    excluded = λ i. refl;
    backed = λ i. omega arith;
    counted = λ l. omega (
      arith,
      sum_below-zero 256 (calls_at env owes []) (λ i. refl),
      sum_below-zero 256 (λ i. length ((empty_memory env cfg).shards i)) (λ i. refl),
    );
    word = omega arith;
    congruent = omega (
      arith,
      sum_below-zero 256 (calls_at env owes []) (λ i. refl),
      sum_below-zero 256 (λ i. length ((empty_memory env cfg).shards i)) (λ i. refl),
    );
    bounded = λ l. omega (arith, sum_below-zero 256 (calls_at env passed []) (λ i. refl));
    unseen = λ j lt. absurd (omega (arith, lt));
    swept = tt;
  }

  -- A call that arrives is nowhere in the critical section.
  module _ (cs : List Call) (key : TrackerKey) (hash_val : ℕ) where
    abbrev arrived : List Call
    arrived = record { key = key; hash_val = hash_val; pc = entered } ∷ cs

    calls_at-arrived :
        (v : Pc → ℕ) → v entered ≡ 0 → (i : ℕ) → calls_at env v arrived i ≡ calls_at env v cs i
    calls_at-arrived v idle i = rw idle (ground arith)

    sum-arrived :
        (v : Pc → ℕ)
        → v entered ≡ 0
        → sum_below 256 (calls_at env v arrived) ≡ sum_below 256 (calls_at env v cs)
    sum-arrived v idle =
        sum_below-eq 256 (calls_at env v arrived) (calls_at env v cs) (calls_at-arrived v idle)

    arrive-Inv : (m : Memory Sketch) (w : Sweep) → Inv env cfg m cs w → Inv env cfg m arrived w
    arrive-Inv m w inv = record {
      maps = inv.maps;
      excluded = λ i. omega (arith, calls_at-arrived holds refl i, inv.excluded i);
      backed = λ i. omega (arith, calls_at-arrived owes refl i, inv.backed i);
      counted = λ l. omega (arith, sum-arrived owes refl, inv.counted l);
      word = inv.word;
      congruent = omega (arith, sum-arrived owes refl, inv.congruent);
      bounded = λ l. omega (arith, sum-arrived passed refl, inv.bounded l);
      unseen = others;
      swept = inv.swept;
    }
      where
        others :
            (j : ℕ)
            → j < length arrived
            → IsUnseen env cfg m (get_or arrived j no_call) (get_or arrived j no_call).pc
        others zero lt = tt
        others (suc j) lt = inv.unseen j (omega (arith, lt))

  pub Reach-Inv : {s : System Sketch} → Reach env cfg s → Inv env cfg s.mem s.calls s.sweep
  Reach-Inv start = Inv-start
  Reach-Inv (later {s} r (arrive key hash_val)) =
      arrive-Inv s.calls key hash_val s.mem s.sweep (Reach-Inv r)
  Reach-Inv (later {s} r (call j lt mv)) =
      Move-Inv env cfg s.mem s.calls s.sweep (Reach-Inv r) j lt mv
  Reach-Inv (later {s} r (sweep tn)) = Turn-Inv env cfg s.mem s.calls tn (Reach-Inv r)

  -- However many goroutines call `shouldDrop` while another rotates, and however their steps
  -- interleave: with MaxTrackerCount set, to 10,000,000 at most, there are at most 255 trackers more
  -- than it allows, one for each shard but one, and the counter is over it by no more.
  pub size-le :
      IsLimited cfg.max_tracker_count
      → {s : System Sketch} → Reach env cfg s
      → (size s.mem ≤ to_ℕ cfg.max_tracker_count + 255)
        × (s.mem.tracker_count ≤ to_ℕ cfg.max_tracker_count + 255)
  size-le l {s} r =
      let inv = Reach-Inv r in
      let fewer =
        sum_below-le 256 (calls_at env owes s.calls) (calls_at env passed s.calls)
          (λ i. calls_at_mono env owes passed s.calls i owes-le) in
      (omega (arith, inv.counted l, inv.bounded l, fewer), omega (arith, inv.bounded l))

  -- The critical section of a shard is held by one call at most, in every
  -- interleaving: two calls in it whose metrics have the same shard are the same call.
  pub mutual_exclusion :
      {s : System Sketch}
      → Reach env cfg s
      → (j k : ℕ) → j < length s.calls
      → k < length s.calls
      → home_of env (get_or s.calls j no_call) ≡ home_of env (get_or s.calls k no_call)
      → holds (get_or s.calls j no_call).pc ≡ 1
      → holds (get_or s.calls k no_call).pc ≡ 1
      → j ≡ k
  mutual_exclusion {s} r j k lt below same mine its = elim (ℕ_discrete j k) [
    | yes e ↦ e
    | no n ↦ absurd (alone env cfg s.mem s.calls s.sweep (Reach-Inv r) k below j lt n same its mine)
  ]

  -- Double-checked locking: in every interleaving, a call that is about to write a new tracker finds
  -- no tracker under its key, so that none is ever overwritten.
  pub lookup-admitted :
      {s : System Sketch}
      → Reach env cfg s
      → (j : ℕ) → j < length s.calls
      → (get_or s.calls j no_call).pc ≡ admitted
      → lookup key_discrete
          (get_or s.calls j no_call).key
          (s.mem.shards (home_of env (get_or s.calls j no_call)))
        ≡ none
  lookup-admitted {s} r j lt e =
      subst (IsUnseen env cfg s.mem (get_or s.calls j no_call)) e ((Reach-Inv r).unseen j lt)

  -- Whenever no call stands between the write of a tracker and its count, and the rotation not
  -- between a delete and its count, the counter is the number of trackers in all maps, as a 64-bit
  -- word.
  pub tracker_count-size :
      {s : System Sketch}
      → Reach env cfg s
      → ((j : ℕ) → j < length s.calls → owes (get_or s.calls j no_call).pc ≡ 0)
      → overcounted s.sweep ≡ 0
      → s.mem.tracker_count ≡ size s.mem % u64_mod
  tracker_count-size {s} r settled done = omega (
    arith,
    (Reach-Inv r).congruent,
    (Reach-Inv r).word,
    done,
    sum_below-zero 256 (calls_at env owes s.calls) (none_owed s.calls settled),
  )
    where
      weightless : (i h n : ℕ) → n ≡ 0 → only_at i h n ≡ 0
      weightless i h n e = ground arith

      none_owed :
          (cs : List Call)
          → ((j : ℕ) → j < length cs → owes (get_or cs j no_call).pc ≡ 0)
          → (i : ℕ) → calls_at env owes cs i ≡ 0
      none_owed [] h i = refl
      none_owed (c ∷ cs) h i = omega (
        arith,
        weightless i (home_of env c) (owes c.pc) (h 0 (omega arith)),
        none_owed cs (λ j lt. h (suc j) (omega (arith, lt))) i,
      )
