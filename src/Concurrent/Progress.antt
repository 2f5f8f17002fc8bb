-- ===== src/Concurrent/Progress.antt =====
-- The goroutines of processor.go never block one another for good.
use otel_cardinality_process.Base.{
  ◌≤◌, ℕ, zero, suc, ◌+◌, ◌<◌, ◌≡◌, ◌≢◌, refl, ap, ◌⊎◌, inl, inr, Bool, true, [], ◌∷◌, arith,
  length, get_or, Bool-cases, Option-cases,
}
use otel_cardinality_process.Base.Assoc.{lookup}
use otel_cardinality_process.Base.Sums.{sum_by-pos}
use otel_cardinality_process.Concurrent.{
  Memory, Pc, entered, missed, holding, absent, admitted, stored, leaving, refused, rejected,
  warning, measuring, finished, Call, Sweep, evicting, evicted, Move, Turn,
}
use otel_cardinality_process.Concurrent.Counts.{
  holds, flag, only_at, sweep_holds, home_of, calls_at,
}
use otel_cardinality_process.Concurrent.Safety.{Reach-Inv}
use otel_cardinality_process.Concurrent.System.{System, no_call, Reach}
use otel_cardinality_process.Config.{Config}
use otel_cardinality_process.External.{Env}
use otel_cardinality_process.Processor.{TrackerKey, key_discrete, get_shard, at_limit}

-- The steps that a call has left at most.
abbrev pub steps_left : Pc → ℕ
steps_left entered = 8
steps_left missed = 7
steps_left holding = 6
steps_left absent = 5
steps_left admitted = 4
steps_left (stored _) = 3
steps_left (leaving _) = 2
steps_left refused = 3
steps_left rejected = 2
steps_left warning = 1
steps_left (measuring _) = 1
steps_left (finished _) = 0

module _ (env : Env) (cfg : Config) where
  open env use {Sketch}

  -- `n` steps of a call, with whatever the other goroutines make of the memory between them.
  pub data Trace (key : TrackerKey) (hash_val : ℕ) (from : Pc) : ℕ → Pc → Type 0 where
    none_yet : Trace key hash_val from 0 from
    then :
        {n : ℕ} {pc pc' : Pc} {m m' : Memory Sketch}
        → Trace key hash_val from n pc
        → Move env cfg m key hash_val pc m' pc'
        → Trace key hash_val from (suc n) pc'

  pub steps_left-Move :
      {m : Memory Sketch} {key : TrackerKey} {hash_val : ℕ} {pc : Pc} {m' : Memory Sketch}
      {pc' : Pc}
      → Move env cfg m key hash_val pc m' pc'
      → steps_left pc' < steps_left pc
  steps_left-Move (Move.find free e) = omega arith
  steps_left-Move mv = omega arith

  steps_left-Trace :
      {key : TrackerKey} {hash_val : ℕ} {from : Pc} {n : ℕ} {pc : Pc}
      → Trace key hash_val from n pc
      → n + steps_left pc ≤ steps_left from
  steps_left-Trace none_yet = omega arith
  steps_left-Trace (then tr mv) = omega (arith, steps_left-Trace tr, steps_left-Move mv)

  -- A call takes at most eight steps of its own, whatever the other goroutines do to the memory
  -- between them.
  pub Trace-le :
      {key : TrackerKey} {hash_val n : ℕ} {pc : Pc} → Trace key hash_val entered n pc → n ≤ 8
  Trace-le tr = omega (arith, steps_left-Trace tr)

  module _ (m : Memory Sketch) (key : TrackerKey) (hash_val : ℕ) where
    -- A step that the call can take.
    abbrev pub Ready : Pc → Type 0
    Ready pc = (m' : Memory Sketch) × (pc' : Pc) × Move env cfg m key hash_val pc m' pc'

    -- A call in the critical section can go on.
    holder-Ready : (pc : Pc) → 0 < holds pc → Ready pc
    holder-Ready holding h =
        elim (Option-cases (lookup key_discrete key (m.shards (get_shard env key.metric_name)))) [
          | inl e ↦ (_, _, Move.miss_again e)
          | inr (a, e) ↦ (_, _, Move.find_again e)
        ]
    holder-Ready absent h = elim (Bool-cases (at_limit cfg m.tracker_count)) [
      | inl e ↦ (_, _, Move.refuse e)
      | inr e ↦ (_, _, Move.admit e)
    ]
    holder-Ready admitted h = (_, _, Move.create)
    holder-Ready (stored a) h = (_, _, Move.count)
    holder-Ready (leaving a) h = (_, _, Move.unlock)
    holder-Ready refused h = (_, _, Move.unlock_refused)
    holder-Ready pc h = absurd (omega (arith, h))

    -- A call that has not returned can go on, or it waits for the lock of its shard.
    Ready-or_locked :
        (pc : Pc)
        → ((b : Bool) → pc ≢ finished b)
        → Ready pc ⊎ (m.locked (get_shard env key.metric_name) ≡ true)
    Ready-or_locked entered open_ = elim (Bool-cases (m.locked (get_shard env key.metric_name))) [
      | inl e ↦ inr e
      | inr e ↦
          elim (Option-cases (lookup key_discrete key (m.shards (get_shard env key.metric_name)))) [
            | inl missing ↦ inl (_, _, Move.miss e missing)
            | inr (a, found) ↦ inl (_, _, Move.find e found)
          ]
    ]
    Ready-or_locked missed open_ = elim (Bool-cases (m.locked (get_shard env key.metric_name))) [
      | inl e ↦ inr e
      | inr e ↦ inl (_, _, Move.lock e)
    ]
    Ready-or_locked rejected open_ = inl (_, _, Move.reject)
    Ready-or_locked warning open_ = elim (Bool-cases m.rejection_warned) [
      | inl e ↦ inl (_, _, Move.warned e)
      | inr e ↦ inl (_, _, Move.warn e)
    ]
    Ready-or_locked (measuring a) open_ = inl (_, _, Move.measure)
    Ready-or_locked (finished b) open_ = absurd (open_ b refl)
    Ready-or_locked holding open_ = inl (holder-Ready holding (omega arith))
    Ready-or_locked absent open_ = inl (holder-Ready absent (omega arith))
    Ready-or_locked admitted open_ = inl (holder-Ready admitted (omega arith))
    Ready-or_locked (stored a) open_ = inl (holder-Ready (stored a) (omega arith))
    Ready-or_locked (leaving a) open_ = inl (holder-Ready (leaving a) (omega arith))
    Ready-or_locked refused open_ = inl (holder-Ready refused (omega arith))

  -- The rotation can go on in a critical section.
  sweep_holds-Turn :
      (m : Memory Sketch) (w : Sweep) (i : ℕ)
      → 0 < sweep_holds w i
      → (m' : Memory Sketch) × (w' : Sweep) × Turn env cfg m w m' w'
  sweep_holds-Turn m (evicting s []) i h = (_, _, Turn.unlock)
  sweep_holds-Turn m (evicting s (k ∷ ks)) i h = (_, _, Turn.evict)
  sweep_holds-Turn m (evicted s ks) i h = (_, _, Turn.discount)
  sweep_holds-Turn m w i h = absurd (omega (arith, h))

  -- A goroutine that holds the write lock of shard `i` can take a step: a call or the rotation.
  abbrev pub HolderSteps : System Sketch → ℕ → Type 0
  HolderSteps s i =
      ((k : ℕ) × (k < length s.calls)
        × (0
            < only_at i (home_of env (get_or s.calls k no_call))
                (holds (get_or s.calls k no_call).pc))
        × Ready s.mem (get_or s.calls k no_call).key (get_or s.calls k no_call).hash_val
            (get_or s.calls k no_call).pc)
      ⊎ ((0 < sweep_holds s.sweep i)
          × ((m : Memory Sketch) × (w : Sweep) × Turn env cfg s.mem s.sweep m w))

  only_at-pos : (i s n : ℕ) → 0 < only_at i s n → 0 < n
  only_at-pos i s n h = ground arith

  -- Behind a lock that is held stands a goroutine that can go on.
  pub locked-HolderSteps :
      (s : System Sketch) (i : ℕ)
      → calls_at env holds s.calls i + sweep_holds s.sweep i ≡ flag (s.mem.locked i)
      → s.mem.locked i ≡ true
      → HolderSteps s i
  locked-HolderSteps s i excluded held = by_sweep (sweep_holds s.sweep i) refl
    where
      by_sweep : (n : ℕ) → sweep_holds s.sweep i ≡ n → HolderSteps s i
      by_sweep (suc n) e =
          inr (omega (arith, e), sweep_holds-Turn s.mem s.sweep i (omega (arith, e)))
      by_sweep zero e =
          let (k, below, weighs) =
            sum_by-pos (λ (d : Call). only_at i (home_of env d) (holds d.pc)) s.calls no_call
              (omega (arith, excluded, e, ap flag held)) in
          let c = get_or s.calls k no_call in
          inl (
            k,
            below,
            weighs,
            holder-Ready s.mem c.key c.hash_val c.pc
                (only_at-pos i (home_of env c) (holds c.pc) weighs),
          )

  -- No deadlock: in every reachable state a call that has not returned can take a step, or the
  -- goroutine that holds the lock of its shard can.
  pub no_deadlock :
      {s : System Sketch}
      → Reach env cfg s
      → (j : ℕ) → j < length s.calls
      → ((b : Bool) → (get_or s.calls j no_call).pc ≢ finished b)
      → Ready s.mem
          (get_or s.calls j no_call).key
          (get_or s.calls j no_call).hash_val
          (get_or s.calls j no_call).pc
        ⊎ HolderSteps s (home_of env (get_or s.calls j no_call))
  no_deadlock {s} r j lt open_ = elim (Ready-or_locked s.mem c.key c.hash_val c.pc open_) [
    | inl ready ↦ inl ready
    | inr held ↦
        inr (
          locked-HolderSteps s (home_of env c) ((Reach-Inv env cfg r).excluded (home_of env c))
            held)
  ]
    where
      c : Call
      c = get_or s.calls j no_call
