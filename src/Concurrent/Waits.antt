-- ===== src/Concurrent/Waits.antt =====
-- What the rotation of processor.go waits for: nothing but the lock of the shard that it visits.
use otel_cardinality_process.Base.{
  ℕ, ◌≤◌, ◌<◌, ◌≡◌, refl, true, [], ◌∷◌, arith, ◌⊎◌, inl, inr, Bool-cases, ℕ_discrete,
}
use otel_cardinality_process.Base.Assoc.{IsMap}
use otel_cardinality_process.Processor.{key_discrete}
use otel_cardinality_process.Concurrent.{
  Memory, Sweep, waiting, at_shard, turning, stale, evicting, evicted, closing, Turn, tick,
  snapshot, turn, none_stale, some_stale, lock, evict, discount, unlock, finish, close,
}
use otel_cardinality_process.Concurrent.Progress.{HolderSteps, locked-HolderSteps}
use otel_cardinality_process.Concurrent.Safety.{Reach-Inv}
use otel_cardinality_process.Concurrent.System.{System, Reach, start, later, arrive, call, sweep}
use otel_cardinality_process.Config.{Config}
use otel_cardinality_process.External.{Env}

-- The shard that the rotation visits.
abbrev pub visited : Sweep → ℕ
visited (at_shard i) = i
visited (turning i es ks) = i
visited (stale i ks) = i
visited (evicting i ks) = i
visited (evicted i ks) = i
visited w = 0

-- The loop is over 256 shards.
abbrev InRange : Sweep → Type 0
InRange (at_shard i) = i ≤ 256
InRange w = visited w < 256

module _ (env : Env) (cfg : Config) where
  open env use {Sketch}

  InRange-Turn :
      {m m' : Memory Sketch} {w w' : Sweep} → Turn env cfg m w m' w' → InRange w → InRange w'
  InRange-Turn tick h = omega arith
  InRange-Turn (snapshot es lt free one same) h = lt
  InRange-Turn turn h = h
  InRange-Turn none_stale h = omega (arith, h)
  InRange-Turn some_stale h = h
  InRange-Turn (lock free) h = h
  InRange-Turn evict h = h
  InRange-Turn discount h = h
  InRange-Turn unlock h = omega (arith, h)
  InRange-Turn (finish e) h = omega arith
  InRange-Turn close h = h

  Reach-InRange : {s : System Sketch} → Reach env cfg s → InRange s.sweep
  Reach-InRange start = omega arith
  Reach-InRange (later r (arrive key h)) = Reach-InRange r
  Reach-InRange (later r (call j lt mv)) = Reach-InRange r
  Reach-InRange (later r (sweep t)) = InRange-Turn t (Reach-InRange r)

  -- The rotation can go on, or it waits for the lock.
  can_turn :
      (m : Memory Sketch) (w : Sweep)
      → InRange w
      → ((i : ℕ) → IsMap key_discrete (m.shards i))
      → ((m' : Memory Sketch) × (w' : Sweep) × Turn env cfg m w m' w')
        ⊎ (m.locked (visited w) ≡ true)
  can_turn m waiting h maps = inl (_, _, Turn.tick)
  can_turn m (at_shard i) h maps = elim (Bool-cases (m.locked i)) [
    | inl held ↦ inr held
    | inr free ↦ elim (ℕ_discrete i 256) [
      | yes e ↦ inl (_, _, Turn.finish e)
      | no n ↦
          inl (_, _, Turn.snapshot (m.shards i) (omega (arith, h, n)) free (maps i) (λ k. refl))
    ]
  ]
  can_turn m (turning i [] []) h maps = inl (_, _, Turn.none_stale)
  can_turn m (turning i [] (k ∷ ks)) h maps = inl (_, _, Turn.some_stale)
  can_turn m (turning i ((k, a) ∷ es) ks) h maps = inl (_, _, Turn.turn)
  can_turn m (stale i ks) h maps = elim (Bool-cases (m.locked i)) [
    | inl held ↦ inr held
    | inr free ↦ inl (_, _, Turn.lock free)
  ]
  can_turn m (evicting i []) h maps = inl (_, _, Turn.unlock)
  can_turn m (evicting i (k ∷ ks)) h maps = inl (_, _, Turn.evict)
  can_turn m (evicted i ks) h maps = inl (_, _, Turn.discount)
  can_turn m closing h maps = inl (_, _, Turn.close)

  -- In every reachable state the rotation can take a step, or it waits for
  -- the lock of the shard that it visits and the goroutine that holds that lock can take one.
  pub rotation_no_deadlock :
      {s : System Sketch}
      → Reach env cfg s
      → ((m : Memory Sketch) × (w : Sweep) × Turn env cfg s.mem s.sweep m w)
        ⊎ ((s.mem.locked (visited s.sweep) ≡ true) × HolderSteps env cfg s (visited s.sweep))
  rotation_no_deadlock {s} r =
      elim (can_turn s.mem s.sweep (Reach-InRange r) (Reach-Inv env cfg r).maps) [
        | inl step ↦ inl step
        | inr held ↦ inr (
          held,
          locked-HolderSteps env cfg s (visited s.sweep)
              ((Reach-Inv env cfg r).excluded (visited s.sweep)) held,
        )
      ]
