-- ===== src/Concurrent/Determinism.antt =====
-- A call of shouldDrop of processor.go that runs alone has one way to go.
use otel_cardinality_process.Base.{
  arith, ℕ, ◌≡◌, ◌≢◌, refl, sym, ap, subst, ◌⊎◌, inl, inr, Bool, false, String,
}
use otel_cardinality_process.Concurrent.{
  Memory, Pc, entered, finished, Move, find, miss, lock, find_again, miss_again, admit, refuse,
  create, count, unlock, unlock_refused, reject, warn, warned, measure,
}
use otel_cardinality_process.Concurrent.Agreement.{Agrees}
use otel_cardinality_process.Concurrent.Progress.{steps_left, steps_left-Move}
use otel_cardinality_process.Concurrent.Refinement.{Alone, stay, step, RunsAs, alone_RunsAs}
use otel_cardinality_process.Config.{Config}
use otel_cardinality_process.External.{Env}
use otel_cardinality_process.Processor.{Processor, TrackerKey, should_drop}
use otel_cardinality_process.Processor.Cases.{key_of}

module _ (env : Env) (cfg : Config) (key : TrackerKey) (hash_val : ℕ) where
  open env use {Sketch}

  Move-unique :
      {m : Memory Sketch} {p : Pc} {m₁ m₂ : Memory Sketch} {p₁ p₂ : Pc}
      → Move env cfg m key hash_val p m₁ p₁
      → Move env cfg m key hash_val p m₂ p₂
      → (m₁ ≡ m₂) × (p₁ ≡ p₂)
  Move-unique (find f e) (find g h) = (refl, cc)
  Move-unique (find f e) (miss g h) = (refl, cc)
  Move-unique (miss f e) (find g h) = (refl, cc)
  Move-unique (miss f e) (miss g h) = (refl, refl)
  Move-unique (lock f) (lock g) = (refl, refl)
  Move-unique (find_again e) (find_again h) = (refl, cc)
  Move-unique (find_again e) (miss_again h) = (refl, cc)
  Move-unique (miss_again e) (find_again h) = (refl, cc)
  Move-unique (miss_again e) (miss_again h) = (refl, refl)
  Move-unique (admit e) (admit h) = (refl, refl)
  Move-unique (admit e) (refuse h) = (refl, cc)
  Move-unique (refuse e) (admit h) = (refl, cc)
  Move-unique (refuse e) (refuse h) = (refl, refl)
  Move-unique create create = (refl, refl)
  Move-unique count count = (refl, refl)
  Move-unique unlock unlock = (refl, refl)
  Move-unique unlock_refused unlock_refused = (refl, refl)
  Move-unique reject reject = (refl, refl)
  Move-unique (warn e) (warn h) = (refl, refl)
  Move-unique (warn e) (warned h) = (cc, refl)
  Move-unique (warned e) (warn h) = (cc, refl)
  Move-unique (warned e) (warned h) = (refl, refl)
  Move-unique measure measure = (refl, refl)

  from_same :
      {m n : Memory Sketch} {p q : Pc} {m' : Memory Sketch} {p' : Pc}
      → m ≡ n
      → p ≡ q
      → Move env cfg n key hash_val q m' p'
      → Move env cfg m key hash_val p m' p'
  from_same {n} {p} {m'} {p'} e f mv =
      subst (λ x. Move env cfg x key hash_val p m' p') (sym e)
        (subst (λ y. Move env cfg n key hash_val y m' p') (sym f) mv)

  -- The first step of a run.
  first_step :
      {m : Memory Sketch} {p : Pc} {n : Memory Sketch} {q : Pc}
      → Alone env cfg key hash_val m p n q
      → ((m ≡ n) × (p ≡ q))
        ⊎ ((m' : Memory Sketch) × (p' : Pc) × Move env cfg m key hash_val p m' p'
            × Alone env cfg key hash_val m' p' n q)
  first_step stay = inl (refl, refl)
  first_step (step r mv) = elim (first_step r) [
    | inl (e, f) ↦ inr (_, _, from_same e f mv, stay)
    | inr (m', p', first, rest) ↦ inr (m', p', first, step rest mv)
  ]

  -- A call that has returned goes no further.
  finished_stops :
      {m : Memory Sketch} {p : Pc} {n : Memory Sketch} {q : Pc} {b : Bool}
      → Move env cfg m key hash_val p n q
      → p ≢ finished b
  finished_stops mv e = omega (arith, steps_left-Move env cfg mv, ap steps_left e)

  finished-Alone :
      {m n : Memory Sketch} {a b : Bool}
      → Alone env cfg key hash_val m (finished a) n (finished b)
      → (m ≡ n) × (a ≡ b)
  finished-Alone r = elim (first_step r) [
    | inl (e, f) ↦ (e, cc)
    | inr (m', p', first, rest) ↦ absurd (finished_stops first refl)
  ]

  -- A run to the end goes through every state of another run from the same state.
  catch_up :
      {m : Memory Sketch} {p : Pc} {n : Memory Sketch} {q : Pc} {u : Memory Sketch} {b : Bool}
      → Alone env cfg key hash_val m p n q
      → Alone env cfg key hash_val m p u (finished b)
      → Alone env cfg key hash_val n q u (finished b)
  catch_up stay s = s
  catch_up {u} {b} (step {pc''} r mv) s = elim (first_step (catch_up r s)) [
    | inl (e, f) ↦ absurd (finished_stops mv f)
    | inr (m', p', first, rest) ↦
        let (e, f) = Move-unique first mv in
        subst (λ x. Alone env cfg key hash_val x pc'' u (finished b)) e
          (subst (λ y. Alone env cfg key hash_val m' y u (finished b)) f rest)
  ]

-- A call that runs alone, from a memory of pointers that agrees with a processor and where no lock is
-- held, can run to its end. Wherever it ends, it returns what `should_drop` returns on that
-- processor, and leaves a memory that agrees with the processor `should_drop` leaves.
pub alone-should_drop :
    (env : Env) (cfg : Config) (mn ak av : String) (m : Memory env.hll.Sketch)
    (p : Processor env.hll.Sketch)
    → Agrees env cfg m p
    → ((i : ℕ) → m.locked i ≡ false)
    → RunsAs env cfg (key_of mn ak) (env.sum64 av) m (should_drop env mn ak av p)
      × ((u : Memory env.hll.Sketch) (b : Bool)
          → Alone env cfg (key_of mn ak) (env.sum64 av) m entered u (finished b)
          → (b ≡ (should_drop env mn ak av p).0) × Agrees env cfg u (should_drop env mn ak av p).1)
alone-should_drop env cfg mn ak av m p g free =
    let runs = alone_RunsAs env cfg mn ak av m p g free in (runs, λ u b r. ends u b r runs)
  where
    ends :
        (u : Memory env.hll.Sketch) (b : Bool)
        → Alone env cfg (key_of mn ak) (env.sum64 av) m entered u (finished b)
        → RunsAs env cfg (key_of mn ak) (env.sum64 av) m (should_drop env mn ak av p)
        → (b ≡ (should_drop env mn ak av p).0) × Agrees env cfg u (should_drop env mn ak av p).1
    ends u b r (m', run, agrees, unlocked) =
        let (e, f) =
          finished-Alone env cfg (key_of mn ak) (env.sum64 av)
            (catch_up env cfg (key_of mn ak) (env.sum64 av) run r) in
        (sym f, subst (λ x. Agrees env cfg x (should_drop env mn ak av p).1) e agrees)
