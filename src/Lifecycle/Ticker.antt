-- ===== src/Lifecycle/Ticker.antt =====
-- The goroutine that Start of processor.go launches: how often, and how it ends.
use otel_cardinality_process.Base.{
  ◌∷◌, ℕ, suc, ◌≤◌, ◌≡◌, ◌≢◌, refl, sym, ap, subst, inl, inr, Bool, true, false, Bool-cases, arith,
}
use otel_cardinality_process.Concurrent.Lookups.{flag-le}
use otel_cardinality_process.Concurrent.Counts.{flag}
use otel_cardinality_process.Config.{Config}
use otel_cardinality_process.Processor.{starting}
use otel_cardinality_process.Lifecycle.{
  Life, made, Routine, absent, launched, selecting, rotating, returned, crashed, start, start_once,
  shutdown, Step, Reach, begin, later, Steps, stay, step, host_start, host_shutdown, parent_done,
  new_ticker, new_ticker_panics, fire_selecting, fire_rotating, take_tick, rotated, take_done,
}

-- `startOnce` counts the launches, and without it there is no goroutine.
record Good (l : Life) : Type 0 where
  counted : l.launches ≡ flag l.started
  idle : l.started ≡ false → l.routine ≡ absent

made-Good : Good made
made-Good = record { counted = refl; idle = λ e. refl }

pub start_again : (l : Life) → l.started ≡ true → start l ≡ l
unfolding start
start_again l e = ap (λ b. start_once b l) e

pub start_first :
    (l : Life)
    → l.started ≡ false
    → start l ≡ record l {
      started = true;
      routine = launched;
      launches = suc l.launches;
      logs = starting ∷ l.logs;
    }
unfolding start
start_first l e = ap (λ b. start_once b l) e

start-Good : (l : Life) → Good l → Good (start l)
start-Good l g = elim (Bool-cases l.started) [
  | inl e ↦ subst Good (sym (start_again l e)) g
  | inr e ↦
      subst Good (sym (start_first l e))
        (record { counted = omega (arith, g.counted, ap flag e); idle = λ q. cc })
]

-- A step of a goroutine that there is.
moved :
    (l : Life) (r : Routine) (p : Bool) (n : ℕ)
    → l.routine ≢ absent
    → Good l
    → Good (record l { routine = r; pending = p; rotations = n })
moved l r p n there g = record { counted = g.counted; idle = λ e. absurd (there (g.idle e)) }

module _ (cfg : Config) where
  Step-Good : {l l' : Life} → Step cfg l l' → Good l → Good l'
  unfolding shutdown
  Step-Good {l} host_start g = start-Good l g
  Step-Good host_shutdown g = record { counted = g.counted; idle = g.idle }
  Step-Good parent_done g = record { counted = g.counted; idle = g.idle }
  Step-Good {l} (new_ticker e p) g = moved l selecting l.pending l.rotations (λ q. cc) g
  Step-Good {l} (new_ticker_panics e p) g = moved l crashed l.pending l.rotations (λ q. cc) g
  Step-Good {l} (fire_selecting e) g = moved l l.routine true l.rotations (λ q. cc) g
  Step-Good {l} (fire_rotating e) g = moved l l.routine true l.rotations (λ q. cc) g
  Step-Good {l} (take_tick e p) g = moved l rotating false (suc l.rotations) (λ q. cc) g
  Step-Good {l} (rotated e) g = moved l selecting l.pending l.rotations (λ q. cc) g
  Step-Good {l} (take_done e p) g = moved l returned l.pending l.rotations (λ q. cc) g

  Reach-Good : {l : Life} → Reach cfg l → Good l
  Reach-Good begin = made-Good
  Reach-Good (later r s) = Step-Good s (Reach-Good r)

  -- Behind the return of the goroutine nothing changes.
  IsOver : Life → ℕ → Type 0
  IsOver l n = (l.started ≡ true) × (l.routine ≡ returned) × (l.rotations ≡ n)

  Step-IsOver : {l l' : Life} (n : ℕ) → Step cfg l l' → IsOver l n → IsOver l' n
  unfolding start shutdown IsOver
  Step-IsOver {l} n host_start h = subst (λ k. IsOver k n) (sym (start_again l h.0)) h
  Step-IsOver n host_shutdown h = h
  Step-IsOver n parent_done h = h
  Step-IsOver n (new_ticker e p) h = let gone = h.1 in cc
  Step-IsOver n (new_ticker_panics e p) h = let gone = h.1 in cc
  Step-IsOver n (fire_selecting e) h = let gone = h.1 in cc
  Step-IsOver n (fire_rotating e) h = let gone = h.1 in cc
  Step-IsOver n (take_tick e p) h = let gone = h.1 in cc
  Step-IsOver n (rotated e) h = let gone = h.1 in cc
  Step-IsOver n (take_done e p) h = let gone = h.1 in cc

  Steps-IsOver : {l l' : Life} (n : ℕ) → Steps cfg l l' → IsOver l n → IsOver l' n
  Steps-IsOver n stay h = h
  Steps-IsOver n (step ss s) h = Step-IsOver n s (Steps-IsOver n ss h)

  -- However often the host calls Start and Shutdown, one goroutine is launched at most; and once it
  -- has returned, no epoch is rotated any more, whatever the host calls.
  pub launches-once :
      {l l' : Life}
      → Reach cfg l
      → Steps cfg l l'
      → (l.launches ≤ 1) × (l.routine ≡ returned → l'.rotations ≡ l.rotations)
  unfolding IsOver
  launches-once {l} r ss =
      let g = Reach-Good r in
      (
        omega (arith, g.counted, flag-le l.started),
        λ gone. elim (Bool-cases l.started) [
          | inl e ↦ (Steps-IsOver l.rotations ss (e, gone, refl)).2
          | inr e ↦ let missing = g.idle e in cc
        ],
      )
