-- ===== src/Concurrent/Drops/Ledger.antt =====
-- What the counters of processor.go stand for, by where the callbacks and the rotation are.
use otel_cardinality_process.Base.{
  ℕ, suc, ◌+◌, ◌<◌, ◌≡◌, List, [], ◌∷◌, length, ite, leb, if◌then◌else◌, ℕ_discrete,
}
use otel_cardinality_process.Base.Sums.{sum_by}
use otel_cardinality_process.Concurrent.Drops.{
  Place, exceeded, noted, granted, reported, unreported, Drop, Epochs,
}
use otel_cardinality_process.Processor.{Log, dropping}

-- Behind `labelsStripped.Add(1)`.
abbrev pub is_stripped : Place → ℕ
is_stripped exceeded = 0
is_stripped _ = 1

-- Behind `dropsThisEpoch.Add(1)`.
abbrev pub is_noted : Place → ℕ
is_noted noted = 1
is_noted granted = 1
is_noted reported = 1
is_noted unreported = 1
is_noted _ = 0

-- Behind the test of DropLogMaxPerEpoch.
abbrev pub is_tested : Place → ℕ
is_tested granted = 1
is_tested reported = 1
is_tested unreported = 1
is_tested _ = 0

-- Behind the test, which has granted a log record.
abbrev pub is_passed : Place → ℕ
is_passed granted = 1
is_passed reported = 1
is_passed _ = 0

-- Behind the log record.
abbrev pub is_logged : Place → ℕ
is_logged reported = 1
is_logged _ = 0

-- The callbacks of which this holds, in all and in epoch `e`.
abbrev pub places : (Place → ℕ) → List Drop → ℕ
places w ds = sum_by (λ d. w d.place) ds

abbrev pub at_epoch : ℕ → ℕ → ℕ → ℕ
at_epoch e n k = ite (ℕ_discrete e n) k 0

abbrev pub places_in : ℕ → (Place → ℕ) → List Drop → ℕ
places_in e w ds = sum_by (λ d. at_epoch e d.epoch (w d.place)) ds

abbrev pub drop_logs : List Log → ℕ
drop_logs [] = 0
drop_logs (dropping m k ∷ ls) = suc (drop_logs ls)
drop_logs (l ∷ ls) = drop_logs ls

abbrev pub total_of : List ℕ → ℕ
total_of totals = sum_by (λ n. n) totals

abbrev pub least : ℕ → ℕ → ℕ
least limit n = if leb n limit then n else limit

pub record Inv (limit : ℕ) (s : Epochs) : Type 0 where
  pub stripped : s.counters.labels_stripped ≡ places is_stripped s.drops
  pub accounted : total_of s.totals + s.counters.drops_this_epoch ≡ places is_noted s.drops
  pub tallied_all : total_of s.tallies + s.counters.drop_log_count ≡ places is_tested s.drops
  pub written : drop_logs s.counters.logs ≡ places is_logged s.drops
  -- The counter is that of the tests of this epoch, and none belongs to a later one.
  pub current : s.counters.drop_log_count ≡ places_in (length s.tallies) is_tested s.drops
  pub ahead : (e : ℕ) → length s.tallies < e → places_in e is_tested s.drops ≡ 0
  pub allowed :
      (e : ℕ) → places_in e is_passed s.drops ≡ least limit (places_in e is_tested s.drops)
