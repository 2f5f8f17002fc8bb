-- ===== src/Concurrent/Drops/Accounts.antt =====
-- What the counters of processor.go account for, in any interleaving of the goroutines that strip
-- labels with the one that closes epochs.
use otel_cardinality_process.Base.{
  ℕ, ◌+◌, ◌^◌, ◌<◌, ◌≡◌, refl, [], arith, length, length-set, get_or,
}
use otel_cardinality_process.Base.Int.{pos}
use otel_cardinality_process.Concurrent.Drops.{
  no_drop, before, Epochs, epoch_behind, exceed, count, close, Reach, start, later,
}
use otel_cardinality_process.Config.{Config}
use otel_cardinality_process.Concurrent.Drops.Ledger.{
  is_stripped, is_noted, is_tested, is_passed, is_logged, places, places_in, least, drop_logs,
  total_of, Inv,
}
use otel_cardinality_process.Concurrent.Drops.Steps.{exceed-Inv, count-Inv, close-Inv}

start-Inv :
    (limit : ℕ)
    → Inv limit (record {
      counters = record {
        labels_stripped = 0;
        drops_this_epoch = 0;
        drop_log_count = 0;
        logs = [];
      };
      drops = [];
      close = before;
      totals = [];
      tallies = [];
    })
start-Inv limit = record {
  stripped = refl;
  accounted = omega arith;
  tallied_all = omega arith;
  written = refl;
  current = refl;
  ahead = λ e lt. refl;
  allowed = λ e. ground arith;
}

module _ (cfg : Config) (limit : ℕ) (limited : cfg.drop_log_max_per_epoch ≡ pos limit)
    (pos_limit : 0 < limit) where
  Reach-Inv : {s : Epochs} → Reach cfg s → length s.drops < 2 ^ 63 → Inv limit s
  Reach-Inv start few = start-Inv limit
  Reach-Inv (later {s} r (exceed m k mode)) few =
      exceed-Inv limit s (Reach-Inv r (omega (arith, few))) m k mode
  Reach-Inv (later {s} r (count j {place} lt st)) few =
      let before_few : length s.drops < 2 ^ 63 = omega (
        arith,
        few,
        length-set s.drops j (record (get_or s.drops j no_drop) {
          place = place;
          epoch =
              epoch_behind (get_or s.drops j no_drop).place s.tallies
                (get_or s.drops j no_drop).epoch;
        }),
      ) in
      count-Inv cfg limit limited pos_limit s before_few (Reach-Inv r before_few) j lt st
  Reach-Inv (later {s} r (close st)) few =
      close-Inv cfg limit limited pos_limit s few (Reach-Inv r few) st

  -- With DropLogMaxPerEpoch above zero and fewer than 2 ^ 63 label values over their limit: however
  -- the callbacks interleave with one another and with the closing of epochs, in each epoch, which
  -- lasts from one reset of dropLogCount to the next, the drop logs that are granted are as many as
  -- DropLogMaxPerEpoch, or as the drops of the epoch if these are fewer; and the drop logs in the log
  -- are those that were granted and have been written.
  pub drop_logs-least :
      {s : Epochs}
      → Reach cfg s
      → length s.drops < 2 ^ 63
      → (e : ℕ)
      → (places_in e is_passed s.drops ≡ least limit (places_in e is_tested s.drops))
        × (drop_logs s.counters.logs ≡ places is_logged s.drops)
  drop_logs-least r few e = let inv = Reach-Inv r few in (inv.allowed e, inv.written)

  -- With DropLogMaxPerEpoch above zero and fewer than 2 ^ 63 label values over their limit no drop is
  -- lost and none is counted twice: what the swaps of dropsThisEpoch have returned to the rotations and
  -- what it holds are the drops that were noted, what the swaps of dropLogCount have returned and what
  -- it holds are the drops that were tested, and labelsStripped is the number of verdicts.
  pub drops_accounted :
      {s : Epochs}
      → Reach cfg s
      → length s.drops < 2 ^ 63
      → (total_of s.totals + s.counters.drops_this_epoch ≡ places is_noted s.drops)
        × (total_of s.tallies + s.counters.drop_log_count ≡ places is_tested s.drops)
        × (s.counters.labels_stripped ≡ places is_stripped s.drops)
  drops_accounted r few =
      let inv = Reach-Inv r few in (inv.accounted, inv.tallied_all, inv.stripped)
