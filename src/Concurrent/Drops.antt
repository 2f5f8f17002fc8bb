-- ===== src/Concurrent/Drops.antt =====
-- The counters of stripped labels and of drop logs of processor.go, under the goroutines that strip
-- labels and the one that closes an epoch: handleAttributesWithMode behind a positive verdict, and the
-- end of rotate. A step is one atomic operation or one log record.
pub mod Ledger
pub mod Steps
pub mod Accounts
use otel_cardinality_process.Base.{
  ℕ, ◌+◌, ◌<◌, ◌≡◌, ◌≢◌, String, Bool, true, false, List, [], ◌∷◌, length, get_or, set,
}
use otel_cardinality_process.Base.Int.{ℤ, pos, ltb_ℤ, leb_ℤ, signed64, add64, sub64}
use otel_cardinality_process.Config.{Config, enforcement_strip_and_reaggregate}
use otel_cardinality_process.Processor.{Log, dropping, suppressed}

pub record Counters : Type 0 where
  pub labels_stripped : ℕ
  pub drops_this_epoch : ℕ
  pub drop_log_count : ℕ
  pub logs : List Log

-- Where a callback stands, behind a positive verdict of `shouldDrop`.
pub data Place : Type 0 where
  exceeded : Place  -- before `labelsStripped.Add(1)`
  switching : Place  -- before the switch on the mode
  noted : Place  -- before the test of DropLogMaxPerEpoch
  granted : Place  -- before the log record
  kept reported unreported : Place

-- A label value that exceeds its limit. `epoch` counts the resets of dropLogCount before its test.
pub record Drop : Type 0 where
  pub metric_name : String
  pub key : String
  pub mode : String
  pub place : Place
  pub epoch : ℕ

-- Where `rotate` stands.
pub data Close : Type 0 where
  before : Close  -- `dropsThisEpoch.Swap(0)`
  totalled : ℕ → Close  -- before `dropLogCount.Swap(0)`
  tallied : ℕ → ℕ → Close  -- before the summary

module _ (cfg : Config) (c : Counters) where
  -- One step of a callback.
  pub data Count (metric_name key mode : String) : Place → Counters → Place → Type 0 where
    strip :
        Count metric_name key mode exceeded
          (record c { labels_stripped = add64 c.labels_stripped 1 })
          switching
    -- The modes that keep the attribute.
    keep : mode ≢ enforcement_strip_and_reaggregate → Count metric_name key mode switching c kept
    note :
        mode ≡ enforcement_strip_and_reaggregate
        → Count metric_name key mode switching
            (record c { drops_this_epoch = add64 c.drops_this_epoch 1 })
            noted
    unlimited : cfg.drop_log_max_per_epoch ≡ pos 0 → Count metric_name key mode noted c granted
    within :
        cfg.drop_log_max_per_epoch ≢ pos 0
        → leb_ℤ (signed64 (add64 c.drop_log_count 1)) cfg.drop_log_max_per_epoch ≡ true
        → Count metric_name key mode noted
            (record c { drop_log_count = add64 c.drop_log_count 1 })
            granted
    beyond :
        cfg.drop_log_max_per_epoch ≢ pos 0
        → leb_ℤ (signed64 (add64 c.drop_log_count 1)) cfg.drop_log_max_per_epoch ≡ false
        → Count metric_name key mode noted
            (record c { drop_log_count = add64 c.drop_log_count 1 })
            unreported
    write :
        Count metric_name key mode granted
          (record c { logs = dropping metric_name key ∷ c.logs })
          reported

  -- One step of the end of `rotate`.
  pub data Closing : Close → Counters → Close → Type 0 where
    swap_drops : Closing before (record c { drops_this_epoch = 0 }) (totalled c.drops_this_epoch)
    swap_logs :
        {total : ℕ}
        → Closing
            (totalled total)
            (record c { drop_log_count = 0 })
            (tallied total c.drop_log_count)
    summary :
        {total logged : ℕ}
        → ltb_ℤ (pos 0) (signed64 (sub64 total logged)) ≡ true
        → Closing
            (tallied total logged)
            (record c { logs = suppressed (sub64 total logged) total ∷ c.logs })
            before
    no_summary :
        {total logged : ℕ}
        → ltb_ℤ (pos 0) (signed64 (sub64 total logged)) ≡ false
        → Closing (tallied total logged) c before

-- `totals` and `tallies` list what the swaps of dropsThisEpoch and of dropLogCount have returned to
-- `rotate`, the last first.
pub record Epochs : Type 0 where
  pub counters : Counters
  pub drops : List Drop
  pub close : Close
  pub totals : List ℕ
  pub tallies : List ℕ

abbrev pub no_drop : Drop
no_drop = record { metric_name = ""; key = ""; mode = ""; place = exceeded; epoch = 0 }

-- The totals and the tallies, with what `rotate` holds behind its step.
abbrev pub totals_behind : Close → List ℕ → List ℕ
totals_behind (totalled total) totals = total ∷ totals
totals_behind close totals = totals

abbrev pub tallies_behind : Close → List ℕ → List ℕ
tallies_behind (tallied total logged) tallies = logged ∷ tallies
tallies_behind close tallies = tallies

-- The epoch of a drop, which its test fixes.
abbrev pub epoch_behind : Place → List ℕ → ℕ → ℕ
epoch_behind noted tallies epoch = length tallies
epoch_behind place tallies epoch = epoch

module _ (cfg : Config) where
  pub data Step (s : Epochs) : Epochs → Type 0 where
    exceed :
        (metric_name key mode : String)
        → Step s (record s {
          drops =
              record {
                metric_name = metric_name;
                key = key;
                mode = mode;
                place = exceeded;
                epoch = 0;
              }
              ∷ s.drops;
        })
    count :
        (j : ℕ) {c : Counters} {place : Place}
        → j < length s.drops
        → Count cfg s.counters
            (get_or s.drops j no_drop).metric_name
            (get_or s.drops j no_drop).key
            (get_or s.drops j no_drop).mode
            (get_or s.drops j no_drop).place
            c
            place
        → Step s (record s {
          counters = c;
          drops = set s.drops j (record (get_or s.drops j no_drop) {
            place = place;
            epoch =
                epoch_behind
                  (get_or s.drops j no_drop).place
                  s.tallies
                  (get_or s.drops j no_drop).epoch;
          });
        })
    close :
        {c : Counters} {w : Close}
        → Closing cfg s.counters s.close c w
        → Step s (record s {
          counters = c;
          close = w;
          totals = totals_behind w s.totals;
          tallies = tallies_behind w s.tallies;
        })

  pub data Reach : Epochs → Type 0 where
    start : Reach (record {
      counters = record {
        labels_stripped = 0;
        drops_this_epoch = 0;
        drop_log_count = 0;
        logs = [];
      };
      drops = [];
      close = before;
      totals = [];
      tallies = [];
    })
    later : {s t : Epochs} → Reach s → Step s t → Reach t
