-- ===== src/Rotation/Summary.antt =====
-- The summary of the suppressed drop logs at the end of `rotate` of processor.go.
use otel_cardinality_process.Base.{
  ℕ, ◌^◌, ◌<◌, ◌≡◌, refl, Bool, true, false, ◌&&◌, inl, inr, ◌∷◌, ltb, if◌then◌else◌, arith,
  Bool-cases,
}
use otel_cardinality_process.Base.Int.{pos, ltb_ℤ, signed64, sub64}
use otel_cardinality_process.Enforce.{is_zero}
use otel_cardinality_process.Enforce.Counts.{LogsAgree}
use otel_cardinality_process.Processor.{Processor, Log, log, suppressed}
use otel_cardinality_process.Rotation.{close_epoch}

reported : (d n : ℕ) → d < 2 ^ 63 → n ≡ 0 → ltb_ℤ (pos 0) (signed64 (sub64 d n)) ≡ ltb 0 d
reported d n h e = ground arith

unreported : (d n : ℕ) → d < 2 ^ 63 → n ≡ d → ltb_ℤ (pos 0) (signed64 (sub64 d n)) ≡ false
unreported d n h e = ground arith

all_reported : (d n : ℕ) → d < 2 ^ 63 → n ≡ 0 → sub64 d n ≡ d
all_reported d n h e = omega (arith, h, e)

module _ {S : Type 0} where
  if_log :
      (b : Bool) (l : Log) (q : Processor S)
      → (if b then log l q else q).logs ≡ (if b then l ∷ q.logs else q.logs)
  if_log true l q = refl
  if_log false l q = refl

  -- With a limit on drop logs the summary is never written, although drops beyond the limit are not
  -- logged; with none (0) it reports every drop of the epoch as suppressed, although each was
  -- logged. The counters are as LogsAgree says, and below 2 ^ 63.
  pub close_epoch_summary :
      (p : Processor S)
      → LogsAgree p
      → p.drops_this_epoch < 2 ^ 63
      → (close_epoch p).logs ≡ (
          if is_zero p.config.drop_log_max_per_epoch && ltb 0 p.drops_this_epoch
          then suppressed p.drops_this_epoch p.drops_this_epoch ∷ p.logs
          else p.logs)
  unfolding close_epoch
  close_epoch_summary p agree small = elim (Bool-cases (is_zero p.config.drop_log_max_per_epoch)) [
    | inl none_set ↦
        let none_counted = agree.unlimited none_set in
        rw
          (
            reported p.drops_this_epoch p.drop_log_count small none_counted,
            all_reported p.drops_this_epoch p.drop_log_count small none_counted,
            none_set,
          )
          (if_log (ltb 0 p.drops_this_epoch) (suppressed p.drops_this_epoch p.drops_this_epoch)
            (record p { rejection_warned = false; drops_this_epoch = 0; drop_log_count = 0 }))
    | inr limited ↦
        rw (unreported p.drops_this_epoch p.drop_log_count small (agree.limited limited), limited)
          refl
  ]
