-- ===== src/Tracker/Epochs.antt =====
-- Epochs of a tracker: the inserts between two calls of `tracker.rotate` in processor.go.
use otel_cardinality_process.Base.{
  ℕ, suc, ◌+◌, ◌<◌, ◌≡◌, refl, ◌∙◌, List, [], ◌∷◌, arith, ◌==◌, false, length, take, All,
}
use otel_cardinality_process.Base.Int.{u64_mod}
use otel_cardinality_process.External.{Hll, HllLaws}
use otel_cardinality_process.Tracker.{Tracker, rotate, new_tracker}
use otel_cardinality_process.Tracker.Estimates.{
  covered, insert_all, sketch_of, insert_all-cached_curr, insert_all-insert_count,
  insert_all-idle_epochs,
}

suc-eq-zero : (n : ℕ) → (suc n == 0) ≡ false
suc-eq-zero n = ground arith

-- The consecutive idle epochs at the end of a history, on top of `n` before it.
abbrev pub trailing_idle : ℕ → List (List ℕ) → ℕ
trailing_idle n [] = n
trailing_idle n ([] ∷ epochs) = trailing_idle (n + 1) epochs
trailing_idle n ((x ∷ xs) ∷ epochs) = trailing_idle 0 epochs

module _ (h : Hll) where
  open h use {Sketch, new14, estimate}

  -- A tracker at the head of an epoch.
  pub record IsFresh (t : Tracker Sketch) : Type 0 where
    pub uncounted : t.insert_count ≡ 0
    pub zeroed : t.cached_curr ≡ 0
    pub empty : t.current ≡ new14

  pub new_tracker-IsFresh : IsFresh (new_tracker h)
  unfolding new_tracker
  new_tracker-IsFresh = record { uncounted = refl; zeroed = refl; empty = refl }

  -- One epoch: the inserts, and the rotation at its end.
  abbrev pub run_epoch : Tracker Sketch → List ℕ → Tracker Sketch
  run_epoch t xs = (rotate h new14 (insert_all h xs t)).0

  abbrev pub run_epochs : Tracker Sketch → List (List ℕ) → Tracker Sketch
  run_epochs t [] = t
  run_epochs t (xs ∷ epochs) = run_epochs (run_epoch t xs) epochs

  -- An epoch of fewer than 2 ^ 64 inserts leaves a tracker at the head of the next one, whose
  -- previous sketch holds the inserts of the epoch, and whose baseline is the estimate of those
  -- that the last refresh covered.
  pub run_epoch_baseline :
      HllLaws h
      → (t : Tracker Sketch) (xs : List ℕ) → IsFresh t
      → length xs < u64_mod
      → IsFresh (run_epoch t xs)
        × ((run_epoch t xs).previous ≡ sketch_of h xs new14)
        × ((run_epoch t xs).cached_prev
            ≡ estimate (sketch_of h (take (covered (length xs)) xs) new14))
  unfolding rotate
  run_epoch_baseline laws t xs f small =
      let all = insert_all-cached_curr h laws t xs f.uncounted f.zeroed f.empty small in
      (record { uncounted = refl; zeroed = refl; empty = refl }, all.1, all.0)

  rotate-idle_epochs :
      (t : Tracker Sketch) (xs : List ℕ) (n : ℕ)
      → t.insert_count ≡ length xs
      → t.idle_epochs ≡ n
      → (epochs : List (List ℕ))
      → trailing_idle (rotate h new14 t).0.idle_epochs epochs ≡ trailing_idle n (xs ∷ epochs)
  unfolding rotate
  rotate-idle_epochs t [] n e i epochs = rw (e, i)
  rotate-idle_epochs t (x ∷ xs) n e i epochs = rw (e, suc-eq-zero (length xs))

  -- After any history of epochs of fewer than 2 ^ 64 inserts, `idle_epochs` is the number of
  -- consecutive idle epochs at its end (on top of those before it, if all are idle).
  pub run_epochs-idle_epochs :
      HllLaws h
      → (t : Tracker Sketch) (epochs : List (List ℕ)) → IsFresh t
      → All (λ xs. length xs < u64_mod) epochs
      → (run_epochs t epochs).idle_epochs ≡ trailing_idle t.idle_epochs epochs
  run_epochs-idle_epochs laws t [] f small = refl
  run_epochs-idle_epochs laws t (xs ∷ epochs) f small =
      run_epochs-idle_epochs laws (run_epoch t xs) epochs (run_epoch_baseline laws t xs f small.0).0
        small.1
      ∙ rotate-idle_epochs (insert_all h xs t) xs t.idle_epochs
          (insert_all-insert_count h laws t xs f.uncounted f.zeroed f.empty small.0)
          (insert_all-idle_epochs h t xs) epochs
