-- ===== src/Tracker/Estimates.antt =====
-- The lazily refreshed estimate of `tracker.insert` in processor.go.
use otel_cardinality_process.Base.{
  ℕ, zero, suc, ◌+◌, ◌*◌, ◌/◌, ◌%◌, ◌≤◌, ◌<◌, ◌≡◌, refl, sym, ap, ◌∙◌, ◌⊎◌, inl, inr, true, false,
  List, [], ◌∷◌, ◌++◌, arith, leb, if◌then◌else◌, length, take, Bool-cases, length-append,
}
use mathlib.Core.List.{append-nil, append_assoc}
use native.Mathlib.Nat.{suc-add}
use otel_cardinality_process.Base.Bits.{and_63}
use otel_cardinality_process.Base.Int.{u64_mod}
use otel_cardinality_process.External.{Hll, HllLaws}
use otel_cardinality_process.Tracker.{Tracker, insert, refreshes}

-- The number of inserts that the cached estimate covers after `n` inserts in an epoch.
abbrev pub covered : ℕ → ℕ
covered n = if leb n 64 then n else n / 64 * 64

refresh_cases :
    (n : ℕ)
    → ((refreshes (n + 1) ≡ true) × (covered (n + 1) ≡ n + 1))
      ⊎ ((refreshes (n + 1) ≡ false) × (covered (n + 1) ≡ covered n) × (covered n ≤ n))
refresh_cases n = elim (Bool-cases (refreshes (n + 1))) [
  | inl now ↦ inl (now, ground (arith, and_63 (n + 1)))
  | inr later ↦ inr (later, ground (arith, and_63 (n + 1)), ground (arith, and_63 (n + 1)))
]

covered_lag : (n : ℕ) → n < covered n + 64
covered_lag n = ground arith

take-snoc {ℓ} :
    {A : Type ℓ} (n : ℕ) (xs : List A) (x : A) → n ≤ length xs → take n (xs ++ x ∷ []) ≡ take n xs
take-snoc zero xs x h = refl
take-snoc (suc n) [] x h = absurd (omega arith)
take-snoc (suc n) (y ∷ xs) x h = ap (◌∷◌ y) (take-snoc n xs x (omega arith))

take_all-snoc {ℓ} :
    {A : Type ℓ} (xs : List A) (x : A) → take (length xs + 1) (xs ++ x ∷ []) ≡ xs ++ x ∷ []
take_all-snoc [] x = refl
take_all-snoc (y ∷ xs) x = rw suc-add (ap (◌∷◌ y) (take_all-snoc xs x))

module _ (h : Hll) where
  open h use {Sketch, insert_hash, estimate}

  abbrev pub insert_all : List ℕ → Tracker Sketch → Tracker Sketch
  insert_all [] t = t
  insert_all (x ∷ xs) t = insert_all xs (insert h x t).0

  abbrev pub sketch_of : List ℕ → Sketch → Sketch
  sketch_of [] s = s
  sketch_of (x ∷ xs) s = sketch_of xs (insert_hash x s)

  -- After the inserts `done`, from the sketch `start` at the head of the epoch.
  record Holds (start : Sketch) (done : List ℕ) (t : Tracker Sketch) : Type 0 where
    counts : t.insert_count ≡ length done
    holds : t.current ≡ sketch_of done start
    caches : t.cached_curr ≡ estimate (sketch_of (take (covered (length done)) done) start)

  sketch_of-snoc :
      (xs : List ℕ) (x : ℕ) (s : Sketch)
      → sketch_of (xs ++ x ∷ []) s ≡ insert_hash x (sketch_of xs s)
  sketch_of-snoc [] x s = refl
  sketch_of-snoc (y ∷ xs) x s = sketch_of-snoc xs x (insert_hash y s)

  insert-Holds :
      (start : Sketch) (done : List ℕ) (t : Tracker Sketch) (x : ℕ)
      → length done + 1 < u64_mod
      → Holds start done t
      → Holds start (done ++ x ∷ []) (insert h x t).0
  unfolding insert
  insert-Holds start done t x small v = record {
    counts = omega (arith, v.counts, grown);
    holds = rw (sketch_of-snoc done x start, v.holds);
    caches = elim (refresh_cases (length done)) [
      | inl (now, all) ↦
          rw (counted, now, grown, all, take_all-snoc done x, sketch_of-snoc done x start, v.holds)
      | inr (later, same, below) ↦
          rw (counted, later, grown, same, take-snoc (covered (length done)) done x below) v.caches
    ];
  }
    where
      grown : length (done ++ x ∷ []) ≡ length done + 1
      grown = length-append done (x ∷ [])

      counted : (t.insert_count + 1) % u64_mod ≡ length done + 1
      counted = omega (arith, v.counts)

  insert_all-Holds :
      (start : Sketch) (xs done : List ℕ) (t : Tracker Sketch)
      → length done + length xs < u64_mod
      → Holds start done t
      → Holds start (done ++ xs) (insert_all xs t)
  insert_all-Holds start [] done t small v = rw (append-nil done) v
  insert_all-Holds start (x ∷ xs) done t small v = rw (← append_assoc done (x ∷ []) xs) (
      insert_all-Holds start xs (done ++ x ∷ []) (insert h x t).0
        (omega (arith, length-append done (x ∷ []))) (insert-Holds start done t x (omega arith) v))

  epoch :
      HllLaws h
      → (t : Tracker Sketch) (xs : List ℕ) → t.insert_count ≡ 0
      → t.cached_curr ≡ 0
      → t.current ≡ h.new14
      → length xs < u64_mod
      → Holds h.new14 xs (insert_all xs t)
  epoch laws t xs fresh zeroed new small =
      insert_all-Holds h.new14 xs [] t (omega arith)
        (record { counts = fresh; holds = new; caches = zeroed ∙ sym laws.estimate-new14 })

  -- After `n` inserts in an epoch (fewer than 2 ^ 64), the cached estimate is the estimate of the
  -- first `n` if n ≤ 64, and of the first 64 ⌊n / 64⌋ otherwise; the sketch itself holds all.
  pub insert_all-cached_curr :
      HllLaws h
      → (t : Tracker Sketch) (xs : List ℕ) → t.insert_count ≡ 0
      → t.cached_curr ≡ 0
      → t.current ≡ h.new14
      → length xs < u64_mod
      → ((insert_all xs t).cached_curr
          ≡ estimate (sketch_of (take (covered (length xs)) xs) h.new14))
        × ((insert_all xs t).current ≡ sketch_of xs h.new14)
        × (length xs < covered (length xs) + 64)
  insert_all-cached_curr laws t xs fresh zeroed new small =
      let all = epoch laws t xs fresh zeroed new small in
      (all.caches, all.holds, covered_lag (length xs))

  pub insert_all-insert_count :
      HllLaws h
      → (t : Tracker Sketch) (xs : List ℕ) → t.insert_count ≡ 0
      → t.cached_curr ≡ 0
      → t.current ≡ h.new14
      → length xs < u64_mod
      → (insert_all xs t).insert_count ≡ length xs
  insert_all-insert_count laws t xs fresh zeroed new small =
      (epoch laws t xs fresh zeroed new small).counts

  pub insert_all-idle_epochs :
      (t : Tracker Sketch) (xs : List ℕ) → (insert_all xs t).idle_epochs ≡ t.idle_epochs
  unfolding insert
  insert_all-idle_epochs t [] = refl
  insert_all-idle_epochs t (x ∷ xs) = insert_all-idle_epochs (insert h x t).0 xs
