-- ===== src/Concurrent/Drops/Steps.antt =====
-- Each step of a callback and of the end of `rotate` of processor.go keeps the accounts.
use otel_cardinality_process.Base.{
  String, ℕ, suc, ◌+◌, ◌^◌, ◌≤◌, ◌<◌, ◌≡◌, ◌≢◌, refl, sym, ap, subst, ◌∙◌, true, false, List, [],
  ◌∷◌, arith, length, length-set, get_or, set, if_pos, if_neg, ℕ_discrete,
}
use otel_cardinality_process.Base.Int.{pos, to_ℕ, leb_ℤ, signed64, add64}
use otel_cardinality_process.Base.Sums.{sum_by-set}
use otel_cardinality_process.Concurrent.Drops.{
  Counters, Place, exceeded, noted, Drop, no_drop, Close, Count, beyond, write, strip, keep, note,
  unlimited, within, Closing, swap_drops, swap_logs, summary, no_summary, Epochs, totals_behind,
  tallies_behind, epoch_behind,
}
use otel_cardinality_process.Concurrent.Drops.Ledger.{
  is_stripped, is_noted, is_tested, is_passed, is_logged, places, places_in, at_epoch, least,
  total_of, drop_logs, Inv,
}
use otel_cardinality_process.Config.{Config}

places-le : (w : Place → ℕ) → ((p : Place) → w p ≤ 1) → (ds : List Drop) → places w ds ≤ length ds
places-le w one [] = omega arith
places-le w one (d ∷ ds) = omega (arith, one d.place, places-le w one ds)

is_stripped-le : (p : Place) → is_stripped p ≤ 1
is_stripped-le p = ground arith

is_noted-le : (p : Place) → is_noted p ≤ 1
is_noted-le p = ground arith

is_tested-le : (p : Place) → is_tested p ≤ 1
is_tested-le p = ground arith

-- The counter is within the limit when the test grants a log record.
within_limit :
    (limit n : ℕ) → n + 1 < 2 ^ 63 → leb_ℤ (signed64 (add64 n 1)) (pos limit) ≡ true → n + 1 ≤ limit
within_limit limit n small h = ground arith

beyond_limit :
    (limit n : ℕ) → n + 1 < 2 ^ 63 → leb_ℤ (signed64 (add64 n 1)) (pos limit) ≡ false → limit ≤ n
beyond_limit limit n small h = ground arith

not_unlimited : (limit : ℕ) → 0 < limit → pos limit ≢ pos 0
not_unlimited limit h e = omega (arith, h, ap to_ℕ e)

least_below : (limit n : ℕ) → n + 1 ≤ limit → least limit n + 1 ≡ least limit (n + 1)
least_below limit n h = ground arith

least_above : (limit n : ℕ) → limit ≤ n → least limit n ≡ least limit (n + 1)
least_above limit n h = ground arith

allowed_same : (limit p t p' t' : ℕ) → p' ≡ p → t' ≡ t → p ≡ least limit t → p' ≡ least limit t'
allowed_same limit p t p' t' a b h = a ∙ h ∙ ap (least limit) (sym b)

at_epoch-none : (e n : ℕ) → at_epoch e n 0 ≡ 0
at_epoch-none e n = ground arith

at_epoch-ne : (e n k : ℕ) → e ≢ n → at_epoch e n k ≡ 0
at_epoch-ne e n k other = if_neg (ℕ_discrete e n) other k 0

at_epoch_self : (n k : ℕ) → at_epoch n n k ≡ k
at_epoch_self n k = if_pos (ℕ_discrete n n) refl k 0

module _ (limit : ℕ) (s : Epochs) (inv : Inv limit s) where
  open inv use {stripped, accounted, tallied_all, written, current, ahead, allowed}

  pub exceed-Inv :
      (m k mode : String)
      → Inv limit (record s {
        drops =
            record { metric_name = m; key = k; mode = mode; place = exceeded; epoch = 0 } ∷ s.drops;
      })
  exceed-Inv m k mode = record {
    stripped = omega (arith, stripped);
    accounted = omega (arith, accounted);
    tallied_all = omega (arith, tallied_all);
    written = omega (arith, written);
    current = omega (arith, current, at_epoch-none (length s.tallies) 0);
    ahead = λ e lt. omega (arith, ahead e lt, at_epoch-none e 0);
    allowed = λ e.
        allowed_same limit _ _ _ _ (omega (arith, at_epoch-none e 0))
          (omega (arith, at_epoch-none e 0)) (allowed e);
  }

module _ (cfg : Config) (limit : ℕ) (limited : cfg.drop_log_max_per_epoch ≡ pos limit)
    (pos_limit : 0 < limit) (s : Epochs) (few : length s.drops < 2 ^ 63) (inv : Inv limit s) where
  open inv use {stripped, accounted, tallied_all, written, current, ahead, allowed}

  abbrev now : ℕ
  now = length s.tallies

  -- What a step makes of the callbacks.
  record Shift (d : Drop) (p p' : Place) (x : List Drop) : Type 0 where
    as_stripped : places is_stripped x + is_stripped p ≡ places is_stripped s.drops + is_stripped p'
    as_noted : places is_noted x + is_noted p ≡ places is_noted s.drops + is_noted p'
    as_tested : places is_tested x + is_tested p ≡ places is_tested s.drops + is_tested p'
    as_logged : places is_logged x + is_logged p ≡ places is_logged s.drops + is_logged p'
    in_epoch :
        (w : Place → ℕ) (e : ℕ)
        → places_in e w x + at_epoch e d.epoch (w p)
          ≡ places_in e w s.drops + at_epoch e (epoch_behind p s.tallies d.epoch) (w p')
    small_stripped : places is_stripped x < 2 ^ 63
    small_noted : places is_noted x < 2 ^ 63
    small_tested : places is_tested x < 2 ^ 63

  module _ (j : ℕ) (lt : j < length s.drops) where
    abbrev d : Drop
    d = get_or s.drops j no_drop

    abbrev behind : Place → Place → Drop
    behind p p' = record d { place = p'; epoch = epoch_behind p s.tallies d.epoch }

    moved :
        (w : Place → ℕ) (p p' : Place)
        → d.place ≡ p
        → places w (set s.drops j (behind p p')) + w p ≡ places w s.drops + w p'
    moved w p p' e =
        omega
          (arith, sum_by-set (λ (x : Drop). w x.place) s.drops j (behind p p') no_drop lt, ap w e)

    moved_in :
        (w : Place → ℕ) (p p' : Place)
        → d.place ≡ p
        → (n : ℕ)
        → places_in n w (set s.drops j (behind p p')) + at_epoch n d.epoch (w p)
          ≡ places_in n w s.drops + at_epoch n (epoch_behind p s.tallies d.epoch) (w p')
    moved_in w p p' e n = omega (
      arith,
      sum_by-set (λ (x : Drop). at_epoch n x.epoch (w x.place)) s.drops j (behind p p') no_drop lt,
      ap (λ q. at_epoch n d.epoch (w q)) e,
    )

    below :
        (w : Place → ℕ)
        → ((p : Place) → w p ≤ 1)
        → (p p' : Place) → places w (set s.drops j (behind p p')) < 2 ^ 63
    below w one p p' = omega (
      arith,
      places-le w one (set s.drops j (behind p p')),
      length-set s.drops j (behind p p'),
      few,
    )

    moved-Shift : (p p' : Place) → d.place ≡ p → Shift d p p' (set s.drops j (behind p p'))
    moved-Shift p p' e = record {
      as_stripped = moved is_stripped p p' e;
      as_noted = moved is_noted p p' e;
      as_tested = moved is_tested p p' e;
      as_logged = moved is_logged p p' e;
      in_epoch = λ w n. moved_in w p p' e n;
      small_stripped = below is_stripped is_stripped-le p p';
      small_noted = below is_noted is_noted-le p p';
      small_tested = below is_tested is_tested-le p p';
    }

  -- A step that tests nothing.
  quiet-Inv :
      (d : Drop) (p p' : Place) (x : List Drop) (c : Counters)
      → Shift d p p' x
      → epoch_behind p s.tallies d.epoch ≡ d.epoch
      → is_tested p' ≡ is_tested p
      → is_passed p' ≡ is_passed p
      → c.drop_log_count ≡ s.counters.drop_log_count
      → c.labels_stripped ≡ places is_stripped x
      → total_of s.totals + c.drops_this_epoch ≡ places is_noted x
      → drop_logs c.logs ≡ places is_logged x
      → Inv limit (record s { counters = c; drops = x })
  quiet-Inv d p p' x c sh same t u log_count labels drops logs = record {
    stripped = labels;
    accounted = drops;
    tallied_all = omega (arith, tallied_all, log_count, sh.as_tested, t);
    written = logs;
    current = omega (arith, current, log_count, still is_tested t now);
    ahead = λ e lt. omega (arith, ahead e lt, still is_tested t e);
    allowed =
        λ e. allowed_same limit _ _ _ _ (still is_passed u e) (still is_tested t e) (allowed e);
  }
    where
      still : (w : Place → ℕ) → w p' ≡ w p → (e : ℕ) → places_in e w x ≡ places_in e w s.drops
      still w h e =
          omega
            (arith, sh.in_epoch w e, ap (λ n. at_epoch e n (w p')) same, ap (at_epoch e d.epoch) h)

  -- The test of DropLogMaxPerEpoch belongs to the epoch that is current.
  tested-Inv :
      (d : Drop) (p' : Place) (x : List Drop)
      → Shift d noted p' x
      → is_tested p' ≡ 1
      → is_stripped p' ≡ 1
      → is_noted p' ≡ 1
      → is_logged p' ≡ 0
      → least limit s.counters.drop_log_count + is_passed p'
        ≡ least limit (s.counters.drop_log_count + 1)
      → Inv limit (record s {
        counters = record s.counters { drop_log_count = add64 s.counters.drop_log_count 1 };
        drops = x;
      })
  tested-Inv d p' x sh t a b l grown = record {
    stripped = omega (arith, stripped, sh.as_stripped, a);
    accounted = omega (arith, accounted, sh.as_noted, b);
    tallied_all = omega (arith, tallied_all, sh.as_tested, t, sh.small_tested);
    written = omega (arith, written, sh.as_logged, l);
    current = omega (arith, current, tallied_all, sh.as_tested, t, sh.small_tested, tested_now);
    ahead =
        λ e lt. omega (arith, ahead e lt, elsewhere is_tested refl e (λ q. omega (arith, lt, q)));
    allowed = λ e. elim (ℕ_discrete e now) [
      | yes q ↦
          subst (λ n. places_in n is_passed x ≡ least limit (places_in n is_tested x)) (sym q)
            (passed_now
              ∙ ap (λ n. n + is_passed p') (allowed now ∙ ap (least limit) (sym current))
              ∙ grown
              ∙ ap (least limit) (ap (λ n. n + 1) current ∙ sym tested_now))
      | no other ↦
          allowed_same limit _ _ _ _ (elsewhere is_passed refl e other)
            (elsewhere is_tested refl e other) (allowed e)
    ];
  }
    where
      tested_now : places_in now is_tested x ≡ places_in now is_tested s.drops + 1
      tested_now = omega (
        arith,
        sh.in_epoch is_tested now,
        at_epoch-none now d.epoch,
        at_epoch_self now (is_tested p'),
        t,
      )

      passed_now : places_in now is_passed x ≡ places_in now is_passed s.drops + is_passed p'
      passed_now = omega (
        arith,
        sh.in_epoch is_passed now,
        at_epoch-none now d.epoch,
        at_epoch_self now (is_passed p'),
      )

      elsewhere :
          (w : Place → ℕ)
          → w noted ≡ 0
          → (e : ℕ) → e ≢ now
          → places_in e w x ≡ places_in e w s.drops
      elsewhere w none_yet e other = omega (
        arith,
        sh.in_epoch w e,
        ap (at_epoch e d.epoch) none_yet,
        at_epoch-none e d.epoch,
        at_epoch-ne e now (w p') other,
      )

  -- A step of a callback.
  counts-Inv :
      (d : Drop) {c : Counters} {p p' : Place}
      → Count cfg s.counters d.metric_name d.key d.mode p c p'
      → (x : List Drop) → Shift d p p' x
      → Inv limit (record s { counters = c; drops = x })
  counts-Inv d strip x sh =
      quiet-Inv d _ _ x _ sh refl refl refl refl
        (omega (arith, stripped, sh.as_stripped, sh.small_stripped))
        (omega (arith, accounted, sh.as_noted)) (omega (arith, written, sh.as_logged))
  counts-Inv d (keep m) x sh =
      quiet-Inv d _ _ x _ sh refl refl refl refl (omega (arith, stripped, sh.as_stripped))
        (omega (arith, accounted, sh.as_noted)) (omega (arith, written, sh.as_logged))
  counts-Inv d (note m) x sh =
      quiet-Inv d _ _ x _ sh refl refl refl refl (omega (arith, stripped, sh.as_stripped))
        (omega (arith, accounted, sh.as_noted, sh.small_noted))
        (omega (arith, written, sh.as_logged))
  counts-Inv d write x sh =
      quiet-Inv d _ _ x _ sh refl refl refl refl (omega (arith, stripped, sh.as_stripped))
        (omega (arith, accounted, sh.as_noted)) (omega (arith, written, sh.as_logged))
  counts-Inv d (unlimited z) x sh = absurd (not_unlimited limit pos_limit (sym limited ∙ z))
  counts-Inv d (within m fits) x sh = tested-Inv d _ x sh refl refl refl refl (
      least_below limit s.counters.drop_log_count (
        within_limit limit s.counters.drop_log_count
          (omega (arith, tallied_all, sh.as_tested, sh.small_tested))
          (subst (λ v. leb_ℤ (signed64 (add64 s.counters.drop_log_count 1)) v ≡ true) limited
            fits)))
  counts-Inv d (beyond m over) x sh = tested-Inv d _ x sh refl refl refl refl (
      omega (
        arith,
        least_above limit s.counters.drop_log_count (
            beyond_limit limit s.counters.drop_log_count
              (omega (arith, tallied_all, sh.as_tested, sh.small_tested))
              (subst (λ v. leb_ℤ (signed64 (add64 s.counters.drop_log_count 1)) v ≡ false) limited
                over)),
      ))

  pub count-Inv :
      (j : ℕ) (lt : j < length s.drops) {c : Counters} {p' : Place}
      → Count cfg s.counters (d j lt).metric_name (d j lt).key (d j lt).mode (d j lt).place c p'
      → Inv limit (record s { counters = c; drops = set s.drops j (behind j lt (d j lt).place p') })
  count-Inv j lt {c} {p'} st = counts-Inv (d j lt) st _ (moved-Shift j lt (d j lt).place p' refl)

  -- A step of the rotation.
  pub close-Inv :
      {v w : Close} {c : Counters}
      → Closing cfg s.counters v c w
      → Inv limit (record s {
        counters = c;
        close = w;
        totals = totals_behind w s.totals;
        tallies = tallies_behind w s.tallies;
      })
  close-Inv swap_drops = record {
    stripped = stripped;
    accounted = omega (arith, accounted);
    tallied_all = tallied_all;
    written = written;
    current = current;
    ahead = ahead;
    allowed = allowed;
  }
  close-Inv swap_logs = record {
    stripped = stripped;
    accounted = accounted;
    tallied_all = omega (arith, tallied_all);
    written = written;
    current = sym (ahead (suc now) (omega arith));
    ahead = λ e lt. ahead e (omega (arith, lt));
    allowed = allowed;
  }
  close-Inv (summary h) = record {
    stripped = stripped;
    accounted = accounted;
    tallied_all = tallied_all;
    written = written;
    current = current;
    ahead = ahead;
    allowed = allowed;
  }
  close-Inv (no_summary h) = record {
    stripped = stripped;
    accounted = accounted;
    tallied_all = tallied_all;
    written = written;
    current = current;
    ahead = ahead;
    allowed = allowed;
  }
