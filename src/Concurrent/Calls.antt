-- ===== src/Concurrent/Calls.antt =====
-- A step of a call of shouldDrop keeps the invariant.
use otel_cardinality_process.Base.{
  ℕ, ◌%◌, suc, ◌+◌, ◌≤◌, ◌<◌, ◌≡◌, ◌≢◌, refl, sym, ap, ◌∙◌, Bool, false, List, arith, ◌&&◌, if_neg,
  length, get_or, set, ℕ_discrete,
}
use otel_cardinality_process.Base.Assoc.{insert, IsMap, insert-IsMap, length-insert_new}
use otel_cardinality_process.Base.Int.{u64_mod, ℤ, pos, negsuc, to_ℕ, signed64, ltb_ℤ, leb_ℤ}
use otel_cardinality_process.Base.Sums.{sum_below, sum_below-ones}
use otel_cardinality_process.Concurrent.{
  Memory, Pc, admitted, stored, leaving, Call, Sweep, Move, lock, admit, create, count, unlock,
  unlock_refused,
}
use otel_cardinality_process.Concurrent.Counts.{
  holds, owes, passed, flag, sweep_holds, overcounted, home_of, calls_at, calls_at-set,
  calls_at_mono, sum-set, size, size-assign, passed-le, only_at_self, only_at_ne,
}
use otel_cardinality_process.Concurrent.Invariant.{Inv}
use otel_cardinality_process.Concurrent.System.{no_call}
use otel_cardinality_process.Config.{Config}
use otel_cardinality_process.External.{Env}
use otel_cardinality_process.Processor.{key_discrete}
use otel_cardinality_process.Processor.Accounting.{IsLimited}
use otel_cardinality_process.Processor.Store.{get_shard-lt}
use otel_cardinality_process.Concurrent.Lookups.{
  flag-le, IsUnseen-at, written, written_self, Move-IsUnseen, Move-swept,
}

abbrev at_limit_of : ℤ → ℕ → Bool
at_limit_of limit n = ltb_ℤ (pos 0) limit && leb_ℤ limit (signed64 n)

-- The counter is below the limit when the test lets a call pass.
below_limit :
    (limit : ℤ) (n : ℕ)
    → IsLimited limit
    → n ≤ to_ℕ limit + 255
    → at_limit_of limit n ≡ false
    → n < to_ℕ limit
below_limit (pos k) n l b h = ground arith
below_limit (negsuc k) n l b h = ground arith

pub limit_small : (limit : ℤ) → IsLimited limit → to_ℕ limit ≤ 10_000_000
limit_small (pos k) l = ground arith
limit_small (negsuc k) l = ground arith

module _ (env : Env) (cfg : Config) (m : Memory env.hll.Sketch) (cs : List Call) (w : Sweep)
    (inv : Inv env cfg m cs w) (j : ℕ) (lt : j < length cs) where
  open env use {Sketch}
  open inv use {maps, excluded, backed, counted, word, congruent, bounded, unseen, swept}

  abbrev c : Call
  c = get_or cs j no_call

  abbrev s : ℕ
  s = home_of env c

  abbrev moved : Pc → List Call
  moved pc = set cs j (record c { pc = pc })

  abbrev Moves : Pc → Memory Sketch → Pc → Type 0
  Moves = Move env cfg m c.key c.hash_val

  here :
      (v : Pc → ℕ) (p p' : Pc)
      → c.pc ≡ p
      → calls_at env v (moved p') s + v p ≡ calls_at env v cs s + v p'
  here v p p' e = omega (
    arith,
    calls_at-set env v cs j p' s lt,
    only_at_self s (v c.pc),
    only_at_self s (v p'),
    ap v e,
  )

  elsewhere :
      (v : Pc → ℕ) (p' : Pc) (i : ℕ) → i ≢ s → calls_at env v (moved p') i ≡ calls_at env v cs i
  elsewhere v p' i other = omega (
    arith,
    calls_at-set env v cs j p' i lt,
    only_at_ne i s (v c.pc) other,
    only_at_ne i s (v p') other,
  )

  Move-excluded :
      {p p' : Pc} {m' : Memory Sketch}
      → Moves p m' p'
      → c.pc ≡ p
      → (i : ℕ) → calls_at env holds (moved p') i + sweep_holds w i ≡ flag (m'.locked i)
  Move-excluded {p} {p'} {m'} mv e i = elim (ℕ_discrete i s) [
    | yes q ↦ rw q (at_home mv (here holds p p' e) (excluded s))
    | no n ↦ rw (elsewhere holds p' i n) (excluded i ∙ ap flag (away mv n))
  ]
    where
      at_home :
          {p p' : Pc} {m' : Memory Sketch}
          → Moves p m' p'
          → calls_at env holds (moved p') s + holds p ≡ calls_at env holds cs s + holds p'
          → calls_at env holds cs s + sweep_holds w s ≡ flag (m.locked s)
          → calls_at env holds (moved p') s + sweep_holds w s ≡ flag (m'.locked s)
      at_home (lock free) f x = ground arith
      at_home mv f x = ground arith

      away : {p p' : Pc} {m' : Memory Sketch} → Moves p m' p' → i ≢ s → m.locked i ≡ m'.locked i
      away (lock free) n = sym (if_neg (ℕ_discrete s i) (λ e. n (sym e)) _ _)
      away unlock n = sym (if_neg (ℕ_discrete s i) (λ e. n (sym e)) _ _)
      away unlock_refused n = sym (if_neg (ℕ_discrete s i) (λ e. n (sym e)) _ _)
      away mv n = refl

  -- A new key makes the map longer.
  grown :
      c.pc ≡ admitted
      → length (insert key_discrete c.key m.fresh (m.shards s)) ≡ suc (length (m.shards s))
  grown e =
      length-insert_new key_discrete c.key m.fresh (m.shards s)
        (IsUnseen-at env cfg m cs w inv j lt e)

  -- The maps that a step leaves alone.
  other_maps :
      {p p' : Pc} {m' : Memory Sketch} → Moves p m' p' → (i : ℕ) → i ≢ s → m.shards i ≡ m'.shards i
  other_maps create i n = written env cfg m cs w inv j lt m.fresh i n
  other_maps mv i n = refl

  Move-maps :
      {p p' : Pc} {m' : Memory Sketch} → Moves p m' p' → (i : ℕ) → IsMap key_discrete (m'.shards i)
  Move-maps create i = elim (ℕ_discrete i s) [
    | yes q ↦
        rw (q, written_self env cfg m cs w inv j lt m.fresh)
          (insert-IsMap key_discrete c.key m.fresh (m.shards s) (maps s))
    | no n ↦ rw (← written env cfg m cs w inv j lt m.fresh i n) (maps i)
  ]
  Move-maps mv i = maps i

  Move-backed :
      {p p' : Pc} {m' : Memory Sketch}
      → Moves p m' p'
      → c.pc ≡ p
      → (i : ℕ) → calls_at env owes (moved p') i ≤ length (m'.shards i)
  Move-backed {p} {p'} {m'} mv e i = elim (ℕ_discrete i s) [
    | yes q ↦ rw q (at_home mv e (here owes p p' e) (backed s))
    | no n ↦ rw (elsewhere owes p' i n, ← other_maps mv i n) (backed i)
  ]
    where
      at_home :
          {p p' : Pc} {m' : Memory Sketch}
          → Moves p m' p'
          → c.pc ≡ p
          → calls_at env owes (moved p') s + owes p ≡ calls_at env owes cs s + owes p'
          → calls_at env owes cs s ≤ length (m.shards s)
          → calls_at env owes (moved p') s ≤ length (m'.shards s)
      at_home create e f x =
          omega (arith, f, x, grown e, ap length (written_self env cfg m cs w inv j lt m.fresh))
      at_home count e f x = omega (arith, f, x)
      at_home mv e f x = omega (arith, f, x)

  total :
      (v : Pc → ℕ) (p p' : Pc)
      → c.pc ≡ p
      → sum_below 256 (calls_at env v (moved p')) + v p ≡ sum_below 256 (calls_at env v cs) + v p'
  total v p p' e = omega (arith, sum-set env v cs j p' lt, ap v e)

  small : IsLimited cfg.max_tracker_count → to_ℕ cfg.max_tracker_count ≤ 10_000_000
  small l = limit_small cfg.max_tracker_count l

  Move-counted :
      {p p' : Pc} {m' : Memory Sketch}
      → Moves p m' p'
      → c.pc ≡ p
      → IsLimited cfg.max_tracker_count
      → size m' + overcounted w ≡ m'.tracker_count + sum_below 256 (calls_at env owes (moved p'))
  Move-counted create e l = omega (
    arith,
    counted l,
    total owes admitted (stored m.fresh) e,
    size-assign m.shards s (insert key_discrete c.key m.fresh (m.shards s))
        (get_shard-lt env c.key.metric_name),
    grown e,
  )
  Move-counted (count {a}) e l =
      omega (arith, counted l, total owes (stored a) (leaving a) e, bounded l, small l)
  Move-counted {p} {p'} mv e l = omega (arith, counted l, total owes p p' e)

  Move-word : {p p' : Pc} {m' : Memory Sketch} → Moves p m' p' → m'.tracker_count < u64_mod
  Move-word count = omega arith
  Move-word mv = word

  Move-congruent :
      {p p' : Pc} {m' : Memory Sketch}
      → Moves p m' p'
      → c.pc ≡ p
      → (size m' + overcounted w) % u64_mod
        ≡ (m'.tracker_count + sum_below 256 (calls_at env owes (moved p'))) % u64_mod
  Move-congruent create e = omega (
    arith,
    congruent,
    total owes admitted (stored m.fresh) e,
    size-assign m.shards s (insert key_discrete c.key m.fresh (m.shards s))
        (get_shard-lt env c.key.metric_name),
    grown e,
  )
  Move-congruent (count {a}) e = omega (arith, congruent, total owes (stored a) (leaving a) e)
  Move-congruent {p} {p'} mv e = omega (arith, congruent, total owes p p' e)

  -- At most one call at a shard has passed the test and has not counted.
  few_passed :
      {p p' : Pc} {m' : Memory Sketch}
      → Moves p m' p'
      → c.pc ≡ p
      → sum_below 256 (calls_at env passed (moved p')) ≤ 256
  few_passed {p} {p'} {m'} mv e = sum_below-ones 256 (calls_at env passed (moved p')) (λ i. omega (
    arith,
    calls_at_mono env passed holds (moved p') i passed-le,
    Move-excluded mv e i,
    flag-le (m'.locked i),
  ))

  Move-bounded :
      {p p' : Pc} {m' : Memory Sketch}
      → Moves p m' p'
      → c.pc ≡ p
      → IsLimited cfg.max_tracker_count
      → m'.tracker_count + sum_below 256 (calls_at env passed (moved p'))
        ≤ to_ℕ cfg.max_tracker_count + 255
  Move-bounded (admit room) e l = omega (
    arith,
    few_passed (admit room) e,
    below_limit cfg.max_tracker_count m.tracker_count l (omega (arith, bounded l)) room,
  )
  Move-bounded (count {a}) e l = omega (arith, bounded l, total passed (stored a) (leaving a) e)
  Move-bounded {p} {p'} mv e l = omega (arith, bounded l, total passed p p' e)

  -- A step of one call keeps the invariant.
  pub Move-Inv : {p' : Pc} {m' : Memory Sketch} → Moves c.pc m' p' → Inv env cfg m' (moved p') w
  Move-Inv mv = record {
    maps = Move-maps mv;
    excluded = Move-excluded mv refl;
    backed = Move-backed mv refl;
    counted = Move-counted mv refl;
    word = Move-word mv;
    congruent = Move-congruent mv refl;
    bounded = Move-bounded mv refl;
    unseen = Move-IsUnseen env cfg m cs w inv j lt mv refl;
    swept = Move-swept env cfg m cs w inv j lt mv;
  }
