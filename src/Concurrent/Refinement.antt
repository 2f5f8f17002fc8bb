-- ===== src/Concurrent/Refinement.antt =====
-- A call of shouldDrop that runs alone, step by step on the shared memory of pointers, against
-- `should_drop` on a processor whose maps hold the trackers themselves.
use mathlib.Core.Option.{map as map_option}
use otel_cardinality_process.Base.{
  ℕ, zero, suc, get_or, replicate, [], ◌≡◌, refl, sym, ap, ◌∙◌, Bool, true, false, none, some,
  String, if_pos, if_neg, ℕ_discrete, Option-cases, Bool-cases, inl, inr, subst,
}
use otel_cardinality_process.Base.Assoc.{lookup}
use otel_cardinality_process.Base.Int.{add64}
use otel_cardinality_process.Base.Sums.{assign}
use otel_cardinality_process.Concurrent.{
  Memory, Pc, entered, absent, warning, finished, measuring, Move,
}
use otel_cardinality_process.Concurrent.Agreement.{
  pointer, Placed, Agrees, relock, Agrees-write, Agrees-reject_again, Agrees-reject_first,
  warned_memory,
}
use otel_cardinality_process.Concurrent.Creation.{made, pointer-made, Agrees-create}
use otel_cardinality_process.Concurrent.System.{empty_memory}
use otel_cardinality_process.Config.{Config}
use otel_cardinality_process.External.{Env}
use otel_cardinality_process.Processor.{
  Processor, Shard, num_shards, new_cardinality_processor, TrackerKey, key_discrete, get_shard,
  find_tracker, at_limit, is_full, should_drop, measure, add_tracker, get_limit,
}
use otel_cardinality_process.Processor.Cases.{
  key_of, should_drop_found, should_drop_full, should_drop_new,
}
use otel_cardinality_process.Tracker.{insert as insert_hash, new_tracker}

get_or-replicate : {A : Type 0} (n i : ℕ) (a : A) → get_or (replicate n a) i a ≡ a
get_or-replicate zero i a = refl
get_or-replicate (suc n) zero a = refl
get_or-replicate (suc n) (suc i) a = get_or-replicate n i a

module _ (env : Env) (cfg : Config) where
  open env use {Sketch, hll, sum64}

  -- Steps of one call, and of nobody else.
  pub data Alone (key : TrackerKey) (hash_val : ℕ) (m : Memory Sketch) (pc : Pc)
      : Memory Sketch → Pc → Type 0 where
    stay : Alone key hash_val m pc m pc
    step :
        {m' m'' : Memory Sketch} {pc' pc'' : Pc}
        → Alone key hash_val m pc m' pc'
        → Move env cfg m' key hash_val pc' m'' pc''
        → Alone key hash_val m pc m'' pc''

  -- The last step of a call.
  module _ (key : TrackerKey) (hash_val : ℕ) (m : Memory Sketch) (p : Processor Sketch)
      (g : Agrees env cfg m p) (a : ℕ) (here : pointer env cfg m key ≡ some a) where
    abbrev measured : Memory Sketch
    measured = record m { heap = assign m.heap a (insert_hash hll hash_val (m.heap a)).0 }

    measure-Move :
        Move env cfg m key hash_val
          (measuring a)
          measured
          (finished (measure env key hash_val (m.heap a) p).0)
    unfolding measure get_limit
    measure-Move = rw g.same_config Move.measure

    measure-Agrees : Agrees env cfg measured (measure env key hash_val (m.heap a) p).1
    unfolding measure
    measure-Agrees = Agrees-write env cfg key m p g a (insert_hash hll hash_val (m.heap a)).0 here

  -- What a call that runs alone comes to: the result and the state of `should_drop`.
  abbrev pub RunsAs : TrackerKey → ℕ → Memory Sketch → Bool × Processor Sketch → Type 0
  RunsAs key hash_val m (drop, p) =
      (m' : Memory Sketch) × Alone key hash_val m entered m' (finished drop)
      × Agrees env cfg m' p
      × ((i : ℕ) → m'.locked i ≡ false)

  module _ (mn ak av : String) (m : Memory Sketch) (p : Processor Sketch) (g : Agrees env cfg m p)
      (free : (i : ℕ) → m.locked i ≡ false) where
    abbrev key : TrackerKey
    key = key_of mn ak

    found_RunsAs :
        {a : ℕ}
        → pointer env cfg m key ≡ some a
        → RunsAs key (sum64 av) m (should_drop env mn ak av p)
    found_RunsAs {a} here =
        rw (should_drop_found env mn ak av p (sym (g.view key) ∙ ap (map_option m.heap) here)) (
          measured key (sum64 av) m p g a here,
          step (step stay (Move.find (free _) here)) (measure-Move key (sum64 av) m p g a here),
          measure-Agrees key (sum64 av) m p g a here,
          free,
        )

    module _ (missing : pointer env cfg m key ≡ none) where
      no_tracker : find_tracker env p key ≡ none
      no_tracker = sym (g.view key) ∙ ap (map_option m.heap) missing

      abbrev own_shard : ℕ
      own_shard = get_shard env mn

      abbrev locked_memory : Memory Sketch
      locked_memory = record m { locked = assign m.locked own_shard true }

      -- Into the critical section, where the key is still missing.
      entering : Alone key (sum64 av) m entered locked_memory absent
      entering =
          step (step (step stay (Move.miss (free _) missing)) (Move.lock (free _)))
            (Move.miss_again missing)

      abbrev unlocked : ℕ → Bool
      unlocked = assign (assign m.locked own_shard true) own_shard false

      unlocked_free : (i : ℕ) → unlocked i ≡ false
      unlocked_free i = elim (ℕ_discrete own_shard i) [
        | yes q ↦ if_pos (ℕ_discrete own_shard i) q _ _
        | no n ↦
            if_neg (ℕ_discrete own_shard i) n _ _ ∙ if_neg (ℕ_discrete own_shard i) n _ _ ∙ free i
      ]

      -- The memory behind the critical section that made a tracker.
      abbrev created : Memory Sketch
      created = record (made env cfg m key) {
        tracker_count = add64 m.tracker_count 1;
        locked = unlocked;
      }

      created-Agrees : Agrees env cfg created (add_tracker env key p)
      created-Agrees = relock env cfg unlocked (Agrees-create env cfg m p g key)

      created-pointer : pointer env cfg created key ≡ some m.fresh
      created-pointer = pointer-made env cfg m key key ∙ if_pos (key_discrete key key) refl _ _

      full_at : (b : Bool) → at_limit cfg m.tracker_count ≡ b → is_full env p ≡ b
      full_at b e = rw (g.same_config, ← g.same_count) e

      new_RunsAs :
          at_limit cfg m.tracker_count ≡ false
          → RunsAs key (sum64 av) m (should_drop env mn ak av p)
      new_RunsAs room = rw (should_drop_new env mn ak av p no_tracker (full_at false room)) (
          subst
            (λ t. RunsAs key (sum64 av) m (measure env key (sum64 av) t (add_tracker env key p)))
            (if_pos (ℕ_discrete m.fresh m.fresh) refl (new_tracker hll) (m.heap m.fresh))
            (
              measured key (sum64 av) created (add_tracker env key p) created-Agrees m.fresh
                  created-pointer,
              step
                  (step (step (step (step entering (Move.admit room)) Move.create) Move.count)
                    Move.unlock)
                  (measure-Move key (sum64 av) created (add_tracker env key p) created-Agrees
                    m.fresh created-pointer),
              measure-Agrees key (sum64 av) created (add_tracker env key p) created-Agrees m.fresh
                  created-pointer,
              unlocked_free,
            ))

      -- Out of the critical section without a tracker.
      refusing :
          at_limit cfg m.tracker_count ≡ true
          → Alone key
              (sum64 av)
              m
              entered
              (record m { locked = unlocked; trackers_rejected = add64 m.trackers_rejected 1 })
              warning
      refusing full = step (step (step entering (Move.refuse full)) Move.unlock_refused) Move.reject

      full_RunsAs :
          at_limit cfg m.tracker_count ≡ true → RunsAs key (sum64 av) m (should_drop env mn ak av p)
      full_RunsAs full =
          rw (should_drop_full env mn ak av p no_tracker (full_at true full))
            (elim (Bool-cases m.rejection_warned) [
              | inl e ↦ (
                record m { locked = unlocked; trackers_rejected = add64 m.trackers_rejected 1 },
                step (refusing full) (Move.warned e),
                relock env cfg unlocked (Agrees-reject_again env cfg m p g e),
                unlocked_free,
              )
              | inr e ↦ (
                record (warned_memory env cfg m) { locked = unlocked },
                step (refusing full) (Move.warn e),
                relock env cfg unlocked (Agrees-reject_first env cfg m p g e),
                unlocked_free,
              )
            ])

    -- The ways through `shouldDrop`, put together.
    pub alone_RunsAs : RunsAs key (sum64 av) m (should_drop env mn ak av p)
    alone_RunsAs = elim (Option-cases (pointer env cfg m key)) [
      | inl missing ↦ elim (Bool-cases (at_limit cfg m.tracker_count)) [
        | inl full ↦ full_RunsAs missing full
        | inr room ↦ new_RunsAs missing room
      ]
      | inr (a, here) ↦ found_RunsAs here
    ]

  pub empty_memory-Placed : Placed env cfg (empty_memory env cfg)
  unfolding lookup
  empty_memory-Placed = record {
    maps = λ i. tt;
    homed = λ i k e. absurd (some_none e);
    apart = λ k j e f. cc;
    taken = λ k e. absurd (some_none e);
  }
    where
      some_none : {a : ℕ} → none ≡ some a → ⊥
      some_none e = cc

  -- The memory of a new processor agrees with the new processor.
  pub empty_memory-Agrees :
      (to_lower : String → String)
      → Agrees env cfg (empty_memory env cfg) (new_cardinality_processor to_lower cfg)
  unfolding new_cardinality_processor lookup
  empty_memory-Agrees to_lower = record {
    same_config = refl;
    width = refl;
    view = λ k. sym (
        ap (lookup key_discrete k)
          (get_or-replicate {A = Shard Sketch} num_shards (get_shard env k.metric_name) []));
    placed = empty_memory-Placed;
    same_count = refl;
    same_rejected = refl;
    same_warned = refl;
    same_logs = refl;
  }
