-- ===== src/Tests/Evicted.antt =====
-- A tracker that is idle for two epochs, and used before it is evicted.
use otel_cardinality_process.Base.{
  ℕ, ◌≡◌, refl, ap, ◌∙◌, true, false, none, some, List, [], ◌∷◌, arith, ℕ_discrete, text_discrete,
  if_pos, if_neg,
}
use otel_cardinality_process.Base.Assoc.{lookup, insert}
use otel_cardinality_process.Base.Sums.{assign}
use otel_cardinality_process.Concurrent.{
  Memory, Pc, entered, missed, holding, absent, admitted, stored, leaving, measuring, finished,
  Call, waiting, stale, evicting, miss, lock, miss_again, admit, create, count, unlock,
}
use otel_cardinality_process.Concurrent.Agreement.{pointer}
use otel_cardinality_process.Concurrent.Creation.{made}
use otel_cardinality_process.Concurrent.Epoch.{look}
use otel_cardinality_process.Concurrent.Stale.{
  whole_Reach, stale_Reach, with_calls, called, verdict, evicted_in_use,
}
use otel_cardinality_process.Concurrent.System.{
  System, Reach, empty_memory, start, later, arrive, call,
}
use otel_cardinality_process.Processor.{TrackerKey, get_shard, key_discrete}
use otel_cardinality_process.Rotation.Maps.{has_key, stale as is_stale}
use otel_cardinality_process.Rotation.Shards.{next_epoch}
use otel_cardinality_process.Tests.Threads.{single, key_a}
use otel_cardinality_process.Tests.World.{world}
use otel_cardinality_process.Tracker.{insert as insert_hash, new_tracker, rotate as rotate_tracker}

abbrev States : Type 0
States = System (List ℕ)

abbrev one_call : Pc → List Call
one_call pc = record { key = key_a; hash_val = 1; pc = pc } ∷ []

abbrev empty : Memory (List ℕ)
empty = empty_memory world single

abbrev held : Memory (List ℕ)
held = record empty { locked = assign empty.locked 1 true }

abbrev written : Memory (List ℕ)
written = record (made world single held key_a) { tracker_count = 1 }

abbrev opened : Memory (List ℕ)
opened = record written { locked = assign written.locked 1 false }

abbrev at : Memory (List ℕ) → Pc → States
at m pc = with_calls world single (one_call pc) m waiting

absent-Reach : Reach world single (at held absent)
unfolding get_shard lookup
absent-Reach =
    later {s = at held holding}
      (later {s = at empty missed}
        (later {s = at empty entered} (later start (arrive key_a 1))
          (call 0 (omega arith) (miss refl refl)))
        (call 0 (omega arith) (lock refl)))
      (call 0 (omega arith) (miss_again refl))

opened-Reach : Reach world single (at opened (measuring 0))
unfolding get_shard lookup ℕ_discrete
opened-Reach =
    later {s = at written (leaving 0)}
      (later {s = at (made world single held key_a) (stored 0)}
        (later {s = at held admitted}
          (later {s = at held absent} absent-Reach (call 0 (omega arith) (admit refl)))
          (call 0 (omega arith) create))
        (call 0 (omega arith) count))
      (call 0 (omega arith) unlock)

opened_free : (i : ℕ) → opened.locked i ≡ false
opened_free i = elim (ℕ_discrete 1 i) [
  | yes q ↦ if_pos (ℕ_discrete 1 i) q _ _
  | no n ↦ if_neg (ℕ_discrete 1 i) n _ _ ∙ if_neg (ℕ_discrete 1 i) n _ _
]

-- The call holds its pointer through a whole rotation.
after_one :
    (u : Memory (List ℕ)) × Reach world single (at u (measuring 0))
    × ((i : ℕ) → u.locked i ≡ false)
    × ((k : TrackerKey) → look world single u k ≡ next_epoch world (look world single opened k))
after_one = whole_Reach world single opened (one_call (measuring 0)) opened-Reach opened_free

idle_again : is_stale world (look world single after_one.0 key_a) ≡ true
unfolding get_shard lookup ℕ_discrete rotate_tracker insert key_discrete text_discrete new_tracker
idle_again = ap (is_stale world) (after_one.3 key_a)

abbrev Collected : Type 0
Collected =
    (v : Memory (List ℕ)) × (ks : List TrackerKey) × (a : ℕ) × Reach world single
      (with_calls world single (one_call (measuring 0)) v (stale 1 ks))
    × (v.locked 1 ≡ false)
    × (pointer world single v key_a ≡ some a)
    × (has_key key_a ks ≡ true)

after_two : Collected
unfolding get_shard
after_two =
    stale_Reach world single after_one.0 (one_call (measuring 0)) after_one.1 after_one.2 key_a
      idle_again

evicted_in_use_example :
    (u : Memory (List ℕ)) × Reach world single (
      with_calls world single
        (called world single key_a 2
            (finished (verdict world single after_two.0 key_a 2 after_two.2))
          ∷ one_call (measuring 0))
        u
        (evicting 1 []))
    × (u.heap after_two.2 ≡ (insert_hash world.hll 2 (after_two.0.heap after_two.2)).0)
    × (pointer world single u key_a ≡ none)
unfolding get_shard
evicted_in_use_example =
    evicted_in_use world single after_two.0 (one_call (measuring 0)) key_a 2 after_two.2 after_two.1
      after_two.3 after_two.4 after_two.5 after_two.6
