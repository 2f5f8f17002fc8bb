-- ===== src/Concurrent/Invariant.antt =====
-- What holds of the shared memory of processor.go between any two steps of its goroutines.
use mathlib.Core.List.{append_assoc}
use otel_cardinality_process.Base.{
  ℕ, ◌%◌, ◌+◌, ◌≤◌, ◌<◌, ◌≡◌, sym, ◌∙◌, Bool, true, false, none, some, List, [], ◌∷◌, ◌++◌, if_pos,
  if_neg, if◌then◌else◌, length, get_or, Bool-cases, inl, inr,
}
use otel_cardinality_process.Base.Assoc.{
  lookup, insert, delete, IsMap, lookup-insert, lookup-delete,
}
use otel_cardinality_process.Base.Int.{u64_mod, to_ℕ}
use otel_cardinality_process.Base.Sums.{sum_below}
use otel_cardinality_process.Concurrent.{
  Memory, Pointers, Pc, absent, admitted, Call, Sweep, waiting, at_shard, turning, stale, evicting,
  evicted, closing,
}
use otel_cardinality_process.Concurrent.Counts.{
  holds, owes, passed, flag, sweep_holds, overcounted, home_of, calls_at, size,
}
use otel_cardinality_process.Concurrent.System.{no_call}
use otel_cardinality_process.Config.{Config}
use otel_cardinality_process.Processor.Accounting.{IsLimited}
use otel_cardinality_process.External.{Env}
use otel_cardinality_process.Processor.{TrackerKey, key_discrete}
use otel_cardinality_process.Rotation.Maps.{has_key, Distinct}

-- The keys are different, and each is in the map.
pub record Listed (p : Pointers) (ks : List TrackerKey) : Type 0 where
  pub distinct : Distinct ks
  pub present :
      (k : TrackerKey) → has_key k ks ≡ true → (a : ℕ) × (lookup key_discrete k p ≡ some a)

abbrev pub keys_of : Pointers → List TrackerKey
keys_of [] = []
keys_of ((k, a) ∷ p) = k ∷ keys_of p

pub Listed-insert :
    (p : Pointers) (ks : List TrackerKey) (key : TrackerKey) (a : ℕ)
    → Listed p ks
    → Listed (insert key_discrete key a p) ks
Listed-insert p ks key a l = record {
  distinct = l.distinct;
  present = λ k e. stays k (l.present k e);
}
  where
    stays :
        (k : TrackerKey)
        → (b : ℕ) × (lookup key_discrete k p ≡ some b)
        → (b : ℕ) × (lookup key_discrete k (insert key_discrete key a p) ≡ some b)
    stays k (b, e) = elim (key_discrete key k) [
      | yes q ↦ (a, lookup-insert key_discrete key k a p ∙ if_pos (key_discrete key k) q _ _)
      | no n ↦ (b, lookup-insert key_discrete key k a p ∙ if_neg (key_discrete key k) n _ _ ∙ e)
    ]

pub Listed-delete :
    (p : Pointers) (key : TrackerKey) (ks : List TrackerKey)
    → IsMap key_discrete p
    → Listed p (key ∷ ks)
    → Listed (delete key_discrete key p) ks
Listed-delete p key ks m l = record {
  distinct = l.distinct.1;
  present = λ k e. elim (key_discrete key k) [
    | yes q ↦
        let clash : has_key key ks ≡ true = rw q e in
        let new : has_key key ks ≡ false = l.distinct.0 in cc
    | no n ↦
        let here = l.present k (if_neg (key_discrete key k) n true (has_key k ks) ∙ e) in
        (here.0, lookup-delete key_discrete key k p m ∙ if_neg (key_discrete key k) n _ _ ∙ here.1)
  ];
}

has_key-keys_of :
    (p : Pointers) (k : TrackerKey)
    → has_key k (keys_of p) ≡ true
    → (a : ℕ) × (lookup key_discrete k p ≡ some a)
unfolding lookup
has_key-keys_of [] k e = cc
has_key-keys_of ((j, a) ∷ p) k e = elim (key_discrete j k) [
  | yes q ↦ (a, if_pos (key_discrete j k) q _ _)
  | no n ↦
      let later =
        has_key-keys_of p k (sym (if_neg (key_discrete j k) n true (has_key k (keys_of p))) ∙ e) in
      (later.0, if_neg (key_discrete j k) n _ _ ∙ later.1)
]

keys_of-Distinct : (p : Pointers) → IsMap key_discrete p → Distinct (keys_of p)
keys_of-Distinct [] m = tt
keys_of-Distinct ((k, a) ∷ p) m = (
  elim (Bool-cases (has_key k (keys_of p))) [
    | inl e ↦
        let (b, found) = has_key-keys_of p k e in
        let missing : lookup key_discrete k p ≡ none = m.0 in cc
    | inr e ↦ e
  ],
  keys_of-Distinct p m.1,
)

-- A snapshot of a map lists keys of the map.
pub snapshot-Listed :
    (entries p : Pointers)
    → IsMap key_discrete entries
    → ((k : TrackerKey) → lookup key_discrete k entries ≡ lookup key_discrete k p)
    → Listed p (keys_of entries)
snapshot-Listed entries p m same = record {
  distinct = keys_of-Distinct entries m;
  present = λ k e. let (a, found) = has_key-keys_of entries k e in (a, sym (same k) ∙ found);
}

has_key-skip :
    (ks es : List TrackerKey) (j k : TrackerKey)
    → has_key k (ks ++ es) ≡ true
    → has_key k (ks ++ j ∷ es) ≡ true
has_key-skip [] es j k e = elim (key_discrete j k) [
  | yes q ↦ if_pos (key_discrete j k) q _ _
  | no n ↦ if_neg (key_discrete j k) n _ _ ∙ e
]
has_key-skip (i ∷ ks) es j k e = elim (key_discrete i k) [
  | yes q ↦ if_pos (key_discrete i k) q _ _
  | no n ↦
      if_neg (key_discrete i k) n _ _
      ∙ has_key-skip ks es j k (sym (if_neg (key_discrete i k) n true (has_key k (ks ++ es))) ∙ e)
]

Distinct-skip :
    (ks es : List TrackerKey) (j : TrackerKey) → Distinct (ks ++ j ∷ es) → Distinct (ks ++ es)
Distinct-skip [] es j d = d.1
Distinct-skip (k ∷ ks) es j d = (
  elim (Bool-cases (has_key k (ks ++ es))) [
    | inl e ↦
        let clash = has_key-skip ks es j k e in
        let new : has_key k (ks ++ j ∷ es) ≡ false = d.0 in cc
    | inr e ↦ e
  ],
  Distinct-skip ks es j d.1,
)

-- One turn of the loop: the key of the entry is collected or not.
pub Listed-turn :
    (p : Pointers) (ks es : List TrackerKey) (k : TrackerKey) (b : Bool)
    → Listed p (ks ++ k ∷ es)
    → Listed p ((if b then ks ++ k ∷ [] else ks) ++ es)
Listed-turn p ks es k true l = rw (append_assoc ks (k ∷ []) es) l
Listed-turn p ks es k false l = record {
  distinct = Distinct-skip ks es k l.distinct;
  present = λ j e. l.present j (has_key-skip ks es k j e);
}

-- What `rotate` has collected is in the map of its shard.
abbrev pub IsSwept : {S : Type 0} → Memory S → Sweep → Type 0
IsSwept m waiting = Unit
IsSwept m (at_shard i) = Unit
IsSwept m (turning i entries ks) = (i < 256) × Listed (m.shards i) (ks ++ keys_of entries)
IsSwept m (stale i ks) = (i < 256) × Listed (m.shards i) ks
IsSwept m (evicting i ks) = (i < 256) × Listed (m.shards i) ks
IsSwept m (evicted i ks) = (i < 256) × Listed (m.shards i) ks
IsSwept m closing = Unit

module _ (env : Env) (cfg : Config) where
  open env use {Sketch}

  -- A call that is about to make a tracker has seen that there is none.
  abbrev pub IsUnseen : Memory Sketch → Call → Pc → Type 0
  IsUnseen m c absent = lookup key_discrete c.key (m.shards (home_of env c)) ≡ none
  IsUnseen m c admitted = lookup key_discrete c.key (m.shards (home_of env c)) ≡ none
  IsUnseen m c pc = Unit

  pub record Inv (m : Memory Sketch) (cs : List Call) (w : Sweep) : Type 0 where
    pub maps : (i : ℕ) → IsMap key_discrete (m.shards i)
    -- The write lock of a shard is held by one goroutine, or free.
    pub excluded : (i : ℕ) → calls_at env holds cs i + sweep_holds w i ≡ flag (m.locked i)
    pub backed : (i : ℕ) → calls_at env owes cs i ≤ length (m.shards i)
    -- The counter, up to what is on its way.
    pub counted :
        IsLimited cfg.max_tracker_count
        → size m + overcounted w ≡ m.tracker_count + sum_below 256 (calls_at env owes cs)
    -- Without a limit the counter may wrap around.
    pub word : m.tracker_count < u64_mod
    pub congruent :
        (size m + overcounted w) % u64_mod
        ≡ (m.tracker_count + sum_below 256 (calls_at env owes cs)) % u64_mod
    pub bounded :
        IsLimited cfg.max_tracker_count
        → m.tracker_count + sum_below 256 (calls_at env passed cs)
          ≤ to_ℕ cfg.max_tracker_count + 255
    pub unseen : (j : ℕ) → j < length cs → IsUnseen m (get_or cs j no_call) (get_or cs j no_call).pc
    pub swept : IsSwept m w
