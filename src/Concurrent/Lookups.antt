-- ===== src/Concurrent/Lookups.antt =====
-- What a step of a call of shouldDrop does to what the others have looked up.
use otel_cardinality_process.Base.{
  ℕ, ◌≤◌, ◌<◌, ◌≡◌, ◌≢◌, refl, sym, ap, subst, Bool, List, arith, if_pos, if_neg, length, get_or,
  set, length-set, get_or-set_self, get_or-set_ne, ℕ_discrete,
}
use otel_cardinality_process.Base.Assoc.{insert}
use otel_cardinality_process.Base.Sums.{assign, sum_by-two}
use otel_cardinality_process.Concurrent.{
  Memory, Pc, absent, admitted, Call, Sweep, waiting, at_shard, turning, stale, evicting, evicted,
  closing, Move, miss_again, admit, create,
}
use otel_cardinality_process.Concurrent.Counts.{holds, flag, only_at, home_of, only_at_self}
use otel_cardinality_process.Concurrent.Invariant.{Inv, IsUnseen, IsSwept, Listed, Listed-insert}
use otel_cardinality_process.Concurrent.System.{no_call}
use otel_cardinality_process.Config.{Config}
use otel_cardinality_process.External.{Env}
use otel_cardinality_process.Processor.{TrackerKey, key_discrete}

pub flag-le : (b : Bool) → flag b ≤ 1
flag-le b = ground arith

IsSwept-kept :
    {S : Type 0} (m m' : Memory S) (w : Sweep)
    → ((i : ℕ) (ks : List TrackerKey) → Listed (m.shards i) ks → Listed (m'.shards i) ks)
    → IsSwept m w
    → IsSwept m' w
IsSwept-kept m m' waiting keep h = tt
IsSwept-kept m m' (at_shard i) keep h = tt
IsSwept-kept m m' (turning i entries ks) keep h = (h.0, keep i _ h.1)
IsSwept-kept m m' (stale i ks) keep h = (h.0, keep i ks h.1)
IsSwept-kept m m' (evicting i ks) keep h = (h.0, keep i ks h.1)
IsSwept-kept m m' (evicted i ks) keep h = (h.0, keep i ks h.1)
IsSwept-kept m m' closing keep h = tt

module _ (env : Env) (cfg : Config) (m : Memory env.hll.Sketch) (cs : List Call) (w : Sweep)
    (inv : Inv env cfg m cs w) (j : ℕ) (lt : j < length cs) where
  open env use {Sketch}
  open inv use {maps, excluded, backed, counted, word, congruent, bounded, unseen, swept}

  abbrev c : Call
  c = get_or cs j no_call

  abbrev s : ℕ
  s = home_of env c

  abbrev moved : Pc → List Call
  moved pc = set cs j (record c { pc = pc })

  abbrev Moves : Pc → Memory Sketch → Pc → Type 0
  Moves = Move env cfg m c.key c.hash_val

  -- No other call is in the critical section of the shard.
  pub alone :
      (k : ℕ)
      → k < length cs
      → k ≢ j
      → home_of env (get_or cs k no_call) ≡ s
      → holds c.pc ≡ 1
      → holds (get_or cs k no_call).pc ≡ 1
      → ⊥
  alone k below other same mine its = omega (
    arith,
    sum_by-two (λ (d : Call). only_at s (home_of env d) (holds d.pc)) cs k j no_call below lt other,
    excluded s,
    flag-le (m.locked s),
    ap (λ x. only_at s x (holds (get_or cs k no_call).pc)) same,
    only_at_self s (holds (get_or cs k no_call).pc),
    only_at_self s (holds c.pc),
    mine,
    its,
  )

  pub IsUnseen-at : {p : Pc} → c.pc ≡ p → IsUnseen env cfg m c p
  IsUnseen-at e = subst (IsUnseen env cfg m c) e (unseen j lt)

  pub written :
      (a i : ℕ)
      → i ≢ s
      → m.shards i ≡ assign m.shards s (insert key_discrete c.key a (m.shards s)) i
  written a i n = sym (if_neg (ℕ_discrete s i) (λ e. n (sym e)) _ _)

  pub written_self :
      (a : ℕ)
      → assign m.shards s (insert key_discrete c.key a (m.shards s)) s
        ≡ insert key_discrete c.key a (m.shards s)
  written_self a = if_pos (ℕ_discrete s s) refl _ _

  IsUnseen-same :
      (m' : Memory Sketch) (d : Call) (pc : Pc)
      → m.shards (home_of env d) ≡ m'.shards (home_of env d)
      → IsUnseen env cfg m d pc
      → IsUnseen env cfg m' d pc
  IsUnseen-same m' d absent e u = rw (← e) u
  IsUnseen-same m' d admitted e u = rw (← e) u
  IsUnseen-same m' d pc e u = tt

  own-IsUnseen :
      {p p' : Pc} {m' : Memory Sketch}
      → Moves p m' p'
      → c.pc ≡ p
      → IsUnseen env cfg m' (record c { pc = p' }) p'
  own-IsUnseen (miss_again nothing) e = nothing
  own-IsUnseen (admit room) e = IsUnseen-at e
  own-IsUnseen mv e = tt

  others-IsUnseen :
      {p p' : Pc} {m' : Memory Sketch}
      → Moves p m' p'
      → c.pc ≡ p
      → (k : ℕ) → k < length cs
      → k ≢ j
      → IsUnseen env cfg m' (get_or cs k no_call) (get_or cs k no_call).pc
  others-IsUnseen {p} {p'} {m'} create e k below n =
      elim (ℕ_discrete (home_of env (get_or cs k no_call)) s) [
        | yes same ↦ outside same (get_or cs k no_call).pc refl
        | no other ↦
            IsUnseen-same m' (get_or cs k no_call) (get_or cs k no_call).pc
              (written m.fresh _ other) (unseen k below)
      ]
    where
      outside :
          home_of env (get_or cs k no_call) ≡ s
          → (pc : Pc) → (get_or cs k no_call).pc ≡ pc
          → IsUnseen env cfg m' (get_or cs k no_call) pc
      outside same absent q = absurd (alone k below n same (ap holds e) (ap holds q))
      outside same admitted q = absurd (alone k below n same (ap holds e) (ap holds q))
      outside same pc q = tt
  others-IsUnseen {m' = m'} mv e k below n =
      IsUnseen-same m' (get_or cs k no_call) (get_or cs k no_call).pc refl (unseen k below)

  pub Move-IsUnseen :
      {p p' : Pc} {m' : Memory Sketch}
      → Moves p m' p'
      → c.pc ≡ p
      → (k : ℕ) → k < length (moved p')
      → IsUnseen env cfg m' (get_or (moved p') k no_call) (get_or (moved p') k no_call).pc
  Move-IsUnseen {p} {p'} {m'} mv e k below = elim (ℕ_discrete k j) [
    | yes q ↦ rw (q, get_or-set_self cs j (record c { pc = p' }) no_call lt) (own-IsUnseen mv e)
    | no n ↦
        rw (get_or-set_ne cs j k (record c { pc = p' }) no_call (λ q. n (sym q)))
          (others-IsUnseen mv e k (omega (arith, below, length-set cs j (record c { pc = p' }))) n)
  ]

  pub Move-swept : {p p' : Pc} {m' : Memory Sketch} → Moves p m' p' → IsSwept m' w
  Move-swept {m' = m'} create = IsSwept-kept m m' w grow swept
    where
      grow : (i : ℕ) (ks : List TrackerKey) → Listed (m.shards i) ks → Listed (m'.shards i) ks
      grow i ks l = elim (ℕ_discrete i s) [
        | yes q ↦
            rw (q, written_self m.fresh)
              (Listed-insert (m.shards s) ks c.key m.fresh
                (subst (λ x. Listed (m.shards x) ks) q l))
        | no n ↦ rw (← written m.fresh i n) l
      ]
  Move-swept {m' = m'} mv = IsSwept-kept m m' w (λ i ks l. l) swept
