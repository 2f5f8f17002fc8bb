-- ===== src/Concurrent/Overshoot.antt =====
-- The bound MaxTrackerCount of processor.go is checked under the lock of one shard, and counted
-- later: two calls in different shards can pass it together.
use otel_cardinality_process.Base.{
  ℕ, refl, none, some, if_pos, if_neg, ℕ_discrete, suc, ◌+◌, ◌<◌, ◌≡◌, ◌≢◌, sym, ap, subst, ◌∙◌,
  false, arith, length, length-set, get_or, set, get_or-set_self, get_or-set_ne,
}
use otel_cardinality_process.Base.Assoc.{insert, length-insert_new}
use otel_cardinality_process.Concurrent.{
  Memory, Pc, absent, admitted, stored, Call, Move, admit, create,
}
use otel_cardinality_process.Concurrent.Counts.{size, size-assign}
use otel_cardinality_process.Concurrent.Safety.{lookup-admitted}
use otel_cardinality_process.Concurrent.Agreement.{pointer}
use otel_cardinality_process.Concurrent.Creation.{made, pointer-made}
use otel_cardinality_process.Concurrent.System.{
  System, no_call, Step, call, Reach, later, Runs, here, further,
}
use otel_cardinality_process.Config.{Config}
use otel_cardinality_process.External.{Env}
use otel_cardinality_process.Processor.{TrackerKey, at_limit, get_shard, key_discrete}
use otel_cardinality_process.Processor.Store.{get_shard-lt}

module _ (env : Env) (cfg : Config) where
  open env use {Sketch, hll}

  abbrev pub call_at : System Sketch → ℕ → Call
  call_at s j = get_or s.calls j no_call

  -- The state behind a step of the call in place `j`.
  abbrev pub next : System Sketch → ℕ → Memory Sketch → Pc → System Sketch
  next s j m pc = record s { mem = m; calls = set s.calls j (record (call_at s j) { pc = pc }) }

  pub Reach-next :
      (s : System Sketch) (j : ℕ) (p : Pc) {m : Memory Sketch} {pc : Pc}
      → Reach env cfg s
      → j < length s.calls
      → (call_at s j).pc ≡ p
      → Move env cfg s.mem (call_at s j).key (call_at s j).hash_val p m pc
      → Reach env cfg (next s j m pc)
  Reach-next s j p {m} {pc} r lt e mv = later r (
      call j lt (
        subst (λ q. Move env cfg s.mem (call_at s j).key (call_at s j).hash_val q m pc) (sym e) mv))

  step-next :
      (s : System Sketch) (j : ℕ) (p : Pc) {m : Memory Sketch} {pc : Pc}
      → j < length s.calls
      → (call_at s j).pc ≡ p
      → Move env cfg s.mem (call_at s j).key (call_at s j).hash_val p m pc
      → Step env cfg s (next s j m pc)
  step-next s j p {m} {pc} lt e mv =
      call j lt
        (subst (λ q. Move env cfg s.mem (call_at s j).key (call_at s j).hash_val q m pc) (sym e) mv)

  module _ (s : System Sketch) (j : ℕ) (m : Memory Sketch) (pc : Pc) where
    own_pc : j < length s.calls → (call_at (next s j m pc) j).pc ≡ pc
    own_pc lt =
        ap (λ (c : Call). c.pc)
          (get_or-set_self s.calls j (record (call_at s j) { pc = pc }) no_call lt)

    other_pc : (k : ℕ) → j ≢ k → (call_at (next s j m pc) k).pc ≡ (call_at s k).pc
    other_pc k n =
        ap (λ (c : Call). c.pc)
          (get_or-set_ne s.calls j k (record (call_at s j) { pc = pc }) no_call n)

    still : (k : ℕ) → k < length s.calls → k < length (next s j m pc).calls
    still k below = omega (arith, below, length-set s.calls j (record (call_at s j) { pc = pc }))

  -- A step changes no key.
  same_key :
      (s : System Sketch) (j : ℕ) (m : Memory Sketch) (pc : Pc) (i : ℕ)
      → j < length s.calls
      → (call_at (next s j m pc) i).key ≡ (call_at s i).key
  same_key s j m pc i lt = elim (ℕ_discrete j i) [
    | yes q ↦
        subst (λ x. (call_at (next s j m pc) x).key ≡ (call_at s x).key) q
          (ap (λ (c : Call). c.key)
            (get_or-set_self s.calls j (record (call_at s j) { pc = pc }) no_call lt))
    | no n ↦
        ap (λ (c : Call). c.key)
          (get_or-set_ne s.calls j i (record (call_at s j) { pc = pc }) no_call n)
  ]

  abbrev pub key_at : System Sketch → ℕ → TrackerKey
  key_at s j = (call_at s j).key

  -- A call that is about to write makes the maps longer by its tracker.
  size-made :
      {s : System Sketch}
      → Reach env cfg s
      → (j : ℕ) → j < length s.calls
      → (call_at s j).pc ≡ admitted
      → size (made env cfg s.mem (key_at s j)) ≡ suc (size s.mem)
  size-made {s} r j lt e =
      let home = get_shard env (key_at s j).metric_name in
      omega (
        arith,
        size-assign s.mem.shards home
            (insert key_discrete (key_at s j) s.mem.fresh (s.mem.shards home))
            (get_shard-lt env (key_at s j).metric_name),
        length-insert_new key_discrete (key_at s j) s.mem.fresh (s.mem.shards home)
            (lookup-admitted env cfg r j lt e),
      )

  -- Where the counter has not reached MaxTrackerCount, two calls of a reachable state that stand
  -- before its test can both pass and both make a tracker: the goroutines can go on from this state to
  -- one in which each of the two has written a new tracker under its key, both trackers are in the
  -- maps, which have grown by two, and the counter is still the same.
  pub both_created :
      {s : System Sketch}
      → Reach env cfg s
      → (j k : ℕ) → j < length s.calls
      → k < length s.calls
      → j ≢ k
      → (call_at s j).pc ≡ absent
      → (call_at s k).pc ≡ absent
      → at_limit cfg s.mem.tracker_count ≡ false
      → (t : System Sketch) × Runs env cfg s t
        × ((call_at t j).pc ≡ stored s.mem.fresh)
        × ((call_at t k).pc ≡ stored (suc s.mem.fresh))
        × (pointer env cfg t.mem (key_at s j) ≡ some s.mem.fresh)
        × (pointer env cfg t.mem (key_at s k) ≡ some (suc s.mem.fresh))
        × (size t.mem ≡ size s.mem + 2)
        × (t.mem.tracker_count ≡ s.mem.tracker_count)
  both_created {s} r j k lt below apart e f room =
      let s₁ = next s j s.mem admitted in
      let step₁ = step-next s j absent lt e (admit room) in
      let s₂ = next s₁ k s.mem admitted in
      let k₁ = still s j s.mem admitted k below in
      let f₁ = other_pc s j s.mem admitted k apart ∙ f in
      let step₂ = step-next s₁ k absent k₁ f₁ (admit room) in
      let j₂ = still s₁ k s.mem admitted j (still s j s.mem admitted j lt) in
      let e₂ = other_pc s₁ k s.mem admitted j (λ q. apart (sym q)) ∙ own_pc s j s.mem admitted lt in
      let f₂ = own_pc s₁ k s.mem admitted k₁ in
      let k₂ = still s₁ k s.mem admitted k k₁ in
      let r₂ = later (later r step₁) step₂ in
      let m₃ = made env cfg s.mem (key_at s₂ j) in
      let step₃ = step-next s₂ j admitted j₂ e₂ create in
      let s₃ = next s₂ j m₃ (stored s.mem.fresh) in
      let j₃ = still s₂ j m₃ (stored s.mem.fresh) j j₂ in
      let e₃ = own_pc s₂ j m₃ (stored s.mem.fresh) j₂ in
      let f₃ = other_pc s₂ j m₃ (stored s.mem.fresh) k apart ∙ f₂ in
      let k₃ = still s₂ j m₃ (stored s.mem.fresh) k k₂ in
      let r₃ = later r₂ step₃ in
      let m₄ = made env cfg m₃ (key_at s₃ k) in
      let step₄ = step-next s₃ k admitted k₃ f₃ create in
      let own_key = same_key s₁ k s.mem admitted j k₁ ∙ same_key s j s.mem admitted j lt in
      let other_key =
        same_key s₂ j m₃ (stored s.mem.fresh) k j₂
        ∙ same_key s₁ k s.mem admitted k k₁
        ∙ same_key s j s.mem admitted k lt in
      let mine =
        pointer-made env cfg s.mem (key_at s₂ j) (key_at s₂ j)
        ∙ if_pos (key_discrete (key_at s₂ j) (key_at s₂ j)) refl _ _ in
      let differ : key_at s₃ k ≢ key_at s₂ j = λ q.
        let missing : pointer env cfg m₃ (key_at s₃ k) ≡ none =
          lookup-admitted env cfg r₃ k k₃ f₃ in
        let found : pointer env cfg m₃ (key_at s₂ j) ≡ some s.mem.fresh = mine in
        let clash : none ≡ some s.mem.fresh = sym missing ∙ ap (pointer env cfg m₃) q ∙ found in
        cc in
      (
        next s₃ k m₄ (stored (suc s.mem.fresh)),
        further (further (further (further here step₁) step₂) step₃) step₄,
        other_pc s₃ k m₄ (stored (suc s.mem.fresh)) j (λ q. apart (sym q)) ∙ e₃,
        own_pc s₃ k m₄ (stored (suc s.mem.fresh)) k₃,
        subst (λ x. pointer env cfg m₄ x ≡ some s.mem.fresh) own_key
            (pointer-made env cfg m₃ (key_at s₃ k) (key_at s₂ j)
              ∙ if_neg (key_discrete (key_at s₃ k) (key_at s₂ j)) differ _ _
              ∙ mine),
        subst (λ x. pointer env cfg m₄ x ≡ some (suc s.mem.fresh)) other_key
            (pointer-made env cfg m₃ (key_at s₃ k) (key_at s₃ k)
              ∙ if_pos (key_discrete (key_at s₃ k) (key_at s₃ k)) refl _ _),
        omega (arith, size-made r₂ j j₂ e₂, size-made r₃ k k₃ f₃),
        refl,
      )
