-- ===== src/Concurrent/Epoch/Rounds.antt =====
-- Each step of a rotation of processor.go against what has become of the trackers.
use mathlib.Core.Option.{map as map_option}
use otel_cardinality_process.Base.{
  ℕ, ◌≡◌, ◌≢◌, refl, sym, ap, ◌∙◌, subst, Option, none, some, List, [], ◌∷◌, ◌++◌, arith, if_pos,
  if_neg, if◌then◌else◌, ℕ_discrete,
}
use otel_cardinality_process.Base.Assoc.{lookup}
use otel_cardinality_process.Base.Sums.{assign}
use otel_cardinality_process.Concurrent.{Memory, Pointers}
use otel_cardinality_process.Concurrent.Agreement.{pointer, Placed}
use otel_cardinality_process.Config.{Config}
use otel_cardinality_process.External.{Env}
use otel_cardinality_process.Processor.{TrackerKey, key_discrete}
use otel_cardinality_process.Rotation.{advance}
use otel_cardinality_process.Rotation.Maps.{has_key, updated, stale as is_stale}
use otel_cardinality_process.Tracker.{Tracker}
use otel_cardinality_process.Concurrent.Epoch.{
  has_key-collected, has_key-other, Turning, Swept, shard_of, look,
}

module _ (env : Env) (cfg : Config) (V : TrackerKey → Option (Tracker env.hll.Sketch)) where
  open env use {Sketch}

  abbrev look_at : Memory Sketch → TrackerKey → Option (Tracker Sketch)
  look_at = look env cfg

  abbrev home_of : TrackerKey → ℕ
  home_of = shard_of env cfg

  abbrev Halfway : Memory Sketch → ℕ → Pointers → List TrackerKey → Type 0
  Halfway = Turning env cfg V

  abbrev Counted : Memory Sketch → ℕ → List TrackerKey → Type 0
  Counted = Swept env cfg V

  -- The tracker of the entry moves on.
  module _ (m : Memory Sketch) (placed : Placed env cfg m) (i a : ℕ) (k : TrackerKey)
      (es : Pointers) (ks : List TrackerKey) (h : Halfway m i ((k, a) ∷ es) ks) where
    abbrev turned : Memory Sketch
    turned = record m { heap = assign m.heap a (advance env (m.heap a)).0 }

    abbrev collected : List TrackerKey
    collected = if (advance env (m.heap a)).1 then ks ++ k ∷ [] else ks

    in_front : lookup key_discrete k ((k, a) ∷ es) ≡ some a
    unfolding lookup
    in_front = if_pos (key_discrete k k) refl _ _

    passed :
        (j : TrackerKey) → k ≢ j → lookup key_discrete j ((k, a) ∷ es) ≡ lookup key_discrete j es
    unfolding lookup
    passed j n = if_neg (key_discrete k j) n _ _

    here : lookup key_discrete k (m.shards i) ≡ some a
    here = h.exact k in_front

    own : pointer env cfg m k ≡ some a
    own =
        subst (λ x. lookup key_discrete k (m.shards x) ≡ some a) (sym (placed.homed i k here)) here

    -- Other keys have other trackers.
    unturned : (j : TrackerKey) → k ≢ j → look_at turned j ≡ look_at m j
    unturned j n = by_pointer (pointer env cfg m j) refl
      where
        by_pointer : (o : Option ℕ) → pointer env cfg m j ≡ o → look_at turned j ≡ look_at m j
        by_pointer none e = rw e
        by_pointer (some b) e =
            rw
              (e, if_neg (ℕ_discrete a b) (λ q. n (placed.apart k j own (e ∙ ap some (sym q)))) _ _)

    own_new : look_at turned k ≡ some (advance env (m.heap a)).0
    own_new = ap (map_option turned.heap) own ∙ ap some (if_pos (ℕ_discrete a a) refl _ _)

    own_old : V k ≡ some (m.heap a)
    own_old = sym (h.ahead k in_front).0 ∙ ap (map_option m.heap) own

    gone : lookup key_discrete k es ≡ none
    gone = h.one.0

    later_ne : (j : TrackerKey) {b : ℕ} → lookup key_discrete j es ≡ some b → k ≢ j
    later_ne j e q =
        let x : lookup key_discrete j es ≡ none =
          subst (λ x. lookup key_discrete x es ≡ none) q gone in
        cc

    elsewhere : (j : TrackerKey) → k ≡ j → home_of j ≢ i → ⊥
    elsewhere j q n = n (sym (ap home_of q) ∙ placed.homed i k here)

    behind_turn :
        (j : TrackerKey)
        → home_of j ≡ i
        → lookup key_discrete j es ≡ none
        → (look_at turned j ≡ updated env (V j) (V j)) × (has_key j collected ≡ is_stale env (V j))
    behind_turn j e o = elim (key_discrete k j) [
      | yes q ↦
          subst
            (λ j.
              (look_at turned j ≡ updated env (V j) (V j))
              × (has_key j collected ≡ is_stale env (V j)))
            q
            (rw own_old
              (own_new, has_key-collected (advance env (m.heap a)).1 ks k (h.ahead k in_front).1))
      | no n ↦
          let old = h.behind j e (passed j n ∙ o) in
          (unturned j n ∙ old.0, has_key-other (advance env (m.heap a)).1 ks k j n ∙ old.1)
    ]

    pub Turning-turn : Halfway turned i es collected
    Turning-turn = record {
      one = h.one.1;
      exact = λ j e. h.exact j (passed j (later_ne j e) ∙ e);
      others = λ j. (
        λ lt. unturned j (λ q. elsewhere j q (omega (arith, lt))) ∙ (h.others j).0 lt,
        λ lt. unturned j (λ q. elsewhere j q (omega (arith, lt))) ∙ (h.others j).1 lt,
      );
      ahead = λ j e.
          let n = later_ne j e in
          let old = h.ahead j (passed j n ∙ e) in
          (unturned j n ∙ old.0, has_key-other (advance env (m.heap a)).1 ks k j n ∙ old.1);
      behind = behind_turn;
    }
