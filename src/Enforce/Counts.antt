-- ===== src/Enforce/Counts.antt =====
-- The processor's state across handleAttributesWithMode of processor.go: the label counter, the
-- tracker maps and the drop log counters.
use otel_cardinality_process.Base.{
  ℕ, suc, ◌+◌, ◌%◌, ◌≡◌, refl, ◌∙◌, String, Bool, true, false, List, [], ◌∷◌, arith, Bool-cases,
  inl, inr,
}
use otel_cardinality_process.Base.Int.{u64_mod}
use otel_cardinality_process.Enforce.{
  Pass, enforce, check_attribute, note_drop, start_pass, handle_attributes_with_mode, is_zero,
}
use otel_cardinality_process.Enforce.Modes.{handle_iterates}
use otel_cardinality_process.Enforce.Verdicts.{
  verdict, verdicts, decisions, measured, count_label, iterate, check_attribute_lem,
}
use otel_cardinality_process.External.{Env, Attrs, PdataLaws, retain}
use otel_cardinality_process.Processor.{Processor, is_protected}
use otel_cardinality_process.Processor.Accounting.{IsValid, should_drop-IsValid}
use otel_cardinality_process.Processor.Keeps.{Keeps, should_drop-Keeps}

-- The positive verdicts.
abbrev pub count_true : List Bool → ℕ
count_true [] = 0
count_true (true ∷ bs) = suc (count_true bs)
count_true (false ∷ bs) = count_true bs

count_true-cons :
    (b : Bool) (bs : List Bool) → count_true (b ∷ bs) ≡ count_true (b ∷ []) + count_true bs
count_true-cons true bs = omega arith
count_true-cons false bs = omega arith

-- `q` and `p` agree on all that the decisions read.
record Agrees {S : Type 0} (p q : Processor S) : Type 0 where
  config : q.config ≡ p.config
  mode : q.enforcement_mode ≡ p.enforcement_mode
  shards : q.shards ≡ p.shards
  tracker_count : q.tracker_count ≡ p.tracker_count

enforce-labels_stripped :
    {S : Type 0} (mode m k : String) (s : Pass S)
    → (enforce mode m k s).1.proc.labels_stripped ≡ s.proc.labels_stripped
unfolding enforce note_drop
enforce-labels_stripped mode m k s = ground arith

enforce-Agrees :
    {S : Type 0} (mode m k : String) (s : Pass S) → Agrees s.proc (enforce mode m k s).1.proc
unfolding enforce note_drop
enforce-Agrees mode m k s = ground arith

-- With a limit on drop logs both drop counters count every stripped label; with none the log
-- counter is never touched.
pub record LogsAgree {S : Type 0} (p : Processor S) : Type 0 where
  pub limited :
      is_zero p.config.drop_log_max_per_epoch ≡ false → p.drop_log_count ≡ p.drops_this_epoch
  pub unlimited : is_zero p.config.drop_log_max_per_epoch ≡ true → p.drop_log_count ≡ 0

enforce-LogsAgree :
    {S : Type 0} (mode m k : String) (s : Pass S)
    → LogsAgree s.proc
    → LogsAgree (enforce mode m k s).1.proc
unfolding enforce note_drop
enforce-LogsAgree mode m k s h = ground arith

module _ (env : Env) where
  open env use {Sketch, Value, as_string}

  IsValid-of_Agrees : (p q : Processor Sketch) → Agrees p q → IsValid env p → IsValid env q
  IsValid-of_Agrees p q a v = record {
    width = rw a.shards v.width;
    maps = rw a.shards v.maps;
    counted = rw (a.shards, a.tracker_count) v.counted;
    bounded = rw (a.shards, a.config) v.bounded;
  }

  measured-IsValid :
      (m : String) (a : String × Value) (p : Processor Sketch)
      → IsValid env p
      → IsValid env (measured env m a p)
  measured-IsValid m (k, v) p h = elim (Bool-cases (is_protected p k)) [
    | inl e ↦ rw e h
    | inr e ↦ rw e (should_drop-IsValid env m k (as_string v) p h)
  ]

  measured-Keeps :
      (m : String) (a : String × Value) (p : Processor Sketch) → Keeps p (measured env m a p)
  measured-Keeps m (k, v) p = elim (Bool-cases (is_protected p k)) [
    | inl e ↦ rw e (ground arith)
    | inr e ↦ rw e (should_drop-Keeps env m k (as_string v) p)
  ]

  counted : String → String × Value → Pass Sketch → Pass Sketch
  counted m a s = record s { proc = count_label env (measured env m a s.proc) }

  -- What holds of the processor after each callback: the callback rule of the iteration.
  check_rule :
      (P : Processor Sketch → Type 0) (mode m : String) (a : String × Value) (s : Pass Sketch)
      → (verdict env m a s.proc ≡ true → P (enforce mode m a.0 (counted m a s)).1.proc)
      → (verdict env m a s.proc ≡ false → P (measured env m a s.proc))
      → P (check_attribute env mode m a s).1.proc
  unfolding counted
  check_rule P mode m a s drops passes = elim (Bool-cases (verdict env m a s.proc)) [
    | inl e ↦ rw (check_attribute_lem env mode m a s, e) (drops e)
    | inr e ↦ rw (check_attribute_lem env mode m a s, e) (passes e)
  ]

  check-IsValid :
      (mode m : String) (a : String × Value) (s : Pass Sketch)
      → IsValid env s.proc
      → IsValid env (check_attribute env mode m a s).1.proc
  unfolding counted
  check-IsValid mode m a s v =
      let w = measured-IsValid m a s.proc v in
      check_rule (IsValid env) mode m a s
        (λ _. IsValid-of_Agrees (counted m a s).proc _ (enforce-Agrees mode m a.0 (counted m a s)) (
          IsValid-of_Agrees (measured env m a s.proc) _
            (record { config = refl; mode = refl; shards = refl; tracker_count = refl }) w))
        (λ _. w)

  check-LogsAgree :
      (mode m : String) (a : String × Value) (s : Pass Sketch)
      → LogsAgree s.proc
      → LogsAgree (check_attribute env mode m a s).1.proc
  unfolding counted
  check-LogsAgree mode m a s v =
      let k = measured-Keeps m a s.proc in
      let w : LogsAgree (measured env m a s.proc) = record {
        limited = rw (k.config, k.drop_log_count, k.drops_this_epoch) v.limited;
        unlimited = rw (k.config, k.drop_log_count) v.unlimited;
      } in
      check_rule LogsAgree mode m a s
        (λ _.
          enforce-LogsAgree mode m a.0 (counted m a s)
            (record { limited = w.limited; unlimited = w.unlimited }))
        (λ _. w)

  check-labels_stripped :
      (mode m : String) (a : String × Value) (s : Pass Sketch)
      → (check_attribute env mode m a s).1.proc.labels_stripped % u64_mod
        ≡ (s.proc.labels_stripped + count_true (verdict env m a s.proc ∷ [])) % u64_mod
  unfolding counted
  check-labels_stripped mode m a s =
      let k = measured-Keeps m a s.proc in
      check_rule
        (λ q.
          q.labels_stripped % u64_mod
          ≡ (s.proc.labels_stripped + count_true (verdict env m a s.proc ∷ [])) % u64_mod)
        mode m a s
        (λ e.
          rw e
            (omega (arith, k.labels_stripped, enforce-labels_stripped mode m a.0 (counted m a s))))
        (λ e. rw e (omega (arith, k.labels_stripped)))

  check-Same :
      (mode m : String) (a : String × Value) (s : Pass Sketch)
      → ((check_attribute env mode m a s).1.proc.config ≡ s.proc.config)
        × ((check_attribute env mode m a s).1.proc.enforcement_mode ≡ s.proc.enforcement_mode)
  unfolding counted
  check-Same mode m a s =
      let k = measured-Keeps m a s.proc in
      let e = enforce-Agrees mode m a.0 (counted m a s) in
      check_rule (λ q. (q.config ≡ s.proc.config) × (q.enforcement_mode ≡ s.proc.enforcement_mode))
        mode m a s (λ _. (e.config ∙ k.config, e.mode ∙ k.enforcement_mode))
        (λ _. (k.config, k.enforcement_mode))

  iterate_rule :
      (P : Processor Sketch → Type 0) (mode m : String)
      → ((a : String × Value) (s : Pass Sketch)
          → P s.proc
          → P (check_attribute env mode m a s).1.proc)
      → (attrs : Attrs Value) (s : Pass Sketch) → P s.proc
      → P (iterate env mode m attrs s).1.proc
  unfolding retain
  iterate_rule P mode m step [] s h = h
  iterate_rule P mode m step (a ∷ attrs) s h =
      iterate_rule P mode m step attrs (check_attribute env mode m a s).1 (step a s h)

  iterate-labels_stripped :
      (mode m : String) (attrs : Attrs Value) (s : Pass Sketch)
      → (iterate env mode m attrs s).1.proc.labels_stripped % u64_mod
        ≡ (s.proc.labels_stripped + count_true (verdicts env mode m attrs s)) % u64_mod
  unfolding retain
  iterate-labels_stripped mode m [] s = omega arith
  iterate-labels_stripped mode m (a ∷ attrs) s = omega (
    arith,
    iterate-labels_stripped mode m attrs (check_attribute env mode m a s).1,
    check-labels_stripped mode m a s,
    count_true-cons (verdict env m a s.proc)
        (verdicts env mode m attrs (check_attribute env mode m a s).1),
  )

  module _ (laws : PdataLaws env.pdata) (m mode : String) (attrs : Attrs Value)
      (p : Processor Sketch) where
    handle_rule :
        (P : Processor Sketch → Type 0)
        → ((a : String × Value) (s : Pass Sketch)
            → P s.proc
            → P (check_attribute env mode m a s).1.proc)
        → P p
        → P (handle_attributes_with_mode env m attrs mode p).1
    handle_rule P step h =
        rw (handle_iterates env laws m mode attrs p)
          (iterate_rule P mode m step attrs (start_pass env p) h)

    -- The enforcement on a data point keeps the tracker maps, their counter and their bound.
    pub handle-IsValid :
        IsValid env p → IsValid env (handle_attributes_with_mode env m attrs mode p).1
    handle-IsValid = handle_rule (IsValid env) (check-IsValid mode m)

    pub handle-LogsAgree :
        LogsAgree p → LogsAgree (handle_attributes_with_mode env m attrs mode p).1
    handle-LogsAgree = handle_rule LogsAgree (check-LogsAgree mode m)

    pub handle-config : (handle_attributes_with_mode env m attrs mode p).1.config ≡ p.config
    handle-config =
        handle_rule (λ q. q.config ≡ p.config) (λ a s e. (check-Same mode m a s).0 ∙ e) refl

    pub handle-enforcement_mode :
        (handle_attributes_with_mode env m attrs mode p).1.enforcement_mode ≡ p.enforcement_mode
    handle-enforcement_mode =
        handle_rule (λ q. q.enforcement_mode ≡ p.enforcement_mode)
          (λ a s e. (check-Same mode m a s).1 ∙ e) refl

    -- In every mode, `labels_stripped` grows by the number of attributes with a positive verdict.
    pub handle-labels_stripped :
        (handle_attributes_with_mode env m attrs mode p).1.labels_stripped % u64_mod
        ≡ (p.labels_stripped + count_true (decisions env mode m attrs p)) % u64_mod
    handle-labels_stripped =
        rw (handle_iterates env laws m mode attrs p)
          (iterate-labels_stripped mode m attrs (start_pass env p))
