-- ===== src/Enforce/Protected.antt =====
-- The labels of NeverDropLabels under handleAttributesWithMode of processor.go.
use otel_cardinality_process.Base.{
  String, ◌≡◌, refl, sym, subst, ◌∙◌, ◌≢◌, Bool, true, false, List, [], ◌∷◌, ◌++◌, arith,
  if◌then◌else◌, if_neg, text_discrete,
}
use otel_cardinality_process.Base.Assoc.{lookup}
use otel_cardinality_process.Enforce.{
  Pass, overflow_key, enforce, check_attribute, note_drop, start_pass, handle_attributes_with_mode,
}
use otel_cardinality_process.Enforce.Modes.{handle_iterates, lookup-put_sentinels}
use otel_cardinality_process.Enforce.Verdicts.{measured, count_label, iterate, check_attribute_lem}
use otel_cardinality_process.External.{Env, Attrs, PdataLaws, retain}
use otel_cardinality_process.Processor.{Processor, is_protected, mem_text}
use otel_cardinality_process.Processor.Keeps.{should_drop-Keeps, is_protected-same}

mem_text-append_ne :
    (j : String) (ks : List String) (k : String) → k ≢ j → mem_text j (ks ++ k ∷ []) ≡ mem_text j ks
unfolding mem_text
mem_text-append_ne j [] k n = ground arith
mem_text-append_ne j (x ∷ ks) k n = ground (arith, mem_text-append_ne j ks k n)

module _ {S : Type 0} (mode m : String) where
  enforce-protected_labels :
      (k : String) (s : Pass S)
      → (enforce mode m k s).1.proc.protected_labels ≡ s.proc.protected_labels
  unfolding enforce note_drop
  enforce-protected_labels k s = ground arith

  -- A label that is not `j` does not bring `j` among the keys to overwrite.
  enforce-overflow_keys :
      (k j : String) (s : Pass S)
      → k ≢ j
      → mem_text j (enforce mode m k s).1.overflow_keys ≡ mem_text j s.overflow_keys
  unfolding enforce
  enforce-overflow_keys k j s n = ground (arith, mem_text-append_ne j s.overflow_keys k n)

module _ (env : Env) (mode m : String) where
  open env use {Sketch, Value, as_string, bool_value, put}

  measured-protected_labels :
      (a : String × Value) (p : Processor Sketch)
      → (measured env m a p).protected_labels ≡ p.protected_labels
  measured-protected_labels (k, v) p =
      ground (arith, (should_drop-Keeps env m k (as_string v) p).protected_labels)

  pub check-protected_labels :
      (a : String × Value) (s : Pass Sketch)
      → (check_attribute env mode m a s).1.proc.protected_labels ≡ s.proc.protected_labels
  check-protected_labels a s = rw (check_attribute_lem env mode m a s) (
      ground (
        arith,
        measured-protected_labels a s.proc,
        enforce-protected_labels {S = Sketch} mode m a.0
            (record s { proc = count_label env (measured env m a s.proc) }),
      ))

  check_protected :
      (a : String × Value) (s : Pass Sketch)
      → is_protected s.proc a.0 ≡ true
      → check_attribute env mode m a s ≡ (false, s)
  check_protected a s e = rw (check_attribute_lem env mode m a s, e)

  check_other :
      (a : String × Value) (s : Pass Sketch) (j : String)
      → a.0 ≢ j
      → mem_text j (check_attribute env mode m a s).1.overflow_keys ≡ mem_text j s.overflow_keys
  check_other a s j n = rw (check_attribute_lem env mode m a s) (
      ground (
        arith,
        enforce-overflow_keys {S = Sketch} mode m a.0 j
            (record s { proc = count_label env (measured env m a s.proc) }) n,
      ))

  iterate_protected :
      (attrs : Attrs Value) (s : Pass Sketch) (j : String)
      → is_protected s.proc j ≡ true
      → (lookup text_discrete j (iterate env mode m attrs s).0 ≡ lookup text_discrete j attrs)
        × (mem_text j (iterate env mode m attrs s).1.overflow_keys ≡ mem_text j s.overflow_keys)
  unfolding retain lookup
  iterate_protected [] s j safe = (refl, refl)
  iterate_protected (a ∷ attrs) s j safe =
      let next = (check_attribute env mode m a s).1 in
      let still = is_protected-same s.proc next.proc j (check-protected_labels a s) ∙ safe in
      let rest = iterate_protected attrs next j still in
      elim (text_discrete a.0 j) [
        | yes same ↦
            let rest_of_s = iterate_protected attrs s j safe in
            rw (check_protected a s (subst (λ k. is_protected s.proc k ≡ true) (sym same) safe))
              (rw rest_of_s.0, rest_of_s.1)
        | no other ↦ (ground (arith, rest.0), rest.1 ∙ check_other a s j other)
      ]

  -- In every mode a protected label keeps its value: it is neither removed nor overwritten. The
  -- label "otel.metric.overflow", which the processor sets itself, is the exception.
  pub lookup-handle_protected :
      (laws : PdataLaws env.pdata) (attrs : Attrs Value) (p : Processor Sketch) (j : String)
      → is_protected p j ≡ true
      → overflow_key ≢ j
      → lookup text_discrete j (handle_attributes_with_mode env m attrs mode p).0
        ≡ lookup text_discrete j attrs
  unfolding mem_text
  lookup-handle_protected laws attrs p j safe other =
      let done = iterate_protected attrs (start_pass env p) j safe in
      rw
        (
          handle_iterates env laws m mode attrs p,
          lookup-put_sentinels env laws m
              (iterate env mode m attrs (start_pass env p)).1.overflow_keys,
          done.1,
        )
        (tagged (iterate env mode m attrs (start_pass env p)).1.should_tag _ done.0)
    where
      tagged :
          (b : Bool) (kept : Attrs Value)
          → lookup text_discrete j kept ≡ lookup text_discrete j attrs
          → lookup text_discrete j (if b then put overflow_key (bool_value true) kept else kept)
            ≡ lookup text_discrete j attrs
      tagged true kept e =
          laws.lookup-put overflow_key j (bool_value true) kept
          ∙ if_neg (text_discrete overflow_key j) other _ _
          ∙ e
      tagged false kept e = e
