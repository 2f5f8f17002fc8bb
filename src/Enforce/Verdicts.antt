-- ===== src/Enforce/Verdicts.antt =====
-- The iteration of `RemoveIf` in handleAttributesWithMode of processor.go, by the verdict on each
-- attribute.
use otel_cardinality_process.Base.{
  String, ◌≡◌, refl, ◌∙◌, Bool, true, false, ◌||◌, inl, inr, List, [], ◌∷◌, ◌++◌, map, arith,
  if◌then◌else◌, text_discrete, Bool-cases,
}
use mathlib.Core.List.{append-nil, append_assoc}
use otel_cardinality_process.Base.Int.{add64}
use otel_cardinality_process.Config.{
  enforcement_tag_only, enforcement_overflow_attribute, enforcement_strip_and_reaggregate,
}
use otel_cardinality_process.Enforce.{Pass, enforce, enforce_dropped, check_attribute, note_drop}
use otel_cardinality_process.External.{Env, Attrs, retain}
use otel_cardinality_process.Processor.{Processor, is_protected, should_drop}

module _ (env : Env) where
  open env use {Sketch, Value, as_string}

  -- The verdict on an attribute: it is not protected and exceeds its limit.
  abbrev pub verdict : String → String × Value → Processor Sketch → Bool
  verdict metric_name (k, v) p =
      if is_protected p k then false else (should_drop env metric_name k (as_string v) p).0

  -- The verdicts on the attributes, each in the state that those before it leave.
  abbrev pub verdicts : String → String → Attrs Value → Pass Sketch → List Bool
  verdicts mode metric_name [] s = []
  verdicts mode metric_name (a ∷ attrs) s =
      verdict metric_name a s.proc
      ∷ verdicts mode metric_name attrs (check_attribute env mode metric_name a s).1

  -- The verdicts on the attributes of one data point.
  abbrev pub decisions : String → String → Attrs Value → Processor Sketch → List Bool
  decisions mode metric_name attrs p =
      verdicts mode metric_name attrs (record { proc = p; should_tag = false; overflow_keys = [] })

  abbrev pub iterate : String → String → Attrs Value → Pass Sketch → Attrs Value × Pass Sketch
  iterate mode metric_name =
      retain (Pass Sketch) (String × Value) (check_attribute env mode metric_name)

abbrev pub any_true : List Bool → Bool
any_true [] = false
any_true (b ∷ bs) = b || any_true bs

module _ {ℓ} {A : Type ℓ} where
  -- The elements that are not marked, and those that are.
  abbrev pub unmarked : List Bool → List A → List A
  unmarked [] xs = xs
  unmarked (b ∷ bs) [] = []
  unmarked (b ∷ bs) (x ∷ xs) = if b then unmarked bs xs else x ∷ unmarked bs xs

  abbrev pub marked : List Bool → List A → List A
  marked [] xs = []
  marked (b ∷ bs) [] = []
  marked (b ∷ bs) (x ∷ xs) = if b then x ∷ marked bs xs else marked bs xs

or_assoc : (a b c : Bool) → ((a || b) || c) ≡ (a || (b || c))
or_assoc a b c = ground arith

append_marked :
    {V : Type 0} (ks : List String) (a : String × V) (b : Bool) (bs : List Bool) (attrs : Attrs V)
    → (if b then ks ++ a.0 ∷ [] else ks) ++ map (λ x. x.0) (marked bs attrs)
      ≡ ks ++ map (λ x. x.0) (marked (b ∷ bs) (a ∷ attrs))
append_marked ks a true bs attrs = append_assoc ks (a.0 ∷ []) _
append_marked ks a false bs attrs = refl

module _ (env : Env) where
  open env use {Sketch, Value, as_string}

  -- The processor after the decision on an attribute, and with the label counted.
  abbrev pub measured : String → String × Value → Processor Sketch → Processor Sketch
  measured metric_name (k, v) p =
      if is_protected p k then p else (should_drop env metric_name k (as_string v) p).1

  abbrev pub count_label : Processor Sketch → Processor Sketch
  count_label p = record p { labels_stripped = add64 p.labels_stripped 1 }

  enforce_dropped_lem :
      (mode m k : String) (r : Bool × Processor Sketch) (s : Pass Sketch)
      → enforce_dropped env mode m k r s ≡ (
          if r.0
          then enforce mode m k (record s { proc = count_label r.1 })
          else (false, record s { proc = r.1 }))
  enforce_dropped_lem mode m k (true, p) s = refl
  enforce_dropped_lem mode m k (false, p) s = refl

  -- The callback, by the verdict.
  pub check_attribute_lem :
      (mode m : String) (a : String × Value) (s : Pass Sketch)
      → check_attribute env mode m a s ≡ (
          if verdict env m a s.proc
          then enforce mode m a.0 (record s { proc = count_label (measured m a s.proc) })
          else (false, record s { proc = measured m a s.proc }))
  unfolding check_attribute
  check_attribute_lem mode m (k, v) s = elim (Bool-cases (is_protected s.proc k)) [
    | inl e ↦ rw e
    | inr e ↦ rw e (enforce_dropped_lem mode m k (should_drop env m k (as_string v) s.proc) s)
  ]

module _ {S : Type 0} (m k : String) (s : Pass S) where
  pub enforce_tag_only :
      enforce enforcement_tag_only m k s ≡ (false, record s { should_tag = true })
  unfolding enforce text_discrete
  enforce_tag_only = refl

  pub enforce_overflow :
      enforce enforcement_overflow_attribute m k s
      ≡ (false, record s { overflow_keys = s.overflow_keys ++ k ∷ [] })
  unfolding enforce text_discrete
  enforce_overflow = refl

  pub enforce_strip :
      enforce enforcement_strip_and_reaggregate m k s
      ≡ (true, record s { proc = note_drop m k s.proc })
  unfolding enforce text_discrete
  enforce_strip = refl

module _ (env : Env) (m : String) where
  open env use {Sketch, Value}

  check_tag_only :
      (a : String × Value) (s : Pass Sketch)
      → ((check_attribute env enforcement_tag_only m a s).0 ≡ false)
        × ((check_attribute env enforcement_tag_only m a s).1.should_tag
            ≡ (s.should_tag || verdict env m a s.proc))
        × ((check_attribute env enforcement_tag_only m a s).1.overflow_keys ≡ s.overflow_keys)
  check_tag_only a s =
      rw (check_attribute_lem env enforcement_tag_only m a s, enforce_tag_only {S = Sketch} m a.0)
        (ground arith)

  check_overflow :
      (a : String × Value) (s : Pass Sketch)
      → ((check_attribute env enforcement_overflow_attribute m a s).0 ≡ false)
        × ((check_attribute env enforcement_overflow_attribute m a s).1.should_tag ≡ s.should_tag)
        × ((check_attribute env enforcement_overflow_attribute m a s).1.overflow_keys
            ≡ (if verdict env m a s.proc then s.overflow_keys ++ a.0 ∷ [] else s.overflow_keys))
  check_overflow a s =
      rw
        (
          check_attribute_lem env enforcement_overflow_attribute m a s,
          enforce_overflow {S = Sketch} m a.0,
        )
        (ground arith)

  check_strip :
      (a : String × Value) (s : Pass Sketch)
      → ((check_attribute env enforcement_strip_and_reaggregate m a s).0 ≡ verdict env m a s.proc)
        × ((check_attribute env enforcement_strip_and_reaggregate m a s).1.should_tag
            ≡ s.should_tag)
        × ((check_attribute env enforcement_strip_and_reaggregate m a s).1.overflow_keys
            ≡ s.overflow_keys)
  check_strip a s =
      rw
        (
          check_attribute_lem env enforcement_strip_and_reaggregate m a s,
          enforce_strip {S = Sketch} m a.0,
        )
        (ground arith)

  -- In tag_only mode the iteration removes nothing, and a positive verdict asks for the tag.
  pub iterate_tag_only :
      (attrs : Attrs Value) (s : Pass Sketch)
      → ((iterate env enforcement_tag_only m attrs s).0 ≡ attrs)
        × ((iterate env enforcement_tag_only m attrs s).1.should_tag
            ≡ (s.should_tag || any_true (verdicts env enforcement_tag_only m attrs s)))
        × ((iterate env enforcement_tag_only m attrs s).1.overflow_keys ≡ s.overflow_keys)
  unfolding retain
  iterate_tag_only [] s = (refl, ground arith, refl)
  iterate_tag_only (a ∷ attrs) s =
      let next = (check_attribute env enforcement_tag_only m a s).1 in
      let rest = iterate_tag_only attrs next in
      let here = check_tag_only a s in
      (rw (here.0, rest.0), rest.1 ∙ rw here.1 (or_assoc s.should_tag _ _), rest.2 ∙ here.2)

  -- In overflow_attribute mode it removes nothing, and notes the keys with a positive verdict.
  pub iterate_overflow :
      (attrs : Attrs Value) (s : Pass Sketch)
      → ((iterate env enforcement_overflow_attribute m attrs s).0 ≡ attrs)
        × ((iterate env enforcement_overflow_attribute m attrs s).1.should_tag ≡ s.should_tag)
        × ((iterate env enforcement_overflow_attribute m attrs s).1.overflow_keys
            ≡ s.overflow_keys
              ++ map
                  (λ a. a.0)
                  (marked (verdicts env enforcement_overflow_attribute m attrs s) attrs))
  unfolding retain
  iterate_overflow [] s = (refl, refl, simp append-nil)
  iterate_overflow (a ∷ attrs) s =
      let next = (check_attribute env enforcement_overflow_attribute m a s).1 in
      let rest = iterate_overflow attrs next in
      let here = check_overflow a s in
      (
        rw (here.0, rest.0),
        rest.1 ∙ here.1,
        rest.2 ∙ rw here.2 (append_marked s.overflow_keys a (verdict env m a s.proc) _ attrs),
      )

  -- In strip_and_reaggregate mode it removes exactly the attributes with a positive verdict.
  pub iterate_strip :
      (attrs : Attrs Value) (s : Pass Sketch)
      → ((iterate env enforcement_strip_and_reaggregate m attrs s).0
          ≡ unmarked (verdicts env enforcement_strip_and_reaggregate m attrs s) attrs)
        × ((iterate env enforcement_strip_and_reaggregate m attrs s).1.should_tag ≡ s.should_tag)
        × ((iterate env enforcement_strip_and_reaggregate m attrs s).1.overflow_keys
            ≡ s.overflow_keys)
  unfolding retain
  iterate_strip [] s = (refl, refl, refl)
  iterate_strip (a ∷ attrs) s =
      let next = (check_attribute env enforcement_strip_and_reaggregate m a s).1 in
      let rest = iterate_strip attrs next in
      let here = check_strip a s in (rw (here.0, rest.0), rest.1 ∙ here.1, rest.2 ∙ here.2)
