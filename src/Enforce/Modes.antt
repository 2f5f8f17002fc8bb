-- ===== src/Enforce/Modes.antt =====
-- What handleAttributesWithMode of processor.go makes of an attribute map, in each mode.
use otel_cardinality_process.Base.{
  String, ◌≡◌, refl, Bool, true, false, some, List, [], ◌∷◌, map, arith, if◌then◌else◌, ite,
  text_discrete,
}
use otel_cardinality_process.Base.Assoc.{lookup}
use otel_cardinality_process.Config.{
  enforcement_tag_only, enforcement_overflow_attribute, enforcement_strip_and_reaggregate,
  overflow_sentinel,
}
use otel_cardinality_process.Enforce.{
  overflow_key, check_attribute, start_pass, put_sentinels, finish, handle_attributes_with_mode,
}
use otel_cardinality_process.Enforce.Verdicts.{
  decisions, iterate, any_true, marked, unmarked, iterate_tag_only, iterate_overflow, iterate_strip,
}
use otel_cardinality_process.External.{Env, Attrs, PdataLaws}
use otel_cardinality_process.Processor.{Processor, mem_text}

module _ (env : Env) (laws : PdataLaws env.pdata) (m : String) where
  open env use {Sketch, Value, bool_value, str_value, put}

  -- The loop of the collector's `RemoveIf` is the iteration of the callback.
  pub handle_iterates :
      (mode : String) (attrs : Attrs Value) (p : Processor Sketch)
      → handle_attributes_with_mode env m attrs mode p
        ≡ finish env (iterate env mode m attrs (start_pass env p))
  unfolding handle_attributes_with_mode
  handle_iterates mode attrs p =
      rw (laws.remove_if_lem _ _ (check_attribute env mode m) attrs (start_pass env p))

  -- With containers that follow the laws of `pdata`, tag_only keeps every attribute, and sets
  -- "otel.metric.overflow" to true exactly when some attribute gets a positive verdict.
  pub lookup-handle_tag_only :
      (attrs : Attrs Value) (p : Processor Sketch) (j : String)
      → lookup text_discrete j (handle_attributes_with_mode env m attrs enforcement_tag_only p).0
        ≡ (if any_true (decisions env enforcement_tag_only m attrs p)
            then ite
                (text_discrete overflow_key j)
                (some (bool_value true))
                (lookup text_discrete j attrs)
            else lookup text_discrete j attrs)
  lookup-handle_tag_only attrs p j =
      let done = iterate_tag_only env m attrs (start_pass env p) in
      rw (handle_iterates enforcement_tag_only attrs p, done.0, done.1, done.2)
        (tagged (any_true (decisions env enforcement_tag_only m attrs p)))
    where
      tagged :
          (b : Bool)
          → lookup text_discrete j (if b then put overflow_key (bool_value true) attrs else attrs)
            ≡ (if b
                then ite
                    (text_discrete overflow_key j)
                    (some (bool_value true))
                    (lookup text_discrete j attrs)
                else lookup text_discrete j attrs)
      tagged true = laws.lookup-put overflow_key j (bool_value true) attrs
      tagged false = refl

  pub lookup-put_sentinels :
      (ks : List String) (attrs : Attrs Value) (j : String)
      → lookup text_discrete j (put_sentinels env ks attrs) ≡ (
          if mem_text j ks
          then some (str_value overflow_sentinel)
          else lookup text_discrete j attrs)
  unfolding mem_text
  lookup-put_sentinels [] attrs j = refl
  lookup-put_sentinels (k ∷ ks) attrs j = ground (
    arith,
    lookup-put_sentinels ks (put k (str_value overflow_sentinel) attrs) j,
    laws.lookup-put k j (str_value overflow_sentinel) attrs,
  )

  -- With containers that follow the laws of `pdata`, overflow_attribute replaces the value of
  -- every key with a positive verdict by the sentinel, and leaves all other keys as they are.
  pub lookup-handle_overflow :
      (attrs : Attrs Value) (p : Processor Sketch) (j : String)
      → lookup text_discrete j
          (handle_attributes_with_mode env m attrs enforcement_overflow_attribute p).0
        ≡ (if mem_text j (
              map
                (λ a. a.0)
                (marked (decisions env enforcement_overflow_attribute m attrs p) attrs))
            then some (str_value overflow_sentinel)
            else lookup text_discrete j attrs)
  lookup-handle_overflow attrs p j =
      let done = iterate_overflow env m attrs (start_pass env p) in
      rw (handle_iterates enforcement_overflow_attribute attrs p, done.0, done.1, done.2)
        (lookup-put_sentinels
          (map (λ a. a.0) (marked (decisions env enforcement_overflow_attribute m attrs p) attrs))
          attrs j)

  -- With containers that follow the laws of `pdata`, strip_and_reaggregate removes exactly the
  -- attributes with a positive verdict, and keeps the others in their order.
  pub handle_strip :
      (attrs : Attrs Value) (p : Processor Sketch)
      → (handle_attributes_with_mode env m attrs enforcement_strip_and_reaggregate p).0
        ≡ unmarked (decisions env enforcement_strip_and_reaggregate m attrs p) attrs
  handle_strip attrs p =
      let done = iterate_strip env m attrs (start_pass env p) in
      rw (handle_iterates enforcement_strip_and_reaggregate attrs p, done.0, done.1, done.2)
