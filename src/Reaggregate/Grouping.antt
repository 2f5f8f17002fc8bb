-- ===== src/Reaggregate/Grouping.antt =====
-- reaggregateNumberDataPoints of reaggregation.go computes a fold over the points that keeps one
-- leader for each identity.
use otel_cardinality_process.Base.{
  ℕ, suc, ◌+◌, ◌≡◌, refl, sym, ap, subst, ◌∙◌, Bool, true, false, inl, inr, none, List, [], ◌∷◌,
  ◌++◌, map, arith, length, ℕ_discrete, leb, Option-cases, Bool-cases,
}
use mathlib.Core.List.{append-nil, append_assoc, map-append}
use otel_cardinality_process.Base.Assoc.{lookup, insert, insert_new}
use otel_cardinality_process.External.{Env, PdataLaws, retain}
use otel_cardinality_process.Metrics.{MetricType}
use otel_cardinality_process.Reaggregate.{
  Floats, Point, Merging, merge_loop, has_collisions, is_removed, remove_merged, hash_attributes,
  reaggregate_number_data_points,
}
use otel_cardinality_process.Reaggregate.Seen.{
  flag_here, flag_next, zero_first, collision_found, collision_next, missing_after,
}
use otel_cardinality_process.Reaggregate.Slots.{alive, points_of, flag}
use otel_cardinality_process.Reaggregate.Rounds.{
  group_points, hashes, Shows, next_slots, next_slots-alive, step,
}

module _ (env : Env) (fl : Floats) (type : MetricType) (is_delta : Bool) where
  abbrev run_slots : List (Point env) → List (ℕ × Bool × Point env) → List (ℕ × Bool × Point env)
  run_slots [] es = es
  run_slots (p ∷ rest) es = run_slots rest (next_slots env fl type is_delta p es)

  run_slots-alive :
      (rest : List (Point env)) (es : List (ℕ × Bool × Point env))
      → alive (run_slots rest es) ≡ group_points env fl type is_delta (alive es) rest
  run_slots-alive [] es = refl
  run_slots-alive (p ∷ rest) es =
      run_slots-alive rest (next_slots env fl type is_delta p es)
      ∙ ap (λ g. group_points env fl type is_delta g rest)
          (next_slots-alive env fl type is_delta p es)

  merge_loop-Shows :
      (rest : List (Point env)) (es : List (ℕ × Bool × Point env)) (i j : ℕ) (s : Merging env)
      → i + length rest ≡ j
      → Shows env fl type is_delta es rest i s
      → Shows env fl type is_delta
          (run_slots rest es)
          []
          j
          (merge_loop env fl type is_delta (hashes env fl type is_delta rest) i s)
  unfolding merge_loop
  merge_loop-Shows [] es i j s e v =
      let same : i ≡ j = omega arith in subst (λ k. Shows env fl type is_delta es [] k s) same v
  merge_loop-Shows (p ∷ rest) es i j s e v =
      merge_loop-Shows rest (next_slots env fl type is_delta p es) (i + 1) j _ (omega arith)
        (step env fl type is_delta p es rest i s v)

  -- Phase 3 keeps the points of the slots that are not merged.
  retain_slots :
      (es : List (ℕ × Bool × Point env)) (remove : List (ℕ × Bool)) (idx : ℕ)
      → ((j : ℕ) → is_removed (idx + j) remove ≡ flag es j)
      → (retain ℕ (Point env) (remove_merged env fl remove) (points_of es) idx).0
        ≡ map (λ g. g.1) (alive es)
  unfolding retain
  retain_slots [] remove idx h = refl
  retain_slots ((k, true, p) ∷ es) remove idx h =
      rw (flag_here remove idx h)
        (retain_slots es remove (idx + 1) (λ j. flag_next remove idx j ∙ h (suc j)))
  retain_slots ((k, false, p) ∷ es) remove idx h =
      rw (flag_here remove idx h)
        (ap (◌∷◌ p) (retain_slots es remove (idx + 1) (λ j. flag_next remove idx j ∙ h (suc j))))

  -- No collision in phase 1: every point starts a group of its own.
  distinct_groups :
      (rest : List (Point env)) (i : ℕ) (seen : List (ℕ × ℕ)) (groups : List (ℕ × Point env))
      → ((h : ℕ) → lookup ℕ_discrete h seen ≡ none → lookup ℕ_discrete h groups ≡ none)
      → has_collisions (hashes env fl type is_delta rest) i seen false ≡ false
      → map (λ g. g.1) (group_points env fl type is_delta groups rest)
        ≡ map (λ g. g.1) groups ++ rest
  unfolding has_collisions
  distinct_groups [] i seen groups h e = sym (append-nil _)
  distinct_groups (p ∷ rest) i seen groups h e =
      let k = hash_attributes env p.attributes in
      elim (Option-cases (lookup ℕ_discrete k seen)) [
        | inr (l, known) ↦
            let collides = collision_found (hashes env fl type is_delta rest) i k l seen known in
            let no_more : true ≡ false = sym collides ∙ e in cc
        | inl new ↦
            rw (h k new, insert_new ℕ_discrete k p groups (h k new))
              (distinct_groups rest (i + 1) (insert ℕ_discrete k i seen) (groups ++ (k, p) ∷ [])
                  (λ j m.
                    rw (← insert_new ℕ_discrete k p groups (h k new))
                      (missing_after k j i p seen groups (h j) m))
                  (sym (collision_next (hashes env fl type is_delta rest) i k seen new) ∙ e)
                ∙ rw (map-append (λ (g : ℕ × Point env). g.1) groups)
                    (append_assoc _ (p ∷ []) rest))
      ]

  few_groups :
      (dps : List (Point env))
      → leb (length dps) 1 ≡ true
      → dps ≡ map (λ g. g.1) (group_points env fl type is_delta [] dps)
  unfolding lookup insert
  few_groups [] e = refl
  few_groups (p ∷ []) e = refl
  few_groups (p ∷ q ∷ dps) e = absurd (ground arith)

  start-Shows :
      (dps : List (Point env))
      → Shows env fl type is_delta [] dps 0 (record { points = dps; seen = []; remove = [] })
  unfolding lookup
  start-Shows dps = record { index = refl; array = refl; seen = λ h. refl; removed = λ j. refl }

  collision_groups :
      PdataLaws env.pdata
      → (dps : List (Point env))
      → let merged =
          merge_loop env fl type is_delta
            (hashes env fl type is_delta dps)
            0
            (record { points = dps; seen = []; remove = [] }) in
        (env.remove_if ℕ (Point env) (remove_merged env fl merged.remove) merged.points 0).0
        ≡ map (λ g. g.1) (group_points env fl type is_delta [] dps)
  collision_groups laws dps =
      let shows = merge_loop-Shows dps [] 0 (length dps) _ (omega arith) (start-Shows dps) in
      let slots = run_slots dps [] in
      rw (laws.remove_if_lem, shows.array, append-nil (points_of slots))
        (retain_slots slots _ 0 (λ j. zero_first _ j ∙ shows.removed j)
          ∙ ap (map (λ g. g.1)) (run_slots-alive dps []))

  -- Whatever the points, and under either early return, `reaggregateNumberDataPoints` yields the
  -- leaders of the groups with one identity hash, in the order in which the hashes first occur,
  -- each merged with the later points of its group in their order.
  pub reaggregate_groups :
      PdataLaws env.pdata
      → (dps : List (Point env))
      → reaggregate_number_data_points env fl dps type is_delta
        ≡ map (λ g. g.1) (group_points env fl type is_delta [] dps)
  unfolding reaggregate_number_data_points lookup
  reaggregate_groups laws dps = elim (Bool-cases (leb (length dps) 1)) [
    | inl few ↦ rw few (few_groups dps few)
    | inr many ↦ elim (Bool-cases (has_collisions (hashes env fl type is_delta dps) 0 [] false)) [
      | inl found ↦ rw (many, found) (collision_groups laws dps)
      | inr distinct ↦
          rw (many, distinct) (sym (distinct_groups dps 0 [] [] (λ h m. refl) distinct))
    ]
  ]
