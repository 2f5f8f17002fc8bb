-- ===== src/Reaggregate/Rounds.antt =====
-- A round of phase 2 of reaggregateNumberDataPoints of reaggregation.go, on the slice and on its slots,
-- and the fold over groups that it stands for.
use otel_cardinality_process.Base.{
  ℕ, ◌+◌, ◌<◌, ◌≡◌, refl, sym, subst, ◌∙◌, Bool, true, false, inl, inr, Option, none, some, List,
  [], ◌∷◌, ◌++◌, map, arith, ite, if_neg, length, get_or, set, ℕ_discrete, Option-cases,
  length-append, length-set, set-append, set-append_at, get_or-append, get_or-append_at,
}
use mathlib.Core.List.{append-nil, append_assoc}
use otel_cardinality_process.Base.Assoc.{lookup, insert, lookup-insert, insert_new}
use otel_cardinality_process.External.{Env}
use otel_cardinality_process.Metrics.{MetricType}
use otel_cardinality_process.Reaggregate.{
  Floats, Point, Merging, blank, merge, merge_at, is_removed, hash_attributes,
}
use otel_cardinality_process.Reaggregate.Seen.{read_flag-insert}
use otel_cardinality_process.Reaggregate.Slots.{
  or_else, position, alive, points_of, flag, put_slot, lookup-alive-none, lookup-alive-some,
  insert-alive, position-lt, points_of-put_slot, position-put_slot, flag-put_slot, length-put_slot,
  length-points_of, position-snoc_merged, position-snoc_leader, alive-append, points_of-append,
  flag-snoc, flag-snoc_leader,
}

or_else-none : (o : Option ℕ) → o ≡ or_else o none
or_else-none none = refl
or_else-none (some i) = refl

-- A write to a leader and to the point itself.
set_both :
    {A : Type 0} (arr front rest : List A) (i l : ℕ) (p x y : A)
    → arr ≡ front ++ p ∷ rest
    → length front ≡ i
    → l < i
    → set (set arr l x) i y ≡ set front l x ++ y ∷ rest
set_both arr front rest i l p x y e n h =
    rw (e, set-append front (p ∷ rest) l x (omega arith), ← n, ← length-set front l x)
      (set-append_at (set front l x) rest p y)

first_of_two :
    {A : Type 0} (k h : ℕ) (es : List (ℕ × Bool × A))
    → position h es ≡ none
    → ite (ℕ_discrete h k) (some (length es)) (position k es)
      ≡ or_else (position k es) (ite (ℕ_discrete h k) (some (length es)) none)
first_of_two k h es e = elim (ℕ_discrete h k) [
  | yes q ↦ rw (← q, e)
  | no n ↦ rw (if_neg (ℕ_discrete h k) n, if_neg (ℕ_discrete h k) n) (or_else-none (position k es))
]

module _ (env : Env) (fl : Floats) (type : MetricType) (is_delta : Bool) where
  -- The specification: a map from identity hashes to leaders, in the order of first occurrence,
  -- into which the points are merged one by one.
  abbrev absorb_at :
      Option (Point env) → ℕ → Point env → List (ℕ × Point env) → List (ℕ × Point env)
  absorb_at none h p groups = insert ℕ_discrete h p groups
  absorb_at (some leader) h p groups =
      insert ℕ_discrete h (merge env fl type is_delta p leader).0 groups

  abbrev pub absorb : Point env → List (ℕ × Point env) → List (ℕ × Point env)
  absorb p groups =
      let h = hash_attributes env p.attributes in absorb_at (lookup ℕ_discrete h groups) h p groups

  abbrev pub group_points : List (ℕ × Point env) → List (Point env) → List (ℕ × Point env)
  group_points groups [] = groups
  group_points groups (p ∷ ps) = group_points (absorb p groups) ps

  abbrev pub hashes : List (Point env) → List ℕ
  hashes = map (λ (p : Point env). hash_attributes env p.attributes)

  -- The state of phase 2 in front of the points `rest`, as slots.
  pub record Shows (es : List (ℕ × Bool × Point env)) (rest : List (Point env)) (i : ℕ)
      (s : Merging env) : Type 0 where
    pub index : length es ≡ i
    pub array : s.points ≡ points_of es ++ rest
    pub seen : (h : ℕ) → lookup ℕ_discrete h s.seen ≡ position h es
    pub removed : (j : ℕ) → is_removed j s.remove ≡ flag es j

  abbrev next_at : Option ℕ → Point env → List (ℕ × Bool × Point env) → List (ℕ × Bool × Point env)
  next_at none p es = es ++ (hash_attributes env p.attributes, false, p) ∷ []
  next_at (some l) p es =
      let (leader, current) = merge env fl type is_delta p (get_or (points_of es) l (blank env)) in
      put_slot es l leader ++ (hash_attributes env p.attributes, true, current) ∷ []

  -- The slots after one round.
  abbrev pub next_slots : Point env → List (ℕ × Bool × Point env) → List (ℕ × Bool × Point env)
  next_slots p es = next_at (position (hash_attributes env p.attributes) es) p es

  pub next_slots-alive :
      (p : Point env) (es : List (ℕ × Bool × Point env))
      → alive (next_slots p es) ≡ absorb p (alive es)
  next_slots-alive p es = elim (Option-cases (position (hash_attributes env p.attributes) es)) [
    | inl e ↦ rw (
      e,
      lookup-alive-none (hash_attributes env p.attributes) es e,
      alive-append es ((hash_attributes env p.attributes, false, p) ∷ []),
      insert_new ℕ_discrete (hash_attributes env p.attributes) p (alive es)
          (lookup-alive-none (hash_attributes env p.attributes) es e),
    )
    | inr (l, e) ↦
        rw (e, lookup-alive-some (hash_attributes env p.attributes) es l (blank env) e)
          (alive-append (put_slot es l _) _
            ∙ append-nil _
            ∙ sym (insert-alive (hash_attributes env p.attributes) es l _ e))
  ]

  step_new :
      (p : Point env) (es : List (ℕ × Bool × Point env)) (rest : List (Point env)) (i : ℕ)
      (s : Merging env)
      → position (hash_attributes env p.attributes) es ≡ none
      → Shows es (p ∷ rest) i s
      → Shows
          (next_slots p es)
          rest
          (i + 1)
          (merge_at env fl type is_delta (hash_attributes env p.attributes) i none s)
  step_new p es rest i s e v =
      let h = hash_attributes env p.attributes in
      rw e (record {
        index = omega (arith, v.index, length-append es ((h, false, p) ∷ []));
        array =
            v.array
            ∙ sym (append_assoc (points_of es) (p ∷ []) rest)
            ∙ rw (points_of-append es ((h, false, p) ∷ []));
        seen = λ k.
            lookup-insert ℕ_discrete h k i s.seen
            ∙ rw (v.seen k, ← v.index, position-snoc_leader k h es p) (first_of_two k h es e);
        removed = λ j. v.removed j ∙ sym (flag-snoc_leader es h p j);
      })

  step_merged :
      (p : Point env) (es : List (ℕ × Bool × Point env)) (rest : List (Point env)) (i l : ℕ)
      (s : Merging env)
      → position (hash_attributes env p.attributes) es ≡ some l
      → Shows es (p ∷ rest) i s
      → Shows
          (next_slots p es)
          rest
          (i + 1)
          (merge_at env fl type is_delta (hash_attributes env p.attributes) i (some l) s)
  step_merged p es rest i l s e v =
      let h = hash_attributes env p.attributes in
      let front = points_of es in
      let below = position-lt h es l e in
      let size = length-points_of es ∙ v.index in
      let old = get_or front l (blank env) in
      let merged = merge env fl type is_delta p old in
      let at : get_or s.points i (blank env) ≡ p =
        rw (v.array, ← size) (get_or-append_at front rest p (blank env)) in
      let lead : get_or s.points l (blank env) ≡ old =
        rw v.array (get_or-append front (p ∷ rest) l (blank env) (omega (arith, v.index))) in
      rw e (record {
        index =
            length-append (put_slot es l merged.0) ((h, true, merged.1) ∷ [])
            ∙ omega (arith, v.index, length-put_slot es l merged.0);
        array =
            rw
              (
                at,
                lead,
                points_of-append (put_slot es l merged.0) ((h, true, merged.1) ∷ []),
                points_of-put_slot es l merged.0,
              )
              (set_both s.points front rest i l p merged.0 merged.1 v.array size
                  (omega (arith, v.index))
                ∙ sym (append_assoc (set front l merged.0) (merged.1 ∷ []) rest));
        seen = λ k.
            v.seen k
            ∙ sym (
                position-snoc_merged k h (put_slot es l merged.0) merged.1
                ∙ position-put_slot k es l merged.0);
        removed = λ j.
            read_flag-insert i j s.remove
            ∙ rw (
              v.removed j,
              flag-snoc (put_slot es l merged.0) h true merged.1 j,
              length-put_slot es l merged.0,
              flag-put_slot es l j merged.0,
              v.index,
            );
      })

  pub step :
      (p : Point env) (es : List (ℕ × Bool × Point env)) (rest : List (Point env)) (i : ℕ)
      (s : Merging env)
      → Shows es (p ∷ rest) i s
      → let h = hash_attributes env p.attributes in
        Shows
          (next_slots p es)
          rest
          (i + 1)
          (merge_at env fl type is_delta h i (lookup ℕ_discrete h s.seen) s)
  step p es rest i s v =
      let h = hash_attributes env p.attributes in
      rw (v.seen h) (elim (Option-cases (position h es)) [
        | inl e ↦
            subst
              (λ o. Shows (next_slots p es) rest (i + 1) (merge_at env fl type is_delta h i o s))
              (sym e) (step_new p es rest i s e v)
        | inr (l, e) ↦
            subst
              (λ o. Shows (next_slots p es) rest (i + 1) (merge_at env fl type is_delta h i o s))
              (sym e) (step_merged p es rest i l s e v)
      ])
