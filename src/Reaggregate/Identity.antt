-- ===== src/Reaggregate/Identity.antt =====
-- The identities that reaggregateNumberDataPoints of reaggregation.go leaves.
use otel_cardinality_process.Base.{
  ℕ, ◌≡◌, refl, sym, subst, ap, ◌∙◌, Bool, true, false, inl, inr, some, List, [], ◌∷◌, ◌++◌, map,
  arith, if_pos, if_neg, All, ℕ_discrete, Option-cases,
}
use otel_cardinality_process.Base.Assoc.{
  lookup, insert, IsMap, insert-IsMap, insert_new, lookup-IsMap_front,
}
use mathlib.Core.List.{append-nil, append_assoc}
use otel_cardinality_process.External.{Env, PdataLaws}
use otel_cardinality_process.Metrics.{MetricType, gauge_type, sum_type}
use otel_cardinality_process.Reaggregate.{
  Floats, Point, merge, hash_attributes, reaggregate_number_data_points,
}
use otel_cardinality_process.Reaggregate.Grouping.{reaggregate_groups}
use otel_cardinality_process.Reaggregate.Rounds.{absorb, group_points}

module _ (env : Env) where
  -- Each point stands under its identity hash.
  abbrev pub identity : Point env → ℕ
  identity p = hash_attributes env p.attributes

  abbrev pub by_identity : List (Point env) → List (ℕ × Point env)
  by_identity = map (λ (p : Point env). (identity p, p))

  abbrev Keyed : List (ℕ × Point env) → Type 0
  Keyed = All (λ (g : ℕ × Point env). identity g.1 ≡ g.0)

  insert-Keyed :
      (h : ℕ) (p : Point env) (groups : List (ℕ × Point env))
      → identity p ≡ h
      → Keyed groups
      → Keyed (insert ℕ_discrete h p groups)
  unfolding insert
  insert-Keyed h p [] e k = (e, tt)
  insert-Keyed h p ((j, q) ∷ groups) e k = elim (ℕ_discrete j h) [
    | yes same ↦ rw (if_pos (ℕ_discrete j h) same) (e ∙ sym same, k.1)
    | no other ↦ rw (if_neg (ℕ_discrete j h) other) (k.0, insert-Keyed h p groups e k.1)
  ]

  lookup-Keyed :
      (h : ℕ) (p : Point env) (groups : List (ℕ × Point env))
      → Keyed groups
      → lookup ℕ_discrete h groups ≡ some p
      → identity p ≡ h
  unfolding lookup
  lookup-Keyed h p [] k e = cc
  lookup-Keyed h p ((j, q) ∷ groups) k e = elim (ℕ_discrete j h) [
    | yes same ↦ let found : q ≡ p = ground arith in ap identity (sym found) ∙ k.0 ∙ same
    | no other ↦ lookup-Keyed h p groups k.1 (ground arith)
  ]

  Keyed-by_identity :
      (groups : List (ℕ × Point env)) → Keyed groups → by_identity (map (λ g. g.1) groups) ≡ groups
  Keyed-by_identity [] k = refl
  Keyed-by_identity ((j, q) ∷ groups) k = rw (k.0, Keyed-by_identity groups k.1)

  points-by_identity : (dps : List (Point env)) → map (λ g. g.1) (by_identity dps) ≡ dps
  points-by_identity [] = refl
  points-by_identity (p ∷ dps) = ap (◌∷◌ p) (points-by_identity dps)

  module _ (fl : Floats) (type : MetricType) (is_delta : Bool) where
    -- A leader keeps its attributes.
    pub merge-attributes :
        (p leader : Point env)
        → (merge env fl type is_delta p leader).0.attributes ≡ leader.attributes
    unfolding merge
    merge-attributes p leader = merges type is_delta
      where
        merges :
            (t : MetricType) (d : Bool)
            → (merge env fl t d p leader).0.attributes ≡ leader.attributes
        merges gauge_type d = ground arith
        merges sum_type true = refl
        merges sum_type false = refl

    absorb-Keyed :
        (p : Point env) (groups : List (ℕ × Point env))
        → Keyed groups
        → Keyed (absorb env fl type is_delta p groups)
    absorb-Keyed p groups k = elim (Option-cases (lookup ℕ_discrete (identity p) groups)) [
      | inl e ↦ rw e (insert-Keyed (identity p) p groups refl k)
      | inr (l, e) ↦ rw e (
          insert-Keyed (identity p) (merge env fl type is_delta p l).0 groups
            (ap (hash_attributes env) (merge-attributes p l)
              ∙ lookup-Keyed (identity p) l groups k e)
            k)
    ]

    absorb-IsMap :
        (p : Point env) (groups : List (ℕ × Point env))
        → IsMap ℕ_discrete groups
        → IsMap ℕ_discrete (absorb env fl type is_delta p groups)
    absorb-IsMap p groups k = elim (Option-cases (lookup ℕ_discrete (identity p) groups)) [
      | inl e ↦ rw e (insert-IsMap ℕ_discrete (identity p) p groups k)
      | inr (l, e) ↦
          rw e (insert-IsMap ℕ_discrete (identity p) (merge env fl type is_delta p l).0 groups k)
    ]

    group_points-IsMap :
        (groups : List (ℕ × Point env)) (dps : List (Point env))
        → Keyed groups
        → IsMap ℕ_discrete groups
        → Keyed (group_points env fl type is_delta groups dps)
          × IsMap ℕ_discrete (group_points env fl type is_delta groups dps)
    group_points-IsMap groups [] k m = (k, m)
    group_points-IsMap groups (p ∷ dps) k m =
        group_points-IsMap (absorb env fl type is_delta p groups) dps (absorb-Keyed p groups k)
          (absorb-IsMap p groups m)

    -- The result under its identities is the map of the groups.
    pub by_identity-reaggregate :
        PdataLaws env.pdata
        → (dps : List (Point env))
        → by_identity (reaggregate_number_data_points env fl dps type is_delta)
          ≡ group_points env fl type is_delta [] dps
    by_identity-reaggregate laws dps = rw (reaggregate_groups env fl type is_delta laws dps) (
        Keyed-by_identity (group_points env fl type is_delta [] dps)
          (group_points-IsMap [] dps tt tt).0)

    -- No two data points of the result have the same identity hash.
    pub reaggregate-distinct :
        PdataLaws env.pdata
        → (dps : List (Point env))
        → IsMap ℕ_discrete (by_identity (reaggregate_number_data_points env fl dps type is_delta))
    reaggregate-distinct laws dps =
        rw (by_identity-reaggregate laws dps) (group_points-IsMap [] dps tt tt).1

    grouped_already :
        (groups : List (ℕ × Point env)) (dps : List (Point env))
        → IsMap ℕ_discrete (groups ++ by_identity dps)
        → group_points env fl type is_delta groups dps ≡ groups ++ by_identity dps
    grouped_already groups [] m = sym (append-nil groups)
    grouped_already groups (p ∷ dps) m =
        let h = identity p in
        let new = lookup-IsMap_front ℕ_discrete h p groups (by_identity dps) m in
        let regroup = append_assoc groups ((h, p) ∷ []) (by_identity dps) in
        rw (new, insert_new ℕ_discrete h p groups new)
          (grouped_already (groups ++ (h, p) ∷ []) dps (subst (IsMap ℕ_discrete) (sym regroup) m)
            ∙ regroup)

    -- A second run changes nothing.
    pub reaggregate_twice :
        PdataLaws env.pdata
        → (dps : List (Point env))
        → reaggregate_number_data_points env fl
            (reaggregate_number_data_points env fl dps type is_delta)
            type
            is_delta
          ≡ reaggregate_number_data_points env fl dps type is_delta
    reaggregate_twice laws dps =
        let once = reaggregate_number_data_points env fl dps type is_delta in
        rw
          (
            reaggregate_groups env fl type is_delta laws once,
            grouped_already [] once (reaggregate-distinct laws dps),
          )
          (points-by_identity once)
