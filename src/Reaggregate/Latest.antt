-- ===== src/Reaggregate/Latest.antt =====
-- The timestamps that reaggregateNumberDataPoints of reaggregation.go keeps.
use otel_cardinality_process.Base.{
  ℕ, ◌≤◌, ◌≡◌, refl, ap, ◌∙◌, Bool, inl, inr, some, List, [], ◌∷◌, if_pos, if_neg, All, ℕ_discrete,
  Option-cases,
}
use native.Mathlib.Nat.{le_trans, le_refl}
use otel_cardinality_process.Base.Assoc.{lookup, lookup-insert}
use otel_cardinality_process.External.{Env, PdataLaws}
use otel_cardinality_process.Metrics.{MetricType}
use otel_cardinality_process.Reaggregate.{Floats, Point, merge, reaggregate_number_data_points}
use otel_cardinality_process.Reaggregate.Rounds.{absorb, group_points}
use otel_cardinality_process.Reaggregate.Identity.{identity, by_identity, by_identity-reaggregate}
use otel_cardinality_process.Reaggregate.Sums.{IsMerged, merge-timestamp}

module _ (env : Env) (fl : Floats) (type : MetricType) (is_delta : Bool) where
  -- The leader of a point's identity is at least as late as the point.
  abbrev pub Reaches : List (ℕ × Point env) → Point env → Type 0
  Reaches groups p =
      (l : Point env) × (lookup ℕ_discrete (identity env p) groups ≡ some l)
      × (p.timestamp ≤ l.timestamp)

  absorb-Reaches_self :
      (p : Point env) (groups : List (ℕ × Point env))
      → IsMerged env fl type is_delta
      → Reaches (absorb env fl type is_delta p groups) p
  absorb-Reaches_self p groups merged =
      elim (Option-cases (lookup ℕ_discrete (identity env p) groups)) [
        | inl e ↦ rw e (
          p,
          rw (lookup-insert ℕ_discrete (identity env p) (identity env p) p groups)
              (if_pos (ℕ_discrete (identity env p) (identity env p)) refl _ _),
          le_refl p.timestamp,
        )
        | inr (l, e) ↦
            let m = (merge env fl type is_delta p l).0 in
            rw e (
              m,
              rw (lookup-insert ℕ_discrete (identity env p) (identity env p) m groups)
                  (if_pos (ℕ_discrete (identity env p) (identity env p)) refl _ _),
              (merge-timestamp env fl type is_delta p l merged).0,
            )
      ]

  absorb-Reaches :
      (p q : Point env) (groups : List (ℕ × Point env))
      → IsMerged env fl type is_delta
      → Reaches groups q
      → Reaches (absorb env fl type is_delta p groups) q
  absorb-Reaches p q groups merged (k, found, late) =
      elim (ℕ_discrete (identity env p) (identity env q)) [
        | yes same ↦
            let e = ap (λ h. lookup ℕ_discrete h groups) same ∙ found in
            let m = (merge env fl type is_delta p k).0 in
            rw e (
              m,
              rw (lookup-insert ℕ_discrete (identity env p) (identity env q) m groups)
                  (if_pos (ℕ_discrete (identity env p) (identity env q)) same _ _),
              le_trans late (merge-timestamp env fl type is_delta p k merged).1,
            )
        | no other ↦ elim (Option-cases (lookup ℕ_discrete (identity env p) groups)) [
          | inl e ↦ rw e (
            k,
            rw (lookup-insert ℕ_discrete (identity env p) (identity env q) p groups)
                (if_neg (ℕ_discrete (identity env p) (identity env q)) other _ _ ∙ found),
            late,
          )
          | inr (l, e) ↦
              let m = (merge env fl type is_delta p l).0 in
              rw e (
                k,
                rw (lookup-insert ℕ_discrete (identity env p) (identity env q) m groups)
                    (if_neg (ℕ_discrete (identity env p) (identity env q)) other _ _ ∙ found),
                late,
              )
        ]
      ]

  group-Reaches_keep :
      (q : Point env) (dps : List (Point env)) (groups : List (ℕ × Point env))
      → IsMerged env fl type is_delta
      → Reaches groups q
      → Reaches (group_points env fl type is_delta groups dps) q
  group-Reaches_keep q [] groups merged r = r
  group-Reaches_keep q (p ∷ dps) groups merged r =
      group-Reaches_keep q dps (absorb env fl type is_delta p groups) merged
        (absorb-Reaches p q groups merged r)

  group-Reaches :
      (dps : List (Point env)) (groups : List (ℕ × Point env))
      → IsMerged env fl type is_delta
      → All (Reaches (group_points env fl type is_delta groups dps)) dps
  group-Reaches [] groups merged = tt
  group-Reaches (p ∷ dps) groups merged = (
    group-Reaches_keep p dps (absorb env fl type is_delta p groups) merged
        (absorb-Reaches_self p groups merged),
    group-Reaches dps (absorb env fl type is_delta p groups) merged,
  )

  -- In a gauge or a delta sum every data point is represented: the result has a point with its
  -- identity hash and a timestamp that is not earlier.
  pub reaggregate_latest :
      PdataLaws env.pdata
      → (dps : List (Point env)) → IsMerged env fl type is_delta
      → All
          (Reaches (by_identity env (reaggregate_number_data_points env fl dps type is_delta)))
          dps
  reaggregate_latest laws dps merged =
      rw (by_identity-reaggregate env fl type is_delta laws dps) (group-Reaches dps [] merged)
