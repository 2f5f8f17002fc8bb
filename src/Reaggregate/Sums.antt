-- ===== src/Reaggregate/Sums.antt =====
-- What reaggregateNumberDataPoints of reaggregation.go preserves: the total of a delta sum, and
-- the exemplars.
use otel_cardinality_process.Base.{
  ℕ, ◌+◌, ◌%◌, ◌≤◌, ◌≡◌, subst, ap, ◌∙◌, Bool, true, false, inl, inr, none, some, List, [], ◌∷◌,
  map, arith, if_pos, if_neg, All, ℕ_discrete, length, length-append, Option-cases,
}
use otel_cardinality_process.Base.Assoc.{lookup, insert}
use otel_cardinality_process.Base.Int.{u64_mod}
use otel_cardinality_process.External.{Env, PdataLaws}
use otel_cardinality_process.Metrics.{
  NumberValue, empty, int, double, MetricType, gauge_type, sum_type,
}
use otel_cardinality_process.Reaggregate.{
  Floats, Point, add_number_value, merge, reaggregate_number_data_points,
}
use otel_cardinality_process.Reaggregate.Grouping.{reaggregate_groups}
use otel_cardinality_process.Reaggregate.Rounds.{absorb, group_points}
use otel_cardinality_process.Reaggregate.Identity.{identity}

abbrev pub total_of : {A : Type 0} → (A → ℕ) → List A → ℕ
total_of w [] = 0
total_of w (x ∷ xs) = w x + total_of w xs

module _ {A : Type 0} (w : A → ℕ) where
  total-insert_new :
      (h : ℕ) (p : A) (groups : List (ℕ × A))
      → lookup ℕ_discrete h groups ≡ none
      → total_of w (map (λ g. g.1) (insert ℕ_discrete h p groups))
        ≡ total_of w (map (λ g. g.1) groups) + w p
  unfolding lookup insert
  total-insert_new h p [] e = omega arith
  total-insert_new h p ((j, q) ∷ groups) e = ground (arith, total-insert_new h p groups)

  total-insert_old :
      (h : ℕ) (p l : A) (groups : List (ℕ × A))
      → lookup ℕ_discrete h groups ≡ some l
      → total_of w (map (λ g. g.1) (insert ℕ_discrete h p groups)) + w l
        ≡ total_of w (map (λ g. g.1) groups) + w p
  unfolding lookup insert
  total-insert_old h p l [] e = cc
  total-insert_old h p l ((j, q) ∷ groups) e = ground (arith, total-insert_old h p l groups)

module _ {A : Type 0} (P : A → Type 0) where
  All-insert :
      (h : ℕ) (p : A) (groups : List (ℕ × A))
      → P p
      → All P (map (λ g. g.1) groups)
      → All P (map (λ g. g.1) (insert ℕ_discrete h p groups))
  unfolding insert
  All-insert h p [] hp hg = (hp, tt)
  All-insert h p ((j, q) ∷ groups) hp hg = elim (ℕ_discrete j h) [
    | yes e ↦ rw (if_pos (ℕ_discrete j h) e) (hp, hg.1)
    | no n ↦ rw (if_neg (ℕ_discrete j h) n) (hg.0, All-insert h p groups hp hg.1)
  ]

  All-lookup :
      (h : ℕ) (p : A) (groups : List (ℕ × A))
      → All P (map (λ g. g.1) groups)
      → lookup ℕ_discrete h groups ≡ some p
      → P p
  unfolding lookup
  All-lookup h p [] hg e = cc
  All-lookup h p ((j, q) ∷ groups) hg e = elim (ℕ_discrete j h) [
    | yes same ↦ let found : q ≡ p = ground arith in subst P found hg.0
    | no n ↦ All-lookup h p groups hg.1 (ground arith)
  ]

-- The bit pattern of an int value.
abbrev pub int_bits : NumberValue → ℕ
int_bits (int a) = a
int_bits (double a) = 0
int_bits empty = 0

abbrev pub IsInt : NumberValue → Type 0
IsInt (int a) = Unit {0}
IsInt (double a) = ⊥
IsInt empty = ⊥

module _ (env : Env) (fl : Floats) where
  open env use {Exemplar}

  abbrev pub AllInts : List (Point env) → Type 0
  AllInts = All (λ (p : Point env). IsInt p.value)

  add_ints :
      (a b : NumberValue)
      → IsInt a
      → IsInt b
      → IsInt (add_number_value fl a b)
        × (int_bits (add_number_value fl a b) % u64_mod ≡ (int_bits b + int_bits a) % u64_mod)
  unfolding add_number_value
  add_ints (int a) (int b) ha hb = (tt, omega arith)
  add_ints (int a) (double b) ha hb = absurd hb
  add_ints (int a) empty ha hb = absurd hb
  add_ints (double a) b ha hb = absurd ha
  add_ints empty b ha hb = absurd ha

  merge_ints :
      (p l : Point env)
      → IsInt p.value
      → IsInt l.value
      → IsInt (merge env fl sum_type true p l).0.value
        × (int_bits (merge env fl sum_type true p l).0.value % u64_mod
            ≡ (int_bits l.value + int_bits p.value) % u64_mod)
  unfolding merge
  merge_ints p l hp hl = add_ints p.value l.value hp hl

  abbrev bits : Point env → ℕ
  bits p = int_bits p.value

  absorb_ints :
      (p : Point env) (groups : List (ℕ × Point env))
      → IsInt p.value
      → AllInts (map (λ g. g.1) groups)
      → AllInts (map (λ g. g.1) (absorb env fl sum_type true p groups))
        × (total_of bits (map (λ g. g.1) (absorb env fl sum_type true p groups)) % u64_mod
            ≡ (total_of bits (map (λ g. g.1) groups) + bits p) % u64_mod)
  absorb_ints p groups hp hg = elim (Option-cases (lookup ℕ_discrete (identity env p) groups)) [
    | inl e ↦ rw e (
      All-insert (λ (q : Point env). IsInt q.value) (identity env p) p groups hp hg,
      omega (arith, total-insert_new bits (identity env p) p groups e),
    )
    | inr (l, e) ↦
        let hl = All-lookup (λ (q : Point env). IsInt q.value) (identity env p) l groups hg e in
        let both = merge_ints p l hp hl in
        let m = (merge env fl sum_type true p l).0 in
        rw e (
          All-insert (λ (q : Point env). IsInt q.value) (identity env p) m groups both.0 hg,
          omega (arith, both.1, total-insert_old bits (identity env p) m l groups e),
        )
  ]

  group_ints :
      (groups : List (ℕ × Point env)) (dps : List (Point env))
      → AllInts dps
      → AllInts (map (λ g. g.1) groups)
      → AllInts (map (λ g. g.1) (group_points env fl sum_type true groups dps))
        × (total_of bits (map (λ g. g.1) (group_points env fl sum_type true groups dps)) % u64_mod
            ≡ (total_of bits (map (λ g. g.1) groups) + total_of bits dps) % u64_mod)
  group_ints groups [] hd hg = (hg, omega arith)
  group_ints groups (p ∷ dps) hd hg =
      let here = absorb_ints p groups hd.0 hg in
      let rest = group_ints (absorb env fl sum_type true p groups) dps hd.1 here.0 in
      (rest.0, omega (arith, here.1, rest.1))

  -- A delta sum over int values keeps its total, as an `int64` with wrap-around, and has int values
  -- alone.
  pub reaggregate-int_total :
      PdataLaws env.pdata
      → (dps : List (Point env)) → AllInts dps
      → AllInts (reaggregate_number_data_points env fl dps sum_type true)
        × (total_of
                (λ (p : Point env). int_bits p.value)
                (reaggregate_number_data_points env fl dps sum_type true)
              % u64_mod
            ≡ total_of (λ (p : Point env). int_bits p.value) dps % u64_mod)
  reaggregate-int_total laws dps ints =
      let all = group_ints [] dps ints tt in
      rw (reaggregate_groups env fl sum_type true laws dps) (all.0, all.1 ∙ omega arith)

  -- The calls that the processor makes merge gauges and delta sums.
  abbrev pub IsMerged : MetricType → Bool → Type 0
  IsMerged gauge_type d = Unit {0}
  IsMerged sum_type true = Unit {0}
  IsMerged sum_type false = ⊥

  abbrev exemplar_count : Point env → ℕ
  exemplar_count p = length p.exemplars

  merge-exemplars :
      PdataLaws env.pdata
      → (type : MetricType) (is_delta : Bool) (p l : Point env) → IsMerged type is_delta
      → exemplar_count (merge env fl type is_delta p l).0 ≡ exemplar_count l + exemplar_count p
  unfolding merge
  merge-exemplars laws gauge_type d p l h = ground (
    arith,
    ap length (laws.move_and_append_to_lem p.exemplars l.exemplars),
    length-append l.exemplars p.exemplars,
  )
  merge-exemplars laws sum_type true p l h = ground (
    arith,
    ap length (laws.move_and_append_to_lem p.exemplars l.exemplars),
    length-append l.exemplars p.exemplars,
  )
  merge-exemplars laws sum_type false p l h = absurd h

  pub merge-timestamp :
      (type : MetricType) (is_delta : Bool) (p l : Point env)
      → IsMerged type is_delta
      → (p.timestamp ≤ (merge env fl type is_delta p l).0.timestamp)
        × (l.timestamp ≤ (merge env fl type is_delta p l).0.timestamp)
  unfolding merge
  merge-timestamp gauge_type d p l h = ground arith
  merge-timestamp sum_type true p l h = ground arith
  merge-timestamp sum_type false p l h = absurd h

  module _ (type : MetricType) (is_delta : Bool) (merged : IsMerged type is_delta) where
    group_exemplars :
        PdataLaws env.pdata
        → (groups : List (ℕ × Point env)) (dps : List (Point env))
        → total_of exemplar_count (map (λ g. g.1) (group_points env fl type is_delta groups dps))
          ≡ total_of exemplar_count (map (λ g. g.1) groups) + total_of exemplar_count dps
    group_exemplars laws groups [] = omega arith
    group_exemplars laws groups (p ∷ dps) =
        omega
          (arith, absorb_exemplars, group_exemplars laws (absorb env fl type is_delta p groups) dps)
      where
        absorb_exemplars :
            total_of exemplar_count (map (λ g. g.1) (absorb env fl type is_delta p groups))
            ≡ total_of exemplar_count (map (λ g. g.1) groups) + exemplar_count p
        absorb_exemplars = elim (Option-cases (lookup ℕ_discrete (identity env p) groups)) [
          | inl e ↦ rw e (total-insert_new exemplar_count (identity env p) p groups e)
          | inr (l, e) ↦ rw e (
              omega (
                arith,
                merge-exemplars laws type is_delta p l merged,
                total-insert_old exemplar_count (identity env p) (merge env fl type is_delta p l).0
                    l groups e,
              ))
        ]

    -- No exemplar is lost or made up: their number stays the same.
    pub reaggregate-exemplars :
        PdataLaws env.pdata
        → (dps : List (Point env))
        → total_of
            (λ (p : Point env). length p.exemplars)
            (reaggregate_number_data_points env fl dps type is_delta)
          ≡ total_of (λ (p : Point env). length p.exemplars) dps
    reaggregate-exemplars laws dps =
        rw (reaggregate_groups env fl type is_delta laws dps)
          (group_exemplars laws [] dps ∙ omega arith)
