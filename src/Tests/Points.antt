-- ===== src/Tests/Points.antt =====
-- The theorems on the reaggregation, at concrete inputs.
use mathlib.Core.List.Perm
use otel_cardinality_process.Base.{true, false, ◌%◌, ◌≡◌, List, [], ◌∷◌, map, All, ℕ_discrete}
use otel_cardinality_process.Base.Assoc.{IsMap}
use otel_cardinality_process.Base.Int.{u64_mod}
use otel_cardinality_process.External.{Attrs}
use otel_cardinality_process.Metrics.{int, gauge_type, sum_type}
use otel_cardinality_process.Reaggregate.{Point, hash_attributes, reaggregate_number_data_points}
use otel_cardinality_process.Reaggregate.Grouping.{reaggregate_groups}
use otel_cardinality_process.Reaggregate.Rounds.{group_points}
use otel_cardinality_process.Reaggregate.Hashing.{hash_attributes-perm}
use otel_cardinality_process.Reaggregate.Identity.{
  by_identity, reaggregate-distinct, reaggregate_twice,
}
use otel_cardinality_process.Reaggregate.Latest.{Reaches, reaggregate_latest}
use otel_cardinality_process.Reaggregate.Sums.{AllInts, total_of, int_bits, reaggregate-int_total}
use otel_cardinality_process.Tests.World.{Value, text, containers-laws, world, floats}

abbrev early : Point world
early = record {
  attributes = ("region", text "eu") ∷ [];
  start_timestamp = 1;
  timestamp = 5;
  value = int 3;
  exemplars = 1 ∷ [];
}

abbrev late : Point world
late = record early { timestamp = 9; value = int 4; exemplars = 2 ∷ [] }

abbrev other : Point world
other = record early { attributes = ("zone", text "abc") ∷ [] }

abbrev points : List (Point world)
points = early ∷ other ∷ late ∷ []

reaggregate_groups_example :
    reaggregate_number_data_points world floats points gauge_type false
    ≡ map (λ g. g.1) (group_points world floats gauge_type false [] points)
reaggregate_groups_example = reaggregate_groups world floats gauge_type false containers-laws points

reaggregate-distinct_example :
    IsMap ℕ_discrete
      (by_identity world (reaggregate_number_data_points world floats points gauge_type false))
reaggregate-distinct_example =
    reaggregate-distinct world floats gauge_type false containers-laws points

reaggregate_twice_example :
    reaggregate_number_data_points world floats
      (reaggregate_number_data_points world floats points sum_type true)
      sum_type
      true
    ≡ reaggregate_number_data_points world floats points sum_type true
reaggregate_twice_example = reaggregate_twice world floats sum_type true containers-laws points

reaggregate-int_total_example :
    AllInts world floats (reaggregate_number_data_points world floats points sum_type true)
    × (total_of
            (λ (p : Point world). int_bits p.value)
            (reaggregate_number_data_points world floats points sum_type true)
          % u64_mod
        ≡ total_of (λ (p : Point world). int_bits p.value) points % u64_mod)
reaggregate-int_total_example =
    reaggregate-int_total world floats containers-laws points (tt, (tt, (tt, tt)))

reaggregate_latest_example :
    All
      (Reaches world floats gauge_type false
        (by_identity world (reaggregate_number_data_points world floats points gauge_type false)))
      points
reaggregate_latest_example =
    reaggregate_latest world floats gauge_type false containers-laws points tt

abbrev a : Attrs Value
a = ("region", text "eu") ∷ ("zone", text "abc") ∷ []

abbrev b : Attrs Value
b = ("zone", text "abc") ∷ ("region", text "eu") ∷ []

hash_attributes-perm_example : hash_attributes world a ≡ hash_attributes world b
hash_attributes-perm_example = hash_attributes-perm world a b (Perm.swap _ _ [])
