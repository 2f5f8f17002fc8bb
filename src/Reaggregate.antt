-- ===== src/Reaggregate.antt =====
-- cardinalityprocessor/reaggregation.go: the merge of number data points that share an identity
-- after their labels are stripped.
pub mod Slots
pub mod Seen
pub mod Rounds
pub mod Grouping
pub mod Identity
pub mod Sums
pub mod Latest
pub mod Hashing
use Prim.Native.Nat.{bit_xor}
use otel_cardinality_process.Base.{
  ℕ, ◌+◌, String, ◌<>◌, Bool, true, false, Option, none, some, List, [], ◌∷◌, ltb, leb,
  if◌then◌else◌, length, get_or, set, map, ℕ_discrete,
}
use otel_cardinality_process.Base.Assoc.{lookup, insert}
use otel_cardinality_process.Base.Int.{add64}
use otel_cardinality_process.External.{Env, Attrs}
use otel_cardinality_process.Metrics.{
  NumberValue, empty, int, double, NumberPoint, MetricType, gauge_type, sum_type,
}

-- Go's float64 addition and conversion, on bit patterns.
pub record Floats : Type 0 where
  pub add : ℕ → ℕ → ℕ
  pub of_int : ℕ → ℕ

-- The loop of phase 1 over the identity hashes: `seen` maps a hash to its first index, and `found`
-- is `hasCollisions`.
unfoldable pub has_collisions : List ℕ → ℕ → List (ℕ × ℕ) → Bool → Bool
has_collisions [] i seen found = found
has_collisions (h ∷ hs) i seen found = elim (lookup ℕ_discrete h seen) [
  | some _ ↦ has_collisions hs (i + 1) seen true
  | none ↦ has_collisions hs (i + 1) (insert ℕ_discrete h i seen) found
]

-- An index that is not in the map `remove` reads as false.
abbrev pub read_flag : Option Bool → Bool
read_flag none = false
read_flag (some b) = b

abbrev pub is_removed : ℕ → List (ℕ × Bool) → Bool
is_removed i remove = read_flag (lookup ℕ_discrete i remove)

-- `copyNumberValue`, the new value of `dst`.
unfoldable pub copy_number_value : NumberValue → NumberValue → NumberValue
copy_number_value (int a) dst = int a
copy_number_value (double a) dst = double a
copy_number_value empty dst = dst

module _ (fl : Floats) where
  open fl use {add, of_int}

  unfoldable pub number_data_point_to_double : NumberValue → ℕ
  number_data_point_to_double (int a) = of_int a
  number_data_point_to_double (double a) = a
  number_data_point_to_double empty = 0

  -- `addNumberValue`, the new value of `dst`.
  unfoldable pub add_number_value : NumberValue → NumberValue → NumberValue
  unfolding number_data_point_to_double
  add_number_value (int a) (int b) = int (add64 b a)
  add_number_value (double a) (double b) = double (add b a)
  add_number_value src dst =
      double (add (number_data_point_to_double dst) (number_data_point_to_double src))

module _ (env : Env) where
  open env use {Value, Exemplar, as_string, sum64, remove_if, move_and_append_to}

  pair_hash : String × Value → ℕ
  pair_hash (k, v) = sum64 ((k <> "\0") <> as_string v)

  hash_range : Attrs Value → ℕ → ℕ
  hash_range [] combined = combined
  hash_range (a ∷ attrs) combined = hash_range attrs (bit_xor combined (pair_hash a))

  unfoldable pub hash_attributes : Attrs Value → ℕ
  unfolding hash_range pair_hash
  hash_attributes attrs = hash_range attrs 0

  abbrev pub Point : Type 0
  Point = NumberPoint Value Exemplar

  abbrev pub blank : Point
  blank = record {
    attributes = [];
    start_timestamp = 0;
    timestamp = 0;
    value = empty;
    exemplars = [];
  }

  -- The exemplars of a merged point move to its leader.
  abbrev pub take_exemplars : Point → Point → Point
  take_exemplars current leader = record leader {
    exemplars = move_and_append_to current.exemplars leader.exemplars;
  }

  -- The cases of the switch in phase 2, each the new leader.
  unfoldable pub merge_gauge : Point → Point → Point
  unfolding copy_number_value
  merge_gauge current leader = take_exemplars current (
      if ltb leader.timestamp current.timestamp
      then record leader {
        value = copy_number_value current.value leader.value;
        timestamp = current.timestamp;
        start_timestamp =
            if ltb 0 current.start_timestamp
            then current.start_timestamp
            else leader.start_timestamp;
      }
      else leader)

  pub record Merging : Type 0 where
    pub points : List Point
    pub seen : List (ℕ × ℕ)
    pub remove : List (ℕ × Bool)

  module _ (fl : Floats) where
    unfoldable pub merge_delta_sum : Point → Point → Point
    unfolding add_number_value
    merge_delta_sum current leader = take_exemplars current (record leader {
      value = add_number_value fl current.value leader.value;
      timestamp =
          if ltb leader.timestamp current.timestamp then current.timestamp else leader.timestamp;
      start_timestamp =
          if ltb current.start_timestamp leader.start_timestamp
          then current.start_timestamp
          else leader.start_timestamp;
    })

    -- The new leader, and the merged point behind the move of its exemplars.
    unfoldable pub merge : MetricType → Bool → Point → Point → Point × Point
    unfolding merge_gauge merge_delta_sum
    merge gauge_type is_delta current leader =
        (merge_gauge current leader, record current { exemplars = [] })
    merge sum_type true current leader =
        (merge_delta_sum current leader, record current { exemplars = [] })
    merge sum_type false current leader = (leader, current)

    -- The body of the loop of phase 2, for the point `i` with the hash `h` and the index of its
    -- leader, if there is one.
    abbrev pub merge_at : MetricType → Bool → ℕ → ℕ → Option ℕ → Merging → Merging
    merge_at type is_delta h i none s = record s { seen = insert ℕ_discrete h i s.seen }
    merge_at type is_delta h i (some leader_idx) s =
        let (leader, current) =
          merge type is_delta (get_or s.points i blank) (get_or s.points leader_idx blank) in
        record s {
          points = set (set s.points leader_idx leader) i current;
          remove = insert ℕ_discrete i true s.remove;
        }

    -- The loop of phase 2, over the hashes of the points from index `i` on.
    unfoldable pub merge_loop : MetricType → Bool → List ℕ → ℕ → Merging → Merging
    merge_loop type is_delta [] i s = s
    merge_loop type is_delta (h ∷ hs) i s =
        merge_loop type is_delta hs (i + 1)
          (merge_at type is_delta h i (lookup ℕ_discrete h s.seen) s)

    -- The callback of phase 3; its state is the counter `idx`.
    abbrev pub remove_merged : List (ℕ × Bool) → Point → ℕ → Bool × ℕ
    remove_merged remove point idx = (is_removed idx remove, idx + 1)

    unfoldable pub reaggregate_number_data_points : List Point → MetricType → Bool → List Point
    reaggregate_number_data_points dps type is_delta =
        let hashes = map (λ (p : Point). hash_attributes p.attributes) dps in
        let merged =
          merge_loop type is_delta hashes 0 (record { points = dps; seen = []; remove = [] }) in
        if leb (length dps) 1
        then dps
        else if has_collisions hashes 0 [] false
        then (remove_if ℕ Point (remove_merged merged.remove) merged.points 0).0
        else dps
