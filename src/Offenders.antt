-- ===== src/Offenders.antt =====
-- The report of the fastest growing pairs: collectShardDeltas, sortOffenders and
-- publishTopOffenders of cardinalityprocessor/processor.go.
pub mod Sorting
pub mod TopN
use otel_cardinality_process.Base.{
  ℕ, zero, suc, ◌+◌, ◌-◌, true, false, List, [], ◌∷◌, ◌++◌, ltb, leb, if◌then◌else◌, length, get_or,
  set,
}
use otel_cardinality_process.Base.Int.{ℤ, pos, leb_ℤ, ltb_ℤ, sub_words}
use otel_cardinality_process.Processor.{Processor, Offender, TrackerKey, log, top_offender}
use otel_cardinality_process.Tracker.{Tracker}

abbrev pub no_offender : Offender
no_offender = record { metric_name = ""; label_key = ""; delta = 0 }

-- The loop `for i := 1; ...` of the linear scan: `left` rounds from index `i`.
unfoldable pub scan_min : ℕ → ℕ → ℕ → List Offender → ℕ
scan_min zero i min_idx buf = min_idx
scan_min (suc left) i min_idx buf =
    scan_min left (i + 1)
      (if ltb (get_or buf i no_offender).delta (get_or buf min_idx no_offender).delta
        then i
        else min_idx)
      buf

unfoldable pub min_index : List Offender → ℕ
unfolding scan_min
min_index buf = scan_min (length buf - 1) 1 0 buf

-- One candidate whose delta is positive.
unfoldable pub offer : Offender → List Offender → ℤ → List Offender
offer candidate buf top_n =
    let min_idx = min_index buf in
    if ltb_ℤ (pos (length buf)) top_n
    then buf ++ candidate ∷ []
    else if ltb (get_or buf min_idx no_offender).delta candidate.delta
    then set buf min_idx candidate
    else buf

-- The loop over the entries of a shard, in the order of the snapshot.
unfoldable pub collect_entries :
    {S : Type 0} → List (TrackerKey × Tracker S) → List Offender → ℤ → List Offender
collect_entries [] buf top_n = buf
collect_entries ((key, t) ∷ entries) buf top_n =
    collect_entries entries
      (if leb t.cached_curr t.cached_prev
        then buf
        else offer
            (record {
              metric_name = key.metric_name;
              label_key = key.attr_key;
              delta = sub_words t.cached_curr t.cached_prev;
            })
            buf top_n)
      top_n

unfoldable pub collect_shard_deltas :
    {S : Type 0} → List (TrackerKey × Tracker S) → List Offender → ℤ → List Offender
collect_shard_deltas entries buf top_n =
    if leb_ℤ top_n (pos 0) then buf else collect_entries entries buf top_n

-- The inner loop of the insertion sort, with `k` for `j + 1`: it shifts the smaller elements in
-- front of `k` to the right, and writes `key` where it stops.
unfoldable pub shift : ℕ → Offender → List Offender → List Offender
shift zero key s = set s 0 key
shift (suc j) key s = elim (ltb (get_or s j no_offender).delta key.delta) [
  | true ↦ shift j key (set s (suc j) (get_or s j no_offender))
  | false ↦ set s (suc j) key
]

-- The outer loop: `left` rounds from index `i`.
unfoldable pub sort_from : ℕ → ℕ → List Offender → List Offender
unfolding shift
sort_from zero i s = s
sort_from (suc left) i s = sort_from left (i + 1) (shift i (get_or s i no_offender) s)

unfoldable pub sort_offenders : List Offender → List Offender
unfolding sort_from
sort_offenders s = sort_from (length s - 1) 1 s

unfoldable pub publish_top_offenders : {S : Type 0} → List Offender → Processor S → Processor S
publish_top_offenders [] p = p
publish_top_offenders (o ∷ buf) p =
    let sorted = sort_offenders (o ∷ buf) in
    log (top_offender (get_or sorted 0 no_offender)) (record p { top_offenders = sorted })
