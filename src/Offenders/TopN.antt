-- ===== src/Offenders/TopN.antt =====
-- The bounded buffer of `collectShardDeltas` of processor.go holds the largest deltas.
use mathlib.Core.List.{Perm, append-nil, append_assoc, perm_middle}
use mathlib.Core.List.Perm
use otel_cardinality_process.Base.{
  ℕ, zero, suc, ◌+◌, ◌-◌, ◌≤◌, ◌<◌, ◌≡◌, refl, ap, subst, ◌∙◌, Bool, true, false, ◌⊎◌, inl, inr,
  List, [], ◌∷◌, ◌++◌, arith, ltb, leb, ltb→lt, ℕ_discrete, if◌then◌else◌, length, get_or, set, All,
  All-set, Bool-cases, length-append, length-set,
}
use otel_cardinality_process.Base.Int.{pos, sub_words_above}
use otel_cardinality_process.Offenders.{
  no_offender, scan_min, min_index, offer, collect_entries, collect_shard_deltas,
}
use otel_cardinality_process.Processor.{Offender, TrackerKey}
use otel_cardinality_process.Tracker.{Tracker}

abbrev at : List Offender → ℕ → ℕ
at buf i = (get_or buf i no_offender).delta

-- Position `m` holds a least delta among the first `i`.
abbrev IsLeast : List Offender → ℕ → ℕ → Type 0
IsLeast buf i m = (m < i) × ((j : ℕ) → j < i → at buf m ≤ at buf j)

IsLeast-next :
    (buf : List Offender) (i m : ℕ)
    → IsLeast buf i m
    → IsLeast buf (i + 1) (if ltb (at buf i) (at buf m) then i else m)
IsLeast-next buf i m (h, least) = chosen (ltb (at buf i) (at buf m)) refl
  where
    chosen : (b : Bool) → ltb (at buf i) (at buf m) ≡ b → IsLeast buf (i + 1) (if b then i else m)
    chosen true e =
        let less = ltb→lt (at buf i) (at buf m) e in
        (
          omega arith,
          λ j b. elim (ℕ_discrete j i) [
            | yes p ↦ omega (arith, ap (at buf) p)
            | no n ↦ omega (arith, less, least j (omega (arith, b, n)))
          ],
        )
    chosen false e =
        let more : at buf m ≤ at buf i = ground arith in
        (
          omega (arith, h),
          λ j b. elim (ℕ_discrete j i) [
            | yes p ↦ omega (arith, ap (at buf) p, more)
            | no n ↦ least j (omega (arith, b, n))
          ],
        )

scan_min-IsLeast :
    (left i m n : ℕ) (buf : List Offender)
    → i + left ≡ n
    → IsLeast buf i m
    → IsLeast buf n (scan_min left i m buf)
unfolding scan_min
scan_min-IsLeast zero i m n buf e h =
    let same : i ≡ n = omega (arith, e) in subst (λ k. IsLeast buf k m) same h
scan_min-IsLeast (suc left) i m n buf e h =
    scan_min-IsLeast left (i + 1) (if ltb (at buf i) (at buf m) then i else m) n buf
      (omega (arith, e)) (IsLeast-next buf i m h)

-- The linear scan finds a position of a least delta.
min_index-IsLeast :
    (buf : List Offender) → 0 < length buf → IsLeast buf (length buf) (min_index buf)
unfolding min_index
min_index-IsLeast buf h =
    scan_min-IsLeast (length buf - 1) 1 0 (length buf) buf (omega (arith, h))
      (omega arith, λ j b. omega (arith, ap (at buf) (zero_only j b)))
  where
    zero_only : (j : ℕ) → j < 1 → 0 ≡ j
    zero_only j b = omega (arith, b)

All-of_at :
    (n : ℕ) (buf : List Offender)
    → ((j : ℕ) → j < length buf → n ≤ at buf j)
    → All (λ (z : Offender). n ≤ z.delta) buf
All-of_at n [] h = tt
All-of_at n (z ∷ buf) h = (h 0 (omega arith), All-of_at n buf (λ j b. h (suc j) (omega (arith, b))))

-- The element that a write takes out.
set-Perm :
    (buf : List Offender) (m : ℕ) (c : Offender)
    → m < length buf
    → Perm (get_or buf m no_offender ∷ set buf m c) (c ∷ buf)
set-Perm [] m c h = absurd (omega (arith, h))
set-Perm (x ∷ buf) zero c h = Perm.swap c x buf
set-Perm (x ∷ buf) (suc m) c h =
    Perm.trans (Perm.swap x (get_or buf m no_offender) (set buf m c))
      (Perm.trans (Perm.cons x (set-Perm buf m c (omega (arith, h)))) (Perm.swap c x buf))

-- The candidates of a snapshot, in its order.
abbrev pub candidates : {S : Type 0} → List (TrackerKey × Tracker S) → List Offender
candidates [] = []
candidates ((key, t) ∷ entries) =
    if leb t.cached_curr t.cached_prev
    then candidates entries
    else record {
      metric_name = key.metric_name;
      label_key = key.attr_key;
      delta = t.cached_curr - t.cached_prev;
    }
      ∷ candidates entries

-- Every one of `out` is at most as large as every one of `buf`.
abbrev pub Dominates : List Offender → List Offender → Type 0
Dominates buf out = All (λ (d : Offender). All (λ (z : Offender). d.delta ≤ z.delta) buf) out

-- `buf` holds `n` largest of `seen`, or all of them if there are fewer; `out` are the others.
pub record Holds (n : ℕ) (seen buf : List Offender) : Type 0 where
  pub out : List Offender
  pub parts : Perm (buf ++ out) seen
  pub largest : Dominates buf out
  pub bounded : length buf ≤ n
  pub full : (length out ≡ 0) ⊎ (length buf ≡ n)

Dominates-empty : (buf out : List Offender) → length out ≡ 0 → Dominates buf out
Dominates-empty buf [] e = tt
Dominates-empty buf (d ∷ out) e = absurd (omega (arith, e))

All-at :
    (n m : ℕ) (buf : List Offender)
    → All (λ (z : Offender). n ≤ z.delta) buf
    → m < length buf
    → n ≤ at buf m
All-at n m [] a h = absurd (omega (arith, h))
All-at n zero (z ∷ buf) a h = a.0
All-at n (suc m) (z ∷ buf) a h = All-at n m buf a.1 (omega (arith, h))

Dominates-set :
    (buf out : List Offender) (m : ℕ) (c : Offender)
    → m < length buf
    → at buf m ≤ c.delta
    → Dominates buf out
    → Dominates (set buf m c) out
Dominates-set buf [] m c h less a = tt
Dominates-set buf (d ∷ out) m c h less a = (
  All-set (λ (z : Offender). d.delta ≤ z.delta) buf m c a.0
      (omega (arith, All-at d.delta m buf a.0 h, less)),
  Dominates-set buf out m c h less a.1,
)

module _ (n : ℕ) (seen buf : List Offender) (c : Offender) (some_room : 0 < n)
    (h : Holds n seen buf) where
  append-Holds : length buf < n → Holds n (c ∷ seen) (buf ++ c ∷ [])
  append-Holds room = record {
    out = h.out;
    parts =
        rw (append_assoc buf (c ∷ []) h.out)
          (Perm.trans (perm_middle buf h.out) (Perm.cons c h.parts));
    largest = Dominates-empty (buf ++ c ∷ []) h.out none_out;
    bounded = omega (arith, length-append buf (c ∷ []), room);
    full = inl none_out;
  }
    where
      none_out : length h.out ≡ 0
      none_out = elim h.full [ inl e ↦ e | inr e ↦ absurd (omega (arith, e, room)) ]

  module _ (no_room : length buf ≡ n) where
    least : IsLeast buf (length buf) (min_index buf)
    least = min_index-IsLeast buf (omega (arith, some_room, no_room))

    replace-Holds :
        at buf (min_index buf) ≤ c.delta → Holds n (c ∷ seen) (set buf (min_index buf) c)
    replace-Holds less = record {
      out = get_or buf (min_index buf) no_offender ∷ h.out;
      parts = Perm.trans (perm_middle (set buf (min_index buf) c) h.out) (
          Perm.trans (Perm.append_right h.out (set-Perm buf (min_index buf) c least.0))
            (Perm.cons c h.parts));
      largest = (
        All-set (λ (z : Offender). at buf (min_index buf) ≤ z.delta) buf (min_index buf) c
            (All-of_at (at buf (min_index buf)) buf least.1) less,
        Dominates-set buf h.out (min_index buf) c least.0 less h.largest,
      );
      bounded = omega (arith, length-set buf (min_index buf) c, no_room);
      full = inr (length-set buf (min_index buf) c ∙ no_room);
    }

    refuse-Holds : c.delta ≤ at buf (min_index buf) → Holds n (c ∷ seen) buf
    refuse-Holds more = record {
      out = c ∷ h.out;
      parts = Perm.trans (perm_middle buf h.out) (Perm.cons c h.parts);
      largest = (All-of_at c.delta buf (λ j b. omega (arith, more, least.1 j b)), h.largest);
      bounded = h.bounded;
      full = inr no_room;
    }

  offer-Holds : Holds n (c ∷ seen) (offer c buf (pos n))
  unfolding offer
  offer-Holds = elim (Bool-cases (ltb (length buf) n)) [
    | inl room ↦ rw room (append-Holds (ltb→lt (length buf) n room))
    | inr no_room ↦
        let same : length buf ≡ n = let b = h.bounded in ground arith in
        elim (Bool-cases (ltb (at buf (min_index buf)) c.delta)) [
          | inl less ↦
              let l = ltb→lt (at buf (min_index buf)) c.delta less in
              rw (no_room, less) (replace-Holds same (omega (arith, l)))
          | inr more ↦
              let m : c.delta ≤ at buf (min_index buf) = ground arith in
              rw (no_room, more) (refuse-Holds same m)
        ]
  ]

Holds-Perm : (n : ℕ) (a b buf : List Offender) → Perm a b → Holds n a buf → Holds n b buf
Holds-Perm n a b buf p h = record {
  out = h.out;
  parts = Perm.trans h.parts p;
  largest = h.largest;
  bounded = h.bounded;
  full = h.full;
}

collect-Holds :
    {S : Type 0} (n : ℕ) (entries : List (TrackerKey × Tracker S)) (seen buf : List Offender)
    → 0 < n
    → Holds n seen buf
    → Holds n (seen ++ candidates entries) (collect_entries entries buf (pos n))
unfolding collect_entries
collect-Holds n [] seen buf some_room h = rw (append-nil seen) h
collect-Holds n ((key, t) ∷ entries) seen buf some_room h =
    elim (Bool-cases (leb t.cached_curr t.cached_prev)) [
      | inl e ↦ rw e (collect-Holds n entries seen buf some_room h)
      | inr e ↦
          let c : Offender = record {
            metric_name = key.metric_name;
            label_key = key.attr_key;
            delta = t.cached_curr - t.cached_prev;
          } in
          rw (sub_words_above t.cached_curr t.cached_prev e, e)
            (Holds-Perm n (c ∷ seen ++ candidates entries) (seen ++ c ∷ candidates entries) _
              (Perm.symm (perm_middle seen (candidates entries)))
              (collect-Holds n entries (c ∷ seen) (offer c buf (pos n)) some_room
                (offer-Holds n seen buf c some_room h)))
    ]

-- With a positive bound `n`, the buffer that held `n` largest of the pairs seen before (or all, if
-- they are fewer) holds them for these and the grown pairs of the shard; a pair that is left out is
-- no larger than any that is kept.
pub collect_shard_deltas-Holds :
    {S : Type 0} (n : ℕ) (entries : List (TrackerKey × Tracker S)) (seen buf : List Offender)
    → 0 < n
    → Holds n seen buf
    → Holds n (seen ++ candidates entries) (collect_shard_deltas entries buf (pos n))
unfolding collect_shard_deltas
collect_shard_deltas-Holds n entries seen buf some_room h =
    let positive : leb n 0 ≡ false = ground arith in
    rw positive (collect-Holds n entries seen buf some_room h)
