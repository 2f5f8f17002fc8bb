-- ===== src/Rotation/Maps.antt =====
-- The map of one shard under the two loops of `rotate` in processor.go: the rotation of its
-- trackers and the eviction of the stale ones.
use otel_cardinality_process.Base.{
  ℕ, ◌+◌, ◌%◌, ◌≤◌, ◌≡◌, refl, sym, ap, ◌∙◌, Bool, true, false, Option, none, some, List, [], ◌∷◌,
  ◌++◌, if◌then◌else◌, length, arith, ite, if_pos, if_neg,
}
use mathlib.Core.List.{append-nil, append_assoc}
use otel_cardinality_process.Base.Assoc.{
  lookup, insert, delete, IsMap, lookup-insert, insert-IsMap, length-insert_old, lookup-delete,
  delete-IsMap, length-delete,
}
use otel_cardinality_process.Base.Int.{sub64, u64_mod}
use otel_cardinality_process.External.{Env}
use otel_cardinality_process.Processor.{Shard, TrackerKey, key_discrete}
use otel_cardinality_process.Rotation.{advance, rotate_entries, evict}
use otel_cardinality_process.Tracker.{Tracker}

abbrev pub has_key : TrackerKey → List TrackerKey → Bool
has_key k [] = false
has_key k (j ∷ js) = ite (key_discrete j k) true (has_key k js)

abbrev pub Distinct : List TrackerKey → Type 0
Distinct [] = Unit
Distinct (k ∷ ks) = (has_key k ks ≡ false) × Distinct ks

module _ (env : Env) where
  open env use {Sketch}

  -- Every key of `es` is a key of `shard`.
  abbrev pub Covers : Shard Sketch → Shard Sketch → Type 0
  Covers shard es =
      (k : TrackerKey) (t : Tracker Sketch)
      → lookup key_discrete k es ≡ some t
      → (u : Tracker Sketch) × (lookup key_discrete k shard ≡ some u)

  -- The two results of `rotate_entries`.
  abbrev pub rotated : Shard Sketch → Shard Sketch → Shard Sketch
  rotated [] shard = shard
  rotated ((k, t) ∷ es) shard = rotated es (insert key_discrete k (advance env t).0 shard)

  abbrev pub stale_keys : Shard Sketch → List TrackerKey
  stale_keys [] = []
  stale_keys ((k, t) ∷ es) = if (advance env t).1 then k ∷ stale_keys es else stale_keys es

  pub rotate_entries_lem :
      (es shard : Shard Sketch) (stale : List TrackerKey)
      → rotate_entries env es shard stale ≡ (rotated es shard, stale ++ stale_keys es)
  unfolding rotate_entries
  rotate_entries_lem [] shard stale = ap (λ l. (shard, l)) (sym (append-nil stale))
  rotate_entries_lem ((k, t) ∷ es) shard stale =
      rotate_entries_lem es (insert key_discrete k (advance env t).0 shard)
        (if (advance env t).1 then stale ++ k ∷ [] else stale)
      ∙ ap (λ l. (rotated es (insert key_discrete k (advance env t).0 shard), l))
          (collected (advance env t).1)
    where
      collected :
          (b : Bool)
          → (if b then stale ++ k ∷ [] else stale) ++ stale_keys es
            ≡ stale ++ (if b then k ∷ stale_keys es else stale_keys es)
      collected true = append_assoc stale (k ∷ []) (stale_keys es)
      collected false = refl

  -- What the rotation makes of the tracker that a key has.
  abbrev pub updated : Option (Tracker Sketch) → Option (Tracker Sketch) → Option (Tracker Sketch)
  updated (some t) old = some (advance env t).0
  updated none old = old

  abbrev pub stale : Option (Tracker Sketch) → Bool
  stale (some t) = (advance env t).1
  stale none = false

  pub lookup-rotated :
      (es shard : Shard Sketch) (k : TrackerKey)
      → IsMap key_discrete es
      → lookup key_discrete k (rotated es shard)
        ≡ updated (lookup key_discrete k es) (lookup key_discrete k shard)
  unfolding lookup
  lookup-rotated [] shard k m = refl
  lookup-rotated ((j, t) ∷ es) shard k m =
      lookup-rotated es (insert key_discrete j (advance env t).0 shard) k m.1
      ∙ rw (lookup-insert key_discrete j k (advance env t).0 shard) (first (key_discrete j k))
    where
      first :
          (d : Dec (j ≡ k))
          → updated
              (lookup key_discrete k es)
              (ite d (some (advance env t).0) (lookup key_discrete k shard))
            ≡ updated (ite d (some t) (lookup key_discrete k es)) (lookup key_discrete k shard)
      first (yes e) = rw (← e, m.0)
      first (no n) = refl

  pub rotated-IsMap :
      (es shard : Shard Sketch) → IsMap key_discrete shard → IsMap key_discrete (rotated es shard)
  rotated-IsMap [] shard m = m
  rotated-IsMap ((j, t) ∷ es) shard m =
      rotated-IsMap es (insert key_discrete j (advance env t).0 shard)
        (insert-IsMap key_discrete j _ shard m)

  pub has_key-stale_keys :
      (es : Shard Sketch) (k : TrackerKey)
      → IsMap key_discrete es
      → has_key k (stale_keys es) ≡ stale (lookup key_discrete k es)
  unfolding lookup
  has_key-stale_keys [] k m = refl
  has_key-stale_keys ((j, t) ∷ es) k m =
      cases (has_key-stale_keys es k m.1) (advance env t).1 refl (key_discrete j k)
    where
      cases :
          has_key k (stale_keys es) ≡ stale (lookup key_discrete k es)
          → (b : Bool) → (advance env t).1 ≡ b
          → (d : Dec (j ≡ k))
          → has_key k (if b then j ∷ stale_keys es else stale_keys es)
            ≡ stale (ite d (some t) (lookup key_discrete k es))
      cases ih true e (yes p) = rw e (if_pos (key_discrete j k) p true (has_key k (stale_keys es)))
      cases ih true e (no n) = if_neg (key_discrete j k) n true (has_key k (stale_keys es)) ∙ ih
      cases ih false e (yes p) =
          let gone : lookup key_discrete k es ≡ none = rw (← p) m.0 in ih ∙ ap stale gone ∙ sym e
      cases ih false e (no n) = ih

  pub stale_keys-Distinct : (es : Shard Sketch) → IsMap key_discrete es → Distinct (stale_keys es)
  stale_keys-Distinct [] m = tt
  stale_keys-Distinct ((j, t) ∷ es) m = kept (stale_keys-Distinct es m.1) (advance env t).1
    where
      kept :
          Distinct (stale_keys es)
          → (b : Bool) → Distinct (if b then j ∷ stale_keys es else stale_keys es)
      kept ih true = (has_key-stale_keys es j m.1 ∙ ap stale m.0, ih)
      kept ih false = ih

  insert_stays :
      (shard : Shard Sketch) (j k : TrackerKey) (v : Tracker Sketch)
      → (u : Tracker Sketch) × (lookup key_discrete k shard ≡ some u)
      → (u : Tracker Sketch) × (lookup key_discrete k (insert key_discrete j v shard) ≡ some u)
  insert_stays shard j k v (u, e) = elim (key_discrete j k) [
    | yes p ↦ (v, lookup-insert key_discrete j k v shard ∙ if_pos (key_discrete j k) p _ _)
    | no n ↦ (u, lookup-insert key_discrete j k v shard ∙ if_neg (key_discrete j k) n _ _ ∙ e)
  ]

  Covers-tail :
      (shard es : Shard Sketch) (j : TrackerKey) (t : Tracker Sketch)
      → Covers shard ((j, t) ∷ es)
      → Covers shard es
  unfolding lookup
  Covers-tail shard es j t c k u e = elim (key_discrete j k) [
    | yes p ↦ c k t (if_pos (key_discrete j k) p _ _)
    | no n ↦ c k u (if_neg (key_discrete j k) n _ _ ∙ e)
  ]

  -- The rotation changes no key.
  pub length-rotated :
      (es shard : Shard Sketch)
      → IsMap key_discrete es
      → Covers shard es
      → length (rotated es shard) ≡ length shard
  unfolding lookup
  length-rotated [] shard m c = refl
  length-rotated ((j, t) ∷ es) shard m c =
      let here = c j t (if_pos (key_discrete j j) refl _ _) in
      length-rotated es (insert key_discrete j (advance env t).0 shard) m.1
        (λ k u e. insert_stays shard j k (advance env t).0 (Covers-tail shard es j t c k u e))
      ∙ length-insert_old key_discrete j (advance env t).0 {w = here.0} shard here.1

  -- Every key of `ks` is a key of `shard`.
  abbrev pub Present : Shard Sketch → List TrackerKey → Type 0
  Present shard ks =
      (k : TrackerKey)
      → has_key k ks ≡ true
      → (u : Tracker Sketch) × (lookup key_discrete k shard ≡ some u)

  pub lookup-evict :
      (ks : List TrackerKey) (shard : Shard Sketch) (count : ℕ) (k : TrackerKey)
      → IsMap key_discrete shard
      → lookup key_discrete k (evict env ks shard count).0
        ≡ (if has_key k ks then none else lookup key_discrete k shard)
  unfolding evict
  lookup-evict [] shard count k m = refl
  lookup-evict (j ∷ ks) shard count k m =
      lookup-evict ks (delete key_discrete j shard) (sub64 count 1) k
        (delete-IsMap key_discrete j shard m)
      ∙ rw (lookup-delete key_discrete j k shard m) (ground arith)

  pub evict-IsMap :
      (ks : List TrackerKey) (shard : Shard Sketch) (count : ℕ)
      → IsMap key_discrete shard
      → IsMap key_discrete (evict env ks shard count).0
  unfolding evict
  evict-IsMap [] shard count m = m
  evict-IsMap (j ∷ ks) shard count m =
      evict-IsMap ks (delete key_discrete j shard) (sub64 count 1)
        (delete-IsMap key_discrete j shard m)

  Present-rest :
      (j : TrackerKey) (ks : List TrackerKey) (shard : Shard Sketch)
      → IsMap key_discrete shard
      → Distinct (j ∷ ks)
      → Present shard (j ∷ ks)
      → Present (delete key_discrete j shard) ks
  Present-rest j ks shard m d h k e = elim (key_discrete j k) [
    | yes p ↦
        let clash : has_key j ks ≡ true = rw p e in let no_more : has_key j ks ≡ false = d.0 in cc
    | no n ↦
        let here = h k (if_neg (key_discrete j k) n true (has_key k ks) ∙ e) in
        (here.0, lookup-delete key_discrete j k shard m ∙ if_neg (key_discrete j k) n _ _ ∙ here.1)
  ]

  -- The counter goes down by one for each tracker that the map loses; `others` is the number of
  -- trackers elsewhere.
  pub evict-counted :
      (ks : List TrackerKey) (shard : Shard Sketch) (count others : ℕ)
      → IsMap key_discrete shard
      → Distinct ks
      → Present shard ks
      → count ≡ (others + length shard) % u64_mod
      → ((evict env ks shard count).1 ≡ (others + length (evict env ks shard count).0) % u64_mod)
        × (length (evict env ks shard count).0 ≤ length shard)
  unfolding evict
  evict-counted [] shard count others m d h e = (e, omega arith)
  evict-counted (j ∷ ks) shard count others m d h e =
      let here = h j (if_pos (key_discrete j j) refl _ _) in
      let gone = length-delete key_discrete j {w = here.0} shard here.1 in
      let rest =
        evict-counted ks (delete key_discrete j shard) (sub64 count 1) others
          (delete-IsMap key_discrete j shard m) d.1 (Present-rest j ks shard m d h)
          (omega (arith, e, gone)) in
      (rest.0, omega (arith, rest.1, gone))
