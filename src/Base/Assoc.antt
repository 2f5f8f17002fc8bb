-- ===== src/Base/Assoc.antt =====
-- Go maps as association lists over keys with decidable equality. `IsMap` says that no key occurs
-- twice, which the operations keep.
use Prim.Native.Nat.{suc}
use mathlib.Core.List.{List, [], ◌∷◌, ◌++◌}
use mathlib.Core.Logic.{ite, if_neg, ◌≢◌}
use mathlib.Core.Option.{Option, none, some}
use mathlib.Core.Path.{◌≡◌, refl}
use native.Mathlib.Omega.{arith}
use otel_cardinality_process.Base.Lists.{length}

module _ {ℓ} {K V : Type ℓ} (dec : Discrete K) where
  unfoldable pub lookup : K → List (K × V) → Option V
  lookup k [] = none
  lookup k ((j, v) ∷ m) = ite (dec j k) (some v) (lookup k m)

  unfoldable pub insert : K → V → List (K × V) → List (K × V)
  insert k v [] = (k, v) ∷ []
  insert k v ((j, w) ∷ m) = ite (dec j k) ((j, v) ∷ m) ((j, w) ∷ insert k v m)

  unfoldable pub delete : K → List (K × V) → List (K × V)
  delete k [] = []
  delete k ((j, w) ∷ m) = ite (dec j k) m ((j, w) ∷ delete k m)

  abbrev pub IsMap : List (K × V) → Type ℓ
  IsMap [] = Unit
  IsMap ((j, v) ∷ m) = (lookup j m ≡ none) × IsMap m

  pub lookup-insert :
      (k j : K) (v : V) (m : List (K × V))
      → lookup j (insert k v m) ≡ ite (dec k j) (some v) (lookup j m)
  unfolding lookup insert
  lookup-insert k j v [] = refl
  lookup-insert k j v ((i, w) ∷ m) = ground (arith, lookup-insert k j v m)

  pub insert-IsMap : (k : K) (v : V) (m : List (K × V)) → IsMap m → IsMap (insert k v m)
  unfolding lookup insert
  insert-IsMap k v [] h = (refl, tt)
  insert-IsMap k v ((i, w) ∷ m) h = ground (arith, lookup-insert k i v m, insert-IsMap k v m h.1)

  pub length-insert_new :
      (k : K) (v : V) (m : List (K × V))
      → lookup k m ≡ none
      → length (insert k v m) ≡ suc (length m)
  unfolding lookup insert
  length-insert_new k v [] h = refl
  length-insert_new k v ((i, w) ∷ m) h = ground (arith, length-insert_new k v m)

  pub length-insert_old :
      (k : K) (v : V) {w : V} (m : List (K × V))
      → lookup k m ≡ some w
      → length (insert k v m) ≡ length m
  unfolding lookup insert
  length-insert_old k v [] h = cc
  length-insert_old k v {w} ((i, x) ∷ m) h = ground (arith, length-insert_old k v {w = w} m)

  pub lookup-delete :
      (k j : K) (m : List (K × V))
      → IsMap m
      → lookup j (delete k m) ≡ ite (dec k j) none (lookup j m)
  unfolding lookup delete
  lookup-delete k j [] h = ground arith
  lookup-delete k j ((i, w) ∷ m) h = ground (arith, lookup-delete k j m h.1)

  pub delete-IsMap : (k : K) (m : List (K × V)) → IsMap m → IsMap (delete k m)
  unfolding lookup delete
  delete-IsMap k [] h = tt
  delete-IsMap k ((i, w) ∷ m) h = ground (arith, lookup-delete k i m h.1, delete-IsMap k m h.1)

  pub length-delete :
      (k : K) {w : V} (m : List (K × V))
      → lookup k m ≡ some w
      → suc (length (delete k m)) ≡ length m
  unfolding lookup delete
  length-delete k [] h = cc
  length-delete k {w} ((i, x) ∷ m) h = ground (arith, length-delete k {w = w} m)

  pub insert_new :
      (k : K) (v : V) (m : List (K × V)) → lookup k m ≡ none → insert k v m ≡ m ++ (k, v) ∷ []
  unfolding lookup insert
  insert_new k v [] h = refl
  insert_new k v ((i, w) ∷ m) h = ground (arith, insert_new k v m)

  lookup-append_self :
      (k : K) (v : V) (m rest : List (K × V)) → lookup k (m ++ (k, v) ∷ rest) ≢ none
  unfolding lookup
  lookup-append_self k v [] rest = ground arith
  lookup-append_self k v ((i, w) ∷ m) rest = ground (arith, lookup-append_self k v m rest)

  -- A key behind `m` in a map is not in `m`.
  pub lookup-IsMap_front :
      (k : K) (v : V) (m rest : List (K × V)) → IsMap (m ++ (k, v) ∷ rest) → lookup k m ≡ none
  unfolding lookup
  lookup-IsMap_front k v [] rest h = refl
  lookup-IsMap_front k v ((i, w) ∷ m) rest h = elim (dec i k) [
    | yes e ↦ absurd (lookup-append_self k v m rest (rw e at h.0))
    | no n ↦ rw (if_neg (dec i k) n) (lookup-IsMap_front k v m rest h.1)
  ]
