-- ===== src/Reaggregate/Seen.antt =====
-- The maps of reaggregation.go that phase 1 and phase 3 read: the seen hashes and the indices to
-- remove.
use otel_cardinality_process.Base.{
  ℕ, suc, ◌+◌, ◌≡◌, refl, ap, ◌∙◌, Bool, true, false, inl, inr, none, some, List, [], ◌∷◌, arith,
  ite, ℕ_discrete, Option-cases,
}
use otel_cardinality_process.Base.Assoc.{lookup, insert, lookup-insert}
use otel_cardinality_process.Reaggregate.{has_collisions, is_removed}

pub read_flag-insert :
    (i j : ℕ) (remove : List (ℕ × Bool))
    → is_removed j (insert ℕ_discrete i true remove)
      ≡ ite (ℕ_discrete i j) true (is_removed j remove)
read_flag-insert i j remove = rw (lookup-insert ℕ_discrete i j true remove) (ground arith)

pub flag_here :
    (remove : List (ℕ × Bool)) (idx : ℕ) {f : ℕ → Bool}
    → ((j : ℕ) → is_removed (idx + j) remove ≡ f j)
    → is_removed idx remove ≡ f 0
flag_here remove idx {f} h =
    let same : idx ≡ idx + 0 = omega arith in ap (λ j. is_removed j remove) same ∙ h 0

pub zero_first :
    (remove : List (ℕ × Bool)) (j : ℕ) → is_removed (0 + j) remove ≡ is_removed j remove
zero_first remove j = let same : 0 + j ≡ j = omega arith in ap (λ k. is_removed k remove) same

pub flag_next :
    (remove : List (ℕ × Bool)) (idx j : ℕ)
    → is_removed (idx + 1 + j) remove ≡ is_removed (idx + suc j) remove
flag_next remove idx j =
    let same : idx + 1 + j ≡ idx + suc j = omega arith in ap (λ k. is_removed k remove) same

pub found_stays : (hs : List ℕ) (i : ℕ) (seen : List (ℕ × ℕ)) → has_collisions hs i seen true ≡ true
unfolding has_collisions
found_stays [] i seen = refl
found_stays (h ∷ hs) i seen = elim (Option-cases (lookup ℕ_discrete h seen)) [
  | inl e ↦ rw (e, has_collisions) (found_stays hs (i + 1) (insert ℕ_discrete h i seen))
  | inr (l, e) ↦ rw (e, has_collisions) (found_stays hs (i + 1) seen)
]

pub collision_found :
    (hs : List ℕ) (i h l : ℕ) (seen : List (ℕ × ℕ))
    → lookup ℕ_discrete h seen ≡ some l
    → has_collisions (h ∷ hs) i seen false ≡ true
unfolding has_collisions
collision_found hs i h l seen e = rw (e, has_collisions) (found_stays hs (i + 1) seen)

pub collision_next :
    (hs : List ℕ) (i h : ℕ) (seen : List (ℕ × ℕ))
    → lookup ℕ_discrete h seen ≡ none
    → has_collisions (h ∷ hs) i seen false
      ≡ has_collisions hs (i + 1) (insert ℕ_discrete h i seen) false
unfolding has_collisions
collision_next hs i h seen e = rw (e, has_collisions)

pub missing_after :
    {A : Type 0} (k j i : ℕ) (p : A) (seen : List (ℕ × ℕ)) (groups : List (ℕ × A))
    → (lookup ℕ_discrete j seen ≡ none → lookup ℕ_discrete j groups ≡ none)
    → lookup ℕ_discrete j (insert ℕ_discrete k i seen) ≡ none
    → lookup ℕ_discrete j (insert ℕ_discrete k p groups) ≡ none
missing_after k j i p seen groups h m =
    ground (arith, lookup-insert ℕ_discrete k j i seen, lookup-insert ℕ_discrete k j p groups)
