-- ===== src/Reaggregate/Slots.antt =====
-- The array of phase 2 of reaggregation.go seen as slots: a point's identity hash, whether it is
-- merged into its leader, and the point.
use otel_cardinality_process.Base.{
  ℕ, zero, suc, ◌<◌, ◌≡◌, refl, ap, Bool, true, false, Option, none, some, List, [], ◌∷◌, ◌++◌,
  arith, ite, length, get_or, set, ℕ_discrete,
}
use otel_cardinality_process.Base.Assoc.{lookup, insert}

abbrev pub up : Option ℕ → Option ℕ
up none = none
up (some i) = some (suc i)

abbrev pub or_else : Option ℕ → Option ℕ → Option ℕ
or_else none o = o
or_else (some i) o = some i

module _ {A : Type 0} where
  -- The index of the leader of an identity.
  abbrev pub position : ℕ → List (ℕ × Bool × A) → Option ℕ
  position h [] = none
  position h ((k, true, p) ∷ es) = up (position h es)
  position h ((k, false, p) ∷ es) = ite (ℕ_discrete k h) (some 0) (up (position h es))

  -- The leaders by identity, in order.
  abbrev pub alive : List (ℕ × Bool × A) → List (ℕ × A)
  alive [] = []
  alive ((k, true, p) ∷ es) = alive es
  alive ((k, false, p) ∷ es) = (k, p) ∷ alive es

  abbrev pub points_of : List (ℕ × Bool × A) → List A
  points_of [] = []
  points_of ((k, b, p) ∷ es) = p ∷ points_of es

  abbrev pub flag : List (ℕ × Bool × A) → ℕ → Bool
  flag [] j = false
  flag ((k, b, p) ∷ es) zero = b
  flag ((k, b, p) ∷ es) (suc j) = flag es j

  abbrev pub put_slot : List (ℕ × Bool × A) → ℕ → A → List (ℕ × Bool × A)
  put_slot [] j x = []
  put_slot ((k, b, p) ∷ es) zero x = (k, b, x) ∷ es
  put_slot ((k, b, p) ∷ es) (suc j) x = (k, b, p) ∷ put_slot es j x

module _ {A : Type 0} where
  pub lookup-alive-none :
      (h : ℕ) (es : List (ℕ × Bool × A))
      → position h es ≡ none
      → lookup ℕ_discrete h (alive es) ≡ none
  unfolding lookup
  lookup-alive-none h [] e = refl
  lookup-alive-none h ((k, true, p) ∷ es) e = lookup-alive-none h es (ground arith)
  lookup-alive-none h ((k, false, p) ∷ es) e = ground (arith, lookup-alive-none h es)

  pub lookup-alive-some :
      (h : ℕ) (es : List (ℕ × Bool × A)) (l : ℕ) (d : A)
      → position h es ≡ some l
      → lookup ℕ_discrete h (alive es) ≡ some (get_or (points_of es) l d)
  unfolding lookup
  lookup-alive-some h [] l d e = cc
  lookup-alive-some h ((k, true, p) ∷ es) zero d e = ground arith
  lookup-alive-some h ((k, true, p) ∷ es) (suc l) d e = lookup-alive-some h es l d (ground arith)
  lookup-alive-some h ((k, false, p) ∷ es) zero d e = ground arith
  lookup-alive-some h ((k, false, p) ∷ es) (suc l) d e = ground (arith, lookup-alive-some h es l d)

  pub insert-alive :
      (h : ℕ) (es : List (ℕ × Bool × A)) (l : ℕ) (x : A)
      → position h es ≡ some l
      → insert ℕ_discrete h x (alive es) ≡ alive (put_slot es l x)
  unfolding insert
  insert-alive h [] l x e = cc
  insert-alive h ((k, true, p) ∷ es) zero x e = ground arith
  insert-alive h ((k, true, p) ∷ es) (suc l) x e = insert-alive h es l x (ground arith)
  insert-alive h ((k, false, p) ∷ es) zero x e = ground arith
  insert-alive h ((k, false, p) ∷ es) (suc l) x e = ground (arith, insert-alive h es l x)

  pub position-lt :
      (h : ℕ) (es : List (ℕ × Bool × A)) (l : ℕ) → position h es ≡ some l → l < length es
  position-lt h [] l e = cc
  position-lt h ((k, b, p) ∷ es) zero e = omega arith
  position-lt h ((k, true, p) ∷ es) (suc l) e = omega (arith, position-lt h es l (ground arith))
  position-lt h ((k, false, p) ∷ es) (suc l) e = ground (arith, position-lt h es l)

  pub points_of-put_slot :
      (es : List (ℕ × Bool × A)) (l : ℕ) (x : A)
      → points_of (put_slot es l x) ≡ set (points_of es) l x
  points_of-put_slot [] l x = refl
  points_of-put_slot ((k, b, p) ∷ es) zero x = refl
  points_of-put_slot ((k, b, p) ∷ es) (suc l) x = ap (◌∷◌ p) (points_of-put_slot es l x)

  pub position-put_slot :
      (h : ℕ) (es : List (ℕ × Bool × A)) (l : ℕ) (x : A)
      → position h (put_slot es l x) ≡ position h es
  position-put_slot h [] l x = refl
  position-put_slot h ((k, true, p) ∷ es) zero x = refl
  position-put_slot h ((k, false, p) ∷ es) zero x = refl
  position-put_slot h ((k, true, p) ∷ es) (suc l) x = rw (position-put_slot h es l x)
  position-put_slot h ((k, false, p) ∷ es) (suc l) x = rw (position-put_slot h es l x)

  pub flag-put_slot :
      (es : List (ℕ × Bool × A)) (l j : ℕ) (x : A) → flag (put_slot es l x) j ≡ flag es j
  flag-put_slot [] l j x = refl
  flag-put_slot ((k, b, p) ∷ es) zero zero x = refl
  flag-put_slot ((k, b, p) ∷ es) zero (suc j) x = refl
  flag-put_slot ((k, b, p) ∷ es) (suc l) zero x = refl
  flag-put_slot ((k, b, p) ∷ es) (suc l) (suc j) x = flag-put_slot es l j x

  pub length-put_slot :
      (es : List (ℕ × Bool × A)) (l : ℕ) (x : A) → length (put_slot es l x) ≡ length es
  length-put_slot [] l x = refl
  length-put_slot ((k, b, p) ∷ es) zero x = refl
  length-put_slot ((k, b, p) ∷ es) (suc l) x = ap suc (length-put_slot es l x)

  pub length-points_of : (es : List (ℕ × Bool × A)) → length (points_of es) ≡ length es
  length-points_of [] = refl
  length-points_of ((k, b, p) ∷ es) = ap suc (length-points_of es)

  -- A slot added at the end.
  pub position-snoc_merged :
      (h k : ℕ) (es : List (ℕ × Bool × A)) (p : A)
      → position h (es ++ (k, true, p) ∷ []) ≡ position h es
  position-snoc_merged h k [] p = refl
  position-snoc_merged h k ((j, true, q) ∷ es) p = rw (position-snoc_merged h k es p)
  position-snoc_merged h k ((j, false, q) ∷ es) p = rw (position-snoc_merged h k es p)

  pub position-snoc_leader :
      (h k : ℕ) (es : List (ℕ × Bool × A)) (p : A)
      → position h (es ++ (k, false, p) ∷ [])
        ≡ or_else (position h es) (ite (ℕ_discrete k h) (some (length es)) none)
  position-snoc_leader h k [] p = refl
  position-snoc_leader h k ((j, true, q) ∷ es) p = ground (arith, position-snoc_leader h k es p)
  position-snoc_leader h k ((j, false, q) ∷ es) p = ground (arith, position-snoc_leader h k es p)

  pub alive-append : (es fs : List (ℕ × Bool × A)) → alive (es ++ fs) ≡ alive es ++ alive fs
  alive-append [] fs = refl
  alive-append ((k, true, p) ∷ es) fs = alive-append es fs
  alive-append ((k, false, p) ∷ es) fs = ap (◌∷◌ (k, p)) (alive-append es fs)

  pub points_of-append :
      (es fs : List (ℕ × Bool × A)) → points_of (es ++ fs) ≡ points_of es ++ points_of fs
  points_of-append [] fs = refl
  points_of-append ((k, b, p) ∷ es) fs = ap (◌∷◌ p) (points_of-append es fs)

  pub flag-snoc :
      (es : List (ℕ × Bool × A)) (k : ℕ) (b : Bool) (p : A) (j : ℕ)
      → flag (es ++ (k, b, p) ∷ []) j ≡ ite (ℕ_discrete (length es) j) b (flag es j)
  flag-snoc [] k b p zero = ground arith
  flag-snoc [] k b p (suc j) = ground arith
  flag-snoc ((i, c, q) ∷ es) k b p zero = ground arith
  flag-snoc ((i, c, q) ∷ es) k b p (suc j) = ground (arith, flag-snoc es k b p j)

  pub flag-snoc_leader :
      (es : List (ℕ × Bool × A)) (k : ℕ) (p : A) (j : ℕ)
      → flag (es ++ (k, false, p) ∷ []) j ≡ flag es j
  flag-snoc_leader [] k p zero = refl
  flag-snoc_leader [] k p (suc j) = refl
  flag-snoc_leader ((i, c, q) ∷ es) k p zero = refl
  flag-snoc_leader ((i, c, q) ∷ es) k p (suc j) = flag-snoc_leader es k p j
