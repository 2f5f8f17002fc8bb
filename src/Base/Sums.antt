-- ===== src/Base/Sums.antt =====
-- Sums over a list by a weight, sums below a bound, and arrays as functions.
use Prim.Native.Nat.{ℕ, zero, suc, ◌+◌, ◌≤◌, ◌<◌}
use mathlib.Core.Path.{◌≡◌, refl, ap}
use mathlib.Core.Logic.{◌≢◌, ite}
use mathlib.Core.List.{List, [], ◌∷◌}
use native.Mathlib.Decide.{ℕ_discrete}
use native.Mathlib.Omega.{arith}
use otel_cardinality_process.Base.Lists.{length, get_or, set}

-- A write to an array.
abbrev pub assign {ℓ} : {A : Type ℓ} → (ℕ → A) → ℕ → A → ℕ → A
assign f i a j = ite (ℕ_discrete i j) a (f j)

-- Shut, so that a sum over 256 shards is not written out.
pub sum_below : ℕ → (ℕ → ℕ) → ℕ
sum_below zero f = 0
sum_below (suc n) f = sum_below n f + f n

-- The two sums differ at most at `s`.
pub sum_below-change :
    (n s : ℕ) (f g : ℕ → ℕ)
    → s < n
    → ((i : ℕ) → i ≢ s → f i ≡ g i)
    → sum_below n f + g s ≡ sum_below n g + f s
unfolding sum_below
sum_below-change zero s f g h same = absurd (omega (arith, h))
sum_below-change (suc n) s f g h same = elim (ℕ_discrete n s) [
  | yes e ↦ omega (arith, sum_below-same n s f g (omega (arith, e)) same, ap f e, ap g e)
  | no other ↦ omega (arith, sum_below-change n s f g (omega (arith, h, other)) same, same n other)
]
  where
    sum_below-same :
        (n s : ℕ) (f g : ℕ → ℕ)
        → n ≤ s
        → ((i : ℕ) → i ≢ s → f i ≡ g i)
        → sum_below n f ≡ sum_below n g
    sum_below-same zero s f g h same = refl
    sum_below-same (suc n) s f g h same =
        omega
          (arith, sum_below-same n s f g (omega (arith, h)) same, same n (λ e. omega (arith, e, h)))

pub sum_below-eq : (n : ℕ) (f g : ℕ → ℕ) → ((i : ℕ) → f i ≡ g i) → sum_below n f ≡ sum_below n g
unfolding sum_below
sum_below-eq zero f g same = refl
sum_below-eq (suc n) f g same = omega (arith, sum_below-eq n f g same, same n)

pub sum_below-le : (n : ℕ) (f g : ℕ → ℕ) → ((i : ℕ) → f i ≤ g i) → sum_below n f ≤ sum_below n g
unfolding sum_below
sum_below-le zero f g below = omega arith
sum_below-le (suc n) f g below = omega (arith, sum_below-le n f g below, below n)

pub sum_below-ones : (n : ℕ) (f : ℕ → ℕ) → ((i : ℕ) → f i ≤ 1) → sum_below n f ≤ n
unfolding sum_below
sum_below-ones zero f below = omega arith
sum_below-ones (suc n) f below = omega (arith, sum_below-ones n f below, below n)

module _ {A : Type 0} (w : A → ℕ) where
  abbrev pub sum_by : List A → ℕ
  sum_by [] = 0
  sum_by (x ∷ xs) = w x + sum_by xs

  pub sum_by-set :
      (xs : List A) (i : ℕ) (v d : A)
      → i < length xs
      → sum_by (set xs i v) + w (get_or xs i d) ≡ sum_by xs + w v
  sum_by-set [] i v d h = absurd (omega (arith, h))
  sum_by-set (x ∷ xs) zero v d h = omega arith
  sum_by-set (x ∷ xs) (suc i) v d h = omega (arith, sum_by-set xs i v d (omega (arith, h)))

  pub get_or-sum_by-le :
      (xs : List A) (i : ℕ) (d : A) → i < length xs → w (get_or xs i d) ≤ sum_by xs
  get_or-sum_by-le [] i d h = absurd (omega (arith, h))
  get_or-sum_by-le (x ∷ xs) zero d h = omega arith
  get_or-sum_by-le (x ∷ xs) (suc i) d h = omega (arith, get_or-sum_by-le xs i d (omega (arith, h)))

  -- Two places weigh no more than all.
  pub sum_by-two :
      (xs : List A) (i j : ℕ) (d : A)
      → i < length xs
      → j < length xs
      → i ≢ j
      → w (get_or xs i d) + w (get_or xs j d) ≤ sum_by xs
  sum_by-two [] i j d h k n = absurd (omega (arith, h))
  sum_by-two (x ∷ xs) zero zero d h k n = absurd (n refl)
  sum_by-two (x ∷ xs) zero (suc j) d h k n =
      omega (arith, get_or-sum_by-le xs j d (omega (arith, k)))
  sum_by-two (x ∷ xs) (suc i) zero d h k n =
      omega (arith, get_or-sum_by-le xs i d (omega (arith, h)))
  sum_by-two (x ∷ xs) (suc i) (suc j) d h k n =
      omega (arith, sum_by-two xs i j d (omega (arith, h)) (omega (arith, k)) (λ e. n (ap suc e)))

  -- A sum that is not zero has a place that is not zero.
  pub sum_by-pos :
      (xs : List A) (d : A) → 0 < sum_by xs → (i : ℕ) × (i < length xs) × (0 < w (get_or xs i d))
  sum_by-pos [] d h = absurd (omega (arith, h))
  sum_by-pos (x ∷ xs) d h = first (sum_by-pos xs d) (w x) refl
    where
      first :
          (0 < sum_by xs → (i : ℕ) × (i < length xs) × (0 < w (get_or xs i d)))
          → (n : ℕ) → w x ≡ n
          → (i : ℕ) × (i < length (x ∷ xs)) × (0 < w (get_or (x ∷ xs) i d))
      first later zero e =
          let (i, lt, p) = later (omega (arith, h, e)) in (suc i, omega (arith, lt), p)
      first later (suc n) e = (0, omega arith, omega (arith, e))

pub sum_by_mono :
    {A : Type 0} (v w : A → ℕ) → ((a : A) → v a ≤ w a) → (xs : List A) → sum_by v xs ≤ sum_by w xs
sum_by_mono v w below [] = omega arith
sum_by_mono v w below (x ∷ xs) = omega (arith, below x, sum_by_mono v w below xs)

pub sum_below-zero : (n : ℕ) (f : ℕ → ℕ) → ((i : ℕ) → f i ≡ 0) → sum_below n f ≡ 0
unfolding sum_below
sum_below-zero zero f none = refl
sum_below-zero (suc n) f none = omega (arith, sum_below-zero n f none, none n)
