-- ===== src/Base/Bits.antt =====
-- Masks of ones and exclusive or at variables, from the digit recursion that the native operations
-- stand for.
use Prim.Native.Nat.{
  ℕ, zero, suc, ◌+◌, ◌*◌, ◌/◌, ◌%◌, ◌≤◌, ◌<◌, min, differ, bit_and, bit_xor, digits,
  bit_and-bitwise, bit_xor-bitwise,
}
use mathlib.Core.Path.{◌≡◌, refl, ap, ◌∙◌}
use native.Mathlib.Omega.{arith}

-- The count of digits does not matter once it covers the first number.
module _ (z : ℕ → ℕ) (f : ℕ → ℕ → ℕ) where
  digits_count : (n m a b : ℕ) → a ≤ n → a ≤ m → digits z f n a b ≡ digits z f m a b
  digits_count zero zero zero b p q = refl
  digits_count zero (suc m) zero b p q = refl
  digits_count (suc n) zero zero b p q = refl
  digits_count (suc n) (suc m) zero b p q = refl
  digits_count zero m (suc a) b p q = absurd (omega arith)
  digits_count (suc n) zero (suc a) b p q = absurd (omega arith)
  digits_count (suc n) (suc m) (suc a) b p q =
      omega (arith, digits_count n m (suc a / 2) (b / 2) (omega arith) (omega arith))

and_digit : (a b : ℕ) → bit_and a b ≡ bit_and (a / 2) (b / 2) * 2 + min (a % 2) (b % 2)
and_digit zero b = omega (arith, bit_and-bitwise 0 b, bit_and-bitwise 0 (b / 2))
and_digit (suc a) b = omega (
  arith,
  bit_and-bitwise (suc a) b,
  bit_and-bitwise (suc a / 2) (b / 2),
  digits_count (λ b. 0) min a (suc a / 2) (suc a / 2) (b / 2) (omega arith) (omega arith),
)

pub xor_digit : (a b : ℕ) → bit_xor a b ≡ bit_xor (a / 2) (b / 2) * 2 + differ (a % 2) (b % 2)
xor_digit zero b = omega (arith, bit_xor-bitwise 0 b, bit_xor-bitwise 0 (b / 2), differ_zero)
  where
    differ_zero : differ 0 (b % 2) ≡ b % 2
    differ_zero = refl
xor_digit (suc a) b = omega (
  arith,
  bit_xor-bitwise (suc a) b,
  bit_xor-bitwise (suc a / 2) (b / 2),
  digits_count (λ b. b) differ a (suc a / 2) (suc a / 2) (b / 2) (omega arith) (omega arith),
)

and_none_below : (n a : ℕ) → a ≤ n → bit_and a 0 ≡ 0
and_none_below n zero h = refl
and_none_below zero (suc a) h = absurd (omega arith)
and_none_below (suc n) (suc a) h =
    omega (arith, and_digit (suc a) 0, and_none_below n (suc a / 2) (omega arith))

-- A mask with one more digit 1 at its end.
and_odd :
    (a m k q : ℕ)
    → ((x : ℕ) → bit_and x m ≡ x % k)
    → m * 2 + 1 ≡ q
    → bit_and a q ≡ (a / 2 % k) * 2 + a % 2
and_odd a m k q h e = omega (arith, and_digit a q, h (a / 2), half)
  where
    even : q / 2 ≡ m
    even = omega arith

    half : bit_and (a / 2) (q / 2) ≡ bit_and (a / 2) m
    half = rw even

and_1 : (a : ℕ) → bit_and a 1 ≡ a % 2
and_1 a = omega (arith, and_digit a 1, and_none_below (a / 2) (a / 2) (omega arith))

and_3 : (a : ℕ) → bit_and a 3 ≡ a % 4
and_3 a = omega (arith, and_odd a 1 2 3 and_1 refl)

and_7 : (a : ℕ) → bit_and a 7 ≡ a % 8
and_7 a = omega (arith, and_odd a 3 4 7 and_3 refl)

and_15 : (a : ℕ) → bit_and a 15 ≡ a % 16
and_15 a = omega (arith, and_odd a 7 8 15 and_7 refl)

and_31 : (a : ℕ) → bit_and a 31 ≡ a % 32
and_31 a = omega (arith, and_odd a 15 16 31 and_15 refl)

pub and_63 : (a : ℕ) → bit_and a 63 ≡ a % 64
and_63 a = omega (arith, and_odd a 31 32 63 and_31 refl)

and_127 : (a : ℕ) → bit_and a 127 ≡ a % 128
and_127 a = omega (arith, and_odd a 63 64 127 and_63 refl)

pub and_255 : (a : ℕ) → bit_and a 255 ≡ a % 256
and_255 a = omega (arith, and_odd a 127 128 255 and_127 refl)

differ-lt : (x y : ℕ) → x < 2 → y < 2 → differ x y < 2
differ-lt zero y p q = q
differ-lt (suc zero) zero p q = omega arith
differ-lt (suc zero) (suc zero) p q = omega arith
differ-lt (suc zero) (suc (suc y)) p q = absurd (omega arith)
differ-lt (suc (suc x)) y p q = absurd (omega arith)

differ_left_comm :
    (x y z : ℕ) → x < 2 → y < 2 → z < 2 → differ x (differ y z) ≡ differ y (differ x z)
differ_left_comm zero y z p q r = refl
differ_left_comm (suc zero) zero z p q r = refl
differ_left_comm (suc zero) (suc zero) z p q r = refl
differ_left_comm (suc zero) (suc (suc y)) z p q r = absurd (omega arith)
differ_left_comm (suc (suc x)) y z p q r = absurd (omega arith)

xor-half : (a b : ℕ) → bit_xor a b / 2 ≡ bit_xor (a / 2) (b / 2)
xor-half a b = omega (arith, xor_digit a b, differ-lt (a % 2) (b % 2) (omega arith) (omega arith))

xor-mod-two : (a b : ℕ) → bit_xor a b % 2 ≡ differ (a % 2) (b % 2)
xor-mod-two a b =
    omega (arith, xor_digit a b, differ-lt (a % 2) (b % 2) (omega arith) (omega arith))

xor_left_comm_below :
    (n a b c : ℕ) → a ≤ n → b ≤ n → bit_xor a (bit_xor b c) ≡ bit_xor b (bit_xor a c)
xor_left_comm_below n zero zero c p q = refl
xor_left_comm_below zero (suc a) b c p q = absurd (omega arith)
xor_left_comm_below zero zero (suc b) c p q = absurd (omega arith)
xor_left_comm_below (suc n) a b c p q =
    rw
      (
        xor_digit a (bit_xor b c),
        xor_digit b (bit_xor a c),
        xor-half b c,
        xor-half a c,
        xor-mod-two b c,
        xor-mod-two a c,
      )
      (omega (
        arith,
        xor_left_comm_below n (a / 2) (b / 2) (c / 2) (omega arith) (omega arith),
        differ_left_comm (a % 2) (b % 2) (c % 2) (omega arith) (omega arith) (omega arith),
      ))

-- Exclusive or does not depend on the order of its arguments.
xor_left_comm : (a b c : ℕ) → bit_xor a (bit_xor b c) ≡ bit_xor b (bit_xor a c)
xor_left_comm a b c = xor_left_comm_below (a + b) a b c (omega arith) (omega arith)

differ_comm : (x y : ℕ) → x < 2 → y < 2 → differ x y ≡ differ y x
differ_comm zero zero p q = refl
differ_comm zero (suc zero) p q = refl
differ_comm (suc zero) zero p q = refl
differ_comm (suc zero) (suc zero) p q = refl
differ_comm zero (suc (suc y)) p q = absurd (omega arith)
differ_comm (suc zero) (suc (suc y)) p q = absurd (omega arith)
differ_comm (suc (suc x)) y p q = absurd (omega arith)

xor_comm_below : (n a b : ℕ) → a ≤ n → b ≤ n → bit_xor a b ≡ bit_xor b a
xor_comm_below n zero zero p q = refl
xor_comm_below zero (suc a) b p q = absurd (omega arith)
xor_comm_below zero zero (suc b) p q = absurd (omega arith)
xor_comm_below (suc n) a b p q = omega (
  arith,
  xor_digit a b,
  xor_digit b a,
  xor_comm_below n (a / 2) (b / 2) (omega arith) (omega arith),
  differ_comm (a % 2) (b % 2) (omega arith) (omega arith),
)

xor_comm : (a b : ℕ) → bit_xor a b ≡ bit_xor b a
xor_comm a b = xor_comm_below (a + b) a b (omega arith) (omega arith)

pub xor_right_comm : (a b c : ℕ) → bit_xor (bit_xor a b) c ≡ bit_xor (bit_xor a c) b
xor_right_comm a b c =
    xor_comm (bit_xor a b) c
    ∙ xor_left_comm c a b
    ∙ ap (bit_xor a) (xor_comm c b)
    ∙ xor_left_comm a b c
    ∙ xor_comm b (bit_xor a c)
