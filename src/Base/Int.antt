-- ===== src/Base/Int.antt =====
-- Go's `int`, `int64` and `uint64`: an `int` of the configuration is an integer, an atomic `int64`
-- counter is its bit pattern below 2 ^ 64, and a `uint64` is a number below 2 ^ 64.
use Prim.Native.Nat.{ℕ, ◌+◌, ◌-◌, ◌%◌, ◌^◌, ◌<◌}
use mathlib.Core.Path.{◌≡◌}
use mathlib.Core.Bool.{Bool, true, false}
use native.Mathlib.Omega.{arith}
use otel_cardinality_process.Base.Tests.{ltb, leb, if◌then◌else◌}

-- `negsuc n` is -(n + 1).
pub data ℤ : Type 0 where
  pos : ℕ → ℤ
  negsuc : ℕ → ℤ

abbrev pub u64_mod : ℕ
u64_mod = 2 ^ 64

abbrev pub leb_ℤ : ℤ → ℤ → Bool
leb_ℤ (pos a) (pos b) = leb a b
leb_ℤ (pos a) (negsuc b) = false
leb_ℤ (negsuc a) (pos b) = true
leb_ℤ (negsuc a) (negsuc b) = leb b a

abbrev pub ltb_ℤ : ℤ → ℤ → Bool
ltb_ℤ (pos a) (pos b) = ltb a b
ltb_ℤ (pos a) (negsuc b) = false
ltb_ℤ (negsuc a) (pos b) = true
ltb_ℤ (negsuc a) (negsuc b) = ltb b a

-- The number that the bit pattern of an `int64` stands for.
abbrev pub signed64 : ℕ → ℤ
signed64 w = if ltb w (2 ^ 63) then pos w else negsuc (u64_mod - w - 1)

-- The conversion `uint64(v)`.
abbrev pub to_uint64 : ℤ → ℕ
to_uint64 (pos n) = n % u64_mod
to_uint64 (negsuc n) = u64_mod - 1 - n % u64_mod

-- The number of an integer, 0 below zero.
abbrev pub to_ℕ : ℤ → ℕ
to_ℕ (pos n) = n
to_ℕ (negsuc n) = 0

-- `x + 1`, `x - k` and `x + y` on 64 bits, signed and unsigned alike.
abbrev pub add64 : ℕ → ℕ → ℕ
add64 a b = (a + b) % u64_mod

abbrev pub sub64 : ℕ → ℕ → ℕ
sub64 a b = (a + u64_mod - b % u64_mod) % u64_mod

-- The difference of two words of a `uint64`, which wraps around below zero.
abbrev pub sub_words : ℕ → ℕ → ℕ
sub_words a b = if leb b a then a - b else a + u64_mod - b

-- It is the difference modulo 2 ^ 64.
sub_words-sub64 : (a b : ℕ) → a < u64_mod → b < u64_mod → sub_words a b ≡ sub64 a b
sub_words-sub64 a b h l = ground arith

pub sub_words_above : (a b : ℕ) → leb a b ≡ false → sub_words a b ≡ a - b
sub_words_above a b h = ground arith

pub to_uint64-lt : (v : ℤ) → to_uint64 v < u64_mod
to_uint64-lt (pos n) = omega arith
to_uint64-lt (negsuc n) = omega arith
