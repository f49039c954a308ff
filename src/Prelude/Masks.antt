-- ===== src/Prelude/Masks.antt =====
-- Masks and fields: the native `and` and `or` at the constants that the code uses them with, and
-- checks of a small range by evaluation.
use Prim.Native.Nat.{ℕ, zero, suc, ◌+◌, ◌*◌, ◌/◌, ◌%◌, ◌^◌, ◌≤◌, ◌<◌, min, max, digits}
use Prim.Native.Nat.{bit_and, bit_and-bitwise, bit_or, bit_or-bitwise}
use mathlib.Core.Path.{◌≡◌, refl, ap}
use mathlib.Core.Bool.{Bool, true, ◌&&◌}
use native.Mathlib.Nat.{pow-suc}
use native.Mathlib.Omega.{arith}
use sensor_link.Prelude.Tests.{==_iff, ◌==◌}
use sensor_link.Prelude.Bits.{double, halve}

module _ (z : ℕ → ℕ) (f : ℕ → ℕ → ℕ) where
  enough_digits : (n m a b : ℕ) → a ≤ n → a ≤ m → digits z f n a b ≡ digits z f m a b
  enough_digits zero zero a b p q = refl
  enough_digits zero (suc m) zero b p q = refl
  enough_digits zero (suc m) (suc a) b p q = absurd (omega arith)
  enough_digits (suc n) zero zero b p q = refl
  enough_digits (suc n) zero (suc a) b p q = absurd (omega arith)
  enough_digits (suc n) (suc m) zero b p q = refl
  enough_digits (suc n) (suc m) (suc a) b p q =
      ap (λ (t : ℕ). t * 2 + f (suc a % 2) (b % 2))
        (enough_digits n m (suc a / 2) (b / 2) (omega arith) (omega arith))

zero-bit_and : (b : ℕ) → bit_and 0 b ≡ 0
zero-bit_and b = bit_and-bitwise 0 b

zero-bit_or : (b : ℕ) → bit_or 0 b ≡ b
zero-bit_or b = bit_or-bitwise 0 b

bit_and_lowest : (a b : ℕ) → bit_and a b ≡ bit_and (a / 2) (b / 2) * 2 + min (a % 2) (b % 2)
bit_and_lowest zero b = omega (arith, zero-bit_and b, zero-bit_and (b / 2))
bit_and_lowest (suc a) b = omega (
  arith,
  bit_and-bitwise (suc a) b,
  bit_and-bitwise (suc a / 2) (b / 2),
  enough_digits (λ c. 0) min a (suc a / 2) (suc a / 2) (b / 2) (omega arith) (omega arith),
)

bit_or_lowest : (a b : ℕ) → bit_or a b ≡ bit_or (a / 2) (b / 2) * 2 + max (a % 2) (b % 2)
bit_or_lowest zero b = omega (arith, zero-bit_or b, zero-bit_or (b / 2))
bit_or_lowest (suc a) b = omega (
  arith,
  bit_or-bitwise (suc a) b,
  bit_or-bitwise (suc a / 2) (b / 2),
  enough_digits (λ c. c) max a (suc a / 2) (suc a / 2) (b / 2) (omega arith) (omega arith),
)

half_even : (b : ℕ) → 2 * b / 2 ≡ b
half_even b = omega arith

half_odd : (b : ℕ) → (2 * b + 1) / 2 ≡ b
half_odd b = omega arith

-- A mask whose low digits are zero.
pub bit_and_high : (k a b : ℕ) → bit_and a (double k b) ≡ double k (bit_and (halve k a) b)
bit_and_high zero a b = refl
bit_and_high (suc k) a b = omega (
  arith,
  bit_and_lowest a (2 * double k b),
  ap (λ (t : ℕ). bit_and (a / 2) t) (half_even (double k b)),
  bit_and_high k (a / 2) b,
)

-- `k` ones.
abbrev pub ones : ℕ → ℕ
ones zero = 0
ones (suc k) = 2 * ones k + 1

bit_and-zero_fuel : (n a : ℕ) → a ≤ n → bit_and a 0 ≡ 0
bit_and-zero_fuel n zero h = zero-bit_and 0
bit_and-zero_fuel zero (suc a) h = absurd (omega arith)
bit_and-zero_fuel (suc n) (suc a) h =
    omega (arith, bit_and_lowest (suc a) 0, bit_and-zero_fuel n (suc a / 2) (omega arith))

-- A mask of ones keeps the low digits.
pub bit_and-ones : (k a : ℕ) → bit_and a (ones k) + double k (halve k a) ≡ a
bit_and-ones zero a = omega (arith, bit_and-zero_fuel a a (omega arith))
bit_and-ones (suc k) a = omega (
  arith,
  bit_and_lowest a (2 * ones k + 1),
  ap (λ (t : ℕ). bit_and (a / 2) t) (half_odd (ones k)),
  bit_and-ones k (a / 2),
)

bit_or-zero_fuel : (n a : ℕ) → a ≤ n → bit_or a 0 ≡ a
bit_or-zero_fuel n zero h = zero-bit_or 0
bit_or-zero_fuel zero (suc a) h = absurd (omega arith)
bit_or-zero_fuel (suc n) (suc a) h =
    omega (arith, bit_or_lowest (suc a) 0, bit_or-zero_fuel n (suc a / 2) (omega arith))

-- `(a << k) | b` is a sum where `b` has at most `k` digits.
pub bit_or_high : (k a b : ℕ) → b < 2 ^ k → bit_or (double k a) b ≡ double k a + b
bit_or_high zero a b h =
    let e : b ≡ 0 = omega arith in
    omega (arith, ap (λ (t : ℕ). bit_or a t) e, bit_or-zero_fuel a a (omega arith))
bit_or_high (suc k) a b h = omega (
  arith,
  bit_or_lowest (2 * double k a) b,
  ap (λ (t : ℕ). bit_or t (b / 2)) (half_even (double k a)),
  bit_or_high k a (b / 2) (omega (arith, pow-suc 2 k)),
)

-- The mask of bit 15.
pub bit_and_top16 : (x : ℕ) → x < 65536 → bit_and x 0x8000 ≡ 32768 * (x / 32768)
bit_and_top16 x h = omega (arith, bit_and_high 15 x 1, bit_and-ones 1 (halve 15 x))

-- The mask of a byte.
pub bit_and_byte : (x : ℕ) → bit_and x 0xff ≡ x % 256
bit_and_byte x = omega (arith, bit_and-ones 8 x)

-- Every value below `n` passes the test.
unfoldable pub all_below : ℕ → (ℕ → Bool) → Bool
all_below zero p = true
all_below (suc n) p = p n && all_below n p

pub all_below_lem : (n : ℕ) (p : ℕ → Bool) (x : ℕ) → all_below n p ≡ true → x < n → p x ≡ true
unfolding all_below
all_below_lem zero p x h lt = absurd (omega arith)
all_below_lem (suc n) p x h lt = ground (arith, all_below_lem n p x)

-- Two functions that a table shows equal below `n`.
pub eq_of_table :
    (n : ℕ) (f g : ℕ → ℕ) (x : ℕ) → all_below n (λ y. f y == g y) ≡ true → x < n → f x ≡ g x
eq_of_table n f g x h lt = (==_iff (f x) (g x)).0 (all_below_lem n (λ y. f y == g y) x h lt)
