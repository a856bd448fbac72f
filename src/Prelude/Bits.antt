-- ===== src/Prelude/Bits.antt =====
-- The native bit operations at variables: the law of the lowest digit, and fields that do not overlap.
use Prim.Native.Nat.{
  ℕ, zero, suc, ◌+◌, ◌*◌, ◌/◌, ◌%◌, ◌^◌, ◌≤◌, ◌<◌, min, max, bit_and, bit_or, bit_xor,
}
use Prim.Native.Nat.{digits, bitwise, differ, bit_or-bitwise, bit_and-bitwise, bit_xor-bitwise}
use mathlib.Core.Path.{◌≡◌, refl, ap}
use native.Mathlib.Nat.{pow-suc}
use native.Mathlib.Omega.{arith}

module _ (z : ℕ → ℕ) (f : ℕ → ℕ → ℕ) where
  -- The fuel of the recursion on digits does not matter once it covers the number.
  digits_enough : (n m a b : ℕ) → a ≤ n → a ≤ m → digits z f n a b ≡ digits z f m a b
  digits_enough zero zero a b p q = refl
  digits_enough (suc n) zero zero b p q = refl
  digits_enough zero (suc m) zero b p q = refl
  digits_enough (suc n) zero (suc a) b p q = absurd (omega arith)
  digits_enough zero (suc m) (suc a) b p q = absurd (omega arith)
  digits_enough (suc n) (suc m) zero b p q = refl
  digits_enough (suc n) (suc m) (suc a) b p q =
      ap (λ (t : ℕ). t * 2 + f (suc a % 2) (b % 2))
        (digits_enough n m (suc a / 2) (b / 2) (omega arith) (omega arith))

  bitwise_digit :
      (a b : ℕ)
      → bitwise z f (suc a) b ≡ bitwise z f (suc a / 2) (b / 2) * 2 + f (suc a % 2) (b % 2)
  bitwise_digit a b =
      ap (λ (t : ℕ). t * 2 + f (suc a % 2) (b % 2))
        (digits_enough a (suc a / 2) (suc a / 2) (b / 2) (omega arith) (omega arith))

pub zero-bit_or : (b : ℕ) → bit_or 0 b ≡ b
zero-bit_or b = bit_or-bitwise 0 b

pub zero-bit_xor : (b : ℕ) → bit_xor 0 b ≡ b
zero-bit_xor b = bit_xor-bitwise 0 b

pub zero-bit_and : (b : ℕ) → bit_and 0 b ≡ 0
zero-bit_and b = bit_and-bitwise 0 b

-- The lowest digit of a disjunction, and the others.
pub bit_or_digit : (a b : ℕ) → bit_or a b ≡ bit_or (a / 2) (b / 2) * 2 + max (a % 2) (b % 2)
bit_or_digit zero b = omega (arith, zero-bit_or b, zero-bit_or (b / 2))
bit_or_digit (suc a) b = omega (
  arith,
  bit_or-bitwise (suc a) b,
  bit_or-bitwise (suc a / 2) (b / 2),
  bitwise_digit (λ y. y) max a b,
)

pub bit_and_digit : (a b : ℕ) → bit_and a b ≡ bit_and (a / 2) (b / 2) * 2 + min (a % 2) (b % 2)
bit_and_digit zero b = omega (arith, zero-bit_and b, zero-bit_and (b / 2))
bit_and_digit (suc a) b = omega (
  arith,
  bit_and-bitwise (suc a) b,
  bit_and-bitwise (suc a / 2) (b / 2),
  bitwise_digit (λ y. 0) min a b,
)

half_or : (a b : ℕ) → bit_or a b / 2 ≡ bit_or (a / 2) (b / 2)
half_or a b = omega (arith, bit_or_digit a b)

differ_digit : (x y : ℕ) → x < 2 → y < 2 → differ x y ≡ (x + y) % 2
differ_digit zero y p q = omega arith
differ_digit (suc zero) zero p q = refl
differ_digit (suc zero) (suc zero) p q = refl
differ_digit (suc zero) (suc (suc y)) p q = absurd (omega arith)
differ_digit (suc (suc x)) y p q = absurd (omega arith)

pub bit_xor_digit : (a b : ℕ) → bit_xor a b ≡ bit_xor (a / 2) (b / 2) * 2 + (a % 2 + b % 2) % 2
bit_xor_digit zero b = omega (arith, zero-bit_xor b, zero-bit_xor (b / 2))
bit_xor_digit (suc a) b = omega (
  arith,
  bit_xor-bitwise (suc a) b,
  bit_xor-bitwise (suc a / 2) (b / 2),
  bitwise_digit (λ y. y) differ a b,
  differ_digit (suc a % 2) (b % 2) (omega arith) (omega arith),
)

two_pow_suc : (y k : ℕ) → y * 2 ^ suc k ≡ 2 * (y * 2 ^ k)
two_pow_suc y k = omega (arith, ap (λ (t : ℕ). y * t) (pow-suc 2 k))

-- `x | (y << k)` is a sum where `x` has at most `k` bits.
pub bit_or_disjoint : (k x y : ℕ) → x < 2 ^ k → bit_or x (y * 2 ^ k) ≡ x + y * 2 ^ k
bit_or_disjoint zero zero y h = omega (arith, zero-bit_or (y * 2 ^ 0))
bit_or_disjoint zero (suc x) y h = absurd (omega arith)
bit_or_disjoint (suc k) x y h = ground (
  arith,
  bit_or_digit x (y * 2 ^ suc k),
  two_pow_suc y k,
  pow-suc 2 k,
  bit_or_disjoint k (x / 2) y,
)

-- The exclusive or of numbers of `k` bits has `k` bits.
pub bit_xor-lt : (k a b : ℕ) → a < 2 ^ k → b < 2 ^ k → bit_xor a b < 2 ^ k
bit_xor-lt zero zero b p q = omega (arith, zero-bit_xor b)
bit_xor-lt zero (suc a) b p q = absurd (omega arith)
bit_xor-lt (suc k) a b p q =
    ground (arith, bit_xor_digit a b, pow-suc 2 k, bit_xor-lt k (a / 2) (b / 2))

pub bit_and-le : (n a b : ℕ) → a ≤ n → bit_and a b ≤ b
bit_and-le zero zero b h = omega (arith, zero-bit_and b)
bit_and-le zero (suc a) b h = absurd (omega arith)
bit_and-le (suc n) a b h =
    omega (arith, bit_and_digit a b, bit_and-le n (a / 2) (b / 2) (omega arith))

pub bit_and-zero : (a : ℕ) → bit_and a 0 ≡ 0
bit_and-zero a = omega (arith, bit_and-le a a 0 (omega arith))

-- Setting bits clears none, and sets those that were asked for.
pub bit_and-bit_or_mono : (n x y z : ℕ) → y ≤ n → bit_and x y ≤ bit_and (bit_or x z) y
bit_and-bit_or_mono zero x zero z h = omega (arith, bit_and-zero x)
bit_and-bit_or_mono zero x (suc y) z h = absurd (omega arith)
bit_and-bit_or_mono (suc n) x y z h = omega (
  arith,
  bit_and_digit x y,
  bit_and_digit (bit_or x z) y,
  bit_or_digit x z,
  ap (λ (t : ℕ). bit_and t (y / 2)) (half_or x z),
  bit_and-bit_or_mono n (x / 2) (y / 2) (z / 2) (omega arith),
)

pub bit_and-bit_or_self : (n x y : ℕ) → y ≤ n → y ≤ bit_and (bit_or x y) y
bit_and-bit_or_self zero x zero h = omega arith
bit_and-bit_or_self zero x (suc y) h = absurd (omega arith)
bit_and-bit_or_self (suc n) x y h = omega (
  arith,
  bit_and_digit (bit_or x y) y,
  bit_or_digit x y,
  ap (λ (t : ℕ). bit_and t (y / 2)) (half_or x y),
  bit_and-bit_or_self n (x / 2) (y / 2) (omega arith),
)
