-- ===== src/Common/Bits.antt =====
-- The native bit operations at variables: a mask of low bits, and an `or` of disjoint bits.
use Prim.Native.Nat.{
  ℕ, zero, suc, ◌+◌, ◌*◌, ◌/◌, ◌%◌, ◌^◌, ◌≤◌, ◌<◌, min, max, bit_and, bit_or, digits, bitwise,
  bit_and-bitwise, bit_or-bitwise,
}
use mathlib.Core.Path.{◌≡◌, refl, ◌∙◌}
use native.Mathlib.Omega.{arith}
use native.Mathlib.Nat.{div-div-eq-div-mul}

module _ (z : ℕ → ℕ) (f : ℕ → ℕ → ℕ) where
  -- Any two counts that reach the number give the same digits.
  digits_enough :
      (fuel more x y : ℕ) → x ≤ fuel → x ≤ more → digits z f fuel x y ≡ digits z f more x y
  digits_enough (suc fuel) (suc more) (suc x) y le le' =
      let ih = digits_enough fuel more (suc x / 2) (y / 2) (omega arith) (omega arith) in
      omega (arith, ih)
  digits_enough (suc fuel) (suc more) zero y le le' = refl
  digits_enough (suc fuel) zero zero y le le' = refl
  digits_enough zero (suc more) zero y le le' = refl
  digits_enough zero zero zero y le le' = refl
  digits_enough zero more (suc x) y le le' = absurd (omega arith)
  digits_enough (suc fuel) zero (suc x) y le le' = absurd (omega arith)

  bitwise_step :
      (a b : ℕ)
      → bitwise z f (suc a) b ≡ bitwise z f (suc a / 2) (b / 2) * 2 + f (suc a % 2) (b % 2)
  bitwise_step a b =
      omega (arith, digits_enough a (suc a / 2) (suc a / 2) (b / 2) (omega arith) (omega arith))

bit_or_step :
    (a b : ℕ) → bit_or (suc a) b ≡ bit_or (suc a / 2) (b / 2) * 2 + max (suc a % 2) (b % 2)
bit_or_step a b = omega (
  arith,
  bit_or-bitwise (suc a) b,
  bit_or-bitwise (suc a / 2) (b / 2),
  bitwise_step (λ b. b) max a b,
)

zero-bit_or : (b : ℕ) → bit_or 0 b ≡ b
zero-bit_or b = bit_or-bitwise 0 b

-- Bits below a bound and bits above it.
pub bit_or-disjoint : (k a b : ℕ) → a < 2 ^ k → bit_or a (b * 2 ^ k) ≡ a + b * 2 ^ k
bit_or-disjoint k zero b lt = omega (arith, zero-bit_or (b * 2 ^ k))
bit_or-disjoint zero (suc a) b lt = absurd (omega arith)
bit_or-disjoint (suc k) (suc a) b lt =
    let double : 2 ^ suc k ≡ 2 * 2 ^ k = omega arith in
    let twice : b * 2 ^ suc k ≡ 2 * (b * 2 ^ k) = rw double (grind arith) in
    let half : (b * 2 ^ suc k) / 2 ≡ b * 2 ^ k = omega (arith, twice) in
    let even : (b * 2 ^ suc k) % 2 ≡ 0 = omega (arith, twice) in
    let below : suc a / 2 < 2 ^ k = grind arith in
    let rest = bit_or-disjoint k (suc a / 2) b below in
    bit_or_step a (b * 2 ^ suc k) ∙ rw (half, even, rest) (omega (arith, twice))

bit_and_step : (a b : ℕ) → bit_and a b ≡ bit_and (a / 2) (b / 2) * 2 + min (a % 2) (b % 2)
bit_and_step zero b = omega (arith, bit_and-bitwise 0 b, bit_and-bitwise 0 (b / 2))
bit_and_step (suc a) b = omega (
  arith,
  bit_and-bitwise (suc a) b,
  bit_and-bitwise (suc a / 2) (b / 2),
  bitwise_step (λ b. zero) min a b,
)

-- the k lowest bits, one by one
abbrev low_bits : ℕ → ℕ → ℕ
low_bits zero a = 0
low_bits (suc k) a = low_bits k (a / 2) * 2 + a % 2

abbrev ones : ℕ → ℕ
ones zero = 0
ones (suc k) = ones k * 2 + 1

bit_and-nothing : (fuel x : ℕ) → x ≤ fuel → bit_and x 0 ≡ 0
bit_and-nothing fuel zero le = omega (arith, bit_and-bitwise 0 0)
bit_and-nothing zero (suc x) le = absurd (omega arith)
bit_and-nothing (suc fuel) (suc x) le =
    let ih = bit_and-nothing fuel (suc x / 2) (omega arith) in
    omega (arith, bit_and_step (suc x) 0, ih)

bit_and-ones : (k a : ℕ) → bit_and a (ones k) ≡ low_bits k a
bit_and-ones zero a = bit_and-nothing a a (omega arith)
bit_and-ones (suc k) a =
    let half : (ones k * 2 + 1) / 2 ≡ ones k = omega arith in
    bit_and_step a (ones (suc k)) ∙ rw (half, bit_and-ones k (a / 2)) (omega arith)

pub bit_and-0xffff : (a : ℕ) → bit_and a 0xffff ≡ a % 2 ^ 16
bit_and-0xffff a = bit_and-ones 16 a ∙ omega arith

pub bit_and-3 : (a : ℕ) → bit_and a 3 ≡ a % 4
bit_and-3 a = bit_and-ones 2 a ∙ omega arith

twice_bit : (x y z : ℕ) → x * y * 2 + min z 0 ≡ x * (2 * y)
twice_bit x y z = grind arith

-- A single bit.
pub bit_and-bit : (k a : ℕ) → bit_and a (2 ^ k) ≡ a / 2 ^ k % 2 * 2 ^ k
bit_and-bit zero a = bit_and-ones 1 a ∙ omega arith
bit_and-bit (suc k) a =
    let double : 2 ^ suc k ≡ 2 * 2 ^ k = omega arith in
    let half : 2 ^ suc k / 2 ≡ 2 ^ k = omega (arith, double) in
    let even : 2 ^ suc k % 2 ≡ 0 = omega (arith, double) in
    bit_and_step a (2 ^ suc k)
    ∙ rw (half, even, bit_and-bit k (a / 2), div-div-eq-div-mul, double)
        (twice_bit (a / (2 * 2 ^ k) % 2) (2 ^ k) (a % 2))

bit_or_halves : (a b : ℕ) → bit_or a b ≡ bit_or (a / 2) (b / 2) * 2 + max (a % 2) (b % 2)
bit_or_halves zero b = omega (arith, zero-bit_or b, zero-bit_or (b / 2))
bit_or_halves (suc a) b = bit_or_step a b

bit_or_comm_fuel : (n a b : ℕ) → a ≤ n → b ≤ n → bit_or a b ≡ bit_or b a
bit_or_comm_fuel zero zero zero p q = refl
bit_or_comm_fuel zero (suc a) b p q = absurd (omega arith)
bit_or_comm_fuel zero zero (suc b) p q = absurd (omega arith)
bit_or_comm_fuel (suc n) a b p q = omega (
  arith,
  bit_or_halves a b,
  bit_or_halves b a,
  bit_or_comm_fuel n (a / 2) (b / 2) (omega arith) (omega arith),
)

pub bit_or_comm : (a b : ℕ) → bit_or a b ≡ bit_or b a
bit_or_comm a b = bit_or_comm_fuel (a + b) a b (omega arith) (omega arith)
