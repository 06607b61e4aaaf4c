-- ===== src/Prelude/Bits.antt =====
-- Masks of every width as arithmetic: low bits, cleared low bits, and the power-of-two test.
use Prim.Native.Nat.{
  ℕ, zero, suc, ◌+◌, ◌-◌, ◌*◌, ◌/◌, ◌%◌, ◌^◌, ◌≤◌, ◌<◌, min, bit_and, digits, bit_and-bitwise,
}
use mathlib.Core.Path.{◌≡◌, refl, ◌∙◌, ap}
use mathlib.Core.Logic.{◌≢◌}
use native.Mathlib.Decide.{dec_le}
use native.Mathlib.Omega.{arith}
use native.Mathlib.Nat.{
  pow-suc, mul_comm, mod-eq-sub-mul-div, div-div-eq-div-mul, div-mul-le_self, mod-eq_of_lt,
  mod_self,
}

abbrev conjoin : ℕ → ℕ → ℕ → ℕ
conjoin rounds x y = digits (λ b. zero) min rounds x y

-- More rounds than the first number has digits change nothing.
conjoin_rounds : (n m x y : ℕ) → x ≤ n → x ≤ m → conjoin n x y ≡ conjoin m x y
conjoin_rounds zero zero x y p q = refl
conjoin_rounds zero (suc m) zero y p q = refl
conjoin_rounds zero (suc m) (suc x) y p q = absurd (omega arith)
conjoin_rounds (suc n) zero zero y p q = refl
conjoin_rounds (suc n) zero (suc x) y p q = absurd (omega arith)
conjoin_rounds (suc n) (suc m) zero y p q = refl
conjoin_rounds (suc n) (suc m) (suc x) y p q =
    omega (arith, conjoin_rounds n m (suc x / 2) (y / 2) (omega arith) (omega arith))

pub zero-bit_and : (y : ℕ) → bit_and 0 y ≡ 0
zero-bit_and y = bit_and-bitwise 0 y

-- The lowest digit of a conjunction, and the rest.
pub bit_and_halves : (x y : ℕ) → bit_and x y ≡ 2 * bit_and (x / 2) (y / 2) + min (x % 2) (y % 2)
bit_and_halves zero y = omega (arith, zero-bit_and y, zero-bit_and (y / 2))
bit_and_halves (suc x) y = omega (
  arith,
  bit_and-bitwise (suc x) y,
  bit_and-bitwise (suc x / 2) (y / 2),
  conjoin_rounds x (suc x / 2) (suc x / 2) (y / 2) (omega arith) (omega arith),
)

bit_and-self_rounds : (n x : ℕ) → x ≤ n → bit_and x x ≡ x
bit_and-self_rounds n zero h = zero-bit_and 0
bit_and-self_rounds zero (suc x) h = absurd (omega arith)
bit_and-self_rounds (suc n) (suc x) h =
    omega (arith, bit_and_halves (suc x) (suc x), bit_and-self_rounds n (suc x / 2) (omega arith))

bit_and_self : (x : ℕ) → bit_and x x ≡ x
bit_and_self x = bit_and-self_rounds x x (omega arith)

bit_and-zero_rounds : (n x : ℕ) → x ≤ n → bit_and x 0 ≡ 0
bit_and-zero_rounds n zero h = zero-bit_and 0
bit_and-zero_rounds zero (suc x) h = absurd (omega arith)
bit_and-zero_rounds (suc n) (suc x) h =
    omega (arith, bit_and_halves (suc x) 0, bit_and-zero_rounds n (suc x / 2) (omega arith))

pub bit_and-zero : (x : ℕ) → bit_and x 0 ≡ 0
bit_and-zero x = bit_and-zero_rounds x x (omega arith)

pub pow_pos : (k : ℕ) → 1 ≤ 2 ^ k
pow_pos zero = omega arith
pow_pos (suc k) = omega (arith, pow-suc 2 k, pow_pos k)

-- The remainder by 2 * p, by its lowest digit.
mod-mul_two : (x p : ℕ) → 1 ≤ p → x % (2 * p) ≡ 2 * ((x / 2) % p) + x % 2
mod-mul_two x p h = omega (
  arith,
  mod-eq-sub-mul-div x (2 * p),
  mod-eq-sub-mul-div (x / 2) p,
  ap (λ (q : ℕ). p * q) (div-div-eq-div-mul x 2 p),
  div-mul-le_self (x / 2) p,
  mul_comm p (x / 2 / p),
)

-- A mask that ends in a one keeps the lowest digit.
bit_and-odd_mask : (x p : ℕ) → 1 ≤ p → bit_and x (2 * p - 1) ≡ 2 * bit_and (x / 2) (p - 1) + x % 2
bit_and-odd_mask x p h = omega (arith, bit_and_halves x (2 * p - 1), ap (bit_and (x / 2)) halves)
  where
    halves : (2 * p - 1) / 2 ≡ p - 1
    halves = omega arith

-- A mask that ends in a zero drops it.
bit_and-even_mask : (x m : ℕ) → bit_and x (2 * m) ≡ 2 * bit_and (x / 2) m
bit_and-even_mask x m = omega (arith, bit_and_halves x (2 * m), ap (bit_and (x / 2)) halves)
  where
    halves : 2 * m / 2 ≡ m
    halves = omega arith

pow_double : (k : ℕ) → 2 ^ suc k ≡ 2 * 2 ^ k
pow_double k = omega (arith, pow-suc 2 k)

-- The mask of k ones takes the remainder.
pub bit_and_ones : (k x : ℕ) → bit_and x (2 ^ k - 1) ≡ x % 2 ^ k
bit_and_ones zero x = omega (arith, bit_and-zero x)
bit_and_ones (suc k) x = rw (pow_double k) (
    omega (
      arith,
      bit_and-odd_mask x (2 ^ k) (pow_pos k),
      bit_and_ones k (x / 2),
      mod-mul_two x (2 ^ k) (pow_pos k),
    ))

-- The mask of n ones above k zeros clears the k low digits of a number of k + n digits.
pub bit_and_high : (n k x : ℕ) → x < 2 ^ n * 2 ^ k → bit_and x ((2 ^ n - 1) * 2 ^ k) ≡ x - x % 2 ^ k
bit_and_high n zero x h =
    omega (arith, ap (bit_and x) plain, bit_and_ones n x, mod-eq_of_lt {n = x} {m = 2 ^ n} below)
  where
    plain : (2 ^ n - 1) * 2 ^ 0 ≡ 2 ^ n - 1
    plain = omega arith

    below : x < 2 ^ n
    below = omega arith
bit_and_high n (suc k) x h = rw shift (
    omega (
      arith,
      bit_and-even_mask x ((2 ^ n - 1) * 2 ^ k),
      bit_and_high n k (x / 2) below,
      ap (λ (q : ℕ). x % q) (pow_double k),
      mod-mul_two x (2 ^ k) (pow_pos k),
    ))
  where
    shift : (2 ^ n - 1) * 2 ^ suc k ≡ 2 * ((2 ^ n - 1) * 2 ^ k)
    shift = rw (pow_double k) (omega arith)

    below : x / 2 < 2 ^ n * 2 ^ k
    below = omega (arith, ap (λ (q : ℕ). 2 ^ n * q) (pow_double k))

power_of_two_rounds : (n v : ℕ) → v ≤ n → v ≢ 0 → bit_and v (v - 1) ≡ 0 → (k : ℕ) × (v ≡ 2 ^ k)
power_of_two_rounds n zero b h e = absurd (h refl)
power_of_two_rounds zero (suc v) b h e = absurd (omega arith)
power_of_two_rounds (suc n) (suc v) b h e = elim (dec_le 1 (suc v % 2)) [
  | yes odd ↦ (
    0,
    omega (
      arith,
      bit_and_halves (suc v) (suc v - 1),
      bit_and_self (suc v / 2),
      ap (bit_and (suc v / 2)) (odd_half odd),
    ),
  )
  | no even ↦
      let half : (k : ℕ) × (suc v / 2 ≡ 2 ^ k) =
        power_of_two_rounds n (suc v / 2) (omega arith) (λ z. omega arith)
          (omega (
            arith,
            bit_and_halves (suc v) (suc v - 1),
            ap (bit_and (suc v / 2)) (even_half even),
          )) in
      (suc half.0, omega (arith, half.1, pow_double half.0))
]
  where
    odd_half : 1 ≤ suc v % 2 → (suc v - 1) / 2 ≡ suc v / 2
    odd_half odd = omega arith

    even_half : ¬ (1 ≤ suc v % 2) → (suc v - 1) / 2 ≡ suc v / 2 - 1
    even_half even = omega arith

-- The classic test: a positive number that shares no digit with its predecessor is a power of two.
pub power_of_two : (v : ℕ) → v ≢ 0 → bit_and v (v - 1) ≡ 0 → (k : ℕ) × (v ≡ 2 ^ k)
power_of_two v = power_of_two_rounds v v (omega arith)

pub power_of_two_mask : (k : ℕ) → bit_and (2 ^ k) (2 ^ k - 1) ≡ 0
power_of_two_mask k = bit_and_ones k (2 ^ k) ∙ mod_self (2 ^ k)
