-- ===== src/Prelude/Join.antt =====
-- Disjunction of numbers whose digits do not meet: shifted fields join by addition.
use Prim.Native.Nat.{
  ℕ, zero, suc, ◌+◌, ◌*◌, ◌/◌, ◌%◌, ◌^◌, ◌≤◌, ◌<◌, max, bit_or, digits, bit_or-bitwise,
}
use mathlib.Core.Path.{◌≡◌, refl, ap}
use native.Mathlib.Omega.{arith}
use native.Mathlib.Nat.{pow-suc}

abbrev join : ℕ → ℕ → ℕ → ℕ
join rounds x y = digits (λ b. b) max rounds x y

join_rounds : (n m x y : ℕ) → x ≤ n → x ≤ m → join n x y ≡ join m x y
join_rounds zero zero x y p q = refl
join_rounds zero (suc m) zero y p q = refl
join_rounds zero (suc m) (suc x) y p q = absurd (omega arith)
join_rounds (suc n) zero zero y p q = refl
join_rounds (suc n) zero (suc x) y p q = absurd (omega arith)
join_rounds (suc n) (suc m) zero y p q = refl
join_rounds (suc n) (suc m) (suc x) y p q =
    omega (arith, join_rounds n m (suc x / 2) (y / 2) (omega arith) (omega arith))

pub zero-bit_or : (y : ℕ) → bit_or 0 y ≡ y
zero-bit_or y = bit_or-bitwise 0 y

-- The lowest digit of a disjunction, and the rest.
bit_or_halves : (x y : ℕ) → bit_or x y ≡ 2 * bit_or (x / 2) (y / 2) + max (x % 2) (y % 2)
bit_or_halves zero y = omega (arith, zero-bit_or y, zero-bit_or (y / 2))
bit_or_halves (suc x) y = omega (
  arith,
  bit_or-bitwise (suc x) y,
  bit_or-bitwise (suc x / 2) (y / 2),
  join_rounds x (suc x / 2) (suc x / 2) (y / 2) (omega arith) (omega arith),
)

bit_or-zero_rounds : (n x : ℕ) → x ≤ n → bit_or x 0 ≡ x
bit_or-zero_rounds n zero h = zero-bit_or 0
bit_or-zero_rounds zero (suc x) h = absurd (omega arith)
bit_or-zero_rounds (suc n) (suc x) h =
    omega (arith, bit_or_halves (suc x) 0, bit_or-zero_rounds n (suc x / 2) (omega arith))

pub bit_or-zero : (x : ℕ) → bit_or x 0 ≡ x
bit_or-zero x = bit_or-zero_rounds x x (omega arith)

-- A field above k digits, and one within them.
pub bit_or_above : (k a b : ℕ) → b < 2 ^ k → bit_or (a * 2 ^ k) b ≡ a * 2 ^ k + b
bit_or_above zero a b h = omega (arith, bit_or-zero (a * 2 ^ 0), ap (bit_or (a * 2 ^ 0)) none_left)
  where
    none_left : b ≡ 0
    none_left = omega arith
bit_or_above (suc k) a b h = omega (
  arith,
  bit_or_halves (a * 2 ^ suc k) b,
  ap (λ (t : ℕ). bit_or t (b / 2)) halves,
  bit_or_above k a (b / 2) (omega (arith, pow-suc 2 k)),
  double,
)
  where
    double : a * 2 ^ suc k ≡ 2 * (a * 2 ^ k)
    double = omega (arith, ap (λ (t : ℕ). a * t) (pow-suc 2 k))

    halves : a * 2 ^ suc k / 2 ≡ a * 2 ^ k
    halves = omega (arith, double)

pub bit_or_below : (k a b : ℕ) → b < 2 ^ k → bit_or b (a * 2 ^ k) ≡ a * 2 ^ k + b
bit_or_below zero a b h =
    omega (arith, zero-bit_or (a * 2 ^ 0), ap (λ (t : ℕ). bit_or t (a * 2 ^ 0)) none_left)
  where
    none_left : b ≡ 0
    none_left = omega arith
bit_or_below (suc k) a b h = omega (
  arith,
  bit_or_halves b (a * 2 ^ suc k),
  ap (bit_or (b / 2)) halves,
  bit_or_below k a (b / 2) (omega (arith, pow-suc 2 k)),
  double,
)
  where
    double : a * 2 ^ suc k ≡ 2 * (a * 2 ^ k)
    double = omega (arith, ap (λ (t : ℕ). a * t) (pow-suc 2 k))

    halves : a * 2 ^ suc k / 2 ≡ a * 2 ^ k
    halves = omega (arith, double)
