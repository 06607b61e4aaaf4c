-- ===== src/Word/Laws.antt =====
-- What the tests of `Word` decide.
use light_rocm_runtime.Prelude.{
  ℕ, ap, ◌∙◌, ◌*◌, zero, suc, Bool-cases, inl, inr, leb, ◌+◌, ◌-◌, ◌%◌, ◌^◌, ◌≤◌, ◌<◌, ◌≡◌, sym,
  subst, true, some, none, arith, bit_and, ◌↔◌,
}
use light_rocm_runtime.Prelude.Bits.{
  power_of_two, power_of_two_mask, bit_and_ones, bit_and_high, pow_pos,
}
use Prim.Native.Nat.{◌∣◌}
use native.Mathlib.Nat.{dvd_refl, dvd-mul_right_of_dvd, pow-suc, pow-le-pow_right, mod-mod_of_dvd}
use light_rocm_runtime.Word.{u64_limit, u64_max, checked_add, range_is_in_file, is_power_of_two}

pub checked_add-some :
    (a b c : ℕ) → a < u64_limit → checked_add a b ≡ some c → (c ≡ a + b) × (c < u64_limit)
unfolding checked_add
checked_add-some a b c h e = ground arith

pub checked_add_fits : (a b : ℕ) → a + b < u64_limit → checked_add a b ≡ some (a + b)
unfolding checked_add
checked_add_fits a b h = ground arith

pub checked_add-none : (a b : ℕ) → a < u64_limit → checked_add a b ≡ none → u64_limit ≤ a + b
unfolding checked_add
checked_add-none a b h e = ground arith

pub range_is_in_file_iff :
    (offset length size : ℕ)
    → (range_is_in_file offset length size ≡ true) ↔ (offset + length ≤ size)
unfolding range_is_in_file
range_is_in_file_iff offset length size = (λ e. ground arith, λ h. ground arith)

pub is_power_of_two_sound : (v : ℕ) → is_power_of_two v ≡ true → (k : ℕ) × (v ≡ 2 ^ k)
unfolding is_power_of_two
is_power_of_two_sound v h = power_of_two v (ground arith) (ground arith)

pub is_power_of_two_complete : (k : ℕ) → is_power_of_two (2 ^ k) ≡ true
unfolding is_power_of_two
is_power_of_two_complete k = ground (arith, power_of_two_mask k, pow_pos k)

-- A ring index is taken modulo the ring by a mask.
pub mask_eq_mod : (c x : ℕ) → is_power_of_two c ≡ true → bit_and x (c - 1) ≡ x % c
mask_eq_mod c x h =
    let p : (k : ℕ) × (c ≡ 2 ^ k) = is_power_of_two_sound c h in
    subst (λ (m : ℕ). bit_and x (m - 1) ≡ x % m) (sym p.1) (bit_and_ones p.0 x)

-- Two numbers less than c apart with one remainder are equal.
pub mod-injective_near : (c a b : ℕ) → a % c ≡ b % c → a ≤ b → b < a + c → a ≡ b
mod-injective_near c a b e h k = grind arith

-- A 64-bit number with its low 12 bits cleared.
pub clear_page_bits : (x : ℕ) → x < u64_limit → bit_and x (u64_max - (4096 - 1)) ≡ x - x % 4096
clear_page_bits x h = bit_and_high 52 12 x h

two_pow-dvd : (k d : ℕ) → (2 ^ k) ∣ (2 ^ (k + d))
two_pow-dvd k zero = subst (λ (n : ℕ). (2 ^ k) ∣ (2 ^ n)) (omega arith) (dvd_refl (2 ^ k))
two_pow-dvd k (suc d) =
    let next : 2 ^ (k + d) * 2 ≡ 2 ^ (k + suc d) =
      sym (pow-suc 2 (k + d)) ∙ ap (λ (n : ℕ). 2 ^ n) (omega arith) in
    subst (λ (n : ℕ). (2 ^ k) ∣ n) next (dvd-mul_right_of_dvd (2 ^ k) (two_pow-dvd k d) 2)

exponent_le : (k : ℕ) → 2 ^ k ≤ 2 ^ 64 → k ≤ 64
exponent_le k h = elim (Bool-cases (leb k 64)) [
  | inl e ↦ ground arith
  | inr e ↦
      let far : 65 ≤ k = ground arith in
      let large : 2 ^ 65 ≤ 2 ^ k = pow-le-pow_right (omega arith) far in absurd (omega arith)
]

-- The wrap of a 64-bit id does not show in a ring.
pub power_of_two-wrap :
    (c id : ℕ) → is_power_of_two c ≡ true → c ≤ u64_limit → id % u64_limit % c ≡ id % c
power_of_two-wrap c id h le =
    let p : (k : ℕ) × (c ≡ 2 ^ k) = is_power_of_two_sound c h in
    let small = exponent_le p.0 (omega (arith, p.1)) in
    let split : p.0 + (64 - p.0) ≡ 64 = omega arith in
    let whole : (2 ^ p.0) ∣ u64_limit =
      subst (λ (n : ℕ). (2 ^ p.0) ∣ (2 ^ n)) split (two_pow-dvd p.0 (64 - p.0)) in
    subst (λ (m : ℕ). id % u64_limit % m ≡ id % m) (sym p.1) (mod-mod_of_dvd (2 ^ p.0) id whole)

pub is_power_of_two-positive : (c : ℕ) → is_power_of_two c ≡ true → 0 < c
unfolding is_power_of_two
is_power_of_two-positive c h = ground arith
