-- ===== src/Word.antt =====
-- 64-bit arithmetic as the loaders, the image code and the scratch calculator write it: checked
-- sums, range tests, the power-of-two test and page rounding. A `uint64_t` is a number below 2 ^ 64.
pub mod Laws
use light_rocm_runtime.Prelude.{
  ℕ, ◌+◌, ◌-◌, ◌^◌, Bool, ◌&&◌, Option, none, some, ltb, leb, ◌==◌, ◌!=◌, if◌then◌else◌, bit_and,
}

abbrev pub u64_limit : ℕ
u64_limit = 2 ^ 64

abbrev pub u64_max : ℕ
u64_max = 2 ^ 64 - 1

abbrev pub u32_limit : ℕ
u32_limit = 2 ^ 32

abbrev pub u32_max : ℕ
u32_max = 2 ^ 32 - 1

-- `none` is the result `false`, which leaves the output argument alone.
unfoldable pub checked_add : ℕ → ℕ → Option ℕ
checked_add lhs rhs = if ltb (u64_max - lhs) rhs then none else some (lhs + rhs)

unfoldable pub range_is_in_file : ℕ → ℕ → ℕ → Bool
range_is_in_file offset length file_size = leb offset file_size && leb length (file_size - offset)

unfoldable pub is_power_of_two : ℕ → Bool
is_power_of_two value = value != 0 && bit_and value (value - 1) == 0
