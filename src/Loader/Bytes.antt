-- ===== src/Loader/Bytes.antt =====
-- The little-endian reads of light-rocr/loader/elf_reader.cpp and load_plan_reader.cpp
-- (`read_u16`, `read_u32`, `read_u64`), and what they read.
use light_rocm_runtime.Prelude.{
  Bool, true, false, if◌then◌else◌, ltb, ℕ, zero, suc, ◌+◌, ◌*◌, ◌^◌, ◌≤◌, ◌<◌, ◌≡◌, refl, List, [],
  ◌∷◌, none, some, arith, get_elem?, get_or, length, bit_or, All, ap, ◌∙◌,
}
use native.Mathlib.Nat.{pow-suc, mul-le-mul_right}
use native.Mathlib.Numerals.{towards_suc}
use light_rocm_runtime.Prelude.Join.{bit_or_below}
use light_rocm_runtime.Loader.{Outcome, done, fault, ◌>>=◌}

unfoldable pub byte_at : List ℕ → ℕ → Outcome ℕ
byte_at bytes i = elim (get_elem? bytes i) [ none ↦ fault | some b ↦ done b ]

-- The loop `value |= data[byte] << (byte * 8)`, with `count` bytes left to read.
read_loop : List ℕ → ℕ → ℕ → ℕ → ℕ → Outcome ℕ
unfolding byte_at
read_loop bytes zero offset shift value = done value
read_loop bytes (suc count) offset shift value = byte_at bytes offset >>= λ b.
    read_loop bytes count (offset + 1) (shift + 8) (bit_or value (b * 2 ^ shift))

unfoldable pub read_le : ℕ → List ℕ → ℕ → Outcome ℕ
unfolding read_loop
read_le count bytes offset = read_loop bytes count offset 0 0

abbrev pub read_u16 : List ℕ → ℕ → Outcome ℕ
read_u16 = read_le 2

abbrev pub read_u32 : List ℕ → ℕ → Outcome ℕ
read_u32 = read_le 4

abbrev pub read_u64 : List ℕ → ℕ → Outcome ℕ
read_u64 = read_le 8

-- The value of a list of bytes, lowest first.
pub value_of : ℕ → List ℕ → ℕ → ℕ
value_of zero bytes offset = 0
value_of (suc count) bytes offset = value_of_byte + 256 * value_of count bytes (offset + 1)
  where
    value_of_byte : ℕ
    value_of_byte = get_or bytes offset 0

get_elem?-get_or :
    (bytes : List ℕ) (i : ℕ) → i < length bytes → get_elem? bytes i ≡ some (get_or bytes i 0)
get_elem?-get_or [] i h = absurd (omega arith)
get_elem?-get_or (b ∷ bs) zero h = refl
get_elem?-get_or (b ∷ bs) (suc i) h = get_elem?-get_or bs i (omega arith)

abbrev pub IsBytes : List ℕ → Type 0
IsBytes = All (λ b. b < 256)

get_or-byte : (bytes : List ℕ) (i : ℕ) → IsBytes bytes → get_or bytes i 0 < 256
get_or-byte [] i h = omega arith
get_or-byte (b ∷ bs) zero h = h.0
get_or-byte (b ∷ bs) (suc i) h = get_or-byte bs i h.1

pub value_of-lt :
    (count : ℕ) (bytes : List ℕ) (i : ℕ) → IsBytes bytes → value_of count bytes i < 256 ^ count
unfolding value_of
value_of-lt zero bytes i h = omega arith
value_of-lt (suc count) bytes i h =
    omega (arith, pow-suc 256 count, get_or-byte bytes i h, value_of-lt count bytes (i + 1) h)

pow_byte : (s : ℕ) → 2 ^ (s + 8) ≡ 256 * 2 ^ s
pow_byte s = simp towards_suc (
    omega (
      arith,
      pow-suc 2 (s + 7),
      pow-suc 2 (s + 6),
      pow-suc 2 (s + 5),
      pow-suc 2 (s + 4),
      pow-suc 2 (s + 3),
      pow-suc 2 (s + 2),
      pow-suc 2 (s + 1),
      pow-suc 2 s,
    ))

read_loop_lem :
    (bytes : List ℕ) (count offset shift value : ℕ)
    → IsBytes bytes
    → offset + count ≤ length bytes
    → value < 2 ^ shift
    → read_loop bytes count offset shift value
      ≡ done (value + 2 ^ shift * value_of count bytes offset)
unfolding read_loop value_of
read_loop_lem bytes zero offset shift value h fits small = ap done (omega arith)
read_loop_lem bytes (suc count) offset shift value h fits small =
    let b = get_or bytes offset 0 in
    let joined = bit_or_below shift b value small in
    rw (get_elem?-get_or bytes offset (omega arith), read_loop, byte_at)
      (read_loop_lem bytes count (offset + 1) (shift + 8) (bit_or value (b * 2 ^ shift)) h
          (omega arith) (omega (arith, joined, pow_byte shift, mul-le-mul_right (2 ^ shift) below))
        ∙ ap done (
            omega (
              arith,
              joined,
              ap (λ (t : ℕ). t * value_of count bytes (offset + 1)) (pow_byte shift),
            )))
  where
    below : get_or bytes offset 0 ≤ 255
    below = omega (arith, get_or-byte bytes offset h)

-- A read inside the code object returns the little-endian value of its bytes.
pub read_le_lem :
    (count : ℕ) (bytes : List ℕ) (offset : ℕ)
    → IsBytes bytes
    → offset + count ≤ length bytes
    → read_le count bytes offset ≡ done (value_of count bytes offset)
unfolding read_le
read_le_lem count bytes offset h fits =
    read_loop_lem bytes count offset 0 0 h fits (omega arith) ∙ ap done (omega arith)

pub byte_at_lem :
    (bytes : List ℕ) (i : ℕ) → i < length bytes → byte_at bytes i ≡ done (get_or bytes i 0)
unfolding byte_at
byte_at_lem bytes i h = rw (get_elem?-get_or bytes i h, byte_at)

abbrev pub all_bytes : List ℕ → Bool
all_bytes [] = true
all_bytes (b ∷ bs) = if ltb b 256 then all_bytes bs else false

pub all_bytes_sound : (bs : List ℕ) → all_bytes bs ≡ true → IsBytes bs
all_bytes_sound [] e = tt
all_bytes_sound (b ∷ bs) e = (ground arith, all_bytes_sound bs (ground arith))
