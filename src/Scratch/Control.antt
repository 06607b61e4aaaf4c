-- ===== src/Scratch/Control.antt =====
-- The register words of light-rocr/arch/gfx11/scratch.cpp, as the hardware decodes them.
use light_rocm_runtime.Prelude.{
  ℕ, ◌+◌, ◌*◌, ◌/◌, ◌%◌, ◌^◌, ◌≤◌, ◌<◌, ◌≡◌, refl, ◌⊎◌, inl, inr, bit_and, arith,
}
use light_rocm_runtime.Prelude.Bits.{bit_and_ones}
use light_rocm_runtime.Prelude.Join.{bit_or_above, bit_or_below}
use light_rocm_runtime.Word.{u32_limit}
use light_rocm_runtime.Topology.{Node}
use light_rocm_runtime.Scratch.{
  scratch_backing_alignment, maximum_descriptor_address, QueueScratchError, scratch_free,
  QueueScratchRequirements, QueueScratchControl, ScratchAperture, Result, ok, failure,
  requirements_in, control_words, control_for, control_in,
}
use light_rocm_runtime.Scratch.Bounds.{IsLaidOut, requirements_in-IsLaidOut, requirements_in_empty}

-- The words of `c` describe the backing of `r` at `address`.
pub record Describes (address : ℕ) (r : QueueScratchRequirements) (c : QueueScratchControl)
    : Type 0 where
  pub base : c.descriptor0 + 2 ^ 32 * (c.descriptor1 % 2 ^ 16) ≡ address
  pub word0 : c.descriptor0 < u32_limit
  pub word1 : c.descriptor1 < u32_limit
  pub swizzle : c.descriptor1 / 2 ^ 30 ≡ 1
  pub records : c.descriptor2 ≡ r.allocation_size
  pub wave_size : c.compute_tmpring_size / 2 ^ 12 ≡ r.wave_size_units
  pub waves : c.compute_tmpring_size % 2 ^ 12 ≡ r.waves_per_shader_engine
  pub word : c.compute_tmpring_size < u32_limit
  pub location : c.backing_memory_location ≡ address
  pub aligned : address % scratch_backing_alignment ≡ 0
  pub reachable : address + r.allocation_size ≤ maximum_descriptor_address + 1

pub Result-cases :
    {A : Type 0} (r : Result A)
    → ((e : QueueScratchError) × (r ≡ failure e)) ⊎ ((a : A) × (r ≡ ok a))
Result-cases (ok a) = inr (a, refl)
Result-cases (failure e) = inl (e, refl)

module _ (size address : ℕ) (node : Node) (aperture : ScratchAperture) where
  control_words-Describes :
      (r : QueueScratchRequirements)
      → IsLaidOut node size aperture r
      → address % scratch_backing_alignment ≡ 0
      → address ≤ maximum_descriptor_address
      → address + r.allocation_size ≤ maximum_descriptor_address + 1
      → Describes address r (control_words r size address)
  unfolding control_words
  control_words-Describes r laid aligned small inside =
      let high : bit_and (address / 2 ^ 32) 0xffff ≡ address / 2 ^ 32 =
        omega (arith, bit_and_ones 16 (address / 2 ^ 32)) in
      let word1 = bit_or_below 30 1 (bit_and (address / 2 ^ 32) 0xffff) (omega arith) in
      let ring = bit_or_above 12 r.wave_size_units r.waves_per_shader_engine (omega arith) in
      omega (arith, high, word1, ring)

  control_for-Describes :
      (r r' : QueueScratchRequirements) (c : QueueScratchControl)
      → IsLaidOut node size aperture r
      → control_for size address r ≡ ok (r', c)
      → (r' ≡ r) × Describes address r c
  unfolding control_for
  control_for-Describes r r' c laid e =
      ground (arith, laid.some_bytes, control_words-Describes r laid)

  -- Control words that are made for a private segment that is not empty describe the laid-out
  -- backing: the descriptor decodes to its address and size, the ring register to the wave size and
  -- wave count, and the backing is an aligned range of 48-bit addresses.
  pub control_in-Describes :
      (r : QueueScratchRequirements) (c : QueueScratchControl)
      → 0 < size
      → control_in node size address aperture ≡ ok (r, c)
      → IsLaidOut node size aperture r × Describes address r c
  unfolding control_in
  control_in-Describes r c some_bytes e = elim (Result-cases (requirements_in node size aperture)) [
    | inl (err, bad) ↦ absurd (ground arith)
    | inr (made, good) ↦
        let laid = requirements_in-IsLaidOut node size aperture made some_bytes good in
        ground (arith, laid, control_for-Describes made r c laid)
  ]

-- A queue without scratch memory must come without a backing, and gets words that name none.
pub control_in_empty :
    (node : Node) (address : ℕ) (aperture : ScratchAperture) (r : QueueScratchRequirements)
    (c : QueueScratchControl)
    → control_in node 0 address aperture ≡ ok (r, c)
    → (address ≡ 0)
      × (r.allocation_size ≡ 0)
      × (c.descriptor0 ≡ 0)
      × (c.descriptor1 ≡ 2 ^ 30)
      × (c.descriptor2 ≡ 0)
      × (c.compute_tmpring_size ≡ 0)
      × (c.backing_memory_byte_size ≡ 0)
unfolding control_in control_for scratch_free
control_in_empty node address aperture r c e =
    elim (Result-cases (requirements_in node 0 aperture)) [
      | inl (err, bad) ↦ absurd (ground arith)
      | inr (made, good) ↦ ground (arith, requirements_in_empty node aperture made good)
    ]
