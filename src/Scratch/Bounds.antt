-- ===== src/Scratch/Bounds.antt =====
-- The numbers of light-rocr/arch/gfx11/scratch.cpp, against what the hardware needs.
use light_rocm_runtime.Prelude.{
  ℕ, ◌+◌, ◌-◌, ◌*◌, ◌/◌, ◌%◌, ◌≤◌, ◌<◌, ◌≡◌, refl, false, [], ◌∷◌, none, some, min, bit_and, arith,
  inl, inr, Option-cases,
}
use native.Mathlib.Nat.{le-div_iff_mul-le, mul-le-mul_right, div-mul-le_self, div-le_self, le_trans}
use native.Mathlib.Decide.{dec_lt}
use light_rocm_runtime.Word.{u64_max, u32_max}
use light_rocm_runtime.Word.Laws.{clear_page_bits}
use light_rocm_runtime.Topology.{Node, compute_unit_count}
use light_rocm_runtime.Scratch.{
  page_size, maximum_wave_size_units, maximum_waves_per_shader_engine, scratch_descriptor_alignment,
  scratch_lanes_per_wave, size_overflow, QueueScratchRequirements, ScratchAperture, ok, failure,
  multiply_all, wave_layout, backing, requirements_in, multiply_overflows, round_up_overflows,
}

-- The bytes that all waves of the device need at once.
abbrev pub needed : Node → ℕ → ℕ
needed node size =
    size
    * scratch_lanes_per_wave
    * node.maximum_scratch_waves_per_compute_unit
    * compute_unit_count node

-- A layout of scratch memory for a private segment of `size` bytes.
pub record IsLaidOut (node : Node) (size : ℕ) (aperture : ScratchAperture)
    (r : QueueScratchRequirements) : Type 0 where
  pub requested : r.private_segment_size ≡ size
  pub some_bytes : 0 < r.allocation_size
  pub covers : needed node size ≤ r.allocation_size
  pub tight : r.allocation_size < needed node size + page_size
  pub paged : r.allocation_size % page_size ≡ 0
  pub in_aperture : r.allocation_size ≤ aperture.size
  pub in_descriptor : r.allocation_size ≤ u32_max
  pub single_xcc : r.backing_size_per_xcc ≡ r.allocation_size
  pub wave_covers : size * scratch_lanes_per_wave ≤ r.wave_size_units * scratch_descriptor_alignment
  pub wave_field : r.wave_size_units ≤ maximum_wave_size_units
  pub some_wave : 0 < r.waves_per_shader_engine
  pub waves_field : r.waves_per_shader_engine ≤ maximum_waves_per_shader_engine
  pub waves_fit :
      r.waves_per_shader_engine
        * (node.shader_engine_count * (r.wave_size_units * scratch_descriptor_alignment))
      ≤ r.allocation_size

multiply_step : (a b : ℕ) → multiply_overflows a b ≡ false → a * b ≤ u64_max
unfolding multiply_overflows
multiply_step a b h = elim (dec_lt 0 b) [
  | yes b_pos ↦ (le-div_iff_mul-le {k = b} {x = a} {y = u64_max} b_pos).0 (ground arith)
  | no b_zero ↦ grind arith
]

multiply_all-some :
    (a b c d p : ℕ) → multiply_all a (b ∷ c ∷ d ∷ []) ≡ some p → (p ≡ a * b * c * d) × (p ≤ u64_max)
unfolding multiply_all
multiply_all-some a b c d p e = ground (arith, multiply_step (a * b * c) d)

-- Waves of the quotient's size that are shared out among the engines fit.
shared_out :
    (total engines wave waves : ℕ)
    → waves ≤ total / wave / engines
    → waves * (engines * wave) ≤ total
shared_out total engines wave waves h = omega (
  arith,
  mul-le-mul_right wave
      (le_trans (mul-le-mul_right engines h) (div-mul-le_self (total / wave) engines)),
  div-mul-le_self total wave,
)

-- The rounded size, which the mask computes.
abbrev round_up : ℕ → ℕ
round_up x = bit_and (x + page_size - 1) (u64_max - (page_size - 1))

round_up_lem :
    (x : ℕ)
    → round_up_overflows x page_size ≡ false
    → (x ≤ round_up x) × (round_up x < x + page_size) × (round_up x % page_size ≡ 0)
unfolding round_up_overflows
round_up_lem x h =
    let small : x ≤ u64_max - (page_size - 1) = ground arith in
    rw (clear_page_bits (x + page_size - 1) (omega arith)) (omega arith)

module _ (node : Node) (size : ℕ) (aperture : ScratchAperture) (r : QueueScratchRequirements) where
  wave_layout-IsLaidOut :
      (a : ℕ)
      → wave_layout node size a ≡ ok r
      → needed node size ≤ a
      → a < needed node size + page_size
      → a % page_size ≡ 0
      → a ≤ aperture.size
      → a ≤ u32_max
      → IsLaidOut node size aperture r
  unfolding wave_layout
  wave_layout-IsLaidOut a e covers tight paged inside fits =
      let wave = (size * 64 + 255) / 256 * 256 in
      ground (
        arith,
        div-le_self a wave,
        div-le_self (a / wave) node.shader_engine_count,
        shared_out a node.shader_engine_count wave (
            min (a / wave / node.shader_engine_count)
              (compute_unit_count node * node.maximum_scratch_waves_per_compute_unit)),
      )

  backing-IsLaidOut :
      (p : ℕ)
      → backing node size aperture (some p) ≡ ok r
      → p ≡ needed node size
      → IsLaidOut node size aperture r
  unfolding backing
  backing-IsLaidOut p e raw = ground (arith, round_up_lem p, wave_layout-IsLaidOut (round_up p))

  -- Requirements for a private segment that is not empty lay out all of it: the backing is the need
  -- of every wave rounded up to a page, it fits the aperture and the 32-bit descriptor, and the
  -- waves that the registers allow fit the backing.
  pub requirements_in-IsLaidOut :
      0 < size → requirements_in node size aperture ≡ ok r → IsLaidOut node size aperture r
  unfolding requirements_in
  requirements_in-IsLaidOut some_bytes e =
      let lanes = scratch_lanes_per_wave in
      let waves = node.maximum_scratch_waves_per_compute_unit in
      let units = compute_unit_count node in
      elim (Option-cases (multiply_all size (lanes ∷ waves ∷ units ∷ []))) [
        | inl overflow ↦ absurd (ground (arith, backing_none))
        | inr (p, product) ↦
            ground (arith, multiply_all-some size lanes waves units p product, backing-IsLaidOut p)
      ]
    where
      backing_none : backing node size aperture none ≡ failure size_overflow
      backing_none = unfold backing in refl

-- A private segment of no bytes needs no memory, on any supported node.
pub requirements_in_empty :
    (node : Node) (aperture : ScratchAperture) (r : QueueScratchRequirements)
    → requirements_in node 0 aperture ≡ ok r
    → (r.allocation_size ≡ 0) × (r.wave_size_units ≡ 0) × (r.waves_per_shader_engine ≡ 0)
unfolding requirements_in
requirements_in_empty node aperture r e = ground arith
