-- ===== src/Image/Materialize/Written.antt =====
-- The writes of `materialize_executable_image` in light-rocr/runtime/executable_image.cpp, one after the
-- other: the bytes of an image against the code object's.
use light_rocm_runtime.Prelude.{
  ℕ, ◌+◌, ◌-◌, ◌≤◌, ◌<◌, ◌≡◌, subst, ◌∙◌, ◌⊎◌, inl, inr, true, some, Option, List, [], ◌∷◌, All,
  arith, length, get_elem?, get_or, ◌==◌, Bool-cases, All-map, All-get_elem?,
}
use light_rocm_runtime.Plan.{LoadPlan, LoadCopy, LoadZeroFill, Relocation}
use light_rocm_runtime.Image.{KernelInfo, all_relocations_supported, relocation_width, image_offset}
use light_rocm_runtime.Image.Validate.{InImage, image_offset-InImage}
use light_rocm_runtime.Image.Usable.{IsUsable}
use light_rocm_runtime.Image.Ranges.{AreApart}
use light_rocm_runtime.Image.Materialize.{
  Block, overlay, store, write_image, apply_copies, apply_zero_fills, apply_relocations,
}
use light_rocm_runtime.Image.Materialize.Bytes.{
  Misses, Fits, Writes, overlay_hit, overlay_miss, overlay_size, store_total, zero_fills_run,
  copies_run, relocations_run,
}

-- The width of a relocation that is not skipped is eight bytes, and they lie in the image.
pub relocations_inside :
    (plan : LoadPlan) (previous : Option ℕ) (rs : List Relocation)
    → all_relocations_supported plan previous rs ≡ true
    → All (λ r. (r.kind ≡ 0) ⊎ InImage plan r.target_virtual_address 8) rs
unfolding all_relocations_supported relocation_width image_offset
relocations_inside plan previous [] e = tt
relocations_inside plan previous (r ∷ rs) e = elim (Bool-cases (r.kind == 0)) [
  | inl skipped ↦ (inl (ground arith), relocations_inside plan previous rs (ground arith))
  | inr written ↦ (
    inr (image_offset-InImage plan r.target_virtual_address 8 (ground arith)),
    relocations_inside plan (some (r.target_virtual_address + relocation_width r.kind)) rs
        (ground arith),
  )
]

module _ (hsaco : List ℕ) (plan : LoadPlan) where
  abbrev base : ℕ
  base = plan.image_virtual_address

  -- No relocation writes the byte at the offset.
  abbrev pub IsPlain : ℕ → Type 0
  IsPlain x =
      All (λ r. (r.kind ≡ 0) ⊎ Misses (r.target_virtual_address - base) 8 x) plan.relocations

  -- The image at the destination: the bytes of the copies, zeros between them up to the size of the
  -- allocation, and the destination's own bytes behind it; relocated bytes are left open.
  pub record IsMaterialized (allocation_size : ℕ) (destination image : Block) : Type 0 where
    pub same_size : image.size ≡ destination.size
    pub copied :
        (k i : ℕ) (c : LoadCopy)
        → get_elem? plan.copies k ≡ some c
        → i < c.size
        → IsPlain (c.virtual_address - base + i)
        → image.byte (c.virtual_address - base + i) ≡ get_or hsaco (c.file_offset + i) 0
    pub zeroed :
        (x : ℕ)
        → x < allocation_size
        → All (λ c. Misses (c.virtual_address - base) c.size x) plan.copies
        → IsPlain x
        → image.byte x ≡ 0
    pub untouched : (x : ℕ) → allocation_size ≤ x → image.byte x ≡ destination.byte x

  module _ (kernels : List KernelInfo) (allocation_size : ℕ) (destination : Block)
      (usable : IsUsable (length hsaco) plan kernels allocation_size)
      (relocations_fit : All
        (λ r. (r.kind ≡ 0) ⊎ InImage plan r.target_virtual_address 8)
        plan.relocations)
      (room : allocation_size ≤ destination.size) where
    cleared : Block
    cleared = overlay 0 allocation_size (λ i. 0) destination

    cleared_size : cleared.size ≡ destination.size
    cleared_size = unfold cleared in overlay_size 0 allocation_size (λ i. 0) destination

    in_block :
        (b : Block) (address extent : ℕ)
        → b.size ≡ destination.size
        → InImage plan address extent
        → Fits base b.size address extent
    in_block b address extent same h = omega (arith, usable.image_fits)

    copying :
        (w : Writes
          (λ x. All (λ c. Misses (c.virtual_address - base) c.size x) plan.copies)
          cleared
          (apply_copies base hsaco plan.copies cleared))
        × ((k i : ℕ) (c : LoadCopy)
            → get_elem? plan.copies k ≡ some c
            → i < c.size
            → w.after.byte (c.virtual_address - base + i) ≡ get_or hsaco (c.file_offset + i) 0)
    copying =
        copies_run base hsaco plan.copies cleared
          (All-map (λ c h. (h.0, in_block cleared c.virtual_address c.size cleared_size h.1))
            plan.copies usable.copies_inside_both)
          usable.copies_apart

    abbrev with_copies : Block
    with_copies = copying.0.after

    filling :
        (w : Writes
          (λ x. All (λ z. Misses (z.virtual_address - base) z.size x) plan.zero_fills)
          with_copies
          (apply_zero_fills base plan.zero_fills with_copies))
        × ((x : ℕ) → with_copies.byte x ≡ 0 → w.after.byte x ≡ 0)
    filling = zero_fills_run base plan.zero_fills with_copies (
        All-map
          (λ z h.
            in_block with_copies z.virtual_address z.size (copying.0.same_size ∙ cleared_size) h)
          plan.zero_fills usable.zero_fills_in_image)

    abbrev with_zero_fills : Block
    with_zero_fills = filling.0.after

    size_kept : with_zero_fills.size ≡ destination.size
    size_kept = filling.0.same_size ∙ copying.0.same_size ∙ cleared_size

    relocating :
        (load_bias : ℕ)
        → Writes IsPlain with_zero_fills
            (apply_relocations base load_bias plan.relocations with_zero_fills)
    relocating load_bias = relocations_run base load_bias plan.relocations with_zero_fills (
        All-map
          (λ r h. elim h [
            | inl skipped ↦ inl skipped
            | inr inside ↦
                inr (in_block with_zero_fills r.target_virtual_address 8 size_kept inside).1
          ])
          plan.relocations relocations_fit)

    cleared_byte : (x : ℕ) → x < allocation_size → cleared.byte x ≡ 0
    cleared_byte x h = subst (λ (n : ℕ). cleared.byte n ≡ 0) (omega arith) zero_there
      where
        zero_there : cleared.byte (0 + x) ≡ 0
        zero_there = unfold cleared in overlay_hit 0 allocation_size (λ i. 0) destination x h

    clearing : store 0 allocation_size (λ i. 0) destination ≡ some cleared
    clearing = unfold cleared in store_total 0 allocation_size (λ i. 0) destination (omega arith)

    -- Behind the allocation no write lands.
    behind :
        (address extent x : ℕ)
        → allocation_size ≤ x
        → InImage plan address extent
        → Misses (address - base) extent x
    behind address extent x l h = inr (omega (arith, usable.image_fits))

    untouched_byte :
        (load_bias x : ℕ)
        → allocation_size ≤ x
        → (relocating load_bias).after.byte x ≡ destination.byte x
    untouched_byte load_bias x l =
        (relocating load_bias).kept x (
          All-map
            (λ r h. elim h [
              | inl skipped ↦ inl skipped
              | inr inside ↦ inr (behind r.target_virtual_address 8 x l inside)
            ])
            plan.relocations relocations_fit)
        ∙ filling.0.kept x (
            All-map (λ z. behind z.virtual_address z.size x l) plan.zero_fills
              usable.zero_fills_in_image)
        ∙ copying.0.kept x (
            All-map (λ c h. behind c.virtual_address c.size x l h.1) plan.copies
              usable.copies_inside_both)
        ∙ (unfold cleared in
            overlay_miss 0 allocation_size (λ i. 0) destination x (inr (omega arith)))

    -- A byte of a copy is not written by the zero fills.
    copied_Misses :
        (c : LoadCopy) (i : ℕ) (zs : List LoadZeroFill)
        → i < c.size
        → base ≤ c.virtual_address
        → All (λ z. InImage plan z.virtual_address z.size) zs
        → All (AreApart c) zs
        → All (λ z. Misses (z.virtual_address - base) z.size (c.virtual_address - base + i)) zs
    copied_Misses c i [] l above h a = tt
    copied_Misses c i (z ∷ zs) l above h a = (ground arith, copied_Misses c i zs l above h.1 a.1)

    -- All writes succeed, and leave the image.
    pub write_image-IsMaterialized :
        (load_bias : ℕ)
        → (image : Block) × (write_image allocation_size hsaco plan load_bias destination
            ≡ some image)
          × IsMaterialized allocation_size destination image
    unfolding write_image
    write_image-IsMaterialized load_bias =
        let w = relocating load_bias in
        (
          w.after,
          rw (clearing, copying.0.ran, filling.0.ran, write_image) w.ran,
          record {
            same_size = w.same_size ∙ size_kept;
            copied = λ k i c e l plain.
                w.kept (c.virtual_address - base + i) plain
                ∙ filling.0.kept (c.virtual_address - base + i) (
                    copied_Misses c i plan.zero_fills l
                      (All-get_elem? _ plan.copies k usable.copies_inside_both e).1.1
                      usable.zero_fills_in_image
                      (All-get_elem? _ plan.copies k usable.written_once e))
                ∙ copying.1 k i c e l;
            zeroed =
                λ x l m plain. w.kept x plain ∙ filling.1 x (copying.0.kept x m ∙ cleared_byte x l);
            untouched = λ x l. untouched_byte load_bias x l;
          },
        )
