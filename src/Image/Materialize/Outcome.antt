-- ===== src/Image/Materialize/Outcome.antt =====
-- `materialize_executable_image` of light-rocr/runtime/executable_image.cpp as a whole.
use light_rocm_runtime.Prelude.{
  ℕ, ◌+◌, ◌-◌, ◌%◌, ◌≤◌, ◌<◌, ◌≡◌, refl, ap, ◌∙◌, ◌⊎◌, inl, inr, none, some, List, arith, length,
}
use light_rocm_runtime.Word.{u64_limit, checked_add}
use light_rocm_runtime.Plan.{LoadPlan}
use light_rocm_runtime.Image.{
  ExecutableImageError, Result, ok, err, ◌>>=◌, KernelInfo, validate_plan, page_size,
}
use light_rocm_runtime.Image.Usable.{validate_plan-IsUsable, validate_plan-Passed}
use light_rocm_runtime.Image.Materialize.{
  Block, write_image, prepare_image, finish_image, materialize_executable_image, Materialization,
  materialized, refused, ResolvedKernel,
}
use light_rocm_runtime.Image.Materialize.Written.{
  relocations_inside, IsMaterialized, write_image-IsMaterialized,
}

checked :
    {A : Type 0} (outcome : Result A)
    → ((a : A) × (outcome ≡ ok a)) ⊎ ((reason : ExecutableImageError) × (outcome ≡ err reason))
checked (err reason) = inr (reason, refl)
checked (ok a) = inl (a, refl)

-- A check that comes first has passed when the whole has.
passes_first :
    {A C : Type 0} {final : C} (first : Result A) (next : A → Result C)
    → (first >>= next) ≡ ok final
    → (a : A) × (next a ≡ ok final) × (first ≡ ok a)
passes_first (err reason) next whole = cc
passes_first (ok a) next whole = (a, whole, refl)

-- What the checks before the first write have passed.
record Prepared (hsaco : List ℕ) (plan : LoadPlan) (kernels : List KernelInfo)
    (destination_size gpu_address allocation_size : ℕ) : Type 0 where
  valid : validate_plan (length hsaco) plan kernels ≡ ok allocation_size
  room : allocation_size ≤ destination_size
  paged : gpu_address % page_size ≡ 0
  unwrapped : gpu_address + allocation_size < u64_limit
  above : plan.image_virtual_address ≤ gpu_address

prepare_image-Prepared :
    (hsaco : List ℕ) (plan : LoadPlan) (kernels : List KernelInfo)
    (destination_size gpu_address n : ℕ) (resolved : List ResolvedKernel)
    → gpu_address < u64_limit
    → prepare_image hsaco plan kernels destination_size gpu_address ≡ ok (n, resolved)
    → Prepared hsaco plan kernels destination_size gpu_address n
unfolding prepare_image checked_add
prepare_image-Prepared hsaco plan kernels destination_size gpu_address n resolved small e =
    let (a, e1, valid) = passes_first (validate_plan (length hsaco) plan kernels) _ e in
    let same : a ≡ n = ground arith in
    record {
      valid = valid ∙ ap ok same;
      room = ground (arith, same);
      paged = ground arith;
      unwrapped = ground (arith, same);
      above = ground arith;
    }

module _ (hsaco : List ℕ) (plan : LoadPlan) (kernels : List KernelInfo) (destination : Block)
    (gpu_address : ℕ) where
  abbrev result : Materialization
  result = materialize_executable_image hsaco plan kernels (some destination) gpu_address

  writes-IsMaterialized :
      (n : ℕ)
      → Prepared hsaco plan kernels destination.size gpu_address n
      → (image : Block) × (write_image n hsaco plan
            (gpu_address - plan.image_virtual_address)
            destination
          ≡ some image)
        × IsMaterialized hsaco plan n destination image
  writes-IsMaterialized n p =
      write_image-IsMaterialized hsaco plan kernels n destination
        (validate_plan-IsUsable (length hsaco) plan kernels n p.valid)
        (relocations_inside plan none plan.relocations
          (validate_plan-Passed (length hsaco) plan kernels n p.valid).relocations_pass)
        p.room (gpu_address - plan.image_virtual_address)

  -- At a 64-bit GPU address, whatever the plan, the code object and the destination are, a
  -- materialization is refused, or it stays inside the code object and the destination and leaves the
  -- plan's image there: the bytes of the copies outside of relocations, zeros between them, and the
  -- destination's own bytes behind the allocation. The address is then that of a page at or behind the
  -- image's base, and the allocation does not wrap.
  pub materialize_executable_image-IsMaterialized :
      gpu_address < u64_limit
      → ((e : ExecutableImageError) × (result ≡ refused e))
        ⊎ ((n : ℕ) × (resolved : List ResolvedKernel) × (image : Block) × (result
              ≡ materialized n gpu_address resolved image)
            × IsMaterialized hsaco plan n destination image
            × (gpu_address % page_size ≡ 0)
            × (plan.image_virtual_address ≤ gpu_address)
            × (gpu_address + n < u64_limit))
  unfolding materialize_executable_image finish_image
  materialize_executable_image-IsMaterialized small =
      elim (checked (prepare_image hsaco plan kernels destination.size gpu_address)) [
        | inr (e, bad) ↦ inl (e, rw (bad, materialize_executable_image) refl)
        | inl ((n, resolved), good) ↦
            let p =
              prepare_image-Prepared hsaco plan kernels destination.size gpu_address n resolved
                small good in
            let (image, written, is_image) = writes-IsMaterialized n p in
            inr (
              n,
              resolved,
              image,
              rw (good, materialize_executable_image) (rw (written, finish_image) refl),
              is_image,
              p.paged,
              p.above,
              p.unwrapped,
            )
      ]
