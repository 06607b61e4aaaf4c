-- ===== src/Image/Usable.antt =====
-- `validate_plan` of light-rocr/runtime/executable_image.cpp as a whole.
use light_rocm_runtime.Prelude.{
  ℕ, ◌+◌, ◌-◌, ◌%◌, ◌≤◌, ◌<◌, ◌≡◌, true, false, none, All, arith, List,
}
use light_rocm_runtime.Prelude.Sorting.{AllPairs}
use light_rocm_runtime.Word.{u64_limit}
use light_rocm_runtime.Word.Laws.{clear_page_bits}
use light_rocm_runtime.Plan.{LoadPlan, LoadCopy, LoadZeroFill, LoadProtection}
use light_rocm_runtime.Image.{
  all_relocations_supported, copies_are_ordered, zero_fills_are_ordered, protections_are_ordered,
  all_copies_inside, all_zero_fills_inside, all_protections_inside, all_copies_protected,
  all_zero_fills_protected, all_kernels_consistent, copy_and_zero_fill_ranges_overlap, KernelInfo,
  page_size, page_rounded, validate_plan, ok,
}
use light_rocm_runtime.Image.Ranges.{
  EndsBefore, AreApart, operations_are_ordered_iff, copy_and_zero_fill_ranges_overlap_iff,
}
use light_rocm_runtime.Image.Validate.{
  InImage, Covered, IsStartable, copies_inside, zero_fills_inside, protections_inside,
  copies-Covered, zero_fills-Covered, All-kernels-IsStartable,
}

-- The plan can be carried out in a block of `allocation` bytes, from a file of `file_size` bytes.
pub record IsUsable (file_size : ℕ) (plan : LoadPlan) (kernels : List KernelInfo) (allocation : ℕ)
    : Type 0 where
  pub some_bytes : 0 < plan.image_size
  pub image_fits : plan.image_size ≤ allocation
  pub tight : allocation < plan.image_size + page_size
  pub paged : allocation % page_size ≡ 0
  pub copies_inside_both :
      All
        (λ c. (c.file_offset + c.size ≤ file_size) × InImage plan c.virtual_address c.size)
        plan.copies
  pub zero_fills_in_image : All (λ z. InImage plan z.virtual_address z.size) plan.zero_fills
  pub protections_in_image : All (λ p. InImage plan p.virtual_address p.size) plan.protections
  pub copies_apart : AllPairs (EndsBefore (λ c. c.virtual_address) (λ c. c.size)) plan.copies
  pub zero_fills_apart :
      AllPairs (EndsBefore (λ z. z.virtual_address) (λ z. z.size)) plan.zero_fills
  pub protections_apart :
      AllPairs (EndsBefore (λ p. p.virtual_address) (λ p. p.size)) plan.protections
  pub written_once : All (λ c. All (AreApart c) plan.zero_fills) plan.copies
  pub copies_protected : All (λ c. Covered plan.protections c.virtual_address c.size 0) plan.copies
  pub zero_fills_protected :
      All (λ z. Covered plan.protections z.virtual_address z.size 0) plan.zero_fills
  pub startable : All (IsStartable plan) kernels

module _ (file_size : ℕ) (plan : LoadPlan) (kernels : List KernelInfo) (allocation : ℕ) where
  -- The tests that a successful validation has passed, as their results.
  pub record Passed : Type 0 where
    pub size_pos : 0 < plan.image_size
    pub roundable : plan.image_size + (page_size - 1) < u64_limit
    pub rounded : page_rounded plan.image_size ≡ allocation
    pub copies_ordered : copies_are_ordered plan ≡ true
    pub copies_in : all_copies_inside plan file_size plan.copies ≡ true
    pub fills_ordered : zero_fills_are_ordered plan ≡ true
    pub fills_in : all_zero_fills_inside plan plan.zero_fills ≡ true
    pub no_overlap : copy_and_zero_fill_ranges_overlap plan.copies plan.zero_fills ≡ false
    pub protections_ordered : protections_are_ordered plan ≡ true
    pub protections_in : all_protections_inside plan plan.protections ≡ true
    pub copies_in_protections : all_copies_protected plan plan.copies ≡ true
    pub fills_in_protections : all_zero_fills_protected plan plan.zero_fills ≡ true
    pub relocations_pass : all_relocations_supported plan none plan.relocations ≡ true
    pub kernels_pass : all_kernels_consistent plan kernels ≡ true

  pub validate_plan-Passed : validate_plan file_size plan kernels ≡ ok allocation → Passed
  unfolding validate_plan
  validate_plan-Passed e = ground arith

  -- If a plan passes the validation, the size that it returns is the image's, rounded up to a page; every
  -- operation lies in the image, copies also in the file; operations of a kind do not overlap, nor do
  -- copies and zero fills; each of them lies in one protection; and every kernel has an aligned
  -- descriptor and an entry that come from the file, the entry in executable memory.
  pub validate_plan-IsUsable :
      validate_plan file_size plan kernels ≡ ok allocation
      → IsUsable file_size plan kernels allocation
  validate_plan-IsUsable e =
      let t = validate_plan-Passed e in
      let (proper_cs, cs) =
        (operations_are_ordered_iff (λ (c : LoadCopy). c.virtual_address) (λ c. c.size)
            plan.copies).0
          t.copies_ordered in
      let (proper_zs, zs) =
        (operations_are_ordered_iff (λ (z : LoadZeroFill). z.virtual_address) (λ z. z.size)
            plan.zero_fills).0
          t.fills_ordered in
      let (proper_ps, ps) =
        (operations_are_ordered_iff (λ (p : LoadProtection). p.virtual_address) (λ p. p.size)
            plan.protections).0
          t.protections_ordered in
      let rounding =
        clear_page_bits (plan.image_size + page_size - 1) (omega (arith, t.roundable)) in
      record {
        some_bytes = t.size_pos;
        image_fits = omega (arith, rounding, t.rounded);
        tight = omega (arith, rounding, t.rounded);
        paged = omega (arith, rounding, t.rounded);
        copies_inside_both = copies_inside plan file_size plan.copies t.copies_in;
        zero_fills_in_image = zero_fills_inside plan plan.zero_fills t.fills_in;
        protections_in_image = protections_inside plan plan.protections t.protections_in;
        copies_apart = cs;
        zero_fills_apart = zs;
        protections_apart = ps;
        written_once =
            (copy_and_zero_fill_ranges_overlap_iff plan.copies plan.zero_fills (proper_cs, cs)
                (proper_zs, zs)).0
              t.no_overlap;
        copies_protected = copies-Covered plan plan.copies t.copies_in_protections;
        zero_fills_protected = zero_fills-Covered plan plan.zero_fills t.fills_in_protections;
        startable = All-kernels-IsStartable plan kernels t.kernels_pass;
      }
