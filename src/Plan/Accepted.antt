-- ===== src/Plan/Accepted.antt =====
-- `build_load_plan` of light-rocr/loader/load_plan_reader.cpp against the tests of
-- light-rocr/runtime/executable_image.cpp.
use light_rocm_runtime.Prelude.{
  ℕ, ◌+◌, ◌-◌, ◌≤◌, ◌<◌, ◌≡◌, refl, inl, inr, Bool, true, false, List, [], ◌∷◌, All, map, arith,
}
use light_rocm_runtime.Prelude.Sorting.{AllPairs, sort, sort-All, sort-AllPairs, sort-Ascending}
use light_rocm_runtime.Loader.{done}
use light_rocm_runtime.Loader.Elf.{ParsedLoadSegment}
use light_rocm_runtime.Loader.Elf.Segments.{IsLoadable}
use light_rocm_runtime.Loader.Elf.Safety.{IsMappable}
use light_rocm_runtime.Plan.{
  LoadCopy, LoadZeroFill, LoadProtection, LoadPlan, Layout, empty_layout, finish_plan,
  plan_segments, copy_before, zero_fill_before, protection_before,
}
use light_rocm_runtime.Plan.Fold.{
  copies_of, zero_fills_of, protections_of, Collects, Within, add_segments-Collects,
}
use light_rocm_runtime.Plan.Collected.{
  Apart, copies_of-All, zero_fills_of-All, protections_of-All, copies_of-AreApart, copies_of-Apart,
  zero_fills_of-Apart, protections_of-Apart,
}
use light_rocm_runtime.Image.{
  copies_are_ordered, zero_fills_are_ordered, protections_are_ordered,
  copy_and_zero_fill_ranges_overlap,
}
use light_rocm_runtime.Image.Validate.{InImage}
use light_rocm_runtime.Image.Ranges.{
  IsProper, EndsBefore, AreApart, operations_are_ordered_iff, copy_and_zero_fill_ranges_overlap_iff,
}

module _ {A : Type 0} (before : A → A → Bool) (address size : A → ℕ)
    (ordered : (a b : A) → before a b ≡ true → address a ≤ address b)
    (reversed : (a b : A) → before a b ≡ false → address b ≤ address a) where
  All-behind :
      (a : A) (xs : List A)
      → All (IsProper address size) xs
      → All (λ b. address a ≤ address b) xs
      → All (Apart address size a) xs
      → All (EndsBefore address size a) xs
  All-behind a [] h s d = tt
  All-behind a (x ∷ xs) h s d = (ground arith, All-behind a xs h.1 s.1 d.1)

  ascending_EndsBefore :
      (xs : List A)
      → All (IsProper address size) xs
      → AllPairs (λ a b. address a ≤ address b) xs
      → AllPairs (Apart address size) xs
      → AllPairs (EndsBefore address size) xs
  ascending_EndsBefore [] h s d = tt
  ascending_EndsBefore (x ∷ xs) h s d =
      (All-behind x xs h.1 s.0 d.0, ascending_EndsBefore xs h.1 s.1 d.1)

  Apart-symmetric : (a b : A) → Apart address size a b → Apart address size b a
  Apart-symmetric a b (inl h) = inr h
  Apart-symmetric a b (inr h) = inl h

  -- Proper ranges that are apart stand in order once they are sorted.
  sorted_lem :
      (xs : List A)
      → All (IsProper address size) xs
      → AllPairs (Apart address size) xs
      → All (IsProper address size) (sort before xs)
        × AllPairs (EndsBefore address size) (sort before xs)
  sorted_lem xs h d =
      let proper = (sort-All before (IsProper address size) xs).1 h in
      (
        proper,
        ascending_EndsBefore (sort before xs) proper
            (sort-Ascending before address ordered reversed xs)
            ((sort-AllPairs before (Apart address size) Apart-symmetric xs).1 d),
      )

-- The operations of a plan on a file of `file_size` bytes pass the image code's tests: they are in
-- order, write no byte twice, and lie in the file and in the image.
pub record IsExecutable (file_size : ℕ) (plan : LoadPlan) : Type 0 where
  pub copies_ordered : copies_are_ordered plan ≡ true
  pub zero_fills_ordered : zero_fills_are_ordered plan ≡ true
  pub protections_ordered : protections_are_ordered plan ≡ true
  pub no_overlap : copy_and_zero_fill_ranges_overlap plan.copies plan.zero_fills ≡ false
  pub copies_inside :
      All
        (λ c. (c.file_offset + c.size ≤ file_size) × InImage plan c.virtual_address c.size)
        plan.copies
  pub zero_fills_inside : All (λ z. InImage plan z.virtual_address z.size) plan.zero_fills
  pub protections_inside :
      All (λ p. (p.flags < 8) × InImage plan p.virtual_address p.size) plan.protections

module _ (size : ℕ) (ps : List ParsedLoadSegment) (mappable : IsMappable size ps) (l : Layout)
    (all : Collects empty_layout ps l) where
  open mappable use {loadable, disjoint_memory}

  abbrev plan : LoadPlan
  plan = finish_plan l

  some_copies : l.copies ≡ copies_of ps
  some_copies = unfold empty_layout in all.all_copies

  some_zero_fills : l.zero_fills ≡ zero_fills_of ps
  some_zero_fills = unfold empty_layout in all.all_zero_fills

  some_protections : l.protections ≡ protections_of ps
  some_protections = unfold empty_layout in all.all_protections

  -- A range of a segment that takes memory lies in the image.
  in_image :
      (p : ParsedLoadSegment) (address extent : ℕ)
      → IsLoadable size p.segment
      → Within l p
      → 0 < extent
      → p.segment.virtual_address ≤ address
      → address + extent ≤ p.segment.virtual_address + p.segment.memory_size
      → InImage plan address extent
  unfolding finish_plan
  in_image p address extent h w pos above below = ground (arith, h.in_memory)

  sorted_copies :
      All (IsProper (λ x. x.virtual_address) (λ x. x.size)) plan.copies
      × AllPairs (EndsBefore (λ x. x.virtual_address) (λ x. x.size)) plan.copies
  unfolding finish_plan
  sorted_copies = rw some_copies (
      sorted_lem copy_before (λ x. x.virtual_address) (λ x. x.size)
        (λ a b e. unfold copy_before in ground arith) (λ a b e. unfold copy_before in ground arith)
        (copies_of ps)
        (copies_of-All size _ (Within l) (λ p h w pos. omega (arith, h.in_memory, h.zero_tail)) ps
          loadable all.within)
        (copies_of-Apart size ps loadable disjoint_memory))

  sorted_zero_fills :
      All (IsProper (λ x. x.virtual_address) (λ x. x.size)) plan.zero_fills
      × AllPairs (EndsBefore (λ x. x.virtual_address) (λ x. x.size)) plan.zero_fills
  unfolding finish_plan
  sorted_zero_fills = rw some_zero_fills (
      sorted_lem zero_fill_before (λ x. x.virtual_address) (λ x. x.size)
        (λ a b e. unfold zero_fill_before in ground arith)
        (λ a b e. unfold zero_fill_before in ground arith) (zero_fills_of ps)
        (zero_fills_of-All size _ (Within l) (λ p h w pos. omega (arith, h.in_memory, h.zero_tail))
          ps loadable all.within)
        (zero_fills_of-Apart size ps loadable disjoint_memory))

  sorted_protections :
      All (IsProper (λ x. x.virtual_address) (λ x. x.size)) plan.protections
      × AllPairs (EndsBefore (λ x. x.virtual_address) (λ x. x.size)) plan.protections
  unfolding finish_plan
  sorted_protections = rw some_protections (
      sorted_lem protection_before (λ x. x.virtual_address) (λ x. x.size)
        (λ a b e. unfold protection_before in ground arith)
        (λ a b e. unfold protection_before in ground arith) (protections_of ps)
        (protections_of-All size _ (Within l) (λ p h w pos. omega (arith, h.in_memory, h.zero_tail))
          ps loadable all.within)
        (protections_of-Apart size ps loadable disjoint_memory))

  copies_apart : All (λ c. All (AreApart c) plan.zero_fills) plan.copies
  unfolding finish_plan
  copies_apart =
      rw (some_copies, some_zero_fills)
        ((sort-All copy_before _ (copies_of ps)).1
          (All-sorted (copies_of ps) (copies_of-AreApart size ps loadable disjoint_memory)))
    where
      All-sorted :
          (cs : List LoadCopy)
          → All (λ c. All (AreApart c) (zero_fills_of ps)) cs
          → All (λ c. All (AreApart c) (sort zero_fill_before (zero_fills_of ps))) cs
      All-sorted [] h = tt
      All-sorted (c ∷ cs) h =
          ((sort-All zero_fill_before (AreApart c) (zero_fills_of ps)).1 h.0, All-sorted cs h.1)

  finish_plan-IsExecutable : IsExecutable size plan
  unfolding finish_plan
  finish_plan-IsExecutable = record {
    copies_ordered =
        (operations_are_ordered_iff (λ (c : LoadCopy). c.virtual_address) (λ c. c.size)
            plan.copies).1
          sorted_copies;
    zero_fills_ordered =
        (operations_are_ordered_iff (λ (z : LoadZeroFill). z.virtual_address) (λ z. z.size)
            plan.zero_fills).1
          sorted_zero_fills;
    protections_ordered =
        (operations_are_ordered_iff (λ (p : LoadProtection). p.virtual_address) (λ p. p.size)
            plan.protections).1
          sorted_protections;
    no_overlap =
        (copy_and_zero_fill_ranges_overlap_iff plan.copies plan.zero_fills sorted_copies
            sorted_zero_fills).1
          copies_apart;
    copies_inside = rw some_copies (
        (sort-All copy_before _ (copies_of ps)).1 (
          copies_of-All size _ (Within l)
            (λ p h w pos. (
              h.in_file,
              in_image p p.segment.virtual_address p.segment.file_size h w pos (omega arith)
                  (omega (arith, h.zero_tail)),
            ))
            ps loadable all.within));
    zero_fills_inside = rw some_zero_fills (
        (sort-All zero_fill_before _ (zero_fills_of ps)).1 (
          zero_fills_of-All size _ (Within l)
            (λ p h w more.
              in_image p (p.segment.virtual_address + p.segment.file_size)
                (p.segment.memory_size - p.segment.file_size) h w (omega arith) (omega arith)
                (omega arith))
            ps loadable all.within));
    protections_inside = rw some_protections (
        (sort-All protection_before _ (protections_of ps)).1 (
          protections_of-All size _ (Within l)
            (λ p h w pos. (
              h.known_flags,
              in_image p p.segment.virtual_address p.segment.memory_size h w pos (omega arith)
                  (omega arith),
            ))
            ps loadable all.within));
  }

-- For segments as the ELF reader accepts them, the plan is built; its copies, zero fills and
-- protections each pass the image code's order test, its copies and zero fills the overlap test, and
-- every operation lies in the image, copies also in the file, with known protection flags.
pub plan_segments-IsExecutable :
    (size : ℕ) (ps : List ParsedLoadSegment)
    → IsMappable size ps
    → (plan : LoadPlan) × (plan_segments (map (λ p. p.segment) ps) ≡ done plan)
      × IsExecutable size plan
unfolding plan_segments
plan_segments-IsExecutable size ps mappable =
    let (l, run, all) = add_segments-Collects size empty_layout ps mappable.loadable in
    (finish_plan l, rw (run, plan_segments) refl, finish_plan-IsExecutable size ps mappable l all)
