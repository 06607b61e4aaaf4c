-- ===== src/Image/Validate.antt =====
-- The single tests of `validate_plan` in light-rocr/runtime/executable_image.cpp, and what each stands for.
use light_rocm_runtime.Prelude.{
  ℕ, suc, ◌+◌, ◌%◌, ◌≤◌, ◌<◌, ◌≡◌, ◌⊎◌, inl, inr, true, Option, none, some, List, [], ◌∷◌, All,
  arith, get_elem?, bit_and, ltb, Option-cases, Bool-cases, ap,
}
use light_rocm_runtime.Word.Laws.{range_is_in_file_iff}
use light_rocm_runtime.Plan.{LoadPlan, LoadCopy, LoadZeroFill, LoadProtection}
use light_rocm_runtime.Image.{
  image_offset, is_some, last_at_or_before, range_in_operation, has_flags, range_has_protection,
  range_is_file_backed, all_copies_inside, all_zero_fills_inside, all_protections_inside,
  all_copies_protected, all_zero_fills_protected, KernelInfo, kernel_is_consistent,
  all_kernels_consistent,
}

-- A range of at least one byte inside the image.
abbrev pub InImage : LoadPlan → ℕ → ℕ → Type 0
InImage plan address size =
    (0 < size)
    × (plan.image_virtual_address ≤ address)
    × (address + size ≤ plan.image_virtual_address + plan.image_size)

pub image_offset-InImage :
    (plan : LoadPlan) (address size : ℕ)
    → is_some (image_offset plan address size) ≡ true
    → InImage plan address size
unfolding image_offset
image_offset-InImage plan address size e = (ground arith, ground arith, ground arith)

module _ (plan : LoadPlan) where
  pub copies_inside :
      (file_size : ℕ) (cs : List LoadCopy)
      → all_copies_inside plan file_size cs ≡ true
      → All (λ c. (c.file_offset + c.size ≤ file_size) × InImage plan c.virtual_address c.size) cs
  unfolding all_copies_inside
  copies_inside file_size [] e = tt
  copies_inside file_size (c ∷ cs) e = (
    (
      (range_is_in_file_iff c.file_offset c.size file_size).0 (ground arith),
      image_offset-InImage plan c.virtual_address c.size (ground arith),
    ),
    copies_inside file_size cs (ground arith),
  )

  pub zero_fills_inside :
      (zs : List LoadZeroFill)
      → all_zero_fills_inside plan zs ≡ true
      → All (λ z. InImage plan z.virtual_address z.size) zs
  unfolding all_zero_fills_inside
  zero_fills_inside [] e = tt
  zero_fills_inside (z ∷ zs) e = (
    image_offset-InImage plan z.virtual_address z.size (ground arith),
    zero_fills_inside zs (ground arith),
  )

  pub protections_inside :
      (ps : List LoadProtection)
      → all_protections_inside plan ps ≡ true
      → All (λ p. InImage plan p.virtual_address p.size) ps
  unfolding all_protections_inside
  protections_inside [] e = tt
  protections_inside (p ∷ ps) e = (
    image_offset-InImage plan p.virtual_address p.size (ground arith),
    protections_inside ps (ground arith),
  )

-- The element stands in the list.
abbrev pub Among : {A : Type 0} → A → List A → Type 0
Among x xs = (k : ℕ) × (get_elem? xs k ≡ some x)

last_at_or_before-Among :
    {A : Type 0} (start : A → ℕ) (address : ℕ) (best : Option A) (xs : List A) (x : A)
    → last_at_or_before start address best xs ≡ some x
    → (best ≡ some x) ⊎ Among x xs
unfolding last_at_or_before
last_at_or_before-Among start address best [] x e = inl e
last_at_or_before-Among start address best (y ∷ ys) x e =
    elim (Bool-cases (ltb address (start y))) [
      | inl above ↦ inl (ground arith)
      | inr below ↦ elim (last_at_or_before-Among start address (some y) ys x (ground arith)) [
        | inl here ↦ inr (0, here)
        | inr (k, later) ↦ inr (suc k, later)
      ]
    ]

last_Among :
    {A : Type 0} (start : A → ℕ) (address : ℕ) (xs : List A) (x : A)
    → last_at_or_before start address none xs ≡ some x
    → Among x xs
last_Among start address xs x e = elim (last_at_or_before-Among start address none xs x e) [
  | inl impossible ↦ cc
  | inr found ↦ found
]

range_in_operation-bounds :
    (start extent address size : ℕ)
    → range_in_operation start extent address size ≡ true
    → (start ≤ address) × (address + size ≤ start + extent)
unfolding range_in_operation
range_in_operation-bounds start extent address size e = (ground arith, ground arith)

-- One of the copies holds every byte of the range.
abbrev pub FromFile : List LoadCopy → ℕ → ℕ → Type 0
FromFile copies address size =
    (c : LoadCopy) × Among c copies
    × (c.virtual_address ≤ address)
    × (address + size ≤ c.virtual_address + c.size)

-- One of the protections, with the flags that `required` asks for, holds every byte of the range.
abbrev pub Covered : List LoadProtection → ℕ → ℕ → ℕ → Type 0
Covered protections address size required =
    (p : LoadProtection) × Among p protections
    × (p.virtual_address ≤ address)
    × (address + size ≤ p.virtual_address + p.size)
    × (bit_and p.flags required ≡ required)

range_is_file_backed-FromFile :
    (copies : List LoadCopy) (address size : ℕ)
    → range_is_file_backed copies address size ≡ true
    → FromFile copies address size
unfolding range_is_file_backed
range_is_file_backed-FromFile copies address size e =
    elim (Option-cases (last_at_or_before (λ c. c.virtual_address) address none copies)) [
      | inl missing ↦ absurd (ground arith)
      | inr (c, found) ↦
          let (above, inside) =
            range_in_operation-bounds c.virtual_address c.size address size (ground arith) in
          (c, last_Among (λ c. c.virtual_address) address copies c found, above, inside)
    ]

range_has_protection-Covered :
    (protections : List LoadProtection) (address size required : ℕ)
    → range_has_protection protections address size required ≡ true
    → Covered protections address size required
unfolding range_has_protection has_flags
range_has_protection-Covered protections address size required e =
    elim (Option-cases (last_at_or_before (λ p. p.virtual_address) address none protections)) [
      | inl missing ↦ absurd (ground arith)
      | inr (p, found) ↦
          let (above, inside) =
            range_in_operation-bounds p.virtual_address p.size address size (ground arith) in
          (
            p,
            last_Among (λ p. p.virtual_address) address protections p found,
            above,
            inside,
            ground arith,
          )
    ]

pub copies-Covered :
    (plan : LoadPlan) (cs : List LoadCopy)
    → all_copies_protected plan cs ≡ true
    → All (λ c. Covered plan.protections c.virtual_address c.size 0) cs
unfolding all_copies_protected
copies-Covered plan [] e = tt
copies-Covered plan (c ∷ cs) e = (
  range_has_protection-Covered plan.protections c.virtual_address c.size 0 (ground arith),
  copies-Covered plan cs (ground arith),
)

pub zero_fills-Covered :
    (plan : LoadPlan) (zs : List LoadZeroFill)
    → all_zero_fills_protected plan zs ≡ true
    → All (λ z. Covered plan.protections z.virtual_address z.size 0) zs
unfolding all_zero_fills_protected
zero_fills-Covered plan [] e = tt
zero_fills-Covered plan (z ∷ zs) e = (
  range_has_protection-Covered plan.protections z.virtual_address z.size 0 (ground arith),
  zero_fills-Covered plan zs (ground arith),
)

-- The descriptor is aligned, in the image and from the file; the entry is the first byte of code
-- from the file in executable memory.
pub record IsStartable (plan : LoadPlan) (k : KernelInfo) : Type 0 where
  pub descriptor_in_image : InImage plan k.descriptor_virtual_address 64
  pub descriptor_aligned : k.descriptor_virtual_address % 64 ≡ 0
  pub descriptor_from_file : FromFile plan.copies k.descriptor_virtual_address 64
  pub entry_from_file : FromFile plan.copies k.code_entry_virtual_address 1
  pub entry_executable : Covered plan.protections k.code_entry_virtual_address 1 1

kernel_is_consistent-IsStartable :
    (plan : LoadPlan) (k : KernelInfo) → kernel_is_consistent plan k ≡ true → IsStartable plan k
unfolding kernel_is_consistent
kernel_is_consistent-IsStartable plan k e =
    elim (Option-cases (image_offset plan k.descriptor_virtual_address 64)) [
      | inl outside ↦ absurd (ground arith)
      | inr (offset, inside) ↦ record {
        descriptor_in_image =
            image_offset-InImage plan k.descriptor_virtual_address 64 (ap is_some inside);
        descriptor_aligned = ground arith;
        descriptor_from_file =
            range_is_file_backed-FromFile plan.copies k.descriptor_virtual_address 64
              (ground arith);
        entry_from_file =
            range_is_file_backed-FromFile plan.copies k.code_entry_virtual_address 1 (ground arith);
        entry_executable =
            range_has_protection-Covered plan.protections k.code_entry_virtual_address 1 1
              (ground arith);
      }
    ]

pub All-kernels-IsStartable :
    (plan : LoadPlan) (ks : List KernelInfo)
    → all_kernels_consistent plan ks ≡ true
    → All (IsStartable plan) ks
unfolding all_kernels_consistent
All-kernels-IsStartable plan [] e = tt
All-kernels-IsStartable plan (k ∷ ks) e = (
  kernel_is_consistent-IsStartable plan k (ground arith),
  All-kernels-IsStartable plan ks (ground arith),
)
