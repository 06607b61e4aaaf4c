-- ===== src/Image/Ranges.antt =====
-- The range tests and the address translation of light-rocr/runtime/executable_image.cpp.
use light_rocm_runtime.Prelude.{
  ℕ, ◌+◌, ◌%◌, ◌≤◌, ◌<◌, ◌≡◌, refl, ◌↔◌, ◌⊎◌, inl, inr, true, false, Option, none, some, List, [],
  ◌∷◌, All, arith,
}
use native.Mathlib.Decide.{dec_le}
use light_rocm_runtime.Prelude.Sorting.{AllPairs}
use light_rocm_runtime.Word.{u64_limit, checked_add}
use light_rocm_runtime.Plan.{LoadPlan, LoadCopy, LoadZeroFill}
use light_rocm_runtime.Image.{
  ordered_from, operations_are_ordered, copy_and_zero_fill_ranges_overlap, image_offset, ok,
  translate_executable_address,
}

module _ {A : Type 0} (address size : A → ℕ) where
  -- A range of at least one byte that ends inside the address space.
  abbrev pub IsProper : A → Type 0
  IsProper a = (0 < size a) × (address a + size a < u64_limit)

  abbrev pub EndsBefore : A → A → Type 0
  EndsBefore a b = address a + size a ≤ address b

  abbrev After : Option ℕ → A → Type 0
  After none a = Unit
  After (some e) a = e ≤ address a

  After-All :
      (e : ℕ) (a : A) (ops : List A)
      → e ≤ address a + size a
      → All (EndsBefore a) ops
      → All (After (some e)) ops
  After-All e a [] h all = tt
  After-All e a (b ∷ bs) h all = (omega arith, After-All e a bs h all.1)

  All-After-none : (ops : List A) → All (After none) ops
  All-After-none [] = tt
  All-After-none (a ∷ ops) = (tt, All-After-none ops)

  ordered_from_sound :
      (previous : Option ℕ) (ops : List A)
      → ordered_from address size previous ops ≡ true
      → All IsProper ops × All (After previous) ops × AllPairs EndsBefore ops
  unfolding ordered_from checked_add
  ordered_from_sound previous [] e = (tt, tt, tt)
  ordered_from_sound none (a ∷ ops) e =
      ground (arith, ordered_from_sound (some (address a + size a)) ops, All-After-none ops)
  ordered_from_sound (some p) (a ∷ ops) e =
      ground (arith, ordered_from_sound (some (address a + size a)) ops, After-All p a ops)

  ordered_from_complete :
      (previous : Option ℕ) (ops : List A)
      → All IsProper ops
      → All (After previous) ops
      → AllPairs EndsBefore ops
      → ordered_from address size previous ops ≡ true
  unfolding ordered_from checked_add
  ordered_from_complete previous [] p f b = refl
  ordered_from_complete none (a ∷ ops) p f b =
      ground (arith, ordered_from_complete (some (address a + size a)) ops p.1 b.0 b.1)
  ordered_from_complete (some e) (a ∷ ops) p f b =
      ground (arith, ordered_from_complete (some (address a + size a)) ops p.1 b.0 b.1)

  -- The operations pass exactly when each has at least one byte and ends inside the address space, and
  -- each ends before every later one starts.
  pub operations_are_ordered_iff :
      (ops : List A)
      → (operations_are_ordered address size ops ≡ true)
        ↔ (All IsProper ops × AllPairs EndsBefore ops)
  unfolding operations_are_ordered
  operations_are_ordered_iff ops = (
    (λ e. let r = ordered_from_sound none ops e in (r.0, r.2)),
    λ h. ordered_from_complete none ops h.0 (All-After-none ops) h.1,
  )

abbrev copy_end : LoadCopy → ℕ
copy_end c = c.virtual_address + c.size

abbrev zero_fill_end : LoadZeroFill → ℕ
zero_fill_end z = z.virtual_address + z.size

-- A copy and a zero fill share no byte of memory.
abbrev pub AreApart : LoadCopy → LoadZeroFill → Type 0
AreApart c z = (copy_end c ≤ z.virtual_address) ⊎ (zero_fill_end z ≤ c.virtual_address)

abbrev pub OrderedCopies : List LoadCopy → Type 0
OrderedCopies cs =
    All (IsProper (λ c. c.virtual_address) (λ c. c.size)) cs
    × AllPairs (EndsBefore (λ c. c.virtual_address) (λ c. c.size)) cs

abbrev pub OrderedZeroFills : List LoadZeroFill → Type 0
OrderedZeroFills zs =
    All (IsProper (λ z. z.virtual_address) (λ z. z.size)) zs
    × AllPairs (EndsBefore (λ z. z.virtual_address) (λ z. z.size)) zs

behind_copy :
    (c : LoadCopy) (z : LoadZeroFill) (zs : List LoadZeroFill)
    → copy_end c ≤ z.virtual_address
    → All (EndsBefore (λ z. z.virtual_address) (λ z. z.size) z) zs
    → All (AreApart c) zs
behind_copy c z [] h e = tt
behind_copy c z (y ∷ zs) h e = (inl (omega arith), behind_copy c z zs h e.1)

behind_zero_fill :
    (z : LoadZeroFill) (c : LoadCopy) (cs : List LoadCopy)
    → zero_fill_end z ≤ c.virtual_address
    → All (EndsBefore (λ c. c.virtual_address) (λ c. c.size) c) cs
    → All (λ d. AreApart d z) (c ∷ cs)
behind_zero_fill z c [] h e = (inr h, tt)
behind_zero_fill z c (d ∷ cs) h e = (inr h, others (d ∷ cs) e)
  where
    others :
        (ds : List LoadCopy)
        → All (EndsBefore (λ c. c.virtual_address) (λ c. c.size) c) ds
        → All (λ d. AreApart d z) ds
    others [] f = tt
    others (d ∷ ds) f = (inr (omega arith), others ds f.1)

no_zero_fills : (cs : List LoadCopy) → All (λ c. All (AreApart c) []) cs
no_zero_fills [] = tt
no_zero_fills (c ∷ cs) = (tt, no_zero_fills cs)

-- One more zero fill that is apart from every copy.
add_column :
    (z : LoadZeroFill) (zs : List LoadZeroFill) (cs : List LoadCopy)
    → All (λ c. AreApart c z) cs
    → All (λ c. All (AreApart c) zs) cs
    → All (λ c. All (AreApart c) (z ∷ zs)) cs
add_column z zs [] h all = tt
add_column z zs (c ∷ cs) h all = ((h.0, all.0), add_column z zs cs h.1 all.1)

drop_column :
    (z : LoadZeroFill) (zs : List LoadZeroFill) (cs : List LoadCopy)
    → All (λ c. All (AreApart c) (z ∷ zs)) cs
    → All (λ c. All (AreApart c) zs) cs
drop_column z zs [] all = tt
drop_column z zs (c ∷ cs) all = (all.0.1, drop_column z zs cs all.1)

no_overlap_sound :
    (cs : List LoadCopy) (zs : List LoadZeroFill)
    → OrderedCopies cs
    → OrderedZeroFills zs
    → copy_and_zero_fill_ranges_overlap cs zs ≡ false
    → All (λ c. All (AreApart c) zs) cs
unfolding copy_and_zero_fill_ranges_overlap
no_overlap_sound [] zs oc oz e = tt
no_overlap_sound (c ∷ cs) [] oc oz e = no_zero_fills (c ∷ cs)
no_overlap_sound (c ∷ cs) (z ∷ zs) oc oz e = elim (dec_le (copy_end c) z.virtual_address) [
  | yes before ↦ (
    (inl before, behind_copy c z zs before oz.1.0),
    no_overlap_sound cs (z ∷ zs) (oc.0.1, oc.1.1) oz (ground arith),
  )
  | no behind ↦
      add_column z zs (c ∷ cs) (behind_zero_fill z c cs (ground arith) oc.1.0)
        (no_overlap_sound (c ∷ cs) zs oc (oz.0.1, oz.1.1) (ground arith))
]

no_overlap_complete :
    (cs : List LoadCopy) (zs : List LoadZeroFill)
    → OrderedCopies cs
    → OrderedZeroFills zs
    → All (λ c. All (AreApart c) zs) cs
    → copy_and_zero_fill_ranges_overlap cs zs ≡ false
unfolding copy_and_zero_fill_ranges_overlap
no_overlap_complete [] zs oc oz all = refl
no_overlap_complete (c ∷ cs) [] oc oz all = refl
no_overlap_complete (c ∷ cs) (z ∷ zs) oc oz all = ground (
  arith,
  no_overlap_complete cs (z ∷ zs) (oc.0.1, oc.1.1) oz all.1,
  no_overlap_complete (c ∷ cs) zs oc (oz.0.1, oz.1.1) (drop_column z zs (c ∷ cs) all),
)

-- For copies and zero fills that are each proper and in order, the walk answers `false` exactly when no
-- copy shares a byte with a zero fill.
pub copy_and_zero_fill_ranges_overlap_iff :
    (cs : List LoadCopy) (zs : List LoadZeroFill)
    → OrderedCopies cs
    → OrderedZeroFills zs
    → (copy_and_zero_fill_ranges_overlap cs zs ≡ false) ↔ (All (λ c. All (AreApart c) zs) cs)
copy_and_zero_fill_ranges_overlap_iff cs zs oc oz =
    (no_overlap_sound cs zs oc oz, no_overlap_complete cs zs oc oz)

-- For an image at a GPU address below 2 ^ 64: a translated address has the distance from it that the
-- virtual address has from the image's base, lies with its range in the mapped image, has the
-- alignment asked for, and does not wrap.
pub translate_executable_address_sound :
    (plan : LoadPlan) (gpu_address virtual_address size alignment result : ℕ)
    → gpu_address < u64_limit
    → translate_executable_address plan gpu_address virtual_address size alignment ≡ ok result
    → (result + plan.image_virtual_address ≡ gpu_address + virtual_address)
      × (gpu_address ≤ result)
      × (result + size ≤ gpu_address + plan.image_size)
      × (result % alignment ≡ 0)
      × (result < u64_limit)
unfolding translate_executable_address image_offset checked_add
translate_executable_address_sound plan gpu_address virtual_address size alignment result h e =
    ground arith
