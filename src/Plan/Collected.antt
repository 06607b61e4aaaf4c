-- ===== src/Plan/Collected.antt =====
-- The operations that `build_load_plan` of light-rocr/loader/load_plan_reader.cpp collects, before
-- they are sorted: relations between them.
use light_rocm_runtime.Prelude.{
  ℕ, ◌+◌, ◌≤◌, ◌<◌, ◌⊎◌, inl, inr, List, [], ◌∷◌, All, ltb, ◌!=◌, Bool-cases, arith,
}
use light_rocm_runtime.Prelude.Sorting.{AllPairs}
use light_rocm_runtime.Loader.Elf.{ParsedLoadSegment, memory_start, memory_extent}
use light_rocm_runtime.Loader.Elf.Overlap.{AreDisjoint}
use light_rocm_runtime.Loader.Elf.Segments.{IsLoadable}
use light_rocm_runtime.Plan.{LoadCopy, LoadZeroFill, LoadProtection}
use light_rocm_runtime.Plan.Fold.{
  copy_of, zero_fill_of, protection_of, copies_of, zero_fills_of, protections_of,
}
use light_rocm_runtime.Image.Ranges.{AreApart}

abbrev pub DisjointMemory : ParsedLoadSegment → ParsedLoadSegment → Type 0
DisjointMemory = AreDisjoint memory_start memory_extent

-- Two ranges with no byte in common, in either order.
abbrev pub Apart : {A : Type 0} (address size : A → ℕ) → A → A → Type 0
Apart address size a b = (address a + size a ≤ address b) ⊎ (address b + size b ≤ address a)

abbrev pub CopiesApart : LoadCopy → LoadCopy → Type 0
CopiesApart = Apart (λ c. c.virtual_address) (λ c. c.size)

abbrev pub ZeroFillsApart : LoadZeroFill → LoadZeroFill → Type 0
ZeroFillsApart = Apart (λ z. z.virtual_address) (λ z. z.size)

abbrev pub ProtectionsApart : LoadProtection → LoadProtection → Type 0
ProtectionsApart = Apart (λ p. p.virtual_address) (λ p. p.size)

-- A property of loadable segments that their operations have.
pub copies_of-All :
    (size : ℕ) (P : LoadCopy → Type 0) (Q : ParsedLoadSegment → Type 0)
    → ((p : ParsedLoadSegment)
        → IsLoadable size p.segment
        → Q p
        → 0 < p.segment.file_size
        → P (copy_of p.segment))
    → (ps : List ParsedLoadSegment) → All (λ p. IsLoadable size p.segment) ps
    → All Q ps
    → All P (copies_of ps)
unfolding copies_of
copies_of-All size P Q f [] h q = tt
copies_of-All size P Q f (p ∷ ps) h q = elim (Bool-cases (p.segment.file_size != 0)) [
  | inl some_bytes ↦
      rw (some_bytes, copies_of) (f p h.0 q.0 (ground arith), copies_of-All size P Q f ps h.1 q.1)
  | inr none_left ↦ rw (none_left, copies_of) (copies_of-All size P Q f ps h.1 q.1)
]

pub zero_fills_of-All :
    (size : ℕ) (P : LoadZeroFill → Type 0) (Q : ParsedLoadSegment → Type 0)
    → ((p : ParsedLoadSegment)
        → IsLoadable size p.segment
        → Q p
        → p.segment.file_size < p.segment.memory_size
        → P (zero_fill_of p.segment))
    → (ps : List ParsedLoadSegment) → All (λ p. IsLoadable size p.segment) ps
    → All Q ps
    → All P (zero_fills_of ps)
unfolding zero_fills_of
zero_fills_of-All size P Q f [] h q = tt
zero_fills_of-All size P Q f (p ∷ ps) h q =
    elim (Bool-cases (ltb p.segment.file_size p.segment.memory_size)) [
      | inl more ↦
          rw (more, zero_fills_of)
            (f p h.0 q.0 (ground arith), zero_fills_of-All size P Q f ps h.1 q.1)
      | inr none_left ↦ rw (none_left, zero_fills_of) (zero_fills_of-All size P Q f ps h.1 q.1)
    ]

pub protections_of-All :
    (size : ℕ) (P : LoadProtection → Type 0) (Q : ParsedLoadSegment → Type 0)
    → ((p : ParsedLoadSegment)
        → IsLoadable size p.segment
        → Q p
        → 0 < p.segment.memory_size
        → P (protection_of p.segment))
    → (ps : List ParsedLoadSegment) → All (λ p. IsLoadable size p.segment) ps
    → All Q ps
    → All P (protections_of ps)
unfolding protections_of
protections_of-All size P Q f [] h q = tt
protections_of-All size P Q f (p ∷ ps) h q = elim (Bool-cases (p.segment.memory_size != 0)) [
  | inl some_bytes ↦
      rw (some_bytes, protections_of)
        (f p h.0 q.0 (ground arith), protections_of-All size P Q f ps h.1 q.1)
  | inr none_left ↦ rw (none_left, protections_of) (protections_of-All size P Q f ps h.1 q.1)
]

module _ (size : ℕ) where
  pub copies_of-Apart :
      (ps : List ParsedLoadSegment)
      → All (λ p. IsLoadable size p.segment) ps
      → AllPairs DisjointMemory ps
      → AllPairs CopiesApart (copies_of ps)
  unfolding copies_of
  copies_of-Apart [] h d = tt
  copies_of-Apart (p ∷ ps) h d = elim (Bool-cases (p.segment.file_size != 0)) [
    | inl some_bytes ↦
        rw (some_bytes, copies_of)
          (
            copies_of-All size (CopiesApart (copy_of p.segment)) (DisjointMemory p)
                (λ q loadable apart pos. ground (arith, h.0.zero_tail, loadable.zero_tail)) ps h.1
                d.0,
            copies_of-Apart ps h.1 d.1,
          )
    | inr none_left ↦ rw (none_left, copies_of) (copies_of-Apart ps h.1 d.1)
  ]

  pub zero_fills_of-Apart :
      (ps : List ParsedLoadSegment)
      → All (λ p. IsLoadable size p.segment) ps
      → AllPairs DisjointMemory ps
      → AllPairs ZeroFillsApart (zero_fills_of ps)
  unfolding zero_fills_of
  zero_fills_of-Apart [] h d = tt
  zero_fills_of-Apart (p ∷ ps) h d =
      elim (Bool-cases (ltb p.segment.file_size p.segment.memory_size)) [
        | inl more ↦
            rw (more, zero_fills_of)
              (
                zero_fills_of-All size (ZeroFillsApart (zero_fill_of p.segment)) (DisjointMemory p)
                    (λ q loadable apart pos. ground (arith, h.0.zero_tail, loadable.zero_tail)) ps
                    h.1 d.0,
                zero_fills_of-Apart ps h.1 d.1,
              )
        | inr none_left ↦ rw (none_left, zero_fills_of) (zero_fills_of-Apart ps h.1 d.1)
      ]

  pub protections_of-Apart :
      (ps : List ParsedLoadSegment)
      → All (λ p. IsLoadable size p.segment) ps
      → AllPairs DisjointMemory ps
      → AllPairs ProtectionsApart (protections_of ps)
  unfolding protections_of
  protections_of-Apart [] h d = tt
  protections_of-Apart (p ∷ ps) h d = elim (Bool-cases (p.segment.memory_size != 0)) [
    | inl some_bytes ↦
        rw (some_bytes, protections_of)
          (
            protections_of-All size (ProtectionsApart (protection_of p.segment)) (DisjointMemory p)
                (λ q loadable apart pos. ground arith) ps h.1 d.0,
            protections_of-Apart ps h.1 d.1,
          )
    | inr none_left ↦ rw (none_left, protections_of) (protections_of-Apart ps h.1 d.1)
  ]

  All-both :
      {A : Type 0} (P Q : A → Type 0) (xs : List A) → All P xs → All Q xs → All (λ x. P x × Q x) xs
  All-both P Q [] p q = tt
  All-both P Q (x ∷ xs) p q = ((p.0, q.0), All-both P Q xs p.1 q.1)

  -- Copies that are apart from the later zero fills are so from those of one more segment.
  more_zero_fills :
      (p : ParsedLoadSegment) (ps : List ParsedLoadSegment) (cs : List LoadCopy)
      → (p.segment.file_size < p.segment.memory_size
          → All (λ c. AreApart c (zero_fill_of p.segment)) cs)
      → All (λ c. All (AreApart c) (zero_fills_of ps)) cs
      → All (λ c. All (AreApart c) (zero_fills_of (p ∷ ps))) cs
  unfolding zero_fills_of
  more_zero_fills p ps cs head tail =
      elim (Bool-cases (ltb p.segment.file_size p.segment.memory_size)) [
        | inl more ↦ rw (more, zero_fills_of) (All-both _ _ cs (head (ground arith)) tail)
        | inr none_left ↦ rw (none_left, zero_fills_of) tail
      ]

  -- A copy of a segment against the zero fills of it and of later ones.
  head_copy-AreApart :
      (p : ParsedLoadSegment) (ps : List ParsedLoadSegment)
      → All (λ q. IsLoadable size q.segment) (p ∷ ps)
      → All (DisjointMemory p) ps
      → 0 < p.segment.file_size
      → All (AreApart (copy_of p.segment)) (zero_fills_of (p ∷ ps))
  head_copy-AreApart p ps h d pos =
      (more_zero_fills p ps (copy_of p.segment ∷ []) (λ more. (inl (omega arith), tt))
        (
          zero_fills_of-All size (AreApart (copy_of p.segment)) (DisjointMemory p)
              (λ q loadable apart more. ground (arith, h.0.zero_tail, loadable.zero_tail)) ps h.1 d,
          tt,
        )).0

  pub copies_of-AreApart :
      (ps : List ParsedLoadSegment)
      → All (λ p. IsLoadable size p.segment) ps
      → AllPairs DisjointMemory ps
      → All (λ c. All (AreApart c) (zero_fills_of ps)) (copies_of ps)
  unfolding copies_of
  copies_of-AreApart [] h d = tt
  copies_of-AreApart (p ∷ ps) h d =
      let tail : All (λ c. All (AreApart c) (zero_fills_of (p ∷ ps))) (copies_of ps) =
        more_zero_fills p ps (copies_of ps)
          (λ more.
            copies_of-All size (λ c. AreApart c (zero_fill_of p.segment)) (DisjointMemory p)
              (λ q loadable apart pos. ground (arith, h.0.zero_tail, loadable.zero_tail)) ps h.1
              d.0)
          (copies_of-AreApart ps h.1 d.1) in
      elim (Bool-cases (p.segment.file_size != 0)) [
        | inl some_bytes ↦
            rw (some_bytes, copies_of) (head_copy-AreApart p ps h d.0 (ground arith), tail)
        | inr none_left ↦ rw (none_left, copies_of) tail
      ]
