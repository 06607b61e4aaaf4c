-- ===== src/Loader/Elf/Overlap.antt =====
-- `find_overlapping_segment` of light-rocr/loader/elf_reader.cpp, which compares neighbours of a sorted
-- list, against overlap of any two segments.
use light_rocm_runtime.Prelude.{
  ℕ, ◌+◌, ◌≤◌, ◌<◌, ◌≡◌, refl, ◌↔◌, ◌⊎◌, inl, inr, true, false, none, List, [], ◌∷◌, All, arith,
  ◌!=◌, Bool-cases,
}
use light_rocm_runtime.Prelude.Sorting.{sort, AllPairs, sort-All, sort-AllPairs, sort-Ascending}
use light_rocm_runtime.Word.{u64_limit}
use light_rocm_runtime.Loader.{LoadSegment}
use light_rocm_runtime.Loader.Elf.{
  ParsedLoadSegment, nonempty, comes_before, first_overlap, overlap_in, find_overlapping_segment,
}

module _ (offset range_size : LoadSegment → ℕ) where
  abbrev pub end_of : ParsedLoadSegment → ℕ
  end_of p = offset p.segment + range_size p.segment

  -- The ranges share no byte.
  abbrev pub AreDisjoint : ParsedLoadSegment → ParsedLoadSegment → Type 0
  AreDisjoint a b =
      (range_size a.segment ≡ 0)
      ⊎ (range_size b.segment ≡ 0)
      ⊎ (end_of a ≤ offset b.segment)
      ⊎ (end_of b ≤ offset a.segment)

  AreDisjoint-symmetric : (a b : ParsedLoadSegment) → AreDisjoint a b → AreDisjoint b a
  AreDisjoint-symmetric a b d = ground arith

  abbrev pub Ends : ParsedLoadSegment → Type 0
  Ends p = end_of p < u64_limit

  abbrev HasExtent : ParsedLoadSegment → Type 0
  HasExtent p = (0 < range_size p.segment) × Ends p

  nonempty-HasExtent :
      (ps : List ParsedLoadSegment) → All Ends ps → All HasExtent (nonempty offset range_size ps)
  unfolding nonempty
  nonempty-HasExtent [] h = tt
  nonempty-HasExtent (p ∷ ps) h = ground (arith, nonempty-HasExtent ps h.1)

  All-nonempty :
      (a : ParsedLoadSegment) (ps : List ParsedLoadSegment)
      → (All (AreDisjoint a) (nonempty offset range_size ps)) ↔ (All (AreDisjoint a) ps)
  unfolding nonempty
  All-nonempty a [] = (λ h. tt, λ h. tt)
  All-nonempty a (p ∷ ps) = elim (Bool-cases (range_size p.segment != 0)) [
    | inl e ↦
        rw (e, nonempty)
          ((λ h. (h.0, (All-nonempty a ps).0 h.1)), λ h. (h.0, (All-nonempty a ps).1 h.1))
    | inr e ↦
        rw (e, nonempty)
          (
            (λ h. (inr (inl (ground arith)), (All-nonempty a ps).0 h)),
            λ h. (All-nonempty a ps).1 h.1,
          )
  ]

  All-empty :
      (a : ParsedLoadSegment) (ps : List ParsedLoadSegment)
      → range_size a.segment ≡ 0
      → All (AreDisjoint a) ps
  All-empty a [] e = tt
  All-empty a (p ∷ ps) e = (inl e, All-empty a ps e)

  -- Leaving out the empty ranges changes nothing.
  nonempty-AllPairs :
      (ps : List ParsedLoadSegment)
      → (AllPairs AreDisjoint (nonempty offset range_size ps)) ↔ (AllPairs AreDisjoint ps)
  unfolding nonempty
  nonempty-AllPairs [] = (λ h. tt, λ h. tt)
  nonempty-AllPairs (p ∷ ps) = elim (Bool-cases (range_size p.segment != 0)) [
    | inl e ↦
        rw (e, nonempty)
          (
            (λ h. ((All-nonempty p ps).0 h.0, (nonempty-AllPairs ps).0 h.1)),
            λ h. ((All-nonempty p ps).1 h.0, (nonempty-AllPairs ps).1 h.1),
          )
    | inr e ↦
        rw (e, nonempty)
          (
            (λ h. (All-empty p ps (ground arith), (nonempty-AllPairs ps).0 h)),
            λ h. (nonempty-AllPairs ps).1 h.1,
          )
  ]

  -- With no overlap among neighbours everything behind `p` starts at or behind its end.
  behind :
      (k : ℕ) (p : ParsedLoadSegment) (ps : List ParsedLoadSegment)
      → first_overlap offset range_size p ps ≡ none
      → All HasExtent (p ∷ ps)
      → k ≤ end_of p
      → All (λ q. k ≤ offset q.segment) ps
  unfolding first_overlap
  behind k p [] e h le = tt
  behind k p (q ∷ qs) e h le = ground (arith, behind k q qs)

  weaken :
      (p : ParsedLoadSegment) (ps : List ParsedLoadSegment)
      → All (λ q. end_of p ≤ offset q.segment) ps
      → All (AreDisjoint p) ps
  weaken p [] h = tt
  weaken p (q ∷ qs) h = (inr (inr (inl h.0)), weaken p qs h.1)

  first_overlap_sound :
      (p : ParsedLoadSegment) (ps : List ParsedLoadSegment)
      → first_overlap offset range_size p ps ≡ none
      → All HasExtent (p ∷ ps)
      → AllPairs AreDisjoint (p ∷ ps)
  unfolding first_overlap
  first_overlap_sound p [] e h = (tt, tt)
  first_overlap_sound p (q ∷ qs) e h = (
    weaken p (q ∷ qs) (behind (end_of p) p (q ∷ qs) e h (omega arith)),
    first_overlap_sound q qs (ground arith) h.1,
  )

  first_overlap_complete :
      (p : ParsedLoadSegment) (ps : List ParsedLoadSegment)
      → AllPairs AreDisjoint (p ∷ ps)
      → AllPairs (λ a b. offset a.segment ≤ offset b.segment) (p ∷ ps)
      → All HasExtent (p ∷ ps)
      → first_overlap offset range_size p ps ≡ none
  unfolding first_overlap
  first_overlap_complete p [] d s h = refl
  first_overlap_complete p (q ∷ qs) d s h = ground (arith, first_overlap_complete q qs d.1 s.1 h.1)

  overlap_in_iff :
      (ps : List ParsedLoadSegment)
      → AllPairs (λ a b. offset a.segment ≤ offset b.segment) ps
      → All HasExtent ps
      → (overlap_in offset range_size ps ≡ none) ↔ (AllPairs AreDisjoint ps)
  unfolding overlap_in
  overlap_in_iff [] s h = (λ e. tt, λ d. refl)
  overlap_in_iff (p ∷ ps) s h =
      (λ e. first_overlap_sound p ps e h, λ d. first_overlap_complete p ps d s h)

  -- If no range runs over the end of the address space, the search finds nothing exactly when
  -- no two of the ranges share a byte.
  pub find_overlapping_segment_iff :
      (ps : List ParsedLoadSegment)
      → All Ends ps
      → (find_overlapping_segment offset range_size ps ≡ none) ↔ (AllPairs AreDisjoint ps)
  unfolding find_overlapping_segment
  find_overlapping_segment_iff ps h =
      let before = comes_before offset range_size in
      let some_ps = nonempty offset range_size ps in
      let sorted =
        sort-Ascending before (λ p. offset p.segment) (λ a b e. ordered a b e)
          (λ a b e. reversed a b e) some_ps in
      let scan =
        overlap_in_iff (sort before some_ps) sorted
          ((sort-All before HasExtent some_ps).1 (nonempty-HasExtent ps h)) in
      let order = sort-AllPairs before AreDisjoint AreDisjoint-symmetric some_ps in
      (
        (λ e. (nonempty-AllPairs ps).0 (order.0 (scan.0 e))),
        λ d. scan.1 (order.1 ((nonempty-AllPairs ps).1 d)),
      )
    where
      ordered :
          (a b : ParsedLoadSegment)
          → comes_before offset range_size a b ≡ true
          → offset a.segment ≤ offset b.segment
      ordered a b e = unfold comes_before in ground arith

      reversed :
          (a b : ParsedLoadSegment)
          → comes_before offset range_size a b ≡ false
          → offset b.segment ≤ offset a.segment
      reversed a b e = unfold comes_before in ground arith
