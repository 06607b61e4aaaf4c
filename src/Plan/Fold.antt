-- ===== src/Plan/Fold.antt =====
-- The loop of `build_load_plan` in light-rocr/loader/load_plan_reader.cpp: what it collects, as lists of their own.
use light_rocm_runtime.Prelude.{
  ℕ, ◌+◌, ◌-◌, ◌≤◌, ◌≡◌, ◌≢◌, refl, sym, ap, ◌∙◌, ◌⊎◌, List, [], ◌∷◌, ◌++◌, All, map, ltb, ◌!=◌,
  if◌then◌else◌, arith,
}
use mathlib.Core.List.{append_assoc}
use light_rocm_runtime.Word.{checked_add}
use light_rocm_runtime.Loader.{LoadSegment, Outcome, ParseError, done, failed, fault}
use light_rocm_runtime.Loader.Elf.{ParsedLoadSegment}
use light_rocm_runtime.Loader.Elf.Segments.{IsLoadable}
use light_rocm_runtime.Plan.{
  LoadCopy, LoadZeroFill, LoadProtection, Layout, or_overflow, add_zero_fill, add_segment,
  add_segments,
}

abbrev pub copy_of : LoadSegment → LoadCopy
copy_of s = record {
  file_offset = s.file_offset;
  virtual_address = s.virtual_address;
  size = s.file_size;
}

abbrev pub zero_fill_of : LoadSegment → LoadZeroFill
zero_fill_of s = record {
  virtual_address = s.virtual_address + s.file_size;
  size = s.memory_size - s.file_size;
}

abbrev pub protection_of : LoadSegment → LoadProtection
protection_of s = record {
  virtual_address = s.virtual_address;
  size = s.memory_size;
  flags = s.flags;
}

unfoldable pub copies_of : List ParsedLoadSegment → List LoadCopy
copies_of [] = []
copies_of (p ∷ ps) =
    let rest = copies_of ps in if p.segment.file_size != 0 then copy_of p.segment ∷ rest else rest

unfoldable pub zero_fills_of : List ParsedLoadSegment → List LoadZeroFill
zero_fills_of [] = []
zero_fills_of (p ∷ ps) =
    let rest = zero_fills_of ps in
    if ltb p.segment.file_size p.segment.memory_size then zero_fill_of p.segment ∷ rest else rest

unfoldable pub protections_of : List ParsedLoadSegment → List LoadProtection
protections_of [] = []
protections_of (p ∷ ps) =
    let rest = protections_of ps in
    if p.segment.memory_size != 0 then protection_of p.segment ∷ rest else rest

-- The segment takes no memory, or lies in the extent of the layout.
abbrev pub Within : Layout → ParsedLoadSegment → Type 0
Within l p =
    (p.segment.memory_size ≡ 0)
    ⊎ ((l.image_virtual_address ≤ p.segment.virtual_address)
        × (p.segment.virtual_address + p.segment.memory_size ≤ l.image_end))

-- What the loop makes of the layout `l` and the segments `ps`.
pub record Collects (l : Layout) (ps : List ParsedLoadSegment) (l' : Layout) : Type 0 where
  pub all_copies : l'.copies ≡ l.copies ++ copies_of ps
  pub all_zero_fills : l'.zero_fills ≡ l.zero_fills ++ zero_fills_of ps
  pub all_protections : l'.protections ≡ l.protections ++ protections_of ps
  pub starts_before : l'.image_virtual_address ≤ l.image_virtual_address
  pub ends_behind : l.image_end ≤ l'.image_end
  pub within : All (Within l') ps

append_nil {ℓ} : {A : Type ℓ} (xs : List A) → xs ≡ xs ++ []
append_nil [] = refl
append_nil (x ∷ xs) = ap (λ t. x ∷ t) (append_nil xs)

copies_of_cons :
    (p : ParsedLoadSegment) (ps : List ParsedLoadSegment)
    → copies_of (p ∷ ps) ≡ copies_of (p ∷ []) ++ copies_of ps
unfolding copies_of
copies_of_cons p ps = ground arith

zero_fills_of_cons :
    (p : ParsedLoadSegment) (ps : List ParsedLoadSegment)
    → zero_fills_of (p ∷ ps) ≡ zero_fills_of (p ∷ []) ++ zero_fills_of ps
unfolding zero_fills_of
zero_fills_of_cons p ps = ground arith

protections_of_cons :
    (p : ParsedLoadSegment) (ps : List ParsedLoadSegment)
    → protections_of (p ∷ ps) ≡ protections_of (p ∷ []) ++ protections_of ps
unfolding protections_of
protections_of_cons p ps = ground arith

-- Two rounds of appending, as one.
append_twice {ℓ} :
    {A : Type ℓ} (xs bs cs : List A) {ys zs ds : List A}
    → ys ≡ xs ++ bs
    → zs ≡ ys ++ cs
    → ds ≡ bs ++ cs
    → zs ≡ xs ++ ds
append_twice xs bs cs e f g =
    f ∙ ap (λ t. t ++ cs) e ∙ append_assoc xs bs cs ∙ ap (λ t. xs ++ t) (sym g)

Within-wider :
    (l l' : Layout) (ps : List ParsedLoadSegment)
    → l'.image_virtual_address ≤ l.image_virtual_address
    → l.image_end ≤ l'.image_end
    → All (Within l) ps
    → All (Within l') ps
Within-wider l l' [] a b h = tt
Within-wider l l' (p ∷ ps) a b h = (ground arith, Within-wider l l' ps a b h.1)

succeeds :
    {A : Type 0} (m : Outcome A)
    → ((e : ParseError) → m ≢ failed e)
    → m ≢ fault
    → (a : A) × (m ≡ done a)
succeeds (done a) h k = (a, refl)
succeeds (failed e) h k = absurd (h e refl)
succeeds fault h k = absurd (k refl)

module _ (size : ℕ) where
  add_segment_total :
      (l : Layout) (s : LoadSegment)
      → IsLoadable size s
      → (l' : Layout) × (add_segment l s ≡ done l')
  unfolding add_segment add_zero_fill or_overflow checked_add
  add_segment_total l s h =
      succeeds (add_segment l s) (λ e. λ x. ground (arith, h.in_memory, h.zero_tail))
        (λ x. ground (arith, h.in_memory, h.zero_tail))

  add_segment-Collects :
      (l l' : Layout) (p : ParsedLoadSegment)
      → IsLoadable size p.segment
      → add_segment l p.segment ≡ done l'
      → Collects l (p ∷ []) l'
  unfolding add_segment add_zero_fill or_overflow checked_add copies_of zero_fills_of protections_of
  add_segment-Collects l l' p h e = record {
    all_copies = ground (arith, append_nil l.copies);
    all_zero_fills = ground (arith, append_nil l.zero_fills);
    all_protections = ground (arith, append_nil l.protections);
    starts_before = ground arith;
    ends_behind = ground arith;
    within = (ground arith, tt);
  }

  Collects-cons :
      (l l1 l2 : Layout) (p : ParsedLoadSegment) (ps : List ParsedLoadSegment)
      → Collects l (p ∷ []) l1
      → Collects l1 ps l2
      → Collects l (p ∷ ps) l2
  Collects-cons l l1 l2 p ps one more = record {
    all_copies = append_twice _ _ _ one.all_copies more.all_copies (copies_of_cons p ps);
    all_zero_fills =
        append_twice _ _ _ one.all_zero_fills more.all_zero_fills (zero_fills_of_cons p ps);
    all_protections =
        append_twice _ _ _ one.all_protections more.all_protections (protections_of_cons p ps);
    starts_before = omega (arith, one.starts_before, more.starts_before);
    ends_behind = omega (arith, one.ends_behind, more.ends_behind);
    within = (
      (Within-wider l1 l2 (p ∷ []) more.starts_before more.ends_behind one.within).0,
      more.within,
    );
  }

  -- The loop runs to its end on loadable segments, and collects all of them.
  pub add_segments-Collects :
      (l : Layout) (ps : List ParsedLoadSegment)
      → All (λ p. IsLoadable size p.segment) ps
      → (l' : Layout) × (add_segments l (map (λ p. p.segment) ps) ≡ done l') × Collects l ps l'
  unfolding add_segments copies_of zero_fills_of protections_of
  add_segments-Collects l [] h = (
    l,
    refl,
    record {
      all_copies = append_nil l.copies;
      all_zero_fills = append_nil l.zero_fills;
      all_protections = append_nil l.protections;
      starts_before = omega arith;
      ends_behind = omega arith;
      within = tt;
    },
  )
  add_segments-Collects l (p ∷ ps) h =
      let (l1, one) = add_segment_total l p.segment h.0 in
      let (l2, more, all) = add_segments-Collects l1 ps h.1 in
      (
        l2,
        rw (one, add_segments) more,
        Collects-cons l l1 l2 p ps (add_segment-Collects l l1 p h.0 one) all,
      )
