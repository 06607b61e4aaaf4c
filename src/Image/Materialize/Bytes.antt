-- ===== src/Image/Materialize/Bytes.antt =====
-- The single writes of `materialize_executable_image` in light-rocr/runtime/executable_image.cpp: which
-- bytes each sets, and which it leaves.
use light_rocm_runtime.Prelude.{
  ℕ, zero, suc, ◌+◌, ◌-◌, ◌≤◌, ◌<◌, ◌≡◌, refl, sym, ap, subst, ◌∙◌, ◌⊎◌, inl, inr, some, Option,
  List, [], ◌∷◌, All, arith, length, get_elem?, get_or, Bool-cases, ◌==◌,
}
use light_rocm_runtime.Prelude.Sorting.{AllPairs}
use light_rocm_runtime.Plan.{LoadCopy, LoadZeroFill, Relocation}
use light_rocm_runtime.Image.Ranges.{EndsBefore}
use light_rocm_runtime.Image.Materialize.{
  Block, overlay, store, apply_copy, apply_copies, apply_zero_fills, apply_relocation,
  apply_relocations, relocation_byte,
}

-- The offset lies in front of the range, or behind it.
abbrev pub Misses : ℕ → ℕ → ℕ → Type 0
Misses start extent x = (x < start) ⊎ (start + extent ≤ x)

module _ (offset count : ℕ) (source : ℕ → ℕ) (b : Block) where
  pub overlay_hit :
      (k : ℕ) → k < count → (overlay offset count source b).byte (offset + k) ≡ source k
  unfolding overlay
  overlay_hit k h = let at : offset + k - offset ≡ k = omega arith in ground (arith, ap source at)

  pub overlay_miss :
      (x : ℕ) → Misses offset count x → (overlay offset count source b).byte x ≡ b.byte x
  unfolding overlay
  overlay_miss x h = ground arith

  pub overlay_size : (overlay offset count source b).size ≡ b.size
  unfolding overlay
  overlay_size = refl

  pub store_total :
      offset + count ≤ b.size → store offset count source b ≡ some (overlay offset count source b)
  unfolding store
  store_total h = ground arith

-- A run that ends in a block of the same size, which keeps the bytes that `missed` holds of.
pub record Writes (missed : ℕ → Type 0) (b : Block) (out : Option Block) : Type 0 where
  pub after : Block
  pub ran : out ≡ some after
  pub same_size : after.size ≡ b.size
  pub kept : (x : ℕ) → missed x → after.byte x ≡ b.byte x

overlay_zero :
    (offset count : ℕ) (b : Block) (x : ℕ)
    → b.byte x ≡ 0
    → (overlay offset count (λ i. 0) b).byte x ≡ 0
unfolding overlay
overlay_zero offset count b x e = ground arith

module _ (base : ℕ) where
  -- The operation lies in a block of `size` bytes.
  abbrev pub Fits : ℕ → ℕ → ℕ → Type 0
  Fits size address extent = (base ≤ address) × (address - base + extent ≤ size)

  pub zero_fills_run :
      (zs : List LoadZeroFill) (b : Block)
      → All (λ z. Fits b.size z.virtual_address z.size) zs
      → (w : Writes
          (λ x. All (λ z. Misses (z.virtual_address - base) z.size x) zs)
          b
          (apply_zero_fills base zs b))
        × ((x : ℕ) → b.byte x ≡ 0 → w.after.byte x ≡ 0)
  unfolding apply_zero_fills
  zero_fills_run [] b h =
      (record { after = b; ran = refl; same_size = refl; kept = λ x m. refl }, λ x e. e)
  zero_fills_run (z ∷ zs) b h =
      let start = z.virtual_address - base in
      let b1 = overlay start z.size (λ i. 0) b in
      let (w, zero_kept) = zero_fills_run zs b1 (
        subst (λ (n : ℕ). All (λ z. Fits n z.virtual_address z.size) zs)
          (sym (overlay_size start z.size (λ i. 0) b)) h.1) in
      (
        record {
          after = w.after;
          ran = rw (store_total start z.size (λ i. 0) b h.0.1, apply_zero_fills) w.ran;
          same_size = w.same_size ∙ overlay_size start z.size (λ i. 0) b;
          kept = λ x m. w.kept x m.1 ∙ overlay_miss start z.size (λ i. 0) b x m.0;
        },
        λ x e. zero_kept x (overlay_zero start z.size b x e),
      )

  module _ (hsaco : List ℕ) where
    abbrev Copied : LoadCopy → ℕ → Block → Type 0
    Copied c i b = b.byte (c.virtual_address - base + i) ≡ get_or hsaco (c.file_offset + i) 0

    all_Copied :
        (c : LoadCopy) (cs : List LoadCopy) (b : Block)
        → ((i : ℕ) → i < c.size → Copied c i b)
        → ((k i : ℕ) (d : LoadCopy) → get_elem? cs k ≡ some d → i < d.size → Copied d i b)
        → (k i : ℕ) (d : LoadCopy) → get_elem? (c ∷ cs) k ≡ some d
        → i < d.size
        → Copied d i b
    all_Copied c cs b first later zero i d e =
        subst (λ (x : LoadCopy). i < x.size → Copied x i b) (same e) (first i)
      where
        same : some c ≡ some d → c ≡ d
        same e = cc
    all_Copied c cs b first later (suc k) i d e = later k i d e

    -- The bytes of a copy are not touched by those behind it.
    later_Misses :
        (c : LoadCopy) (cs : List LoadCopy) (size i : ℕ)
        → base ≤ c.virtual_address
        → i < c.size
        → All (λ c. (c.file_offset + c.size ≤ length hsaco) × Fits size c.virtual_address c.size) cs
        → All (EndsBefore (λ c. c.virtual_address) (λ c. c.size) c) cs
        → All (λ d. Misses (d.virtual_address - base) d.size (c.virtual_address - base + i)) cs
    later_Misses c [] size i above l h o = tt
    later_Misses c (d ∷ ds) size i above l h o =
        (inl (omega arith), later_Misses c ds size i above l h.1 o.1)

    apply_copy_total :
        (c : LoadCopy) (b : Block)
        → c.file_offset + c.size ≤ length hsaco
        → Fits b.size c.virtual_address c.size
        → apply_copy base hsaco c b
          ≡ some (
              overlay (c.virtual_address - base) c.size (λ i. get_or hsaco (c.file_offset + i) 0) b)
    unfolding apply_copy
    apply_copy_total c b inside fits =
        let done =
          store_total (c.virtual_address - base) c.size (λ i. get_or hsaco (c.file_offset + i) 0) b
            fits.1 in
        ground (arith, done)

    pub copies_run :
        (cs : List LoadCopy) (b : Block)
        → All
            (λ c. (c.file_offset + c.size ≤ length hsaco) × Fits b.size c.virtual_address c.size)
            cs
        → AllPairs (EndsBefore (λ c. c.virtual_address) (λ c. c.size)) cs
        → (w : Writes
            (λ x. All (λ c. Misses (c.virtual_address - base) c.size x) cs)
            b
            (apply_copies base hsaco cs b))
          × ((k i : ℕ) (c : LoadCopy) → get_elem? cs k ≡ some c → i < c.size → Copied c i w.after)
    unfolding apply_copies
    copies_run [] b h o =
        (record { after = b; ran = refl; same_size = refl; kept = λ x m. refl }, λ k i c e l. cc)
    copies_run (c ∷ cs) b h o =
        let start = c.virtual_address - base in
        let source : ℕ → ℕ = λ i. get_or hsaco (c.file_offset + i) 0 in
        let b1 = overlay start c.size source b in
        let (w, copied) =
          copies_run cs b1
            (subst
              (λ (n : ℕ).
                All (λ c. (c.file_offset + c.size ≤ length hsaco) × Fits n c.virtual_address c.size)
                  cs)
              (sym (overlay_size start c.size source b)) h.1)
            o.1 in
        (
          record {
            after = w.after;
            ran = rw (apply_copy_total c b h.0.0 h.0.1, apply_copies) w.ran;
            same_size = w.same_size ∙ overlay_size start c.size source b;
            kept = λ x m. w.kept x m.1 ∙ overlay_miss start c.size source b x m.0;
          },
          all_Copied c cs w.after
              (λ i l.
                w.kept (start + i) (later_Misses c cs b.size i h.0.1.0 l h.1 o.0)
                ∙ overlay_hit start c.size source b i l)
              copied,
        )

  module _ (load_bias : ℕ) where
    relocation_run :
        (r : Relocation) (b : Block)
        → (r.kind ≡ 0) ⊎ (r.target_virtual_address - base + 8 ≤ b.size)
        → Writes
            (λ x. (r.kind ≡ 0) ⊎ Misses (r.target_virtual_address - base) 8 x)
            b
            (apply_relocation base load_bias r b)
    unfolding apply_relocation
    relocation_run r b h =
        let target = r.target_virtual_address - base in
        let source = relocation_byte load_bias r target b in
        elim (Bool-cases (r.kind == 0)) [
          | inl skipped ↦ record {
            after = b;
            ran = rw (skipped, apply_relocation) refl;
            same_size = refl;
            kept = λ x m. refl;
          }
          | inr written ↦
              let fits : target + 8 ≤ b.size = ground arith in
              let done = store_total target 8 source b fits in
              record {
                after = overlay target 8 source b;
                ran = ground (arith, done);
                same_size = overlay_size target 8 source b;
                kept = λ x m. elim m [
                  | inl none_written ↦ absurd (ground arith)
                  | inr miss ↦ overlay_miss target 8 source b x miss
                ];
              }
        ]

    pub relocations_run :
        (rs : List Relocation) (b : Block)
        → All (λ r. (r.kind ≡ 0) ⊎ (r.target_virtual_address - base + 8 ≤ b.size)) rs
        → Writes
            (λ x. All (λ r. (r.kind ≡ 0) ⊎ Misses (r.target_virtual_address - base) 8 x) rs)
            b
            (apply_relocations base load_bias rs b)
    unfolding apply_relocations
    relocations_run [] b h = record { after = b; ran = refl; same_size = refl; kept = λ x m. refl }
    relocations_run (r ∷ rs) b h =
        let one = relocation_run r b h.0 in
        let rest = relocations_run rs one.after (
          subst (λ (n : ℕ). All (λ r. (r.kind ≡ 0) ⊎ (r.target_virtual_address - base + 8 ≤ n)) rs)
            (sym one.same_size) h.1) in
        record {
          after = rest.after;
          ran = rw (one.ran, apply_relocations) rest.ran;
          same_size = rest.same_size ∙ one.same_size;
          kept = λ x m. rest.kept x m.1 ∙ one.kept x m.0;
        }
