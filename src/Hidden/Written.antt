-- ===== src/Hidden/Written.antt =====
-- What src/light_rocr_kernargs.cpp leaves in a kernarg segment.
use light_rocm_runtime.Prelude.{
  ℕ, zero, suc, ◌+◌, ◌/◌, ◌^◌, ◌≤◌, ◌<◌, ◌≡◌, refl, sym, ap, ◌∙◌, subst, ◌⊎◌, inl, inr, none, some,
  List, [], ◌∷◌, All, arith,
}
use native.Mathlib.Nat.{pow-suc}
use light_rocm_runtime.Prelude.Sorting.{AllPairs}
use light_rocm_runtime.Image.Materialize.{Block, overlay, store, load}
use light_rocm_runtime.Image.Materialize.Bytes.{
  Misses, overlay_hit, overlay_miss, overlay_size, store_total,
}
use light_rocm_runtime.Hidden.{
  KernelArgumentInfo, LaunchConfig, HiddenValue, kernarg_at, populated, byte_of, hidden_value,
  write_argument, copy_value, write_hidden, write_all_hidden,
}

-- A number whose bytes stand in a block is read back.
pub load_lem :
    (count offset value : ℕ) (b : Block)
    → ((k : ℕ) → k < count → b.byte (offset + k) ≡ byte_of value k)
    → value < 256 ^ count
    → load count offset b ≡ value
unfolding load byte_of
load_lem zero offset value b h small = omega arith
load_lem (suc count) offset value b h small =
    let next : ℕ → ℕ = λ k. offset + 1 + k in
    let shifted : (k : ℕ) → offset + 1 + k ≡ offset + suc k = λ k. omega arith in
    let here : offset + 0 ≡ offset = omega arith in
    let rest =
      load_lem count (offset + 1) (value / 256) b
        (λ k lt. ap b.byte (shifted k) ∙ h (suc k) (omega arith))
        (omega (arith, pow-suc 256 count)) in
    omega (arith, rest, ap b.byte (sym here) ∙ h 0 (omega arith))

-- An argument that is written has the size of its value and lies in a segment of `size` bytes.
abbrev pub IsWritable : LaunchConfig → ℕ → KernelArgumentInfo → Type 0
IsWritable config size a =
    (hidden_value config a.kind ≡ none)
    ⊎ ((v : HiddenValue) × (hidden_value config a.kind ≡ some v)
        × (a.size ≡ v.width)
        × (a.offset + a.size ≤ size))

-- The argument is not written, or the offset lies outside of it.
abbrev pub Outside : LaunchConfig → ℕ → KernelArgumentInfo → Type 0
Outside config x a = (hidden_value config a.kind ≡ none) ⊎ Misses a.offset a.size x

abbrev pub EndsBefore : KernelArgumentInfo → KernelArgumentInfo → Type 0
EndsBefore a b = a.offset + a.size ≤ b.offset

-- The value of an argument stands in the block.
abbrev pub Holds : LaunchConfig → Block → KernelArgumentInfo → Type 0
Holds config b a =
    (v : HiddenValue)
    → hidden_value config a.kind ≡ some v
    → (k : ℕ) → k < v.width
    → b.byte (a.offset + k) ≡ byte_of v.value k

module _ (config : LaunchConfig) where
  write_one :
      (a : KernelArgumentInfo) (b : Block)
      → IsWritable config b.size a
      → (after : Block) × (write_hidden config (kernarg_at b) a ≡ populated (kernarg_at after))
        × (after.size ≡ b.size)
        × ((x : ℕ) → Outside config x a → after.byte x ≡ b.byte x)
        × Holds config after a
  unfolding write_hidden write_argument copy_value
  write_one a b (inl e) = (b, rw (e, write_hidden) refl, refl, (λ x o. refl), λ v f k lt. cc)
  write_one a b (inr (v, e, same, fits)) =
      let after = overlay a.offset v.width (byte_of v.value) b in
      let stored = store_total a.offset v.width (byte_of v.value) b (omega arith) in
      (
        after,
        ran stored,
        overlay_size a.offset v.width (byte_of v.value) b,
        (λ x o. overlay_miss a.offset v.width (byte_of v.value) b x (missed x o)),
        λ v' f.
            subst (λ w. (k : ℕ) → k < w.width → after.byte (a.offset + k) ≡ byte_of w.value k)
              (some-injective (sym e ∙ f)) (overlay_hit a.offset v.width (byte_of v.value) b),
      )
    where
      missed : (x : ℕ) → Outside config x a → Misses a.offset v.width x
      missed x (inl none_written) = cc
      missed x (inr m) = subst (λ (n : ℕ). Misses a.offset n x) same m

      some-injective : {v w : HiddenValue} → some v ≡ some w → v ≡ w
      some-injective x = cc

      ran :
          store a.offset v.width (byte_of v.value) b
            ≡ some (overlay a.offset v.width (byte_of v.value) b)
          → write_hidden config (kernarg_at b) a
            ≡ populated (kernarg_at (overlay a.offset v.width (byte_of v.value) b))
      ran stored = ground (arith, e, stored)

  pub width_lem :
      (a : KernelArgumentInfo) (size : ℕ) (v : HiddenValue)
      → IsWritable config size a
      → hidden_value config a.kind ≡ some v
      → a.size ≡ v.width
  width_lem a size v (inl n) e = cc
  width_lem a size v (inr (w, f, same, fits)) e = cc

  -- What an argument holds is left by writes to others.
  Holds-kept :
      (a : KernelArgumentInfo) (rest : List KernelArgumentInfo) (b after : Block)
      → IsWritable config b.size a
      → All (EndsBefore a) rest
      → ((x : ℕ) → All (Outside config x) rest → after.byte x ≡ b.byte x)
      → Holds config b a
      → Holds config after a
  Holds-kept a rest b after w apart kept holds v e k lt =
      kept (a.offset + k) (outside rest apart (omega (arith, width_lem a b.size v w e)))
      ∙ holds v e k lt
    where
      outside :
          (rest : List KernelArgumentInfo)
          → All (EndsBefore a) rest
          → a.offset + k < a.offset + a.size
          → All (Outside config (a.offset + k)) rest
      outside [] h l = tt
      outside (c ∷ cs) h l = (inr (inl (omega arith)), outside cs h.1 l)

  -- The loop over arguments that can be written.
  pub write_all_lem :
      (args : List KernelArgumentInfo) (b : Block)
      → All (IsWritable config b.size) args
      → AllPairs EndsBefore args
      → (after : Block) × (write_all_hidden config (kernarg_at b) args
          ≡ populated (kernarg_at after))
        × (after.size ≡ b.size)
        × ((x : ℕ) → All (Outside config x) args → after.byte x ≡ b.byte x)
        × All (Holds config after) args
  unfolding write_all_hidden
  write_all_lem [] b w apart = (b, refl, refl, (λ x o. refl), tt)
  write_all_lem (a ∷ rest) b w apart =
      let (b1, first, same_size, kept, holds) = write_one a b w.0 in
      let all : All (IsWritable config b1.size) rest =
        subst (λ (n : ℕ). All (IsWritable config n) rest) (sym same_size) w.1 in
      let writable : IsWritable config b1.size a =
        subst (λ (n : ℕ). IsWritable config n a) (sym same_size) w.0 in
      let (after, ran, same, later_kept, later_holds) = write_all_lem rest b1 all apart.1 in
      (
        after,
        rw (first, write_all_hidden) ran,
        same ∙ same_size,
        (λ x o. later_kept x o.1 ∙ kept x o.0),
        (Holds-kept a rest b1 after writable apart.0 later_kept holds, later_holds),
      )
