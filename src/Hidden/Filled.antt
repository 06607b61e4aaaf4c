-- ===== src/Hidden/Filled.antt =====
-- `populate_light_rocr_hidden_kernargs` of src/light_rocr_kernargs.cpp as a whole.
use light_rocm_runtime.Prelude.{
  ℕ, ◌^◌, ◌≤◌, ◌<◌, ◌≡◌, ◌∙◌, refl, sym, ap, subst, inl, inr, false, Bool-cases, ltb, none, some,
  Option, List, [], ◌∷◌, All, All-map, arith,
}
use native.Mathlib.Nat.{div-le_self}
use light_rocm_runtime.Prelude.Sorting.{AllPairs}
use light_rocm_runtime.Image.Materialize.{Block, load}
use light_rocm_runtime.Hidden.{
  KernelArgumentInfo, KernelArgumentKind, KernelInfo, LaunchConfig, HiddenValue, kernarg_at,
  populated, hidden_value, first_hidden, is_refused, populate_light_rocr_hidden_kernargs,
}
use light_rocm_runtime.Hidden.Meaning.{IsLaunch, Says, hidden_value-Says, hidden_value-none}
use light_rocm_runtime.Hidden.Written.{
  width_lem, Holds, IsWritable, Outside, EndsBefore, load_lem, write_all_lem,
}

module _ (config : LaunchConfig) (launch : IsLaunch config) where
  open launch use {grid_x, grid_y, grid_z, shared}

  hidden_value-lt :
      (kind : KernelArgumentKind) (v : HiddenValue)
      → hidden_value config kind ≡ some v
      → v.value < 256 ^ v.width
  unfolding hidden_value
  hidden_value-lt kind v e = ground (
    arith,
    div-le_self config.grid.x config.block.x,
    div-le_self config.grid.y config.block.y,
    div-le_self config.grid.z config.block.z,
  )

  -- An argument that holds its value says it.
  Holds-Says :
      (args : List KernelArgumentInfo) (size : ℕ) (b : Block)
      → All (IsWritable config size) args
      → All (Holds config b) args
      → All (λ a. Says config a.kind (load a.size a.offset b)) args
  Holds-Says [] size b w h = tt
  Holds-Says (a ∷ rest) size b w h =
      (one (hidden_value config a.kind) refl, Holds-Says rest size b w.1 h.1)
    where
      one :
          (o : Option HiddenValue)
          → hidden_value config a.kind ≡ o
          → Says config a.kind (load a.size a.offset b)
      one none e = hidden_value-none config launch a.kind (load a.size a.offset b) e
      one (some v) e =
          let width = width_lem config a size v w.0 e in
          let read = load_lem v.width a.offset v.value b (h.0 v e) (hidden_value-lt a.kind v e) in
          subst (λ (n : ℕ). Says config a.kind n)
            (sym (ap (λ (n : ℕ). load n a.offset b) width ∙ read))
            (hidden_value-Says config launch a.kind v e)

module _ (size : ℕ) where
  first_hidden-All :
      (P : KernelArgumentInfo → Type 0) (args : List KernelArgumentInfo)
      → All (λ a. size ≤ a.offset → P a) args
      → AllPairs EndsBefore args
      → All P (first_hidden size args)
  unfolding first_hidden
  first_hidden-All P [] h apart = tt
  first_hidden-All P (a ∷ rest) h apart = elim (Bool-cases (ltb a.offset size)) [
    | inl e ↦ rw (e, first_hidden) (first_hidden-All P rest h.1 apart.1)
    | inr e ↦
        let here : size ≤ a.offset = ground arith in
        rw (e, first_hidden) (h.0 here, behind rest h.1 apart.0 here)
  ]
    where
      behind :
          (cs : List KernelArgumentInfo)
          → All (λ c. size ≤ c.offset → P c) cs
          → All (EndsBefore a) cs
          → size ≤ a.offset
          → All P cs
      behind [] h l here = tt
      behind (c ∷ cs) h l here = (h.0 (omega arith), behind cs h.1 l.1 here)

  first_hidden-AllPairs :
      (args : List KernelArgumentInfo)
      → AllPairs EndsBefore args
      → AllPairs EndsBefore (first_hidden size args)
  unfolding first_hidden
  first_hidden-AllPairs [] apart = tt
  first_hidden-AllPairs (a ∷ rest) apart = elim (Bool-cases (ltb a.offset size)) [
    | inl e ↦ rw (e, first_hidden) (first_hidden-AllPairs rest apart.1)
    | inr e ↦ rw (e, first_hidden) apart
  ]

  -- What holds of the arguments behind the explicit ones.
  first_hidden-back :
      (P : KernelArgumentInfo → Type 0) (args : List KernelArgumentInfo)
      → All P (first_hidden size args)
      → All (λ a. size ≤ a.offset → P a) args
  unfolding first_hidden
  first_hidden-back P [] h = tt
  first_hidden-back P (a ∷ rest) h = elim (Bool-cases (ltb a.offset size)) [
    | inl e ↦
        let tail : All P (first_hidden size rest) = ground (arith, h) in
        ((λ le. absurd (ground arith)), first_hidden-back P rest tail)
    | inr e ↦
        let all : All P (a ∷ rest) = ground (arith, h) in
        ((λ le. all.0), All-map (λ c p le. p) rest all.1)
  ]

-- A segment before and after: its size and its explicit arguments are the same, no byte outside of the
-- written arguments has changed, and each hidden argument says what its kind is to say.
pub record IsFilled (config : LaunchConfig) (kernel : KernelInfo) (before after : Block)
    : Type 0 where
  pub same_size : after.size ≡ before.size
  pub explicit_kept : (x : ℕ) → x < kernel.explicit_argument_size → after.byte x ≡ before.byte x
  pub kept : (x : ℕ) → All (Outside config x) kernel.arguments → after.byte x ≡ before.byte x
  pub values :
      All
        (λ a.
          kernel.explicit_argument_size ≤ a.offset
          → Says config a.kind (load a.size a.offset after))
        kernel.arguments

-- For a launch with `uint32_t` fields and blocks of 1 to 65535 items in each direction, no larger than its
-- grid, a segment of at least the kernel's size, and arguments that stand one behind the other such
-- that each hidden one with a value has the size of its value and lies in the segment: the function
-- succeeds; the segment's size, its explicit arguments and all bytes outside of the written arguments
-- are left; and each hidden argument reads back as what its kind says: the number of whole blocks in
-- the grid, the block's size, the work items left over, the last direction in which the grid has more
-- than one work item, or the dynamic LDS size.
pub populate-IsFilled :
    (kernel : KernelInfo) (config : LaunchConfig) (b : Block)
    → IsLaunch config
    → kernel.kernarg_size ≤ b.size
    → AllPairs EndsBefore kernel.arguments
    → All
        (λ a. kernel.explicit_argument_size ≤ a.offset → IsWritable config b.size a)
        kernel.arguments
    → (after : Block) × (populate_light_rocr_hidden_kernargs kernel config (kernarg_at b)
        ≡ populated (kernarg_at after))
      × IsFilled config kernel b after
unfolding populate_light_rocr_hidden_kernargs
populate-IsFilled kernel config b launch fits apart writable =
    let size = kernel.explicit_argument_size in
    let args = first_hidden size kernel.arguments in
    let accepted : is_refused kernel config (kernarg_at b) ≡ false =
      unfold is_refused in
      ground (
        arith, launch.grid_x, launch.grid_y, launch.grid_z, launch.block_x, launch.block_y,
        launch.block_z,
      ) in
    let written =
      first_hidden-All size (IsWritable config b.size) kernel.arguments writable apart in
    let (after, ran, same, kept, holds) =
      write_all_lem config args b written (first_hidden-AllPairs size kernel.arguments apart) in
    (
      after,
      rw (accepted, populate_light_rocr_hidden_kernargs) ran,
      record {
        same_size = same;
        explicit_kept = λ x lt. kept x (
            first_hidden-All size (Outside config x) kernel.arguments
              (in_front x lt kernel.arguments) apart);
        kept = λ x o. kept x (
            first_hidden-All size (Outside config x) kernel.arguments
              (All-map (λ a p le. p) kernel.arguments o) apart);
        values =
            first_hidden-back size _ kernel.arguments
              (Holds-Says config launch args b.size after written holds);
      },
    )
  where
    in_front :
        (x : ℕ)
        → x < kernel.explicit_argument_size
        → (args : List KernelArgumentInfo)
        → All (λ a. kernel.explicit_argument_size ≤ a.offset → Outside config x a) args
    in_front x lt [] = tt
    in_front x lt (a ∷ rest) = ((λ le. inr (inl (omega arith))), in_front x lt rest)
