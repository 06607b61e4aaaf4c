-- ===== src/Hidden/Refused.antt =====
-- src/light_rocr_kernargs.cpp on arguments that need not fit.
use light_rocm_runtime.Prelude.{
  ℕ, ◌-◌, ◌!=◌, ◌||◌, ◌≤◌, ◌<◌, ◌≡◌, refl, ◌∙◌, ◌⊎◌, inl, inr, Bool-cases, Option-cases, ltb, List,
  [], ◌∷◌, All, arith,
}
use light_rocm_runtime.Prelude.Sorting.{AllPairs}
use light_rocm_runtime.Image.Materialize.{Block, overlay}
use light_rocm_runtime.Image.Materialize.Bytes.{overlay_miss, overlay_size, store_total}
use light_rocm_runtime.Hidden.{
  KernelArgumentInfo, KernelInfo, LaunchConfig, HiddenValue, kernarg_at, Populated, populated,
  refused, byte_of, hidden_value, copy_value, write_argument, write_hidden, first_hidden,
  write_all_hidden, is_refused, populate_light_rocr_hidden_kernargs,
}

-- The run ends, with success or not, in a block of the same size and with the same bytes in front of
-- `size`.
pub record IsKept (size : ℕ) (before : Block) (result : Populated) : Type 0 where
  pub after : Block
  pub ends : (result ≡ populated (kernarg_at after)) ⊎ (result ≡ refused (kernarg_at after))
  pub same_size : after.size ≡ before.size
  pub kept : (x : ℕ) → x < size → after.byte x ≡ before.byte x

unchanged-IsKept :
    (size : ℕ) (b : Block) (result : Populated)
    → (result ≡ populated (kernarg_at b)) ⊎ (result ≡ refused (kernarg_at b))
    → IsKept size b result
unchanged-IsKept size b result e = record {
  after = b;
  ends = e;
  same_size = refl;
  kept = λ x lt. refl;
}

module _ (config : LaunchConfig) (size : ℕ) where
  write_argument-IsKept :
      (a : KernelArgumentInfo) (v : HiddenValue) (b : Block)
      → size ≤ a.offset
      → IsKept size b (write_argument (kernarg_at b) a v)
  unfolding write_argument
  write_argument-IsKept a v b behind =
      elim (Bool-cases
        (a.size != v.width || ltb b.size a.offset || ltb (b.size - a.offset) a.size)) [
          | inl e ↦ unchanged-IsKept size b _ (inr (rw (e, write_argument) refl))
          | inr e ↦ record {
            after = overlay a.offset v.width (byte_of v.value) b;
            ends = inl (
                rw
                  (
                    e,
                    write_argument,
                    copy_value,
                    store_total a.offset v.width (byte_of v.value) b (ground arith),
                  )
                  refl);
            same_size = overlay_size a.offset v.width (byte_of v.value) b;
            kept = λ x lt. overlay_miss a.offset v.width (byte_of v.value) b x (inl (omega arith));
          }
        ]

  write_hidden-IsKept :
      (a : KernelArgumentInfo) (b : Block)
      → size ≤ a.offset
      → IsKept size b (write_hidden config (kernarg_at b) a)
  unfolding write_hidden
  write_hidden-IsKept a b behind = elim (Option-cases (hidden_value config a.kind)) [
    | inl e ↦ unchanged-IsKept size b _ (inl (rw (e, write_hidden) refl))
    | inr (v, e) ↦ rw (e, write_hidden) (write_argument-IsKept a v b behind)
  ]

  write_each-IsKept :
      (args : List KernelArgumentInfo) (b : Block)
      → All (λ a. size ≤ a.offset) args
      → IsKept size b (write_all_hidden config (kernarg_at b) args)
  unfolding write_all_hidden
  write_each-IsKept [] b h = unchanged-IsKept size b _ (inl refl)
  write_each-IsKept (a ∷ rest) b h =
      let one = write_hidden-IsKept a b h.0 in
      let later = write_each-IsKept rest one.after h.1 in
      elim one.ends [
        | inl e ↦ record {
          after = later.after;
          ends = rw (e, write_all_hidden) later.ends;
          same_size = later.same_size ∙ one.same_size;
          kept = λ x lt. later.kept x lt ∙ one.kept x lt;
        }
        | inr e ↦ record {
          after = one.after;
          ends = inr (rw (e, write_all_hidden) refl);
          same_size = one.same_size;
          kept = one.kept;
        }
      ]

  first_hidden-behind :
      (args : List KernelArgumentInfo)
      → AllPairs (λ a b. a.offset ≤ b.offset) args
      → All (λ a. size ≤ a.offset) (first_hidden size args)
  unfolding first_hidden
  first_hidden-behind [] h = tt
  first_hidden-behind (a ∷ rest) h = elim (Bool-cases (ltb a.offset size)) [
    | inl e ↦ rw (e, first_hidden) (first_hidden-behind rest h.1)
    | inr e ↦ rw (e, first_hidden) (ground arith, all_behind rest (ground arith) h.0)
  ]
    where
      all_behind :
          (cs : List KernelArgumentInfo)
          → size ≤ a.offset
          → All (λ c. a.offset ≤ c.offset) cs
          → All (λ c. size ≤ c.offset) cs
      all_behind [] le l = tt
      all_behind (c ∷ cs) le l = (omega arith, all_behind cs le l.1)

-- On any segment, launch and arguments sorted by offset, the function ends, with success or not, without
-- a write outside of the segment, and leaves every byte of the explicit arguments.
pub populate-IsKept :
    (kernel : KernelInfo) (config : LaunchConfig) (b : Block)
    → AllPairs (λ a c. a.offset ≤ c.offset) kernel.arguments
    → IsKept kernel.explicit_argument_size b
        (populate_light_rocr_hidden_kernargs kernel config (kernarg_at b))
unfolding populate_light_rocr_hidden_kernargs
populate-IsKept kernel config b sorted =
    elim (Bool-cases (is_refused kernel config (kernarg_at b))) [
      | inl e ↦
          unchanged-IsKept kernel.explicit_argument_size b _
            (inr (rw (e, populate_light_rocr_hidden_kernargs) refl))
      | inr e ↦
          rw (e, populate_light_rocr_hidden_kernargs)
            (write_each-IsKept config kernel.explicit_argument_size
              (first_hidden kernel.explicit_argument_size kernel.arguments) b
              (first_hidden-behind config kernel.explicit_argument_size kernel.arguments sorted))
    ]
