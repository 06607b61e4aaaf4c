-- ===== src/Metadata/Arguments/Filled.antt =====
-- `decode_kernel_arguments` of light-rocr/loader/metadata_reader.cpp together with
-- `populate_light_rocr_hidden_kernargs` of src/light_rocr_kernargs.cpp: a kernel that is decoded can be
-- launched.
use light_rocm_runtime.Prelude.{ℕ, ◌≤◌, ◌<◌, ◌≡◌, inl, inr, some, Option-cases, All-map, arith}
use light_rocm_runtime.Loader.{done}
use light_rocm_runtime.Image.Materialize.{Block}
use light_rocm_runtime.Hidden.{
  KernelArgumentInfo, KernelArgumentKind, KernelInfo, LaunchConfig, HiddenValue, kernarg_at,
  populated, hidden_value, populate_light_rocr_hidden_kernargs,
}
use light_rocm_runtime.Hidden.Written.{IsWritable}
use light_rocm_runtime.Hidden.Meaning.{IsLaunch}
use light_rocm_runtime.Hidden.Filled.{IsFilled, populate-IsFilled}
use light_rocm_runtime.Metadata.MessagePack.{Value}
use light_rocm_runtime.Metadata.Kinds.{required_hidden_argument_size}
use light_rocm_runtime.Metadata.Arguments.{decode_kernel_arguments}
use light_rocm_runtime.Metadata.Arguments.Decoded.{IsSized, decode_kernel_arguments-AreArguments}

-- The size that the loader asks for is the size of the value that the launch writes.
width-required :
    (config : LaunchConfig) (kind : KernelArgumentKind) (v : HiddenValue)
    → hidden_value config kind ≡ some v
    → (0 < v.width) × (required_hidden_argument_size kind ≡ v.width)
unfolding hidden_value required_hidden_argument_size
width-required config kind v e = ground arith

IsSized-IsWritable :
    (config : LaunchConfig) (kernarg_size size : ℕ) (a : KernelArgumentInfo)
    → kernarg_size ≤ size
    → IsSized kernarg_size a
    → IsWritable config size a
IsSized-IsWritable config kernarg_size size a le (some_bytes, inside, sized) =
    elim (Option-cases (hidden_value config a.kind)) [
      | inl e ↦ inl e
      | inr (v, e) ↦
          let (positive, required) = width-required config a.kind v e in
          inr (v, e, ground (arith, sized, positive, required), omega arith)
    ]

-- For a kernel whose arguments are decoded from its metadata, a launch with `uint32_t` fields and blocks of
-- 1 to 65535 items in each direction, no larger than its grid, and a segment of at least the kernel's
-- size: writing the hidden arguments succeeds, leaves the explicit ones and all bytes outside of the
-- written arguments, and each hidden argument reads back as what its kind says.
pub decode-populate-IsFilled :
    (kernel_value : Value) (kernarg_size : ℕ) (kernel : KernelInfo) (config : LaunchConfig)
    (b : Block)
    → decode_kernel_arguments kernel_value kernarg_size ≡ done kernel
    → IsLaunch config
    → kernarg_size ≤ b.size
    → (after : Block) × (populate_light_rocr_hidden_kernargs kernel config (kernarg_at b)
        ≡ populated (kernarg_at after))
      × IsFilled config kernel b after
decode-populate-IsFilled kernel_value kernarg_size kernel config b decoded launch fits =
    let args = decode_kernel_arguments-AreArguments kernel_value kernarg_size kernel decoded in
    let same = args.same_size in
    populate-IsFilled kernel config b launch (omega arith) args.apart (
      All-map (λ a sized le. IsSized-IsWritable config kernarg_size b.size a fits sized)
        kernel.arguments args.sized)
