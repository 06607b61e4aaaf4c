-- ===== src/Metadata/Arguments/Decoded.antt =====
-- What `decode_kernel_arguments` of light-rocr/loader/metadata_reader.cpp accepts.
use light_rocm_runtime.Prelude.{
  ℕ, ◌+◌, ◌≤◌, ◌<◌, ◌≡◌, refl, ◌⊎◌, inl, inr, true, false, not, Option-cases, List, [], ◌∷◌, All,
  All-map, arith, ltb, min, if◌then◌else◌, subst, ◌&&◌, ◌||◌, ◌==◌, ◌-◌, ◌!=◌,
}
use light_rocm_runtime.Prelude.Sorting.{sort, AllPairs, sort-All}
use light_rocm_runtime.Loader.{done, invalid_metadata, >>=-done, done-injective, reject_if}
use light_rocm_runtime.Hidden.{KernelArgumentInfo, KernelInfo}
use light_rocm_runtime.Hidden.Written.{EndsBefore}
use light_rocm_runtime.Metadata.MessagePack.{
  Value, nil, boolean, unsigned, signed, text, array, map_of, Items, no_items, item, offset_of,
}
use light_rocm_runtime.Metadata.Kinds.{
  kernel_argument_kind, is_hidden_argument, required_hidden_argument_size,
}
use light_rocm_runtime.Metadata.Arguments.{
  find_field, metadata_uint32, required_field, accept_argument, decode_argument, DecodedArguments,
  decode_items, offset_before, check_arguments, decode_argument_list, decode_kernel_arguments,
  is_map, is_text, text_of, offset_name, size_name, value_kind_name, args_name,
}

-- An argument has bytes, lies in the segment, and has the size that its kind asks for.
abbrev pub IsSized : ℕ → KernelArgumentInfo → Type 0
IsSized kernarg_size a =
    (0 < a.size)
    × (a.offset + a.size ≤ kernarg_size)
    × ((required_hidden_argument_size a.kind ≡ 0) ⊎ (a.size ≡ required_hidden_argument_size a.kind))

accept_argument-IsSized :
    (kernarg_size offset : ℕ) (argument a : KernelArgumentInfo)
    → accept_argument kernarg_size offset argument ≡ done a
    → IsSized kernarg_size a
unfolding accept_argument
accept_argument-IsSized kernarg_size offset argument a e =
    let (_, fits, e1) =
      >>=-done
        (reject_if
          (argument.size == 0
            || ltb kernarg_size argument.offset
            || ltb (kernarg_size - argument.offset) argument.size)
          invalid_metadata offset)
        _ e in
    let (_, sized, e2) =
      >>=-done
        (reject_if
          (required_hidden_argument_size argument.kind != 0
            && argument.size != required_hidden_argument_size argument.kind)
          invalid_metadata offset)
        _ e1 in
    subst (IsSized kernarg_size) (done-injective e2)
      (ground (arith, fits), ground (arith, fits), ground (arith, sized))

decode_argument-IsSized :
    (kernarg_size : ℕ) (value : Value) (a : KernelArgumentInfo)
    → decode_argument kernarg_size value ≡ done a
    → IsSized kernarg_size a
unfolding decode_argument
decode_argument-IsSized kernarg_size value a e =
    let (_, _, e1) =
      >>=-done (reject_if (not (is_map value)) invalid_metadata (offset_of value)) _ e in
    let (offset, _, e2) = >>=-done (metadata_uint32 value offset_name) _ e1 in
    let (size, _, e3) = >>=-done (metadata_uint32 value size_name) _ e2 in
    let (kind_value, _, e4) = >>=-done (required_field value value_kind_name is_text) _ e3 in
    elim (Option-cases (kernel_argument_kind (text_of kind_value))) [
      | inl unknown ↦ absurd (ground (arith, e4, unknown))
      | inr (kind, known) ↦
          accept_argument-IsSized kernarg_size (offset_of value)
            (record { offset = offset; size = size; kind = kind }) a (rw known at e4)
    ]

-- A hidden argument starts at the offset or behind it.
abbrev pub IsBehind : ℕ → KernelArgumentInfo → Type 0
IsBehind first a = is_hidden_argument a.kind ≡ true → first ≤ a.offset

record IsDecoded (kernarg_size first : ℕ) (d : DecodedArguments) : Type 0 where
  sized : All (IsSized kernarg_size) d.arguments
  behind : All (IsBehind d.first_hidden_offset) d.arguments
  no_later : d.first_hidden_offset ≤ first

decode_items-IsDecoded :
    (kernarg_size : ℕ) (items : Items) (first : ℕ) (d : DecodedArguments)
    → decode_items kernarg_size items first ≡ done d
    → IsDecoded kernarg_size first d
unfolding decode_items
decode_items-IsDecoded kernarg_size no_items first d e =
    subst (IsDecoded kernarg_size first) (done-injective e)
      (record { sized = tt; behind = tt; no_later = omega arith })
decode_items-IsDecoded kernarg_size (item value rest) first d e =
    let (a, one, e1) = >>=-done (decode_argument kernarg_size value) _ e in
    let next : ℕ = if is_hidden_argument a.kind then min first a.offset else first in
    let (others, ran, e2) = >>=-done (decode_items kernarg_size rest next) _ e1 in
    let tail = decode_items-IsDecoded kernarg_size rest next others ran in
    let le = tail.no_later in
    subst (IsDecoded kernarg_size first) (done-injective e2) (record {
      sized = (decode_argument-IsSized kernarg_size value a one, tail.sized);
      behind = ((λ h. ground (arith, le, h)), tail.behind);
      no_later = ground (arith, le);
    })

-- An explicit argument ends before the hidden ones start.
abbrev pub IsInFront : ℕ → KernelArgumentInfo → Type 0
IsInFront first a = is_hidden_argument a.kind ≡ false → a.offset + a.size ≤ first

check_arguments-AllPairs :
    (offset first previous_end : ℕ) (args : List KernelArgumentInfo)
    → check_arguments offset first previous_end args ≡ done tt
    → All (λ a. previous_end ≤ a.offset) args
      × AllPairs EndsBefore args
      × All (IsInFront first) args
unfolding check_arguments
check_arguments-AllPairs offset first previous_end [] e = (tt, tt, tt)
check_arguments-AllPairs offset first previous_end (a ∷ rest) e =
    let (_, apart, e1) =
      >>=-done (reject_if (ltb a.offset previous_end) invalid_metadata offset) _ e in
    let (_, front, e2) =
      >>=-done
        (reject_if (not (is_hidden_argument a.kind) && ltb first (a.offset + a.size))
          invalid_metadata offset)
        _ e1 in
    let (later, pairs, fronts) =
      check_arguments-AllPairs offset first (a.offset + a.size) rest e2 in
    let le : previous_end ≤ a.offset = ground (arith, apart) in
    (
      (le, All-map (λ b h. omega arith) rest later),
      (later, pairs),
      ((λ h. ground (arith, front, h)), fronts),
    )

-- The arguments of a decoded kernel.
pub record AreArguments (kernarg_size : ℕ) (kernel : KernelInfo) : Type 0 where
  pub same_size : kernel.kernarg_size ≡ kernarg_size
  pub explicit_inside : kernel.explicit_argument_size ≤ kernarg_size
  pub apart : AllPairs EndsBefore kernel.arguments
  pub sized : All (IsSized kernarg_size) kernel.arguments
  pub in_front : All (IsInFront kernel.explicit_argument_size) kernel.arguments
  pub behind : All (IsBehind kernel.explicit_argument_size) kernel.arguments

decode_argument_list-AreArguments :
    (kernarg_size : ℕ) (value : Value) (kernel : KernelInfo)
    → decode_argument_list kernarg_size value ≡ done kernel
    → AreArguments kernarg_size kernel
unfolding decode_argument_list
decode_argument_list-AreArguments kernarg_size (array offset items) kernel e =
    let (d, ran, e1) = >>=-done (decode_items kernarg_size items kernarg_size) _ e in
    let (_, checked, e2) =
      >>=-done (check_arguments offset d.first_hidden_offset 0 (sort offset_before d.arguments)) _
        e1 in
    let decoded = decode_items-IsDecoded kernarg_size items kernarg_size d ran in
    let (_, pairs, fronts) =
      check_arguments-AllPairs offset d.first_hidden_offset 0 (sort offset_before d.arguments)
        checked in
    subst (AreArguments kernarg_size) (done-injective e2) (record {
      same_size = refl;
      explicit_inside = decoded.no_later;
      apart = pairs;
      sized = (sort-All offset_before (IsSized kernarg_size) d.arguments).1 decoded.sized;
      in_front = fronts;
      behind =
          (sort-All offset_before (IsBehind d.first_hidden_offset) d.arguments).1 decoded.behind;
    })
decode_argument_list-AreArguments kernarg_size (nil offset) kernel e = cc
decode_argument_list-AreArguments kernarg_size (boolean offset b) kernel e = cc
decode_argument_list-AreArguments kernarg_size (unsigned offset n) kernel e = cc
decode_argument_list-AreArguments kernarg_size (signed offset n) kernel e = cc
decode_argument_list-AreArguments kernarg_size (text offset t) kernel e = cc
decode_argument_list-AreArguments kernarg_size (map_of offset f) kernel e = cc

-- The arguments of a kernel that is decoded have at least one byte each and lie in the kernarg segment one
-- behind the other; every one has the size that its kind asks for, if it asks for one; and the explicit
-- ones end before `explicit_argument_size`, where the hidden ones start, which is in the segment.
pub decode_kernel_arguments-AreArguments :
    (kernel_value : Value) (kernarg_size : ℕ) (kernel : KernelInfo)
    → decode_kernel_arguments kernel_value kernarg_size ≡ done kernel
    → AreArguments kernarg_size kernel
unfolding decode_kernel_arguments
decode_kernel_arguments-AreArguments kernel_value kernarg_size kernel e =
    elim (Option-cases (find_field kernel_value args_name)) [
      | inl absent ↦
          subst (AreArguments kernarg_size)
            (done-injective (rw (absent, decode_kernel_arguments) at e))
            (record {
              same_size = refl;
              explicit_inside = omega arith;
              apart = tt;
              sized = tt;
              in_front = tt;
              behind = tt;
            })
      | inr (value, found) ↦
          decode_argument_list-AreArguments kernarg_size value kernel
            (rw (found, decode_kernel_arguments) at e)
    ]
