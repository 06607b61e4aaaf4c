-- ===== src/Metadata/Arguments.antt =====
-- `decode_kernel_arguments` of light-rocr/loader/metadata_reader.cpp, on the map of a kernel whose
-- `kernarg_size` is read. A sum of an offset and a size that were tested does not wrap.

pub mod Decoded
pub mod Filled
use light_rocm_runtime.Prelude.{
  ℕ, ◌+◌, ◌-◌, ◌^◌, min, Bool, true, false, not, ◌&&◌, ◌||◌, Option, none, some, List, [], ◌∷◌, ltb,
  ◌==◌, ◌!=◌, if◌then◌else◌,
}
use light_rocm_runtime.Prelude.Sorting.{sort}
use light_rocm_runtime.Loader.{Outcome, done, failed, ◌>>=◌, reject_if, invalid_metadata}
use light_rocm_runtime.Hidden.{KernelArgumentKind, KernelArgumentInfo, KernelInfo}
use light_rocm_runtime.Metadata.MessagePack.{
  Value, nil, boolean, unsigned, signed, text, array, map_of, Items, no_items, item, Fields,
  no_fields, field, offset_of, bytes_equal,
}
use light_rocm_runtime.Metadata.Kinds.{
  kernel_argument_kind, is_hidden_argument, required_hidden_argument_size,
}

abbrev pub invalid_at {ℓ} : {A : Type ℓ} → ℕ → Outcome A
invalid_at offset = failed (record { code = invalid_metadata; offset = offset })

find_entry : List ℕ → Fields → Option Value
unfolding bytes_equal
find_entry name no_fields = none
find_entry name (field key value rest) =
    let later = find_entry name rest in if bytes_equal key name then some value else later

-- `find_field`, with `none` for the null pointer.
unfoldable pub find_field : Value → List ℕ → Option Value
unfolding find_entry
find_field (map_of offset entries) name = find_entry name entries
find_field other name = none

abbrev pub is_text : Value → Bool
is_text (text offset t) = true
is_text other = false

abbrev pub is_map : Value → Bool
is_map (map_of offset entries) = true
is_map other = false

-- The member `string`, which is empty in a value of another kind.
abbrev pub text_of : Value → List ℕ
text_of (text offset t) = t
text_of other = []

unfoldable pub required_field : Value → List ℕ → (Value → Bool) → Outcome Value
unfolding find_field
required_field fields name has_kind = elim (find_field fields name) [
  | none ↦ invalid_at (offset_of fields)
  | some value ↦ if has_kind value then done value else invalid_at (offset_of value)
]

-- The value of a nonnegative integer.
abbrev pub integer_of : Value → Option ℕ
integer_of (unsigned offset n) = some n
integer_of (signed offset bits) = if ltb bits (2 ^ 63) then some bits else none
integer_of other = none

uint32_of : Value → Outcome ℕ
uint32_of value = elim (integer_of value) [
  | none ↦ invalid_at (offset_of value)
  | some n ↦ if ltb 0xffffffff n then invalid_at (offset_of value) else done n
]

unfoldable pub metadata_uint32 : Value → List ℕ → Outcome ℕ
unfolding find_field uint32_of
metadata_uint32 fields name = elim (find_field fields name) [
  | none ↦ invalid_at (offset_of fields)
  | some value ↦ uint32_of value
]

abbrev pub offset_name : List ℕ
offset_name = b'.' ∷ b'o' ∷ b'f' ∷ b'f' ∷ b's' ∷ b'e' ∷ b't' ∷ []

abbrev pub size_name : List ℕ
size_name = b'.' ∷ b's' ∷ b'i' ∷ b'z' ∷ b'e' ∷ []

abbrev pub value_kind_name : List ℕ
value_kind_name = b'.' ∷ b'v' ∷ b'a' ∷ b'l' ∷ b'u' ∷ b'e' ∷ b'_' ∷ b'k' ∷ b'i' ∷ b'n' ∷ b'd' ∷ []

abbrev pub args_name : List ℕ
args_name = b'.' ∷ b'a' ∷ b'r' ∷ b'g' ∷ b's' ∷ []

-- An argument whose fields are read.
pub accept_argument : ℕ → ℕ → KernelArgumentInfo → Outcome KernelArgumentInfo
unfolding required_hidden_argument_size
accept_argument kernarg_size offset argument =
    reject_if
      (argument.size == 0
        || ltb kernarg_size argument.offset
        || ltb (kernarg_size - argument.offset) argument.size)
      invalid_metadata offset
    >>= λ _.
        reject_if
          (required_hidden_argument_size argument.kind != 0
            && argument.size != required_hidden_argument_size argument.kind)
          invalid_metadata offset
        >>= λ _. done argument

-- The body of the loop, up to the minimum.
pub decode_argument : ℕ → Value → Outcome KernelArgumentInfo
unfolding metadata_uint32 required_field kernel_argument_kind accept_argument
decode_argument kernarg_size value =
    reject_if (not (is_map value)) invalid_metadata (offset_of value) >>= λ _.
    metadata_uint32 value offset_name >>= λ offset. metadata_uint32 value size_name >>= λ size.
    required_field value value_kind_name is_text >>= λ value_kind.
    elim (kernel_argument_kind (text_of value_kind)) [
      | none ↦ invalid_at (offset_of value_kind)
      | some kind ↦
          accept_argument kernarg_size (offset_of value)
            (record { offset = offset; size = size; kind = kind })
    ]

-- What the loop over the elements of `.args` leaves.
pub record DecodedArguments : Type 0 where
  pub first_hidden_offset : ℕ
  pub arguments : List KernelArgumentInfo

pub decode_items : ℕ → Items → ℕ → Outcome DecodedArguments
unfolding decode_argument is_hidden_argument
decode_items kernarg_size no_items first =
    done (record { first_hidden_offset = first; arguments = [] })
decode_items kernarg_size (item value rest) first =
    decode_argument kernarg_size value >>= λ argument.
    decode_items kernarg_size rest
      (if is_hidden_argument argument.kind then min first argument.offset else first)
    >>= λ decoded. done (record {
      first_hidden_offset = decoded.first_hidden_offset;
      arguments = argument ∷ decoded.arguments;
    })

abbrev pub offset_before : KernelArgumentInfo → KernelArgumentInfo → Bool
offset_before a b = ltb a.offset b.offset

-- The loop over the sorted arguments.
pub check_arguments : ℕ → ℕ → ℕ → List KernelArgumentInfo → Outcome (Unit {0})
unfolding is_hidden_argument
check_arguments offset first previous_end [] = done tt
check_arguments offset first previous_end (a ∷ rest) =
    reject_if (ltb a.offset previous_end) invalid_metadata offset >>= λ _.
    reject_if (not (is_hidden_argument a.kind) && ltb first (a.offset + a.size)) invalid_metadata
      offset
    >>= λ _. check_arguments offset first (a.offset + a.size) rest

pub decode_argument_list : ℕ → Value → Outcome KernelInfo
unfolding decode_items check_arguments sort
decode_argument_list kernarg_size (array offset items) =
    decode_items kernarg_size items kernarg_size >>= λ decoded.
    check_arguments offset decoded.first_hidden_offset 0 (sort offset_before decoded.arguments)
    >>= λ _. done (record {
      kernarg_size = kernarg_size;
      explicit_argument_size = decoded.first_hidden_offset;
      arguments = sort offset_before decoded.arguments;
    })
decode_argument_list kernarg_size other = invalid_at (offset_of other)

-- The kernel's fields that are set here; without `.args` the whole segment is explicit.
unfoldable pub decode_kernel_arguments : Value → ℕ → Outcome KernelInfo
unfolding find_field decode_argument_list
decode_kernel_arguments kernel_value kernarg_size = elim (find_field kernel_value args_name) [
  | none ↦ done (record {
    kernarg_size = kernarg_size;
    explicit_argument_size = kernarg_size;
    arguments = [];
  })
  | some arguments ↦ decode_argument_list kernarg_size arguments
]
