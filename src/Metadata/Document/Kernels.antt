-- ===== src/Metadata/Document/Kernels.antt =====
-- The kernels that `decode_metadata_document` of light-rocr/loader/metadata_reader.cpp accepts.
use light_rocm_runtime.Prelude.{
  ℕ, zero, suc, ◌-◌, ◌^◌, ◌<◌, max, ◌≡◌, ◌≢◌, refl, sym, ap, ◌∙◌, ◌⊎◌, inl, inr, Bool, true, false,
  not, ◌&&◌, ◌||◌, Option-cases, List, [], ◌∷◌, ◌++◌, length, drop, All, All-map, arith, ◌!=◌,
  subst,
}
use light_rocm_runtime.Prelude.Sorting.{AllPairs}
use light_rocm_runtime.Word.{is_power_of_two}
use light_rocm_runtime.Loader.{
  done, reject_if, invalid_metadata, metadata_target_mismatch, >>=-done, done-injective,
}
use light_rocm_runtime.Metadata.MessagePack.{
  Value, Items, no_items, item, offset_of, bytes_equal, has_key,
}
use light_rocm_runtime.Metadata.MessagePack.Reads.{bytes_equal_refl}
use light_rocm_runtime.Metadata.Arguments.{
  is_map, is_text, text_of, find_field, required_field, metadata_uint32, decode_kernel_arguments,
}
use light_rocm_runtime.Metadata.Arguments.Decoded.{
  AreArguments, decode_kernel_arguments-AreArguments,
}
use light_rocm_runtime.Metadata.Document.{
  MetadataKernel, MetadataDocument, IntegerFields, decode_integer_fields, finish_kernel,
  is_descriptor_symbol, descriptor_suffix, is_empty, is_array, is_boolean, elements_of,
  has_no_items, reject_field, decode_kernel, decode_kernels, decode_metadata_document, version_of,
  key_of_name, key_of_symbol, kernarg_size_name, alignment_name, group_size_name, private_size_name,
  wavefront_name, dynamic_stack_name, version_name, target_name, kernels_name, target_text,
  unknown_target_text,
}

bytes_equal_sound : (xs ys : List ℕ) → bytes_equal xs ys ≡ true → xs ≡ ys
unfolding bytes_equal
bytes_equal_sound [] [] e = refl
bytes_equal_sound [] (y ∷ ys) e = cc
bytes_equal_sound (x ∷ xs) [] e = cc
bytes_equal_sound (x ∷ xs) (y ∷ ys) e =
    let head : x ≡ y = ground arith in let tail = bytes_equal_sound xs ys (ground arith) in cc

bytes_equal-differ : (xs ys : List ℕ) → bytes_equal xs ys ≡ false → ys ≢ xs
bytes_equal-differ xs ys e same =
    let equal = bytes_equal_refl xs in
    let again : bytes_equal xs ys ≡ true = subst (λ z. bytes_equal xs z ≡ true) (sym same) equal in
    cc

drop_lem : (n : ℕ) (xs : List ℕ) → (front : List ℕ) × (xs ≡ front ++ drop n xs)
drop_lem zero xs = ([], refl)
drop_lem (suc n) [] = ([], refl)
drop_lem (suc n) (x ∷ xs) = let (front, e) = drop_lem n xs in (x ∷ front, ap (λ t. x ∷ t) e)

is_descriptor_symbol_lem :
    (symbol : List ℕ)
    → is_descriptor_symbol symbol ≡ true
    → (front : List ℕ) × (symbol ≡ front ++ descriptor_suffix)
unfolding is_descriptor_symbol
is_descriptor_symbol_lem symbol e =
    let rest = drop (length symbol - 3) symbol in
    let equal : bytes_equal rest descriptor_suffix ≡ true = ground arith in
    let (front, split) = drop_lem (length symbol - 3) symbol in
    (front, split ∙ ap (λ t. front ++ t) (bytes_equal_sound rest descriptor_suffix equal))

metadata_uint32-lt :
    (kernel_value : Value) (name : List ℕ) (n : ℕ)
    → metadata_uint32 kernel_value name ≡ done n
    → n < 2 ^ 32
unfolding metadata_uint32
metadata_uint32-lt kernel_value name n e = ground arith

reject_field_lem :
    (test : Bool) (kernel_value : Value) (name : List ℕ)
    → reject_field test kernel_value name ≡ done tt
    → test ≡ false
unfolding reject_field
reject_field_lem false kernel_value name e = refl
reject_field_lem true kernel_value name e = elim (Option-cases (find_field kernel_value name)) [
  | inl absent ↦ absurd (ground (arith, e, absent))
  | inr (v, found) ↦ absurd (ground (arith, e, found))
]

-- A kernel with a name, a symbol that ends in ".kd", sizes of 32 bits, and arguments as the launch needs them.
pub record IsKernel (k : MetadataKernel) : Type 0 where
  pub name_there : k.name ≢ []
  pub is_descriptor : (front : List ℕ) × (k.symbol_name ≡ front ++ descriptor_suffix)
  pub power_of_two : is_power_of_two k.metadata_kernarg_alignment ≡ true
  pub alignment : k.kernarg_alignment ≡ max k.metadata_kernarg_alignment 16
  pub sizes :
      (k.launch.kernarg_size < 2 ^ 32)
      × (k.group_segment_size < 2 ^ 32)
      × (k.private_segment_size < 2 ^ 32)
  pub wavefront : (k.wavefront_size ≡ 32) ⊎ (k.wavefront_size ≡ 64)
  pub arguments : AreArguments k.launch.kernarg_size k.launch

abbrev AreSmall : IntegerFields → Type 0
AreSmall fields =
    (fields.kernarg_size < 2 ^ 32) × (fields.group_size < 2 ^ 32) × (fields.private_size < 2 ^ 32)

decode_integer_fields-AreSmall :
    (v : Value) (fields : IntegerFields) → decode_integer_fields v ≡ done fields → AreSmall fields
unfolding decode_integer_fields
decode_integer_fields-AreSmall v fields e0 =
    let (size, r1, e1) = >>=-done (metadata_uint32 v kernarg_size_name) _ e0 in
    let (alignment, _, e2) = >>=-done (metadata_uint32 v alignment_name) _ e1 in
    let (group, r2, e3) = >>=-done (metadata_uint32 v group_size_name) _ e2 in
    let (private, r3, e4) = >>=-done (metadata_uint32 v private_size_name) _ e3 in
    let (wave, _, e5) = >>=-done (metadata_uint32 v wavefront_name) _ e4 in
    subst AreSmall (done-injective e5) (
      metadata_uint32-lt v kernarg_size_name size r1,
      metadata_uint32-lt v group_size_name group r2,
      metadata_uint32-lt v private_size_name private r3,
    )

finish_kernel-IsKernel :
    (v : Value) (name symbol : List ℕ) (fields : IntegerFields) (k : MetadataKernel)
    → name ≢ []
    → (front : List ℕ) × (symbol ≡ front ++ descriptor_suffix)
    → AreSmall fields
    → finish_kernel v name symbol fields ≡ done k
    → IsKernel k
unfolding finish_kernel
finish_kernel-IsKernel v name symbol fields k named suffix (size, group, private) e0 =
    let (_, power, e1) =
      >>=-done (reject_field (not (is_power_of_two fields.alignment)) v alignment_name) _ e0 in
    let (_, width, e2) =
      >>=-done (reject_field (fields.wavefront != 32 && fields.wavefront != 64) v wavefront_name) _
        e1 in
    let (launch, decoded, e3) = >>=-done (decode_kernel_arguments v fields.kernarg_size) _ e2 in
    let (stack, _, e4) = >>=-done (required_field v dynamic_stack_name is_boolean) _ e3 in
    let args = decode_kernel_arguments-AreArguments v fields.kernarg_size launch decoded in
    let same = args.same_size in
    let power' = reject_field_lem (not (is_power_of_two fields.alignment)) v alignment_name power in
    let width' =
      reject_field_lem (fields.wavefront != 32 && fields.wavefront != 64) v wavefront_name width in
    subst IsKernel (done-injective e4) (record {
      name_there = named;
      is_descriptor = suffix;
      power_of_two = ground (arith, power');
      alignment = refl;
      sizes = (omega arith, group, private);
      wavefront = ground (arith, width');
      arguments = subst (λ n. AreArguments n launch) (sym same) args;
    })

decode_kernel-IsKernel : (v : Value) (k : MetadataKernel) → decode_kernel v ≡ done k → IsKernel k
unfolding decode_kernel
decode_kernel-IsKernel v k e0 =
    let (_, _, e1) = >>=-done (reject_if (not (is_map v)) invalid_metadata (offset_of v)) _ e0 in
    let (name, _, e2) = >>=-done (required_field v key_of_name is_text) _ e1 in
    let (symbol, _, e3) = >>=-done (required_field v key_of_symbol is_text) _ e2 in
    let (_, full, e4) =
      >>=-done
        (reject_if (is_empty (text_of name) || is_empty (text_of symbol)) invalid_metadata
          (offset_of symbol))
        _ e3 in
    let (_, suffix, e5) =
      >>=-done
        (reject_if (not (is_descriptor_symbol (text_of symbol))) invalid_metadata
          (offset_of symbol))
        _ e4 in
    let (fields, read, e6) = >>=-done (decode_integer_fields v) _ e5 in
    finish_kernel-IsKernel v (text_of name) (text_of symbol) fields k
      (not_empty (text_of name) (ground (arith, full)))
      (is_descriptor_symbol_lem (text_of symbol) (ground (arith, suffix)))
      (decode_integer_fields-AreSmall v fields read) e6
  where
    not_empty : (xs : List ℕ) → is_empty xs ≡ false → xs ≢ []
    not_empty [] e = cc
    not_empty (x ∷ xs) e = λ f. cc

abbrev pub HaveOtherNames : MetadataKernel → MetadataKernel → Type 0
HaveOtherNames a b = (a.name ≢ b.name) × (a.symbol_name ≢ b.symbol_name)

abbrev IsNew : List (List ℕ) → List (List ℕ) → MetadataKernel → Type 0
IsNew names symbols k = (has_key k.name names ≡ false) × (has_key k.symbol_name symbols ≡ false)

has_key-split :
    (key k : List ℕ) (ks : List (List ℕ))
    → has_key key (k ∷ ks) ≡ false
    → (k ≢ key) × (has_key key ks ≡ false)
unfolding has_key
has_key-split key k ks e = (bytes_equal-differ key k (ground arith), ground arith)

decode_kernels-HaveOtherNames :
    (names symbols : List (List ℕ)) (items : Items) (ks : List MetadataKernel)
    → decode_kernels names symbols items ≡ done ks
    → All IsKernel ks × AllPairs HaveOtherNames ks × All (IsNew names symbols) ks
unfolding decode_kernels
decode_kernels-HaveOtherNames names symbols no_items ks e =
    subst (λ ks. All IsKernel ks × AllPairs HaveOtherNames ks × All (IsNew names symbols) ks)
      (done-injective e) (tt, tt, tt)
decode_kernels-HaveOtherNames names symbols (item v rest) ks e =
    let (k, one, e1) = >>=-done (decode_kernel v) _ e in
    let (_, new, e2) =
      >>=-done
        (reject_if (has_key k.name names || has_key k.symbol_name symbols) invalid_metadata
          (offset_of v))
        _ e1 in
    let (others, ran, e3) =
      >>=-done (decode_kernels (k.name ∷ names) (k.symbol_name ∷ symbols) rest) _ e2 in
    let (good, pairs, fresh) =
      decode_kernels-HaveOtherNames (k.name ∷ names) (k.symbol_name ∷ symbols) rest others ran in
    subst (λ ks. All IsKernel ks × AllPairs HaveOtherNames ks × All (IsNew names symbols) ks)
      (done-injective e3)
      (
        (decode_kernel-IsKernel v k one, good),
        (
          All-map
              (λ b f. (
                (has_key-split b.name k.name names f.0).0,
                (has_key-split b.symbol_name k.symbol_name symbols f.1).0,
              ))
              others fresh,
          pairs,
        ),
        (
          (ground (arith, new), ground (arith, new)),
          All-map
              (λ b f. (
                (has_key-split b.name k.name names f.0).1,
                (has_key-split b.symbol_name k.symbol_name symbols f.1).1,
              ))
              others fresh,
        ),
      )

-- The kernels of a document that is decoded differ in their names and in their symbols; each has a name, a
-- symbol that ends in ".kd", an alignment that is a power of two, raised to at least 16, segment
-- sizes below 2^32, wavefronts of 32 or 64 lanes, and arguments that lie in the kernarg segment
-- one behind the other, of the sizes their kinds ask for, explicit ones before hidden ones.
pub decode_metadata_document-HaveOtherNames :
    (root : Value) (document : MetadataDocument)
    → decode_metadata_document root ≡ done document
    → All IsKernel document.kernels × AllPairs HaveOtherNames document.kernels
unfolding decode_metadata_document
decode_metadata_document-HaveOtherNames root document e0 =
    let (_, _, e1) =
      >>=-done (reject_if (not (is_map root)) invalid_metadata (offset_of root)) _ e0 in
    let (version_value, _, e2) = >>=-done (required_field root version_name is_array) _ e1 in
    let (version, _, e3) =
      >>=-done (version_of (offset_of version_value) (elements_of version_value)) _ e2 in
    let (target, _, e4) = >>=-done (required_field root target_name is_text) _ e3 in
    let (_, _, e5) =
      >>=-done
        (reject_if
          (not (bytes_equal (text_of target) target_text)
            && not (bytes_equal (text_of target) unknown_target_text))
          metadata_target_mismatch (offset_of target))
        _ e4 in
    let (kernel_array, _, e6) = >>=-done (required_field root kernels_name is_array) _ e5 in
    let (_, _, e7) =
      >>=-done
        (reject_if (has_no_items (elements_of kernel_array)) invalid_metadata
          (offset_of kernel_array))
        _ e6 in
    let (kernels, ran, e8) = >>=-done (decode_kernels [] [] (elements_of kernel_array)) _ e7 in
    let (good, pairs, _) =
      decode_kernels-HaveOtherNames [] [] (elements_of kernel_array) kernels ran in
    subst (λ d. All IsKernel d.kernels × AllPairs HaveOtherNames d.kernels) (done-injective e8)
      (good, pairs)
