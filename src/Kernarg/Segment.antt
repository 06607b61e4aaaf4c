-- ===== src/Kernarg/Segment.antt =====
-- The bytes that light-rocr/runtime/launch.cpp writes to a kernarg segment, and the requests it takes.
use light_rocm_runtime.Prelude.{
  ℕ, zero, suc, ◌+◌, ◌-◌, ◌%◌, ◌^◌, ◌≤◌, ◌<◌, ◌≡◌, refl, sym, ap, ◌∙◌, ◌⊎◌, true, some, List, [],
  ◌∷◌, ◌++◌, length, drop, replicate, length-replicate, arith, subst,
}
use light_rocm_runtime.Word.{u64_limit, is_power_of_two}
use light_rocm_runtime.Word.Laws.{is_power_of_two_sound, is_power_of_two_complete}
use light_rocm_runtime.Kernarg.{
  KernelInfo, KernargBufferError, Materialized, memory_at, buffer, failure, write_bytes,
  fill_segment, fill, materialize_storage, materialize_required, materialize_kernarg_buffer,
  kernarg_buffer_requirements,
}

-- Bytes that fit behind a prefix replace what stood there.
write_bytes-prefix :
    (before bytes memory : List ℕ)
    → length bytes ≤ length memory
    → write_bytes (length before) bytes (before ++ memory)
      ≡ some (before ++ bytes ++ drop (length bytes) memory)
unfolding write_bytes
write_bytes-prefix [] [] memory fits = refl
write_bytes-prefix [] (b ∷ bytes) [] fits = absurd (omega arith)
write_bytes-prefix [] (b ∷ bytes) (x ∷ memory) fits =
    rw (write_bytes-prefix [] bytes memory (omega arith))
write_bytes-prefix (y ∷ before) bytes memory fits = rw (write_bytes-prefix before bytes memory fits)

length-drop_le : (n : ℕ) (xs : List ℕ) → length (drop n xs) ≡ length xs - n
length-drop_le zero xs = omega arith
length-drop_le (suc n) [] = omega arith
length-drop_le (suc n) (x ∷ xs) = omega (arith, length-drop_le n xs)

drop_nil : (n : ℕ) → drop {A = ℕ} n [] ≡ []
drop_nil zero = refl
drop_nil (suc n) = refl

drop-drop : (m n : ℕ) (xs : List ℕ) → drop m (drop n xs) ≡ drop (n + m) xs
drop-drop m zero xs = ap (λ (k : ℕ). drop k xs) (omega arith)
drop-drop m (suc n) [] = drop_nil m ∙ sym (drop_nil (suc n + m))
drop-drop m (suc n) (x ∷ xs) =
    let shift : suc (n + m) ≡ suc n + m = omega arith in
    drop-drop m n xs ∙ ap (λ (k : ℕ). drop k (x ∷ xs)) shift

-- The arguments, zeros up to the size of the segment, and the rest of the destination.
abbrev pub filled_with : ℕ → List ℕ → List ℕ → List ℕ
filled_with size arguments destination =
    arguments ++ replicate (size - length arguments) 0 ++ drop size destination

fill_segment_lem :
    (size : ℕ) (arguments destination : List ℕ)
    → length arguments ≤ size
    → size ≤ length destination
    → fill_segment size arguments destination ≡ some (filled_with size arguments destination)
unfolding fill_segment
fill_segment_lem size arguments destination small fits =
    let zeros : List ℕ = replicate (size - length arguments) 0 in
    let rest : List ℕ = drop (length arguments) destination in
    let count : length zeros ≡ size - length arguments =
      length-replicate (size - length arguments) 0 in
    let behind : drop (length zeros) rest ≡ drop size destination =
      drop-drop (length zeros) (length arguments) destination
      ∙ ap (λ (n : ℕ). drop n destination) (omega (arith, count)) in
    let copied : write_bytes 0 arguments destination ≡ some (arguments ++ rest) =
      write_bytes-prefix [] arguments destination (omega arith) in
    rw (copied, fill_segment)
      (write_bytes-prefix arguments zeros rest
          (omega (arith, count, length-drop_le (length arguments) destination))
        ∙ ap (λ (t : List ℕ). some (arguments ++ zeros ++ t)) behind)

-- A buffer on the segment at `gpu_address`, whose bytes are the arguments and zeros, with what lies
-- behind the segment unchanged.
abbrev pub Segment : KernelInfo → List ℕ → List ℕ → ℕ → Materialized
Segment kernel arguments destination gpu_address =
    buffer
      (record {
        gpu_address = gpu_address;
        kernarg_size = kernel.kernarg_size;
        alignment = kernel.kernarg_alignment;
        valid = true;
      })
      (memory_at (filled_with kernel.kernarg_size arguments destination))

-- A request that a kernel with arguments can be launched from.
pub record IsPlaceable (kernel : KernelInfo) (arguments destination : List ℕ) (gpu_address : ℕ)
    : Type 0 where
  pub some_alignment : (k : ℕ) × (kernel.kernarg_alignment ≡ 2 ^ k)
  pub minimum : 16 ≤ kernel.kernarg_alignment
  pub arguments_fit : length arguments ≤ kernel.kernarg_size
  pub destination_fits : kernel.kernarg_size ≤ length destination
  pub some_address : 0 < gpu_address
  pub aligned : gpu_address % kernel.kernarg_alignment ≡ 0
  pub in_range : gpu_address + kernel.kernarg_size < u64_limit

module _ (kernel : KernelInfo) (arguments destination : List ℕ) (gpu_address : ℕ) where
  abbrev request : Materialized
  request =
      materialize_kernarg_buffer kernel (memory_at arguments) (memory_at destination) gpu_address

  -- For a kernel whose kernarg segment is not empty, a request with arguments and a destination that are
  -- not null is refused with the destination untouched, or it is placeable, and the segment is filled
  -- with the arguments and zeros, and nothing behind it is changed.
  pub materialize_kernarg_buffer-Segment :
      0 < kernel.kernarg_size
      → ((e : KernargBufferError) × (request ≡ failure e (memory_at destination)))
        ⊎ (IsPlaceable kernel arguments destination gpu_address
            × (request ≡ Segment kernel arguments destination gpu_address))
  unfolding materialize_kernarg_buffer kernarg_buffer_requirements materialize_required
      materialize_storage fill
  materialize_kernarg_buffer-Segment some_bytes = ground (
    arith,
    fill_segment_lem kernel.kernarg_size arguments destination,
    is_power_of_two_sound kernel.kernarg_alignment,
  )

  -- For a kernel whose kernarg segment is not empty, a placeable request is carried out: the segment is
  -- filled with the arguments and zeros, and nothing behind it is changed.
  pub materialize_kernarg_buffer_accepts :
      0 < kernel.kernarg_size
      → IsPlaceable kernel arguments destination gpu_address
      → request ≡ Segment kernel arguments destination gpu_address
  unfolding materialize_kernarg_buffer kernarg_buffer_requirements materialize_required
      materialize_storage fill
  materialize_kernarg_buffer_accepts some_bytes p =
      let power : is_power_of_two kernel.kernarg_alignment ≡ true =
        subst (λ (a : ℕ). is_power_of_two a ≡ true) (sym p.some_alignment.1)
          (is_power_of_two_complete p.some_alignment.0) in
      ground (arith, fill_segment_lem kernel.kernarg_size arguments destination, power, p)
