-- ===== src/Kfd/Vm/Query.antt =====
-- The query of a device's process aperture in light-rocr/transport/kfd/vm.cpp.
use light_rocm_runtime.Prelude.{
  ℕ, zero, suc, ◌+◌, ◌≤◌, ◌<◌, ◌≡◌, ◌≢◌, ◌⊎◌, inl, inr, refl, true, none, some, List, [], ◌∷◌, All,
  subst, sym, ap, ◌∙◌, Bool, Bool-cases, Option-cases, arith, ◌!=◌,
}
use light_rocm_runtime.Kfd.{Answer, answered, system_error}
use light_rocm_runtime.Kfd.Vm.{
  ProcessAperture, vm, aperture_is_valid, select_aperture, QueryAnswers, query_aperture_count,
  compare_counts, query_attempt, query_attempts, query_process_aperture,
}

pub record IsAperture (gpu_id : ℕ) (a : ProcessAperture) : Type 0 where
  pub same_gpu : a.gpu_id ≡ gpu_id
  pub lds_range : a.lds_base ≤ a.lds_limit
  pub scratch_range : a.scratch_base ≤ a.scratch_limit
  pub gpuvm_range : a.gpuvm_base ≤ a.gpuvm_limit

-- One aperture of the list is the GPU's, and no other.
pub OnlyOne : ℕ → ProcessAperture → List ProcessAperture → Type 0
OnlyOne gpu_id a [] = ⊥
OnlyOne gpu_id a (b ∷ bs) =
    ((b ≡ a) × All (λ c. c.gpu_id ≢ gpu_id) bs) ⊎ ((b.gpu_id ≢ gpu_id) × OnlyOne gpu_id a bs)

vm-injective : {a b : ProcessAperture} → vm a ≡ vm b → a ≡ b
vm-injective e = cc

select_found :
    (gpu_id : ℕ) (s a : ProcessAperture) (apertures : List ProcessAperture)
    → select_aperture gpu_id (some s) apertures ≡ vm a
    → (s ≡ a) × All (λ c. c.gpu_id ≢ gpu_id) apertures
unfolding select_aperture
select_found gpu_id s a [] e = (vm-injective e, tt)
select_found gpu_id s a (b ∷ bs) e = ground (arith, select_found gpu_id s a bs)

select_lem :
    (gpu_id : ℕ) (a : ProcessAperture) (apertures : List ProcessAperture)
    → select_aperture gpu_id none apertures ≡ vm a
    → OnlyOne gpu_id a apertures × IsAperture gpu_id a
unfolding select_aperture OnlyOne
select_lem gpu_id a [] e = cc
select_lem gpu_id a (b ∷ bs) e = elim (Bool-cases (b.gpu_id != gpu_id)) [
  | inl other ↦
      let run : select_aperture gpu_id none bs ≡ vm a = ground arith in
      let rest = select_lem gpu_id a bs run in (inr (ground arith, rest.0), rest.1)
  | inr same ↦
      let run : select_aperture gpu_id (some b) bs ≡ vm a = ground arith in
      let (equal, others) = select_found gpu_id b a bs run in
      let valid : aperture_is_valid b ≡ true = ground arith in
      (inl (equal, others), subst (IsAperture gpu_id) equal (proper valid (ground arith)))
]
  where
    proper : aperture_is_valid b ≡ true → b.gpu_id ≡ gpu_id → IsAperture gpu_id b
    proper valid same =
        unfold aperture_is_valid in
        record {
          same_gpu = same;
          lds_range = ground arith;
          scratch_range = ground arith;
          gpuvm_range = ground arith;
        }

-- An attempt in which KFD reports one count three times, and exactly one aperture for the GPU.
pub record IsConsistent (gpu_id : ℕ) (answers : QueryAnswers) (a : ProcessAperture) : Type 0 where
  pub count : ℕ
  pub same_before : answers.count_before ≡ answered count
  pub same_stored : answers.stored_count ≡ answered count
  pub same_after : answers.count_after ≡ answered count
  pub some_aperture : (0 < count) × (count ≤ 4096)
  pub only_one : OnlyOne gpu_id a answers.stored_apertures
  pub is_aperture : IsAperture gpu_id a

-- An attempt in which all three calls answer and whose result is an aperture.
counts_agree :
    (gpu_id n m k : ℕ) (allocated : Bool) (apertures : List ProcessAperture) (a : ProcessAperture)
    → query_attempt gpu_id (record {
      count_before = answered n;
      storage_allocated = allocated;
      stored_count = answered m;
      stored_apertures = apertures;
      count_after = answered k;
    })
      ≡ some (vm a)
    → (n ≡ m) × (m ≡ k) × (0 < n) × (n ≤ 4096) × (select_aperture gpu_id none apertures ≡ vm a)
unfolding query_attempt query_aperture_count compare_counts
counts_agree gpu_id n m k allocated apertures a e = ground arith

attempt_of :
    (gpu_id : ℕ) (before stored after : Answer ℕ) (allocated : Bool)
    (apertures : List ProcessAperture) (a : ProcessAperture)
    → query_attempt gpu_id (record {
      count_before = before;
      storage_allocated = allocated;
      stored_count = stored;
      stored_apertures = apertures;
      count_after = after;
    })
      ≡ some (vm a)
    → IsConsistent gpu_id
        (record {
          count_before = before;
          storage_allocated = allocated;
          stored_count = stored;
          stored_apertures = apertures;
          count_after = after;
        })
        a
unfolding query_attempt query_aperture_count compare_counts
attempt_of gpu_id (system_error x) stored after allocated apertures a e = cc
attempt_of gpu_id (answered n) (system_error x) after allocated apertures a e =
    absurd (ground arith)
attempt_of gpu_id (answered n) (answered m) (system_error x) allocated apertures a e =
    absurd (ground arith)
attempt_of gpu_id (answered n) (answered m) (answered k) allocated apertures a e =
    let (first, second, pos, few, selected) = counts_agree gpu_id n m k allocated apertures a e in
    let found = select_lem gpu_id a apertures selected in
    record {
      count = n;
      same_before = refl;
      same_stored = ap answered (sym first);
      same_after = ap answered (sym second ∙ sym first);
      some_aperture = (pos, few);
      only_one = found.0;
      is_aperture = found.1;
    }

attempts_lem :
    (gpu_id : ℕ) (answers : ℕ → QueryAnswers) (left i : ℕ) (a : ProcessAperture)
    → query_attempts gpu_id answers left i ≡ vm a
    → (k : ℕ) × (i ≤ k) × (k < i + left) × IsConsistent gpu_id (answers k) a
unfolding query_attempts
attempts_lem gpu_id answers zero i a e = cc
attempts_lem gpu_id answers (suc left) i a e =
    elim (Option-cases (query_attempt gpu_id (answers i))) [
      | inl again ↦
          let run : query_attempts gpu_id answers left (i + 1) ≡ vm a = ground arith in
          let (k, from, upto, consistent) = attempts_lem gpu_id answers left (i + 1) a run in
          (k, omega arith, omega arith, consistent)
      | inr (r, ended) ↦
          let same : r ≡ vm a = ground arith in
          (
            i,
            omega arith,
            omega arith,
            attempt_of gpu_id (answers i).count_before (answers i).stored_count
                (answers i).count_after (answers i).storage_allocated (answers i).stored_apertures a
                (ended ∙ ap some same),
          )
    ]

-- An aperture that the query gives comes from one of its three attempts: in it KFD reports one count, of 1
-- to 4096, in all three calls; exactly one of the apertures that it stores is the GPU's, the one given;
-- and its three ranges are in order.
pub query_process_aperture_sound :
    (fd_is_open : Bool) (gpu_id : ℕ) (answers : ℕ → QueryAnswers) (a : ProcessAperture)
    → query_process_aperture fd_is_open gpu_id answers ≡ vm a
    → (k : ℕ) × (k < 3) × IsConsistent gpu_id (answers k) a
unfolding query_process_aperture
query_process_aperture_sound fd_is_open gpu_id answers a e =
    let run : query_attempts gpu_id answers 3 0 ≡ vm a = ground arith in
    let (k, from, upto, consistent) = attempts_lem gpu_id answers 3 0 a run in
    (k, omega arith, consistent)
