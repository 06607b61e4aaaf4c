-- ===== src/Topology/Select.antt =====
-- `select_unique_gpu` of light-rocr/runtime/topology.cpp, against the nodes that fit the target.
use light_rocm_runtime.Prelude.{
  subst, ℕ, zero, suc, ◌+◌, ◌≤◌, ◌<◌, ◌≡◌, refl, ap, inl, inr, true, List, [], ◌∷◌, some, arith,
  get_elem?, length, Bool-cases, if◌then◌else◌,
}
use light_rocm_runtime.Topology.{
  Node, matches, canonical_gfx_target, scan, select_unique_gpu, selected,
}

module _ (target : List ℕ) where
  count_matches : List Node → ℕ
  count_matches [] = 0
  count_matches (n ∷ ns) = (if matches target n then 1 else 0) + count_matches ns

  scan_count :
      (ns : List Node) (index found count : ℕ)
      → (scan target ns index found count).1 ≡ count + count_matches ns
  unfolding scan count_matches
  scan_count [] index found count = omega arith
  scan_count (n ∷ ns) index found count = ground (
    arith,
    scan_count ns (index + 1) (if matches target n then index else found)
        (if matches target n then count + 1 else count),
  )

  scan_miss :
      (ns : List Node) (index found count : ℕ)
      → count_matches ns ≡ 0
      → (scan target ns index found count).0 ≡ found
  unfolding scan count_matches
  scan_miss [] index found count e = refl
  scan_miss (n ∷ ns) index found count e = elim (Bool-cases (matches target n)) [
    | inl hit ↦ absurd (ground arith)
    | inr miss ↦ rw (miss, scan) (scan_miss ns (index + 1) found count (ground arith))
  ]

  -- The node at position `k` fits.
  abbrev pub Fits : List Node → ℕ → Type 0
  Fits ns k = (n : Node) × (get_elem? ns k ≡ some n) × (matches target n ≡ true)

  scan_hit :
      (ns : List Node) (index found count : ℕ)
      → count_matches ns ≡ 1
      → (k : ℕ) × ((scan target ns index found count).0 ≡ index + k) × Fits ns k
  unfolding scan count_matches
  scan_hit [] index found count e = absurd (omega arith)
  scan_hit (n ∷ ns) index found count e = elim (Bool-cases (matches target n)) [
    | inl hit ↦
        rw (hit, scan)
          (
            0,
            omega (arith, scan_miss ns (index + 1) index (count + 1) (ground arith)),
            (n, refl, hit),
          )
    | inr miss ↦
        let later : (k : ℕ) × ((scan target ns (index + 1) found count).0 ≡ index + 1 + k)
            × Fits ns k =
          scan_hit ns (index + 1) found count (ground arith) in
        rw (miss, scan) (suc later.0, omega (arith, later.1), later.2)
  ]

  Fits-count : (ns : List Node) (k : ℕ) → Fits ns k → 1 ≤ count_matches ns
  unfolding count_matches
  Fits-count [] k (n, e, h) = cc
  Fits-count (x ∷ ns) zero (n, e, h) = ground arith
  Fits-count (x ∷ ns) (suc k) (n, e, h) = ground (arith, Fits-count ns k (n, e, h))

  Fits-unique : (ns : List Node) (j k : ℕ) → count_matches ns ≤ 1 → Fits ns j → Fits ns k → j ≡ k
  unfolding count_matches
  Fits-unique [] j k c (n, e, h) f = cc
  Fits-unique (x ∷ ns) zero zero c f g = refl
  Fits-unique (x ∷ ns) zero (suc k) c (n, e, h) g = ground (arith, Fits-count ns k g)
  Fits-unique (x ∷ ns) (suc j) zero c f (n, e, h) = ground (arith, Fits-count ns j f)
  Fits-unique (x ∷ ns) (suc j) (suc k) c f g = ap suc (Fits-unique ns j k (omega arith) f g)

  no_Fits-count : (ns : List Node) → ((k : ℕ) → Fits ns k → ⊥) → count_matches ns ≡ 0
  unfolding count_matches
  no_Fits-count [] never = refl
  no_Fits-count (x ∷ ns) never = elim (Bool-cases (matches target x)) [
    | inl hit ↦ absurd (never 0 (x, refl, hit))
    | inr miss ↦ rw (miss, count_matches) (omega (arith, no_Fits-count ns (λ k. never (suc k))))
  ]

  -- If every position that fits is `i`, there is at most one.
  only_Fits-count : (ns : List Node) (i : ℕ) → ((k : ℕ) → Fits ns k → k ≡ i) → count_matches ns ≤ 1
  unfolding count_matches
  only_Fits-count [] i only = omega arith
  only_Fits-count (x ∷ ns) zero only =
      ground (arith, no_Fits-count ns (λ k f. omega (arith, only (suc k) f)))
  only_Fits-count (x ∷ ns) (suc i) only = elim (Bool-cases (matches target x)) [
    | inl hit ↦ absurd (omega (arith, only 0 (x, refl, hit)))
    | inr miss ↦
        rw (miss, count_matches)
          (omega (arith, only_Fits-count ns i (λ k f. omega (arith, only (suc k) f))))
  ]

module _ (nodes : List Node) (target_isa : List ℕ) (i : ℕ) where
  abbrev target : List ℕ
  target = canonical_gfx_target target_isa

  selected_once :
      select_unique_gpu nodes target_isa ≡ selected i
      → (count_matches target nodes ≡ 1) × ((scan target nodes 0 0 0).0 ≡ i)
  unfolding select_unique_gpu
  selected_once e = ground (arith, scan_count target nodes 0 0 0)

  -- If an index is selected, a GPU node of the target's architecture stands there.
  select_unique_gpu_sound :
      select_unique_gpu nodes target_isa ≡ selected i
      → Fits (canonical_gfx_target target_isa) nodes i
  select_unique_gpu_sound e =
      let (once, at) = selected_once e in
      let (k, found, fits) = scan_hit target nodes 0 0 0 once in
      subst (Fits target nodes) (omega arith) fits

  -- If an index is selected, every position whose node fits the target is that index.
  pub select_unique_gpu_unique :
      (j : ℕ)
      → select_unique_gpu nodes target_isa ≡ selected i
      → Fits (canonical_gfx_target target_isa) nodes j
      → j ≡ i
  select_unique_gpu_unique j e f =
      Fits-unique target nodes j i (omega (arith, (selected_once e).0)) f
        (select_unique_gpu_sound e)

  -- If the target is well formed and exactly one node fits it, that node is selected.
  pub select_unique_gpu_complete :
      0 < length (canonical_gfx_target target_isa)
      → Fits (canonical_gfx_target target_isa) nodes i
      → ((k : ℕ) → Fits (canonical_gfx_target target_isa) nodes k → k ≡ i)
      → select_unique_gpu nodes target_isa ≡ selected i
  unfolding select_unique_gpu
  select_unique_gpu_complete named fits only =
      let once : count_matches target nodes ≡ 1 =
        omega (arith, Fits-count target nodes i fits, only_Fits-count target nodes i only) in
      let (k, found, hit) = scan_hit target nodes 0 0 0 once in
      ground (arith, scan_count target nodes 0 0 0, only k hit)
