-- ===== src/Prelude/Sorting.antt =====
-- `std::sort` by a Boolean order, as insertion sort; and predicates on lists that it keeps.
use mathlib.Core.Path.{◌≡◌}
use mathlib.Core.Bool.{Bool, true, false}
use mathlib.Core.List.{List, [], ◌∷◌}
use mathlib.Core.Logic.{inl, inr, ◌↔◌}
use Prim.Native.Nat.{ℕ, ◌≤◌}
use native.Mathlib.Omega.{arith}
use light_rocm_runtime.Prelude.Tests.{if◌then◌else◌, Bool-cases}
use light_rocm_runtime.Prelude.Lists.{All}

module _ {ℓ} {A : Type ℓ} (before : A → A → Bool) where
  unfoldable pub insert : A → List A → List A
  insert a [] = a ∷ []
  insert a (x ∷ xs) = if before x a then x ∷ insert a xs else a ∷ x ∷ xs

  unfoldable pub sort : List A → List A
  unfolding insert
  sort [] = []
  sort (x ∷ xs) = insert x (sort xs)

-- `R` holds between every element and every later one.
abbrev pub AllPairs {ℓ κ} : {A : Type ℓ} → (A → A → Type κ) → List A → Type κ
AllPairs R [] = Unit
AllPairs R (x ∷ xs) = All (R x) xs × AllPairs R xs

module _ {ℓ κ} {A : Type ℓ} (before : A → A → Bool) (P : A → Type κ) where
  insert-All : (a : A) (xs : List A) → (All P (insert before a xs)) ↔ (P a × All P xs)
  unfolding insert
  insert-All a [] = (λ h. h, λ h. h)
  insert-All a (x ∷ xs) = elim (Bool-cases (before x a)) [
    | inl e ↦
        rw (e, insert)
          (
            (λ h. let r = (insert-All a xs).0 h.1 in (r.0, (h.0, r.1))),
            λ h. (h.1.0, (insert-All a xs).1 (h.0, h.1.1)),
          )
    | inr e ↦ rw (e, insert) ((λ h. h), λ h. h)
  ]

  -- A sorted list has the elements of the list.
  pub sort-All : (xs : List A) → (All P (sort before xs)) ↔ (All P xs)
  unfolding sort
  sort-All [] = (λ h. h, λ h. h)
  sort-All (x ∷ xs) = (
    (λ h. let r = (insert-All x (sort before xs)).0 h in (r.0, (sort-All xs).0 r.1)),
    λ h. (insert-All x (sort before xs)).1 (h.0, (sort-All xs).1 h.1),
  )

module _ {ℓ κ} {A : Type ℓ} (before : A → A → Bool) (R : A → A → Type κ)
    (symmetric : (a b : A) → R a b → R b a) where
  All-symmetric : (a : A) (xs : List A) → All (λ b. R b a) xs → All (R a) xs
  All-symmetric a [] h = tt
  All-symmetric a (x ∷ xs) h = (symmetric x a h.0, All-symmetric a xs h.1)

  insert-AllPairs :
      (a : A) (xs : List A) → (AllPairs R (insert before a xs)) ↔ (All (R a) xs × AllPairs R xs)
  unfolding insert
  insert-AllPairs a [] = (λ h. (tt, tt), λ h. (tt, tt))
  insert-AllPairs a (x ∷ xs) = elim (Bool-cases (before x a)) [
    | inl e ↦
        rw (e, insert)
          (
            (λ h.
                let all = (insert-All before (R x) a xs).0 h.0 in
                let rest = (insert-AllPairs a xs).0 h.1 in
                ((symmetric x a all.0, rest.0), (all.1, rest.1))),
            λ h. (
              (insert-All before (R x) a xs).1 (symmetric a x h.0.0, h.1.0),
              (insert-AllPairs a xs).1 (h.0.1, h.1.1),
            ),
          )
    | inr e ↦ rw (e, insert) ((λ h. h), λ h. h)
  ]

  -- A symmetric relation between all pairs does not see the order.
  pub sort-AllPairs : (xs : List A) → (AllPairs R (sort before xs)) ↔ (AllPairs R xs)
  unfolding sort
  sort-AllPairs [] = (λ h. h, λ h. h)
  sort-AllPairs (x ∷ xs) = (
    (λ h.
        let r = (insert-AllPairs x (sort before xs)).0 h in
        ((sort-All before (R x) xs).0 r.0, (sort-AllPairs xs).0 r.1)),
    λ h.
        (insert-AllPairs x (sort before xs)).1
          ((sort-All before (R x) xs).1 h.0, (sort-AllPairs xs).1 h.1),
  )

module _ {ℓ} {A : Type ℓ} (before : A → A → Bool) (key : A → ℕ)
    (ordered : (a b : A) → before a b ≡ true → key a ≤ key b)
    (reversed : (a b : A) → before a b ≡ false → key b ≤ key a) where
  -- The keys do not fall.
  abbrev pub Ascending : List A → Type 0
  Ascending = AllPairs (λ a b. key a ≤ key b)

  All-le : (k j : ℕ) (xs : List A) → k ≤ j → All (λ b. j ≤ key b) xs → All (λ b. k ≤ key b) xs
  All-le k j [] h all = tt
  All-le k j (x ∷ xs) h all = (omega arith, All-le k j xs h all.1)

  insert-Ascending : (a : A) (xs : List A) → Ascending xs → Ascending (insert before a xs)
  unfolding insert
  insert-Ascending a [] h = (tt, tt)
  insert-Ascending a (x ∷ xs) h = elim (Bool-cases (before x a)) [
    | inl e ↦
        rw (e, insert)
          (
            (insert-All before (λ b. key x ≤ key b) a xs).1 (ordered x a e, h.0),
            insert-Ascending a xs h.1,
          )
    | inr e ↦ rw (e, insert) ((reversed x a e, All-le (key a) (key x) xs (reversed x a e) h.0), h)
  ]

  pub sort-Ascending : (xs : List A) → Ascending (sort before xs)
  unfolding sort
  sort-Ascending [] = tt
  sort-Ascending (x ∷ xs) = insert-Ascending x (sort before xs) (sort-Ascending xs)

module _ {ℓ} {A : Type ℓ} (before : A → A → Bool)
    (asymmetric : (a b : A) → before a b ≡ true → before b a ≡ false)
    (transitive : (a b c : A) → before b a ≡ false → before c b ≡ false → before c a ≡ false) where
  -- No element comes before an earlier one.
  abbrev pub InOrder : List A → Type 0
  InOrder = AllPairs (λ a b. before b a ≡ false)

  All-not_before :
      (a b : A) (xs : List A)
      → before b a ≡ false
      → All (λ c. before c b ≡ false) xs
      → All (λ c. before c a ≡ false) xs
  All-not_before a b [] h all = tt
  All-not_before a b (x ∷ xs) h all = (transitive a b x h all.0, All-not_before a b xs h all.1)

  insert-InOrder : (a : A) (xs : List A) → InOrder xs → InOrder (insert before a xs)
  unfolding insert
  insert-InOrder a [] h = (tt, tt)
  insert-InOrder a (x ∷ xs) h = elim (Bool-cases (before x a)) [
    | inl e ↦
        rw (e, insert)
          (
            (insert-All before (λ b. before b x ≡ false) a xs).1 (asymmetric x a e, h.0),
            insert-InOrder a xs h.1,
          )
    | inr e ↦ rw (e, insert) ((e, All-not_before a x xs e h.0), h)
  ]

  pub sort-InOrder : (xs : List A) → InOrder (sort before xs)
  unfolding sort
  sort-InOrder [] = tt
  sort-InOrder (x ∷ xs) = insert-InOrder x (sort before xs) (sort-InOrder xs)
