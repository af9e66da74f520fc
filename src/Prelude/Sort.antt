-- ===== src/Prelude/Sort.antt =====
-- `list.sort` and `sorted`: the stable sort by a comparison, as an insertion sort.
use Prim.Native.Nat.{ℕ, ◌+◌}
use mathlib.Core.Path.{◌≡◌, refl, ap, ◌∙◌}
use mathlib.Core.Logic.{inl, inr}
use mathlib.Core.Bool.{Bool, true, false}
use mathlib.Core.List.{List, [], ◌∷◌}
use native.Mathlib.Omega.{arith}
use nemo_rl_vlm.Prelude.Tests.{if◌then◌else◌, Bool-cases}
use nemo_rl_vlm.Prelude.Lists.{length, total, total_one, All, All-map}

module _ {ℓ} {A : Type ℓ} (le : A → A → Bool) where
  -- A new item goes before the first item that it may precede: equal items keep their order.
  unfoldable pub insert_sorted : A → List A → List A
  insert_sorted x [] = x ∷ []
  insert_sorted x (y ∷ ys) = if le x y then x ∷ y ∷ ys else y ∷ insert_sorted x ys

  unfoldable pub sort : List A → List A
  unfolding insert_sorted
  sort [] = []
  sort (x ∷ xs) = insert_sorted x (sort xs)

  -- Every item may precede all that stand behind it.
  abbrev pub IsSorted : List A → Type 0
  IsSorted [] = Unit
  IsSorted (x ∷ xs) = All (λ y. le x y ≡ true) xs × IsSorted xs

  total-insert_sorted :
      (f : A → ℕ) (x : A) (ys : List A) → total f (insert_sorted x ys) ≡ f x + total f ys
  unfolding insert_sorted
  total-insert_sorted f x [] = refl
  total-insert_sorted f x (y ∷ ys) = ground (arith, total-insert_sorted f x ys)

  pub total-sort : (f : A → ℕ) (xs : List A) → total f (sort xs) ≡ total f xs
  unfolding sort
  total-sort f [] = refl
  total-sort f (x ∷ xs) = omega (arith, total-insert_sorted f x (sort xs), total-sort f xs)

  pub length-sort : (xs : List A) → length (sort xs) ≡ length xs
  length-sort xs = omega (arith, total-sort (λ _. 1) xs, total_one {ℓ} (sort xs), total_one {ℓ} xs)

  All-insert_sorted {κ} :
      (P : A → Type κ) (x : A) (ys : List A) → P x → All P ys → All P (insert_sorted x ys)
  unfolding insert_sorted
  All-insert_sorted P x [] p h = (p, h)
  All-insert_sorted P x (y ∷ ys) p h = elim (Bool-cases (le x y)) [
    | inl e ↦ rw (e, insert_sorted) (p, h)
    | inr e ↦ rw (e, insert_sorted) (h.0, All-insert_sorted P x ys p h.1)
  ]

  pub All-sort {κ} : (P : A → Type κ) (xs : List A) → All P xs → All P (sort xs)
  unfolding sort
  All-sort P [] h = tt
  All-sort P (x ∷ xs) h = All-insert_sorted P x (sort xs) h.0 (All-sort P xs h.1)

  insert_first : (x : A) (ys : List A) → All (λ y. le x y ≡ true) ys → insert_sorted x ys ≡ x ∷ ys
  unfolding insert_sorted
  insert_first x [] h = refl
  insert_first x (y ∷ ys) h = rw h.0 refl

  -- A list in order stays as it is.
  pub sort_id : (xs : List A) → IsSorted xs → sort xs ≡ xs
  unfolding sort
  sort_id [] h = refl
  sort_id (x ∷ xs) h = ap (insert_sorted x) (sort_id xs h.1) ∙ insert_first x xs h.0

  module _ (trans : (x y z : A) → le x y ≡ true → le y z ≡ true → le x z ≡ true)
      (linear : (x y : A) → le x y ≡ false → le y x ≡ true) where
    insert_sorted-IsSorted : (x : A) (ys : List A) → IsSorted ys → IsSorted (insert_sorted x ys)
    unfolding insert_sorted
    insert_sorted-IsSorted x [] h = (tt, tt)
    insert_sorted-IsSorted x (y ∷ ys) h = elim (Bool-cases (le x y)) [
      | inl e ↦
          rw (e, insert_sorted)
            ((e, All-map (λ z. le y z ≡ true) (λ z. le x z ≡ true) ys (λ z. trans x y z e) h.0), h)
      | inr e ↦
          rw (e, insert_sorted)
            (
              All-insert_sorted (λ z. le y z ≡ true) x ys (linear x y e) h.0,
              insert_sorted-IsSorted x ys h.1,
            )
    ]

    -- The sort leaves its list in order.
    pub sort-IsSorted : (xs : List A) → IsSorted (sort xs)
    unfolding sort
    sort-IsSorted [] = tt
    sort-IsSorted (x ∷ xs) = insert_sorted-IsSorted x (sort xs) (sort-IsSorted xs)
