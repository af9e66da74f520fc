-- ===== src/Batched/Rows.antt =====
-- The rows at a list of indices.
use nemo_rl_vlm.Prelude.{
  ℕ, zero, suc, ◌+◌, ◌<◌, ◌≡◌, refl, sym, ap, ◌∙◌, inl, inr, List, [], ◌∷◌, ◌++◌, some, true, leb,
  ltb, length, get_elem?, get_elem?_total, take, drop, range_from, All, All_get, All-map,
  Option-cases, both_true, arith, tests,
}
use nemo_rl_vlm.Prelude.Sort.{IsSorted}
use nemo_rl_vlm.Prelude.Multiset.{SameItems, All-of_SameItems}
use nemo_rl_vlm.Batched.{index_select, in_range}

pub in_range→All : (n : ℕ) (is : List ℕ) → in_range n is ≡ true → All (λ i. i < n) is
in_range→All n [] h = tt
in_range→All n (i ∷ is) h =
    let both = both_true (ltb i n) (in_range n is) h in
    (omega (tests, both.0), in_range→All n is both.1)

pub All→in_range : (n : ℕ) (is : List ℕ) → All (λ i. i < n) is → in_range n is ≡ true
All→in_range n [] h = refl
All→in_range n (i ∷ is) h =
    let first : ltb i n ≡ true = omega (tests, h.0) in rw (first, All→in_range n is h.1) refl

module _ {A : Type 0} where
  pub index_select-cons :
      (i : ℕ) (is : List ℕ) (xs : List A) (x : A)
      → get_elem? xs i ≡ some x
      → index_select (i ∷ is) xs ≡ x ∷ index_select is xs
  unfolding index_select
  index_select-cons i is xs x h = rw (h, index_select) refl

module _ {A : Type 0} where
  pub index_select-append :
      (is js : List ℕ) (xs : List A)
      → index_select (is ++ js) xs ≡ index_select is xs ++ index_select js xs
  unfolding index_select
  index_select-append [] js xs = refl
  index_select-append (i ∷ is) js xs = elim (Option-cases (get_elem? xs i)) [
    | inl e ↦ rw (e, index_select) (index_select-append is js xs)
    | inr (x, e) ↦ rw (e, index_select) (ap (◌∷◌ x) (index_select-append is js xs))
  ]

  -- Indices in range find a row each.
  pub length-index_select :
      (is : List ℕ) (xs : List A)
      → All (λ i. i < length xs) is
      → length (index_select is xs) ≡ length is
  unfolding index_select
  length-index_select [] xs h = refl
  length-index_select (i ∷ is) xs h =
      let (x, e) = get_elem?_total xs i h.0 in
      rw (e, index_select) (ap suc (length-index_select is xs h.1))

  get_elem?-index_select :
      (is : List ℕ) (xs : List A) (j i : ℕ)
      → All (λ i. i < length xs) is
      → get_elem? is j ≡ some i
      → get_elem? (index_select is xs) j ≡ get_elem? xs i
  unfolding index_select
  get_elem?-index_select [] xs j i h e = absurd (ground arith)
  get_elem?-index_select (k ∷ is) xs zero i h e =
      let (x, found) = get_elem?_total xs k h.0 in
      let same : k ≡ i = ground (arith, e) in
      rw (found, index_select) (sym found ∙ ap (get_elem? xs) same)
  get_elem?-index_select (k ∷ is) xs (suc j) i h e =
      let (x, found) = get_elem?_total xs k h.0 in
      rw (found, index_select) (get_elem?-index_select is xs j i h.1 e)

  -- The rows of the rows at some indices.
  pub index_select-index_select :
      (js is : List ℕ) (xs : List A)
      → All (λ i. i < length xs) is
      → All (λ j. j < length is) js
      → index_select js (index_select is xs) ≡ index_select (index_select js is) xs
  unfolding index_select
  index_select-index_select [] is xs h k = refl
  index_select-index_select (j ∷ js) is xs h k =
      let (i, e) = get_elem?_total is j k.0 in
      let (x, found) = get_elem?_total xs i (All_get (λ i. i < length xs) is j i h e) in
      index_select-cons j js (index_select is xs) x (get_elem?-index_select is xs j i h e ∙ found)
      ∙ ap (◌∷◌ x) (index_select-index_select js is xs h k.1)
      ∙ sym (index_select-cons i (index_select js is) xs x found)
      ∙ ap (λ l. index_select l xs) (sym (index_select-cons j js is i e))

  index_select-shift :
      (x : A) (xs : List A) (s n : ℕ)
      → index_select (range_from (suc s) n) (x ∷ xs) ≡ index_select (range_from s n) xs
  unfolding index_select
  index_select-shift x xs s zero = refl
  index_select-shift x xs s (suc n) = elim (Option-cases (get_elem? xs s)) [
    | inl e ↦ rw (e, index_select) (index_select-shift x xs (suc s) n)
    | inr (y, e) ↦ rw (e, index_select) (ap (◌∷◌ y) (index_select-shift x xs (suc s) n))
  ]

  index_select_nil : (is : List ℕ) → index_select {A = A} is [] ≡ []
  unfolding index_select
  index_select_nil [] = refl
  index_select_nil (i ∷ is) = index_select_nil is

  take-drop_nil : (s n : ℕ) → take {A = A} n (drop s []) ≡ []
  take-drop_nil zero zero = refl
  take-drop_nil zero (suc n) = refl
  take-drop_nil (suc s) zero = refl
  take-drop_nil (suc s) (suc n) = refl

  -- The rows of a range are a part of the list.
  pub index_select-range_from :
      (s n : ℕ) (xs : List A) → index_select (range_from s n) xs ≡ take n (drop s xs)
  unfolding index_select
  index_select-range_from s zero xs = refl
  index_select-range_from s (suc n) [] =
      index_select_nil (range_from (suc s) n) ∙ sym (take-drop_nil s (suc n))
  index_select-range_from zero (suc n) (x ∷ xs) =
      ap (◌∷◌ x) (index_select-shift x xs 0 n ∙ index_select-range_from 0 n xs)
  index_select-range_from (suc s) (suc n) (x ∷ xs) =
      index_select-shift x xs s (suc n) ∙ index_select-range_from s (suc n) xs

  pub take_all : (xs : List A) → take (length xs) xs ≡ xs
  take_all [] = refl
  take_all (x ∷ xs) = ap (◌∷◌ x) (take_all xs)

  pub index_select_all : (xs : List A) → index_select (range_from 0 (length xs)) xs ≡ xs
  index_select_all xs = index_select-range_from 0 (length xs) xs ∙ take_all xs

range_from-ge : (i n : ℕ) → All (λ j. leb i j ≡ true) (range_from i n)
range_from-ge i zero = tt
range_from-ge i (suc n) = (
  omega tests,
  All-map _ _ (range_from (suc i) n) (λ j h. omega (tests, h)) (range_from-ge (suc i) n),
)

pub range_from-lt : (i n : ℕ) → All (λ j. j < i + n) (range_from i n)
range_from-lt i zero = tt
range_from-lt i (suc n) = (
  omega arith,
  All-map _ _ (range_from (suc i) n) (λ j h. omega (arith, h)) (range_from-lt (suc i) n),
)

-- An ascending list of the numbers of a range is the range.
pub sorted-range_from :
    (i n : ℕ) (xs : List ℕ) → IsSorted leb xs → SameItems xs (range_from i n) → xs ≡ range_from i n
sorted-range_from i zero [] s h = refl
sorted-range_from i zero (x ∷ xs) s h = absurd (omega (arith, h (λ _. 1)))
sorted-range_from i (suc n) [] s h = absurd (omega (arith, h (λ _. 1)))
sorted-range_from i (suc n) (x ∷ xs) s h =
    let lower =
      All-of_SameItems (leb x) (x ∷ xs) (range_from i (suc n)) (λ f. sym (h f))
        (omega tests, s.0) in
    let upper =
      All-of_SameItems (leb i) (range_from i (suc n)) (x ∷ xs) h (range_from-ge i (suc n)) in
    let heads : x ≡ i = omega (tests, lower.0, upper.0) in
    let tails = sorted-range_from (suc i) n xs s.1 (λ f. omega (arith, h f, ap f heads)) in cc
