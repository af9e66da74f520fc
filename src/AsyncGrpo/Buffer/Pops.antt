-- ===== src/AsyncGrpo/Buffer/Pops.antt =====
-- Popping the selected indices from the largest down leaves exactly the other items, in order.
use nemo_rl_vlm.Prelude.{
  ℕ, zero, suc, ◌+◌, ◌≤◌, ◌<◌, List, [], ◌∷◌, ◌++◌, map, Bool, ◌≡◌, refl, sym, ap, ◌∙◌, inl, inr,
  if◌then◌else◌, arith, Bool-cases, length, get_elem?, take, All, length-append,
}
use mathlib.Core.List.{append_assoc}
use nemo_rl_vlm.Prelude.Sort.{insert_sorted, sort, All-sort}
use nemo_rl_vlm.AsyncGrpo.Buffer.{pop_at, pop_each, pick, ge}
use nemo_rl_vlm.AsyncGrpo.Buffer.Spec.{count, split}

-- The smallest index goes last.
insert_smallest : (i : ℕ) (ys : List ℕ) → All (λ j. i < j) ys → insert_sorted ge i ys ≡ ys ++ i ∷ []
unfolding insert_sorted
insert_smallest i [] h = refl
insert_smallest i (y ∷ ys) h = ground (arith, h.0, insert_smallest i ys h.1)

module _ {A : Type 0} where
  pop_each-snoc :
      (is : List ℕ) (i : ℕ) (xs : List A) → pop_each (is ++ i ∷ []) xs ≡ pop_at i (pop_each is xs)
  unfolding pop_each
  pop_each-snoc [] i xs = refl
  pop_each-snoc (j ∷ is) i xs = pop_each-snoc is i (pop_at j xs)

  pop_none : (xs : List A) → pop_each (sort ge []) xs ≡ xs
  unfolding sort pop_each
  pop_none xs = refl

  pop_smallest :
      (i : ℕ) (is : List ℕ) (xs : List A)
      → All (λ j. i < j) is
      → pop_each (sort ge (i ∷ is)) xs ≡ pop_at i (pop_each (sort ge is) xs)
  unfolding sort
  pop_smallest i is xs h =
      rw (insert_smallest i (sort ge is) (All-sort ge (λ j. i < j) is h))
        (pop_each-snoc (sort ge is) i xs)

  pop_at-append :
      (xs : List A) (i : ℕ) (y : A) (ys : List A)
      → length xs ≡ i
      → pop_at i ((xs ++ y ∷ []) ++ ys) ≡ xs ++ ys
  unfolding pop_at
  pop_at-append [] zero y ys e = refl
  pop_at-append [] (suc i) y ys e = absurd (omega arith)
  pop_at-append (x ∷ xs) zero y ys e = absurd (omega arith)
  pop_at-append (x ∷ xs) (suc i) y ys e = ap (◌∷◌ x) (pop_at-append xs i y ys (omega arith))

module _ {E : Type 0} (test : E → Bool) where
  -- The positions, from `i` on, of the items that pass, and the first `n` of them.
  unfoldable pub positions : ℕ → List E → List ℕ
  positions i [] = []
  positions i (e ∷ es) = let rest = positions (suc i) es in if test e then i ∷ rest else rest

  unfoldable pub chosen : ℕ → ℕ → List E → List ℕ
  chosen n i [] = []
  chosen zero i (e ∷ es) = []
  chosen (suc n) i (e ∷ es) = if test e then i ∷ chosen n (suc i) es else chosen (suc n) (suc i) es

  pub take-positions : (n i : ℕ) (es : List E) → take n (positions i es) ≡ chosen n i es
  unfolding positions chosen
  take-positions zero i [] = refl
  take-positions (suc n) i [] = refl
  take-positions zero i (e ∷ es) = refl
  take-positions (suc n) i (e ∷ es) =
      ground (arith, take-positions n (suc i) es, take-positions (suc n) (suc i) es)

  pub length-positions : (i : ℕ) (es : List E) → length (positions i es) ≡ count test es
  unfolding positions
  length-positions i [] = refl
  length-positions i (e ∷ es) = ground (arith, length-positions (suc i) es)

  chosen-above : (n i k : ℕ) (es : List E) → k ≤ i → All (λ j. k ≤ j) (chosen n i es)
  unfolding chosen
  chosen-above n i k [] h = tt
  chosen-above zero i k (e ∷ es) h = tt
  chosen-above (suc n) i k (e ∷ es) h = elim (Bool-cases (test e)) [
    | inl p ↦ rw (p, chosen) (h, chosen-above n (suc i) k es (omega arith))
    | inr p ↦ rw (p, chosen) (chosen-above (suc n) (suc i) k es (omega arith))
  ]

  module _ {A : Type 0} (f : E → A) where
    pub pick-chosen :
        (n i : ℕ) (es : List E) (xs : List A)
        → ((j k : ℕ) → j + i ≡ k → get_elem? xs k ≡ get_elem? (map f es) j)
        → pick (chosen n i es) xs ≡ map f (split test n es).0
    unfolding chosen pick
    pick-chosen n i [] xs h = refl
    pick-chosen zero i (e ∷ es) xs h = refl
    pick-chosen (suc n) i (e ∷ es) xs h = elim (Bool-cases (test e)) [
      | inl p ↦
          rw (p, chosen, split, h 0 i (omega arith), pick)
            (ap (◌∷◌ (f e)) (pick-chosen n (suc i) es xs (λ j k s. h (suc j) k (omega arith))))
      | inr p ↦
          rw (p, chosen, split)
            (pick-chosen (suc n) (suc i) es xs (λ j k s. h (suc j) k (omega arith)))
    ]

    longer : (e : E) (before : List A) → length (before ++ f e ∷ []) ≡ suc (length before)
    longer e before = omega (arith, length-append {0} before (f e ∷ []))

    pub pop_each-chosen :
        (n i : ℕ) (es : List E) (before : List A)
        → length before ≡ i
        → pop_each (sort ge (chosen n i es)) (before ++ map f es)
          ≡ before ++ map f (split test n es).1
    unfolding chosen
    pop_each-chosen n i [] before h = pop_none (before ++ [])
    pop_each-chosen zero i (e ∷ es) before h = pop_none (before ++ f e ∷ map f es)
    pop_each-chosen (suc n) i (e ∷ es) before h = elim (Bool-cases (test e)) [
      | inl p ↦ rw p (
          pop_smallest i (chosen n (suc i) es) (before ++ f e ∷ map f es)
            (chosen-above n (suc i) (suc i) es (omega arith))
          ∙ ap (pop_at i) (
              ap (pop_each (sort ge (chosen n (suc i) es)))
                (sym (append_assoc before (f e ∷ []) (map f es)))
              ∙ pop_each-chosen n (suc i) es (before ++ f e ∷ []) (omega (arith, longer e before)))
          ∙ pop_at-append before i (f e) (map f (split test n es).1) h)
      | inr p ↦ rw p (
          ap (pop_each (sort ge (chosen (suc n) (suc i) es)))
            (sym (append_assoc before (f e ∷ []) (map f es)))
          ∙ pop_each-chosen (suc n) (suc i) es (before ++ f e ∷ []) (omega (arith, longer e before))
          ∙ append_assoc before (f e ∷ []) (map f (split test (suc n) es).1))
    ]
