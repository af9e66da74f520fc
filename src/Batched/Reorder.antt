-- ===== src/Batched/Reorder.antt =====
-- `reorder_data` undoes the order that rows were brought into.
use nemo_rl_vlm.Prelude.{
  inl, ℕ, zero, suc, ◌+◌, ◌<◌, ◌≡◌, refl, sym, ap, ◌∙◌, subst, List, [], ◌∷◌, map, some, true,
  false, leb, ltb, ok, length, length-map, get_elem?, get_elem?-lt, total_one, take, range_from,
  indexed_from, length-range_from, total, total-map, All, All-map, arith, tests,
}
use nemo_rl_vlm.Prelude.Sort.{sort, IsSorted, sort-IsSorted, total-sort, length-sort, All-sort}
use nemo_rl_vlm.Prelude.Multiset.{SameItems, All-of_SameItems}
use nemo_rl_vlm.Batched.{Columns, on_data, index_select, key_le, new_order, reorder_data}
use nemo_rl_vlm.Batched.Rows.{
  index_select-cons, index_select-index_select, length-index_select, index_select_all,
  sorted-range_from, range_from-lt, in_range→All, All→in_range,
}
use nemo_rl_vlm.Batched.Columnwise.{
  IsBatch, IsBatch-all_rows, common_rows-IsBatch, on_data_same, on_data_id, on_data-on_data,
  on_data-IsBatch, select_indices-ok,
}

-- A pair of a value of the order and its position in it.
abbrev Placed : List ℕ → ℕ × ℕ → Type 0
Placed σ p = get_elem? σ p.1 ≡ some p.0

Placed-indexed_from :
    (σ : List ℕ) (start : ℕ) (all : List ℕ)
    → ((j : ℕ) → get_elem? all (start + j) ≡ get_elem? σ j)
    → All (Placed all) (indexed_from start σ)
Placed-indexed_from [] start all h = tt
Placed-indexed_from (v ∷ σ) start all h = (
  ap (get_elem? all) (omega arith) ∙ h 0,
  Placed-indexed_from σ (suc start) all (λ j. ap (get_elem? all) (omega arith) ∙ h (suc j)),
)

total-firsts :
    (f : ℕ → ℕ) (start : ℕ) (σ : List ℕ) → total (λ p. f p.0) (indexed_from start σ) ≡ total f σ
total-firsts f start [] = refl
total-firsts f start (v ∷ σ) = omega (arith, total-firsts f (suc start) σ)

length-indexed_from : (start : ℕ) (σ : List ℕ) → length (indexed_from start σ) ≡ length σ
length-indexed_from start [] = refl
length-indexed_from start (v ∷ σ) = ap suc (length-indexed_from (suc start) σ)

take_whole : {A : Type 0} (n : ℕ) (xs : List A) → length xs ≡ n → take n xs ≡ xs
take_whole zero [] h = refl
take_whole zero (x ∷ xs) h = absurd (omega arith)
take_whole (suc n) [] h = absurd (omega arith)
take_whole (suc n) (x ∷ xs) h = ap (◌∷◌ x) (take_whole n xs (omega (arith, h)))

index_select-seconds :
    (σ : List ℕ) (ps : List (ℕ × ℕ))
    → All (Placed σ) ps
    → index_select (map (λ p. p.1) ps) σ ≡ map (λ p. p.0) ps
unfolding index_select
index_select-seconds σ [] h = refl
index_select-seconds σ (p ∷ ps) h =
    index_select-cons p.1 (map (λ p. p.1) ps) σ p.0 h.0
    ∙ ap (◌∷◌ p.0) (index_select-seconds σ ps h.1)

All-key_le :
    (p : ℕ × ℕ) (ps : List (ℕ × ℕ))
    → All (λ q. key_le p q ≡ true) ps
    → All (λ i. leb p.0 i ≡ true) (map (λ q. q.0) ps)
All-key_le p [] h = tt
All-key_le p (q ∷ ps) h = (h.0, All-key_le p ps h.1)

IsSorted-firsts : (ps : List (ℕ × ℕ)) → IsSorted key_le ps → IsSorted leb (map (λ p. p.0) ps)
IsSorted-firsts [] h = tt
IsSorted-firsts (p ∷ ps) h = (All-key_le p ps h.0, IsSorted-firsts ps h.1)

All-seconds_lt :
    (σ : List ℕ) (ps : List (ℕ × ℕ))
    → All (Placed σ) ps
    → All (λ j. j < length σ) (map (λ p. p.1) ps)
All-seconds_lt σ [] h = tt
All-seconds_lt σ (p ∷ ps) h = (get_elem?-lt σ p.1 p.0 h.0, All-seconds_lt σ ps h.1)

key_le_trans : (p q r : ℕ × ℕ) → key_le p q ≡ true → key_le q r ≡ true → key_le p r ≡ true
key_le_trans p q r h k = omega (tests, h, k)

key_le-linear : (p q : ℕ × ℕ) → key_le p q ≡ false → key_le q p ≡ true
key_le-linear p q h = omega (tests, h)

module _ (n : ℕ) (σ : List ℕ) (permutes : SameItems σ (range_from 0 n)) where
  pub length-order : length σ ≡ n
  length-order = omega (
    arith,
    total_one {0} σ,
    permutes (λ _. 1),
    total_one {0} (range_from 0 n),
    length-range_from 0 n,
  )

  pub order-lt : All (λ i. i < n) σ
  order-lt = in_range→All n σ (
      All→in_range n σ (
        All-map (λ i. ltb i n ≡ true) _ σ (λ i h. omega (tests, h))
          (All-of_SameItems (λ i. ltb i n) (range_from 0 n) σ permutes
            (All-map _ _ (range_from 0 n) (λ i h. omega (tests, h)) (range_from-lt 0 n)))))

  sorted-Placed : All (Placed σ) (sort key_le (indexed_from 0 σ))
  sorted-Placed =
      All-sort key_le (Placed σ) (indexed_from 0 σ)
        (Placed-indexed_from σ 0 σ (λ j. ap (get_elem? σ) (omega arith)))

  whole : take n (indexed_from 0 σ) ≡ indexed_from 0 σ
  whole = take_whole n (indexed_from 0 σ) (length-indexed_from 0 σ ∙ length-order)

  new_order-inverts : index_select (new_order σ n) σ ≡ range_from 0 n
  unfolding new_order
  new_order-inverts =
      let sorted = sort key_le (indexed_from 0 σ) in
      let ordered = sort-IsSorted key_le key_le_trans key_le-linear (indexed_from 0 σ) in
      rw whole (
        index_select-seconds σ sorted sorted-Placed
        ∙ sorted-range_from 0 n (map (λ p. p.0) sorted) (IsSorted-firsts sorted ordered) (λ f.
          total-map f (λ p. p.0) sorted
          ∙ total-sort key_le (λ p. f p.0) (indexed_from 0 σ)
          ∙ total-firsts f 0 σ
          ∙ permutes f))

  new_order-lt : All (λ j. j < n) (new_order σ n)
  unfolding new_order
  new_order-lt = rw whole (
      subst (λ m. All (λ j. j < m) (map (λ p. p.1) (sort key_le (indexed_from 0 σ)))) length-order
        (All-seconds_lt σ (sort key_le (indexed_from 0 σ)) sorted-Placed))

  length-new_order : length (new_order σ n) ≡ n
  unfolding new_order
  length-new_order = rw whole (
      length-map (sort key_le (indexed_from 0 σ)) (λ p. p.1)
      ∙ length-sort key_le (indexed_from 0 σ)
      ∙ length-indexed_from 0 σ
      ∙ length-order)

  unordered :
      (A : Type 0) (xs : List A)
      → length xs ≡ n
      → index_select (new_order σ n) (index_select σ xs) ≡ xs
  unordered A xs h =
      index_select-index_select (new_order σ n) σ xs
        (subst (λ m. All (λ i. i < m) σ) (sym h) order-lt)
        (subst (λ m. All (λ j. j < m) (new_order σ n)) (sym length-order) new_order-lt)
      ∙ ap (λ is. index_select is xs) (new_order-inverts ∙ ap (range_from 0) (sym h))
      ∙ index_select_all xs

  -- If the n rows, at least one, of every column of a batch stand in the order σ, which holds each of 0 to
  -- n - 1 once, then `reorder_data` with σ brings all of them back to the order that they had.
  pub reorder_data-index_select :
      {E : Type 0} (cols : Columns E)
      → IsBatch n cols
      → 0 < n
      → reorder_data σ (on_data (λ A. index_select σ) cols) ≡ ok cols
  unfolding reorder_data
  reorder_data-index_select cols h pos =
      let moved = on_data (λ A. index_select σ) cols in
      let moved-IsBatch : IsBatch n moved =
        on_data-IsBatch (λ A. index_select σ) n n
          (λ A xs e.
            length-index_select σ xs (subst (λ m. All (λ i. i < m) σ) (sym e) order-lt)
            ∙ length-order)
          cols h in
      rw (common_rows-IsBatch n moved moved-IsBatch) (
        select_indices-ok n (new_order σ n) moved new_order-lt
          (inl (omega (arith, length-new_order, pos))) (IsBatch-all_rows n moved moved-IsBatch)
        ∙ ap ok (
            on_data-on_data (λ A. index_select (new_order σ n)) (λ A. index_select σ) cols
            ∙ on_data_same _ (λ A xs. xs) n unordered cols (IsBatch-all_rows n cols h)
            ∙ on_data_id cols))
