-- ===== src/Batched/Columnwise.antt =====
-- A function of the rows, applied to all columns of a batch.
use nemo_rl_vlm.Prelude.{
  ℕ, ◌<◌, ◌⊎◌, inl, inr, ◌≡◌, refl, sym, ap, ◌∙◌, subst, List, [], ◌∷◌, Bool, true, ◌&&◌, ◌==◌,
  ==→eq, ==_refl, ok, length, All, both_true, arith,
}
use nemo_rl_vlm.Batched.{
  Column, vector, matrix, packed, plain, Columns, rows, on_rows, on_data, all_rows, common_rows,
  rows_at, sliceable, select_indices, index_select,
}
use nemo_rl_vlm.Batched.Rows.{All→in_range}

-- A batch of n rows, of at least one column.
pub data IsBatch {E : Type 0} (n : ℕ) : Columns E → Type 0 where
  is_batch :
      (k : ℕ) (v : Column E) (cols : Columns E)
      → all_rows n ((k, v) ∷ cols) ≡ true
      → IsBatch n ((k, v) ∷ cols)

module _ {E : Type 0} where
  pub IsBatch-all_rows : (n : ℕ) (cols : Columns E) → IsBatch n cols → all_rows n cols ≡ true
  IsBatch-all_rows n _ (is_batch k v cols h) = h

  pub common_rows-IsBatch : (n : ℕ) (cols : Columns E) → IsBatch n cols → common_rows cols ≡ ok n
  unfolding common_rows
  common_rows-IsBatch n _ (is_batch k v cols h) =
      let both = both_true (rows v == n) (all_rows n cols) h in
      let same = ==→eq (rows v) n both.0 in
      let others : all_rows (rows v) cols ≡ true = ap (λ m. all_rows m cols) same ∙ both.1 in
      rw (others, common_rows) (ap ok same)

  module _ (f g : (A : Type 0) → List A → List A) (n : ℕ)
      (h : (A : Type 0) (xs : List A) → length xs ≡ n → f A xs ≡ g A xs) where
    on_rows_same : (v : Column E) → rows v ≡ n → on_rows f v ≡ on_rows g v
    on_rows_same (vector xs) e = ap vector (h E xs e)
    on_rows_same (matrix xs) e = ap matrix (h (List E) xs e)
    on_rows_same (packed d xs) e = ap (packed d) (h E xs e)
    on_rows_same (plain xs) e = ap plain (h E xs e)

    -- Functions that agree on lists of n rows agree on batches of n rows.
    pub on_data_same : (cols : Columns E) → all_rows n cols ≡ true → on_data f cols ≡ on_data g cols
    on_data_same [] e = refl
    on_data_same ((k, v) ∷ cols) e =
        let both = both_true (rows v == n) (all_rows n cols) e in
        let heads = on_rows_same v (==→eq (rows v) n both.0) in
        let tails = on_data_same cols both.1 in cc

  on_rows_id : (v : Column E) → on_rows (λ A xs. xs) v ≡ v
  on_rows_id (vector xs) = refl
  on_rows_id (matrix xs) = refl
  on_rows_id (packed d xs) = refl
  on_rows_id (plain xs) = refl

  pub on_data_id : (cols : Columns E) → on_data (λ A xs. xs) cols ≡ cols
  on_data_id [] = refl
  on_data_id ((k, v) ∷ cols) = let heads = on_rows_id v in let tails = on_data_id cols in cc

  module _ (f g : (A : Type 0) → List A → List A) where
    on_rows-on_rows : (v : Column E) → on_rows f (on_rows g v) ≡ on_rows (λ A xs. f A (g A xs)) v
    on_rows-on_rows (vector xs) = refl
    on_rows-on_rows (matrix xs) = refl
    on_rows-on_rows (packed d xs) = refl
    on_rows-on_rows (plain xs) = refl

    pub on_data-on_data :
        (cols : Columns E) → on_data f (on_data g cols) ≡ on_data (λ A xs. f A (g A xs)) cols
    on_data-on_data [] = refl
    on_data-on_data ((k, v) ∷ cols) =
        let heads = on_rows-on_rows v in let tails = on_data-on_data cols in cc

  module _ (f : (A : Type 0) → List A → List A) (n m : ℕ)
      (h : (A : Type 0) (xs : List A) → length xs ≡ n → length (f A xs) ≡ m) where
    rows-on_rows : (v : Column E) → rows v ≡ n → rows (on_rows f v) ≡ m
    rows-on_rows (vector xs) e = h E xs e
    rows-on_rows (matrix xs) e = h (List E) xs e
    rows-on_rows (packed d xs) e = h E xs e
    rows-on_rows (plain xs) e = h E xs e

    all_rows-on_data :
        (cols : Columns E) → all_rows n cols ≡ true → all_rows m (on_data f cols) ≡ true
    all_rows-on_data [] e = refl
    all_rows-on_data ((k, v) ∷ cols) e =
        let both = both_true (rows v == n) (all_rows n cols) e in
        rw (rows-on_rows v (==→eq (rows v) n both.0), ==_refl m, all_rows-on_data cols both.1) refl

    pub on_data-IsBatch : (cols : Columns E) → IsBatch n cols → IsBatch m (on_data f cols)
    on_data-IsBatch _ (is_batch k v cols e) =
        is_batch k (on_rows f v) (on_data f cols) (all_rows-on_data ((k, v) ∷ cols) e)

  -- There are indices, or no column is a `PackedTensor`, which cannot be cut to nothing.
  abbrev pub none_packed : Columns E → Bool
  none_packed [] = true
  none_packed ((k, v) ∷ cols) = sliceable [] v && none_packed cols

  abbrev pub CanSlice : List ℕ → Columns E → Type 0
  CanSlice is cols = (0 < length is) ⊎ (none_packed cols ≡ true)

  sliceable_ok :
      (is : List ℕ) (v : Column E)
      → (0 < length is) ⊎ (sliceable [] v ≡ true)
      → sliceable is v ≡ true
  unfolding sliceable
  sliceable_ok [] v (inl h) = absurd (omega arith)
  sliceable_ok [] v (inr h) = h
  sliceable_ok (i ∷ is) v h = refl

  rows_at-ok :
      (is : List ℕ) (v : Column E)
      → All (λ i. i < rows v) is
      → (0 < length is) ⊎ (sliceable [] v ≡ true)
      → rows_at is v ≡ ok (on_rows (λ A. index_select is) v)
  unfolding rows_at
  rows_at-ok is v h s = rw (sliceable_ok is v s, All→in_range (rows v) is h, rows_at) refl

  CanSlice-head :
      (is : List ℕ) (k : ℕ) (v : Column E) (cols : Columns E)
      → CanSlice is ((k, v) ∷ cols)
      → (0 < length is) ⊎ (sliceable [] v ≡ true)
  CanSlice-head is k v cols (inl h) = inl h
  CanSlice-head is k v cols (inr h) = inr ((both_true (sliceable [] v) (none_packed cols) h).0)

  CanSlice-tail :
      (is : List ℕ) (k : ℕ) (v : Column E) (cols : Columns E)
      → CanSlice is ((k, v) ∷ cols)
      → CanSlice is cols
  CanSlice-tail is k v cols (inl h) = inl h
  CanSlice-tail is k v cols (inr h) = inr ((both_true (sliceable [] v) (none_packed cols) h).1)

  -- What indices in range select from the first column, and from the others.
  pub rows_at-head :
      (n : ℕ) (is : List ℕ) (k : ℕ) (v : Column E) (cols : Columns E)
      → All (λ i. i < n) is
      → CanSlice is ((k, v) ∷ cols)
      → all_rows n ((k, v) ∷ cols) ≡ true
      → (rows_at is v ≡ ok (on_rows (λ A. index_select is) v))
        × CanSlice is cols
        × (all_rows n cols ≡ true)
  rows_at-head n is k v cols h s e =
      let both = both_true (rows v == n) (all_rows n cols) e in
      (
        rows_at-ok is v (subst (λ m. All (λ i. i < m) is) (sym (==→eq (rows v) n both.0)) h)
            (CanSlice-head is k v cols s),
        CanSlice-tail is k v cols s,
        both.1,
      )

  -- Indices in range select rows of every column.
  pub select_indices-ok :
      (n : ℕ) (is : List ℕ) (cols : Columns E)
      → All (λ i. i < n) is
      → CanSlice is cols
      → all_rows n cols ≡ true
      → select_indices is cols ≡ ok (on_data (λ A. index_select is) cols)
  unfolding select_indices
  select_indices-ok n is [] h s e = refl
  select_indices-ok n is ((k, v) ∷ cols) h s e =
      let (here, s', e') = rows_at-head n is k v cols h s e in
      rw (here, select_indices-ok n is cols h s' e', select_indices) refl
