-- ===== src/Batched/Stack/Laws.antt =====
-- `from_batches` on parts of one batch.
use mathlib.Core.List.{append-nil}
use nemo_rl_vlm.Prelude.{
  ℕ, ◌-◌, ◌≤◌, ◌<◌, ◌≡◌, refl, sym, ap, ◌∙◌, subst, inl, inr, List, [], ◌∷◌, map, flatten, true,
  false, ok, ◌>>=◌, length, get_elem?, leb, ◌==◌, ==_refl, Bool-cases, Option-cases, All, All_get,
  ok_inj, arith,
}
use nemo_rl_vlm.Prelude.Sort.{sort, insert_sorted, All-sort}
use nemo_rl_vlm.Batched.{
  Column, vector, matrix, packed, plain, Columns, on_rows, on_data, rows, index_select, each,
}
use nemo_rl_vlm.Batched.Rows.{index_select-append, length-index_select}
use nemo_rl_vlm.Batched.Dynamic.{column}
use nemo_rl_vlm.Batched.Stack.{
  plain_items, packed_items, vector_items, matrix_rows, widest, pad_row, pad_sequence, stack,
  key_before, from_batches,
}

All-index_select :
    {A : Type 0} (P : A → Type 0) (is : List ℕ) (xs : List A)
    → All P xs
    → All P (index_select is xs)
unfolding index_select
All-index_select P [] xs h = tt
All-index_select P (i ∷ is) xs h = elim (Option-cases (get_elem? xs i)) [
  | inl e ↦ rw (e, index_select) (All-index_select P is xs h)
  | inr (x, e) ↦ rw (e, index_select) (All_get P xs i x h e, All-index_select P is xs h)
]

module _ {E : Type 0} where
  -- The rows of a tensor have the same width.
  abbrev pub HasWidth : Column E → Type 0
  HasWidth (vector xs) = Unit
  HasWidth (matrix rows) = (w : ℕ) × All (λ row. length row ≡ w) rows
  HasWidth (packed d xs) = Unit
  HasWidth (plain xs) = Unit

  -- A batch of n rows, where each key stands once.
  abbrev pub IsRegular : ℕ → Columns E → Type 0
  IsRegular n cols = All (λ p. (column p.0 cols ≡ ok p.1) × (rows p.1 ≡ n) × HasWidth p.1) cols

  widest_le : (w : ℕ) (rows : List (List E)) → All (λ row. length row ≡ w) rows → widest rows ≤ w
  widest_le w [] h = omega arith
  widest_le w (row ∷ rows) h = omega (arith, h.0, widest_le w rows h.1)

  pad_rows_same :
      (pad_value : E) (w m : ℕ) (rows : List (List E))
      → All (λ row. length row ≡ w) rows
      → m ≤ w
      → map (pad_row pad_value m) rows ≡ rows
  pad_rows_same pad_value w m [] h le = refl
  pad_rows_same pad_value w m (row ∷ rows) h le =
      let none_missing : m - length row ≡ 0 = omega (arith, h.0, le) in
      let same : pad_row pad_value m row ≡ row = rw none_missing (append-nil row) in
      let rest = pad_rows_same pad_value w m rows h.1 le in cc

  pad_sequence_same :
      (pad_value : E) (w : ℕ) (rows : List (List E))
      → All (λ row. length row ≡ w) rows
      → 0 < length rows
      → pad_sequence pad_value rows ≡ ok rows
  unfolding pad_sequence
  pad_sequence_same pad_value w [] h pos = absurd (omega arith)
  pad_sequence_same pad_value w (row ∷ rows) h pos =
      ap ok (
        pad_rows_same pad_value w (widest (row ∷ rows)) (row ∷ rows) h (widest_le w (row ∷ rows) h))

  -- The items of the parts of a column.
  plain_items_parts :
      (xs : List E) (parts : List (List ℕ))
      → plain_items (map (λ is. plain (index_select is xs)) parts)
        ≡ ok (index_select (flatten parts) xs)
  unfolding plain_items flatten index_select
  plain_items_parts xs [] = refl
  plain_items_parts xs (is ∷ parts) =
      rw (plain_items_parts xs parts, plain_items)
        (ap ok (sym (index_select-append is (flatten parts) xs)))

  vector_items_parts :
      (xs : List E) (parts : List (List ℕ))
      → vector_items (map (λ is. vector (index_select is xs)) parts)
        ≡ ok (index_select (flatten parts) xs)
  unfolding vector_items flatten index_select
  vector_items_parts xs [] = refl
  vector_items_parts xs (is ∷ parts) =
      rw (vector_items_parts xs parts, vector_items)
        (ap ok (sym (index_select-append is (flatten parts) xs)))

  packed_items_parts :
      (d : ℕ) (xs : List E) (parts : List (List ℕ))
      → packed_items d (map (λ is. packed d (index_select is xs)) parts)
        ≡ ok (index_select (flatten parts) xs)
  unfolding packed_items flatten index_select
  packed_items_parts d xs [] = refl
  packed_items_parts d xs (is ∷ parts) =
      rw (packed_items_parts d xs parts, ==_refl d, packed_items)
        (ap ok (sym (index_select-append is (flatten parts) xs)))

  matrix_rows_parts :
      (xs : List (List E)) (parts : List (List ℕ))
      → matrix_rows (map (λ is. matrix (index_select is xs)) parts)
        ≡ ok (index_select (flatten parts) xs)
  unfolding matrix_rows flatten index_select
  matrix_rows_parts xs [] = refl
  matrix_rows_parts xs (is ∷ parts) =
      rw (matrix_rows_parts xs parts, matrix_rows)
        (ap ok (sym (index_select-append is (flatten parts) xs)))

  stack_parts :
      (n : ℕ) (pad_value : E) (v : Column E) (is : List ℕ) (parts : List (List ℕ))
      → rows v ≡ n
      → HasWidth v
      → All (λ i. i < n) (flatten (is ∷ parts))
      → 0 < length (flatten (is ∷ parts))
      → stack pad_value
          (on_rows (λ A. index_select is) v)
          (map (λ js. on_rows (λ A. index_select js) v) parts)
        ≡ ok (on_rows (λ A. index_select (flatten (is ∷ parts))) v)
  unfolding stack
  stack_parts n pad_value (vector xs) is parts e w h pos =
      rw (vector_items_parts xs (is ∷ parts)) refl
  stack_parts n pad_value (packed d xs) is parts e w h pos =
      rw (packed_items_parts d xs (is ∷ parts)) refl
  stack_parts n pad_value (plain xs) is parts e w h pos =
      rw (plain_items_parts xs (is ∷ parts)) refl
  stack_parts n pad_value (matrix xs) is parts e w h pos =
      let all = flatten (is ∷ parts) in
      let number = length-index_select all xs (subst (λ m. All (λ i. i < m) all) (sym e) h) in
      rw
        (
          matrix_rows_parts xs (is ∷ parts),
          pad_sequence_same pad_value w.0 (index_select all xs) (All-index_select _ all xs w.1)
              (omega (arith, number, pos)),
        )
        refl

  column_here :
      (k l : ℕ) (u : Column E) (cols : Columns E)
      → (l == k) ≡ true
      → column k ((l, u) ∷ cols) ≡ ok u
  column_here k l u cols e = rw e refl

  column_there :
      (k l : ℕ) (u : Column E) (cols : Columns E)
      → (l == k) ≡ false
      → column k ((l, u) ∷ cols) ≡ column k cols
  column_there k l u cols e = rw e refl

  column-on_data :
      (f : (A : Type 0) → List A → List A) (k : ℕ) (cols : Columns E) (v : Column E)
      → column k cols ≡ ok v
      → column k (on_data f cols) ≡ ok (on_rows f v)
  column-on_data f k [] v h = absurd (ground arith)
  column-on_data f k ((l, u) ∷ cols) v h = elim (Bool-cases (l == k)) [
    | inl e ↦
        column_here k l (on_rows f u) (on_data f cols) e
        ∙ ap (λ w. ok (on_rows f w)) (ok_inj (sym (column_here k l u cols e) ∙ h))
    | inr e ↦
        column_there k l (on_rows f u) (on_data f cols) e
        ∙ column-on_data f k cols v (sym (column_there k l u cols e) ∙ h)
  ]

  insert-on_data :
      (f : (A : Type 0) → List A → List A) (k : ℕ) (v : Column E) (cols : Columns E)
      → insert_sorted key_before (k, on_rows f v) (on_data f cols)
        ≡ on_data f (insert_sorted key_before (k, v) cols)
  unfolding insert_sorted
  insert-on_data f k v [] = refl
  insert-on_data f k v ((l, u) ∷ cols) = elim (Bool-cases (leb k l)) [
    | inl e ↦ rw (e, insert_sorted) refl
    | inr e ↦ rw (e, insert_sorted) (ap (◌∷◌ (l, on_rows f u)) (insert-on_data f k v cols))
  ]

  sort-on_data :
      (f : (A : Type 0) → List A → List A) (cols : Columns E)
      → sort key_before (on_data f cols) ≡ on_data f (sort key_before cols)
  unfolding sort
  sort-on_data f [] = refl
  sort-on_data f ((k, v) ∷ cols) =
      ap (insert_sorted key_before (k, on_rows f v)) (sort-on_data f cols)
      ∙ insert-on_data f k v (sort key_before cols)

  columns_of_parts :
      (k : ℕ) (cols : Columns E) (v : Column E) (parts : List (List ℕ))
      → column k cols ≡ ok v
      → each (column k) (map (λ is. on_data (λ A. index_select is) cols) parts)
        ≡ ok (map (λ is. on_rows (λ A. index_select is) v) parts)
  unfolding each
  columns_of_parts k cols v [] h = refl
  columns_of_parts k cols v (is ∷ parts) h =
      rw (column-on_data (λ A. index_select is) k cols v h, columns_of_parts k cols v parts h, each)
        refl

  module _ (pad_values : ℕ → E) (n : ℕ) (cols : Columns E) (is : List ℕ) (parts : List (List ℕ))
      (inside : All (λ i. i < n) (flatten (is ∷ parts)))
      (some_rows : 0 < length (flatten (is ∷ parts))) where
    stack-each :
        (part : Columns E)
        → All (λ p. (column p.0 cols ≡ ok p.1) × (rows p.1 ≡ n) × HasWidth p.1) part
        → each
            (λ p.
              each (column p.0) (map (λ js. on_data (λ A. index_select js) cols) parts) >>= λ vs.
              stack (pad_values p.0) p.1 vs >>= λ v. ok (p.0, v))
            (on_data (λ A. index_select is) part)
          ≡ ok (on_data (λ A. index_select (flatten (is ∷ parts))) part)
    unfolding each
    stack-each [] h = refl
    stack-each ((k, v) ∷ part) h =
        rw
          (
            columns_of_parts k cols v parts h.0.0,
            stack_parts n (pad_values k) v is parts h.0.1 h.0.2 inside some_rows,
            stack-each part h.1,
            each,
          )
          refl

    -- Parts of a batch of n rows, where each key stands once and the rows of a tensor have one width, are
    -- stacked to the rows of all the parts, with the keys in order, if these are any rows, and rows of the batch.
    pub from_batches-parts :
        IsRegular n cols
        → from_batches pad_values (map (λ js. on_data (λ A. index_select js) cols) (is ∷ parts))
          ≡ ok (on_data (λ A. index_select (flatten (is ∷ parts))) (sort key_before cols))
    unfolding from_batches
    from_batches-parts regular =
        rw (sort-on_data (λ A. index_select is) cols)
          (stack-each (sort key_before cols) (All-sort key_before _ cols regular))
