-- ===== src/Batched/Stack.antt =====
-- `BatchedDataDict.from_batches` (nemo_rl/distributed/batched_data_dict.py). Tensors have one or two dimensions.
-- The columns of one key are of the same kind in all batches: other inputs count as a TypeError here. The
-- values that rows are padded with, 0 where the caller gives none, are a parameter.
pub mod Laws
use nemo_rl_vlm.Prelude.{
  ℕ, ◌-◌, max, List, [], ◌∷◌, ◌++◌, map, Bool, Result, ok, raise, ◌>>=◌, assertion_error,
  index_error, runtime_error, type_error, leb, ◌==◌, if◌then◌else◌, length, replicate,
}
use nemo_rl_vlm.Prelude.Sort.{sort}
use nemo_rl_vlm.Batched.{Column, vector, matrix, packed, plain, Columns, each}
use nemo_rl_vlm.Batched.Dynamic.{column}

module _ {E : Type 0} where
  -- `[item for sublist in list_of_tensors for item in sublist]`
  unfoldable pub plain_items : List (Column E) → Result (List E)
  plain_items [] = ok []
  plain_items (plain xs ∷ vs) = do rest ← plain_items vs; ok (xs ++ rest)
  plain_items (v ∷ vs) = raise type_error

  -- `PackedTensor.concat`
  unfoldable pub packed_items : ℕ → List (Column E) → Result (List E)
  packed_items d [] = ok []
  packed_items d (packed e xs ∷ vs) =
      let rest = packed_items d vs in
      if d == e then (rest >>= λ items. ok (xs ++ items)) else raise assertion_error
  packed_items d (v ∷ vs) = raise type_error

  -- `torch.cat`
  unfoldable pub vector_items : List (Column E) → Result (List E)
  vector_items [] = ok []
  vector_items (vector xs ∷ vs) = do rest ← vector_items vs; ok (xs ++ rest)
  vector_items (v ∷ vs) = raise type_error

  -- `[row.flatten() for tensor in list_of_tensors for row in tensor]`
  unfoldable pub matrix_rows : List (Column E) → Result (List (List E))
  matrix_rows [] = ok []
  matrix_rows (matrix rows ∷ vs) = do rest ← matrix_rows vs; ok (rows ++ rest)
  matrix_rows (v ∷ vs) = raise type_error

  abbrev pub widest : List (List E) → ℕ
  widest [] = 0
  widest (row ∷ rows) = max (length row) (widest rows)

  abbrev pub pad_row : E → ℕ → List E → List E
  pad_row pad_value width row = row ++ replicate (width - length row) pad_value

  -- `pad_sequence`, which refuses to pad no rows.
  unfoldable pub pad_sequence : E → List (List E) → Result (List (List E))
  pad_sequence pad_value [] = raise runtime_error
  pad_sequence pad_value (row ∷ rows) =
      ok (map (pad_row pad_value (widest (row ∷ rows))) (row ∷ rows))

  unfoldable pub stack : E → Column E → List (Column E) → Result (Column E)
  unfolding plain_items packed_items vector_items matrix_rows pad_sequence
  stack pad_value (plain xs) vs = do items ← plain_items (plain xs ∷ vs); ok (plain items)
  stack pad_value (packed d xs) vs = do
    items ← packed_items d (packed d xs ∷ vs)
    ok (packed d items)
  stack pad_value (vector xs) vs = do items ← vector_items (vector xs ∷ vs); ok (vector items)
  stack pad_value (matrix rows) vs = do
    all ← matrix_rows (matrix rows ∷ vs)
    padded ← pad_sequence pad_value all
    ok (matrix padded)

  abbrev pub key_before : ℕ × Column E → ℕ × Column E → Bool
  key_before p q = leb p.0 q.0

  unfoldable pub from_batches : (ℕ → E) → List (Columns E) → Result (Columns E)
  unfolding stack each sort
  from_batches pad_values [] = raise index_error
  from_batches pad_values (first ∷ others) =
      each
        (λ p. each (column p.0) others >>= λ vs. stack (pad_values p.0) p.1 vs >>= λ v. ok (p.0, v))
        (sort key_before first)
