-- ===== src/Batched/Iterators.antt =====
-- `get_batch`, `truncate_tensors` and the iterators over micro-batches (nemo_rl/distributed/batched_data_dict.py). An
-- iterator is the list of what it yields when it is run to its end, or the exception that ends it.
pub mod Slices
pub mod Batches
use nemo_rl_vlm.Prelude.{
  ℕ, zero, suc, ◌+◌, ◌*◌, ◌/◌, ◌%◌, List, [], ◌∷◌, map, Option, none, some, Bool, true, false, ◌&&◌,
  Result, ok, raise, ◌>>=◌, assertion_error, runtime_error, type_error, zero_division_error, leb,
  ◌==◌, if◌then◌else◌, not, length, take, sum, range_from,
}
use nemo_rl_vlm.Batched.{
  Column, vector, matrix, packed, plain, Columns, Batch, each_column, slice, size, each,
}
use nemo_rl_vlm.Batched.Dynamic.{at}

-- `torch.narrow` along a dimension, of a tensor that has it: not beyond its size.
unfoldable pub narrow : {E : Type 0} → ℕ → ℕ → Column E → Result (Column E)
narrow zero len (vector xs) =
    if leb len (length xs) then ok (vector (take len xs)) else raise runtime_error
narrow zero len (matrix rows) =
    if leb len (length rows) then ok (matrix (take len rows)) else raise runtime_error
narrow (suc zero) len (matrix rows) = do
  narrowed ←
      each (λ row. if leb len (length row) then ok (take len row) else raise runtime_error) rows
  ok (matrix narrowed)
narrow _ len v = ok v

unfoldable pub truncate_tensors : {E : Type 0} → ℕ → ℕ → Columns E → Result (Columns E)
unfolding narrow
truncate_tensors dim truncated_len = each_column (narrow dim truncated_len)

-- `micro_batch_indices[0]` with `micro_batch_lengths[0]`, after the assertion of the iterators.
unfoldable pub single_chunk :
    Option (List (List (ℕ × ℕ))) → Option (List (List ℕ)) → Result (List (ℕ × ℕ) × List ℕ)
single_chunk (some (is ∷ [])) (some lenss) = do lens ← at lenss 0; ok (is, lens)
single_chunk _ _ = raise assertion_error

-- `zip`
abbrev pub zip : {A B : Type 0} → List A → List B → List (A × B)
zip [] ys = []
zip (x ∷ xs) [] = []
zip (x ∷ xs) (y ∷ ys) = (x, y) ∷ zip xs ys

-- `self.micro_batch_lengths[batch_idx]`, where that is a list.
abbrev pub entry : {A : Type 0} → Option (List A) → ℕ → Result A
entry none i = raise type_error
entry (some xs) i = at xs i

module _ {E : Type 0} where
  unfoldable pub make_microbatch_iterator_with_dynamic_shapes :
      ℕ → Batch E → Result (List (Columns E))
  unfolding single_chunk slice truncate_tensors each
  make_microbatch_iterator_with_dynamic_shapes sequence_dim batch = do
    chunk ← single_chunk batch.micro_batch_indices batch.micro_batch_lengths
    each (λ p. slice p.1.0 p.1.1 batch.columns >>= truncate_tensors sequence_dim p.0)
        (zip chunk.1 chunk.0)

  unfoldable pub make_microbatch_iterator_for_packable_sequences :
      Batch E → Result (List (Columns E))
  unfolding single_chunk slice each
  make_microbatch_iterator_for_packable_sequences batch = do
    chunk ← single_chunk batch.micro_batch_indices batch.micro_batch_lengths
    each (λ p. slice p.1.0 p.1.1 batch.columns) (zip chunk.1 chunk.0)

  unfoldable pub make_microbatch_iterator : ℕ → Columns E → Result (List (Columns E))
  unfolding size slice each
  make_microbatch_iterator microbatch_size cols = size cols >>= λ bsize.
      if microbatch_size == 0
      then raise zero_division_error
      else if not (bsize % microbatch_size == 0)
      then raise assertion_error
      else each (λ c. slice (c * microbatch_size) (c * microbatch_size + microbatch_size) cols)
          (range_from 0 (bsize / microbatch_size))

  -- A global batch of a shard after sequence packing, by the numbers of rows of each.
  unfoldable pub get_packed_batch : Batch E → List ℕ → ℕ → Result (Batch E)
  unfolding slice
  get_packed_batch batch counts batch_idx = elim batch.micro_batch_indices [
    | none ↦ raise assertion_error
    | some micro_indices ↦ do
      elem_count ← at counts batch_idx
      cols ← slice (sum (take batch_idx counts)) (sum (take (suc batch_idx) counts)) batch.columns
      indices ← at micro_indices batch_idx
      lengths ← entry batch.micro_batch_lengths batch_idx
      ok record {
        columns = cols;
        micro_batch_indices = some (indices ∷ []);
        micro_batch_lengths = some (lengths ∷ []);
        elem_counts_per_gb = some (elem_count ∷ []);
      }
  ]

  -- A global batch of a given number of rows.
  unfoldable pub get_sized_batch : Batch E → ℕ → ℕ → Result (Batch E)
  unfolding slice
  get_sized_batch batch batch_size batch_idx = do
    cols ← slice (batch_size * batch_idx) (batch_size * (batch_idx + 1)) batch.columns
    elim batch.micro_batch_indices [
      | none ↦ ok record {
        columns = cols;
        micro_batch_indices = none;
        micro_batch_lengths = none;
        elem_counts_per_gb = none;
      }
      | some micro_indices ↦ do
        indices ← at micro_indices batch_idx
        lengths ← entry batch.micro_batch_lengths batch_idx
        ok record {
          columns = cols;
          micro_batch_indices = some (indices ∷ []);
          micro_batch_lengths = some (lengths ∷ []);
          elem_counts_per_gb = none;
        }
    ]

  unfoldable pub get_batch : Batch E → ℕ → Option ℕ → Result (Batch E)
  unfolding get_packed_batch get_sized_batch
  get_batch batch batch_idx batch_size = elim batch.elem_counts_per_gb [
    | some counts ↦ get_packed_batch batch counts batch_idx
    | none ↦ elim batch_size [
      | none ↦ raise type_error
      | some rows ↦ get_sized_batch batch rows batch_idx
    ]
  ]
