-- ===== src/Batched/Iterators/Batches.antt =====
-- From a shard of packed sequences to its global batches, and from those to their micro-batches.
use nemo_rl_vlm.Prelude.{
  ℕ, suc, ◌-◌, ◌≤◌, ◌<◌, ◌≡◌, refl, sym, ap, ◌∙◌, subst, List, [], ◌∷◌, map, flatten, Option, some,
  ok, get_elem?, take, sum, range_from, length-range_from, All, arith,
}
use nemo_rl_vlm.Batched.{Columns, Batch, on_data, index_select}
use nemo_rl_vlm.Batched.Rows.{length-index_select}
use nemo_rl_vlm.Batched.Columnwise.{IsBatch, IsBatch-all_rows, on_data-IsBatch}
use nemo_rl_vlm.Batched.Packed.Bins.{Closed}
use nemo_rl_vlm.Batched.Packed.Chunks.{at-some}
use nemo_rl_vlm.Batched.Iterators.{
  single_chunk, get_batch, make_microbatch_iterator_for_packable_sequences,
}
use nemo_rl_vlm.Batched.Iterators.Slices.{
  interval, intervals, slice-ok, slice-each, part-lt, sum-take-suc, Closed-get,
}

-- The rows from `first` on, `count` of them, as a batch with the micro-batches of one chunk.
abbrev pub global_batch : {E : Type 0} → Columns E → ℕ → ℕ → List (ℕ × ℕ) → List ℕ → Batch E
global_batch cols first count is lens = record {
  columns = on_data (λ A. index_select (range_from first count)) cols;
  micro_batch_indices = some (is ∷ []);
  micro_batch_lengths = some (lens ∷ []);
  elem_counts_per_gb = some (count ∷ []);
}

module _ {E : Type 0} (cap n : ℕ) (batch : Batch E) (is_batch : IsBatch n batch.columns)
    (iss : List (List (ℕ × ℕ))) (lenss : List (List ℕ)) (counts : List ℕ)
    (has_indices : batch.micro_batch_indices ≡ some iss)
    (has_lengths : batch.micro_batch_lengths ≡ some lenss)
    (has_counts : batch.elem_counts_per_gb ≡ some counts) (closed : Closed cap iss lenss counts)
    (whole : sum counts ≡ n) where
  -- For a shard of n rows with the micro-batches and the numbers of rows of its chunks, where the micro-batches of
  -- each chunk follow each other and the numbers add up to n: `get_batch` at a chunk of some rows returns those
  -- rows, which begin after those of the chunks before, with the micro-batches and the lengths that the shard has for
  -- that chunk, and the iterator for packed sequences runs on it to its end and yields each of its rows once, in order.
  pub get_batch-packed :
      (i count : ℕ) (size : Option ℕ)
      → get_elem? counts i ≡ some count
      → 0 < count
      → (is : List (ℕ × ℕ)) × (lens : List ℕ) × (get_batch batch i size
          ≡ ok (global_batch batch.columns (sum (take i counts)) count is lens))
        × (get_elem? iss i ≡ some is)
        × (get_elem? lenss i ≡ some lens)
        × All (λ len. len ≤ cap) lens
        × (make_microbatch_iterator_for_packable_sequences
              (global_batch batch.columns (sum (take i counts)) count is lens)
            ≡ ok (
                map
                  (λ p.
                    on_data
                      (λ A. index_select (interval p))
                      (on_data
                        (λ A. index_select (range_from (sum (take i counts)) count))
                        batch.columns))
                  is))
        × (flatten (map interval is) ≡ range_from 0 count)
  unfolding get_batch make_microbatch_iterator_for_packable_sequences single_chunk
  get_batch-packed i count size found some_count =
      let (is, lens, here, there, tiles, small, same) =
        Closed-get cap iss lenss counts i count closed found in
      let (next, inside) = sum-take-suc counts i count found in
      let first = sum (take i counts) in
      let end = sum (take (suc i) counts) in
      let number : end - first ≡ count = omega (arith, next) in
      let bounded : end ≤ n = omega (arith, next, inside, whole) in
      let some_rows : first < end = omega (arith, next, some_count) in
      let sliced =
        slice-ok n first end some_rows bounded batch.columns
          (IsBatch-all_rows n batch.columns is_batch)
        ∙ ap (λ m. ok (on_data (λ A. index_select (range_from first m)) batch.columns)) number in
      let rows_inside =
        subst (λ m. All (λ j. j < n) (range_from first m)) number
          (part-lt n first end some_rows bounded) in
      let cut : IsBatch count (on_data (λ A. index_select (range_from first count)) batch.columns) =
        on_data-IsBatch (λ A. index_select (range_from first count)) n count
          (λ A xs e.
            length-index_select (range_from first count) xs
              (subst (λ m. All (λ j. j < m) (range_from first count)) (sym e) rows_inside)
            ∙ length-range_from first count)
          batch.columns is_batch in
      (
        is,
        lens,
        rw
            (
              has_counts,
              has_indices,
              has_lengths,
              at-some counts i count found,
              sliced,
              at-some iss i is here,
              at-some lenss i lens there,
            )
            refl,
        here,
        there,
        small,
        slice-each count (on_data (λ A. index_select (range_from first count)) batch.columns)
            (IsBatch-all_rows count _ cut) 0 is count lens tiles (omega arith) same,
        intervals 0 is count tiles ∙ ap (range_from 0) (omega arith),
      )
