-- ===== src/Batched/Packed/Tests.antt =====
-- A run of sequence packing, and the theorems on the way from a batch to its packed micro-batches.
use nemo_rl_vlm.Prelude.{
  All, get_elem?, flatten, map, ℕ, ◌≤◌, ◌≡◌, refl, List, [], ◌∷◌, none, some, false, ok, arith,
  range_from,
}
use nemo_rl_vlm.Batched.{Batch, Columns, vector, matrix, plain, on_data, index_select}
use nemo_rl_vlm.Batched.Columnwise.{IsBatch, is_batch}
use nemo_rl_vlm.Packing.Pack.{chosen, first_fit_decreasing, by_member}
use nemo_rl_vlm.Batched.Packed.{PackingArgs, input_lens, shard_packed}
use nemo_rl_vlm.Batched.Stack.{key_before, from_batches}
use nemo_rl_vlm.Batched.Stack.Laws.{from_batches-parts}
use nemo_rl_vlm.Prelude.Sort.{sort}
use nemo_rl_vlm.Batched.Iterators.{get_batch, make_microbatch_iterator_for_packable_sequences}
use nemo_rl_vlm.Batched.Iterators.Slices.{interval}
use nemo_rl_vlm.Batched.Iterators.Batches.{global_batch, get_batch-packed}
use nemo_rl_vlm.Batched.Packed.Restores.{RestoreOutcome, shard_packed-reorder_data}

abbrev rows_six : Columns ℕ
rows_six =
    (0, vector (10 ∷ 11 ∷ 12 ∷ 13 ∷ 14 ∷ 15 ∷ [])) ∷ (1, plain (3 ∷ 1 ∷ 4 ∷ 1 ∷ 5 ∷ 9 ∷ [])) ∷ []

rows_six-IsBatch : IsBatch 6 rows_six
rows_six-IsBatch =
    is_batch 0 (vector (10 ∷ 11 ∷ 12 ∷ 13 ∷ 14 ∷ 15 ∷ []))
      ((1, plain (3 ∷ 1 ∷ 4 ∷ 1 ∷ 5 ∷ 9 ∷ [])) ∷ []) refl

abbrev packing_args : PackingArgs
packing_args = record {
  max_tokens_per_microbatch = 10;
  input_key = 1;
  input_lengths_key = 0;
  algorithm = by_member first_fit_decreasing;
  sequence_length_pad_multiple = 2;
}

abbrev four : Columns ℕ
four =
    (1, matrix ((7 ∷ 7 ∷ []) ∷ (8 ∷ 8 ∷ []) ∷ (9 ∷ 9 ∷ []) ∷ (6 ∷ 6 ∷ []) ∷ []))
    ∷ (0, vector (3 ∷ 5 ∷ 4 ∷ 2 ∷ []))
    ∷ []

four-IsBatch : IsBatch 4 four
four-IsBatch =
    is_batch 1 (matrix ((7 ∷ 7 ∷ []) ∷ (8 ∷ 8 ∷ []) ∷ (9 ∷ 9 ∷ []) ∷ (6 ∷ 6 ∷ []) ∷ []))
      ((0, vector (3 ∷ 5 ∷ 4 ∷ 2 ∷ [])) ∷ []) refl

abbrev four_shards : List (Batch ℕ)
four_shards =
    record {
      columns = (0, vector (5 ∷ 4 ∷ [])) ∷ (1, matrix ((8 ∷ 8 ∷ []) ∷ (9 ∷ 9 ∷ []) ∷ [])) ∷ [];
      micro_batch_indices = some (((0, 2) ∷ []) ∷ []);
      micro_batch_lengths = some ((10 ∷ []) ∷ []);
      elem_counts_per_gb = some (2 ∷ []);
    }
    ∷ record {
      columns = (0, vector (3 ∷ 2 ∷ [])) ∷ (1, matrix ((7 ∷ 7 ∷ []) ∷ (6 ∷ 6 ∷ []) ∷ [])) ∷ [];
      micro_batch_indices = some (((0, 2) ∷ []) ∷ []);
      micro_batch_lengths = some ((6 ∷ []) ∷ []);
      elem_counts_per_gb = some (2 ∷ []);
    }
    ∷ []

-- Two shards of two rows, and their micro-batches.
packed_run :
    shard_packed (λ n. n) (λ _ xs. xs) (λ _. 0) packing_args 2 none false four
    ≡ ok (four_shards, 1 ∷ 2 ∷ 0 ∷ 3 ∷ [])
unfolding shard_packed
packed_run = refl

from_batches-parts_example :
    from_batches
      (λ _. 0)
      (map (λ js. on_data (λ A. index_select js) four) ((2 ∷ 0 ∷ []) ∷ (3 ∷ []) ∷ []))
    ≡ ok (
        on_data (λ A. index_select (flatten ((2 ∷ 0 ∷ []) ∷ (3 ∷ []) ∷ []))) (sort key_before four))
unfolding flatten
from_batches-parts_example =
    from_batches-parts (λ _. 0) 4 four (2 ∷ 0 ∷ []) ((3 ∷ []) ∷ [])
      (omega arith, (omega arith, (omega arith, tt))) (omega arith)
      ((refl, refl, (2, (refl, (refl, (refl, (refl, tt)))))), ((refl, refl, tt), tt))

abbrev packed_shard : Batch ℕ
packed_shard = record {
  columns = rows_six;
  micro_batch_indices = some (((0, 2) ∷ (2, 3) ∷ []) ∷ ((0, 3) ∷ []) ∷ []);
  micro_batch_lengths = some ((4 ∷ 4 ∷ []) ∷ (5 ∷ []) ∷ []);
  elem_counts_per_gb = some (3 ∷ 3 ∷ []);
}

get_batch-packed_example :
    (is : List (ℕ × ℕ)) × (lens : List ℕ) × (get_batch packed_shard 1 none
      ≡ ok (global_batch rows_six 3 3 is lens))
    × (get_elem? (((0, 2) ∷ (2, 3) ∷ []) ∷ ((0, 3) ∷ []) ∷ []) 1 ≡ some is)
    × (get_elem? ((4 ∷ 4 ∷ []) ∷ (5 ∷ []) ∷ []) 1 ≡ some lens)
    × All (λ len. len ≤ 8) lens
    × (make_microbatch_iterator_for_packable_sequences (global_batch rows_six 3 3 is lens)
        ≡ ok (
            map
              (λ p.
                on_data
                  (λ A. index_select (interval p))
                  (on_data (λ A. index_select (range_from 3 3)) rows_six))
              is))
    × (flatten (map interval is) ≡ range_from 0 3)
get_batch-packed_example =
    get_batch-packed 8 6 packed_shard rows_six-IsBatch (((0, 2) ∷ (2, 3) ∷ []) ∷ ((0, 3) ∷ []) ∷ [])
      ((4 ∷ 4 ∷ []) ∷ (5 ∷ []) ∷ []) (3 ∷ 3 ∷ []) refl refl refl
      (
        (refl, omega arith, (refl, omega arith, refl)),
        (omega arith, (omega arith, tt)),
        refl,
        ((refl, omega arith, refl), (omega arith, tt), refl, tt),
      )
      refl 1 3 none refl (omega arith)

shard_packed-reorder_data_example :
    RestoreOutcome
      (λ n. n)
      (λ _ xs. xs)
      (λ _. 0)
      packing_args
      first_fit_decreasing
      4
      2
      none
      four
      (3 ∷ 5 ∷ 4 ∷ 2 ∷ [])
unfolding chosen input_lens
shard_packed-reorder_data_example =
    shard_packed-reorder_data (λ n. n) (λ _ xs. xs) (λ _ _ _. refl) (λ _. 0) packing_args
      first_fit_decreasing refl (omega arith) (omega arith) 4 2 none (omega arith) (omega arith)
      (omega arith) refl refl four (vector (3 ∷ 5 ∷ 4 ∷ 2 ∷ [])) (3 ∷ 5 ∷ 4 ∷ 2 ∷ []) four-IsBatch
      ((refl, refl, (2, (refl, (refl, (refl, (refl, tt)))))), ((refl, refl, tt), tt)) refl refl refl
      (
        (omega arith, omega arith),
        (
          (omega arith, omega arith),
          ((omega arith, omega arith), ((omega arith, omega arith), tt)),
        ),
      )
