-- ===== src/Batched/Tests.antt =====
-- Runs of `BatchedDataDict` and the theorems at concrete batches.
use nemo_rl_vlm.Prelude.{
  index_error, get_elem?, ℕ, ◌<◌, ◌≤◌, ◌≡◌, ◌*◌, ◌/◌, ◌⊎◌, replicate, refl, List, [], ◌∷◌, none,
  some, true, false, Error, ok, raise, assertion_error, arith, length, range_from,
}
use nemo_rl_vlm.Prelude.Multiset.{SameItems}
use nemo_rl_vlm.Batched.{
  packed, Columns, vector, matrix, plain, on_data, index_select, reorder_data, chunk, sliceable,
}
use nemo_rl_vlm.Batched.Columnwise.{IsBatch, is_batch}
use nemo_rl_vlm.Batched.Reorder.{reorder_data-index_select}
use nemo_rl_vlm.Batched.Shards.{Sizes, sizes, shard_by_batch_size}
use nemo_rl_vlm.Batched.Shards.Partition.{shard_rows}
use nemo_rl_vlm.Batched.Shards.Outcome.{
  IsSharded, shard_by_batch_size-even, shard_by_batch_size-uneven,
}
use nemo_rl_vlm.Batched.Shards.Errors.{Refusal, shard_by_batch_size-raises}
use nemo_rl_vlm.Batched.Shards.Chunk.{chunk-Outcome}
use nemo_rl_vlm.Batched.Dynamic.{
  DynamicArgs, Micro, first_micro, micro_loop, sorted_indices, shard_dynamic,
}
use nemo_rl_vlm.Batched.Dynamic.Order.{sorted_indices-SameItems}
use nemo_rl_vlm.Batched.Dynamic.Micros.{padded, IsCut, TooLong, micro_loop-IsCut}

abbrev six : Columns ℕ
six = (0, vector (10 ∷ 11 ∷ 12 ∷ 13 ∷ 14 ∷ 15 ∷ [])) ∷ (1, plain (3 ∷ 1 ∷ 4 ∷ 1 ∷ 5 ∷ 9 ∷ [])) ∷ []

six-IsBatch : IsBatch 6 six
six-IsBatch =
    is_batch 0 (vector (10 ∷ 11 ∷ 12 ∷ 13 ∷ 14 ∷ 15 ∷ []))
      ((1, plain (3 ∷ 1 ∷ 4 ∷ 1 ∷ 5 ∷ 9 ∷ [])) ∷ []) refl

shards_of_eight :
    shard_by_batch_size {E = ℕ} 2
      (some 4)
      false
      ((0, vector (0 ∷ 0 ∷ 1 ∷ 1 ∷ 2 ∷ 2 ∷ 3 ∷ 3 ∷ [])) ∷ [])
    ≡ ok (((0, vector (0 ∷ 0 ∷ 2 ∷ 2 ∷ [])) ∷ []) ∷ ((0, vector (1 ∷ 1 ∷ 3 ∷ 3 ∷ [])) ∷ []) ∷ [])
unfolding shard_by_batch_size
shards_of_eight = refl

-- Rank 3 of 4 exists, but the test of `chunk` is of the size of a chunk.
chunk_refused : chunk {E = ℕ} 3 4 ((0, plain (range_from 0 8)) ∷ []) ≡ raise assertion_error
unfolding chunk
chunk_refused = refl

abbrev placed : List ℕ
placed = 3 ∷ 0 ∷ 5 ∷ 1 ∷ 2 ∷ 4 ∷ []

placed-SameItems : SameItems placed (range_from 0 6)
placed-SameItems f = omega arith

reorder_data-index_select_example :
    reorder_data placed (on_data (λ A. index_select placed) six) ≡ ok six
reorder_data-index_select_example =
    reorder_data-index_select 6 placed placed-SameItems six six-IsBatch (omega arith)

shard_by_batch_size-even_example :
    (z : Sizes) × (sizes 3 (some 3) false 6 ≡ ok z)
    × IsSharded 3 (some 3) false z six
    × ((s : ℕ) → length (shard_rows z false s) * 3 ≡ 6)
shard_by_batch_size-even_example =
    shard_by_batch_size-even 6 3 (omega arith) (omega arith) six six-IsBatch (some 3) (omega arith)
      refl refl

shard_by_batch_size-uneven_example :
    (z : Sizes) × (sizes 4 none true 6 ≡ ok z) × IsSharded 4 none true z six
unfolding sliceable
shard_by_batch_size-uneven_example =
    shard_by_batch_size-uneven 6 4 (omega arith) (omega arith) six six-IsBatch refl

shard_by_batch_size-raises_example :
    (e : Error) × (shard_by_batch_size 4 (some 3) false six ≡ raise e)
    × Refusal 4 (some 3) false 6 e
shard_by_batch_size-raises_example =
    shard_by_batch_size-raises 6 4 six six-IsBatch (omega arith) (some 3) false
      (λ h. omega (arith, h.3))

chunk-Outcome_example :
    (shards : List (Columns ℕ)) × (shard_by_batch_size 3 none false six ≡ ok shards)
    × (length shards ≡ 3)
    × (((1 < 6 / 3)
          × (part : Columns ℕ) × (get_elem? shards 1 ≡ some part)
          × (chunk 1 3 six ≡ ok part))
        ⊎ ((6 / 3 ≤ 1) × (chunk 1 3 six ≡ raise assertion_error)))
chunk-Outcome_example = chunk-Outcome 6 3 1 six six-IsBatch (omega arith) (omega arith) refl

abbrev two_chunks : Sizes
two_chunks = record { total_batch_size = 6; batch_size = 3; num_chunks = 2; shard_size = 1 }

sorted_indices-SameItems_example :
    SameItems (sorted_indices two_chunks 3 (5 ∷ 3 ∷ 4 ∷ 9 ∷ 8 ∷ 7 ∷ [])) (range_from 0 6)
sorted_indices-SameItems_example =
    sorted_indices-SameItems two_chunks 3 (5 ∷ 3 ∷ 4 ∷ 9 ∷ 8 ∷ 7 ∷ []) (omega arith) refl

abbrev dynamic_args : DynamicArgs
dynamic_args = record {
  max_tokens_per_microbatch = 16;
  sequence_length_round = 4;
  input_key = 0;
  input_lengths_key = 1;
}

micro_loop-IsCut_example :
    ((cut : Micro) × (micro_loop dynamic_args (ok 10) (λ p. ok (p * 2)) (range_from 0 5) first_micro
        ≡ ok cut)
      × IsCut 16 (padded dynamic_args 10 (λ p. p * 2)) 5 cut)
    ⊎ ((micro_loop dynamic_args (ok 10) (λ p. ok (p * 2)) (range_from 0 5) first_micro
          ≡ raise assertion_error)
        × TooLong dynamic_args 10 (λ p. p * 2) 5)
micro_loop-IsCut_example =
    micro_loop-IsCut dynamic_args 10 5 (λ p. ok (p * 2)) (λ p. p * 2) (λ p _. refl) (omega arith)

-- The micro-batches of two shards of three rows, with the order that the rows came in.
dynamic_run :
    shard_dynamic
      (λ n. n)
      dynamic_args
      2
      none
      false
      ((0, matrix (replicate 6 (replicate 10 0))) ∷ (1, vector (9 ∷ 2 ∷ 7 ∷ 4 ∷ 5 ∷ 3 ∷ [])) ∷ [])
    ≡ ok (
      (record {
        columns = (0, matrix (replicate 3 (replicate 10 0))) ∷ (1, vector (2 ∷ 4 ∷ 7 ∷ [])) ∷ [];
        micro_batch_indices = some (((0, 2) ∷ (2, 3) ∷ []) ∷ []);
        micro_batch_lengths = some ((8 ∷ 10 ∷ []) ∷ []);
        elem_counts_per_gb = none;
      }
          ∷ record {
            columns =
                (0, matrix (replicate 3 (replicate 10 0))) ∷ (1, vector (3 ∷ 5 ∷ 9 ∷ [])) ∷ [];
            micro_batch_indices = some (((0, 2) ∷ (2, 3) ∷ []) ∷ []);
            micro_batch_lengths = some ((8 ∷ 10 ∷ []) ∷ []);
            elem_counts_per_gb = none;
          }
          ∷ []),
      1 ∷ 3 ∷ 2 ∷ 5 ∷ 4 ∷ 0 ∷ [],
    )
unfolding shard_dynamic
dynamic_run = refl

-- With dynamic batching the last of uneven shards is shorter than the places that are looked up in it.
uneven_dynamic :
    shard_dynamic
      (λ n. n)
      dynamic_args
      2
      none
      true
      ((0, matrix (replicate 5 (replicate 10 0))) ∷ (1, vector (9 ∷ 2 ∷ 7 ∷ 4 ∷ 5 ∷ [])) ∷ [])
    ≡ raise index_error
unfolding shard_dynamic
uneven_dynamic = refl

-- Five rows leave nothing for the last of four uneven shards, and there is no empty `PackedTensor`.
uneven_packed :
    shard_by_batch_size {E = ℕ} 4 none true ((0, packed 0 (range_from 0 5)) ∷ [])
    ≡ raise assertion_error
unfolding shard_by_batch_size
uneven_packed = refl
