-- ===== src/Batched/Shards/Partition.antt =====
-- The shards are a partition of the rows.
use nemo_rl_vlm.Prelude.{
  ℕ, suc, ◌+◌, ◌-◌, ◌*◌, ◌≤◌, ◌≡◌, refl, ap, ◌∙◌, List, map, flatten, Bool, true, false, total,
  range_from, arith, min,
}
use nemo_rl_vlm.Prelude.Multiset.{SameItems}
use nemo_rl_vlm.Prelude.Ranges.{
  total_same, total_swap, total-flatten-map, total-blocks, range_same, range_whole,
}
use nemo_rl_vlm.Batched.Shards.{Sizes, sub_shard}

-- The rows of one shard, and those of all.
unfoldable pub shard_rows : Sizes → Bool → ℕ → List ℕ
unfolding sub_shard flatten
shard_rows z uneven shard = flatten (map (sub_shard z uneven shard) (range_from 0 z.num_chunks))

unfoldable pub all_shards : Sizes → Bool → ℕ → List (List ℕ)
unfolding shard_rows
all_shards z uneven shards = map (shard_rows z uneven) (range_from 0 shards)

-- The first row of a shard in a chunk, for any shard and chunk.
first_row : Sizes → ℕ → ℕ → ℕ
first_row z c s = c * z.batch_size + s * z.shard_size

first_row-ascends : (z : Sizes) (c s : ℕ) → first_row z c s ≤ first_row z c (suc s)
unfolding first_row
first_row-ascends z c s = omega arith

total-all_shards :
    (z : Sizes) (uneven : Bool) (shards : ℕ) (f : ℕ → ℕ)
    → total f (flatten (all_shards z uneven shards))
      ≡ total
          (λ c. total (λ s. total f (sub_shard z uneven s c)) (range_from 0 shards))
          (range_from 0 z.num_chunks)
unfolding all_shards shard_rows
total-all_shards z uneven shards f =
    total-flatten-map f (shard_rows z uneven) (range_from 0 shards)
    ∙ total_same _ _ (range_from 0 shards)
        (λ s. total-flatten-map f (sub_shard z uneven s) (range_from 0 z.num_chunks))
    ∙ total_swap (λ s c. total f (sub_shard z uneven s c)) (range_from 0 shards)
        (range_from 0 z.num_chunks)

-- One chunk: its shards are the rows of the chunk.
chunk_even :
    (z : Sizes) (shards : ℕ) (f : ℕ → ℕ) (c : ℕ)
    → shards * z.shard_size ≡ z.batch_size
    → total (λ s. total f (sub_shard z false s c)) (range_from 0 shards)
      ≡ total f (range_from (c * z.batch_size) (suc c * z.batch_size - c * z.batch_size))
unfolding sub_shard first_row
chunk_even z shards f c h =
    total_same _ _ (range_from 0 shards) (λ s. range_same f _ _ _ _ refl (omega arith))
    ∙ total-blocks (first_row z c) (first_row-ascends z c) f 0 shards
    ∙ range_same f _ _ _ _ (omega arith) (
        omega
          (arith, h, ap (λ n. n * z.shard_size) (let e : 0 + shards ≡ shards = omega arith in e)))

pub shards_even :
    (z : Sizes) (shards : ℕ)
    → z.num_chunks * z.batch_size ≡ z.total_batch_size
    → shards * z.shard_size ≡ z.batch_size
    → SameItems (flatten (all_shards z false shards)) (range_from 0 z.total_batch_size)
shards_even z shards chunks h f =
    total-all_shards z false shards f
    ∙ total_same _ _ (range_from 0 z.num_chunks) (λ c. chunk_even z shards f c h)
    ∙ total-blocks (λ c. c * z.batch_size) (λ c. omega arith) f 0 z.num_chunks
    ∙ range_whole f _ _ z.total_batch_size (omega arith) (
        omega (
          arith,
          chunks,
          ap (λ n. n * z.batch_size) (let e : 0 + z.num_chunks ≡ z.num_chunks = omega arith in e),
        ))

-- Bounds that are cut off at the number of rows.
capped : Sizes → ℕ → ℕ → ℕ
unfolding first_row
capped z c s = min (first_row z c s) z.total_batch_size

capped-ascends : (z : Sizes) (c s : ℕ) → capped z c s ≤ capped z c (suc s)
unfolding capped
capped-ascends z c s = omega (arith, first_row-ascends z c s)

chunk_uneven :
    (z : Sizes) (shards : ℕ) (f : ℕ → ℕ)
    → z.total_batch_size ≤ shards * z.shard_size
    → total (λ s. total f (sub_shard z true s 0)) (range_from 0 shards)
      ≡ total f (range_from 0 z.total_batch_size)
unfolding sub_shard first_row capped
chunk_uneven z shards f h =
    total_same (λ s. total f (sub_shard z true s 0)) _ (range_from 0 shards)
      (λ s. range_same f _ _ _ _ refl (ap (λ n. min n z.total_batch_size) (omega arith)))
    ∙ total-blocks (capped z 0) (capped-ascends z 0) f 0 shards
    ∙ range_whole f _ _ z.total_batch_size (omega arith) (
        omega
          (arith, h, ap (λ n. n * z.shard_size) (let e : 0 + shards ≡ shards = omega arith in e)))

pub shards_uneven :
    (z : Sizes) (shards : ℕ)
    → z.num_chunks ≡ 1
    → z.total_batch_size ≤ shards * z.shard_size
    → SameItems (flatten (all_shards z true shards)) (range_from 0 z.total_batch_size)
shards_uneven z shards one h f =
    total-all_shards z true shards f
    ∙ ap
        (λ n.
          total (λ c. total (λ s. total f (sub_shard z true s c)) (range_from 0 shards))
            (range_from 0 n))
        one
    ∙ omega (arith, chunk_uneven z shards f h)
