-- ===== src/Batched/Packed.antt =====
-- `shard_by_batch_size` with `sequence_packing_args` (nemo_rl/distributed/batched_data_dict.py): each chunk is packed
-- into bins, which go to the shards in turn and are the micro-batches. `shuffle` is what `random.shuffle`
-- does to the sequences of a chunk, `item` the number that a tensor of one element holds.
pub mod Bins
pub mod Chunks
pub mod Closes
pub mod Packs
pub mod Outcome
pub mod Restores
mod Tests
use nemo_rl_vlm.Prelude.{
  ℕ, zero, suc, ◌+◌, ◌-◌, ◌*◌, ◌/◌, ◌%◌, List, [], ◌∷◌, ◌++◌, map, flatten, Option, none, some,
  Bool, Result, ok, raise, ◌>>=◌, index_error, runtime_error, type_error, zero_division_error, ◌==◌,
  if◌then◌else◌, length, set, sum, take, drop, replicate, range_from,
}
use nemo_rl_vlm.Prelude.Int.{pos}
use nemo_rl_vlm.Packing.Base.{Packer}
use nemo_rl_vlm.Packing.Pack.{Algorithm, Choice, get_packer, pack}
use nemo_rl_vlm.Batched.{
  Column, vector, matrix, packed, plain, Columns, Batch, common_rows, select_indices, each,
}
use nemo_rl_vlm.Batched.Shards.{Sizes, sizes, check_uneven}
use nemo_rl_vlm.Batched.Dynamic.{column, at}
use nemo_rl_vlm.Batched.Stack.{from_batches}

-- `SequencePackingArgs`
pub record PackingArgs : Type 0 where
  pub max_tokens_per_microbatch : ℕ
  pub input_key : ℕ
  pub input_lengths_key : ℕ
  pub algorithm : Choice
  pub sequence_length_pad_multiple : ℕ

-- `_get_padded_seqlen`
unfoldable pub padded_seqlen : ℕ → ℕ → Result ℕ
padded_seqlen multiple seqlen =
    if multiple == 0
    then raise zero_division_error
    else ok ((seqlen + multiple - 1) / multiple * multiple)

-- `[...][-1][1]`, if there is a last micro-batch.
abbrev pub last_end : List (ℕ × ℕ) → Option ℕ
last_end [] = none
last_end (i ∷ []) = some i.1
last_end (i ∷ j ∷ is) = last_end (j ∷ is)

abbrev pub end_or_zero : Option ℕ → ℕ
end_or_zero none = 0
end_or_zero (some end) = end

module _ (E : Type 0) where
  -- What belongs to one shard in the lists of `sharded_data`, `global_indices_per_shard`,
  -- `chunk_sharded_micro_indices`, `chunk_sharded_micro_lengths`, `sharded_micro_indices`,
  -- `sharded_micro_lengths` and `sharded_elem_counts_per_gb`.
  pub record Shard : Type 0 where
    pub bins : List (List (ℕ × Column E))
    pub global_indices : List ℕ
    pub chunk_micro_indices : List (ℕ × ℕ)
    pub chunk_micro_lengths : List ℕ
    pub micro_indices : List (List (ℕ × ℕ))
    pub micro_lengths : List (List ℕ)
    pub elem_counts : List ℕ

abbrev pub new_shard : {E : Type 0} → Shard E
new_shard = record {
  bins = [];
  global_indices = [];
  chunk_micro_indices = [];
  chunk_micro_lengths = [];
  micro_indices = [];
  micro_lengths = [];
  elem_counts = [];
}

module _ {E : Type 0} where
  -- A shard gets a bin of rows, of so many tokens.
  unfoldable pub put_bin : List ℕ → Columns E → ℕ → Shard E → Shard E
  put_bin global rows tokens shard =
      let prev_end = end_or_zero (last_end shard.chunk_micro_indices) in
      record shard {
        bins = shard.bins ++ rows ∷ [];
        global_indices = shard.global_indices ++ global;
        chunk_micro_indices =
            shard.chunk_micro_indices ++ (prev_end, prev_end + length global) ∷ [];
        chunk_micro_lengths = shard.chunk_micro_lengths ++ tokens ∷ [];
      }

  -- The loop over the bins of a chunk, from `bin_idx` on.
  unfoldable pub add_bins :
      ℕ → List ℕ → Columns E → ℕ → ℕ → List (List ℕ) → List (Shard E) → Result (List (Shard E))
  unfolding put_bin select_indices each padded_seqlen
  add_bins multiple seqlens cols start bin_idx [] shards = ok shards
  add_bins multiple seqlens cols start bin_idx (bin ∷ bins) shards = do
    rows ← select_indices (map (λ i. i + start) bin) cols
    tokens ← each (λ i. at seqlens i >>= padded_seqlen multiple) (map (λ i. i + start) bin)
    shard ← at shards (bin_idx % length shards)
    add_bins multiple seqlens cols start (suc bin_idx) bins (
        set shards (bin_idx % length shards)
          (put_bin (map (λ i. i + start) bin) rows (sum tokens) shard))

  -- The end of a chunk, for one shard.
  unfoldable pub close_chunk : Shard E → Result (Shard E)
  close_chunk shard = elim (last_end shard.chunk_micro_indices) [
    | none ↦ raise index_error
    | some end ↦ ok record shard {
      chunk_micro_indices = [];
      chunk_micro_lengths = [];
      micro_indices = shard.micro_indices ++ shard.chunk_micro_indices ∷ [];
      micro_lengths = shard.micro_lengths ++ shard.chunk_micro_lengths ∷ [];
      elem_counts = shard.elem_counts ++ end ∷ [];
    }
  ]

  -- The loop over the chunks, with the bins of each.
  unfoldable pub add_chunks :
      ℕ
      → List ℕ
      → Columns E
      → ℕ
      → ℕ
      → List (List (List ℕ))
      → List (Shard E)
      → Result (List (Shard E))
  unfolding add_bins close_chunk each
  add_chunks multiple seqlens cols batch_size chunk [] shards = ok shards
  add_chunks multiple seqlens cols batch_size chunk (bins ∷ rest) shards = do
    filled ← add_bins multiple seqlens cols (chunk * batch_size) 0 bins shards
    closed ← each close_chunk filled
    add_chunks multiple seqlens cols batch_size (suc chunk) rest closed

  -- `SlicedDataDict.from_batches` on the bins of a shard, with where the micro-batches lie.
  unfoldable pub make_batch : (ℕ → E) → Shard E → Result (Batch E)
  unfolding from_batches
  make_batch pad_values shard = do
    cols ← from_batches pad_values shard.bins
    ok record {
      columns = cols;
      micro_batch_indices = some shard.micro_indices;
      micro_batch_lengths = some shard.micro_lengths;
      elem_counts_per_gb = some shard.elem_counts;
    }

-- A list is made a tensor.
unfoldable pub input_lens : {E : Type 0} → (E → ℕ) → Column E → Result (List ℕ)
input_lens item (vector xs) = ok (map item xs)
input_lens item (plain xs) = ok (map item xs)
input_lens item (matrix rows) = raise runtime_error
input_lens item (packed d xs) = raise type_error

-- The bins of a chunk.
unfoldable pub pack_chunk :
    (ℕ → List (ℕ × ℕ) → List (ℕ × ℕ))
    → PackingArgs
    → Algorithm × Packer
    → ℕ
    → List ℕ
    → ℕ
    → Result (List (List ℕ))
unfolding padded_seqlen pack each
pack_chunk shuffle args bin_packer batch_size seqlens chunk = do
  padded ←
      each (padded_seqlen args.sequence_length_pad_multiple)
        (take batch_size (drop (chunk * batch_size) seqlens))
  pack (shuffle chunk) bin_packer.0 bin_packer.1 padded

module _ {E : Type 0} (item : E → ℕ) (shuffle : ℕ → List (ℕ × ℕ) → List (ℕ × ℕ))
    (pad_values : ℕ → E) where
  unfoldable pub shard_packed :
      PackingArgs → ℕ → Option ℕ → Bool → Columns E → Result (List (Batch E) × List ℕ)
  unfolding check_uneven common_rows sizes get_packer input_lens pack_chunk add_chunks make_batch
      each flatten
  shard_packed args shards size uneven cols = do
    _ ← check_uneven uneven size
    total ← common_rows cols
    z ← sizes shards size uneven total
    bin_packer ←
        get_packer args.algorithm args.max_tokens_per_microbatch (some (pos shards))
          (some (pos shards))
    seqlens ← column args.input_lengths_key cols >>= input_lens item
    chunk_bins ←
        each (pack_chunk shuffle args bin_packer z.batch_size seqlens) (range_from 0 z.num_chunks)
    filled ←
        add_chunks args.sequence_length_pad_multiple seqlens cols z.batch_size 0 chunk_bins
          (replicate shards new_shard)
    batches ← each (make_batch pad_values) filled
    ok (batches, flatten (map (λ shard. shard.global_indices) filled))
