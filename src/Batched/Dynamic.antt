-- ===== src/Batched/Dynamic.antt =====
-- `shard_by_batch_size` with `dynamic_batching_args` (nemo_rl/distributed/batched_data_dict.py): the rows of each
-- chunk are dealt out to the shards in the order of their sequence lengths, and each shard is cut into
-- micro-batches. `item` is the number that a tensor of one element holds.
pub mod Order
pub mod Tiles
pub mod Micros
use nemo_rl_vlm.Prelude.{
  ℕ, zero, suc, ◌+◌, ◌-◌, ◌*◌, ◌/◌, ◌%◌, max, min, List, [], ◌∷◌, ◌++◌, map, flatten, Option, none,
  some, Bool, Result, ok, raise, ◌>>=◌, assertion_error, attribute_error, index_error, key_error,
  runtime_error, type_error, zero_division_error, leb, ◌==◌, if◌then◌else◌, get_or, get_elem?,
  length, take, drop, range_from,
}
use nemo_rl_vlm.Prelude.Sort.{sort}
use nemo_rl_vlm.Batched.{
  Column, vector, matrix, packed, plain, Columns, Batch, common_rows, select_indices, each,
}
use nemo_rl_vlm.Batched.Shards.{Sizes, sizes, check_uneven, gather_shards}

-- `DynamicBatchingArgs`
pub record DynamicArgs : Type 0 where
  pub max_tokens_per_microbatch : ℕ
  pub sequence_length_round : ℕ
  pub input_key : ℕ
  pub input_lengths_key : ℕ

-- `sorted(range(batch_size), key=lambda i: chunk_seqlens[i])`
abbrev pub shorter : List ℕ → ℕ → ℕ → Bool
shorter seqlens i j = leb (get_or seqlens i 0) (get_or seqlens j 0)

-- `xs[i::step]`, where `skip` items are passed over before the next.
abbrev pub every {ℓ} : {A : Type ℓ} → ℕ → ℕ → List A → List A
every step skip [] = []
every step zero (x ∷ xs) = x ∷ every step (step - 1) xs
every step (suc skip) (x ∷ xs) = every step skip xs

abbrev pub stride {ℓ} : {A : Type ℓ} → ℕ → List A → List A
unfolding flatten
stride shards xs = flatten (map (λ i. every shards i xs) (range_from 0 shards))

-- The indices of a chunk, which starts at row `start`.
unfoldable pub chunk_order : ℕ → ℕ → ℕ → List ℕ → List ℕ
unfolding sort stride
chunk_order shards start batch_size seqlens = stride shards (
    map (λ i. i + start)
      (sort (shorter (take batch_size (drop start seqlens))) (range_from 0 batch_size)))

-- `batch_sorted_indices`
unfoldable pub sorted_indices : Sizes → ℕ → List ℕ → List ℕ
unfolding chunk_order flatten
sorted_indices z shards seqlens = flatten (
    map (λ c. chunk_order shards (c * z.batch_size) z.batch_size seqlens)
      (range_from 0 z.num_chunks))

-- The micro-batches of a chunk: those that are full, the last one, and `max_seqlen_this_mb`.
pub record Micro : Type 0 where
  pub full : List (ℕ × ℕ)
  pub full_lengths : List ℕ
  pub start : ℕ
  pub end : ℕ
  pub last_length : ℕ
  pub max_seqlen : ℕ

abbrev pub first_micro : Micro
first_micro = record {
  full = [];
  full_lengths = [];
  start = 0;
  end = 0;
  last_length = 0;
  max_seqlen = 0;
}

abbrev pub micro_batch_indices : Micro → List (ℕ × ℕ)
micro_batch_indices m = m.full ++ (m.start, m.end) ∷ []

abbrev pub micro_batch_lengths : Micro → List ℕ
micro_batch_lengths m = m.full_lengths ++ m.last_length ∷ []

-- The row of each shard at one place goes to the last micro-batch if its tokens still fit, else to a new one.
unfoldable pub add_row : ℕ → ℕ → ℕ → Micro → Micro
add_row max_tokens place seqlen m =
    let longest = max m.max_seqlen seqlen in
    if leb ((m.end - m.start + 1) * longest) max_tokens
    then record m { end = m.end + 1; last_length = longest; max_seqlen = longest }
    else record {
      full = m.full ++ (m.start, m.end) ∷ [];
      full_lengths = m.full_lengths ++ m.last_length ∷ [];
      start = place;
      end = place + 1;
      last_length = seqlen;
      max_seqlen = seqlen;
    }

-- The length rounded up, but not beyond the width of the inputs.
unfoldable pub pad : ℕ → ℕ → ℕ → ℕ
pad round width seqlen = min ((seqlen + round - 1) / round * round) width

-- One place of the loop over the places of a chunk, with the longest sequence of any shard there.
unfoldable pub micro_step : DynamicArgs → ℕ → ℕ → ℕ → Micro → Result Micro
unfolding add_row pad
micro_step args width place seqlen m =
    let padded = pad args.sequence_length_round width seqlen in
    if args.sequence_length_round == 0
    then raise zero_division_error
    else if leb padded args.max_tokens_per_microbatch
    then ok (add_row args.max_tokens_per_microbatch place padded m)
    else raise assertion_error

-- The loop, where the longest sequence and the width of the inputs are looked up at each place.
unfoldable pub micro_loop : DynamicArgs → Result ℕ → (ℕ → Result ℕ) → List ℕ → Micro → Result Micro
unfolding micro_step
micro_loop args width longest [] m = ok m
micro_loop args width longest (place ∷ rest) m = do
  seqlen ← longest place
  unpadded ← width
  m' ← micro_step args unpadded place seqlen m
  micro_loop args width longest rest m'

-- What a place of a list holds.
abbrev pub at {ℓ} : {A : Type ℓ} → List A → ℕ → Result A
at xs i = elim (get_elem? xs i) [ none ↦ raise index_error | some x ↦ ok x ]

-- `self.data[key]`
abbrev pub column : {E : Type 0} → ℕ → Columns E → Result (Column E)
column key [] = raise key_error
column key ((k, v) ∷ cols) = if k == key then ok v else column key cols

-- `shape[1]`: the width of the rows of a tensor that has any.
unfoldable pub width_of : {E : Type 0} → Column E → Result ℕ
width_of (vector xs) = raise index_error
width_of (matrix []) = ok 0
width_of (matrix (row ∷ rows)) = ok (length row)
width_of (packed d xs) = raise attribute_error
width_of (plain xs) = raise attribute_error

module _ {E : Type 0} (item : E → ℕ) where
  -- The lengths are a tensor of one dimension.
  unfoldable pub lengths_of : Column E → Result (List ℕ)
  lengths_of (vector xs) = ok (map item xs)
  lengths_of (matrix rows) = raise runtime_error
  lengths_of (packed d xs) = raise type_error
  lengths_of (plain xs) = raise attribute_error

  unfoldable pub lengths_at : ℕ → Columns E → Result (List ℕ)
  unfolding lengths_of
  lengths_at key cols = column key cols >>= lengths_of

  -- The longest sequence that the shards have at a place of a chunk of theirs.
  unfoldable pub longest_at : DynamicArgs → ℕ → ℕ → ℕ → List (Columns E) → ℕ → Result ℕ
  unfolding lengths_at
  longest_at args shard_size chunk place [] longest = ok longest
  longest_at args shard_size chunk place (shard ∷ shards) longest = do
    input_lengths ← lengths_at args.input_lengths_key shard
    seqlen ← at (take shard_size (drop (chunk * shard_size) input_lengths)) place
    longest_at args shard_size chunk place shards (max longest seqlen)

  -- The micro-batches of a chunk, which are the same for all shards.
  unfoldable pub micro_chunk : DynamicArgs → ℕ → List (Columns E) → Columns E → ℕ → Result Micro
  unfolding longest_at width_of micro_loop
  micro_chunk args shard_size shards cols chunk =
      micro_loop args (column args.input_key cols >>= width_of)
        (λ place. longest_at args shard_size chunk place shards 0) (range_from 0 shard_size)
        first_micro

  -- The order of the rows, which needs the lengths if there is a chunk.
  unfoldable pub dynamic_order : DynamicArgs → Sizes → ℕ → Columns E → Result (List ℕ)
  unfolding sorted_indices lengths_at
  dynamic_order args z shards cols =
      if z.num_chunks == 0
      then ok []
      else (lengths_at args.input_lengths_key cols >>= λ seqlens.
          ok (sorted_indices z shards seqlens))

  unfoldable pub shard_dynamic :
      DynamicArgs → ℕ → Option ℕ → Bool → Columns E → Result (List (Batch E) × List ℕ)
  unfolding check_uneven common_rows sizes dynamic_order select_indices gather_shards micro_chunk
  shard_dynamic args shards size uneven cols = do
    _ ← check_uneven uneven size
    total ← common_rows cols
    z ← sizes shards size uneven total
    order ← dynamic_order args z shards cols
    moved ← select_indices order cols
    parts ← gather_shards z uneven shards moved
    micros ← each (micro_chunk args z.shard_size parts moved) (range_from 0 z.num_chunks)
    ok (
      map
          (λ part. record {
            columns = part;
            micro_batch_indices = some (map micro_batch_indices micros);
            micro_batch_lengths = some (map micro_batch_lengths micros);
            elem_counts_per_gb = none;
          })
          parts,
      order,
    )
