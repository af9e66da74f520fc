-- ===== src/Batched/Shards.antt =====
-- `shard_by_batch_size` (nemo_rl/distributed/batched_data_dict.py) without its two kinds of arguments for
-- preprocessing. A shard is empty before its first chunk, and after it has the keys of the data in their
-- order, so that the rows of a later chunk are appended column by column.
pub mod Gathers
pub mod Partition
pub mod Outcome
pub mod Errors
pub mod Chunk
use nemo_rl_vlm.Prelude.{
  ℕ, zero, suc, ◌+◌, ◌-◌, ◌*◌, ◌/◌, ◌%◌, min, List, [], ◌∷◌, ◌++◌, map, Option, none, some, Bool,
  true, false, ◌||◌, Result, ok, raise, ◌>>=◌, assertion_error, type_error, zero_division_error,
  ◌==◌, if◌then◌else◌, not, range_from,
}
use nemo_rl_vlm.Batched.{Column, vector, matrix, packed, plain, Columns, common_rows, rows_at, each}

pub record Sizes : Type 0 where
  pub total_batch_size : ℕ
  pub batch_size : ℕ
  pub num_chunks : ℕ
  pub shard_size : ℕ

abbrev pub or_else : Option ℕ → ℕ → ℕ
or_else none n = n
or_else (some m) n = m

-- The checks, and the sizes that follow from the arguments.
unfoldable pub sizes : ℕ → Option ℕ → Bool → ℕ → Result Sizes
sizes shards size uneven total =
    let batch = or_else size total in
    if batch == 0
    then raise zero_division_error
    else if not (total % batch == 0)
    then raise assertion_error
    else if shards == 0
    then raise zero_division_error
    else if not (uneven || (batch % shards == 0))
    then raise assertion_error
    else ok record {
      total_batch_size = total;
      batch_size = batch;
      num_chunks = total / batch;
      shard_size = if uneven then (batch + shards - 1) / shards else batch / shards;
    }

-- `assert batch_size is None` under `allow_uneven_shards`
unfoldable pub check_uneven : Bool → Option ℕ → Result (Unit {0})
check_uneven true (some size) = raise assertion_error
check_uneven true none = ok tt
check_uneven false size = ok tt

-- `torch.arange(shard_start, shard_end)`
unfoldable pub sub_shard : Sizes → Bool → ℕ → ℕ → List ℕ
sub_shard z uneven shard chunk =
    let first = chunk * z.batch_size + shard * z.shard_size in
    let end = chunk * z.batch_size + (shard + 1) * z.shard_size in
    if uneven
    then range_from (min first z.total_batch_size)
        (min end z.total_batch_size - min first z.total_batch_size)
    else range_from first (end - first)

module _ {E : Type 0} where
  -- `torch.cat`, `PackedTensor.concat` and `extend`
  unfoldable pub join : Column E → Column E → Result (Column E)
  join (vector xs) (vector ys) = ok (vector (xs ++ ys))
  join (matrix xs) (matrix ys) = ok (matrix (xs ++ ys))
  join (packed d xs) (packed e ys) =
      if d == e then ok (packed d (xs ++ ys)) else raise assertion_error
  join (plain xs) (plain ys) = ok (plain (xs ++ ys))
  join _ _ = raise type_error

  -- The loop over the keys for one chunk, with the columns that the shard has.
  unfoldable pub add_rows : List ℕ → Columns E → Columns E → Result (Columns E)
  unfolding rows_at join
  add_rows is shard [] = ok shard
  add_rows is [] ((k, v) ∷ cols) = do
    w ← rows_at is v
    rest ← add_rows is [] cols
    ok ((k, w) ∷ rest)
  add_rows is ((l, u) ∷ shard) ((k, v) ∷ cols) = do
    w ← rows_at is v
    joined ← join u w
    rest ← add_rows is shard cols
    ok ((k, joined) ∷ rest)

  -- The loop over the chunks for one shard.
  unfoldable pub gather : List (List ℕ) → Columns E → Columns E → Result (Columns E)
  unfolding add_rows
  gather [] shard cols = ok shard
  gather (is ∷ iss) shard cols = do shard' ← add_rows is shard cols; gather iss shard' cols

  -- The loop over the shards.
  unfoldable pub gather_shards : Sizes → Bool → ℕ → Columns E → Result (List (Columns E))
  unfolding gather sub_shard each
  gather_shards z uneven shards cols =
      each (λ shard. gather (map (sub_shard z uneven shard) (range_from 0 z.num_chunks)) [] cols)
        (range_from 0 shards)

  unfoldable pub shard_by_batch_size : ℕ → Option ℕ → Bool → Columns E → Result (List (Columns E))
  unfolding check_uneven common_rows sizes gather_shards
  shard_by_batch_size shards size uneven cols = do
    _ ← check_uneven uneven size
    total ← common_rows cols
    z ← sizes shards size uneven total
    gather_shards z uneven shards cols
