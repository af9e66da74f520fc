-- ===== src/Batched.antt =====
-- `BatchedDataDict` (nemo_rl/distributed/batched_data_dict.py): columns by key, of which the rows belong
-- together, and where the micro-batches of a shard lie. Keys are numbered. A column is a tensor of
-- one dimension, a tensor of rows, a `PackedTensor` with its `dim_to_pack`, or a list; torch's operations
-- on the first dimension are read as those on lists. Devices, and copies of rows, have no model.
pub mod Rows
pub mod Columnwise
pub mod Reorder
pub mod Shards
pub mod Dynamic
pub mod Stack
pub mod Packed
pub mod Iterators
mod Tests
use nemo_rl_vlm.Prelude.{
  ℕ, zero, suc, ◌+◌, ◌-◌, ◌*◌, ◌/◌, ◌%◌, max, List, [], ◌∷◌, ◌++◌, map, Option, none, some, Bool,
  true, false, ◌&&◌, Result, ok, raise, ◌>>=◌, assertion_error, index_error, key_error,
  not_implemented_error, runtime_error, stop_iteration, type_error, zero_division_error, ltb, leb,
  ◌==◌, if◌then◌else◌, length, get_elem?, take, drop, replicate, range_from, indexed_from, not,
}
use nemo_rl_vlm.Prelude.Sort.{sort}

pub data Column (E : Type 0) : Type 0 where
  vector : List E → Column E
  matrix : List (List E) → Column E
  packed : ℕ → List E → Column E
  plain : List E → Column E

module _ (E : Type 0) where
  abbrev pub Columns : Type 0
  Columns = List (ℕ × Column E)

  pub record Batch : Type 0 where
    pub columns : List (ℕ × Column E)
    pub micro_batch_indices : Option (List (List (ℕ × ℕ)))
    pub micro_batch_lengths : Option (List (List ℕ))
    pub elem_counts_per_gb : Option (List ℕ)

-- `__init__`
abbrev pub batch_of : {E : Type 0} → Columns E → Batch E
batch_of cols = record {
  columns = cols;
  micro_batch_indices = none;
  micro_batch_lengths = none;
  elem_counts_per_gb = none;
}

-- `[f(x) for x in xs]`, where the first exception ends it.
unfoldable pub each : {A B : Type 0} → (A → Result B) → List A → Result (List B)
each f [] = ok []
each f (x ∷ xs) = do y ← f x; ys ← each f xs; ok (y ∷ ys)

-- `[xs[i] for i in indices]`, on indices in range.
unfoldable pub index_select : {A : Type 0} → List ℕ → List A → List A
index_select [] xs = []
index_select (i ∷ is) xs =
    let rest = index_select is xs in elim (get_elem? xs i) [ none ↦ rest | some x ↦ x ∷ rest ]

abbrev pub in_range : ℕ → List ℕ → Bool
in_range n [] = true
in_range n (i ∷ is) = ltb i n && in_range n is

-- The guards of `chunk`, on the batch size.
unfoldable pub chunk_indices : ℕ → ℕ → ℕ → Result (List ℕ)
chunk_indices rank chunks n =
    if chunks == 0
    then raise zero_division_error
    else if not (n % chunks == 0)
    then raise assertion_error
    else if leb (n / chunks) rank
    then raise assertion_error
    else if leb chunks rank
    then raise index_error
    else ok (range_from (rank * (n / chunks)) (n / chunks))

-- `sorted(zip(reorded_indices, indices), key=lambda pair: pair[0])`, and the second parts.
abbrev pub key_le : ℕ × ℕ → ℕ × ℕ → Bool
key_le p q = leb p.0 q.0

unfoldable pub new_order : List ℕ → ℕ → List ℕ
new_order reordered n = map (λ p. p.1) (sort key_le (take n (indexed_from 0 reordered)))

abbrev pub repeat_each : {A : Type 0} → ℕ → List A → List A
repeat_each n [] = []
repeat_each n (x ∷ xs) = replicate n x ++ repeat_each n xs

module _ {E : Type 0} where
  -- `len(v)`, `v.size(0)`
  abbrev pub rows : Column E → ℕ
  rows (vector xs) = length xs
  rows (matrix xs) = length xs
  rows (packed d xs) = length xs
  rows (plain xs) = length xs

  -- The same function of the rows, whatever the kind of column.
  abbrev pub on_rows : ((A : Type 0) → List A → List A) → Column E → Column E
  on_rows f (vector xs) = vector (f E xs)
  on_rows f (matrix xs) = matrix (f (List E) xs)
  on_rows f (packed d xs) = packed d (f E xs)
  on_rows f (plain xs) = plain (f E xs)

  abbrev pub on_data : ((A : Type 0) → List A → List A) → Columns E → Columns E
  on_data f [] = []
  on_data f ((k, v) ∷ cols) = (k, on_rows f v) ∷ on_data f cols

  -- The columns all have n rows.
  abbrev pub all_rows : ℕ → Columns E → Bool
  all_rows n [] = true
  all_rows n ((k, v) ∷ cols) = rows v == n && all_rows n cols

  -- The set of the batch sizes must have one element.
  unfoldable pub common_rows : Columns E → Result ℕ
  common_rows [] = raise assertion_error
  common_rows ((k, v) ∷ cols) =
      if all_rows (rows v) cols then ok (rows v) else raise assertion_error

  -- A `PackedTensor` of no tensors cannot be made.
  unfoldable pub sliceable : List ℕ → Column E → Bool
  sliceable [] (packed d xs) = false
  sliceable [] (vector xs) = true
  sliceable [] (matrix xs) = true
  sliceable [] (plain xs) = true
  sliceable (i ∷ is) v = true

  -- The rows at some indices of a column, which may be out of range.
  unfoldable pub rows_at : List ℕ → Column E → Result (Column E)
  unfolding index_select sliceable
  rows_at is v =
      if not (sliceable is v)
      then raise assertion_error
      else if in_range (rows v) is
      then ok (on_rows (λ A. index_select is) v)
      else raise index_error

  abbrev pub each_column : (Column E → Result (Column E)) → Columns E → Result (Columns E)
  each_column f [] = ok []
  each_column f ((k, v) ∷ cols) = f v >>= λ v'. each_column f cols >>= λ cols'. ok ((k, v') ∷ cols')

  unfoldable pub select_indices : List ℕ → Columns E → Result (Columns E)
  unfolding rows_at
  select_indices is = each_column (rows_at is)

  unfoldable pub chunk : ℕ → ℕ → Columns E → Result (Columns E)
  unfolding common_rows chunk_indices select_indices
  chunk rank chunks cols = do
    n ← common_rows cols
    indices ← chunk_indices rank chunks n
    select_indices indices cols

  unfoldable pub reorder_data : List ℕ → Columns E → Result (Columns E)
  unfolding common_rows new_order select_indices
  reorder_data reordered cols = do n ← common_rows cols; select_indices (new_order reordered n) cols

  -- `slice`, for one column: out of range a `PackedTensor` and a tensor raise, a list is cut.
  unfoldable pub slice_column : ℕ → ℕ → Column E → Result (Column E)
  unfolding rows_at
  slice_column first end (packed d xs) = rows_at (range_from first (end - first)) (packed d xs)
  slice_column first end (plain xs) = ok (plain (take (end - first) (drop first xs)))
  slice_column first end (vector xs) =
      if leb end (length xs)
      then ok (vector (take (end - first) (drop first xs)))
      else raise assertion_error
  slice_column first end (matrix xs) =
      if leb end (length xs)
      then ok (matrix (take (end - first) (drop first xs)))
      else raise assertion_error

  unfoldable pub slice : ℕ → ℕ → Columns E → Result (Columns E)
  unfolding slice_column
  slice first end = each_column (slice_column first end)

  unfoldable pub repeat_column : ℕ → Column E → Result (Column E)
  repeat_column n (packed d xs) = raise not_implemented_error
  repeat_column n (plain xs) = ok (plain (repeat_each n xs))
  repeat_column n (vector xs) = ok (vector (repeat_each n xs))
  repeat_column n (matrix xs) = ok (matrix (repeat_each n xs))

  unfoldable pub repeat_interleave : ℕ → Columns E → Result (Columns E)
  unfolding repeat_column
  repeat_interleave n = each_column (repeat_column n)

  -- `size`: `next(iter(self.cols))` raises on a batch without keys, before the test for that.
  unfoldable pub size : Columns E → Result ℕ
  size [] = raise stop_iteration
  size ((k, v) ∷ cols) = ok (rows v)
