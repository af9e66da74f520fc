-- ===== src/Batched/Packed/Restores.antt =====
-- From the shards of sequence packing back to the batch (nemo_rl/distributed/batched_data_dict.py): `from_batches` on the
-- shards, then `reorder_data` with the order that `shard_by_batch_size` returns.
use nemo_rl_vlm.Prelude.{
  ℕ, ◌%◌, ◌≤◌, ◌<◌, ◌≡◌, refl, sym, ap, ◌∙◌, subst, inl, inr, List, [], ◌∷◌, map, flatten, Option,
  true, false, ok, raise, value_error, ◌⊎◌, length, total_one, range_from, length-range_from, All,
  All-map, ◌==◌, ==_refl, leb, ltb, if◌then◌else◌, Bool-cases, List-cases, arith, tests,
}
use nemo_rl_vlm.Prelude.Sort.{sort, insert_sorted, All-sort, length-sort, sort-IsSorted, sort_id}
use nemo_rl_vlm.Prelude.Multiset.{SameItems, All-of_SameItems}
use nemo_rl_vlm.Packing.Pack.{Algorithm, chosen}
use nemo_rl_vlm.Batched.{
  Column, Columns, Batch, rows, all_rows, on_data, index_select, reorder_data,
}
use nemo_rl_vlm.Batched.Rows.{range_from-lt}
use nemo_rl_vlm.Batched.Columnwise.{IsBatch, is_batch}
use nemo_rl_vlm.Batched.Reorder.{reorder_data-index_select}
use nemo_rl_vlm.Batched.Shards.{or_else}
use nemo_rl_vlm.Batched.Dynamic.{column}
use nemo_rl_vlm.Batched.Stack.{from_batches, key_before}
use nemo_rl_vlm.Batched.Stack.Laws.{IsRegular, from_batches-parts}
use nemo_rl_vlm.Batched.Packed.{PackingArgs, input_lens, shard_packed}
use nemo_rl_vlm.Batched.Packed.Chunks.{rounded}
use nemo_rl_vlm.Batched.Packed.Packs.{TooFew}
use nemo_rl_vlm.Batched.Packed.Outcome.{AllPacked, shard_packer, shard_packed-Outcome}

length-permuted : (n : ℕ) (is : List ℕ) → SameItems is (range_from 0 n) → length is ≡ n
length-permuted n is whole =
    sym (total_one {0} is) ∙ whole (λ _. 1) ∙ total_one {0} (range_from 0 n) ∙ length-range_from 0 n

module _ {E : Type 0} where
  column-insert_sorted :
      (k l : ℕ) (v : Column E) (cols : Columns E)
      → column k (insert_sorted key_before (l, v) cols) ≡ column k ((l, v) ∷ cols)
  unfolding insert_sorted
  column-insert_sorted k l v [] = refl
  column-insert_sorted k l v ((m, u) ∷ cols) =
      let rest = column-insert_sorted k l v cols in
      elim (Bool-cases (leb l m)) [
        | inl e ↦ rw (e, insert_sorted) refl
        | inr e ↦ rw (e, insert_sorted) (ground (arith, rest))
      ]

  -- The columns of a batch in the order of their keys are found as before.
  column-sort : (k : ℕ) (cols : Columns E) → column k (sort key_before cols) ≡ column k cols
  unfolding sort
  column-sort k [] = refl
  column-sort k ((l, v) ∷ cols) =
      column-insert_sorted k l v (sort key_before cols)
      ∙ ap (λ r. if l == k then ok v else r) (column-sort k cols)

  sort-IsRegular :
      (n : ℕ) (cols : Columns E) → IsRegular n cols → IsRegular n (sort key_before cols)
  sort-IsRegular n cols h =
      All-sort key_before _ cols
        (All-map _ _ cols (λ p q. (column-sort p.0 cols ∙ q.0, q.1, q.2)) h)

  regular_rows : (n : ℕ) (cols : Columns E) → All (λ p. rows p.1 ≡ n) cols → all_rows n cols ≡ true
  regular_rows n [] h = refl
  regular_rows n ((k, v) ∷ cols) h = rw (h.0, ==_refl n, regular_rows n cols h.1) refl

  rows-IsBatch :
      (n : ℕ) (cols : Columns E) → all_rows n cols ≡ true → 0 < length cols → IsBatch n cols
  rows-IsBatch n [] h pos = absurd (omega (arith, pos))
  rows-IsBatch n ((k, v) ∷ cols) h pos = is_batch k v cols h

  some_columns : (n : ℕ) (cols : Columns E) → IsBatch n cols → 0 < length cols
  some_columns n _ (is_batch k v cols h) = omega arith

  sort-IsBatch :
      (n : ℕ) (cols : Columns E)
      → IsBatch n cols
      → IsRegular n cols
      → IsBatch n (sort key_before cols)
  sort-IsBatch n cols batch regular =
      rows-IsBatch n (sort key_before cols)
        (regular_rows n (sort key_before cols)
          (All-map _ _ (sort key_before cols) (λ p q. q.1) (sort-IsRegular n cols regular)))
        (omega (arith, length-sort key_before cols, some_columns n cols batch))

  sort-sort : (cols : Columns E) → sort key_before (sort key_before cols) ≡ sort key_before cols
  sort-sort cols = sort_id key_before (sort key_before cols) (
      sort-IsSorted key_before (λ x y z h k. ground (arith, h, k)) (λ x y h. ground (arith, h))
        cols)

  AllPacked-columns :
      (cap n : ℕ) (cols : Columns E) (tokens_of : ℕ → ℕ) (batches : List (Batch E))
      (iss : List (List ℕ))
      → AllPacked cap n cols tokens_of batches iss
      → map (λ batch. batch.columns) batches
        ≡ map (λ is. on_data (λ A. index_select is) (sort key_before cols)) iss
  AllPacked-columns cap n cols tokens_of [] [] h = refl
  AllPacked-columns cap n cols tokens_of [] (is ∷ iss) h = elim h [ ]
  AllPacked-columns cap n cols tokens_of (batch ∷ batches) [] h = elim h [ ]
  AllPacked-columns cap n cols tokens_of (batch ∷ batches) (is ∷ iss) h =
      let here = h.0.0 in let rest = AllPacked-columns cap n cols tokens_of batches iss h.1 in cc

  -- The parts of a batch, stacked, and put in the order that the indices stand for, are the batch again.
  parts-restore :
      (pad_values : ℕ → E) (n : ℕ) (cols : Columns E) (iss : List (List ℕ))
      → 0 < n
      → IsBatch n cols
      → IsRegular n cols
      → SameItems (flatten iss) (range_from 0 n)
      → (stacked : Columns E) × (from_batches pad_values
            (map (λ is. on_data (λ A. index_select is) (sort key_before cols)) iss)
          ≡ ok stacked)
        × (reorder_data (flatten iss) stacked ≡ ok (sort key_before cols))
  unfolding flatten
  parts-restore pad_values n cols iss pos batch regular whole = elim (List-cases iss) [
    | inl e ↦
        let none : length (flatten iss) ≡ 0 = ap (λ l. length (flatten l)) e in
        absurd (omega (arith, length-permuted n (flatten iss) whole, none, pos))
    | inr (is, parts, e) ↦
        let sorted = sort key_before cols in
        let whole' = subst (λ l. SameItems (flatten l) (range_from 0 n)) e whole in
        let inside : All (λ i. i < n) (flatten (is ∷ parts)) =
          All-map _ _ (flatten (is ∷ parts)) (λ i h. omega (tests, h))
            (All-of_SameItems (λ i. ltb i n) (range_from 0 n) (flatten (is ∷ parts)) whole'
              (All-map _ _ (range_from 0 n) (λ i h. omega (tests, h)) (range_from-lt 0 n))) in
        let number = length-permuted n (flatten (is ∷ parts)) whole' in
        let stacks =
          from_batches-parts pad_values n sorted is parts inside (omega (arith, number, pos))
            (sort-IsRegular n cols regular)
          ∙ ap (λ c. ok (on_data (λ A. index_select (flatten (is ∷ parts))) c)) (sort-sort cols) in
        (
          on_data (λ A. index_select (flatten (is ∷ parts))) sorted,
          rw e stacks,
          rw e (
              reorder_data-index_select n (flatten (is ∷ parts)) whole' sorted
                (sort-IsBatch n cols batch regular) pos),
        )
  ]

-- What the shards stack to, and that its rows come back into the order of the batch; or why there are no shards.
abbrev pub RestoreOutcome :
    {E : Type 0}
    → (E → ℕ)
    → (ℕ → List (ℕ × ℕ) → List (ℕ × ℕ))
    → (ℕ → E)
    → PackingArgs
    → Algorithm
    → ℕ
    → ℕ
    → Option ℕ
    → Columns E
    → List ℕ
    → Type 0
RestoreOutcome {E} item shuffle pad_values args algorithm n shards size cols seqlens =
    ((batches : List (Batch E)) × (order : List ℕ) × (stacked : Columns E) × (shard_packed item
          shuffle pad_values args shards size false cols
        ≡ ok (batches, order))
      × (from_batches pad_values (map (λ batch. batch.columns) batches) ≡ ok stacked)
      × (reorder_data order stacked ≡ ok (sort key_before cols)))
    ⊎ ((shard_packed item shuffle pad_values args shards size false cols ≡ raise value_error)
        × TooFew shuffle algorithm (shard_packer args.max_tokens_per_microbatch shards)
            args.sequence_length_pad_multiple (or_else size n) seqlens)

module _ {E : Type 0} (item : E → ℕ) (shuffle : ℕ → List (ℕ × ℕ) → List (ℕ × ℕ))
    (shuffles : (chunk : ℕ) (items : List (ℕ × ℕ)) → SameItems (shuffle chunk items) items)
    (pad_values : ℕ → E) (args : PackingArgs) (algorithm : Algorithm)
    (named : chosen args.algorithm ≡ ok algorithm)
    (some_tokens : 0 < args.max_tokens_per_microbatch)
    (some_multiple : 0 < args.sequence_length_pad_multiple) (n shards : ℕ) (size : Option ℕ)
    (some_n : 0 < n) (some_shards : 0 < shards) (some_rows : 0 < or_else size n)
    (chunks : n % or_else size n ≡ 0) (parts : or_else size n % shards ≡ 0) where
  -- For `shard_by_batch_size` with sequence packing, by any of the four algorithms and any order that the shuffle makes,
  -- let the batch have n rows, at least one, each key once and tensors of one width, the batch size divide n and
  -- the shards the batch size, and every padded length be positive and within the maximum. Then it returns shards,
  -- the columns of which `from_batches` stacks without an error, and an order with which `reorder_data` brings the
  -- rows of the stacked columns back to those of the batch, with the keys in order. Or it raises ValueError, and
  -- then one of the chunks of the batch has fewer sequences than the bins that are wanted for it.
  pub shard_packed-reorder_data :
      (cols : Columns E) (v : Column E) (seqlens : List ℕ)
      → IsBatch n cols
      → IsRegular n cols
      → column args.input_lengths_key cols ≡ ok v
      → input_lens item v ≡ ok seqlens
      → length seqlens ≡ n
      → All
          (λ len.
            (0 < rounded args.sequence_length_pad_multiple len)
            × (rounded args.sequence_length_pad_multiple len ≤ args.max_tokens_per_microbatch))
          seqlens
      → RestoreOutcome item shuffle pad_values args algorithm n shards size cols seqlens
  shard_packed-reorder_data cols v seqlens batch regular found lens enough packable =
      elim (shard_packed-Outcome item shuffle shuffles pad_values args algorithm named some_tokens
        some_multiple n shards size some_n some_shards some_rows chunks parts cols v seqlens batch
        regular found lens enough packable) [
          | inr (raises, few) ↦ inr (raises, few)
          | inl (batches, iss, runs, whole, number, all_packed) ↦
              let (stacked, stacks, restores) =
                parts-restore pad_values n cols iss some_n batch regular whole in
              inl (
                batches,
                flatten iss,
                stacked,
                runs,
                ap (from_batches pad_values) (
                      AllPacked-columns args.max_tokens_per_microbatch n cols _ batches iss
                        all_packed)
                    ∙ stacks,
                restores,
              )
        ]
