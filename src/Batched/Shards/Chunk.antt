-- ===== src/Batched/Shards/Chunk.antt =====
-- `chunk` and the shards of the whole batch.
use mathlib.Core.List.{append-nil}
use native.Mathlib.Nat.{div_self, mod_self, mul_comm, mul-le-mul_right}
use nemo_rl_vlm.Prelude.{
  ℕ, zero, List, length, length-map, get_elem?, some, suc, ◌+◌, ◌-◌, ◌*◌, ◌/◌, ◌%◌, ◌≤◌, ◌<◌, ◌≡◌,
  refl, sym, ap, ◌∙◌, ◌⊎◌, inl, inr, map, flatten, none, false, ok, raise, assertion_error, leb,
  leb→le, leb_false→lt, Bool-cases, range_from, length-range_from, All, All-map, arith,
}
use nemo_rl_vlm.Batched.{Columns, on_data, index_select, chunk, chunk_indices}
use nemo_rl_vlm.Batched.Rows.{range_from-lt}
use nemo_rl_vlm.Batched.Columnwise.{
  IsBatch, IsBatch-all_rows, common_rows-IsBatch, select_indices-ok,
}
use nemo_rl_vlm.Batched.Shards.{Sizes, sub_shard, shard_by_batch_size}
use nemo_rl_vlm.Batched.Shards.Partition.{shard_rows}
use nemo_rl_vlm.Batched.Shards.Outcome.{
  quotient, is_pos, is_zero, sizes_even, even_sizes, shard_by_batch_size-even,
}

map-range_from-get :
    {A : Type 0} (f : ℕ → A) (i n k : ℕ)
    → k < n
    → get_elem? (map f (range_from i n)) k ≡ some (f (i + k))
map-range_from-get f i zero k h = absurd (omega (arith, h))
map-range_from-get f i (suc n) zero h = ap (λ j. some (f j)) (omega arith)
map-range_from-get f i (suc n) (suc k) h =
    map-range_from-get f (suc i) n k (omega (arith, h)) ∙ ap (λ j. some (f j)) (omega arith)

module _ {E : Type 0} (n chunks rank : ℕ) (cols : Columns E) (batch : IsBatch n cols) (pos : 0 < n)
    (exists : rank < chunks) (divides : n % chunks ≡ 0) where
  one_chunk : Sizes
  one_chunk = even_sizes n chunks pos (omega (arith, exists)) n

  -- The rows of a shard of the whole batch.
  shard_rows_one : shard_rows one_chunk false rank ≡ range_from (rank * (n / chunks)) (n / chunks)
  unfolding one_chunk shard_rows sub_shard flatten
  shard_rows_one =
      let part = n / chunks in
      let single : n / n ≡ 1 = div_self pos in
      ap (λ m. flatten (map (sub_shard one_chunk false rank) (range_from 0 m))) single
      ∙ append-nil (sub_shard one_chunk false rank 0)
      ∙ ap (λ i. range_from i (0 * n + (rank + 1) * part - (0 * n + rank * part))) (omega arith)
      ∙ ap (range_from (rank * part)) (omega arith)

  inside : All (λ i. i < n) (range_from (rank * (n / chunks)) (n / chunks))
  inside =
      let whole : chunks * (n / chunks) ≡ n =
        mul_comm chunks (n / chunks) ∙ quotient n chunks divides in
      let within : suc rank * (n / chunks) ≤ chunks * (n / chunks) =
        mul-le-mul_right (n / chunks) (omega (arith, exists)) in
      All-map _ _ (range_from (rank * (n / chunks)) (n / chunks))
        (λ i h. omega (arith, h, within, whole)) (range_from-lt (rank * (n / chunks)) (n / chunks))

  -- For a rank below the number of chunks, which divides the rows, at least one: `shard_by_batch_size` without a batch
  -- size returns as many shards as there are chunks, and if the rank is also below the number of rows of a chunk, `chunk`
  -- returns the shard of that rank. Else it raises AssertionError.
  pub chunk-Outcome :
      (shards : List (Columns E)) × (shard_by_batch_size chunks none false cols ≡ ok shards)
      × (length shards ≡ chunks)
      × (((rank < n / chunks)
            × (part : Columns E) × (get_elem? shards rank ≡ some part)
            × (chunk rank chunks cols ≡ ok part))
          ⊎ ((n / chunks ≤ rank) × (chunk rank chunks cols ≡ raise assertion_error)))
  unfolding chunk chunk_indices one_chunk
  chunk-Outcome =
      let found =
        sizes_even n chunks pos (omega (arith, exists)) none pos (omega (arith, mod_self n))
          divides in
      let (z, sized, (sharded, _), _) =
        shard_by_batch_size-even n chunks pos (omega (arith, exists)) cols batch none pos
          (omega (arith, mod_self n)) divides in
      let same : z ≡ one_chunk =
        ap (λ r. elim r [ raise e ↦ one_chunk | ok y ↦ y ]) (sym sized ∙ found) in
      let shard : ℕ → Columns E = λ s. on_data (λ A. index_select (shard_rows z false s)) cols in
      let some_chunks = is_pos chunks (omega (arith, exists)) in
      let divides' = is_zero (n % chunks) divides in
      let rank_exists : leb chunks rank ≡ false = ground (arith, exists) in
      let rows = common_rows-IsBatch n cols batch in
      (
        map shard (range_from 0 chunks),
        sharded,
        length-map (range_from 0 chunks) shard ∙ length-range_from 0 chunks,
        elim (Bool-cases (leb (n / chunks) rank)) [
          | inl e ↦ inr (leb→le (n / chunks) rank e, rw (rows, some_chunks, divides', e) refl)
          | inr e ↦
              let some_rows = leb_false→lt (n / chunks) rank e in
              inl (
                some_rows,
                shard rank,
                map-range_from-get shard 0 chunks rank exists
                    ∙ ap (λ s. some (shard s)) (let e : 0 + rank ≡ rank = omega arith in e),
                rw (rows, some_chunks, divides', e, rank_exists)
                    (select_indices-ok n (range_from (rank * (n / chunks)) (n / chunks)) cols inside
                        (inl (
                          omega (
                            arith,
                            length-range_from (rank * (n / chunks)) (n / chunks),
                            some_rows,
                          )))
                        (IsBatch-all_rows n cols batch)
                      ∙ ap (λ is. ok (on_data (λ A. index_select is) cols)) (sym shard_rows_one)
                      ∙ ap (λ y. ok (on_data (λ A. index_select (shard_rows y false rank)) cols))
                          (sym same)),
              )
        ],
      )
