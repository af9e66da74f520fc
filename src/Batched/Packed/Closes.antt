-- ===== src/Batched/Packed/Closes.antt =====
-- The loop over the chunks: what the shards hold after all of them.
use nemo_rl_vlm.Prelude.{
  true, All_get, ℕ, suc, ◌+◌, ◌*◌, ◌≤◌, ◌<◌, ◌≡◌, refl, ap, ◌∙◌, subst, List, [], ◌∷◌, flatten,
  some, ok, length, get_elem?, total, range_from, All, All-map, arith,
}
use nemo_rl_vlm.Prelude.Multiset.{SameItems}
use nemo_rl_vlm.Prelude.Ranges.{range_added}
use nemo_rl_vlm.Batched.{Columns, all_rows, each}
use nemo_rl_vlm.Batched.Packed.{Shard, add_bins, add_chunks, close_chunk}
use nemo_rl_vlm.Batched.Packed.Bins.{IsShard, close_chunk-IsShard}
use nemo_rl_vlm.Batched.Packed.Chunks.{held, row_tokens, IsBin, IsHeld, add_bins-IsHeld}

All-of_get_elem? :
    {A : Type 0} (P : A → Type 0) (xs : List A)
    → ((i : ℕ) (x : A) → i < length xs → get_elem? xs i ≡ some x → P x)
    → All P xs
All-of_get_elem? P [] h = tt
All-of_get_elem? P (x ∷ xs) h = (
  h 0 x (omega arith) refl,
  All-of_get_elem? P xs (λ i y lt e. h (suc i) y (omega (arith, lt)) e),
)

module _ {E : Type 0} (cap n : ℕ) (cols : Columns E) (tokens_of : ℕ → ℕ) where
  -- Shards after some chunks: none is empty after a chunk.
  abbrev pub IsClosed : ℕ → Shard E → Type 0
  IsClosed chunk shard =
      IsShard cap n cols tokens_of shard
      × (shard.chunk_micro_indices ≡ [])
      × (0 < chunk → 0 < length shard.global_indices)

  close_all :
      (chunk : ℕ) (shards : List (Shard E))
      → All
          (λ shard. IsShard cap n cols tokens_of shard × (0 < length shard.chunk_micro_indices))
          shards
      → (after : List (Shard E)) × (each close_chunk shards ≡ ok after)
        × All (IsClosed chunk) after
        × (length after ≡ length shards)
        × ((f : ℕ → ℕ) → held f after ≡ held f shards)
  unfolding each
  close_all chunk [] h = ([], refl, tt, refl, λ f. refl)
  close_all chunk (shard ∷ shards) ((shard_ok, some_bins), rest_ok) =
      let (closed, run, closed_ok, same, empty, some_rows) =
        close_chunk-IsShard cap n cols tokens_of shard shard_ok some_bins in
      let (after, runs, after_ok, number, weigh) = close_all chunk shards rest_ok in
      (
        closed ∷ after,
        rw (run, runs, each) refl,
        ((closed_ok, empty, λ _. some_rows), after_ok),
        ap suc number,
        λ f. let here = ap (total f) same in omega (arith, here, weigh f),
      )

module _ {E : Type 0} (cap n : ℕ) (cols : Columns E) (rows : all_rows n cols ≡ true) (multiple : ℕ)
    (pos : 0 < multiple) (seqlens : List ℕ) (enough : length seqlens ≡ n) (size batch_size : ℕ)
    (some_shards : 0 < size) where
  -- The bins of a chunk hold its rows, each once, and there is a bin for every shard.
  abbrev pub IsChunk : ℕ → List (List ℕ) → Type 0
  IsChunk chunk bins =
      All (IsBin cap n cols rows multiple pos seqlens enough (chunk * batch_size)) bins
      × (size ≤ length bins)
      × SameItems (flatten bins) (range_from 0 batch_size)

  abbrev pub AllChunks : ℕ → List (List (List ℕ)) → Type 0
  AllChunks chunk [] = Unit
  AllChunks chunk (bins ∷ rest) = IsChunk chunk bins × AllChunks (suc chunk) rest

  one_chunk :
      (chunk : ℕ) (bins : List (List ℕ)) (shards : List (Shard E))
      → IsChunk chunk bins
      → All (IsClosed cap n cols (row_tokens multiple seqlens) chunk) shards
      → length shards ≡ size
      → (filled after : List (Shard E)) × (add_bins multiple seqlens cols
            (chunk * batch_size)
            0
            bins
            shards
          ≡ ok filled)
        × (each close_chunk filled ≡ ok after)
        × All (IsClosed cap n cols (row_tokens multiple seqlens) (suc chunk)) after
        × (length after ≡ size)
        × ((f : ℕ → ℕ)
            → held f after ≡ held f shards + total f (range_from (chunk * batch_size) batch_size))
  one_chunk chunk bins shards (bins_ok, many, whole) shards_ok number =
      let start = chunk * batch_size in
      let begin : IsHeld cap n cols rows multiple pos seqlens enough size 0 shards = record {
        number = number;
        all_ok = All-map _ _ shards (λ shard h. h.0) shards_ok;
        filled = λ s shard lt e. absurd (omega (arith, lt));
      } in
      let (filled, run, is_held, weigh) =
        add_bins-IsHeld cap n cols rows multiple pos seqlens enough size start some_shards bins 0
          shards begin bins_ok in
      let (after, runs, after_ok, same_number, same) =
        close_all cap n cols (row_tokens multiple seqlens) (suc chunk) filled (
          All-of_get_elem? _ filled (λ i shard lt e. (
            All_get _ filled i shard is_held.all_ok e,
            is_held.filled i shard (omega (arith, lt, is_held.number, many)) e,
          ))) in
      (
        filled,
        after,
        run,
        runs,
        after_ok,
        same_number ∙ is_held.number,
        λ f. omega (
          arith,
          same f,
          weigh f,
          whole (λ i. f (i + start)),
          range_added f start 0 batch_size,
          ap (λ i. total f (range_from i batch_size))
              (let e : 0 + start ≡ start = omega arith in e),
        ),
      )

  -- All chunks, from one on.
  pub add_chunks-IsClosed :
      (chunk_bins : List (List (List ℕ))) (chunk : ℕ) (shards : List (Shard E))
      → AllChunks chunk chunk_bins
      → All (IsClosed cap n cols (row_tokens multiple seqlens) chunk) shards
      → length shards ≡ size
      → (after : List (Shard E)) × (add_chunks multiple seqlens cols batch_size chunk chunk_bins
            shards
          ≡ ok after)
        × All (IsClosed cap n cols (row_tokens multiple seqlens) (chunk + length chunk_bins)) after
        × (length after ≡ size)
        × ((f : ℕ → ℕ)
            → held f after
              ≡ held f shards
                + total
                    (λ c. total f (range_from (c * batch_size) batch_size))
                    (range_from chunk (length chunk_bins)))
  unfolding add_chunks
  add_chunks-IsClosed [] chunk shards h shards_ok number = (
    shards,
    refl,
    subst (λ k. All (IsClosed cap n cols (row_tokens multiple seqlens) k) shards) (omega arith)
        shards_ok,
    number,
    λ f. omega arith,
  )
  add_chunks-IsClosed (bins ∷ rest) chunk shards h shards_ok number =
      let (filled, closed, run, runs, closed_ok, same, weigh) =
        one_chunk chunk bins shards h.0 shards_ok number in
      let (after, all_run, after_ok, number', weighs) =
        add_chunks-IsClosed rest (suc chunk) closed h.1 closed_ok same in
      (
        after,
        rw (run, runs, add_chunks) all_run,
        subst (λ k. All (IsClosed cap n cols (row_tokens multiple seqlens) k) after) (omega arith)
            after_ok,
        number',
        λ f. omega (arith, weighs f, weigh f),
      )
