-- ===== src/Batched/Packed/Outcome.antt =====
-- What `shard_by_batch_size` returns with sequence packing.
use nemo_rl_vlm.Prelude.{
  ℕ, zero, suc, ◌+◌, ◌-◌, ◌*◌, ◌/◌, ◌%◌, ◌≤◌, ◌<◌, ◌≡◌, refl, sym, ap, ◌∙◌, subst, ◌⊎◌, inl, inr,
  List, [], ◌∷◌, ◌++◌, map, flatten, Option, some, false, ok, raise, value_error, length,
  length-replicate, replicate, sum, total, range_from, All, arith, ltb, List-cases,
}
use mathlib.Core.List.{append-nil}
use nemo_rl_vlm.Prelude.Int.{pos}
use nemo_rl_vlm.Prelude.Sort.{sort}
use nemo_rl_vlm.Prelude.Multiset.{SameItems}
use nemo_rl_vlm.Prelude.Ranges.{total-flatten-map, total-blocks, range_whole, total_same}
use nemo_rl_vlm.Packing.Base.{Packer, init, init-IsValid}
use nemo_rl_vlm.Packing.Pack.{Algorithm, chosen, get_packer}
use nemo_rl_vlm.Batched.{Column, Columns, Batch, on_data, index_select, each}
use nemo_rl_vlm.Batched.Columnwise.{IsBatch, IsBatch-all_rows, common_rows-IsBatch}
use nemo_rl_vlm.Batched.Shards.{or_else, check_uneven}
use nemo_rl_vlm.Batched.Shards.Outcome.{quotient, quotient_pos, sizes_even, even_sizes}
use nemo_rl_vlm.Batched.Dynamic.{column}
use nemo_rl_vlm.Batched.Stack.{key_before}
use nemo_rl_vlm.Batched.Stack.Laws.{IsRegular, from_batches-parts}
use nemo_rl_vlm.Batched.Packed.{
  PackingArgs, Shard, new_shard, last_end, end_or_zero, make_batch, input_lens, shard_packed,
}
use nemo_rl_vlm.Batched.Packed.Bins.{Closed, extent, new_shard-IsShard}
use nemo_rl_vlm.Batched.Packed.Chunks.{rounded, row_tokens, held}
use nemo_rl_vlm.Batched.Packed.Closes.{IsClosed, add_chunks-IsClosed}
use nemo_rl_vlm.Batched.Packed.Packs.{TooFew, pack_chunks-Outcome}

no_items : {A : Type 0} (xs : List A) → length xs ≡ 0 → xs ≡ []
no_items [] h = refl
no_items (x ∷ xs) h = absurd (omega (arith, h))

module _ {E : Type 0} (cap n : ℕ) (cols : Columns E) (tokens_of : ℕ → ℕ) where
  -- The columns of the batch at some indices, with the keys in order, cut for each chunk into micro-batches that
  -- follow each other and have no more tokens than the maximum; the tokens of a micro-batch are those of its rows.
  abbrev pub IsPackedBatch : Batch E → List ℕ → Type 0
  IsPackedBatch batch is =
      (batch.columns ≡ on_data (λ A. index_select is) (sort key_before cols))
      × (micro_indices : List (List (ℕ × ℕ))) × (micro_lengths : List (List ℕ)) × (counts : List ℕ)
      × (batch.micro_batch_indices ≡ some micro_indices)
      × (batch.micro_batch_lengths ≡ some micro_lengths)
      × (batch.elem_counts_per_gb ≡ some counts)
      × Closed cap micro_indices micro_lengths counts
      × (sum counts ≡ length is)
      × (parts : List (List ℕ)) × (flatten parts ≡ is)
      × (map extent (flatten micro_indices) ≡ map (λ part. length part) parts)
      × (flatten micro_lengths ≡ map (total tokens_of) parts)

  abbrev pub AllPacked : List (Batch E) → List (List ℕ) → Type 0
  AllPacked [] [] = Unit
  AllPacked (batch ∷ batches) (is ∷ iss) = IsPackedBatch batch is × AllPacked batches iss
  AllPacked _ _ = ⊥

  module _ (pad_values : ℕ → E) (regular : IsRegular n cols) where
    make_batch-IsPackedBatch :
        (chunk : ℕ) (shard : Shard E)
        → IsClosed cap n cols tokens_of (suc chunk) shard
        → (batch : Batch E) × (make_batch pad_values shard ≡ ok batch)
          × IsPackedBatch batch shard.global_indices
    unfolding make_batch flatten
    make_batch-IsPackedBatch chunk shard (h, empty, full) = elim (List-cases h.parts) [
      | inl e ↦ absurd (omega (arith, full (omega arith), ap length (sym h.flat ∙ ap flatten e)))
      | inr (is, parts, e) ↦
          let all : flatten (is ∷ parts) ≡ shard.global_indices = ap flatten (sym e) ∙ h.flat in
          let stacked =
            from_batches-parts pad_values n cols is parts
              (subst (All (λ i. i < n)) (sym all) h.inside)
              (subst (λ l. 0 < length l) (sym all) (full (omega arith))) regular in
          let no_lengths =
            no_items shard.chunk_micro_lengths (omega (arith, h.same_number, ap length empty)) in
          let no_rest = ap (λ l. end_or_zero (last_end l)) empty in
          (
            record {
              columns = on_data (λ A. index_select shard.global_indices) (sort key_before cols);
              micro_batch_indices = some shard.micro_indices;
              micro_batch_lengths = some shard.micro_lengths;
              elem_counts_per_gb = some shard.elem_counts;
            },
            rw (h.bins_are, e, stacked, all) refl,
            (
              refl,
              shard.micro_indices,
              shard.micro_lengths,
              shard.elem_counts,
              refl,
              refl,
              refl,
              h.closed,
              omega (arith, h.counts, no_rest),
              h.parts,
              h.flat,
              ap (map extent) (
                    sym (append-nil (flatten shard.micro_indices))
                    ∙ ap (λ l. flatten shard.micro_indices ++ l) (sym empty))
                  ∙ h.extents,
              sym (append-nil (flatten shard.micro_lengths))
                  ∙ ap (λ l. flatten shard.micro_lengths ++ l) (sym no_lengths)
                  ∙ h.tokens,
            ),
          )
    ]

    make_batches :
        (chunk : ℕ) (shards : List (Shard E))
        → All (IsClosed cap n cols tokens_of (suc chunk)) shards
        → (batches : List (Batch E)) × (each (make_batch pad_values) shards ≡ ok batches)
          × (length batches ≡ length shards)
          × AllPacked batches (map (λ shard. shard.global_indices) shards)
    unfolding each
    make_batches chunk [] h = ([], refl, refl, tt)
    make_batches chunk (shard ∷ shards) h =
        let (batch, run, packed_ok) = make_batch-IsPackedBatch chunk shard h.0 in
        let (batches, runs, number, all_packed) = make_batches chunk shards h.1 in
        (batch ∷ batches, rw (run, runs, each) refl, ap suc number, (packed_ok, all_packed))

new_shards :
    {E : Type 0} (cap n : ℕ) (cols : Columns E) (tokens_of : ℕ → ℕ) (shards : ℕ)
    → All (IsClosed cap n cols tokens_of 0) (replicate shards new_shard)
new_shards cap n cols tokens_of zero = tt
new_shards cap n cols tokens_of (suc shards) = (
  (new_shard-IsShard cap n cols tokens_of, refl, λ lt. absurd (omega (arith, lt))),
  new_shards cap n cols tokens_of shards,
)

held_none : (E : Type 0) (f : ℕ → ℕ) (shards : ℕ) → held {E = E} f (replicate shards new_shard) ≡ 0
held_none E f zero = refl
held_none E f (suc shards) = omega (arith, held_none E f shards)

-- The packer that gets at least one bin for every shard, and as many for each.
abbrev pub shard_packer : ℕ → ℕ → Packer
shard_packer cap shards = record {
  bin_capacity = cap;
  min_bin_count = some shards;
  bin_count_multiple = some shards;
}

shard_packer-init :
    (cap shards : ℕ)
    → 0 < shards
    → init cap (some (pos shards)) (some (pos shards)) ≡ ok (shard_packer cap shards)
unfolding init
shard_packer-init cap shards h =
    let some_shards : ltb shards 1 ≡ false = ground (arith, h) in rw some_shards refl

all_chunk_rows : ℕ → (ℕ → ℕ) → ℕ → ℕ
all_chunk_rows b f m = total (λ c. total f (range_from (c * b) b)) (range_from 0 m)

rows_of_chunks :
    (b : ℕ) (f : ℕ → ℕ) (m n : ℕ) → m * b ≡ n → 0 + all_chunk_rows b f m ≡ total f (range_from 0 n)
unfolding all_chunk_rows
rows_of_chunks b f m n h =
    let none : 0 + all_chunk_rows b f m ≡ all_chunk_rows b f m = omega arith in
    none
    ∙ total_same _ _ (range_from 0 m) (λ c. ap (λ k. total f (range_from (c * b) k)) (omega arith))
    ∙ total-blocks (λ c. c * b) (λ c. omega arith) f 0 m
    ∙ range_whole f _ _ n (omega arith)
        (omega (arith, h, ap (λ q. q * b) (let e : 0 + m ≡ m = omega arith in e)))

-- What is returned, or why not: the shards, with the indices that each of them has, or a ValueError for want of
-- sequences.
abbrev pub PackedOutcome :
    {E : Type 0}
    → (E → ℕ)
    → (ℕ → List (ℕ × ℕ) → List (ℕ × ℕ))
    → (ℕ → E)
    → PackingArgs
    → Algorithm
    → ℕ
    → ℕ
    → Option ℕ
    → Columns E
    → List ℕ
    → Type 0
PackedOutcome {E} item shuffle pad_values args algorithm n shards size cols seqlens =
    ((batches : List (Batch E)) × (iss : List (List ℕ)) × (shard_packed item shuffle pad_values args
          shards size false cols
        ≡ ok (batches, flatten iss))
      × SameItems (flatten iss) (range_from 0 n)
      × (length batches ≡ shards)
      × AllPacked args.max_tokens_per_microbatch n cols
          (row_tokens args.sequence_length_pad_multiple seqlens) batches iss)
    ⊎ ((shard_packed item shuffle pad_values args shards size false cols ≡ raise value_error)
        × TooFew shuffle algorithm (shard_packer args.max_tokens_per_microbatch shards)
            args.sequence_length_pad_multiple (or_else size n) seqlens)

module _ {E : Type 0} (item : E → ℕ) (shuffle : ℕ → List (ℕ × ℕ) → List (ℕ × ℕ))
    (shuffles : (chunk : ℕ) (items : List (ℕ × ℕ)) → SameItems (shuffle chunk items) items)
    (pad_values : ℕ → E) (args : PackingArgs) (algorithm : Algorithm)
    (named : chosen args.algorithm ≡ ok algorithm)
    (some_tokens : 0 < args.max_tokens_per_microbatch)
    (some_multiple : 0 < args.sequence_length_pad_multiple) (n shards : ℕ) (size : Option ℕ)
    (some_n : 0 < n) (some_shards : 0 < shards) (some_rows : 0 < or_else size n)
    (chunks : n % or_else size n ≡ 0) (parts : or_else size n % shards ≡ 0) where
  pub shard_packed-Outcome :
      (cols : Columns E) (v : Column E) (seqlens : List ℕ)
      → IsBatch n cols
      → IsRegular n cols
      → column args.input_lengths_key cols ≡ ok v
      → input_lens item v ≡ ok seqlens
      → length seqlens ≡ n
      → All
          (λ len.
            (0 < rounded args.sequence_length_pad_multiple len)
            × (rounded args.sequence_length_pad_multiple len ≤ args.max_tokens_per_microbatch))
          seqlens
      → PackedOutcome item shuffle pad_values args algorithm n shards size cols seqlens
  unfolding shard_packed check_uneven get_packer all_chunk_rows
  shard_packed-Outcome cols v seqlens batch regular found lens enough packable =
      let cap = args.max_tokens_per_microbatch in
      let multiple = args.sequence_length_pad_multiple in
      let b = or_else size n in
      let z = even_sizes n shards some_n some_shards b in
      let rows = IsBatch-all_rows n cols batch in
      let packer_init = shard_packer-init cap shards some_shards in
      let all_rows_once : n / b * b ≡ n = quotient n b chunks in
      let started = common_rows-IsBatch n cols batch in
      let sized = sizes_even n shards some_n some_shards size some_rows chunks parts in
      elim (pack_chunks-Outcome cap n cols rows multiple some_multiple seqlens enough shards b
        some_shards shuffle shuffles args refl algorithm (shard_packer cap shards)
        (init-IsValid cap (some (pos shards)) (some (pos shards)) packer_init) refl refl some_tokens
        packable 0 (n / b)
        (omega
          (arith, all_rows_once, ap (λ q. q * b) (let e : 0 + n / b ≡ n / b = omega arith in e)))) [
            | inr (raises, few) ↦
                inr (rw (started, sized, named, packer_init, found, lens, raises) refl, few)
            | inl (chunk_bins, run, all_chunks, number) ↦
                let (filled, all_run, closed, count, weigh) =
                  add_chunks-IsClosed cap n cols rows multiple some_multiple seqlens enough shards b
                    some_shards chunk_bins 0 (replicate shards new_shard) all_chunks
                    (new_shards cap n cols (row_tokens multiple seqlens) shards)
                    (length-replicate shards new_shard) in
                let after_one : 0 + length chunk_bins ≡ suc (n / b - 1) =
                  omega (arith, number, quotient_pos n b chunks some_n) in
                let (batches, made, number', all_packed) =
                  make_batches cap n cols (row_tokens multiple seqlens) pad_values regular
                    (n / b - 1) filled
                    (subst (λ k. All (IsClosed cap n cols (row_tokens multiple seqlens) k) filled)
                      after_one closed) in
                inl (
                  batches,
                  map (λ shard. shard.global_indices) filled,
                  rw (started, sized, named, packer_init, found, lens, run, all_run, made) refl,
                  λ f.
                      total-flatten-map f (λ shard. shard.global_indices) filled
                      ∙ weigh f
                      ∙ ap (λ m. m + all_chunk_rows b f (length chunk_bins)) (held_none E f shards)
                      ∙ ap (λ m. 0 + all_chunk_rows b f m) number
                      ∙ rows_of_chunks b f (n / b) n all_rows_once,
                  number' ∙ count,
                  all_packed,
                )
          ]
