-- ===== src/Batched/Packed/Packs.antt =====
-- The bins that the packer makes of each chunk.
use nemo_rl_vlm.Prelude.{
  ℕ, zero, suc, ◌+◌, ◌*◌, ◌≤◌, ◌<◌, ◌≡◌, refl, sym, ap, ◌∙◌, subst, ◌⊎◌, inl, inr, List, [], ◌∷◌,
  map, flatten, some, true, ok, raise, value_error, length, length-map, length-take, length-drop,
  get_or, take, drop, total, range_from, All, All-map, arith, ltb, tests,
}
use nemo_rl_vlm.Prelude.Multiset.{SameItems, All-of_SameItems}
use nemo_rl_vlm.Packing.Base.{Packer, IsPacking, IsValid}
use nemo_rl_vlm.Packing.Adjust.{target_bin_count}
use nemo_rl_vlm.Packing.Modified.Packs.{Packable}
use nemo_rl_vlm.Packing.Pack.{Algorithm, pack_implementation}
use nemo_rl_vlm.Packing.Pack.Total.{pack_total}
use nemo_rl_vlm.Packing.Adjust.Target.{LeOption, target_bin_count-Allowed}
use nemo_rl_vlm.Batched.{Columns, all_rows, each}
use nemo_rl_vlm.Batched.Rows.{range_from-lt}
use nemo_rl_vlm.Batched.Shards.Gathers.{each_ok}
use nemo_rl_vlm.Batched.Shards.Outcome.{All-flatten, All-both}
use nemo_rl_vlm.Batched.Packed.{PackingArgs, pack_chunk, padded_seqlen}
use nemo_rl_vlm.Batched.Packed.Chunks.{rounded, padded_seqlen-rounded}
use nemo_rl_vlm.Batched.Packed.Closes.{IsChunk, AllChunks}

get_or-take-drop :
    (f : ℕ → ℕ) (b s : ℕ) (xs : List ℕ) (i j : ℕ)
    → i < b
    → i + s ≡ j
    → j < length xs
    → get_or (map f (take b (drop s xs))) i 0 ≡ f (get_or xs j 0)
get_or-take-drop f zero s xs i j h e k = absurd (omega (arith, h))
get_or-take-drop f (suc b) s [] i j h e k = absurd (omega (arith, k))
get_or-take-drop f (suc b) (suc s) (x ∷ xs) i zero h e k = absurd (omega (arith, e))
get_or-take-drop f (suc b) (suc s) (x ∷ xs) i (suc j) h e k =
    get_or-take-drop f (suc b) s xs i j h (omega (arith, e)) (omega (arith, k))
get_or-take-drop f (suc b) zero (x ∷ xs) zero zero h e k = refl
get_or-take-drop f (suc b) zero (x ∷ xs) zero (suc j) h e k = absurd (omega (arith, e))
get_or-take-drop f (suc b) zero (x ∷ xs) (suc i) zero h e k = absurd (omega (arith, e))
get_or-take-drop f (suc b) zero (x ∷ xs) (suc i) (suc j) h e k =
    get_or-take-drop f b zero xs i j (omega (arith, h)) (omega (arith, e)) (omega (arith, k))

length-take-drop : (b s : ℕ) (xs : List ℕ) → s + b ≤ length xs → length (take b (drop s xs)) ≡ b
length-take-drop b s xs h = omega (arith, length-take {0} b (drop s xs), length-drop {0} s xs, h)

All-take-drop : (P : ℕ → Type 0) (b s : ℕ) (xs : List ℕ) → All P xs → All P (take b (drop s xs))
All-take-drop P zero s xs h = tt
All-take-drop P (suc b) zero [] h = tt
All-take-drop P (suc b) (suc s) [] h = tt
All-take-drop P (suc b) (suc s) (x ∷ xs) h = All-take-drop P (suc b) s xs h.1
All-take-drop P (suc b) zero (x ∷ xs) h = (h.0, All-take-drop P b zero xs h.1)

All-map-to : (P : ℕ → Type 0) (f : ℕ → ℕ) (xs : List ℕ) → All (λ x. P (f x)) xs → All P (map f xs)
All-map-to P f [] h = tt
All-map-to P f (x ∷ xs) h = (h.0, All-map-to P f xs h.1)

total_same_on :
    (f g : ℕ → ℕ) (P : ℕ → Type 0) (xs : List ℕ)
    → ((x : ℕ) → P x → f x ≡ g x)
    → All P xs
    → total f xs ≡ total g xs
total_same_on f g P [] h k = refl
total_same_on f g P (x ∷ xs) h k = omega (arith, h x k.0, total_same_on f g P xs h k.1)

-- The padded lengths of a chunk.
abbrev pub chunk_seqlens : ℕ → ℕ → List ℕ → ℕ → List ℕ
chunk_seqlens multiple batch_size seqlens chunk =
    map (rounded multiple) (take batch_size (drop (chunk * batch_size) seqlens))

-- The algorithm makes so many bins of a chunk of the batch that more bins are wanted than it has sequences.
abbrev pub TooFew : (ℕ → List (ℕ × ℕ) → List (ℕ × ℕ)) → Algorithm → Packer → ℕ → ℕ → List ℕ → Type 0
TooFew shuffle algorithm p multiple batch_size seqlens =
    (chunk : ℕ) × (packed : List (List ℕ)) × (chunk * batch_size + batch_size ≤ length seqlens)
    × (pack_implementation (shuffle chunk) algorithm p
          (chunk_seqlens multiple batch_size seqlens chunk)
        ≡ ok packed)
    × (length (chunk_seqlens multiple batch_size seqlens chunk)
        < target_bin_count p (length packed))

module _ {E : Type 0} (cap n : ℕ) (cols : Columns E) (rows : all_rows n cols ≡ true) (multiple : ℕ)
    (pos : 0 < multiple) (seqlens : List ℕ) (enough : length seqlens ≡ n) (size batch_size : ℕ)
    (some_shards : 0 < size) where
  packing-IsChunk :
      (chunk : ℕ) (bins : List (List ℕ))
      → chunk * batch_size + batch_size ≤ n
      → IsPacking cap (chunk_seqlens multiple batch_size seqlens chunk) bins
      → size ≤ length bins
      → IsChunk cap n cols rows multiple pos seqlens enough size batch_size some_shards chunk bins
  packing-IsChunk chunk bins inside packing many =
      let start = chunk * batch_size in
      let number : length (chunk_seqlens multiple batch_size seqlens chunk) ≡ batch_size =
        length-map (take batch_size (drop start seqlens)) (rounded multiple)
        ∙ length-take-drop batch_size start seqlens (omega (arith, inside, enough)) in
      let partition : SameItems (flatten bins) (range_from 0 batch_size) =
        λ f. packing.partition f ∙ ap (λ m. total f (range_from 0 m)) number in
      let small : All (λ i. ltb i batch_size ≡ true) (flatten bins) =
        All-of_SameItems (λ i. ltb i batch_size) (range_from 0 batch_size) (flatten bins) partition
          (All-map _ _ (range_from 0 batch_size) (λ i h. omega (tests, h))
            (range_from-lt 0 batch_size)) in
      let in_bins : All (All (λ i. i < batch_size)) bins =
        All-flatten (λ i. i < batch_size) bins
          (All-map _ _ (flatten bins) (λ i h. omega (tests, h)) small) in
      (
        All-map _ _ bins
            (λ bin h. (
              h.0,
              All-map _ _ bin (λ i lt. omega (arith, lt, inside)) h.1.0,
              omega (
                arith,
                h.1.1,
                total_same_on (λ i. get_or (chunk_seqlens multiple batch_size seqlens chunk) i 0)
                    (λ i. rounded multiple (get_or seqlens (i + start) 0)) (λ i. i < batch_size) bin
                    (λ i lt.
                      get_or-take-drop (rounded multiple) batch_size start seqlens i (i + start) lt
                        refl (omega (arith, lt, inside, enough)))
                    h.1.0,
              ),
            ))
            (All-both _ _ bins packing.nonempty (All-both _ _ bins in_bins packing.fits)),
        many,
        partition,
      )

  module _ (shuffle : ℕ → List (ℕ × ℕ) → List (ℕ × ℕ))
      (shuffles : (chunk : ℕ) (items : List (ℕ × ℕ)) → SameItems (shuffle chunk items) items)
      (args : PackingArgs) (same_multiple : args.sequence_length_pad_multiple ≡ multiple)
      (algorithm : Algorithm) (p : Packer) (valid : IsValid p) (capacity : p.bin_capacity ≡ cap)
      (least : p.min_bin_count ≡ some size) (some_capacity : 0 < cap)
      (packable : All
        (λ len. (0 < rounded multiple len) × (rounded multiple len ≤ cap))
        seqlens) where
    pack_chunk-Outcome :
        (chunk : ℕ)
        → chunk * batch_size + batch_size ≤ n
        → ((bins : List (List ℕ)) × (pack_chunk shuffle args (algorithm, p) batch_size seqlens chunk
              ≡ ok bins)
            × IsChunk cap n cols rows multiple pos seqlens enough size batch_size some_shards chunk
                bins)
          ⊎ ((pack_chunk shuffle args (algorithm, p) batch_size seqlens chunk ≡ raise value_error)
              × TooFew shuffle algorithm p multiple batch_size seqlens)
    unfolding pack_chunk
    pack_chunk-Outcome chunk inside =
        let part = take batch_size (drop (chunk * batch_size) seqlens) in
        let padded =
          each_ok (padded_seqlen args.sequence_length_pad_multiple) (rounded multiple) part (
            All-map _ _ part
              (λ len _.
                ap (λ m. padded_seqlen m len) same_multiple
                ∙ padded_seqlen-rounded multiple len pos)
              (All-take-drop _ batch_size (chunk * batch_size) seqlens packable)) in
        let fits : Packable p.bin_capacity (chunk_seqlens multiple batch_size seqlens chunk) =
          All-map-to _ (rounded multiple) part (
            All-map _ _ part (λ len h. (h.0, omega (arith, h.1, capacity)))
              (All-take-drop _ batch_size (chunk * batch_size) seqlens packable)) in
        let (packed, run, _, outcome) =
          pack_total (shuffle chunk) (shuffles chunk) algorithm p
            (chunk_seqlens multiple batch_size seqlens chunk) valid
            (omega (arith, some_capacity, capacity)) fits in
        elim outcome [
          | inl (bins, packs, packing, _, number) ↦
              let grown = target_bin_count-Allowed p valid (length packed) in
              inl (
                bins,
                rw padded packs,
                packing-IsChunk chunk bins inside
                    (subst (λ c. IsPacking c (chunk_seqlens multiple batch_size seqlens chunk) bins)
                      capacity packing)
                    (subst (λ m. size ≤ m) (sym number)
                      (subst (λ o. LeOption o (target_bin_count p (length packed))) least
                        grown.least)),
              )
          | inr (few, raises) ↦
              inr (rw padded raises, (chunk, packed, omega (arith, inside, enough), run, few))
        ]

    -- All chunks are packed, or one of them has too few sequences.
    pub pack_chunks-Outcome :
        (k r : ℕ)
        → (k + r) * batch_size ≤ n
        → ((chunk_bins : List (List (List ℕ))) × (each
                (pack_chunk shuffle args (algorithm, p) batch_size seqlens)
                (range_from k r)
              ≡ ok chunk_bins)
            × AllChunks cap n cols rows multiple pos seqlens enough size batch_size some_shards k
                chunk_bins
            × (length chunk_bins ≡ r))
          ⊎ ((each (pack_chunk shuffle args (algorithm, p) batch_size seqlens) (range_from k r)
                ≡ raise value_error)
              × TooFew shuffle algorithm p multiple batch_size seqlens)
    unfolding each
    pack_chunks-Outcome k zero h = inl ([], refl, tt, refl)
    pack_chunks-Outcome k (suc r) h = elim (pack_chunk-Outcome k (omega (arith, h))) [
      | inr (raises, few) ↦ inr (rw (raises, each) refl, few)
      | inl (bins, run, is_chunk) ↦ elim (pack_chunks-Outcome (suc k) r (omega (arith, h))) [
        | inr (raises, few) ↦ inr (rw (run, raises, each) refl, few)
        | inl (rest, runs, all_chunks, number) ↦
            inl (bins ∷ rest, rw (run, runs, each) refl, (is_chunk, all_chunks), ap suc number)
      ]
    ]
