-- ===== src/Batched/Dynamic/Order.antt =====
-- The order that dynamic batching brings the rows into holds each row once.
use nemo_rl_vlm.Prelude.{
  ℕ, zero, suc, ◌+◌, ◌-◌, ◌*◌, ◌<◌, ◌≡◌, refl, ap, ◌∙◌, List, [], ◌∷◌, map, total, total-map,
  range_from, arith, take, drop,
}
use nemo_rl_vlm.Prelude.Sort.{sort, total-sort}
use nemo_rl_vlm.Prelude.Multiset.{SameItems}
use nemo_rl_vlm.Prelude.Ranges.{
  total_same, total_zero, total-flatten-map, total-blocks, total-range_from-append, range_whole,
  range_added,
}
use nemo_rl_vlm.Batched.Shards.{Sizes}
use nemo_rl_vlm.Batched.Dynamic.{every, stride, shorter, chunk_order, sorted_indices}

total-range_shift :
    (g : ℕ → ℕ) (i n : ℕ) → total g (range_from (suc i) n) ≡ total (λ j. g (suc j)) (range_from i n)
total-range_shift g i zero = refl
total-range_shift g i (suc n) = omega (arith, total-range_shift g (suc i) n)

module _ {ℓ} {A : Type ℓ} (f : A → ℕ) where
  -- The strides of a list are its items.
  strides :
      (m : ℕ) (xs : List A)
      → total (λ i. total f (every (suc m) i xs)) (range_from 0 (suc m)) ≡ total f xs
  strides m [] = total_zero (range_from 0 (suc m))
  strides m (x ∷ xs) =
      let last : suc m - 1 ≡ m = omega arith in
      let rest = strides m xs in
      let shift = total-range_shift (λ i. total f (every (suc m) i (x ∷ xs))) 0 m in
      let cut = total-range_from-append (λ i. total f (every (suc m) i xs)) 0 m 1 in
      let end : m + 1 ≡ suc m = omega arith in
      let places = ap (λ n. total (λ i. total f (every (suc m) i xs)) (range_from 0 n)) end in
      let final : 0 + m ≡ m = omega arith in
      let here = ap (λ k. total f (every (suc m) k xs)) last in
      let there = ap (λ k. total f (every (suc m) k xs)) final in
      omega (arith, rest, shift, cut, places, here, there)

  pub total-stride :
      (shards : ℕ) (xs : List A) → 0 < shards → total f (stride shards xs) ≡ total f xs
  unfolding stride
  total-stride zero xs h = absurd (omega arith)
  total-stride (suc m) xs h =
      total-flatten-map f (λ i. every (suc m) i xs) (range_from 0 (suc m)) ∙ strides m xs

total-chunk_order :
    (shards start batch : ℕ) (seqlens : List ℕ) (f : ℕ → ℕ)
    → 0 < shards
    → total f (chunk_order shards start batch seqlens) ≡ total f (range_from start batch)
unfolding chunk_order
total-chunk_order shards start batch seqlens f h =
    let sorted = sort (shorter (take batch (drop start seqlens))) (range_from 0 batch) in
    total-stride f shards (map (λ i. i + start) sorted) h
    ∙ total-map f (λ i. i + start) sorted
    ∙ total-sort (shorter (take batch (drop start seqlens))) (λ i. f (i + start))
        (range_from 0 batch)
    ∙ range_added f start 0 batch
    ∙ ap (λ i. total f (range_from i batch)) (omega arith)

-- Of chunks that make up n rows, whatever their lengths.
pub sorted_indices-SameItems :
    (z : Sizes) (shards : ℕ) (seqlens : List ℕ)
    → 0 < shards
    → z.num_chunks * z.batch_size ≡ z.total_batch_size
    → SameItems (sorted_indices z shards seqlens) (range_from 0 z.total_batch_size)
unfolding sorted_indices
sorted_indices-SameItems z shards seqlens h whole f =
    total-flatten-map f (λ c. chunk_order shards (c * z.batch_size) z.batch_size seqlens)
      (range_from 0 z.num_chunks)
    ∙ total_same _ _ (range_from 0 z.num_chunks) (λ c.
      total-chunk_order shards (c * z.batch_size) z.batch_size seqlens f h
      ∙ ap (λ m. total f (range_from (c * z.batch_size) m)) (omega arith))
    ∙ total-blocks (λ c. c * z.batch_size) (λ c. omega arith) f 0 z.num_chunks
    ∙ range_whole f _ _ z.total_batch_size (omega arith) (
        omega (
          arith,
          whole,
          ap (λ n. n * z.batch_size) (let e : 0 + z.num_chunks ≡ z.num_chunks = omega arith in e),
        ))
