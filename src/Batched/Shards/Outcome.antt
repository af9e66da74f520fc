-- ===== src/Batched/Shards/Outcome.antt =====
-- What `shard_by_batch_size` returns, and when it raises.
use native.Mathlib.Nat.{mod-lt, div-add-mod, div-add-mod', div_self, mul_assoc, mul_comm, mod_self}
use nemo_rl_vlm.Prelude.{
  ℕ, ◌+◌, ◌-◌, ◌*◌, ◌/◌, ◌%◌, ◌≤◌, ◌<◌, ◌≡◌, refl, sym, ap, ◌∙◌, inl, inr, List, [], ◌∷◌, ◌++◌, map,
  flatten, Option, none, Bool, true, false, ok, length, range_from, All, arith, length-range_from,
  length-map, ltb, All-map, tests, total_one, Bool-cases, ◌==◌, ==→eq, ==_false→ne,
}
use nemo_rl_vlm.Prelude.Multiset.{SameItems, All-of_SameItems}
use nemo_rl_vlm.Prelude.Ranges.{total_same, total-flatten-map, total_constant}
use nemo_rl_vlm.Batched.{Columns, on_data, all_rows, index_select}
use nemo_rl_vlm.Batched.Rows.{range_from-lt}
use nemo_rl_vlm.Batched.Columnwise.{
  IsBatch, IsBatch-all_rows, common_rows-IsBatch, none_packed, CanSlice,
}
use nemo_rl_vlm.Batched.Shards.{
  Sizes, or_else, sizes, sub_shard, gather_shards, shard_by_batch_size, check_uneven,
}
use nemo_rl_vlm.Batched.Shards.Gathers.{gather-flatten, each_ok}
use nemo_rl_vlm.Batched.Shards.Partition.{shard_rows, all_shards, shards_even, shards_uneven}

module _ {A : Type 0} (P : A → Type 0) where
  All-left : (xs ys : List A) → All P (xs ++ ys) → All P xs
  All-left [] ys h = tt
  All-left (x ∷ xs) ys h = (h.0, All-left xs ys h.1)

  All-right : (xs ys : List A) → All P (xs ++ ys) → All P ys
  All-right [] ys h = h
  All-right (x ∷ xs) ys h = All-right xs ys h.1

  pub All-flatten : (xss : List (List A)) → All P (flatten xss) → All (All P) xss
  unfolding flatten
  All-flatten [] h = tt
  All-flatten (xs ∷ xss) h =
      (All-left xs (flatten xss) h, All-flatten xss (All-right xs (flatten xss) h))

  All-map_of : {B : Type 0} (f : B → A) (ys : List B) → All P (map f ys) → All (λ y. P (f y)) ys
  All-map_of f [] h = tt
  All-map_of f (y ∷ ys) h = (h.0, All-map_of f ys h.1)

  All-map_to : {B : Type 0} (f : B → A) (ys : List B) → ((y : B) → P (f y)) → All P (map f ys)
  All-map_to f [] h = tt
  All-map_to f (y ∷ ys) h = (h y, All-map_to f ys h)

pub All-both :
    {A : Type 0} (P Q : A → Type 0) (xs : List A) → All P xs → All Q xs → All (λ x. P x × Q x) xs
All-both P Q [] h k = tt
All-both P Q (x ∷ xs) h k = ((h.0, k.0), All-both P Q xs h.1 k.1)

module _ {E : Type 0} (z : Sizes) (uneven : Bool) (shards : ℕ) (cols : Columns E)
    (partition : SameItems (flatten (all_shards z uneven shards)) (range_from 0 z.total_batch_size))
    (rows : all_rows z.total_batch_size cols ≡ true) (chunks : 0 < z.num_chunks)
    (cut : (s c : ℕ) → CanSlice (sub_shard z uneven s c) cols) where
  rows_inside :
      All
        (λ s.
          All
            (λ is. All (λ i. i < z.total_batch_size) is)
            (map (sub_shard z uneven s) (range_from 0 z.num_chunks)))
        (range_from 0 shards)
  unfolding all_shards shard_rows
  rows_inside =
      let inside : (i : ℕ) → Type 0 = λ i. i < z.total_batch_size in
      All-map _ _ (range_from 0 shards) (λ s h. All-flatten inside _ h)
        (All-map_of (All inside) (shard_rows z uneven) (range_from 0 shards) (
          All-flatten inside (all_shards z uneven shards) (
            All-map _ _ (flatten (all_shards z uneven shards)) (λ i h. omega (tests, h))
              (All-of_SameItems (λ i. ltb i z.total_batch_size) (range_from 0 z.total_batch_size)
                (flatten (all_shards z uneven shards)) partition
                (All-map _ _ (range_from 0 z.total_batch_size) (λ i h. omega (tests, h))
                  (range_from-lt 0 z.total_batch_size))))))

  -- Shards that are a partition of the rows are gathered without an error.
  gather_shards-ok :
      gather_shards z uneven shards cols
      ≡ ok (
          map (λ s. on_data (λ A. index_select (shard_rows z uneven s)) cols) (range_from 0 shards))
  unfolding gather_shards shard_rows
  gather_shards-ok = each_ok _ _ (range_from 0 shards) (
      All-map _ _ (range_from 0 shards)
        (λ s h.
          gather-flatten z.total_batch_size cols rows
            (map (sub_shard z uneven s) (range_from 0 z.num_chunks))
            (All-both _ _ _ h
              (All-map_to _ (sub_shard z uneven s) (range_from 0 z.num_chunks) (cut s)))
            (omega (
              arith,
              length-map (range_from 0 z.num_chunks) (sub_shard z uneven s),
              length-range_from 0 z.num_chunks,
              chunks,
            )))
        rows_inside)

-- The rows of the shards are those of the batch, each in one shard, and the columns of a shard are those rows
-- of the columns of the batch.
abbrev pub IsSharded : {E : Type 0} → ℕ → Option ℕ → Bool → Sizes → Columns E → Type 0
IsSharded shards size uneven z cols =
    (shard_by_batch_size shards size uneven cols
      ≡ ok (
          map (λ s. on_data (λ A. index_select (shard_rows z uneven s)) cols)
            (range_from 0 shards)))
    × SameItems (flatten (all_shards z uneven shards)) (range_from 0 z.total_batch_size)

length-sub_shard : (z : Sizes) (s c : ℕ) → length (sub_shard z false s c) ≡ z.shard_size
unfolding sub_shard
length-sub_shard z s c = length-range_from _ _ ∙ omega arith

length-shard_rows :
    (z : Sizes) (s : ℕ) → length (shard_rows z false s) ≡ z.num_chunks * z.shard_size
unfolding shard_rows
length-shard_rows z s =
    sym (total_one {0} (shard_rows z false s))
    ∙ total-flatten-map (λ _. 1) (sub_shard z false s) (range_from 0 z.num_chunks)
    ∙ total_same _ (λ _. z.shard_size) (range_from 0 z.num_chunks)
        (λ c. total_one {0} (sub_shard z false s c) ∙ length-sub_shard z s c)
    ∙ total_constant z.shard_size (range_from 0 z.num_chunks)
    ∙ ap (λ m. m * z.shard_size) (length-range_from 0 z.num_chunks)

pub quotient : (n k : ℕ) → n % k ≡ 0 → n / k * k ≡ n
quotient n k h = omega (arith, div-add-mod' n k, h)

pub quotient_pos : (n k : ℕ) → n % k ≡ 0 → 0 < n → 0 < n / k
quotient_pos n k h pos = elim (Bool-cases (n / k == 0)) [
  | inl e ↦
      let none : n / k * k ≡ 0 * k = ap (λ q. q * k) (==→eq (n / k) 0 e) in
      absurd (omega (arith, quotient n k h, none, pos))
  | inr e ↦ omega (tests, ==_false→ne (n / k) 0 e)
]

rounded_up : (n k : ℕ) → 0 < k → n ≤ k * ((n + k - 1) / k)
rounded_up n k pos = omega (arith, div-add-mod (n + k - 1) k, mod-lt (n + k - 1) pos, pos)

pub is_pos : (n : ℕ) → 0 < n → (n == 0) ≡ false
is_pos n h = ground (arith, h)

pub is_zero : (n : ℕ) → n ≡ 0 → (n == 0) ≡ true
is_zero n h = ground (arith, h)

module _ (n shards : ℕ) (pos : 0 < n) (some_shards : 0 < shards) where
  abbrev pub even_sizes : ℕ → Sizes
  even_sizes batch = record {
    total_batch_size = n;
    batch_size = batch;
    num_chunks = n / batch;
    shard_size = batch / shards;
  }

  abbrev uneven_sizes : Sizes
  uneven_sizes = record {
    total_batch_size = n;
    batch_size = n;
    num_chunks = n / n;
    shard_size = (n + shards - 1) / shards;
  }

  pub sizes_even :
      (size : Option ℕ)
      → 0 < or_else size n
      → n % or_else size n ≡ 0
      → or_else size n % shards ≡ 0
      → sizes shards size false n ≡ ok (even_sizes (or_else size n))
  unfolding sizes
  sizes_even size some_rows chunks parts =
      rw
        (
          is_pos (or_else size n) some_rows,
          is_zero (n % or_else size n) chunks,
          is_pos shards some_shards,
          is_zero (or_else size n % shards) parts,
        )
        refl

  sizes_uneven : sizes shards none true n ≡ ok uneven_sizes
  unfolding sizes
  sizes_uneven = rw (is_pos n pos, is_zero (n % n) (mod_self n), is_pos shards some_shards) refl

  module _ {E : Type 0} (cols : Columns E) (batch : IsBatch n cols) where
    -- If the batch size divides the number of rows and the number of shards divides the batch size, the
    -- shards are a partition of the rows into parts of the same size.
    pub shard_by_batch_size-even :
        (size : Option ℕ)
        → 0 < or_else size n
        → n % or_else size n ≡ 0
        → or_else size n % shards ≡ 0
        → (z : Sizes) × (sizes shards size false n ≡ ok z)
          × IsSharded shards size false z cols
          × ((s : ℕ) → length (shard_rows z false s) * shards ≡ n)
    unfolding shard_by_batch_size check_uneven
    shard_by_batch_size-even size some_rows chunks parts =
        let z = even_sizes (or_else size n) in
        let found = sizes_even size some_rows chunks parts in
        let all_chunks = quotient n (or_else size n) chunks in
        let all_parts = quotient (or_else size n) shards parts in
        let all_parts' : shards * (or_else size n / shards) ≡ or_else size n =
          mul_comm shards (or_else size n / shards) ∙ all_parts in
        let partition = shards_even z shards all_chunks all_parts' in
        let size_pos = quotient_pos (or_else size n) shards parts some_rows in
        (
          z,
          found,
          (
            rw (common_rows-IsBatch n cols batch, found)
                (gather_shards-ok z false shards cols partition (IsBatch-all_rows n cols batch)
                  (quotient_pos n (or_else size n) chunks pos)
                  (λ s c. inl (omega (arith, length-sub_shard z s c, size_pos)))),
            partition,
          ),
          λ s.
              ap (λ m. m * shards) (length-shard_rows z s)
              ∙ mul_assoc (n / or_else size n) (or_else size n / shards) shards
              ∙ ap (λ m. n / or_else size n * m) all_parts
              ∙ all_chunks,
        )

    -- With uneven shards, whatever their number, and no `PackedTensor`, the shards are a partition too.
    pub shard_by_batch_size-uneven :
        none_packed cols ≡ true
        → (z : Sizes) × (sizes shards none true n ≡ ok z) × IsSharded shards none true z cols
    unfolding shard_by_batch_size check_uneven
    shard_by_batch_size-uneven free =
        let z = uneven_sizes in
        let one = div_self pos in
        let partition = shards_uneven z shards one (rounded_up n shards some_shards) in
        (
          z,
          sizes_uneven,
          (
            rw (common_rows-IsBatch n cols batch, sizes_uneven)
                (gather_shards-ok z true shards cols partition (IsBatch-all_rows n cols batch)
                  (omega (arith, one)) (λ s c. inr free)),
            partition,
          ),
        )
