-- ===== src/Batched/Shards/Errors.antt =====
-- The arguments of `shard_by_batch_size` that are refused.
use native.Mathlib.Nat.{mod_self}
use nemo_rl_vlm.Prelude.{
  arith, ℕ, ◌%◌, ◌<◌, ◌≡◌, ◌≢◌, refl, ◌⊎◌, inl, inr, Option, none, some, Bool, true, false, raise,
  Error, assertion_error, zero_division_error, Bool-cases, ◌==◌, ==→eq, ==_false→ne, tests,
}
use nemo_rl_vlm.Batched.{Columns}
use nemo_rl_vlm.Batched.Columnwise.{IsBatch, common_rows-IsBatch}
use nemo_rl_vlm.Batched.Shards.{or_else, sizes, shard_by_batch_size, check_uneven}

-- Even shards need the chunks to divide the rows and the shards to divide a chunk; uneven ones must have no
-- batch size.
abbrev pub Accepts : ℕ → Option ℕ → Bool → ℕ → Type 0
Accepts shards size false n =
    (0 < or_else size n) × (n % or_else size n ≡ 0) × (0 < shards) × (or_else size n % shards ≡ 0)
Accepts shards size true n = (size ≡ none) × (0 < shards)

-- The two kinds of exception, and when each is raised.
abbrev pub Refusal : ℕ → Option ℕ → Bool → ℕ → Error → Type 0
Refusal shards size uneven n e =
    ((e ≡ zero_division_error) × ((or_else size n ≡ 0) ⊎ (shards ≡ 0)))
    ⊎ ((e ≡ assertion_error)
        × ((n % or_else size n ≢ 0)
            ⊎ (or_else size n % shards ≢ 0)
            ⊎ ((uneven ≡ true) × (size ≢ none))))

module _ {E : Type 0} (n shards : ℕ) (cols : Columns E) (batch : IsBatch n cols) (pos : 0 < n) where
  -- With at least one row, arguments that are not acceptable make `shard_by_batch_size` raise: ZeroDivisionError
  -- only for a batch size or a number of shards of 0, and AssertionError only for a batch size that does
  -- not divide the rows, shards that do not divide it, or a batch size together with uneven shards.
  pub shard_by_batch_size-raises :
      (size : Option ℕ) (uneven : Bool)
      → ¬ Accepts shards size uneven n
      → (e : Error) × (shard_by_batch_size shards size uneven cols ≡ raise e)
        × Refusal shards size uneven n e
  unfolding shard_by_batch_size check_uneven sizes
  shard_by_batch_size-raises (some b) true h =
      (assertion_error, refl, inr (refl, inr (inr (refl, λ e. ground arith))))
  shard_by_batch_size-raises none true h = elim (Bool-cases (shards == 0)) [
    | inl e ↦
        let none_left : (n == 0) ≡ false = ground (arith, pos) in
        let whole : (n % n == 0) ≡ true = ground (arith, mod_self n) in
        (
          zero_division_error,
          rw (common_rows-IsBatch n cols batch, none_left, whole, e) refl,
          inl (refl, inr (==→eq shards 0 e)),
        )
    | inr e ↦ absurd (h (refl, omega (tests, ==_false→ne shards 0 e)))
  ]
  shard_by_batch_size-raises size false h = elim (Bool-cases (or_else size n == 0)) [
    | inl e ↦ (
      zero_division_error,
      rw (common_rows-IsBatch n cols batch, e) refl,
      inl (refl, inl (==→eq (or_else size n) 0 e)),
    )
    | inr e ↦ elim (Bool-cases (n % or_else size n == 0)) [
      | inr f ↦ (
        assertion_error,
        rw (common_rows-IsBatch n cols batch, e, f) refl,
        inr (refl, inl (==_false→ne (n % or_else size n) 0 f)),
      )
      | inl f ↦ elim (Bool-cases (shards == 0)) [
        | inl g ↦ (
          zero_division_error,
          rw (common_rows-IsBatch n cols batch, e, f, g) refl,
          inl (refl, inr (==→eq shards 0 g)),
        )
        | inr g ↦ elim (Bool-cases (or_else size n % shards == 0)) [
          | inr k ↦ (
            assertion_error,
            rw (common_rows-IsBatch n cols batch, e, f, g, k) refl,
            inr (refl, inr (inl (==_false→ne (or_else size n % shards) 0 k))),
          )
          | inl k ↦ absurd (
              h (
                omega (tests, ==_false→ne (or_else size n) 0 e),
                ==→eq (n % or_else size n) 0 f,
                omega (tests, ==_false→ne shards 0 g),
                ==→eq (or_else size n % shards) 0 k,
              ))
        ]
      ]
    ]
  ]
