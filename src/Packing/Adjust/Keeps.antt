-- ===== src/Packing/Adjust/Keeps.antt =====
-- `_adjust_bin_count` as a whole: when it raises, and that it returns a packing otherwise.
use nemo_rl_vlm.Prelude.{
  ℕ, ◌-◌, ◌≤◌, ◌<◌, List, ◌++◌, ◌≡◌, inl, inr, ◌∙◌, [], arith, Bool-cases, ==→eq, ok, raise,
  value_error, ltb, ◌==◌, length, total, replicate, range_from, length-range_from, get_or, false,
  true, total_one, All-append,
}
use nemo_rl_vlm.Packing.Base.{Packer, IsValid, IsPacking, load}
use nemo_rl_vlm.Packing.Adjust.{target_bin_count, bin_sizes, fill_bins, adjust_bin_count}
use nemo_rl_vlm.Packing.Adjust.Laws.{total-length}
use nemo_rl_vlm.Packing.Adjust.Outcome.{
  fill_bins-total, start-Inv, total-append_blank, All-blank, nonempty_at, length-le_nonempty,
  get_or-append_blank,
}
use nemo_rl_vlm.Packing.Adjust.Target.{target_bin_count-Allowed}

module _ (p : Packer) (valid : IsValid p) (lens : List ℕ) (bins : List (List ℕ))
    (packed : IsPacking p.bin_capacity lens bins) where
  -- A packing of n sequences holds n of them.
  sequences : total length bins ≡ length lens
  sequences = omega (
    arith,
    total-length bins,
    packed.partition (λ _. 1),
    total_one {0} (range_from 0 (length lens)),
    length-range_from 0 (length lens),
  )

  -- The loop, for any number of bins that is not too large.
  redistribute :
      (target : ℕ)
      → length bins ≤ target
      → target ≤ length lens
      → (bins' : List (List ℕ)) × (fill_bins
            (target - length bins)
            (length bins)
            (bin_sizes bins)
            (bins ++ replicate (target - length bins) [])
          ≡ ok bins')
        × IsPacking p.bin_capacity lens bins'
        × (length bins' ≡ target)
  redistribute target grows enough =
      let k : ℕ = target - length bins in
      let (bins', run, done) =
        fill_bins-total target k (length bins) (bin_sizes bins) (bins ++ replicate k [])
          (omega arith)
          (omega (arith, total-append_blank (λ _. 1) bins k, total-length bins, sequences))
          (start-Inv bins k target (omega arith)) in
      (
        bins',
        run,
        record {
          partition = λ f. done.same f ∙ total-append_blank f bins k ∙ packed.partition f;
          fits =
              done.fits (λ i. get_or lens i 0) p.bin_capacity
                (All-append (λ bin. load lens bin ≤ p.bin_capacity) bins (replicate k [])
                  packed.fits (All-blank (λ i. get_or lens i 0) p.bin_capacity k));
          nonempty =
              done.filled
                (λ i lt. rw (get_or-append_blank bins k i) (nonempty_at bins i packed.nonempty lt));
        },
        done.size,
      )

  -- With enough sequences for the target, the result is a packing into exactly that many bins.
  pub adjust_bin_count-IsPacking :
      target_bin_count p (length bins) ≤ length lens
      → (bins' : List (List ℕ)) × (adjust_bin_count p bins ≡ ok bins')
        × IsPacking p.bin_capacity lens bins'
        × (length bins' ≡ target_bin_count p (length bins))
  unfolding adjust_bin_count
  adjust_bin_count-IsPacking enough =
      elim (Bool-cases (target_bin_count p (length bins) == length bins)) [
        | inl e ↦ (bins, rw e, packed, omega (arith, ==→eq _ _ e))
        | inr e ↦
            let enough_test : ltb (total length bins) (target_bin_count p (length bins)) ≡ false =
              ground (arith, sequences) in
            let (bins', run, keeps, size) =
              redistribute (target_bin_count p (length bins))
                (target_bin_count-Allowed p valid (length bins)).grows enough in
            (bins', rw (e, enough_test) run, keeps, size)
      ]

  -- With too few it raises ValueError.
  pub adjust_bin_count-raises :
      length lens < target_bin_count p (length bins) → adjust_bin_count p bins ≡ raise value_error
  unfolding adjust_bin_count
  adjust_bin_count-raises few =
      let distinct : (target_bin_count p (length bins) == length bins) ≡ false =
        ground (arith, sequences, length-le_nonempty bins packed.nonempty) in
      let few_test : ltb (total length bins) (target_bin_count p (length bins)) ≡ true =
        ground (arith, sequences) in
      rw (distinct, few_test)
