-- ===== src/Packing/Pack/Total.antt =====
-- What `pack` does on every input that it accepts, for every algorithm.
use mathlib.Core.List.{Perm}
use native.Mathlib.Decide.{ℕ_discrete}
use nemo_rl_vlm.Prelude.{
  ℕ, ◌≤◌, ◌<◌, List, flatten, ◌≡◌, ◌⊎◌, inl, inr, ok, raise, value_error, ltb, none, Bool-cases,
  ltb→lt, ltb_false→le, length, All, All-map, range_from,
}
use nemo_rl_vlm.Prelude.Multiset.{SameItems, perm_of_SameItems}
use nemo_rl_vlm.Packing.Base.{Packer, IsValid, IsPacking}
use nemo_rl_vlm.Packing.Adjust.{target_bin_count}
use nemo_rl_vlm.Packing.Adjust.Keeps.{adjust_bin_count-IsPacking, adjust_bin_count-raises}
use nemo_rl_vlm.Packing.Concatenative.Laws.{pack_concatenative_ok}
use nemo_rl_vlm.Packing.FirstFit.Packs.{pack_first_fit_decreasing_ok, pack_first_fit_shuffle_ok}
use nemo_rl_vlm.Packing.Modified.Packs.{Packable, pack_modified_ok}
use nemo_rl_vlm.Packing.Pack.{
  Algorithm, concatenative, first_fit_decreasing, first_fit_shuffle, modified_first_fit_decreasing,
  pack_implementation, pack,
}

-- The implementation packs the sequences. With enough sequences for the target number of bins, `pack`
-- returns a packing into exactly that many; with too few it raises ValueError.
abbrev pub PackOutcome : (List (ℕ × ℕ) → List (ℕ × ℕ)) → Algorithm → Packer → List ℕ → Type 0
PackOutcome shuffle algorithm p lens =
    (packed : List (List ℕ)) × (pack_implementation shuffle algorithm p lens ≡ ok packed)
    × IsPacking p.bin_capacity lens packed
    × (((bins : List (List ℕ)) × (pack shuffle algorithm p lens ≡ ok bins)
          × IsPacking p.bin_capacity lens bins
          × Perm (flatten bins) (range_from 0 (length lens))
          × (length bins ≡ target_bin_count p (length packed)))
        ⊎ (length lens < target_bin_count p (length packed))
          × (pack shuffle algorithm p lens ≡ raise value_error))

module _ (shuffle : List (ℕ × ℕ) → List (ℕ × ℕ))
    (shuffles : (items : List (ℕ × ℕ)) → SameItems (shuffle items) items) where
  -- Every algorithm packs what can be packed.
  pack_implementation_ok :
      (algorithm : Algorithm) (p : Packer) (lens : List ℕ)
      → 0 < p.bin_capacity
      → Packable p.bin_capacity lens
      → (bins : List (List ℕ)) × (pack_implementation shuffle algorithm p lens ≡ ok bins)
        × IsPacking p.bin_capacity lens bins
  unfolding pack_implementation
  pack_implementation_ok algorithm p lens pos packable = by_class algorithm
    where
      small : All (λ len. len ≤ p.bin_capacity) lens
      small =
          All-map (λ len. (0 < len) × (len ≤ p.bin_capacity)) (λ len. len ≤ p.bin_capacity) lens
            (λ len h. h.1) packable

      by_class :
          (algorithm : Algorithm)
          → (bins : List (List ℕ)) × (pack_implementation shuffle algorithm p lens ≡ ok bins)
            × IsPacking p.bin_capacity lens bins
      by_class concatenative =
          let (bins, run, _, packed, _) = pack_concatenative_ok p.bin_capacity none lens small in
          (bins, run, packed)
      by_class first_fit_decreasing =
          let (bins, run, packed, _) = pack_first_fit_decreasing_ok p.bin_capacity lens small in
          (bins, run, packed)
      by_class first_fit_shuffle =
          let (bins, run, packed, _) =
            pack_first_fit_shuffle_ok p.bin_capacity lens shuffle shuffles small in
          (bins, run, packed)
      by_class modified_first_fit_decreasing = pack_modified_ok p.bin_capacity lens pos packable

  -- `pack`, for each of the four algorithms, any order that the shuffle makes, a valid packer of positive
  -- capacity, and sequences of positive length that each fit in a bin. The algorithm makes a packing:
  -- each index in exactly one bin, no bin over its capacity, none empty. Then, if there are at least
  -- as many sequences as the target for its number of bins, `pack` returns a packing, the bins of which
  -- hold the indices 0 to n - 1 up to order, into exactly the target number; else it raises ValueError.
  pub pack_total :
      (algorithm : Algorithm) (p : Packer) (lens : List ℕ)
      → IsValid p
      → 0 < p.bin_capacity
      → Packable p.bin_capacity lens
      → PackOutcome shuffle algorithm p lens
  unfolding pack
  pack_total algorithm p lens valid pos packable =
      let (packed, run, packing) = pack_implementation_ok algorithm p lens pos packable in
      elim (Bool-cases (ltb (length lens) (target_bin_count p (length packed)))) [
        | inl e ↦ (
          packed,
          run,
          packing,
          inr (
            ltb→lt _ _ e,
            rw run (adjust_bin_count-raises p valid lens packed packing (ltb→lt _ _ e)),
          ),
        )
        | inr e ↦
            let (bins, adjusted, keeps, size) =
              adjust_bin_count-IsPacking p valid lens packed packing (ltb_false→le _ _ e) in
            (
              packed,
              run,
              packing,
              inl (
                bins,
                rw run adjusted,
                keeps,
                perm_of_SameItems ℕ_discrete (flatten bins) (range_from 0 (length lens))
                    keeps.partition,
                size,
              ),
            )
      ]
