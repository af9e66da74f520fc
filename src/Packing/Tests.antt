-- ===== src/Packing/Tests.antt =====
-- The packers on small inputs, and the theorems about them at concrete inputs.
use mathlib.Core.List.{reverse_aux}
use nemo_rl_vlm.Prelude.{
  ℕ, ◌+◌, ◌*◌, ◌≤◌, List, [], ◌∷◌, flatten, reverse, ◌≡◌, refl, none, some, ok, raise, value_error,
  length, arith, total,
}
use nemo_rl_vlm.Prelude.Sort.{sort}
use nemo_rl_vlm.Prelude.Int.{pos, negsuc}
use nemo_rl_vlm.Prelude.Multiset.{SameItems}
use nemo_rl_vlm.Packing.Base.{Packer, IsValid, IsPacking, init}
use nemo_rl_vlm.Packing.Adjust.{target_bin_count}
use nemo_rl_vlm.Packing.Concatenative.{pack_concatenative}
use nemo_rl_vlm.Packing.FirstFit.{pack_first_fit_decreasing, pack_first_fit_shuffle}
use nemo_rl_vlm.Packing.Modified.{pack_modified, fill_bin}
use nemo_rl_vlm.Packing.Pack.{first_fit_decreasing, first_fit_shuffle, pack, get_packer, by_name}
use nemo_rl_vlm.Packing.Pack.Total.{PackOutcome, pack_total}
use nemo_rl_vlm.Packing.FirstFit.Packs.{pack_first_fit_shuffle-le}
use nemo_rl_vlm.Packing.Adjust.Target.{Allowed, target_bin_count-Allowed, target_bin_count-le}
use nemo_rl_vlm.Packing.Modified.Rounds.{Stopped, fill_bin-Stopped}

-- The lengths of the docstring's example.
abbrev lengths : List ℕ
lengths = 4 ∷ 1 ∷ 3 ∷ 2 ∷ 1 ∷ 3 ∷ 4 ∷ 5 ∷ []

-- At capacity 5 the documented bins are [0, 1], [2, 3], [4, 5], [6], [7].
concatenative_doc :
    pack_concatenative 5 none lengths
    ≡ ok ((0 ∷ 1 ∷ []) ∷ (2 ∷ 3 ∷ []) ∷ (4 ∷ 5 ∷ []) ∷ (6 ∷ []) ∷ (7 ∷ []) ∷ [])
unfolding pack_concatenative
concatenative_doc = refl

decreasing_run :
    pack_first_fit_decreasing 5 lengths
    ≡ ok ((7 ∷ []) ∷ (6 ∷ 4 ∷ []) ∷ (0 ∷ 1 ∷ []) ∷ (5 ∷ 3 ∷ []) ∷ (2 ∷ []) ∷ [])
unfolding pack_first_fit_decreasing sort
decreasing_run = refl

-- Index 4 (7) is joined by 5 (3), 0 (6) by 7 (4), and 1, 2, 3 and 6 are left over.
modified_run :
    pack_modified 10 (6 ∷ 5 ∷ 2 ∷ 2 ∷ 7 ∷ 3 ∷ 1 ∷ 4 ∷ [])
    ≡ ok ((4 ∷ 5 ∷ []) ∷ (0 ∷ 7 ∷ []) ∷ (1 ∷ 2 ∷ 3 ∷ 6 ∷ []) ∷ [])
unfolding pack_modified sort
modified_run = refl

by_name_run :
    get_packer (by_name "first_fit_Shuffle") 8 none (some (pos 2))
    ≡ ok (
      first_fit_shuffle,
      record { bin_capacity = 8; min_bin_count = none; bin_count_multiple = some 2 },
    )
unfolding get_packer
by_name_run = refl

negative_minimum : init 8 (some (negsuc 0)) none ≡ raise value_error
unfolding init
negative_minimum = refl

-- Four bins, or a larger multiple of 2.
abbrev in_pairs : Packer
in_pairs = record { bin_capacity = 5; min_bin_count = some 4; bin_count_multiple = some 2 }

abbrev reversed : List (ℕ × ℕ) → List (ℕ × ℕ)
reversed = reverse

-- The five bins of first-fit decreasing become six: index 4 leaves the bin that it shares.
pack_run :
    pack reversed first_fit_decreasing in_pairs lengths
    ≡ ok ((7 ∷ []) ∷ (6 ∷ 4 ∷ []) ∷ (0 ∷ 1 ∷ []) ∷ (5 ∷ []) ∷ (2 ∷ []) ∷ (3 ∷ []) ∷ [])
unfolding pack sort
pack_run = refl

in_pairs-IsValid : IsValid in_pairs
in_pairs-IsValid = record { multiple_pos = λ k e. ground arith }

total-reverse_aux :
    (f : ℕ × ℕ → ℕ) (xs ys : List (ℕ × ℕ)) → total f (reverse_aux xs ys) ≡ total f xs + total f ys
total-reverse_aux f [] ys = omega arith
total-reverse_aux f (x ∷ xs) ys = omega (arith, total-reverse_aux f xs (x ∷ ys))

reversed-SameItems : (items : List (ℕ × ℕ)) → SameItems (reversed items) items
reversed-SameItems items f = omega (arith, total-reverse_aux f items [])

pack_total_example : PackOutcome reversed first_fit_shuffle in_pairs lengths
pack_total_example =
    pack_total reversed reversed-SameItems first_fit_shuffle in_pairs lengths in_pairs-IsValid
      (omega arith) (omega arith)

-- Three sequences of 3 in a capacity of 6: two bins, of which a best packing has two.
abbrev threes : List ℕ
threes = 3 ∷ 3 ∷ 3 ∷ []

abbrev threes_bins : List (List ℕ)
threes_bins = (2 ∷ 1 ∷ []) ∷ (0 ∷ []) ∷ []

decreasing_threes : pack_first_fit_decreasing 6 threes ≡ ok threes_bins
unfolding pack_first_fit_decreasing sort
decreasing_threes = refl

threes-IsPacking : IsPacking 6 threes threes_bins
unfolding flatten
threes-IsPacking = record {
  partition = λ f. omega arith;
  fits = (omega arith, (omega arith, tt));
  nonempty = (omega arith, (omega arith, tt));
}

shuffled_threes : pack_first_fit_shuffle reversed 6 threes ≡ ok threes_bins
unfolding pack_first_fit_shuffle
shuffled_threes = refl

pack_first_fit_shuffle-le_example : length threes_bins ≤ 2 * length threes_bins + 1
pack_first_fit_shuffle-le_example =
    pack_first_fit_shuffle-le reversed 6 threes threes_bins threes_bins reversed-SameItems
      shuffled_threes threes-IsPacking

target_bin_count-Allowed_example : Allowed in_pairs 5 (target_bin_count in_pairs 5)
target_bin_count-Allowed_example = target_bin_count-Allowed in_pairs in_pairs-IsValid 5

target_bin_count-le_example : target_bin_count in_pairs 5 ≤ target_bin_count in_pairs 5
target_bin_count-le_example =
    target_bin_count-le in_pairs in_pairs-IsValid 5 (target_bin_count in_pairs 5)
      (target_bin_count-Allowed in_pairs in_pairs-IsValid 5)

fill_bin-Stopped_example : Stopped 10 (fill_bin 10 ((0, 6) ∷ []) ((1, 3) ∷ (2, 2) ∷ (3, 1) ∷ []))
fill_bin-Stopped_example = fill_bin-Stopped 10 ((0, 6) ∷ []) ((1, 3) ∷ (2, 2) ∷ (3, 1) ∷ [])
