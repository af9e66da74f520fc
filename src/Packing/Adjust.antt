-- ===== src/Packing/Adjust.antt =====
-- `SequencePacker._adjust_bin_count` (nemo_rl/data/packing/algorithms.py). `source_bin_idx` only moves
-- forward through the sorted `bin_sizes`, so it is the suffix that is left. The callers' bins are
-- copied before they change, so no bin is shared.
pub mod Moves
pub mod Laws
pub mod Outcome
pub mod Target
pub mod Keeps
use nemo_rl_vlm.Prelude.{
  ℕ, zero, suc, ◌+◌, ◌-◌, ◌%◌, max, List, [], ◌∷◌, ◌++◌, map, Option, none, some, Bool, ◌&&◌, ◌||◌,
  Result, ok, raise, ◌>>=◌, value_error, ltb, leb, ◌==◌, if◌then◌else◌, length, get_or, set, total,
  replicate, indexed_from,
}
use nemo_rl_vlm.Prelude.Sort.{sort}
use nemo_rl_vlm.Packing.Base.{Packer, tuple_ge}

-- `if self.min_bin_count is not None: target_bin_count = max(target_bin_count, self.min_bin_count)`
abbrev pub at_least : Option ℕ → ℕ → ℕ
at_least none n = n
at_least (some least) n = max n least

-- The next multiple of `bin_count_multiple`, if there is one.
abbrev pub round_up : Option ℕ → ℕ → ℕ
round_up none n = n
round_up (some k) n = if n % k == 0 then n else n + (k - n % k)

unfoldable pub target_bin_count : Packer → ℕ → ℕ
target_bin_count p current = round_up p.bin_count_multiple (at_least p.min_bin_count current)

unfoldable pub bin_sizes : List (List ℕ) → List (ℕ × ℕ)
bin_sizes bins = sort tuple_ge (indexed_from 0 (map length bins))

module _ {ℓ} {A : Type ℓ} where
  -- `bin.pop()` leaves all but the last item, and returns the last.
  unfoldable pub but_last : List A → List A
  but_last [] = []
  but_last (x ∷ []) = []
  but_last (x ∷ y ∷ xs) = x ∷ but_last (y ∷ xs)

  unfoldable pub last_or : A → List A → A
  last_or d [] = d
  last_or d (x ∷ []) = x
  last_or d (x ∷ y ∷ xs) = last_or d (y ∷ xs)

-- `adjusted_bins[new].append(adjusted_bins[orig].pop())`
unfoldable pub move_last : ℕ → ℕ → List (List ℕ) → List (List ℕ)
unfolding but_last last_or
move_last orig new bins =
    let source = get_or bins orig [] in
    let shrunk = set bins orig (but_last source) in
    set shrunk new (get_or shrunk new [] ++ last_or 0 source ∷ [])

-- The `while` of one new bin, with its `else`: the sources that are left, and the bins.
unfoldable pub fill_bin : ℕ → List (ℕ × ℕ) → List (List ℕ) → Result (List (ℕ × ℕ) × List (List ℕ))
unfolding move_last
fill_bin new [] bins = raise value_error
fill_bin new ((bin_size, orig) ∷ rest) bins =
    if ltb 1 (length (get_or bins orig []))
    then ok ((bin_size, orig) ∷ rest, move_last orig new bins)
    else fill_bin new rest bins

-- The `for` over the new bins: `n` of them, from index `new` on.
unfoldable pub fill_bins : ℕ → ℕ → List (ℕ × ℕ) → List (List ℕ) → Result (List (List ℕ))
unfolding fill_bin
fill_bins zero new sources bins = ok bins
fill_bins (suc n) new sources bins = do
  (sources', bins') ← fill_bin new sources bins
  fill_bins n (suc new) sources' bins'

unfoldable pub adjust_bin_count : Packer → List (List ℕ) → Result (List (List ℕ))
unfolding target_bin_count bin_sizes fill_bins
adjust_bin_count p bins =
    let current = length bins in
    let target = target_bin_count p current in
    if target == current
    then ok bins
    else if ltb (total length bins) target
    then raise value_error
    else fill_bins (target - current) current (bin_sizes bins)
        (bins ++ replicate (target - current) [])
