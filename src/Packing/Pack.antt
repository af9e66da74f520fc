-- ===== src/Packing/Pack.antt =====
-- `SequencePacker.pack` and `get_packer` (nemo_rl/data/packing/algorithms.py). A subclass is a
-- constructor of `Algorithm`, and a call of `_pack_implementation` matches on it. Metrics, which
-- `pack` only feeds, are left out.
pub mod Total
use Prim.Native.Char.{code}
use Prim.Native.String
use Prim.Native.String.{String}
use nemo_rl_vlm.Prelude.{
  ℕ, ◌-◌, List, [], ◌∷◌, map, Option, none, some, Bool, true, false, ◌&&◌, Result, ok, raise, ◌>>=◌,
  value_error, leb, ◌==◌, if◌then◌else◌,
}
use nemo_rl_vlm.Prelude.Int.{ℤ}
use nemo_rl_vlm.Packing.Base.{Packer, init}
use nemo_rl_vlm.Packing.Adjust.{adjust_bin_count}
use nemo_rl_vlm.Packing.Concatenative.{pack_concatenative}
use nemo_rl_vlm.Packing.FirstFit.{pack_first_fit_decreasing, pack_first_fit_shuffle}
use nemo_rl_vlm.Packing.Modified.{pack_modified}

-- `PackingAlgorithm`
pub data Algorithm : Type 0 where
  concatenative first_fit_decreasing first_fit_shuffle : Algorithm
  modified_first_fit_decreasing : Algorithm

module _ (shuffle : List (ℕ × ℕ) → List (ℕ × ℕ)) where
  -- The overrides of `_pack_implementation`; `max_sequences_per_bin` is -1.
  unfoldable pub pack_implementation : Algorithm → Packer → List ℕ → Result (List (List ℕ))
  unfolding pack_concatenative pack_first_fit_decreasing pack_first_fit_shuffle pack_modified
  pack_implementation concatenative p lens = pack_concatenative p.bin_capacity none lens
  pack_implementation first_fit_decreasing p lens = pack_first_fit_decreasing p.bin_capacity lens
  pack_implementation first_fit_shuffle p lens = pack_first_fit_shuffle shuffle p.bin_capacity lens
  pack_implementation modified_first_fit_decreasing p lens = pack_modified p.bin_capacity lens

  unfoldable pub pack : Algorithm → Packer → List ℕ → Result (List (List ℕ))
  unfolding pack_implementation adjust_bin_count
  pack algorithm p lens = do bins ← pack_implementation algorithm p lens; adjust_bin_count p bins

-- The code points of a text.
abbrev codes : String → List ℕ
codes String.[] = []
codes (String.◌∷◌ c s) = code c ∷ codes s

-- `str.upper`, on ASCII letters.
abbrev upper : ℕ → ℕ
upper c = if leb b'a' c && leb c b'z' then c - 32 else c

abbrev same_codes : List ℕ → List ℕ → Bool
same_codes [] [] = true
same_codes [] (d ∷ ds) = false
same_codes (c ∷ cs) [] = false
same_codes (c ∷ cs) (d ∷ ds) = c == d && same_codes cs ds

-- `PackingAlgorithm[name]`
unfoldable pub algorithm_of_name : List ℕ → Option Algorithm
algorithm_of_name name =
    if same_codes name (codes "CONCATENATIVE")
    then some concatenative
    else if same_codes name (codes "FIRST_FIT_DECREASING")
    then some first_fit_decreasing
    else if same_codes name (codes "FIRST_FIT_SHUFFLE")
    then some first_fit_shuffle
    else if same_codes name (codes "MODIFIED_FIRST_FIT_DECREASING")
    then some modified_first_fit_decreasing
    else none

-- `algorithm: Union[PackingAlgorithm, str]`
pub data Choice : Type 0 where
  by_member : Algorithm → Choice
  by_name : String → Choice

unfoldable pub chosen : Choice → Result Algorithm
unfolding algorithm_of_name
chosen (by_member algorithm) = ok algorithm
chosen (by_name name) = elim (algorithm_of_name (map upper (codes name))) [
  | none ↦ raise value_error
  | some algorithm ↦ ok algorithm
]

-- The packer and the class that it is made of.
unfoldable pub get_packer : Choice → ℕ → Option ℤ → Option ℤ → Result (Algorithm × Packer)
unfolding chosen init
get_packer choice bin_capacity min_bin_count bin_count_multiple = do
  algorithm ← chosen choice
  p ← init bin_capacity min_bin_count bin_count_multiple
  ok (algorithm, p)
