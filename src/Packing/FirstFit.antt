-- ===== src/Packing/FirstFit.antt =====
-- The first-fit packers (nemo_rl/data/packing/algorithms.py): `FirstFitPacker._pack_implementation`
-- with the two orders of its subclasses. `random.shuffle` is an argument.
pub mod Laws
pub mod Bound
pub mod Packs
use nemo_rl_vlm.Prelude.{
  ℕ, zero, suc, ◌+◌, ◌-◌, List, [], ◌∷◌, ◌++◌, map, Option, none, some, Bool, ◌&&◌, ◌||◌, Result,
  ok, raise, ◌>>=◌, value_error, ltb, leb, ◌==◌, if◌then◌else◌, get_or, set, indexed_from,
}
use nemo_rl_vlm.Prelude.Sort.{sort}
use nemo_rl_vlm.Packing.Base.{tuple_ge}

-- `bins` and `bin_remaining`, two lists side by side.
pub record State : Type 0 where
  pub bins : List (List ℕ)
  pub bin_remaining : List ℕ

-- The inner `for`: the index of the first bin with room, counted from `i`.
unfoldable pub find_bin : ℕ → ℕ → List ℕ → Option ℕ
find_bin len i [] = none
find_bin len i (remaining ∷ rest) = if leb len remaining then some i else find_bin len (suc i) rest

-- The item goes to the bin that was found, or opens a new one.
unfoldable pub put_item : ℕ → ℕ → ℕ → Option ℕ → State → State
put_item cap len idx (some i) s = record {
  bins = set s.bins i (get_or s.bins i [] ++ idx ∷ []);
  bin_remaining = set s.bin_remaining i (get_or s.bin_remaining i 0 - len);
}
put_item cap len idx none s = record {
  bins = s.bins ++ (idx ∷ []) ∷ [];
  bin_remaining = s.bin_remaining ++ (cap - len) ∷ [];
}

-- One round of the outer `for`.
unfoldable pub place : ℕ → ℕ × ℕ → State → Result State
unfolding find_bin put_item
place cap (len, idx) s =
    if ltb cap len
    then raise value_error
    else ok (put_item cap len idx (find_bin len 0 s.bin_remaining) s)

unfoldable pub place_all : ℕ → List (ℕ × ℕ) → State → Result State
unfolding place
place_all cap [] s = ok s
place_all cap (item ∷ items) s = place cap item s >>= place_all cap items

unfoldable pub first_fit : ℕ → List (ℕ × ℕ) → Result (List (List ℕ))
unfolding place_all
first_fit cap items = do
  s ← place_all cap items (record { bins = []; bin_remaining = [] })
  ok s.bins

-- `FirstFitDecreasingPacker._prepare_sequences`
unfoldable pub prepare_decreasing : List ℕ → List (ℕ × ℕ)
prepare_decreasing lens = sort tuple_ge (indexed_from 0 lens)

-- `FirstFitShufflePacker._prepare_sequences`
unfoldable pub prepare_shuffled : (List (ℕ × ℕ) → List (ℕ × ℕ)) → List ℕ → List (ℕ × ℕ)
prepare_shuffled shuffle lens = shuffle (indexed_from 0 lens)

unfoldable pub pack_first_fit_decreasing : ℕ → List ℕ → Result (List (List ℕ))
unfolding prepare_decreasing first_fit
pack_first_fit_decreasing cap lens = first_fit cap (prepare_decreasing lens)

unfoldable pub pack_first_fit_shuffle :
    (List (ℕ × ℕ) → List (ℕ × ℕ)) → ℕ → List ℕ → Result (List (List ℕ))
unfolding prepare_shuffled first_fit
pack_first_fit_shuffle shuffle cap lens = first_fit cap (prepare_shuffled shuffle lens)
