-- ===== src/Packing/Base.antt =====
-- The base class of the packers (nemo_rl/data/packing/algorithms.py, `SequencePacker`): its fields,
-- its constructor, the checks that the packers share, and what a packing is.
use nemo_rl_vlm.Prelude.{
  Bool, ◌&&◌, ◌||◌, leb, ◌==◌, ℕ, ◌≤◌, ◌<◌, List, [], ◌∷◌, flatten, Option, none, some, Result, ok,
  raise, ◌>>=◌, value_error, ltb, if◌then◌else◌, length, get_or, total, All, range_from, ◌≡◌, arith,
}
use nemo_rl_vlm.Prelude.Int.{ℤ, pos, negsuc}
use nemo_rl_vlm.Prelude.Multiset.{SameItems}

pub record Packer : Type 0 where
  pub bin_capacity : ℕ
  pub min_bin_count : Option ℕ
  pub bin_count_multiple : Option ℕ

-- `min_bin_count is not None and min_bin_count < 0`
check_min_bin_count : Option ℤ → Result (Option ℕ)
check_min_bin_count none = ok none
check_min_bin_count (some (pos n)) = ok (some n)
check_min_bin_count (some (negsuc n)) = raise value_error

-- `bin_count_multiple is not None and bin_count_multiple < 1`
check_bin_count_multiple : Option ℤ → Result (Option ℕ)
check_bin_count_multiple none = ok none
check_bin_count_multiple (some (pos n)) = if ltb n 1 then raise value_error else ok (some n)
check_bin_count_multiple (some (negsuc n)) = raise value_error

-- The constructor.
unfoldable pub init : ℕ → Option ℤ → Option ℤ → Result Packer
unfolding check_min_bin_count check_bin_count_multiple
init bin_capacity min_bin_count bin_count_multiple = do
  least ← check_min_bin_count min_bin_count
  multiple ← check_bin_count_multiple bin_count_multiple
  ok (record { bin_capacity = bin_capacity; min_bin_count = least; bin_count_multiple = multiple })

-- A multiple is at least 1, as the constructor checks.
pub record IsValid (p : Packer) : Type 0 where
  pub multiple_pos : (k : ℕ) → p.bin_count_multiple ≡ some k → 0 < k

pub init-IsValid :
    (cap : ℕ) (least multiple : Option ℤ) {p : Packer} → init cap least multiple ≡ ok p → IsValid p
unfolding init
init-IsValid cap least multiple h = record { multiple_pos = λ k e. ground arith }

-- `list.sort(reverse=True)` on pairs of ints: tuples compare by their first parts, then the second.
abbrev pub tuple_ge : ℕ × ℕ → ℕ × ℕ → Bool
tuple_ge p q = ltb q.0 p.0 || (p.0 == q.0 && leb q.1 p.1)

-- `_validate_sequence_lengths`
unfoldable pub validate_sequence_lengths : ℕ → List ℕ → Result (Unit {0})
validate_sequence_lengths cap [] = ok tt
validate_sequence_lengths cap (length ∷ rest) =
    if ltb cap length then raise value_error else validate_sequence_lengths cap rest

-- The load of a bin of indices.
abbrev pub load : List ℕ → List ℕ → ℕ
load lens = total (λ i. get_or lens i 0)

-- A packing of the sequences 0 to n - 1: each index stands in exactly one bin, and once; no bin is
-- overfull and none is empty.
pub record IsPacking (cap : ℕ) (lens : List ℕ) (bins : List (List ℕ)) : Type 0 where
  pub partition : SameItems (flatten bins) (range_from 0 (length lens))
  pub fits : All (λ bin. load lens bin ≤ cap) bins
  pub nonempty : All (λ bin. 0 < length bin) bins
