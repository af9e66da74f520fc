-- ===== src/Packing/Concatenative.antt =====
-- `ConcatenativePacker._pack_implementation` (nemo_rl/data/packing/algorithms.py). The class variable
-- `max_sequences_per_bin` is an argument, with `none` for -1, which disables the limit.
pub mod Laws
use nemo_rl_vlm.Prelude.{
  ℕ, suc, ◌+◌, List, [], ◌∷◌, ◌++◌, Option, none, some, Bool, false, ◌||◌, Result, ok, ◌>>=◌, ltb,
  leb, if◌then◌else◌, length,
}
use nemo_rl_vlm.Packing.Base.{validate_sequence_lengths}

pub record State : Type 0 where
  pub bins : List (List ℕ)
  pub current_bin : List ℕ
  pub current_length : ℕ

-- `exceeds_sequence_limit`
abbrev pub exceeds_limit : Option ℕ → List ℕ → Bool
exceeds_limit none bin = false
exceeds_limit (some limit) bin = leb limit (length bin)

-- `if current_bin: bins.append(current_bin)`
abbrev pub close_bin : List (List ℕ) → List ℕ → List (List ℕ)
close_bin bins [] = bins
close_bin bins (i ∷ bin) = bins ++ (i ∷ bin) ∷ []

-- One round of the `for`.
unfoldable pub place : ℕ → Option ℕ → ℕ → ℕ → State → State
place cap limit i len s =
    if ltb cap (s.current_length + len) || exceeds_limit limit s.current_bin
    then (record {
      bins = close_bin s.bins s.current_bin;
      current_bin = i ∷ [];
      current_length = len;
    })
    else (record {
      bins = s.bins;
      current_bin = s.current_bin ++ i ∷ [];
      current_length = s.current_length + len;
    })

-- The `for`, from index `i` on.
unfoldable pub place_all : ℕ → Option ℕ → ℕ → List ℕ → State → State
unfolding place
place_all cap limit i [] s = s
place_all cap limit i (len ∷ rest) s = place_all cap limit (suc i) rest (place cap limit i len s)

unfoldable pub pack_concatenative : ℕ → Option ℕ → List ℕ → Result (List (List ℕ))
unfolding validate_sequence_lengths place_all
pack_concatenative cap limit lens = do
  _ ← validate_sequence_lengths cap lens
  let s = place_all cap limit 0 lens (record { bins = []; current_bin = []; current_length = 0 })
  ok (close_bin s.bins s.current_bin)
