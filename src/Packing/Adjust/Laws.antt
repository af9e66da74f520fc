-- ===== src/Packing/Adjust/Laws.antt =====
-- The loop of `_adjust_bin_count` finds a source for every new bin, and keeps the packing.
use nemo_rl_vlm.Prelude.{
  ℕ, zero, suc, ◌≤◌, ◌<◌, List, [], ◌∷◌, flatten, ◌≡◌, refl, ◌⊎◌, inl, inr, ◌∙◌, arith, Bool-cases,
  ltb→lt, ltb_false→le, ok, ltb, length, get_or, total, total-flatten, total_one,
}
use nemo_rl_vlm.Packing.Adjust.{move_last, fill_bin}
use nemo_rl_vlm.Packing.Adjust.Moves.{length-move_last_bins, length-move_last}

-- Index `i` is one of the sources.
abbrev pub Has : ℕ → List (ℕ × ℕ) → Type 0
Has i [] = ⊥
Has i (s ∷ rest) = (s.1 ≡ i) ⊎ Has i rest

-- Before the new bin `new` is filled: there are `target` bins, those from `new` on are empty, and
-- every bin with two sequences or more is still a source.
pub record Inv (target new : ℕ) (sources : List (ℕ × ℕ)) (bins : List (List ℕ)) : Type 0 where
  pub size : length bins ≡ target
  pub blank : (j : ℕ) → new ≤ j → length (get_or bins j []) ≡ 0
  pub covered : (i : ℕ) → 1 < length (get_or bins i []) → Has i sources

pub total_congr {ℓ} :
    {A : Type ℓ} (f g : A → ℕ) (xs : List A) → ((x : A) → f x ≡ g x) → total f xs ≡ total g xs
total_congr f g [] h = refl
total_congr f g (x ∷ xs) h = omega (arith, h x, total_congr f g xs h)

-- The number of sequences in all the bins.
pub total-length : (bins : List (List ℕ)) → total length bins ≡ total (λ _. 1) (flatten bins)
total-length bins = omega (
  arith,
  total-flatten (λ _. 1) bins,
  total_congr (total (λ _. 1)) length bins (λ bin. total_one bin),
)

-- With at most one sequence in a bin, and none from `new` on, there are at most `new`.
total-length-le :
    (bins : List (List ℕ)) (new : ℕ)
    → ((i : ℕ) → length (get_or bins i []) ≤ 1)
    → ((j : ℕ) → new ≤ j → length (get_or bins j []) ≡ 0)
    → total length bins ≤ new
total-length-le [] new small blank = omega arith
total-length-le (bin ∷ bins) zero small blank = omega (
  arith,
  blank 0,
  total-length-le bins 0 (λ i. small (suc i)) (λ j le. blank (suc j) (omega arith)),
)
total-length-le (bin ∷ bins) (suc new) small blank = omega (
  arith,
  small 0,
  total-length-le bins new (λ i. small (suc i)) (λ j le. blank (suc j) (omega arith)),
)

module _ (target new : ℕ) (bins : List (List ℕ)) (room : new < target)
    (enough : target ≤ total length bins) where
  -- The `while` ends at a source: its `else`, which raises, is never reached.
  pub fill_bin_total :
      (sources : List (ℕ × ℕ))
      → Inv target new sources bins
      → (sources' : List (ℕ × ℕ)) × (orig : ℕ) × (fill_bin new sources bins
          ≡ ok (sources', move_last orig new bins))
        × (1 < length (get_or bins orig []))
        × Inv target new sources' bins
  unfolding fill_bin
  fill_bin_total [] inv =
      let few : total length bins ≤ new =
        total-length-le bins new
          (λ i. elim (Bool-cases (ltb 1 (length (get_or bins i [])))) [
            | inl e ↦ absurd (inv.covered i (ltb→lt _ _ e))
            | inr e ↦ ltb_false→le _ _ e
          ])
          inv.blank in
      absurd (omega arith)
  fill_bin_total ((bin_size, orig) ∷ rest) inv =
      elim (Bool-cases (ltb 1 (length (get_or bins orig [])))) [
        | inl e ↦ ((bin_size, orig) ∷ rest, orig, rw e, ltb→lt _ _ e, inv)
        | inr e ↦ rw e (
            fill_bin_total rest (record {
              size = inv.size;
              blank = inv.blank;
              covered = λ i long. elim (inv.covered i long) [
                | inl same ↦ absurd (ground arith)
                | inr later ↦ later
              ];
            }))
      ]

  -- The move re-establishes the invariant for the next new bin.
  pub move_last-Inv :
      (sources : List (ℕ × ℕ)) (orig : ℕ)
      → 1 < length (get_or bins orig [])
      → Inv target new sources bins
      → Inv target (suc new) sources (move_last orig new bins)
  move_last-Inv sources orig long inv =
      let blank : length (get_or bins new []) ≡ 0 = inv.blank new (omega arith) in
      let inside : new < length bins = omega (arith, inv.size) in
      record {
        size = length-move_last_bins bins orig new long blank inside ∙ inv.size;
        blank =
            λ j le. ground (arith, length-move_last bins orig new long blank inside j, inv.blank j);
        covered = λ i lt.
            inv.covered i (ground (arith, length-move_last bins orig new long blank inside i));
      }
