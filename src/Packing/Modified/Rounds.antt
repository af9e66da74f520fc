-- ===== src/Packing/Modified/Rounds.antt =====
-- The `while` of phase 4 has rounds enough.
use nemo_rl_vlm.Prelude.{
  ℕ, zero, suc, ◌-◌, ◌≤◌, List, [], ◌∷◌, ◌++◌, none, ◌≡◌, inl, inr, ltb, true, arith, Bool-cases,
  length, total_one,
}
use nemo_rl_vlm.Packing.Modified.{Item, bin_size, pop_first_fit, last_size, fill, fill_bin}
use nemo_rl_vlm.Packing.Modified.Phases.{pop_first_fit_lem}

-- The loop is over: no item is left, or the last one, or each one, is too large for the bin.
pub data Stopped (cap : ℕ) : List Item × List Item → Type 0 where
  nothing_left : (b : List Item) → Stopped cap (b, [])
  last_too_large :
      (b : List Item) (it : Item) (items : List Item)
      → ltb (cap - bin_size b) (last_size it items) ≡ true
      → Stopped cap (b, it ∷ items)
  none_fits :
      (b : List Item) (it : Item) (items : List Item)
      → pop_first_fit (cap - bin_size b) (it ∷ items) ≡ none
      → Stopped cap (b, it ∷ items)

fill-Stopped :
    (fuel cap : ℕ) (b items : List Item) → length items ≤ fuel → Stopped cap (fill fuel cap b items)
unfolding fill
fill-Stopped zero cap b [] h = nothing_left b
fill-Stopped zero cap b (it ∷ items) h = absurd (omega arith)
fill-Stopped (suc fuel) cap b [] h = nothing_left b
fill-Stopped (suc fuel) cap b (it ∷ items) h =
    elim (Bool-cases (ltb (cap - bin_size b) (last_size it items))) [
      | inl e ↦ rw (e, fill) (last_too_large b it items e)
      | inr e ↦ elim (pop_first_fit_lem (cap - bin_size b) (it ∷ items)) [
        | inl (miss, large) ↦ rw (e, miss, fill) (none_fits b it items miss)
        | inr (found, rest, hit, popped) ↦
            rw (e, hit, fill)
              (fill-Stopped fuel cap (b ++ found ∷ []) rest (
                omega
                  (arith, h, popped.same (λ _. 1), total_one {0} (it ∷ items), total_one {0} rest)))
      ]
    ]

-- The rounds of phase 4 for one bin, as many as there are items, are enough: at the end no item is left,
-- or the last one does not fit, or none does, as the loop of the source ends.
pub fill_bin-Stopped : (cap : ℕ) (b items : List Item) → Stopped cap (fill_bin cap b items)
unfolding fill_bin
fill_bin-Stopped cap b items = fill-Stopped (length items) cap b items (omega arith)
