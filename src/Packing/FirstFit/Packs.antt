-- ===== src/Packing/FirstFit/Packs.antt =====
-- The two first-fit packers: they return exactly when every sequence fits, and what they return.
use nemo_rl_vlm.Prelude.{
  ℕ, suc, ◌+◌, ◌*◌, ◌≤◌, List, [], ◌∷◌, flatten, Bool, true, ◌≡◌, refl, sym, ap, inl, inr, ok, ltb,
  leb, ◌==◌, ◌&&◌, arith, Bool-cases, ltb_false→le, length, get_or, total, All, All-map, >>=-eq-ok,
  indexed_from, range_from,
}
use nemo_rl_vlm.Prelude.Sort.{sort, total-sort}
use nemo_rl_vlm.Prelude.Multiset.{SameItems, All-of_SameItems}
use nemo_rl_vlm.Packing.Base.{IsPacking, tuple_ge}
use nemo_rl_vlm.Packing.FirstFit.{
  State, place, place_all, first_fit, pack_first_fit_decreasing, pack_first_fit_shuffle,
}
use nemo_rl_vlm.Packing.FirstFit.Laws.{IsItem, place_all-total, Inv-fits}
use nemo_rl_vlm.Packing.FirstFit.Bound.{IsNearOptimal, Inv-IsNearOptimal}

module _ (cap : ℕ) (lens : List ℕ) where
  item_test : ℕ × ℕ → Bool
  item_test it = leb it.0 cap && get_or lens it.1 0 == it.0

  item_test-IsItem : (it : ℕ × ℕ) → item_test it ≡ true → IsItem cap lens it
  unfolding item_test
  item_test-IsItem (len, idx) h = (ground arith, ground arith)

  indexed_tests :
      (rest : List ℕ) (i : ℕ)
      → All (λ len. len ≤ cap) rest
      → ((j k : ℕ) → j + i ≡ k → get_or lens k 0 ≡ get_or rest j 0)
      → All (λ it. item_test it ≡ true) (indexed_from i rest)
  unfolding item_test
  indexed_tests [] i small suffix = tt
  indexed_tests (len ∷ rest) i small suffix = (
    ground (arith, small.0, suffix 0 i (omega arith)),
    indexed_tests rest (suc i) small.1 (λ j k e. suffix (suc j) k (omega arith)),
  )

  total-indexed_from :
      (f : ℕ → ℕ) (rest : List ℕ) (i : ℕ)
      → total (λ (it : ℕ × ℕ). f it.1) (indexed_from i rest) ≡ total f (range_from i (length rest))
  total-indexed_from f [] i = refl
  total-indexed_from f (len ∷ rest) i = omega (arith, total-indexed_from f rest (suc i))

  -- First fit over the sequences in any order.
  first_fit_total :
      (items : List (ℕ × ℕ))
      → SameItems items (indexed_from 0 lens)
      → All (λ len. len ≤ cap) lens
      → (bins : List (List ℕ)) × (first_fit cap items ≡ ok bins)
        × IsPacking cap lens bins
        × IsNearOptimal cap lens bins
  unfolding first_fit flatten
  first_fit_total items same small =
      let good : All (IsItem cap lens) items =
        All-map (λ it. item_test it ≡ true) (IsItem cap lens) items item_test-IsItem
          (All-of_SameItems item_test (indexed_from 0 lens) items same (
            indexed_tests lens 0 small
              (λ j k e. let e' : k ≡ j = omega arith in ap (λ t. get_or lens t 0) e'))) in
      let (s, run, inv, kept) =
        place_all-total cap lens items (record { bins = []; bin_remaining = [] }) good
          (record { aligned = tt; far = tt }) in
      let (fits, nonempty) = Inv-fits cap lens s inv in
      let packed : IsPacking cap lens s.bins = record {
        partition = λ f. omega (arith, kept f, same (λ it. f it.1), total-indexed_from f lens 0);
        fits = fits;
        nonempty = nonempty;
      } in
      (s.bins, rw run, packed, Inv-IsNearOptimal cap lens s inv packed)

  -- A round that does not raise had an item that fits.
  ok_place : (len idx : ℕ) (s : State) {s' : State} → place cap (len, idx) s ≡ ok s' → len ≤ cap
  unfolding place
  ok_place len idx s h = elim (Bool-cases (ltb cap len)) [
    | inl e ↦ absurd (ground arith)
    | inr e ↦ ltb_false→le _ _ e
  ]

  ok_place_all :
      (items : List (ℕ × ℕ)) (s : State) {s' : State}
      → place_all cap items s ≡ ok s'
      → All (λ it. leb it.0 cap ≡ true) items
  unfolding place_all
  ok_place_all [] s h = tt
  ok_place_all ((len, idx) ∷ items) s h =
      let (t, run, rest) = >>=-eq-ok (place cap (len, idx) s) _ h in
      (ground (arith, ok_place len idx s run), ok_place_all items t rest)

  indexed_small :
      (rest : List ℕ) (i : ℕ)
      → All (λ it. leb it.0 cap ≡ true) (indexed_from i rest)
      → All (λ len. len ≤ cap) rest
  indexed_small [] i h = tt
  indexed_small (len ∷ rest) i h = (ground (arith, h.0), indexed_small rest (suc i) h.1)

  ok_first_fit :
      (items : List (ℕ × ℕ))
      → SameItems items (indexed_from 0 lens)
      → {bins : List (List ℕ)} → first_fit cap items ≡ ok bins
      → All (λ len. len ≤ cap) lens
  unfolding first_fit
  ok_first_fit items same h =
      let (s, run, _) =
        >>=-eq-ok (place_all cap items (record { bins = []; bin_remaining = [] })) _ h in
      indexed_small lens 0 (
        All-of_SameItems (λ it. leb it.0 cap) items (indexed_from 0 lens) (λ f. sym (same f))
          (ok_place_all items _ run))

  -- First-fit decreasing.
  pub pack_first_fit_decreasing_ok :
      All (λ len. len ≤ cap) lens
      → (bins : List (List ℕ)) × (pack_first_fit_decreasing cap lens ≡ ok bins)
        × IsPacking cap lens bins
        × IsNearOptimal cap lens bins
  unfolding pack_first_fit_decreasing
  pack_first_fit_decreasing_ok =
      first_fit_total (sort tuple_ge (indexed_from 0 lens))
        (λ f. total-sort tuple_ge f (indexed_from 0 lens))

  -- First fit over any shuffle that only rearranges its list.
  module _ (shuffle : List (ℕ × ℕ) → List (ℕ × ℕ))
      (shuffles : (items : List (ℕ × ℕ)) → SameItems (shuffle items) items) where
    pub pack_first_fit_shuffle_ok :
        All (λ len. len ≤ cap) lens
        → (bins : List (List ℕ)) × (pack_first_fit_shuffle shuffle cap lens ≡ ok bins)
          × IsPacking cap lens bins
          × IsNearOptimal cap lens bins
    unfolding pack_first_fit_shuffle
    pack_first_fit_shuffle_ok = first_fit_total (shuffle (indexed_from 0 lens)) (shuffles _)

    pub ok_pack_first_fit_shuffle :
        {bins : List (List ℕ)}
        → pack_first_fit_shuffle shuffle cap lens ≡ ok bins
        → All (λ len. len ≤ cap) lens
    unfolding pack_first_fit_shuffle
    ok_pack_first_fit_shuffle = ok_first_fit (shuffle (indexed_from 0 lens)) (shuffles _)

-- First fit in any order that a shuffle puts the sequences in never makes more than twice the bins of any
-- packing of the same sequences into the same capacity, and one more; so also not of a best one.
pub pack_first_fit_shuffle-le :
    (shuffle : List (ℕ × ℕ) → List (ℕ × ℕ)) (cap : ℕ) (lens : List ℕ) (bins other : List (List ℕ))
    → ((items : List (ℕ × ℕ)) → SameItems (shuffle items) items)
    → pack_first_fit_shuffle shuffle cap lens ≡ ok bins
    → IsPacking cap lens other
    → length bins ≤ 2 * length other + 1
pack_first_fit_shuffle-le shuffle cap lens bins other shuffles h best =
    let (bins', run, _, near) =
      pack_first_fit_shuffle_ok cap lens shuffle shuffles
        (ok_pack_first_fit_shuffle cap lens shuffle shuffles h) in
    let same : bins ≡ bins' = cc in rw same (near other best)
