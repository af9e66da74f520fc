-- ===== src/Packing/Modified/Packs.antt =====
-- The modified first-fit-decreasing packer as a whole.
use nemo_rl_vlm.Prelude.{
  ℕ, suc, ◌+◌, ◌≤◌, ◌<◌, List, [], ◌∷◌, ◌++◌, map, flatten, Bool, true, false, ◌≡◌, refl, ap, ◌∙◌,
  ◌&&◌, ◌||◌, ok, leb, ◌==◌, if◌then◌else◌, arith, length, get_or, total, total-append,
  total-flatten, total-map, All, All-append, All-map, range_from,
}
use nemo_rl_vlm.Prelude.Sort.{sort, total-sort, All-sort}
use nemo_rl_vlm.Prelude.Multiset.{failures_none, none_failures}
use nemo_rl_vlm.Packing.Base.{load, IsPacking}
use nemo_rl_vlm.Packing.Concatenative.Laws.{validate_ok}
use nemo_rl_vlm.Packing.Modified.{
  Item, bin_size, Ffd, place_leftovers, index_bins, size_ge, items_from, has_zero, pack_large,
  pack_modified,
}
use nemo_rl_vlm.Packing.Modified.Passes.{Fits, pack_large-KeptAll}
use nemo_rl_vlm.Packing.Modified.Leftovers.{Sized, place_leftovers-total}

-- Every sequence can be packed: it is not empty, and fits in a bin.
abbrev pub Packable : ℕ → List ℕ → Type 0
Packable cap = All (λ len. (0 < len) × (len ≤ cap))

Packable-not_zero : (cap : ℕ) (lens : List ℕ) → Packable cap lens → has_zero lens ≡ false
Packable-not_zero cap [] h = refl
Packable-not_zero cap (len ∷ lens) h = ground (arith, h.0.0, Packable-not_zero cap lens h.1)

Sized-Fits :
    (cap : ℕ) (bins : List (List Item)) (sizes : List ℕ) → Sized cap bins sizes → Fits cap bins
Sized-Fits cap [] sizes h = tt
Sized-Fits cap (b ∷ bins) [] h = absurd h
Sized-Fits cap (b ∷ bins) (s ∷ sizes) h = (omega (arith, h.0, h.1), Sized-Fits cap bins sizes h.2)

total-index_bins :
    (f : ℕ → ℕ) (bins : List (List Item))
    → total f (flatten (index_bins bins)) ≡ total (total (λ it. f it.0)) bins
unfolding index_bins flatten
total-index_bins f [] = refl
total-index_bins f ([] ∷ bins) = omega (arith, total-index_bins f bins)
total-index_bins f ((it ∷ b) ∷ bins) = omega (
  arith,
  total-append f (map (λ (t : Item). t.0) (it ∷ b)) (flatten (index_bins bins)),
  total-map f (λ (t : Item). t.0) (it ∷ b),
  total-index_bins f bins,
)

module _ (cap : ℕ) (lens : List ℕ) where
  -- An item carries the length of its sequence.
  abbrev item_test : Item → Bool
  item_test it = leb it.1 cap && get_or lens it.0 0 == it.1

  abbrev Tested : Item → Type 0
  Tested it = item_test it ≡ true

  load-bin_size :
      (b : List Item)
      → All (λ it. item_test it ≡ true) b
      → load lens (map (λ it. it.0) b) ≡ bin_size b
  load-bin_size [] h = refl
  load-bin_size (it ∷ b) h = ground (arith, h.0, load-bin_size b h.1)

  index_bins-Fits :
      (bins : List (List Item))
      → Fits cap bins
      → All (All (λ it. item_test it ≡ true)) bins
      → All (λ bin. load lens bin ≤ cap) (index_bins bins)
  unfolding index_bins
  index_bins-Fits [] fits h = tt
  index_bins-Fits ([] ∷ bins) fits h = index_bins-Fits bins fits.1 h.1
  index_bins-Fits ((it ∷ b) ∷ bins) fits h =
      (omega (arith, load-bin_size (it ∷ b) h.0, fits.0), index_bins-Fits bins fits.1 h.1)

  index_bins-nonempty : (bins : List (List Item)) → All (λ bin. 0 < length bin) (index_bins bins)
  unfolding index_bins
  index_bins-nonempty [] = tt
  index_bins-nonempty ([] ∷ bins) = index_bins-nonempty bins
  index_bins-nonempty ((it ∷ b) ∷ bins) = (omega arith, index_bins-nonempty bins)

  All-split : (P : Item → Type 0) (xs ys : List Item) → All P (xs ++ ys) → All P xs × All P ys
  All-split P [] ys h = (tt, h)
  All-split P (x ∷ xs) ys h = let (left, right) = All-split P xs ys h.1 in ((h.0, left), right)

  All-flatten :
      (P : Item → Type 0) (bins : List (List Item)) → All P (flatten bins) → All (All P) bins
  unfolding flatten
  All-flatten P [] h = tt
  All-flatten P (b ∷ bins) h =
      let (here, rest) = All-split P b (flatten bins) h in (here, All-flatten P bins rest)

  items_tests :
      (rest : List ℕ) (i : ℕ)
      → All (λ len. len ≤ cap) rest
      → ((j k : ℕ) → j + i ≡ k → get_or lens k 0 ≡ get_or rest j 0)
      → All (λ it. item_test it ≡ true) (items_from i rest)
  items_tests [] i small suffix = tt
  items_tests (len ∷ rest) i small suffix = (
    ground (arith, small.0, suffix 0 i (omega arith)),
    items_tests rest (suc i) small.1 (λ j k e. suffix (suc j) k (omega arith)),
  )

  total-items_from :
      (f : ℕ → ℕ) (rest : List ℕ) (i : ℕ)
      → total (λ (it : Item). f it.0) (items_from i rest) ≡ total f (range_from i (length rest))
  total-items_from f [] i = refl
  total-items_from f (len ∷ rest) i = omega (arith, total-items_from f rest (suc i))

  test_small : (it : Item) → item_test it ≡ true → it.1 ≤ cap
  test_small it h = ground arith

  -- All five phases: the bins hold exactly the items, and none is overfull.
  phases :
      (items : List Item)
      → All (λ it. item_test it ≡ true) items
      → (s : Ffd) × (place_leftovers cap
            (sort size_ge (pack_large cap items).1)
            (record { bins = [] ∷ []; sizes = 0 ∷ [] })
          ≡ ok s)
        × ((f : Item → ℕ) → total (total f) ((pack_large cap items).0 ++ s.bins) ≡ total f items)
        × Fits cap ((pack_large cap items).0 ++ s.bins)
  phases items tests =
      let kept =
        pack_large-KeptAll cap items (All-map Tested (λ it. it.1 ≤ cap) items test_small tests) in
      let rest = (pack_large cap items).1 in
      let rest_tests : All Tested rest = none_failures item_test rest (
        omega (
          arith,
          kept.same (λ it. if item_test it then 0 else 1),
          failures_none item_test items tests,
        )) in
      let (s, run, inv, same) =
        place_leftovers-total cap (sort size_ge rest) (record { bins = [] ∷ []; sizes = 0 ∷ [] })
          (All-sort size_ge (λ it. it.1 ≤ cap) rest
            (All-map Tested (λ it. it.1 ≤ cap) rest test_small rest_tests))
          (record {
            sized = (refl, omega arith, tt);
            ascending = (tt, tt);
            some_bin = omega arith;
          }) in
      (
        s,
        run,
        λ f. omega (
          arith,
          total-append (total f) (pack_large cap items).0 s.bins,
          same f,
          total-sort size_ge f rest,
          kept.same f,
        ),
        All-append (λ b. bin_size b ≤ cap) (pack_large cap items).0 s.bins kept.fits
            (Sized-Fits cap s.bins s.sizes inv.sized),
      )

  -- Sequences that can be packed are packed, whatever their order.
  pub pack_modified_ok :
      0 < cap
      → Packable cap lens
      → (bins : List (List ℕ)) × (pack_modified cap lens ≡ ok bins) × IsPacking cap lens bins
  unfolding pack_modified
  pack_modified_ok pos packable =
      let small : All (λ len. len ≤ cap) lens =
        All-map (λ len. (0 < len) × (len ≤ cap)) (λ len. len ≤ cap) lens (λ len h. h.1) packable in
      let items = items_from 0 lens in
      let tests : All Tested items =
        items_tests lens 0 small
          (λ j k e. let e' : k ≡ j = omega arith in ap (λ t. get_or lens t 0) e') in
      let (s, run, same, fits) = phases items tests in
      let bins = (pack_large cap items).0 ++ s.bins in
      let no_fault : ((cap == 0) || has_zero lens) ≡ false =
        ground (arith, Packable-not_zero cap lens packable) in
      let bins_tests : All (All Tested) bins = All-flatten Tested bins (
        none_failures item_test (flatten bins) (
          omega (
            arith,
            total-flatten (λ it. if item_test it then 0 else 1) bins,
            same (λ it. if item_test it then 0 else 1),
            failures_none item_test items tests,
          ))) in
      (
        index_bins bins,
        rw (no_fault, validate_ok cap lens small, run),
        record {
          partition =
              λ f. total-index_bins f bins ∙ same (λ it. f it.0) ∙ total-items_from f lens 0;
          fits = index_bins-Fits bins fits bins_tests;
          nonempty = index_bins-nonempty bins;
        },
      )
