-- ===== src/Packing/Modified/Passes.antt =====
-- The passes over all bins, and phases 0 to 4 together.
use nemo_rl_vlm.Prelude.{
  ℕ, ◌+◌, ◌*◌, ◌≤◌, List, [], ◌∷◌, ◌++◌, map, ◌≡◌, refl, inl, inr, ltb, arith, Bool-cases, length,
  total, total-append, All, All-append,
}
use nemo_rl_vlm.Prelude.Sort.{sort, total-sort, All-sort}
use nemo_rl_vlm.Packing.Modified.{
  Item, bin_size, Classes, classify, classify_items, add_medium, add_smalls, fill_bin, forward,
  backward, size_ge, size_le, pack_large,
}
use nemo_rl_vlm.Packing.Modified.Phases.{KeepsStep, add_medium-Kept, add_smalls-Kept, fill-Kept}

abbrev pub Fits : ℕ → List (List Item) → Type 0
Fits cap bins = All (λ b. bin_size b ≤ cap) bins

-- The bins and the items beside them, before and after a pass.
pub record KeptAll (cap : ℕ) (bins : List (List Item)) (items : List Item)
    (bins' : List (List Item)) (items' : List Item) : Type 0 where
  pub same :
      (f : Item → ℕ) → total (total f) bins' + total f items' ≡ total (total f) bins + total f items
  pub fits : Fits cap bins'

module _ (cap : ℕ) (step : List Item → List Item → List Item × List Item)
    (keeps : KeepsStep cap step) where
  forward-KeptAll :
      (bins : List (List Item)) (items : List Item)
      → Fits cap bins
      → KeptAll cap bins items (forward step bins items).0 (forward step bins items).1
  unfolding forward
  forward-KeptAll [] items fits = record { same = λ f. refl; fits = tt }
  forward-KeptAll (b ∷ bins) items fits =
      let kept = keeps b items fits.0 in
      let rest = forward-KeptAll bins (step b items).1 fits.1 in
      record { same = λ f. omega (arith, kept.same f, rest.same f); fits = (kept.fits, rest.fits) }

  backward-KeptAll :
      (bins : List (List Item)) (items : List Item)
      → Fits cap bins
      → KeptAll cap bins items (backward step bins items).0 (backward step bins items).1
  unfolding backward
  backward-KeptAll [] items fits = record { same = λ f. refl; fits = tt }
  backward-KeptAll (b ∷ bins) items fits =
      let rest = backward-KeptAll bins items fits.1 in
      let kept = keeps b (backward step bins items).1 fits.0 in
      record { same = λ f. omega (arith, kept.same f, rest.same f); fits = (kept.fits, rest.fits) }

total_classes : (Item → ℕ) → Classes → ℕ
total_classes f c = total f c.large + total f c.medium + total f c.small + total f c.tiny

module _ (cap : ℕ) where
  abbrev Small : Item → Type 0
  Small it = it.1 ≤ cap

  total-classify :
      (f : Item → ℕ) (it : Item) (c : Classes)
      → total_classes f (classify cap it c) ≡ f it + total_classes f c
  unfolding total_classes classify
  total-classify f it c = ground (
    arith,
    total-append f c.large (it ∷ []),
    total-append f c.medium (it ∷ []),
    total-append f c.small (it ∷ []),
    total-append f c.tiny (it ∷ []),
  )

  classify-Small :
      (it : Item) (c : Classes) → Small it → All Small c.large → All Small (classify cap it c).large
  unfolding classify
  classify-Small it c small h = elim (Bool-cases (ltb cap (2 * it.1))) [
    | inl e ↦ rw e (All-append Small c.large (it ∷ []) h (small, tt))
    | inr e ↦ rw e (elim (Bool-cases (ltb cap (3 * it.1))) [
      | inl e' ↦ rw e' h
      | inr e' ↦
          rw e' (elim (Bool-cases (ltb cap (6 * it.1))) [ inl e'' ↦ rw e'' h | inr e'' ↦ rw e'' h ])
    ])
  ]

  total-classify_items :
      (f : Item → ℕ) (items : List Item) (c : Classes)
      → total_classes f (classify_items cap items c) ≡ total f items + total_classes f c
  unfolding classify_items
  total-classify_items f [] c = omega arith
  total-classify_items f (it ∷ items) c =
      omega (arith, total-classify_items f items (classify cap it c), total-classify f it c)

  classify_items-Small :
      (items : List Item) (c : Classes)
      → All Small items
      → All Small c.large
      → All Small (classify_items cap items c).large
  unfolding classify_items
  classify_items-Small [] c small h = h
  classify_items-Small (it ∷ items) c small h =
      classify_items-Small items (classify cap it c) small.1 (classify-Small it c small.0 h)

  singles-Fits : (items : List Item) → All Small items → Fits cap (map (λ it. it ∷ []) items)
  singles-Fits [] h = tt
  singles-Fits (it ∷ items) h = (omega (arith, h.0), singles-Fits items h.1)

  total-singles :
      (f : Item → ℕ) (items : List Item)
      → total (total f) (map (λ it. it ∷ []) items) ≡ total f items
  total-singles f [] = refl
  total-singles f (it ∷ items) = omega (arith, total-singles f items)

  fill_bin-Kept : KeepsStep cap (fill_bin cap)
  unfolding fill_bin
  fill_bin-Kept b items fits = fill-Kept cap (length items) b items fits

  -- Phases 0 to 4 neither lose nor invent an item, and overfill no bin.
  pub pack_large-KeptAll :
      (items : List Item)
      → All Small items
      → KeptAll cap [] items (pack_large cap items).0 (pack_large cap items).1
  unfolding pack_large total_classes
  pack_large-KeptAll items small =
      let none_yet : Classes = record { large = []; medium = []; small = []; tiny = [] } in
      let c = classify_items cap items none_yet in
      let large = sort size_ge c.large in
      let medium = sort size_ge c.medium in
      let smalls = sort size_le c.small in
      let tiny = sort size_le c.tiny in
      let singles : List (List Item) = map (λ it. it ∷ []) large in
      let started =
        singles-Fits large
          (All-sort size_ge Small c.large (classify_items-Small items none_yet small tt)) in
      let two = forward (add_medium cap) singles medium in
      let kept_two =
        forward-KeptAll cap (add_medium cap) (add_medium-Kept cap) singles medium started in
      let three = backward (add_smalls cap) two.0 smalls in
      let kept_three =
        backward-KeptAll cap (add_smalls cap) (add_smalls-Kept cap) two.0 smalls kept_two.fits in
      let rest = (two.1 ++ three.1) ++ tiny in
      let kept_four =
        forward-KeptAll cap (fill_bin cap) fill_bin-Kept three.0 (sort size_ge rest)
          kept_three.fits in
      record {
        same = λ f. omega (
          arith,
          kept_two.same f,
          kept_three.same f,
          kept_four.same f,
          total-singles f large,
          total-sort size_ge f c.large,
          total-sort size_ge f c.medium,
          total-sort size_le f c.small,
          total-sort size_le f c.tiny,
          total-sort size_ge f rest,
          total-append f (two.1 ++ three.1) tiny,
          total-append f two.1 three.1,
          total-classify_items f items none_yet,
        );
        fits = kept_four.fits;
      }
