-- ===== src/Packing/Modified/Phases.antt =====
-- Phases 1 to 4: each keeps the items and the capacity. In phase 3 a first small item that has been
-- popped always finds its second.
use nemo_rl_vlm.Prelude.{
  ℕ, zero, suc, ◌+◌, ◌-◌, ◌≤◌, ◌<◌, List, [], ◌∷◌, ◌++◌, none, some, ◌≡◌, refl, ◌⊎◌, inl, inr, ltb,
  leb, ◌||◌, arith, Bool-cases, leb→le, leb_false→lt, total, total-append, All,
}
use nemo_rl_vlm.Packing.Modified.{
  Item, bin_size, pop_first_fit, pop_last_fit, add_medium, has_medium, add_second, add_smalls,
  last_size, fill,
}

-- A popped item fits, and is all that its list has lost.
pub record Popped (room : ℕ) (items : List Item) (it : Item) (rest : List Item) : Type 0 where
  pub fits : it.1 ≤ room
  pub same : (f : Item → ℕ) → total f items ≡ f it + total f rest

pub pop_first_fit_lem :
    (room : ℕ) (items : List Item)
    → ((pop_first_fit room items ≡ none) × All (λ it. room < it.1) items)
      ⊎ ((it : Item) × (rest : List Item) × (pop_first_fit room items ≡ some (it, rest))
          × Popped room items it rest)
unfolding pop_first_fit
pop_first_fit_lem room [] = inl (refl, tt)
pop_first_fit_lem room (it ∷ items) = elim (Bool-cases (leb it.1 room)) [
  | inl e ↦ inr (it, items, rw e, record { fits = leb→le _ _ e; same = λ f. refl })
  | inr e ↦ rw e (elim (pop_first_fit_lem room items) [
    | inl (miss, large) ↦ inl (rw miss, (leb_false→lt _ _ e, large))
    | inr (found, rest, hit, popped) ↦ inr (
      found,
      it ∷ rest,
      rw hit,
      record { fits = popped.fits; same = λ f. omega (arith, popped.same f) },
    )
  ])
]

pop_last_fit_lem :
    (room : ℕ) (items : List Item)
    → ((pop_last_fit room items ≡ none) × All (λ it. room < it.1) items)
      ⊎ ((it : Item) × (rest : List Item) × (pop_last_fit room items ≡ some (it, rest))
          × Popped room items it rest)
unfolding pop_last_fit
pop_last_fit_lem room [] = inl (refl, tt)
pop_last_fit_lem room (it ∷ items) = elim (pop_last_fit_lem room items) [
  | inr (found, rest, hit, popped) ↦ inr (
    found,
    it ∷ rest,
    rw hit,
    record { fits = popped.fits; same = λ f. omega (arith, popped.same f) },
  )
  | inl (miss, large) ↦ elim (Bool-cases (leb it.1 room)) [
    | inl e ↦ inr (it, items, rw (miss, e), record { fits = leb→le _ _ e; same = λ f. refl })
    | inr e ↦ inl (rw (miss, e), (leb_false→lt _ _ e, large))
  ]
]

-- A bin and the items beside it, before and after: no item is lost, and the bin is not overfull.
pub record Kept (cap : ℕ) (b items b' items' : List Item) : Type 0 where
  pub same : (f : Item → ℕ) → total f b' + total f items' ≡ total f b + total f items
  pub fits : bin_size b' ≤ cap

abbrev pub KeepsStep : ℕ → (List Item → List Item → List Item × List Item) → Type 0
KeepsStep cap step =
    (b items : List Item) → bin_size b ≤ cap → Kept cap b items (step b items).0 (step b items).1

module _ (cap : ℕ) where
  pub add_medium-Kept : KeepsStep cap (add_medium cap)
  unfolding add_medium
  add_medium-Kept b medium fits = elim (pop_first_fit_lem (cap - bin_size b) medium) [
    | inl (miss, _) ↦ rw (miss, add_medium) (record { same = λ f. refl; fits = fits })
    | inr (it, rest, hit, popped) ↦
        rw (hit, add_medium)
          (record {
            same = λ f. omega (arith, popped.same f, total-append f b (it ∷ []));
            fits = omega (arith, popped.fits, total-append (λ (t : Item). t.1) b (it ∷ []));
          })
  ]

  -- The test before the pop makes sure that the second item is found.
  add_second-Kept :
      (b small : List Item) (first next : Item)
      → bin_size b ≤ cap
      → first.1 + next.1 ≤ cap - bin_size b
      → Kept cap b
          (first ∷ next ∷ small)
          (add_second (cap - bin_size b) b first (next ∷ small)).0
          (add_second (cap - bin_size b) b first (next ∷ small)).1
  unfolding add_second
  add_second-Kept b small first next fits room =
      elim (pop_last_fit_lem (cap - bin_size b - first.1) (next ∷ small)) [
        | inl (miss, large) ↦ absurd (omega (arith, large.0))
        | inr (second, rest, hit, popped) ↦
            rw (hit, add_second)
              (record {
                same = λ f. omega (arith, popped.same f, total-append f b (first ∷ second ∷ []));
                fits =
                    omega (
                      arith,
                      popped.fits,
                      total-append (λ (t : Item). t.1) b (first ∷ second ∷ []),
                    );
              })
      ]

  pub add_smalls-Kept : KeepsStep cap (add_smalls cap)
  unfolding add_smalls
  add_smalls-Kept b [] fits = record { same = λ f. refl; fits = fits }
  add_smalls-Kept b (first ∷ []) fits = record { same = λ f. refl; fits = fits }
  add_smalls-Kept b (first ∷ next ∷ small) fits =
      elim (Bool-cases (has_medium cap b || ltb (cap - bin_size b) (first.1 + next.1))) [
        | inl e ↦ rw (e, add_smalls) (record { same = λ f. refl; fits = fits })
        | inr e ↦ rw (e, add_smalls) (add_second-Kept b small first next fits (ground arith))
      ]

  pub fill-Kept : (fuel : ℕ) → KeepsStep cap (fill fuel cap)
  unfolding fill
  fill-Kept zero b items fits = record { same = λ f. refl; fits = fits }
  fill-Kept (suc fuel) b [] fits = record { same = λ f. refl; fits = fits }
  fill-Kept (suc fuel) b (it ∷ items) fits =
      elim (Bool-cases (ltb (cap - bin_size b) (last_size it items))) [
        | inl e ↦ rw (e, fill) (record { same = λ f. refl; fits = fits })
        | inr e ↦ elim (pop_first_fit_lem (cap - bin_size b) (it ∷ items)) [
          | inl (miss, _) ↦ rw (e, miss, fill) (record { same = λ f. refl; fits = fits })
          | inr (chosen, rest, hit, popped) ↦
              let size = total-append (λ (t : Item). t.1) b (chosen ∷ []) in
              let next =
                fill-Kept fuel (b ++ chosen ∷ []) rest (omega (arith, popped.fits, size)) in
              rw (e, hit, fill)
                (record {
                  same = λ f.
                      omega (arith, next.same f, popped.same f, total-append f b (chosen ∷ []));
                  fits = next.fits;
                })
        ]
      ]
