-- ===== src/Packing/FirstFit/Laws.antt =====
-- First fit keeps the two lists aligned, loses no sequence, and never overfills a bin; no two of its
-- bins could have been one.
use nemo_rl_vlm.Prelude.{
  ℕ, zero, suc, ◌+◌, ◌-◌, ◌≤◌, ◌<◌, List, [], ◌∷◌, ◌++◌, flatten, none, some, false, ◌≡◌, refl, sym,
  ap, ◌∙◌, ◌⊎◌, inl, inr, ok, ltb, leb, arith, Bool-cases, leb→le, leb_false→lt, length, get_or,
  get_elem?, set, total, total-append, total-flatten, total-set, All, All-append, All-map,
  length-append,
}
use mathlib.Core.Path.{subst}
use nemo_rl_vlm.Packing.Base.{load}
use nemo_rl_vlm.Packing.FirstFit.{State, find_bin, put_item, place, place_all}

-- Either no bin has room, or bin `i + k` has.
pub find_bin_lem :
    (len i : ℕ) (rem : List ℕ)
    → ((find_bin len i rem ≡ none) × All (λ r. r < len) rem)
      ⊎ ((k r : ℕ) × (find_bin len i rem ≡ some (i + k)) × (get_elem? rem k ≡ some r) × (len ≤ r))
unfolding find_bin
find_bin_lem len i [] = inl (refl, tt)
find_bin_lem len i (r ∷ rem) = elim (Bool-cases (leb len r)) [
  | inl e ↦ inr (0, r, rw e (ap some (omega arith)), refl, leb→le _ _ e)
  | inr e ↦ rw e (elim (find_bin_lem len (suc i) rem) [
    | inl (no_room, small) ↦ inl (no_room, (leb_false→lt _ _ e, small))
    | inr (k, s, found, at, room) ↦ inr (suc k, s, found ∙ ap some (omega arith), at, room)
  ])
]

-- Two bins whose remaining room together is less than a whole bin.
abbrev pub FarApart : ℕ → List ℕ → Type 0
FarApart cap [] = Unit
FarApart cap (r ∷ rem) = All (λ q. r + q < cap) rem × FarApart cap rem

FarApart-snoc :
    (cap len : ℕ) (rem : List ℕ)
    → len ≤ cap
    → All (λ r. r < len) rem
    → FarApart cap rem
    → FarApart cap (rem ++ (cap - len) ∷ [])
FarApart-snoc cap len [] fits small far = (tt, tt)
FarApart-snoc cap len (r ∷ rem) fits small far = (
  All-append (λ q. r + q < cap) rem ((cap - len) ∷ []) far.0 (omega arith, tt),
  FarApart-snoc cap len rem fits small.1 far.1,
)

All-set_le :
    (P : ℕ → Type 0) (xs : List ℕ) (k v w : ℕ)
    → get_elem? xs k ≡ some v
    → (P v → P w)
    → All P xs
    → All P (set xs k w)
All-set_le P [] k v w e f h = h
All-set_le P (x ∷ xs) zero v w e f h = let same : v ≡ x = cc in (f (subst P (sym same) h.0), h.1)
All-set_le P (x ∷ xs) (suc k) v w e f h = (h.0, All-set_le P xs k v w e f h.1)

FarApart-set :
    (cap : ℕ) (rem : List ℕ) (k r len : ℕ)
    → get_elem? rem k ≡ some r
    → FarApart cap rem
    → FarApart cap (set rem k (r - len))
FarApart-set cap [] k r len e far = far
FarApart-set cap (q ∷ rem) zero r len e far =
    let same : q ≡ r = cc in
    (All-map (λ s. q + s < cap) (λ s. (r - len) + s < cap) rem (λ s h. omega arith) far.0, far.1)
FarApart-set cap (q ∷ rem) (suc k) r len e far = (
  All-set_le (λ s. q + s < cap) rem k r (r - len) e (λ h. omega arith) far.0,
  FarApart-set cap rem k r len e far.1,
)

module _ (cap : ℕ) (lens : List ℕ) where
  -- Each bin is not empty, and its load and its remaining room make up the capacity.
  abbrev pub Aligned : List (List ℕ) → List ℕ → Type 0
  Aligned [] [] = Unit
  Aligned [] (r ∷ rem) = ⊥
  Aligned (bin ∷ bins) [] = ⊥
  Aligned (bin ∷ bins) (r ∷ rem) = (load lens bin + r ≡ cap) × (0 < length bin) × Aligned bins rem

  Aligned-snoc :
      (bins : List (List ℕ)) (rem : List ℕ) (len idx : ℕ)
      → len ≤ cap
      → get_or lens idx 0 ≡ len
      → Aligned bins rem
      → Aligned (bins ++ (idx ∷ []) ∷ []) (rem ++ (cap - len) ∷ [])
  Aligned-snoc [] [] len idx fits here h = (omega arith, omega arith, tt)
  Aligned-snoc [] (r ∷ rem) len idx fits here h = absurd h
  Aligned-snoc (bin ∷ bins) [] len idx fits here h = absurd h
  Aligned-snoc (bin ∷ bins) (r ∷ rem) len idx fits here h =
      (h.0, h.1, Aligned-snoc bins rem len idx fits here h.2)

  -- The bin at the position that was found, and what the write makes of the pair of lists.
  Aligned-set :
      (bins : List (List ℕ)) (rem : List ℕ) (k r len idx : ℕ)
      → get_elem? rem k ≡ some r
      → len ≤ r
      → get_or lens idx 0 ≡ len
      → Aligned bins rem
      → Aligned (set bins k (get_or bins k [] ++ idx ∷ [])) (set rem k (get_or rem k 0 - len))
        × (get_elem? bins k ≡ some (get_or bins k []))
        × (get_or rem k 0 ≡ r)
  Aligned-set [] [] k r len idx e room here h = absurd (ground arith)
  Aligned-set [] (q ∷ rem) k r len idx e room here h = absurd h
  Aligned-set (bin ∷ bins) [] k r len idx e room here h = absurd h
  Aligned-set (bin ∷ bins) (q ∷ rem) zero r len idx e room here h =
      let same : q ≡ r = cc in
      (
        (
          omega (arith, total-append (λ j. get_or lens j 0) bin (idx ∷ [])),
          omega (arith, total-append (λ _. 1) bin (idx ∷ []), length-append {0} bin (idx ∷ [])),
          h.2,
        ),
        refl,
        same,
      )
  Aligned-set (bin ∷ bins) (q ∷ rem) (suc k) r len idx e room here h =
      let (rest, at, same) = Aligned-set bins rem k r len idx e room here h.2 in
      ((h.0, h.1, rest), at, same)

  pub record Inv (s : State) : Type 0 where
    pub aligned : Aligned s.bins s.bin_remaining
    pub far : FarApart cap s.bin_remaining

  -- One round: the item is in the bins, and the invariant holds again.
  place-total :
      (len idx : ℕ) (s : State)
      → len ≤ cap
      → get_or lens idx 0 ≡ len
      → Inv s
      → (s' : State) × (place cap (len, idx) s ≡ ok s')
        × Inv s'
        × ((f : ℕ → ℕ) → total f (flatten s'.bins) ≡ total f (flatten s.bins) + f idx)
  unfolding place put_item
  place-total len idx s fits here inv =
      let small : ltb cap len ≡ false = ground arith in
      elim (find_bin_lem len 0 s.bin_remaining) [
        | inl (no_room, full) ↦ (
          put_item cap len idx none s,
          rw (small, no_room),
          record {
            aligned = Aligned-snoc s.bins s.bin_remaining len idx fits here inv.aligned;
            far = FarApart-snoc cap len s.bin_remaining fits full inv.far;
          },
          λ f. omega (
            arith,
            total-flatten f s.bins,
            total-flatten f (s.bins ++ (idx ∷ []) ∷ []),
            total-append (total f) s.bins ((idx ∷ []) ∷ []),
          ),
        )
        | inr (k, r, found, at, room) ↦
            let (aligned, bin_at, same) =
              Aligned-set s.bins s.bin_remaining k r len idx at room here inv.aligned in
            let bin = get_or s.bins k [] in
            let found' : find_bin len 0 s.bin_remaining ≡ some k = found ∙ ap some (omega arith) in
            (
              put_item cap len idx (some k) s,
              rw (small, found'),
              record {
                aligned = aligned;
                far = rw same (FarApart-set cap s.bin_remaining k r len at inv.far);
              },
              λ f. omega (
                arith,
                total-flatten f s.bins,
                total-flatten f (set s.bins k (bin ++ idx ∷ [])),
                total-set (total f) s.bins k bin (bin ++ idx ∷ []) bin_at,
                total-append f bin (idx ∷ []),
              ),
            )
      ]

  -- An item carries the length of its sequence, and fits.
  abbrev pub IsItem : ℕ × ℕ → Type 0
  IsItem (len, idx) = (len ≤ cap) × (get_or lens idx 0 ≡ len)

  pub place_all-total :
      (items : List (ℕ × ℕ)) (s : State)
      → All IsItem items
      → Inv s
      → (s' : State) × (place_all cap items s ≡ ok s')
        × Inv s'
        × ((f : ℕ → ℕ)
            → total f (flatten s'.bins) ≡ total f (flatten s.bins) + total (λ it. f it.1) items)
  unfolding place_all
  place_all-total [] s good inv = (s, refl, inv, λ f. omega arith)
  place_all-total ((len, idx) ∷ items) s good inv =
      let (t, run, inv_t, same_t) = place-total len idx s good.0.0 good.0.1 inv in
      let (u, rest, inv_u, same_u) = place_all-total items t good.1 inv_t in
      (u, rw run rest, inv_u, λ f. omega (arith, same_t f, same_u f))

  Aligned-fits :
      (bins : List (List ℕ)) (rem : List ℕ)
      → Aligned bins rem
      → All (λ bin. load lens bin ≤ cap) bins × All (λ bin. 0 < length bin) bins
  Aligned-fits [] rem h = (tt, tt)
  Aligned-fits (bin ∷ bins) [] h = absurd h
  Aligned-fits (bin ∷ bins) (r ∷ rem) h =
      let (fits, nonempty) = Aligned-fits bins rem h.2 in
      ((omega (arith, h.0), fits), (h.1, nonempty))

  pub Inv-fits :
      (s : State)
      → Inv s
      → All (λ bin. load lens bin ≤ cap) s.bins × All (λ bin. 0 < length bin) s.bins
  Inv-fits s inv = Aligned-fits s.bins s.bin_remaining inv.aligned
