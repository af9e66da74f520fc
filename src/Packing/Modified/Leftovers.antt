-- ===== src/Packing/Modified/Leftovers.antt =====
-- Phase 5: `ffd_bins` and `ffd_bin_sizes` stay side by side, in ascending order of size, and are never
-- empty, so the first bin is always there and is the emptiest.
use nemo_rl_vlm.Prelude.{
  ℕ, zero, suc, ◌+◌, ◌-◌, ◌≤◌, ◌<◌, List, [], ◌∷◌, ◌++◌, ◌≡◌, refl, inl, inr, ok, leb, arith,
  Bool-cases, leb→le, leb_false→lt, length, total, total-append, All, All-map,
}
use nemo_rl_vlm.Packing.Modified.{
  Item, bin_size, bisect, insert_at, Ffd, put_bin, place_leftover, place_leftovers,
}

total-insert_at {ℓ} :
    {A : Type ℓ} (f : A → ℕ) (i : ℕ) (x : A) (ys : List A)
    → total f (insert_at i x ys) ≡ f x + total f ys
unfolding insert_at
total-insert_at f (suc i) x (y ∷ ys) = omega (arith, total-insert_at f i x ys)
total-insert_at f zero x (y ∷ ys) = refl
total-insert_at f zero x [] = refl
total-insert_at f (suc i) x [] = refl

All-insert_at {ℓ κ} :
    {A : Type ℓ} (P : A → Type κ) (i : ℕ) (x : A) (ys : List A)
    → P x
    → All P ys
    → All P (insert_at i x ys)
unfolding insert_at
All-insert_at P (suc i) x (y ∷ ys) p h = (h.0, All-insert_at P i x ys p h.1)
All-insert_at P zero x (y ∷ ys) p h = (p, h)
All-insert_at P zero x [] p h = (p, tt)
All-insert_at P (suc i) x [] p h = (p, tt)

-- Ascending sizes.
abbrev pub Ascending : List ℕ → Type 0
Ascending [] = Unit
Ascending (s ∷ sizes) = All (λ t. s ≤ t) sizes × Ascending sizes

-- `bisect` keeps the sizes in order.
bisect-Ascending :
    (sizes : List ℕ) (size : ℕ)
    → Ascending sizes
    → Ascending (insert_at (bisect sizes size) size sizes)
unfolding bisect insert_at
bisect-Ascending [] size h = (tt, tt)
bisect-Ascending (s ∷ sizes) size h = elim (Bool-cases (leb s size)) [
  | inl e ↦
      rw (e, bisect, insert_at)
        (
          All-insert_at (λ t. s ≤ t) (bisect sizes size) size sizes (leb→le _ _ e) h.0,
          bisect-Ascending sizes size h.1,
        )
  | inr e ↦
      rw (e, bisect, insert_at)
        (
          (
            omega (arith, leb_false→lt _ _ e),
            All-map (λ t. s ≤ t) (λ t. size ≤ t) sizes (λ t le. omega (arith, leb_false→lt _ _ e))
                h.0,
          ),
          h,
        )
]

module _ (cap : ℕ) where
  abbrev pub Sized : List (List Item) → List ℕ → Type 0
  Sized [] [] = Unit
  Sized [] (s ∷ sizes) = ⊥
  Sized (b ∷ bins) [] = ⊥
  Sized (b ∷ bins) (s ∷ sizes) = (bin_size b ≡ s) × (s ≤ cap) × Sized bins sizes

  Sized-insert_at :
      (i : ℕ) (b : List Item) (s : ℕ) (bins : List (List Item)) (sizes : List ℕ)
      → bin_size b ≡ s
      → s ≤ cap
      → Sized bins sizes
      → Sized (insert_at i b bins) (insert_at i s sizes)
  unfolding insert_at
  Sized-insert_at (suc i) b s (c ∷ bins) (t ∷ sizes) e fits h =
      (h.0, h.1, Sized-insert_at i b s bins sizes e fits h.2)
  Sized-insert_at (suc i) b s [] [] e fits h = (e, fits, tt)
  Sized-insert_at (suc i) b s [] (t ∷ sizes) e fits h = absurd h
  Sized-insert_at (suc i) b s (c ∷ bins) [] e fits h = absurd h
  Sized-insert_at zero b s bins sizes e fits h = (e, fits, h)

  pub record Inv (s : Ffd) : Type 0 where
    pub sized : Sized s.bins s.sizes
    pub ascending : Ascending s.sizes
    pub some_bin : 0 < length s.bins

  length-insert_at :
      (i : ℕ) (b : List Item) (bins : List (List Item)) → 0 < length (insert_at i b bins)
  unfolding insert_at
  length-insert_at (suc i) b (c ∷ bins) = omega arith
  length-insert_at zero b (c ∷ bins) = omega arith
  length-insert_at zero b [] = omega arith
  length-insert_at (suc i) b [] = omega arith

  put_bin-Inv :
      (b : List Item) (size : ℕ) (bins : List (List Item)) (sizes : List ℕ)
      → bin_size b ≡ size
      → size ≤ cap
      → Sized bins sizes
      → Ascending sizes
      → Inv (put_bin b size bins sizes)
  unfolding put_bin
  put_bin-Inv b size bins sizes e fits sized ascending = record {
    sized = Sized-insert_at (bisect sizes size) b size bins sizes e fits sized;
    ascending = bisect-Ascending sizes size ascending;
    some_bin = length-insert_at (bisect sizes size) b bins;
  }

  total-put_bin :
      (f : Item → ℕ) (b : List Item) (size : ℕ) (bins : List (List Item)) (sizes : List ℕ)
      → total (total f) (put_bin b size bins sizes).bins ≡ total f b + total (total f) bins
  unfolding put_bin
  total-put_bin f b size bins sizes = total-insert_at (total f) (bisect sizes size) b bins

  place_leftover-total :
      (it : Item) (bins : List (List Item)) (sizes : List ℕ)
      → it.1 ≤ cap
      → Sized bins sizes
      → Ascending sizes
      → 0 < length bins
      → (s' : Ffd) × (place_leftover cap it bins sizes ≡ ok s')
        × Inv s'
        × ((f : Item → ℕ) → total (total f) s'.bins ≡ total (total f) bins + f it)
  unfolding place_leftover
  place_leftover-total it [] sizes small sized ascending h = absurd (omega arith)
  place_leftover-total it (b ∷ bins) [] small sized ascending h = absurd sized
  place_leftover-total it (b ∷ bins) (s ∷ sizes) small sized ascending h =
      elim (Bool-cases (leb it.1 (cap - s))) [
        | inl e ↦ (
          put_bin (b ++ it ∷ []) (s + it.1) bins sizes,
          rw e,
          put_bin-Inv (b ++ it ∷ []) (s + it.1) bins sizes
              (omega (arith, sized.0, total-append (λ (t : Item). t.1) b (it ∷ [])))
              (omega (arith, sized.1, leb→le _ _ e)) sized.2 ascending.1,
          λ f. omega (
            arith,
            total-put_bin f (b ++ it ∷ []) (s + it.1) bins sizes,
            total-append f b (it ∷ []),
          ),
        )
        | inr e ↦ (
          put_bin (it ∷ []) it.1 (b ∷ bins) (s ∷ sizes),
          rw e,
          put_bin-Inv (it ∷ []) it.1 (b ∷ bins) (s ∷ sizes) (omega arith) small sized ascending,
          λ f. omega (arith, total-put_bin f (it ∷ []) it.1 (b ∷ bins) (s ∷ sizes)),
        )
      ]

  pub place_leftovers-total :
      (items : List Item) (s : Ffd)
      → All (λ it. it.1 ≤ cap) items
      → Inv s
      → (s' : Ffd) × (place_leftovers cap items s ≡ ok s')
        × Inv s'
        × ((f : Item → ℕ) → total (total f) s'.bins ≡ total (total f) s.bins + total f items)
  unfolding place_leftovers
  place_leftovers-total [] s small inv = (s, refl, inv, λ f. omega arith)
  place_leftovers-total (it ∷ items) s small inv =
      let (t, run, inv_t, same_t) =
        place_leftover-total it s.bins s.sizes small.0 inv.sized inv.ascending inv.some_bin in
      let (u, rest, inv_u, same_u) = place_leftovers-total items t small.1 inv_t in
      (u, rw run rest, inv_u, λ f. omega (arith, same_t f, same_u f))
