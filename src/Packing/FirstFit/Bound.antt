-- ===== src/Packing/FirstFit/Bound.antt =====
-- What the first-fit packers return: a packing, into at most twice as many bins as any packing, and
-- one more.
use native.Mathlib.Nat.{le_of_mul-le-mul_right}
use nemo_rl_vlm.Prelude.{
  ℕ, zero, suc, ◌+◌, ◌*◌, ◌≤◌, ◌<◌, List, [], ◌∷◌, ◌≡◌, refl, sym, ap, ◌∙◌, inl, inr, leb, arith,
  Bool-cases, leb→le, length, get_or, total, sum, total-flatten, All, All-map, range_from,
}
use nemo_rl_vlm.Packing.Base.{load, IsPacking}
use nemo_rl_vlm.Packing.FirstFit.{State}
use nemo_rl_vlm.Packing.FirstFit.Laws.{FarApart, Aligned, Inv}

-- With one bin over half empty, every other is less than half empty.
sum-le_half : (cap : ℕ) (rem : List ℕ) → All (λ r. 2 * r ≤ cap) rem → 2 * sum rem ≤ length rem * cap
sum-le_half cap [] h = omega arith
sum-le_half cap (r ∷ rem) h = omega (arith, sum-le_half cap rem h.1, h.0)

FarApart-sum :
    (cap : ℕ) (rem : List ℕ)
    → All (λ r. r ≤ cap) rem
    → FarApart cap rem
    → 2 * sum rem ≤ length rem * cap + cap
FarApart-sum cap [] small far = omega arith
FarApart-sum cap (r ∷ rem) small far = elim (Bool-cases (leb (2 * r) cap)) [
  | inl e ↦ omega (arith, leb→le _ _ e, FarApart-sum cap rem small.1 far.1)
  | inr e ↦
      let rest : 2 * sum rem ≤ length rem * cap =
        sum-le_half cap rem
          (All-map (λ q. r + q < cap) (λ q. 2 * q ≤ cap) rem (λ q h. ground arith) far.0) in
      omega (arith, small.0)
]

total-get_or_from :
    (f : ℕ → ℕ) (lens : List ℕ) (i : ℕ)
    → ((j k : ℕ) → j + i ≡ k → f k ≡ get_or lens j 0)
    → total f (range_from i (length lens)) ≡ sum lens
total-get_or_from f [] i h = refl
total-get_or_from f (len ∷ lens) i h = omega (
  arith,
  h 0 i (omega arith),
  total-get_or_from f lens (suc i) (λ j k e. h (suc j) k (omega arith)),
)

-- The loads of a packing add up to the lengths.
pub total-load :
    (cap : ℕ) (lens : List ℕ) (bins : List (List ℕ))
    → IsPacking cap lens bins
    → total (load lens) bins ≡ sum lens
total-load cap lens bins packed =
    sym (total-flatten (λ i. get_or lens i 0) bins)
    ∙ packed.partition (λ i. get_or lens i 0)
    ∙ total-get_or_from (λ i. get_or lens i 0) lens 0
        (λ j k e. let e' : k ≡ j = omega arith in ap (λ t. get_or lens t 0) e')

total-load-le :
    (cap : ℕ) (lens : List ℕ) (bins : List (List ℕ))
    → All (λ bin. load lens bin ≤ cap) bins
    → total (load lens) bins ≤ length bins * cap
total-load-le cap lens [] h = omega arith
total-load-le cap lens (bin ∷ bins) h = omega (arith, h.0, total-load-le cap lens bins h.1)

Aligned-total :
    (cap : ℕ) (lens : List ℕ) (bins : List (List ℕ)) (rem : List ℕ)
    → Aligned cap lens bins rem
    → (total (load lens) bins + sum rem ≡ length bins * cap)
      × (length rem ≡ length bins)
      × All (λ r. r ≤ cap) rem
Aligned-total cap lens [] [] h = (omega arith, refl, tt)
Aligned-total cap lens [] (r ∷ rem) h = absurd h
Aligned-total cap lens (bin ∷ bins) [] h = absurd h
Aligned-total cap lens (bin ∷ bins) (r ∷ rem) h =
    let (sums, sizes, small) = Aligned-total cap lens bins rem h.2 in
    (omega (arith, h.0), omega arith, (omega (arith, h.0), small))

-- At most twice as many bins as any packing needs, and one more.
abbrev pub IsNearOptimal : ℕ → List ℕ → List (List ℕ) → Type 0
IsNearOptimal cap lens bins =
    (other : List (List ℕ)) → IsPacking cap lens other → length bins ≤ 2 * length other + 1

FarApart-zero : (rem : List ℕ) → FarApart 0 rem → length rem ≤ 1
FarApart-zero [] far = omega arith
FarApart-zero (r ∷ []) far = omega arith
FarApart-zero (r ∷ q ∷ rem) far = absurd (omega (arith, far.0.0))

near_pos :
    (cap : ℕ) (lens : List ℕ) (s : State)
    → 0 < cap
    → Inv cap lens s
    → IsPacking cap lens s.bins
    → IsNearOptimal cap lens s.bins
near_pos cap lens s pos inv packed other best =
    let (sums, sizes, small) = Aligned-total cap lens s.bins s.bin_remaining inv.aligned in
    let empty : 2 * sum s.bin_remaining ≤ length s.bin_remaining * cap + cap =
      FarApart-sum cap s.bin_remaining small inv.far in
    let empty' : 2 * sum s.bin_remaining ≤ length s.bins * cap + cap =
      ground (arith, empty, sizes) in
    let bound : length s.bins * cap ≤ (2 * length other + 1) * cap = omega (
      arith,
      total-load cap lens s.bins packed,
      total-load cap lens other best,
      total-load-le cap lens other best.fits,
    ) in
    le_of_mul-le-mul_right bound pos

pub Inv-IsNearOptimal :
    (cap : ℕ) (lens : List ℕ) (s : State)
    → Inv cap lens s
    → IsPacking cap lens s.bins
    → IsNearOptimal cap lens s.bins
Inv-IsNearOptimal zero lens s inv packed other best =
    let (sums, sizes, small) = Aligned-total 0 lens s.bins s.bin_remaining inv.aligned in
    omega (arith, FarApart-zero s.bin_remaining inv.far)
Inv-IsNearOptimal (suc n) lens s inv packed other best =
    near_pos (suc n) lens s (omega arith) inv packed other best
