-- ===== src/Prelude/Multiset.antt =====
-- Lists up to order: two lists whose totals agree for every weight are permutations of each other.
use Prim.Native.Nat.{ℕ}
use mathlib.Core.Path.{◌≡◌, refl, sym, ap, ◌∙◌}
use mathlib.Core.Logic.{ite, if_pos, if_neg}
use mathlib.Core.List.{List, [], ◌∷◌, Perm, count, perm_iff_count}
use native.Mathlib.Bridge.{from_ℕ, to_ℕ, to_ℕ-from_ℕ}
use native.Mathlib.Omega.{arith}
use mathlib.Core.Bool.{Bool, true}
use mathlib.Core.Logic.{inl, inr}
use nemo_rl_vlm.Prelude.Lists.{total, All}
use nemo_rl_vlm.Prelude.Tests.{if◌then◌else◌, Bool-cases}

-- The same items, as often: each item's indicator is one of the weights.
abbrev pub SameItems {ℓ} : {A : Type ℓ} → List A → List A → Type ℓ
SameItems {A} xs ys = (f : A → ℕ) → total f xs ≡ total f ys

abbrev indicator {ℓ} : {A : Type ℓ} → Discrete A → A → A → ℕ
indicator dec a x = ite (dec x a) 1 0

count-total {ℓ} :
    {A : Type ℓ} (dec : Discrete A) (a : A) (xs : List A)
    → from_ℕ (count dec a xs) ≡ total (indicator dec a) xs
count-total dec a [] = refl
count-total dec a (x ∷ xs) = elim (dec x a) [
  | yes same ↦ simp (if_pos, same) (omega (arith, count-total dec a xs))
  | no other ↦ simp (if_neg, other) (omega (arith, count-total dec a xs))
]

-- Equal totals make a permutation.
pub perm_of_SameItems {ℓ} :
    {A : Type ℓ} (dec : Discrete A) (xs ys : List A) → SameItems xs ys → Perm xs ys
perm_of_SameItems dec xs ys h = (perm_iff_count dec).1 λ a.
    sym (to_ℕ-from_ℕ _)
    ∙ ap to_ℕ (count-total dec a xs ∙ h (indicator dec a) ∙ sym (count-total dec a ys))
    ∙ to_ℕ-from_ℕ _

module _ {ℓ} {A : Type ℓ} (test : A → Bool) where
  abbrev pub failures : List A → ℕ
  failures = total (λ x. if test x then 0 else 1)

  pub failures_none : (xs : List A) → All (λ x. test x ≡ true) xs → failures xs ≡ 0
  failures_none [] h = refl
  failures_none (x ∷ xs) h = rw h.0 (omega (arith, failures_none xs h.1))

  pub none_failures : (xs : List A) → failures xs ≡ 0 → All (λ x. test x ≡ true) xs
  none_failures [] h = tt
  none_failures (x ∷ xs) h = elim (Bool-cases (test x)) [
    | inl e ↦ (e, none_failures xs (ground arith))
    | inr e ↦ absurd (ground arith)
  ]

  -- A test that all items pass is passed by all items of a rearrangement.
  pub All-of_SameItems :
      (xs ys : List A) → SameItems ys xs → All (λ x. test x ≡ true) xs → All (λ y. test y ≡ true) ys
  All-of_SameItems xs ys same h =
      none_failures ys (same (λ x. if test x then 0 else 1) ∙ failures_none xs h)
