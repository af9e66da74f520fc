-- ===== src/Prelude/Ranges.antt =====
-- Totals over ranges: double totals, and ranges that are cut into blocks.
use Prim.Native.Nat.{ℕ, zero, suc, ◌+◌, ◌-◌, ◌*◌, ◌≤◌}
use mathlib.Core.Path.{◌≡◌, refl, sym, ap, ◌∙◌}
use mathlib.Core.List.{List, [], ◌∷◌, map, flatten}
use native.Mathlib.Omega.{arith}
use nemo_rl_vlm.Prelude.Lists.{length, total, range_from, total-flatten, total-map}

module _ {ℓ} {A : Type ℓ} where
  pub total_same : (f g : A → ℕ) (xs : List A) → ((x : A) → f x ≡ g x) → total f xs ≡ total g xs
  total_same f g [] h = refl
  total_same f g (x ∷ xs) h = omega (arith, h x, total_same f g xs h)

  pub total_plus : (f g : A → ℕ) (xs : List A) → total f xs + total g xs ≡ total (λ x. f x + g x) xs
  total_plus f g [] = refl
  total_plus f g (x ∷ xs) = omega (arith, total_plus f g xs)

  pub total_zero : (xs : List A) → total (λ _. 0) xs ≡ 0
  total_zero [] = refl
  total_zero (x ∷ xs) = omega (arith, total_zero xs)

  pub total_constant : (n : ℕ) (xs : List A) → total (λ _. n) xs ≡ length xs * n
  total_constant n [] = omega arith
  total_constant n (x ∷ xs) = omega (arith, total_constant n xs)

module _ {ℓ} {A : Type ℓ} where
  -- The order of a double total does not matter.
  pub total_swap {κ} :
      {B : Type κ} (g : A → B → ℕ) (xs : List A) (ys : List B)
      → total (λ x. total (g x) ys) xs ≡ total (λ y. total (λ x. g x y) xs) ys
  total_swap g [] ys = sym (total_zero ys)
  total_swap g (x ∷ xs) ys =
      ap (λ n. total (g x) ys + n) (total_swap g xs ys)
      ∙ total_plus (g x) (λ y. total (λ z. g z y) xs) ys

  pub total-flatten-map {κ} :
      {B : Type κ} (f : B → ℕ) (part : A → List B) (xs : List A)
      → total f (flatten (map part xs)) ≡ total (λ x. total f (part x)) xs
  total-flatten-map f part xs = total-flatten f (map part xs) ∙ total-map (total f) part xs

pub total-range_from-append :
    (f : ℕ → ℕ) (i m n : ℕ)
    → total f (range_from i (m + n)) ≡ total f (range_from i m) + total f (range_from (i + m) n)
total-range_from-append f i zero n =
    let start : i ≡ i + 0 = omega arith in
    let shift = ap (λ j. total f (range_from j n)) start in
    let whole : total f (range_from i (0 + n)) ≡ total f (range_from i n) =
      ap (λ m. total f (range_from i m)) (let e : 0 + n ≡ n = omega arith in e) in
    omega (arith, shift, whole)
total-range_from-append f i (suc m) n =
    let rest = total-range_from-append f (suc i) m n in
    let shift : total f (range_from (suc i + m) n) ≡ total f (range_from (i + suc m) n) =
      ap (λ j. total f (range_from j n)) (omega arith) in
    let whole : total f (range_from i (suc m + n)) ≡ total f (range_from i (suc (m + n))) =
      ap (λ m. total f (range_from i m)) (let e : suc m + n ≡ suc (m + n) = omega arith in e) in
    omega (arith, rest, shift, whole)

-- Ranges with the same ends.
pub range_same :
    (f : ℕ → ℕ) (a b c d : ℕ)
    → a ≡ c
    → b ≡ d
    → total f (range_from a (b - a)) ≡ total f (range_from c (d - c))
range_same f a b c d h k = rw (h, k) refl

pub range_whole :
    (f : ℕ → ℕ) (a b d : ℕ)
    → a ≡ 0
    → b ≡ d
    → total f (range_from a (b - a)) ≡ total f (range_from 0 d)
range_whole f a b d h k = rw (h, k) (ap (λ n. total f (range_from 0 n)) (omega arith))

-- The items of a range, moved up.
pub range_added :
    (g : ℕ → ℕ) (start i n : ℕ)
    → total (λ i. g (i + start)) (range_from i n) ≡ total g (range_from (i + start) n)
range_added g start i zero = refl
range_added g start i (suc n) = omega (
  arith,
  range_added g start (suc i) n,
  ap (λ j. total g (range_from j n)) (let e : suc (i + start) ≡ suc i + start = omega arith in e),
)

-- The blocks between ascending bounds make up the range between the first bound and the last.
module _ (bound : ℕ → ℕ) (ascends : (s : ℕ) → bound s ≤ bound (suc s)) where
  bound_le : (k n : ℕ) → bound k ≤ bound (k + n)
  bound_le k zero = omega (arith, ap bound (let e : k + 0 ≡ k = omega arith in e))
  bound_le k (suc n) =
      let same : bound (suc k + n) ≡ bound (k + suc n) = ap bound (omega arith) in
      omega (arith, ascends k, bound_le (suc k) n, same)

  pub total-blocks :
      (f : ℕ → ℕ) (k n : ℕ)
      → total (λ s. total f (range_from (bound s) (bound (suc s) - bound s))) (range_from k n)
        ≡ total f (range_from (bound k) (bound (k + n) - bound k))
  total-blocks f k zero =
      let none : 0 ≡ bound (k + 0) - bound k =
        omega (arith, ap bound (let e : k + 0 ≡ k = omega arith in e)) in
      ap (λ m. total f (range_from (bound k) m)) none
  total-blocks f k (suc n) =
      let same : bound (suc k + n) ≡ bound (k + suc n) = ap bound (omega arith) in
      let above = bound_le (suc k) n in
      let first = bound (suc k) - bound k in
      let rest = bound (suc k + n) - bound (suc k) in
      let whole : first + rest ≡ bound (k + suc n) - bound k =
        omega (arith, ascends k, above, same) in
      let start : bound k + first ≡ bound (suc k) = omega (arith, ascends k) in
      let cut = total-range_from-append f (bound k) first rest in
      let cut_start = ap (λ i. total f (range_from i rest)) start in
      let cut_whole = ap (λ m. total f (range_from (bound k) m)) whole in
      omega (arith, total-blocks f (suc k) n, cut, cut_start, cut_whole)
