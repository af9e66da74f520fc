-- ===== src/Batched/Iterators/Slices.antt =====
-- What the iterators yield: slices that make up the batch.
use nemo_rl_vlm.Prelude.{
  ℕ, zero, suc, ◌+◌, ◌-◌, ◌≤◌, ◌<◌, ◌≡◌, refl, sym, ap, ◌∙◌, subst, inl, List, [], ◌∷◌, ◌++◌, map,
  flatten, some, true, ◌==◌, ==→eq, ok, le→leb, length, get_elem?, take, sum, range_from,
  length-range_from, All, All-map, both_true, arith,
}
use nemo_rl_vlm.Batched.{
  Column, vector, matrix, packed, plain, Columns, on_rows, on_data, all_rows, rows, index_select,
  slice_column, slice, each,
}
use nemo_rl_vlm.Batched.Rows.{index_select-range_from, range_from-lt}
use nemo_rl_vlm.Batched.Columnwise.{rows_at-head}
use nemo_rl_vlm.Batched.Dynamic.Tiles.{Tiles, Tiles-le}
use nemo_rl_vlm.Batched.Packed.Bins.{Closed}
use nemo_rl_vlm.Batched.Iterators.{zip}

module _ (n first end : ℕ) (some_rows : first < end) (inside : end ≤ n) where
  pub part-lt : All (λ i. i < n) (range_from first (end - first))
  part-lt =
      All-map _ _ (range_from first (end - first)) (λ i h. omega (arith, h, some_rows, inside))
        (range_from-lt first (end - first))

  some_part : 0 < length (range_from first (end - first))
  some_part = omega (arith, length-range_from first (end - first), some_rows)

module _ {E : Type 0} (n first end : ℕ) (some_rows : first < end) (inside : end ≤ n) where
  slice_column-ok :
      (k : ℕ) (v : Column E) (cols : Columns E)
      → all_rows n ((k, v) ∷ cols) ≡ true
      → slice_column first end v
        ≡ ok (on_rows (λ A. index_select (range_from first (end - first))) v)
  unfolding slice_column
  slice_column-ok k (vector xs) cols e =
      let same = ==→eq (length xs) n ((both_true (length xs == n) (all_rows n cols) e).0) in
      rw (le→leb end (length xs) (omega (arith, same, inside)))
        (ap (λ r. ok (vector r)) (sym (index_select-range_from first (end - first) xs)))
  slice_column-ok k (matrix xs) cols e =
      let same = ==→eq (length xs) n ((both_true (length xs == n) (all_rows n cols) e).0) in
      rw (le→leb end (length xs) (omega (arith, same, inside)))
        (ap (λ r. ok (matrix r)) (sym (index_select-range_from first (end - first) xs)))
  slice_column-ok k (packed d xs) cols e =
      (rows_at-head n (range_from first (end - first)) k (packed d xs) cols
        (part-lt n first end some_rows inside) (inl (some_part n first end some_rows inside)) e).0
  slice_column-ok k (plain xs) cols e =
      ap (λ r. ok (plain r)) (sym (index_select-range_from first (end - first) xs))

  -- A part of the rows that is not empty is sliced without an error.
  pub slice-ok :
      (cols : Columns E)
      → all_rows n cols ≡ true
      → slice first end cols
        ≡ ok (on_data (λ A. index_select (range_from first (end - first))) cols)
  unfolding slice
  slice-ok [] e = refl
  slice-ok ((k, v) ∷ cols) e =
      rw
        (
          slice_column-ok k v cols e,
          slice-ok cols ((both_true (rows v == n) (all_rows n cols) e).1),
          slice,
        )
        refl

-- The rows of a micro-batch.
abbrev pub interval : ℕ × ℕ → List ℕ
interval i = range_from i.0 (i.1 - i.0)

range_from-append : (i m n : ℕ) → range_from i m ++ range_from (i + m) n ≡ range_from i (m + n)
range_from-append i zero n =
    ap (λ j. range_from j n) (let e : i + 0 ≡ i = omega arith in e)
    ∙ ap (range_from i) (let e : n ≡ 0 + n = omega arith in e)
range_from-append i (suc m) n =
    let shift : i + suc m ≡ suc i + m = omega arith in
    let whole : suc (m + n) ≡ suc m + n = omega arith in
    ap (λ j. i ∷ range_from (suc i) m ++ range_from j n) shift
    ∙ ap (◌∷◌ i) (range_from-append (suc i) m n)
    ∙ ap (range_from i) whole

-- Micro-batches without gaps hold the rows in their order.
pub intervals :
    (a : ℕ) (is : List (ℕ × ℕ)) (b : ℕ)
    → Tiles a is b
    → flatten (map interval is) ≡ range_from a (b - a)
unfolding flatten
intervals a [] b h = ap (range_from a) (let e : 0 ≡ b - a = omega (arith, h) in e)
intervals a ((s, e) ∷ is) b h =
    let next = Tiles-le e is b h.2 in
    let there : e ≡ s + (e - s) = omega (arith, h.1) in
    let whole : e - s + (b - e) ≡ b - s = omega (arith, h.1, next) in
    ap (λ l. range_from s (e - s) ++ l) (intervals e is b h.2)
    ∙ ap (λ j. range_from s (e - s) ++ range_from j (b - e)) there
    ∙ range_from-append s (e - s) (b - e)
    ∙ ap (range_from s) whole
    ∙ ap (λ j. range_from j (b - j)) (sym h.0)

module _ {E : Type 0} (n : ℕ) (cols : Columns E) (rows : all_rows n cols ≡ true) where
  pub slice-each :
      (a : ℕ) (is : List (ℕ × ℕ)) (b : ℕ) (lens : List ℕ)
      → Tiles a is b
      → b ≤ n
      → length is ≡ length lens
      → each (λ p. slice p.1.0 p.1.1 cols) (zip lens is)
        ≡ ok (map (λ i. on_data (λ A. index_select (interval i)) cols) is)
  unfolding each
  slice-each a [] b [] h le e = refl
  slice-each a [] b (l ∷ lens) h le e = absurd (omega (arith, e))
  slice-each a (i ∷ is) b [] h le e = absurd (omega (arith, e))
  slice-each a ((s, t) ∷ is) b (l ∷ lens) h le e =
      let next = Tiles-le t is b h.2 in
      rw
        (
          slice-ok n s t h.1 (omega (arith, next, le)) cols rows,
          slice-each t is b lens h.2 le (omega (arith, e)),
          each,
        )
        refl

pub sum-take-suc :
    (counts : List ℕ) (i count : ℕ)
    → get_elem? counts i ≡ some count
    → (sum (take (suc i) counts) ≡ sum (take i counts) + count)
      × (sum (take i counts) + count ≤ sum counts)
sum-take-suc [] i count h = absurd (ground arith)
sum-take-suc (c ∷ counts) zero count h =
    let same : c ≡ count = ground (arith, h) in (omega (arith, same), omega (arith, same))
sum-take-suc (c ∷ counts) (suc i) count h =
    let rest = sum-take-suc counts i count h in (omega (arith, rest.0), omega (arith, rest.1))

-- The micro-batches of one chunk.
pub Closed-get :
    (cap : ℕ) (iss : List (List (ℕ × ℕ))) (lenss : List (List ℕ)) (counts : List ℕ) (i count : ℕ)
    → Closed cap iss lenss counts
    → get_elem? counts i ≡ some count
    → (is : List (ℕ × ℕ)) × (lens : List ℕ) × (get_elem? iss i ≡ some is)
      × (get_elem? lenss i ≡ some lens)
      × Tiles 0 is count
      × All (λ len. len ≤ cap) lens
      × (length is ≡ length lens)
Closed-get cap [] [] [] i count h e = absurd (ground arith)
Closed-get cap [] [] (c ∷ cs) i count h e = elim h [ ]
Closed-get cap [] (l ∷ ls) cs i count h e = elim h [ ]
Closed-get cap (is ∷ iss) [] cs i count h e = elim h [ ]
Closed-get cap (is ∷ iss) (l ∷ ls) [] i count h e = elim h [ ]
Closed-get cap (is ∷ iss) (l ∷ ls) (c ∷ cs) zero count h e =
    let same : c ≡ count = ground (arith, e) in
    (is, l, refl, refl, subst (Tiles 0 is) same h.0, h.1, h.2)
Closed-get cap (is ∷ iss) (l ∷ ls) (c ∷ cs) (suc i) count h e =
    Closed-get cap iss ls cs i count h.3 e
