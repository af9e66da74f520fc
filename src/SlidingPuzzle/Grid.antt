-- ===== src/SlidingPuzzle/Grid.antt =====
-- Square grids: reads after writes, the tiles that a write exchanges, and equality by cells.
use nemo_rl_vlm.Prelude.{
  ℕ, suc, ◌+◌, ◌<◌, ◌≡◌, refl, sym, ap, ◌∙◌, inl, inr, List, [], ◌∷◌, ◌&&◌, ◌==◌, if◌then◌else◌,
  length, get_or, set, total, All, All_get, All-set, flatten, total-flatten, total-set, length-set,
  get_or-set, get_elem?-get_or, Bool-cases, ==→eq, arith, nil_of_length,
}
use nemo_rl_vlm.SlidingPuzzle.{Grid, cell, set_cell}

-- `n` rows of `n` cells.
abbrev pub IsSquare : ℕ → Grid → Type 0
IsSquare n g = (length g ≡ n) × All (λ row. length row ≡ n) g

pub length-row : (n : ℕ) (g : Grid) (r : ℕ) → IsSquare n g → r < n → length (get_or g r []) ≡ n
length-row n g r (rows, cells) h =
    All_get (λ row. length row ≡ n) g r (get_or g r []) cells
      (get_elem?-get_or g r [] (omega (arith, rows)))

pub set_cell-IsSquare :
    (n : ℕ) (g : Grid) (r c v : ℕ) → IsSquare n g → r < n → IsSquare n (set_cell g r c v)
set_cell-IsSquare n g r c v sq h = (
  length-set g r _ ∙ sq.0,
  All-set (λ row. length row ≡ n) g r _ sq.1
      (length-set (get_or g r []) c v ∙ length-row n g r sq h),
)

-- Reading a cell after a write.
pub cell-set_cell :
    (n : ℕ) (g : Grid) (r c r' c' v : ℕ)
    → IsSquare n g
    → r < n
    → c < n
    → cell (set_cell g r c v) r' c' ≡ (if r == r' && c == c' then v else cell g r' c')
cell-set_cell n g r c r' c' v sq hr hc = elim (Bool-cases (r == r')) [
  | inl e ↦
      rw (get_or-set g r r' (set (get_or g r []) c v) [] (omega (arith, sq.0)), e)
        (get_or-set (get_or g r []) c c' v 0 (omega (arith, length-row n g r sq hr))
          ∙ ap (λ i. if c == c' then v else cell g i c') (==→eq r r' e))
  | inr e ↦ rw (get_or-set g r r' (set (get_or g r []) c v) [] (omega (arith, sq.0)), e) refl
]

-- What a write does to the tiles of the grid.
pub total-set_cell :
    (f : ℕ → ℕ) (n : ℕ) (g : Grid) (r c v : ℕ)
    → IsSquare n g
    → r < n
    → c < n
    → total f (flatten (set_cell g r c v)) + f (cell g r c) ≡ total f (flatten g) + f v
total-set_cell f n g r c v sq hr hc =
    let row = get_or g r [] in
    omega (
      arith,
      total-flatten f g,
      total-flatten f (set_cell g r c v),
      total-set (total f) g r row (set row c v) (get_elem?-get_or g r [] (omega (arith, sq.0))),
      total-set f row c (cell g r c) v
          (get_elem?-get_or row c 0 (omega (arith, length-row n g r sq hr))),
    )

rows_ext :
    (as' bs : List ℕ)
    → length as' ≡ length bs
    → ((c : ℕ) → c < length as' → get_or as' c 0 ≡ get_or bs c 0)
    → as' ≡ bs
rows_ext [] bs len h = sym (nil_of_length bs (sym len))
rows_ext (a ∷ as') [] len h = absurd (omega arith)
rows_ext (a ∷ as') (b ∷ bs) len h =
    let heads = h 0 (omega arith) in
    let tails = rows_ext as' bs (omega arith) (λ c lt. h (suc c) (omega arith)) in cc

grid_ext_rows :
    (n : ℕ) (g g' : Grid)
    → length g ≡ length g'
    → All (λ row. length row ≡ n) g
    → All (λ row. length row ≡ n) g'
    → ((r c : ℕ) → r < length g → c < n → cell g r c ≡ cell g' r c)
    → g ≡ g'
grid_ext_rows n [] g' len hg hg' h = sym (nil_of_length g' (sym len))
grid_ext_rows n (a ∷ g) [] len hg hg' h = absurd (omega arith)
grid_ext_rows n (a ∷ g) (b ∷ g') len hg hg' h =
    let heads =
      rows_ext a b (hg.0 ∙ sym hg'.0) (λ c lt. h 0 c (omega arith) (omega (arith, hg.0))) in
    let tails =
      grid_ext_rows n g g' (omega arith) hg.1 hg'.1 (λ r c lr lc. h (suc r) c (omega arith) lc) in
    cc

-- Square grids with the same cells are equal.
pub grid_ext :
    (n : ℕ) (g g' : Grid)
    → IsSquare n g
    → IsSquare n g'
    → ((r c : ℕ) → r < n → c < n → cell g r c ≡ cell g' r c)
    → g ≡ g'
grid_ext n g g' sq sq' h =
    grid_ext_rows n g g' (sq.0 ∙ sym sq'.0) sq.1 sq'.1 (λ r c lr lc. h r c (omega (arith, sq.0)) lc)
