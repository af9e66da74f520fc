-- ===== src/SlidingPuzzle/Undo.antt =====
-- A slide is undone by the slide of the tile that it moved.
use nemo_rl_vlm.Prelude.{
  ℕ, ◌+◌, ◌<◌, ◌≡◌, refl, sym, ap, ◌∙◌, inl, inr, true, ◌&&◌, ◌==◌, if◌then◌else◌, some, Bool-cases,
  both_true, ==→eq, arith,
}
use nemo_rl_vlm.Prelude.Int.{pos, ◌-ℤ◌}
use nemo_rl_vlm.SlidingPuzzle.{
  Grid, cell, set_cell, GameState, Command, slide, slide_tile, after_move, step, step_slide,
  on_board, Response, slid_into_empty, distance, same_grid,
}
use nemo_rl_vlm.SlidingPuzzle.Grid.{set_cell-IsSquare, cell-set_cell, grid_ext}
use nemo_rl_vlm.SlidingPuzzle.Legal.{IsValid, IsNeighbour, slide_tile-IsValid}

cell-slide_tile :
    (s : GameState) (r c i j : ℕ)
    → IsValid s
    → r < s.size
    → c < s.size
    → cell (slide_tile s r c).grid i j ≡ (
        if r == i && c == j
        then 0
        else (if s.empty_r == i && s.empty_c == j then cell s.grid r c else cell s.grid i j))
unfolding slide_tile
cell-slide_tile s r c i j v hr hc =
    let tile = cell s.grid r c in
    let moved = set_cell s.grid s.empty_r s.empty_c tile in
    let sq = set_cell-IsSquare s.size s.grid s.empty_r s.empty_c tile v.square v.row in
    rw (cell-set_cell s.size moved r c i j 0 sq hr hc) (
      ap (λ x. if r == i && c == j then 0 else x)
        (cell-set_cell s.size s.grid s.empty_r s.empty_c i j tile v.square v.row v.column))

same_cell : (g : Grid) (r c i j : ℕ) → (r == i && c == j) ≡ true → cell g i j ≡ cell g r c
same_cell g r c i j e =
    let both = both_true (r == i) (c == j) e in
    let rows = ==→eq r i both.0 in let columns = ==→eq c j both.1 in cc

-- One cell, after the slide and the slide back: (r, c) is where the tile was, (a, b) the empty space.
cell_back :
    (r c a b i j tile here : ℕ)
    → distance r a + distance c b ≡ 1
    → ((r == i && c == j) ≡ true → here ≡ tile)
    → ((a == i && b == j) ≡ true → here ≡ 0)
    → here ≡ (
        if a == i && b == j
        then 0
        else (if r == i && c == j
            then tile
            else (if r == i && c == j then 0 else (if a == i && b == j then tile else here))))
cell_back r c a b i j tile here near there empty = elim (Bool-cases (a == i && b == j)) [
  | inl e ↦ rw e (empty e)
  | inr e ↦ elim (Bool-cases (r == i && c == j)) [
    | inl e' ↦ rw (e, e') (there e')
    | inr e' ↦ rw (e, e') refl
  ]
]

-- The slide back restores the state.
slide_back :
    (s : GameState) (r c : ℕ)
    → IsValid s
    → r < s.size
    → c < s.size
    → IsNeighbour s r c
    → slide_tile (slide_tile s r c) s.empty_r s.empty_c ≡ s
unfolding slide_tile
slide_back s r c v hr hc near =
    let slid = slide_tile s r c in
    let valid = slide_tile-IsValid s r c v hr hc in
    let kept : cell slid.grid s.empty_r s.empty_c ≡ cell s.grid r c =
      cell-slide_tile s r c s.empty_r s.empty_c v hr hc ∙ ground arith in
    let same =
      grid_ext s.size (slide_tile slid s.empty_r s.empty_c).grid s.grid
        (slide_tile-IsValid slid s.empty_r s.empty_c valid v.row v.column).square v.square
        (λ i j hi hj.
          cell-slide_tile slid s.empty_r s.empty_c i j valid v.row v.column
          ∙ ap
              (λ t.
                if s.empty_r == i && s.empty_c == j
                then 0
                else (if r == i && c == j then t else cell slid.grid i j))
              kept
          ∙ ap
              (λ x.
                if s.empty_r == i && s.empty_c == j
                then 0
                else (if r == i && c == j then cell s.grid r c else x))
              (cell-slide_tile s r c i j v hr hc)
          ∙ sym (
              cell_back r c s.empty_r s.empty_c i j (cell s.grid r c) (cell s.grid i j) near
                (same_cell s.grid r c i j)
                (λ e. same_cell s.grid s.empty_r s.empty_c i j e ∙ v.empty))) in
    ap (λ g. record s { grid = g }) same

-- The command that names a position of the board, counted from 1 as the game does.
abbrev pub slide_at : ℕ → ℕ → Command
slide_at r c = slide (pos (r + 1)) (pos (c + 1))

on_board_at : (n i : ℕ) → i < n → on_board n (pos (i + 1) -ℤ pos 1) ≡ some i
unfolding ◌-ℤ◌
on_board_at n i h = ground arith

after_move_state : (answer : Response) (s : GameState) → (after_move answer s).state ≡ s
unfolding after_move
after_move_state answer s = elim (Bool-cases (same_grid s.grid s.solution)) [
  | inl e ↦ rw e refl
  | inr e ↦ rw e refl
]

pub step-slide_at :
    (s : GameState) (r c : ℕ)
    → r < s.size
    → c < s.size
    → IsNeighbour s r c
    → (step (slide_at r c) s).state ≡ slide_tile s r c
unfolding step step_slide
step-slide_at s r c hr hc near =
    let test : distance r s.empty_r + distance c s.empty_c == 1 ≡ true = ground arith in
    rw (on_board_at s.size r hr, on_board_at s.size c hc, test, step, step_slide)
      (after_move_state (slid_into_empty (cell s.grid r c)) (slide_tile s r c))

pub slid_back :
    (s : GameState) (r c : ℕ)
    → IsValid s
    → r < s.size
    → c < s.size
    → IsNeighbour s r c
    → (step (slide_at s.empty_r s.empty_c) (slide_tile s r c)).state ≡ s
unfolding slide_tile
slid_back s r c v hr hc near =
    step-slide_at (slide_tile s r c) s.empty_r s.empty_c v.row v.column (omega (arith, near))
    ∙ slide_back s r c v hr hc near

-- After a slide of the tile at (r, c), the command that slides the tile at the old empty space restores
-- the state: the grid, the empty space, the size and the solution.
pub step-step :
    (s : GameState) (r c : ℕ)
    → IsValid s
    → r < s.size
    → c < s.size
    → IsNeighbour s r c
    → (step (slide_at s.empty_r s.empty_c) (step (slide_at r c) s).state).state ≡ s
step-step s r c v hr hc near =
    ap (λ t. (step (slide_at s.empty_r s.empty_c) t).state) (step-slide_at s r c hr hc near)
    ∙ slid_back s r c v hr hc near
