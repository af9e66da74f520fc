-- ===== src/SlidingPuzzle/Legal.antt =====
-- Well-formed puzzles, and the moves that keep them so.
use nemo_rl_vlm.Prelude.{
  ℕ, ◌+◌, ◌<◌, ◌≡◌, refl, sym, ap, ◌∙◌, ◌⊎◌, inl, inr, some, List, [], ◌∷◌, true, false, ◌&&◌, ◌==◌,
  if◌then◌else◌, flatten, Bool-cases, both_true, ◌↔◌, ==→eq, ==_refl, Option-cases, arith,
}
use nemo_rl_vlm.Prelude.Int.{ℤ, pos, negsuc, ◌-ℤ◌}
use nemo_rl_vlm.Prelude.Multiset.{SameItems}
use nemo_rl_vlm.SlidingPuzzle.{
  Grid, cell, set_cell, GameState, Direction, up, down, left, right, Command, slide, bad_slide, go,
  other, StepResult, slide_tile, same_grid, after_move, on_board, distance, step_slide, tile_for,
  step_direction, step, slid, slid_into_empty, same_row, Response,
}
use nemo_rl_vlm.SlidingPuzzle.Grid.{IsSquare, set_cell-IsSquare, cell-set_cell, total-set_cell}

-- The empty space is on the board and holds 0, and the tiles are those of the solution.
pub record IsValid (s : GameState) : Type 0 where
  pub square : IsSquare s.size s.grid
  pub row : s.empty_r < s.size
  pub column : s.empty_c < s.size
  pub empty : cell s.grid s.empty_r s.empty_c ≡ 0
  pub tiles : SameItems (flatten s.grid) (flatten s.solution)

-- Next to each other, in a row or in a column.
abbrev pub IsNeighbour : GameState → ℕ → ℕ → Type 0
IsNeighbour s r c = distance r s.empty_r + distance c s.empty_c ≡ 1

pub slide_tile-IsValid :
    (s : GameState) (r c : ℕ) → IsValid s → r < s.size → c < s.size → IsValid (slide_tile s r c)
unfolding slide_tile
slide_tile-IsValid s r c v hr hc =
    let tile = cell s.grid r c in
    let moved = set_cell s.grid s.empty_r s.empty_c tile in
    let sq = set_cell-IsSquare s.size s.grid s.empty_r s.empty_c tile v.square v.row in
    let there : cell moved r c ≡ tile =
      cell-set_cell s.size s.grid s.empty_r s.empty_c r c tile v.square v.row v.column
      ∙ elim (Bool-cases (s.empty_r == r && s.empty_c == c)) [
        | inl e ↦ rw e refl
        | inr e ↦ rw e refl
      ] in
    let wipes = cell-set_cell s.size moved r c r c 0 sq hr hc in
    record {
      square = set_cell-IsSquare s.size moved r c 0 sq hr;
      row = hr;
      column = hc;
      empty = ground (arith, wipes);
      tiles = λ f. omega (
        arith,
        v.tiles f,
        ap f v.empty,
        ap f there,
        total-set_cell f s.size s.grid s.empty_r s.empty_c tile v.square v.row v.column,
        total-set_cell f s.size moved r c 0 sq hr hc,
      );
    }

same_row_refl : (xs : List ℕ) → same_row xs xs ≡ true
unfolding same_row
same_row_refl [] = refl
same_row_refl (x ∷ xs) = rw (==_refl x, same_row_refl xs) refl

same_row→eq : (xs ys : List ℕ) → same_row xs ys ≡ true → xs ≡ ys
unfolding same_row
same_row→eq [] [] h = refl
same_row→eq [] (y ∷ ys) h = absurd (ground arith)
same_row→eq (x ∷ xs) [] h = absurd (ground arith)
same_row→eq (x ∷ xs) (y ∷ ys) h =
    let both = both_true (x == y) (same_row xs ys) h in
    let heads = ==→eq x y both.0 in let tails = same_row→eq xs ys both.1 in cc

same_grid_refl : (g : Grid) → same_grid g g ≡ true
unfolding same_grid
same_grid_refl [] = refl
same_grid_refl (x ∷ xs) = rw (same_row_refl x, same_grid_refl xs) refl

same_grid→eq : (g g' : Grid) → same_grid g g' ≡ true → g ≡ g'
unfolding same_grid
same_grid→eq [] [] h = refl
same_grid→eq [] (y ∷ ys) h = absurd (ground arith)
same_grid→eq (x ∷ xs) [] h = absurd (ground arith)
same_grid→eq (x ∷ xs) (y ∷ ys) h =
    let both = both_true (same_row x y) (same_grid xs ys) h in
    let heads = same_row→eq x y both.0 in let tails = same_grid→eq xs ys both.1 in cc

-- The command changed nothing and earned nothing.
abbrev pub IsRefused : GameState → StepResult → Type 0
IsRefused s result = (result.state ≡ s) × (result.reward ≡ 0) × (result.is_terminated ≡ false)

-- The tile at (r, c) moved into the empty space; the game is over, with reward 1, exactly if that
-- solved the puzzle.
abbrev pub IsMove : GameState → StepResult → ℕ → ℕ → Type 0
IsMove s result r c =
    (result.state ≡ slide_tile s r c)
    × ((result.is_terminated ≡ true) ↔ (result.state.grid ≡ s.solution))
    × (result.reward ≡ (if result.is_terminated then 1 else 0))

after_move-IsMove :
    (answer : Response) (s : GameState) (r c : ℕ)
    → IsMove s (after_move answer (slide_tile s r c)) r c
unfolding after_move slide_tile
after_move-IsMove answer s r c =
    let moved = slide_tile s r c in
    elim (Bool-cases (same_grid moved.grid s.solution)) [
      | inl e ↦ rw e (refl, ((λ _. same_grid→eq _ _ e), (λ _. refl)), refl)
      | inr e ↦
          let differ = λ (same : moved.grid ≡ s.solution).
            sym e ∙ ap (same_grid moved.grid) (sym same) ∙ same_grid_refl moved.grid in
          rw e (
            refl,
            ((λ bad. absurd (ground arith)), (λ same. absurd (ground (arith, differ same)))),
            refl,
          )
    ]

-- What a command does: nothing, or it slides one neighbour of the empty space into it.
abbrev pub Outcome : GameState → StepResult → Type 0
Outcome s result =
    IsRefused s result
    ⊎ ((r : ℕ) × (c : ℕ) × (r < s.size) × (c < s.size) × IsNeighbour s r c × IsMove s result r c)

on_board→lt : (n : ℕ) (z : ℤ) (i : ℕ) → on_board n z ≡ some i → i < n
on_board→lt n (pos k) i h = ground arith
on_board→lt n (negsuc k) i h = absurd (ground arith)

step_slide-Outcome : (row col : ℤ) (s : GameState) → Outcome s (step_slide row col s)
unfolding step_slide
step_slide-Outcome row col s = elim (Option-cases (on_board s.size (row -ℤ pos 1))) [
  | inl e ↦ rw (e, step_slide) (inl (refl, refl, refl))
  | inr (r, er) ↦ elim (Option-cases (on_board s.size (col -ℤ pos 1))) [
    | inl e ↦ rw (er, e, step_slide) (inl (refl, refl, refl))
    | inr (c, ec) ↦
        let near = distance r s.empty_r + distance c s.empty_c == 1 in
        elim (Bool-cases near) [
          | inl e ↦
              rw (er, ec, e, step_slide)
                (inr (
                  r,
                  c,
                  on_board→lt s.size (row -ℤ pos 1) r er,
                  on_board→lt s.size (col -ℤ pos 1) c ec,
                  ==→eq _ _ e,
                  after_move-IsMove (slid_into_empty (cell s.grid r c)) s r c,
                ))
          | inr e ↦ rw (er, ec, e, step_slide) (inl (refl, refl, refl))
        ]
  ]
]

tile_for-near :
    (d : Direction) (s : GameState) (r c : ℕ)
    → s.empty_r < s.size
    → s.empty_c < s.size
    → tile_for d s ≡ some (r, c)
    → (r < s.size) × (c < s.size) × IsNeighbour s r c
tile_for-near up s r c hr hc h = (ground arith, ground arith, ground arith)
tile_for-near down s r c hr hc h = (ground arith, ground arith, ground arith)
tile_for-near left s r c hr hc h = (ground arith, ground arith, ground arith)
tile_for-near right s r c hr hc h = (ground arith, ground arith, ground arith)

step_direction-Outcome :
    (d : Direction) (s : GameState) → IsValid s → Outcome s (step_direction d s)
unfolding step_direction
step_direction-Outcome d s v = elim (Option-cases (tile_for d s)) [
  | inl e ↦ rw (e, step_direction) (inl (refl, refl, refl))
  | inr ((r, c), e) ↦
      let (hr, hc, near) = tile_for-near d s r c v.row v.column e in
      rw (e, step_direction)
        (inr (r, c, hr, hc, near, after_move-IsMove (slid (cell s.grid r c) d) s r c))
]

-- A command on a well-formed state either leaves the state as it is, with reward 0 and the game not
-- over, or slides one neighbour of the empty space into it; then the game is over exactly if the new
-- grid is the solution, and the reward is 1 if it is over and 0 if not.
pub step-Outcome : (command : Command) (s : GameState) → IsValid s → Outcome s (step command s)
unfolding step
step-Outcome (slide row col) s v = step_slide-Outcome row col s
step-Outcome bad_slide s v = inl (refl, refl, refl)
step-Outcome (go d) s v = step_direction-Outcome d s v
step-Outcome other s v = inl (refl, refl, refl)

-- A command keeps a state well-formed, with the size and the solution it had: the empty space is on the
-- board and the tiles are those of the solution.
pub step-IsValid :
    (command : Command) (s : GameState)
    → IsValid s
    → IsValid (step command s).state
      × ((step command s).state.size ≡ s.size)
      × ((step command s).state.solution ≡ s.solution)
unfolding slide_tile
step-IsValid command s v = elim (step-Outcome command s v) [
  | inl (same, _, _) ↦ rw same (v, refl, refl)
  | inr (r, c, hr, hc, near, move) ↦ rw (move.0) (slide_tile-IsValid s r c v hr hc, refl, refl)
]
