-- ===== src/SlidingPuzzle.antt =====
-- `SlidingPuzzleGameLogic` (nemo_rl/environments/games/sliding_puzzle.py). `Command` is what `step`
-- reads in the action text; `Response` stands for the texts that it answers with. `random.choice` is a
-- number that picks one of the moves.
pub mod Grid
pub mod Legal
pub mod Undo
pub mod Solvable
pub mod Runner
mod Tests
use nemo_rl_vlm.Prelude.{
  ℕ, zero, suc, ◌+◌, ◌-◌, ◌*◌, ◌%◌, List, [], ◌∷◌, ◌++◌, map, Option, none, some, Bool, true, false,
  ◌&&◌, Result, ok, raise, ◌>>=◌, index_error, ltb, leb, ◌==◌, if◌then◌else◌, length, get_or, set,
  range_from,
}
use nemo_rl_vlm.Prelude.Int.{ℤ, pos, negsuc, ◌-ℤ◌, pos_part, neg_part}

abbrev pub Grid : Type 0
Grid = List (List ℕ)

-- `grid[r][c]` and `grid[r][c] = v`, on positions inside the grid.
abbrev pub cell : Grid → ℕ → ℕ → ℕ
cell grid r c = get_or (get_or grid r []) c 0

abbrev pub set_cell : Grid → ℕ → ℕ → ℕ → Grid
set_cell grid r c v = set grid r (set (get_or grid r []) c v)

pub record GameState : Type 0 where
  pub size : ℕ
  pub grid : Grid
  pub solution : Grid
  pub empty_r : ℕ
  pub empty_c : ℕ

-- `[[(r * size + c + 1) for c in range(size)] for r in range(size)]`
unfoldable pub ordered_grid : ℕ → Grid
ordered_grid size = map (λ r. map (λ c. r * size + c + 1) (range_from 0 size)) (range_from 0 size)

-- The solved state; `grid[size - 1][size - 1]` raises IndexError on an empty grid.
unfoldable pub solved : ℕ → Result GameState
unfolding ordered_grid
solved zero = raise index_error
solved (suc n) =
    let grid = set_cell (ordered_grid (suc n)) n n 0 in
    ok (record { size = suc n; grid = grid; solution = grid; empty_r = n; empty_c = n })

-- The neighbours inside the grid, in the order right, down, left, up.
abbrev when : Bool → ℕ × ℕ → List (ℕ × ℕ)
when true p = p ∷ []
when false p = []

unfoldable pub moves : ℕ → ℕ → ℕ → List (ℕ × ℕ)
moves size r c =
    when (ltb (c + 1) size) (r, c + 1)
    ++ (when (ltb (r + 1) size) (r + 1, c)
        ++ (when (ltb 0 c) (r, c - 1) ++ when (ltb 0 r) (r - 1, c)))

-- One round of the shuffle: the empty space and the chosen tile change places.
unfoldable pub swap_empty : GameState → ℕ × ℕ → GameState
swap_empty s (r, c) =
    let tile = cell s.grid r c in
    let empty = cell s.grid s.empty_r s.empty_c in
    record s {
      grid = set_cell (set_cell s.grid s.empty_r s.empty_c tile) r c empty;
      empty_r = r;
      empty_c = c;
    }

unfoldable pub shuffle_once : ℕ → GameState → GameState
unfolding moves swap_empty
shuffle_once choice s = elim (moves s.size s.empty_r s.empty_c) [
  | [] ↦ s
  | m ∷ ms ↦ swap_empty s (get_or (m ∷ ms) (choice % length (m ∷ ms)) m)
]

unfoldable pub shuffle : List ℕ → GameState → GameState
unfolding shuffle_once
shuffle [] s = s
shuffle (choice ∷ choices) s = shuffle choices (shuffle_once choice s)

-- `config.get("size", 4)`
abbrev config_size : Option ℕ → ℕ
config_size none = 4
config_size (some size) = size

-- One choice for each of the `shuffle_moves` rounds.
unfoldable pub generate : Option ℕ → List ℕ → Result GameState
unfolding solved shuffle
generate size choices = solved (config_size size) >>= λ s. ok (shuffle choices s)

pub data Direction : Type 0 where
  up down left right : Direction

-- `slide r c` has two numbers, `bad_slide` is any other text that begins with "slide ".
pub data Command : Type 0 where
  slide : ℤ → ℤ → Command
  bad_slide : Command
  go : Direction → Command
  other : Command

pub data Response : Type 0 where
  unknown_command invalid_position not_adjacent invalid_format congratulations : Response
  slid_into_empty : ℕ → Response
  slid : ℕ → Direction → Response
  cannot_slide : Direction → Response

pub record StepResult : Type 0 where
  pub response : Response
  pub reward : ℕ
  pub is_terminated : Bool
  pub state : GameState

-- The answers that leave the state as it is.
abbrev pub refuse : GameState → Response → StepResult
refuse s response = record { response = response; reward = 0; is_terminated = false; state = s }

-- The tile at (r, c) slides into the empty space.
unfoldable pub slide_tile : GameState → ℕ → ℕ → GameState
slide_tile s r c = record s {
  grid = set_cell (set_cell s.grid s.empty_r s.empty_c (cell s.grid r c)) r c 0;
  empty_r = r;
  empty_c = c;
}

-- `new_state["grid"] == new_state["solution"]`
unfoldable pub same_row : List ℕ → List ℕ → Bool
same_row [] [] = true
same_row [] (b ∷ bs) = false
same_row (a ∷ as') [] = false
same_row (a ∷ as') (b ∷ bs) = a == b && same_row as' bs

unfoldable pub same_grid : Grid → Grid → Bool
unfolding same_row
same_grid [] [] = true
same_grid [] (b ∷ bs) = false
same_grid (a ∷ as') [] = false
same_grid (a ∷ as') (b ∷ bs) = same_row a b && same_grid as' bs

-- `if move_made: …`
unfoldable pub after_move : Response → GameState → StepResult
unfolding same_grid
after_move response s =
    if same_grid s.grid s.solution
    then (record { response = congratulations; reward = 1; is_terminated = true; state = s })
    else (record { response = response; reward = 0; is_terminated = false; state = s })

-- A coordinate that lies on the board, `0 <= i < size`.
abbrev pub on_board : ℕ → ℤ → Option ℕ
on_board size (pos i) = if ltb i size then some i else none
on_board size (negsuc i) = none

-- `abs(i - j)` of two coordinates on the board.
abbrev pub distance : ℕ → ℕ → ℕ
distance i j = (i - j) + (j - i)

unfoldable pub step_slide : ℤ → ℤ → GameState → StepResult
unfolding slide_tile after_move ◌-ℤ◌
step_slide row col s = elim (on_board s.size (row -ℤ pos 1)) [
  | none ↦ refuse s invalid_position
  | some r ↦ elim (on_board s.size (col -ℤ pos 1)) [
    | none ↦ refuse s invalid_position
    | some c ↦
        if distance r s.empty_r + distance c s.empty_c == 1
        then after_move (slid_into_empty (cell s.grid r c)) (slide_tile s r c)
        else refuse s not_adjacent
  ]
]

-- The position of the tile that slides in a direction, if it is on the board.
abbrev pub tile_for : Direction → GameState → Option (ℕ × ℕ)
tile_for up s = if ltb (s.empty_r + 1) s.size then some (s.empty_r + 1, s.empty_c) else none
tile_for down s = if ltb 0 s.empty_r then some (s.empty_r - 1, s.empty_c) else none
tile_for left s = if ltb (s.empty_c + 1) s.size then some (s.empty_r, s.empty_c + 1) else none
tile_for right s = if ltb 0 s.empty_c then some (s.empty_r, s.empty_c - 1) else none

unfoldable pub step_direction : Direction → GameState → StepResult
unfolding slide_tile after_move
step_direction d s = elim (tile_for d s) [
  | none ↦ refuse s (cannot_slide d)
  | some (r, c) ↦ after_move (slid (cell s.grid r c) d) (slide_tile s r c)
]

unfoldable pub step : Command → GameState → StepResult
unfolding step_slide step_direction
step (slide row col) s = step_slide row col s
step bad_slide s = refuse s invalid_format
step (go d) s = step_direction d s
step other s = refuse s unknown_command
