-- ===== src/SlidingPuzzle/Tests.antt =====
-- A 2 by 2 puzzle, shuffled and played.
use nemo_rl_vlm.Prelude.{
  List, length, total, All, ◌≤◌, ◌+◌, ◌≡◌, refl, some, [], ◌∷◌, ok, true, arith,
}
use nemo_rl_vlm.SlidingPuzzle.{
  GameState, generate, step, go, left, up, solved, shuffle, moves, swap_empty, shuffle_once,
  ordered_grid,
}
use nemo_rl_vlm.SlidingPuzzle.Legal.{IsValid, Outcome, step-Outcome, step-IsValid}
use nemo_rl_vlm.SlidingPuzzle.Undo.{slide_at, step-step}
use nemo_rl_vlm.SlidingPuzzle.Runner.{Metadata, Reply, no_action, view, act, play}
use nemo_rl_vlm.SlidingPuzzle.Runner.Laws.{
  NextWithin, play-NextWithin, idle, moves_left, play-length,
}
use nemo_rl_vlm.SlidingPuzzle.Solvable.{IsSolvable, generate-IsSolvable}

-- One move of the shuffle, to the left: choice 2 % 2.
abbrev shuffled : GameState
shuffled = record {
  size = 2;
  grid = (1 ∷ 2 ∷ []) ∷ (0 ∷ 3 ∷ []) ∷ [];
  solution = (1 ∷ 2 ∷ []) ∷ (3 ∷ 0 ∷ []) ∷ [];
  empty_r = 1;
  empty_c = 0;
}

generate-shuffled : generate (some 2) (2 ∷ []) ≡ ok shuffled
unfolding generate shuffle shuffle_once moves swap_empty solved ordered_grid
generate-shuffled = refl

step_solves : (step (go left) shuffled).is_terminated ≡ true
unfolding step
step_solves = refl

abbrev shuffled-IsValid : IsValid shuffled
shuffled-IsValid = (generate-IsSolvable (some 2) (2 ∷ []) shuffled generate-shuffled).0

generate-IsSolvable_example : IsValid shuffled × IsSolvable shuffled
generate-IsSolvable_example = generate-IsSolvable (some 2) (2 ∷ []) shuffled generate-shuffled

step-Outcome_example : Outcome shuffled (step (go left) shuffled)
step-Outcome_example = step-Outcome (go left) shuffled shuffled-IsValid

step-IsValid_example :
    IsValid (step (go up) shuffled).state
    × ((step (go up) shuffled).state.size ≡ 2)
    × ((step (go up) shuffled).state.solution ≡ shuffled.solution)
step-IsValid_example = step-IsValid (go up) shuffled shuffled-IsValid

step-step_example : (step (slide_at 1 0) (step (slide_at 1 1) shuffled).state).state ≡ shuffled
step-step_example = step-step shuffled 1 1 shuffled-IsValid (omega arith) (omega arith) refl

abbrev started : Metadata
started = record { game_state = shuffled; num_moves = 0; max_moves = 2 }

abbrev replies_given : List Reply
replies_given = no_action ∷ act (go up) ∷ view ∷ act (go left) ∷ act (go left) ∷ view ∷ []

-- The second command solves the puzzle, which ends the sample.
solved_in_four : length (play started replies_given) ≡ 4
unfolding play
solved_in_four = refl

play-NextWithin_example :
    (total (λ turn. turn.turn_reward) (play started replies_given) ≤ 1)
    × All (λ turn. NextWithin 2 turn.next_metadata) (play started replies_given)
play-NextWithin_example = play-NextWithin replies_given started (shuffled-IsValid, omega arith)

play-length_example :
    length (play started replies_given) ≤ total idle replies_given + moves_left started + 1
play-length_example = play-length replies_given started
