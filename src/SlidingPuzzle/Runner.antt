-- ===== src/SlidingPuzzle/Runner.antt =====
-- `SlidingPuzzleRunner.process_turn` (nemo_rl/environments/games/sliding_puzzle.py), and the turns of one sample
-- (nemo_rl/experience/rollouts.py): where the environment returns no metadata, a sample that goes on keeps what it
-- had. The texts are not modelled: a `Reply` is what `_parse_action` finds in the last message.
pub mod Laws
use nemo_rl_vlm.Prelude.{
  ℕ, ◌+◌, List, [], ◌∷◌, Option, none, some, Bool, true, false, leb, if◌then◌else◌,
}
use nemo_rl_vlm.SlidingPuzzle.{GameState, Command, Response, StepResult, step}

-- `SlidingPuzzleMetadata`
pub record Metadata : Type 0 where
  pub game_state : GameState
  pub num_moves : ℕ
  pub max_moves : ℕ

pub data Reply : Type 0 where
  no_action view : Reply
  act : Command → Reply

pub data Observation : Type 0 where
  max_moves_reached : ℕ → Observation
  invalid_format viewing : GameState → Observation
  answer : Response → Observation

pub record Turn : Type 0 where
  pub observation : Observation
  pub turn_reward : ℕ
  pub is_terminated : Bool
  pub has_stop_strings : Bool
  pub next_metadata : Option Metadata

-- A game step, whose metadata is cleared when the game is over.
unfoldable pub game_turn : Metadata → StepResult → Turn
game_turn m result = record {
  observation = answer result.response;
  turn_reward = result.reward;
  is_terminated = result.is_terminated;
  has_stop_strings = true;
  next_metadata =
      if result.is_terminated
      then none
      else some (record {
        game_state = result.state;
        num_moves = m.num_moves + 1;
        max_moves = m.max_moves;
      });
}

unfoldable pub answer_reply : Metadata → Reply → Turn
unfolding game_turn step
answer_reply m no_action = record {
  observation = invalid_format m.game_state;
  turn_reward = 0;
  is_terminated = false;
  has_stop_strings = true;
  next_metadata = none;
}
answer_reply m view = record {
  observation = viewing m.game_state;
  turn_reward = 0;
  is_terminated = false;
  has_stop_strings = true;
  next_metadata = some m;
}
answer_reply m (act command) = game_turn m (step command m.game_state)

unfoldable pub process_turn : Metadata → Reply → Turn
unfolding answer_reply
process_turn m reply =
    if leb m.max_moves m.num_moves
    then (record {
      observation = max_moves_reached m.max_moves;
      turn_reward = 0;
      is_terminated = true;
      has_stop_strings = false;
      next_metadata = none;
    })
    else answer_reply m reply

-- `if continuing_metadata[i] is not None`
abbrev pub kept : Metadata → Option Metadata → Metadata
kept m none = m
kept m (some next) = next

-- The turns of a sample, until the environment ends it.
unfoldable pub play : Metadata → List Reply → List Turn
unfolding process_turn
play m [] = []
play m (reply ∷ replies) =
    let turn = process_turn m reply in
    let rest = play (kept m turn.next_metadata) replies in
    turn ∷ (if turn.is_terminated then [] else rest)
