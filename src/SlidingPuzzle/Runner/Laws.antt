-- ===== src/SlidingPuzzle/Runner/Laws.antt =====
-- A sample gets at most one reward and no more moves than it may make.
use nemo_rl_vlm.Prelude.{
  ℕ, ◌+◌, ◌-◌, ◌≤◌, ◌<◌, ◌≡◌, refl, sym, subst, inl, inr, List, [], ◌∷◌, Option, none, some, Bool,
  true, false, leb, leb_false→lt, if◌then◌else◌, Bool-cases, length, total, All, arith,
}
use nemo_rl_vlm.SlidingPuzzle.{GameState, Command, step, StepResult}
use nemo_rl_vlm.SlidingPuzzle.Legal.{IsValid, Outcome, step-Outcome, step-IsValid}
use nemo_rl_vlm.SlidingPuzzle.Runner.{
  Metadata, Reply, no_action, view, act, Turn, game_turn, answer_reply, process_turn, kept, play,
}

-- The puzzle is well-formed, and the moves are within what is allowed.
abbrev pub IsWithin : Metadata → Type 0
IsWithin m = IsValid m.game_state × (m.num_moves ≤ m.max_moves)

-- The reward of a turn is 1 if it solves the puzzle, which ends the game.
abbrev RewardsEnd : Bool → ℕ → Type 0
RewardsEnd true reward = reward ≤ 1
RewardsEnd false reward = reward ≡ 0

if_one : (b : Bool) → RewardsEnd b (if b then 1 else 0)
if_one true = omega arith
if_one false = refl

Outcome-RewardsEnd :
    (s : GameState) (result : StepResult)
    → Outcome s result
    → RewardsEnd result.is_terminated result.reward
Outcome-RewardsEnd s result (inl (same, no_reward, goes_on)) =
    subst (λ b. RewardsEnd b result.reward) (sym goes_on) no_reward
Outcome-RewardsEnd s result (inr (r, c, hr, hc, near, move)) =
    subst (RewardsEnd result.is_terminated) (sym move.2) (if_one result.is_terminated)

-- What a turn does to a sample that is within its moves.
abbrev KeepsWithin : Metadata → Turn → Type 0
KeepsWithin m turn =
    RewardsEnd turn.is_terminated turn.turn_reward
    × IsWithin (kept m turn.next_metadata)
    × ((kept m turn.next_metadata).max_moves ≡ m.max_moves)

game_turn-KeepsWithin :
    (m : Metadata) (command : Command)
    → IsWithin m
    → m.num_moves < m.max_moves
    → KeepsWithin m (game_turn m (step command m.game_state))
unfolding game_turn
game_turn-KeepsWithin m command within more =
    let result = step command m.game_state in
    let rewards =
      Outcome-RewardsEnd m.game_state result (step-Outcome command m.game_state within.0) in
    let after = kept_next result.is_terminated in (rewards, after.0, after.1)
  where
    next : Metadata
    next = record {
      game_state = (step command m.game_state).state;
      num_moves = m.num_moves + 1;
      max_moves = m.max_moves;
    }

    kept_next :
        (b : Bool)
        → IsWithin (kept m (if b then none else some next))
          × ((kept m (if b then none else some next)).max_moves ≡ m.max_moves)
    kept_next true = (within, refl)
    kept_next false = (((step-IsValid command m.game_state within.0).0, omega (arith, more)), refl)

process_turn-KeepsWithin :
    (m : Metadata) (reply : Reply) → IsWithin m → KeepsWithin m (process_turn m reply)
unfolding process_turn answer_reply
process_turn-KeepsWithin m reply within = elim (Bool-cases (leb m.max_moves m.num_moves)) [
  | inl e ↦ rw (e, process_turn) (omega arith, within, refl)
  | inr e ↦ rw (e, process_turn) (by_reply reply (leb_false→lt m.max_moves m.num_moves e))
]
  where
    by_reply : (reply : Reply) → m.num_moves < m.max_moves → KeepsWithin m (answer_reply m reply)
    by_reply no_action more = (refl, within, refl)
    by_reply view more = (refl, within, refl)
    by_reply (act command) more = game_turn-KeepsWithin m command within more

-- The metadata that a turn returns is within the moves.
abbrev pub NextWithin : ℕ → Option Metadata → Type 0
NextWithin max_moves none = Unit
NextWithin max_moves (some m) = IsWithin m × (m.max_moves ≡ max_moves)

kept-NextWithin :
    (m : Metadata) (next : Option Metadata)
    → IsWithin (kept m next)
    → (kept m next).max_moves ≡ m.max_moves
    → NextWithin m.max_moves next
kept-NextWithin m none h e = tt
kept-NextWithin m (some n) h e = (h, e)

-- However the model replies to a well-formed puzzle, a sample gets at most one reward of 1, and all metadata
-- that its turns return are of a well-formed puzzle, with no more moves than are allowed.
pub play-NextWithin :
    (replies : List Reply) (m : Metadata)
    → IsWithin m
    → (total (λ turn. turn.turn_reward) (play m replies) ≤ 1)
      × All (λ turn. NextWithin m.max_moves turn.next_metadata) (play m replies)
unfolding play
play-NextWithin [] m h = (omega arith, tt)
play-NextWithin (reply ∷ replies) m h =
    let turn = process_turn m reply in
    let (rewards, within, same) = process_turn-KeepsWithin m reply h in
    let next_ok = kept-NextWithin m turn.next_metadata within same in
    let rest = play-NextWithin replies (kept m turn.next_metadata) within in
    elim (Bool-cases turn.is_terminated) [
      | inl e ↦
          let small = subst (λ b. RewardsEnd b turn.turn_reward) e rewards in
          rw (e, play) (omega (arith, small), (next_ok, tt))
      | inr e ↦
          let nothing = subst (λ b. RewardsEnd b turn.turn_reward) e rewards in
          rw (e, play)
            (
              omega (arith, nothing, rest.0),
              (
                next_ok,
                subst
                    (λ max_moves.
                      All (λ turn. NextWithin max_moves turn.next_metadata)
                        (play (kept m turn.next_metadata) replies))
                    same rest.1,
              ),
            )
    ]

-- A reply that moves nothing.
abbrev pub idle : Reply → ℕ
idle no_action = 1
idle view = 1
idle (act command) = 0

abbrev pub moves_left : Metadata → ℕ
moves_left m = m.max_moves - m.num_moves

-- A turn after which the sample goes on uses up a move, unless it is idle.
process_turn-moves_left :
    (m : Metadata) (reply : Reply)
    → (process_turn m reply).is_terminated ≡ false
    → moves_left (kept m (process_turn m reply).next_metadata) + 1 ≤ idle reply + moves_left m
unfolding process_turn answer_reply game_turn
process_turn-moves_left m reply h = elim (Bool-cases (leb m.max_moves m.num_moves)) [
  | inl e ↦ absurd (ground (arith, e, h))
  | inr e ↦
      rw (e, process_turn)
        (by_reply reply (leb_false→lt m.max_moves m.num_moves e) (rw (e, process_turn) at h))
]
  where
    by_reply :
        (reply : Reply)
        → m.num_moves < m.max_moves
        → (answer_reply m reply).is_terminated ≡ false
        → moves_left (kept m (answer_reply m reply).next_metadata) + 1 ≤ idle reply + moves_left m
    by_reply no_action more go = omega arith
    by_reply view more go = omega arith
    by_reply (act command) more go = rw go (omega (arith, more))

-- Whatever the model replies, the environment ends a sample within the moves that are left, one more turn, and the
-- turns in which nothing moves.
pub play-length :
    (replies : List Reply) (m : Metadata)
    → length (play m replies) ≤ total idle replies + moves_left m + 1
unfolding play
play-length [] m = omega arith
play-length (reply ∷ replies) m =
    let turn = process_turn m reply in
    let rest = play-length replies (kept m turn.next_metadata) in
    elim (Bool-cases turn.is_terminated) [
      | inl e ↦ rw (e, play) (omega arith)
      | inr e ↦ rw (e, play) (omega (arith, rest, process_turn-moves_left m reply e))
    ]
