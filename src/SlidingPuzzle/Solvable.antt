-- ===== src/SlidingPuzzle/Solvable.antt =====
-- Every puzzle that `generate` makes is well-formed and can be solved by commands.
use nemo_rl_vlm.Prelude.{
  List-cases, ℕ, zero, suc, ◌+◌, ◌-◌, ◌%◌, ◌<◌, ◌≡◌, refl, ap, ◌∙◌, subst, ok_inj, inl, inr, List,
  [], ◌∷◌, map, Option, Bool, true, false, ok, >>=-eq-ok, ltb, get_or, length, range_from,
  length-map, length-range_from, All, All-append, All_get, get_elem?-get_or, arith,
}
use nemo_rl_vlm.SlidingPuzzle.{
  set_cell, GameState, ordered_grid, solved, when, moves, swap_empty, shuffle_once, shuffle,
  config_size, generate, Command, step, slide_tile,
}
use nemo_rl_vlm.SlidingPuzzle.Grid.{IsSquare, set_cell-IsSquare, cell-set_cell}
use nemo_rl_vlm.SlidingPuzzle.Legal.{IsValid, IsNeighbour, slide_tile-IsValid}
use nemo_rl_vlm.SlidingPuzzle.Undo.{slide_at, slid_back}

-- The commands one after the other.
abbrev pub play : List Command → GameState → GameState
play [] s = s
play (command ∷ commands) s = play commands (step command s).state

-- Some commands lead to the solution.
abbrev pub IsSolvable : GameState → Type 0
IsSolvable s = (commands : List Command) × ((play commands s).grid ≡ s.solution)

abbrev IsGood : GameState → Type 0
IsGood s = IsValid s × IsSolvable s

swap_is_slide : (s : GameState) (r c : ℕ) → IsValid s → swap_empty s (r, c) ≡ slide_tile s r c
unfolding swap_empty slide_tile
swap_is_slide s r c v = rw v.empty refl

swap-IsGood :
    (s : GameState) (r c : ℕ)
    → IsGood s
    → r < s.size
    → c < s.size
    → IsNeighbour s r c
    → IsGood (swap_empty s (r, c))
unfolding slide_tile
swap-IsGood s r c (v, (commands, solves)) hr hc near = rw (swap_is_slide s r c v) (
  slide_tile-IsValid s r c v hr hc,
  (
    slide_at s.empty_r s.empty_c ∷ commands,
    ap (λ t. (play commands t).grid) (slid_back s r c v hr hc near) ∙ solves,
  ),
)

abbrev IsMoveOf : GameState → ℕ × ℕ → Type 0
IsMoveOf s (r, c) = (r < s.size) × (c < s.size) × IsNeighbour s r c

when-All :
    (P : ℕ × ℕ → Type 0) (test : Bool) (p : ℕ × ℕ) → (test ≡ true → P p) → All P (when test p)
when-All P true p h = (h refl, tt)
when-All P false p h = tt

moves_are : (s : GameState) → IsValid s → All (IsMoveOf s) (moves s.size s.empty_r s.empty_c)
unfolding moves
moves_are s v =
    let r = s.empty_r in
    let c = s.empty_c in
    let row = v.row in
    let column = v.column in
    All-append (IsMoveOf s) (when (ltb (c + 1) s.size) (r, c + 1)) _
      (when-All _ _ _ (λ h. (ground arith, ground arith, ground arith)))
      (All-append (IsMoveOf s) (when (ltb (r + 1) s.size) (r + 1, c)) _
        (when-All _ _ _ (λ h. (ground arith, ground arith, ground arith)))
        (All-append (IsMoveOf s) (when (ltb 0 c) (r, c - 1)) _
          (when-All _ _ _ (λ h. (ground arith, ground arith, ground arith)))
          (when-All _ _ _ (λ h. (ground arith, ground arith, ground arith)))))

shuffle_once-IsGood : (choice : ℕ) (s : GameState) → IsGood s → IsGood (shuffle_once choice s)
unfolding shuffle_once
shuffle_once-IsGood choice s h = elim (List-cases (moves s.size s.empty_r s.empty_c)) [
  | inl e ↦ rw (e, shuffle_once) h
  | inr (m, ms, e) ↦
      let index = choice % length (m ∷ ms) in
      let chosen = get_or (m ∷ ms) index m in
      let (hr, hc, near) =
        All_get (IsMoveOf s) (m ∷ ms) index chosen (rw e at (moves_are s h.0))
          (get_elem?-get_or (m ∷ ms) index m (omega arith)) in
      rw (e, shuffle_once) (swap-IsGood s (chosen.0) (chosen.1) h hr hc near)
]

shuffle-IsGood : (choices : List ℕ) (s : GameState) → IsGood s → IsGood (shuffle choices s)
unfolding shuffle
shuffle-IsGood [] s h = h
shuffle-IsGood (choice ∷ choices) s h =
    shuffle-IsGood choices (shuffle_once choice s) (shuffle_once-IsGood choice s h)

rows_long :
    (n : ℕ) (f : ℕ → List ℕ) (xs : List ℕ)
    → ((x : ℕ) → length (f x) ≡ n)
    → All (λ row. length row ≡ n) (map f xs)
rows_long n f [] h = tt
rows_long n f (x ∷ xs) h = (h x, rows_long n f xs h)

ordered_grid-IsSquare : (n : ℕ) → IsSquare n (ordered_grid n)
unfolding ordered_grid
ordered_grid-IsSquare n = (
  length-map (range_from 0 n) _ ∙ length-range_from 0 n,
  rows_long n _ (range_from 0 n) (λ r. length-map (range_from 0 n) _ ∙ length-range_from 0 n),
)

solved-IsGood : (size : ℕ) (s : GameState) → solved size ≡ ok s → IsGood s
unfolding solved
solved-IsGood zero s h = absurd (ground arith)
solved-IsGood (suc n) s h =
    let grid = set_cell (ordered_grid (suc n)) n n 0 in
    let start : GameState = record {
      size = suc n;
      grid = grid;
      solution = grid;
      empty_r = n;
      empty_c = n;
    } in
    let square = ordered_grid-IsSquare (suc n) in
    let wipes =
      cell-set_cell (suc n) (ordered_grid (suc n)) n n n n 0 square (omega arith) (omega arith) in
    let valid : IsValid start = record {
      square = set_cell-IsSquare (suc n) (ordered_grid (suc n)) n n 0 square (omega arith);
      row = omega arith;
      column = omega arith;
      empty = ground (arith, wipes);
      tiles = λ f. refl;
    } in
    let same : start ≡ s = ok_inj h in subst IsGood same (valid, ([], refl))

-- Whatever the random choices, a puzzle that `generate` returns is well-formed and some commands
-- lead from it to its solution.
pub generate-IsSolvable :
    (size : Option ℕ) (choices : List ℕ) (s : GameState)
    → generate size choices ≡ ok s
    → IsValid s × ((commands : List Command) × ((play commands s).grid ≡ s.solution))
unfolding generate
generate-IsSolvable size choices s h =
    let (start, made, shuffled) =
      >>=-eq-ok (solved (config_size size)) (λ t. ok (shuffle choices t)) h in
    subst IsGood (ok_inj shuffled)
      (shuffle-IsGood choices start (solved-IsGood (config_size size) start made))
