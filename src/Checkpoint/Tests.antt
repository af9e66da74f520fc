-- ===== src/Checkpoint/Tests.antt =====
-- A directory of four checkpoints, of which the two best are kept.
use nemo_rl_vlm.Prelude.{
  ℕ, ◌≤◌, ◌≡◌, All, refl, List, [], ◌∷◌, none, some, true, false, ok, raise, os_error, ltb, ◌||◌,
  if◌then◌else◌, arith,
}
use nemo_rl_vlm.Prelude.Sort.{sort}
use nemo_rl_vlm.Checkpoint.{
  Name, tmp_step, step, old_step, same_name, Directory, Checkpoint, Manager, find, move_into_place,
  finalize_checkpoint, remove_old_checkpoints, load_checkpoint_history, get_best_checkpoint,
  with_metric, not_worse,
}
use nemo_rl_vlm.Prelude.Multiset.{SameItems}
use nemo_rl_vlm.Checkpoint.Best.{get_best_checkpoint-All}
use nemo_rl_vlm.Checkpoint.Removal.{occurs}
use nemo_rl_vlm.Checkpoint.Retention.{Retains, remove_old_checkpoints-Retains}
use nemo_rl_vlm.Checkpoint.Renames.{move_into_place-find}

abbrev manager : Manager
manager = record { metric_name = some 0; higher_is_better = true; keep_top_k = some 2 }

abbrev dir : Directory ℕ
dir =
    (step 1, some ((0, 50) ∷ []))
    ∷ (step 2, some ((0, 70) ∷ []))
    ∷ (step 3, some ((0, 60) ∷ []))
    ∷ (step 4, some [])
    ∷ (tmp_step 5, some ((0, 40) ∷ []))
    ∷ []

-- Steps 2 and 3 are the best, step 4 is the latest.
retained :
    remove_old_checkpoints ltb manager true dir
    ≡ (step 2, some ((0, 70) ∷ []))
      ∷ (step 3, some ((0, 60) ∷ []))
      ∷ (step 4, some [])
      ∷ (tmp_step 5, some ((0, 40) ∷ []))
      ∷ []
unfolding remove_old_checkpoints sort
retained = refl

best_run : get_best_checkpoint ltb manager dir ≡ some 2
unfolding get_best_checkpoint sort
best_run = refl

-- A checkpoint of the same step and one that an earlier run had set aside: the rename fails.
stale_old :
    finalize_checkpoint ltb manager 1
      ((tmp_step 1, some []) ∷ (step 1, some []) ∷ (old_step 1, some []) ∷ [])
    ≡ raise os_error
unfolding finalize_checkpoint
stale_old = refl

ltb-asym : (a b : ℕ) → ltb a b ≡ true → ltb b a ≡ false
ltb-asym a b h = ground arith

ltb-between : (a b c : ℕ) → ltb a b ≡ false → ltb b c ≡ false → ltb a c ≡ false
ltb-between a b c h k = ground arith

steps_once : (n : ℕ) → occurs n (load_checkpoint_history dir) ≤ 1
unfolding load_checkpoint_history
steps_once n = ground arith

remove_old_checkpoints-Retains_example :
    (best : List (Checkpoint ℕ)) × (others : List (Checkpoint ℕ)) × Retains ltb manager true 2 dir
      (remove_old_checkpoints ltb manager true dir)
      best
      others
remove_old_checkpoints-Retains_example =
    remove_old_checkpoints-Retains ltb ltb-asym ltb-between manager true 2 dir refl steps_once

tmp_found : find (tmp_step 5) dir ≡ some (some ((0, 40) ∷ []))
unfolding find
tmp_found = refl

old_not_found : find (old_step 5) dir ≡ none
unfolding find
old_not_found = refl

move_into_place-find_example :
    (dir' : Directory ℕ) × (move_into_place ltb 5 dir ≡ ok dir')
    × ((name : Name)
        → find name dir' ≡ (
            if same_name name (step 5)
            then some (some ((0, 40) ∷ []))
            else (if same_name name (tmp_step 5) || same_name name (old_step 5)
                then none
                else find name dir)))
move_into_place-find_example =
    move_into_place-find ltb 5 dir (some ((0, 40) ∷ [])) tmp_found old_not_found

abbrev with_value : ℕ → ℕ → Checkpoint ℕ
with_value n v = record { step_number = n; info = (0, v) ∷ [] }

three_with_metric :
    with_metric ltb (some 0) (load_checkpoint_history dir)
    ≡ with_value 1 50 ∷ with_value 2 70 ∷ with_value 3 60 ∷ []
unfolding with_metric load_checkpoint_history
three_with_metric = refl

get_best_checkpoint-All_example :
    (best : Checkpoint ℕ) × (others : List (Checkpoint ℕ)) × (get_best_checkpoint ltb manager dir
      ≡ some best.step_number)
    × SameItems (best ∷ others) (with_value 1 50 ∷ with_value 2 70 ∷ with_value 3 60 ∷ [])
    × All
        (λ d. not_worse ltb manager best d ≡ true)
        (with_value 1 50 ∷ with_value 2 70 ∷ with_value 3 60 ∷ [])
get_best_checkpoint-All_example =
    get_best_checkpoint-All ltb ltb-asym ltb-between manager dir (with_value 1 50)
      (with_value 2 70 ∷ with_value 3 60 ∷ []) three_with_metric
