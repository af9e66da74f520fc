-- ===== src/Checkpoint/Retention.antt =====
-- Which checkpoints the retention keeps.
use nemo_rl_vlm.Prelude.{
  ℕ, zero, suc, ◌+◌, ◌≤◌, ◌<◌, min, ◌≡◌, refl, ap, ◌∙◌, List, [], ◌∷◌, ◌++◌, none, some, Bool, true,
  false, not, ◌&&◌, ltb, All-map, ◌==◌, if◌then◌else◌, length, take, drop, total, total-append,
  length-take, All, arith,
}
use nemo_rl_vlm.Prelude.Sort.{sort, IsSorted, sort-IsSorted, total-sort, length-sort}
use nemo_rl_vlm.Prelude.Multiset.{SameItems}
use nemo_rl_vlm.Checkpoint.{
  step, Directory, Checkpoint, Manager, find, load_checkpoint_history, precedes, latest_step,
  remove_old_checkpoints,
}
use nemo_rl_vlm.Checkpoint.Order.{precedes-linear, precedes_trans}
use nemo_rl_vlm.Checkpoint.Removal.{occurs, All-occurs, find-remove_all}

absent :
    {A : Type 0} (count : ℕ) (test : Bool) (gone here : A)
    → count ≡ 0
    → (if ltb 0 count && test then gone else here) ≡ here
absent count test gone here h = rw h refl

present :
    {A : Type 0} (count : ℕ) (test : Bool) (gone here : A)
    → 0 < count
    → (if ltb 0 count && test then gone else here) ≡ (if test then gone else here)
present count test gone here h =
    let some_here : ltb 0 count ≡ true = ground arith in rw some_here refl

-- What `remove_old_checkpoints` does to a directory, with the k best checkpoints of its history apart.
pub record Retains {M : Type 0} (lt : M → M → Bool) (m : Manager) (exclude_latest : Bool) (k : ℕ)
    (dir dir' : Directory M) (best others : List (Checkpoint M)) : Type 0 where
  pub same : SameItems (best ++ others) (load_checkpoint_history dir)
  pub number : length best ≡ min k (length (load_checkpoint_history dir))
  pub order : All (λ c. All (λ d. precedes lt m c d ≡ true) others) best
  pub kept : All (λ c. find (step c.step_number) dir' ≡ find (step c.step_number) dir) best
  pub gone :
      All
        (λ d. find (step d.step_number) dir' ≡ (
          if not (exclude_latest && d.step_number == latest_step lt (load_checkpoint_history dir))
          then none
          else find (step d.step_number) dir))
        others

take-drop :
    {A : Type 0} (f : A → ℕ) (k : ℕ) (xs : List A) → total f (take k xs ++ drop k xs) ≡ total f xs
take-drop f zero xs = refl
take-drop f (suc k) [] = refl
take-drop f (suc k) (x ∷ xs) = omega (arith, take-drop f k xs)

All-drop : {A : Type 0} (P : A → Type 0) (k : ℕ) (xs : List A) → All P xs → All P (drop k xs)
All-drop P zero xs h = h
All-drop P (suc k) [] h = tt
All-drop P (suc k) (x ∷ xs) h = All-drop P k xs h.1

sorted_apart :
    {A : Type 0} (le : A → A → Bool) (k : ℕ) (xs : List A)
    → IsSorted le xs
    → All (λ c. All (λ d. le c d ≡ true) (drop k xs)) (take k xs)
sorted_apart le zero xs h = tt
sorted_apart le (suc k) [] h = tt
sorted_apart le (suc k) (x ∷ xs) h =
    (All-drop (λ d. le x d ≡ true) k xs h.0, sorted_apart le k xs h.1)

module _ {M : Type 0} (lt : M → M → Bool) (asym : (a b : M) → lt a b ≡ true → lt b a ≡ false)
    (between : (a b c : M) → lt a b ≡ false → lt b c ≡ false → lt a c ≡ false) (m : Manager)
    (exclude_latest : Bool) (k : ℕ) (dir : Directory M) where
  -- With `keep_top_k` = k, if no step has two directories and the comparison of metric values is a strict
  -- weak order, the history parts into the k best checkpoints (all, if there are fewer) and the others,
  -- each of the best before each of the others in the order of the metric and then of the step. The best
  -- are left as they are, and the others are removed, but for the latest step if that is excluded.
  pub remove_old_checkpoints-Retains :
      m.keep_top_k ≡ some k
      → ((n : ℕ) → occurs n (load_checkpoint_history dir) ≤ 1)
      → (best : List (Checkpoint M)) × (others : List (Checkpoint M)) × Retains lt m exclude_latest
          k dir
          (remove_old_checkpoints lt m exclude_latest dir)
          best
          others
  unfolding remove_old_checkpoints
  remove_old_checkpoints-Retains top once =
      let history = load_checkpoint_history dir in
      let sorted = sort (precedes lt m) history in
      let best = take k sorted in
      let others = drop k sorted in
      let latest = latest_step lt history in
      let same : SameItems (best ++ others) history =
        λ f. take-drop f k sorted ∙ total-sort (precedes lt m) f history in
      let apart : (n : ℕ) → occurs n best + occurs n others ≤ 1 = λ n. omega (
        arith,
        once n,
        same (λ c. if c.step_number == n then 1 else 0),
        total-append (λ c. if c.step_number == n then 1 else 0) best others,
      ) in
      (
        best,
        others,
        record {
          same = same;
          number = length-take k sorted ∙ ap (min k) (length-sort (precedes lt m) history);
          order = sorted_apart (precedes lt m) k sorted (
              sort-IsSorted (precedes lt m) (precedes_trans lt asym between m)
                (precedes-linear lt asym between m) history);
          kept =
              All-map _ _ best
                (λ c here.
                  rw (top, remove_old_checkpoints)
                    (find-remove_all lt exclude_latest latest c.step_number others dir
                      ∙ absent (occurs c.step_number others) _ none _
                          (let limit = apart c.step_number in omega (arith, limit, here))))
                (All-occurs best);
          gone =
              All-map _ _ others
                (λ d here.
                  rw (top, remove_old_checkpoints)
                    (find-remove_all lt exclude_latest latest d.step_number others dir
                      ∙ present (occurs d.step_number others) _ none _ here))
                (All-occurs others);
        },
      )
