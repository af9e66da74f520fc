-- ===== src/Checkpoint.antt =====
-- `CheckpointManager` (nemo_rl/utils/checkpoint.py) on a directory of checkpoints. A checkpoint is the
-- name of its directory and what its training_info.json holds, none if there is no such file: metrics by
-- name, where the names are numbered. `lt` compares two metric values; they are finite, so that the
-- infinities that stand for a missing one lie beyond them. The model files and config.yaml have no model.
pub mod Order
pub mod Best
pub mod Removal
pub mod Retention
pub mod Renames
mod Tests
use nemo_rl_vlm.Prelude.{
  ℕ, zero, suc, max, List, [], ◌∷◌, ◌++◌, map, Option, none, some, Bool, true, false, not, ◌&&◌,
  ◌||◌, Result, ok, raise, ◌>>=◌, os_error, ltb, leb, ◌==◌, if◌then◌else◌, drop,
}
use nemo_rl_vlm.Prelude.Sort.{sort}

pub data Name : Type 0 where
  tmp_step step old_step : ℕ → Name

abbrev pub same_name : Name → Name → Bool
same_name (tmp_step n) (tmp_step m) = n == m
same_name (step n) (step m) = n == m
same_name (old_step n) (old_step m) = n == m
same_name _ _ = false

module _ (M : Type 0) where
  abbrev pub Info : Type 0
  Info = List (ℕ × M)

  abbrev pub Directory : Type 0
  Directory = List (Name × Option (List (ℕ × M)))

  pub record Checkpoint : Type 0 where
    pub step_number : ℕ
    pub info : List (ℕ × M)

pub record Manager : Type 0 where
  pub metric_name : Option ℕ
  pub higher_is_better : Bool
  pub keep_top_k : Option ℕ

module _ {M : Type 0} where
  unfoldable pub find : Name → Directory M → Option (Option (Info M))
  find name [] = none
  find name ((other, info) ∷ dir) =
      let rest = find name dir in if same_name name other then some info else rest

  unfoldable pub exists : Name → Directory M → Bool
  unfolding find
  exists name dir = elim (find name dir) [ none ↦ false | some info ↦ true ]

  -- `shutil.rmtree(path)`
  unfoldable pub remove : Name → Directory M → Directory M
  remove name [] = []
  remove name ((other, info) ∷ dir) =
      let rest = remove name dir in if same_name name other then rest else (other, info) ∷ rest

  -- `os.rename(a, b)`: both must fit, a directory that is not empty is not replaced.
  unfoldable pub rename : Name → Name → Directory M → Result (Directory M)
  unfolding find exists remove
  rename a b dir = elim (find a dir) [
    | none ↦ raise os_error
    | some info ↦ if exists b dir then raise os_error else ok ((b, info) ∷ remove a dir)
  ]

  -- `_load_checkpoint_history`
  unfoldable pub load_checkpoint_history : Directory M → List (Checkpoint M)
  load_checkpoint_history [] = []
  load_checkpoint_history ((step n, some info) ∷ dir) =
      record { step_number = n; info = info } ∷ load_checkpoint_history dir
  load_checkpoint_history ((_, _) ∷ dir) = load_checkpoint_history dir

  abbrev pub metric : ℕ → Info M → Option M
  metric name [] = none
  metric name ((other, value) ∷ info) =
      let rest = metric name info in if name == other then some value else rest

  module _ (lt : M → M → Bool) where
    -- Is the first value strictly better? A missing metric is worse than any value.
    abbrev pub better : Bool → Option M → Option M → Bool
    better higher (some a) (some b) = if higher then lt b a else lt a b
    better higher (some a) none = true
    better higher none b = false

    abbrev pub value : Option ℕ → Checkpoint M → Option M
    value none c = none
    value (some name) c = metric name c.info

    -- The order that the history is sorted in: better metric values first, then higher steps; without
    -- a metric name all values are alike, and higher steps come first.
    unfoldable pub precedes : Manager → Checkpoint M → Checkpoint M → Bool
    precedes m x y =
        let vx = value m.metric_name x in
        let vy = value m.metric_name y in
        better m.higher_is_better vx vy
        || (not (better m.higher_is_better vy vx) && leb y.step_number x.step_number)

    -- `max([step for step, _, _ in checkpoint_history])`, 0 for none.
    abbrev pub latest_step : List (Checkpoint M) → ℕ
    latest_step [] = 0
    latest_step (c ∷ history) = max c.step_number (latest_step history)

    -- `for checkpoint in …: if exclude_latest and …: continue; shutil.rmtree(checkpoint[1])`
    unfoldable pub remove_all : Bool → ℕ → List (Checkpoint M) → Directory M → Directory M
    unfolding remove
    remove_all exclude_latest latest [] dir = dir
    remove_all exclude_latest latest (c ∷ history) dir =
        remove_all exclude_latest latest history (
          if exclude_latest && c.step_number == latest
          then dir
          else remove (step c.step_number) dir)

    unfoldable pub remove_old_checkpoints : Manager → Bool → Directory M → Directory M
    unfolding precedes load_checkpoint_history remove_all
    remove_old_checkpoints m exclude_latest dir = elim m.keep_top_k [
      | none ↦ dir
      | some k ↦
          let history = load_checkpoint_history dir in
          remove_all exclude_latest (latest_step history) (drop k (sort (precedes m) history)) dir
    ]

    -- The renames of `finalize_checkpoint`, for the path tmp_step_n.
    unfoldable pub move_into_place : ℕ → Directory M → Result (Directory M)
    unfolding exists rename remove
    move_into_place n dir =
        if exists (step n) dir
        then (do
          dir1 ← rename (step n) (old_step n) dir
          dir2 ← rename (tmp_step n) (step n) dir1
          ok (if exists (old_step n) dir2 then remove (old_step n) dir2 else dir2))
        else rename (tmp_step n) (step n) dir

    unfoldable pub finalize_checkpoint : Manager → ℕ → Directory M → Result (Directory M)
    unfolding move_into_place remove_old_checkpoints
    finalize_checkpoint m n dir =
        move_into_place n dir >>= λ dir'. ok (remove_old_checkpoints m true dir')

    -- `get_latest_checkpoint_path`: the highest step directory, with or without an info file.
    unfoldable pub get_latest_checkpoint : Directory M → Option ℕ
    get_latest_checkpoint [] = none
    get_latest_checkpoint ((step n, info) ∷ dir) = elim (get_latest_checkpoint dir) [
      | none ↦ some n
      | some m ↦ some (max n m)
    ]
    get_latest_checkpoint ((_, info) ∷ dir) = get_latest_checkpoint dir

    abbrev pub has_metric : Option ℕ → Checkpoint M → Bool
    has_metric name c = elim (value name c) [ none ↦ false | some v ↦ true ]

    -- `[c for c in checkpoint_history if self.metric_name in c[2]]`
    unfoldable pub with_metric : Option ℕ → List (Checkpoint M) → List (Checkpoint M)
    with_metric name [] = []
    with_metric name (c ∷ history) =
        let rest = with_metric name history in if has_metric name c then c ∷ rest else rest

    -- The order of `valid_checkpoints.sort(key=…, reverse=self.higher_is_better)`.
    abbrev pub not_worse : Manager → Checkpoint M → Checkpoint M → Bool
    not_worse m x y =
        not (better m.higher_is_better (value m.metric_name y) (value m.metric_name x))

    -- `get_best_checkpoint_path`, as the step of the checkpoint.
    unfoldable pub get_best_checkpoint : Manager → Directory M → Option ℕ
    unfolding load_checkpoint_history with_metric get_latest_checkpoint
    get_best_checkpoint m dir = elim (load_checkpoint_history dir) [
      | [] ↦ none
      | c ∷ cs ↦ elim (sort (not_worse m) (with_metric m.metric_name (c ∷ cs))) [
        | [] ↦ get_latest_checkpoint dir
        | best ∷ others ↦ some best.step_number
      ]
    ]
