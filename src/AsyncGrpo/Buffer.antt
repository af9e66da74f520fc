-- ===== src/AsyncGrpo/Buffer.antt =====
-- `ReplayBuffer` (nemo_rl/algorithms/async_utils.py). Each method runs under the buffer's lock, so it
-- is one step on its state. Weight versions are training steps, numbers from 0 on; -1 stands only for
-- "none yet".
pub mod Pops
pub mod Spec
pub mod Laws
pub mod Refines
pub mod Push
pub mod HandsOut
mod Tests
use nemo_rl_vlm.Prelude.{
  ℕ, zero, suc, ◌+◌, ◌-◌, List, [], ◌∷◌, ◌++◌, map, Option, none, some, Bool, true, false, ◌&&◌,
  ◌||◌, Result, ok, raise, value_error, zero_division_error, ltb, leb, ◌==◌, if◌then◌else◌, length,
  get_or, get_elem?, take,
}
use nemo_rl_vlm.Prelude.Int.{ℤ, pos, negsuc, max_ℤ}
use nemo_rl_vlm.Prelude.Sort.{sort}

module _ (A : Type 0) where
  pub record Buffer : Type 0 where
    pub max_size : ℕ
    pub trajectories : List A
    pub trajectory_versions : List ℕ
    pub target_weight_versions : List ℕ
    pub last_target_weight_already_generated : ℤ

pub data Status : Type 0 where
  success full : Status

-- What `sample` returns. The average age is `current_weight_version - sum(w) / len(w)`, a float: the
-- weights `w` that it is computed from stand for it.
module _ (A : Type 0) where
  pub record Sampled : Type 0 where
    pub items : List A
    pub sampled_weights : List ℕ

-- The indices, from `i` on, of the versions that pass a test.
unfoldable pub indices_where : (ℕ → Bool) → ℕ → List ℕ → List ℕ
indices_where test i [] = []
indices_where test i (v ∷ versions) =
    let rest = indices_where test (suc i) versions in if test v then i ∷ rest else rest

unfoldable pub keep_if : (ℕ → Bool) → List ℕ → List ℕ
keep_if test [] = []
keep_if test (i ∷ is) = let rest = keep_if test is in if test i then i ∷ rest else rest

unfoldable pub any : (ℕ → Bool) → List ℕ → Bool
any test [] = false
any test (v ∷ versions) = test v || any test versions

module _ {ℓ} {A : Type ℓ} where
  -- `xs.pop(i)`, for its effect.
  unfoldable pub pop_at : ℕ → List A → List A
  pop_at i [] = []
  pop_at zero (x ∷ xs) = xs
  pop_at (suc i) (x ∷ xs) = x ∷ pop_at i xs

  -- `for idx in …: xs.pop(idx)`
  unfoldable pub pop_each : List ℕ → List A → List A
  unfolding pop_at
  pop_each [] xs = xs
  pop_each (i ∷ is) xs = pop_each is (pop_at i xs)

  -- `[xs[i] for i in selected]`, on indices in range.
  unfoldable pub pick : List ℕ → List A → List A
  pick [] xs = []
  pick (i ∷ is) xs = elim (get_elem? xs i) [ none ↦ pick is xs | some x ↦ x ∷ pick is xs ]

-- `sorted(selected, reverse=True)`
abbrev pub ge : ℕ → ℕ → Bool
ge i j = leb j i

-- `__init__`
unfoldable pub init : (A : Type 0) → ℤ → Result (Buffer A)
init A (pos (suc n)) = ok (record {
  max_size = suc n;
  trajectories = [];
  trajectory_versions = [];
  target_weight_versions = [];
  last_target_weight_already_generated = negsuc 0;
})
init A _ = raise value_error

-- `min_valid_version <= v <= current_weight_version`, where `max(0, current - age)` is the subtraction
-- on ℕ, which stops at 0.
abbrev pub in_window : ℕ → ℕ → ℕ → Bool
in_window current age v = leb (current - age) v && leb v current

module _ {A : Type 0} where
  unfoldable pub push_with_wait_signal : A → ℕ → ℕ → Buffer A → Buffer A × Status
  push_with_wait_signal trajectory weight_version target b =
      if leb b.max_size (length b.trajectories) then (b, full) else (
        record b {
          trajectories = b.trajectories ++ trajectory ∷ [];
          trajectory_versions = b.trajectory_versions ++ weight_version ∷ [];
          target_weight_versions = b.target_weight_versions ++ target ∷ [];
          last_target_weight_already_generated =
              max_ℤ b.last_target_weight_already_generated (pos target);
        },
        success,
      )

  abbrev pub size : Buffer A → ℕ
  size b = length b.trajectories

  unfoldable pub clear : Buffer A → Buffer A
  clear b = record b { trajectories = []; trajectory_versions = []; target_weight_versions = [] }

  -- The end of `sample`: the selected groups leave the three lists.
  unfoldable pub consume : List ℕ → Buffer A → Result (Buffer A × Option (Sampled A))
  unfolding pick pop_each
  consume [] b = raise zero_division_error
  consume (i ∷ is) b =
      let selected = i ∷ is in
      let order = sort ge selected in
      ok (
        record b {
          trajectories = pop_each order b.trajectories;
          trajectory_versions = pop_each order b.trajectory_versions;
          target_weight_versions = pop_each order b.target_weight_versions;
        },
        some (record {
          items = pick selected b.trajectories;
          sampled_weights = pick selected b.trajectory_versions;
        }),
      )

  unfoldable pub valid_indices : ℕ → ℕ → Buffer A → List ℕ
  unfolding indices_where
  valid_indices current age b = indices_where (in_window current age) 0 b.trajectory_versions

  unfoldable pub intended_indices : ℕ → ℕ → Buffer A → List ℕ
  unfolding valid_indices keep_if
  intended_indices current age b =
      keep_if (λ i. get_or b.target_weight_versions i 0 == current) (valid_indices current age b)

  unfoldable pub sample : ℕ → ℕ → ℕ → Buffer A → Result (Buffer A × Option (Sampled A))
  unfolding any intended_indices consume
  sample groups current age b =
      if leb (length b.trajectories) 0
      then ok (b, none)
      else if any (λ v. ltb v (current - age)) b.trajectory_versions
      then raise value_error
      else let valid = valid_indices current age b in
        if leb (length valid) 0
        then ok (b, none)
        else if ltb (length valid) groups
        then ok (b, none)
        else let intended = intended_indices current age b in
          if ltb (length intended) groups then ok (b, none) else consume (take groups intended) b
