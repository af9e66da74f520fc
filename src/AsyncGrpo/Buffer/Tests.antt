-- ===== src/AsyncGrpo/Buffer/Tests.antt =====
-- The replay buffer on a small state, and the theorems at it.
use nemo_rl_vlm.Prelude.{
  ℕ, ◌≤◌, ◌<◌, List, [], ◌∷◌, ◌++◌, ◌≡◌, refl, ◌⊎◌, none, some, ok, raise, value_error, arith,
  length,
}
use nemo_rl_vlm.Prelude.Int.{pos, max_ℤ}
use nemo_rl_vlm.Prelude.Sort.{sort}
use nemo_rl_vlm.AsyncGrpo.Buffer.{
  Buffer, Sampled, success, full, init, push_with_wait_signal, sample,
}
use nemo_rl_vlm.AsyncGrpo.Buffer.Spec.{Entry, IsValid, spec_sample, Agrees}
use nemo_rl_vlm.AsyncGrpo.Buffer.Push.{push-appends}
use nemo_rl_vlm.AsyncGrpo.Buffer.HandsOut.{HandsOut, sample-HandsOut}
use nemo_rl_vlm.AsyncGrpo.Buffer.Refines.{sample-refines}

-- Groups 10 to 13: versions 3, 4, 4, 4; targets 5, 6, 5, 5.
abbrev held : List (Entry ℕ)
held = (10, 3, 5) ∷ (11, 4, 6) ∷ (12, 4, 5) ∷ (13, 4, 5) ∷ []

abbrev buffer : Buffer ℕ
buffer = record {
  max_size = 5;
  trajectories = 10 ∷ 11 ∷ 12 ∷ 13 ∷ [];
  trajectory_versions = 3 ∷ 4 ∷ 4 ∷ 4 ∷ [];
  target_weight_versions = 5 ∷ 6 ∷ 5 ∷ 5 ∷ [];
  last_target_weight_already_generated = pos 6;
}

buffer-IsValid : IsValid buffer held
buffer-IsValid = record {
  holds = record { groups = refl; versions = refl; targets = refl };
  bounded = omega arith;
  seen = omega arith;
}

-- Two groups for step 5: the first and the third; the others stay.
sample_run :
    sample 2 5 2 buffer
    ≡ ok (
      record {
        max_size = 5;
        trajectories = 11 ∷ 13 ∷ [];
        trajectory_versions = 4 ∷ 4 ∷ [];
        target_weight_versions = 6 ∷ 5 ∷ [];
        last_target_weight_already_generated = pos 6;
      },
      some (record { items = 10 ∷ 12 ∷ []; sampled_weights = 3 ∷ 4 ∷ [] }),
    )
unfolding sample sort
sample_run = refl

sample_waits : sample 4 5 2 buffer ≡ ok (buffer, none)
unfolding sample
sample_waits = refl

sample_too_old : sample 1 5 1 buffer ≡ raise value_error
unfolding sample
sample_too_old = refl

init_refused : init ℕ (pos 0) ≡ raise value_error
unfolding init
init_refused = refl

sample-refines_example : Agrees buffer (sample 2 5 2 buffer) (spec_sample 2 5 2 held)
sample-refines_example = sample-refines 5 2 2 (omega arith) buffer held buffer-IsValid

push-appends_example :
    ((5 ≤ length held) × (push_with_wait_signal 14 5 7 buffer ≡ (buffer, full)))
    ⊎ ((length held < 5)
        × ((push_with_wait_signal 14 5 7 buffer).1 ≡ success)
        × IsValid (push_with_wait_signal 14 5 7 buffer).0 (held ++ (14, 5, 7) ∷ [])
        × ((push_with_wait_signal 14 5 7 buffer).0.max_size ≡ 5)
        × ((push_with_wait_signal 14 5 7 buffer).0.last_target_weight_already_generated
            ≡ max_ℤ (pos 6) (pos 7)))
push-appends_example = push-appends 14 5 7 buffer held buffer-IsValid

abbrev after_sample : Buffer ℕ
after_sample = record {
  max_size = 5;
  trajectories = 11 ∷ 13 ∷ [];
  trajectory_versions = 4 ∷ 4 ∷ [];
  target_weight_versions = 6 ∷ 5 ∷ [];
  last_target_weight_already_generated = pos 6;
}

abbrev sampled : Sampled ℕ
sampled = record { items = 10 ∷ 12 ∷ []; sampled_weights = 3 ∷ 4 ∷ [] }

sample-HandsOut_example : HandsOut 2 5 2 held after_sample sampled
sample-HandsOut_example =
    sample-HandsOut 2 5 2 (omega arith) buffer after_sample held sampled buffer-IsValid sample_run
