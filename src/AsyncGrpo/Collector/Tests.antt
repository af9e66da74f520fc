-- ===== src/AsyncGrpo/Collector/Tests.antt =====
-- Runs of the collector.
use nemo_rl_vlm.Prelude.{◌≡◌, refl, none, some, List, [], ◌∷◌, ℕ, true, false, Option}
use nemo_rl_vlm.Prelude.Int.{pos}
use nemo_rl_vlm.AsyncGrpo.Buffer.{in_window}
use nemo_rl_vlm.AsyncGrpo.Collector.{
  Collector, Config, Worker, Place, init, get_next_target_for_generation, set_weight_version,
  should_pause_for_generation_limits, loop_step, at_warning, at_limit_wait, acquire, add_thread,
  detach, release_reservation, Place,
}
use nemo_rl_vlm.AsyncGrpo.Collector.Targets.{
  Reserves, get_next_target-Reserves, is_none, should_pause-get_next_target,
  get_next_target-in_window,
}
use nemo_rl_vlm.AsyncGrpo.Collector.Workers.{
  System, Reachable, initial, next, moves, reserves, acquires, adds, detaches,
}

abbrev config : Config
config = record {
  num_prompts_per_step = 2;
  max_trajectory_age_steps = 1;
  async_engine = false;
  in_flight_weight_updates = false;
}

abbrev with_targets : List ℕ → Collector
with_targets targets = record {
  config = config;
  running = true;
  manual_pause_cleared = true;
  refit_pause_cleared = true;
  current_weight_version = 3;
  initial_weight_version = 0;
  last_limit_warning_version = none;
  generation_limit_cleared = true;
  inflight_threads = [];
  inflight_sema = 2;
  generating_targets = targets;
}

reserves_four :
    get_next_target_for_generation (pos 3) 3 (with_targets []) ≡ (some 4, with_targets (4 ∷ []))
unfolding get_next_target_for_generation
reserves_four = refl

abbrev second_prompt : Worker
second_prompt = record {
  thread = 7;
  generation_weight_version = 3;
  target_weight_version = 4;
  prompt_idx = 1;
}

-- The end of the worker of the second prompt, also by an error, releases the reservation of the target,
-- although the first prompt is not in the buffer yet: the target is reserved a second time.
reserved_again :
    (get_next_target_for_generation
      (pos 3)
      3
      (release_reservation second_prompt (with_targets (4 ∷ [])))).0
    ≡ some 4
unfolding get_next_target_for_generation release_reservation
reserved_again = refl

-- The trainer sets version 4 after the loop decided to pause for version 3 and before it clears the event.
abbrev after_new_version : Option (Place × Collector)
after_new_version = loop_step (pos 4) at_warning (set_weight_version 4 (with_targets []))

abbrev place_of : Option (Place × Collector) → Option Place
place_of none = none
place_of (some (place, c)) = some place

abbrev waits : Option (Place × Collector) → Option (Place × Collector)
waits none = none
waits (some (place, c)) = loop_step (pos 4) place c

-- Then the loop waits on the event that it cleared, although it need not pause for version 4.
lost_wakeup :
    (place_of after_new_version ≡ some at_limit_wait)
    × (place_of (waits after_new_version) ≡ none)
    × (should_pause_for_generation_limits (pos 4) (set_weight_version 4 (with_targets [])) ≡ false)
unfolding loop_step set_weight_version should_pause_for_generation_limits
lost_wakeup = (refl, refl, refl)

get_next_target-Reserves_example :
    Reserves
      (pos 3)
      3
      (with_targets [])
      (get_next_target_for_generation (pos 3) 3 (with_targets []))
get_next_target-Reserves_example = get_next_target-Reserves (pos 3) 3 (with_targets [])

should_pause-get_next_target_example :
    should_pause_for_generation_limits (pos 3) (with_targets (4 ∷ []))
    ≡ is_none (get_next_target_for_generation (pos 3) 3 (with_targets (4 ∷ []))).0
should_pause-get_next_target_example = should_pause-get_next_target (pos 3) (with_targets (4 ∷ []))

get_next_target-in_window_example : in_window 4 1 3 ≡ true
get_next_target-in_window_example =
    get_next_target-in_window (pos 3) 3 4 (with_targets []) (with_targets (4 ∷ [])) reserves_four

-- From the initial state: a reservation, a permit, the thread that it is for, and the end of that thread.
abbrev reserved : Collector
reserved = (get_next_target_for_generation (pos 0) 0 (init config 0)).1

abbrev one_permit : Collector
one_permit = record reserved { inflight_sema = 1 }

acquired_one : acquire reserved ≡ some one_permit
unfolding acquire get_next_target_for_generation init
acquired_one = refl

abbrev in_system : Collector → ℕ → ℕ → System
in_system c acquired detached = record {
  collector = c;
  acquired = acquired;
  detached = detached;
  lost = 0;
}

abbrev one_thread : Collector
one_thread = add_thread second_prompt one_permit

abbrev no_thread : Collector
no_thread = detach second_prompt one_thread

abbrev acquired-Reachable : Reachable config 0 (in_system one_permit 1 0)
acquired-Reachable =
    next (in_system reserved 0 0) (in_system one_permit 1 0)
      (next (in_system (init config 0) 0 0) (in_system reserved 0 0) initial
        (moves (in_system (init config 0) 0 0) reserved (reserves (pos 0) 0 (init config 0))))
      (acquires (in_system reserved 0 0) one_permit acquired_one)

abbrev no_thread-Reachable : Reachable config 0 (in_system no_thread 0 1)
unfolding add_thread
no_thread-Reachable =
    next (in_system one_thread 0 0) (in_system no_thread 0 1)
      (next (in_system one_permit 1 0) (in_system one_thread 0 0) acquired-Reachable
        (adds (in_system one_permit 1 0) second_prompt 0 refl))
      (detaches (in_system one_thread 0 0) second_prompt refl)
