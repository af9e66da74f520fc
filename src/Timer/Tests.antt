-- ===== src/Timer/Tests.antt =====
-- A timer that is started and stopped, and a timeout.
use nemo_rl_vlm.Prelude.{
  ◌≤◌, ◌≡◌, refl, List, [], ◌∷◌, ◌++◌, none, some, true, false, ok, raise, unbound_local_error,
}
use nemo_rl_vlm.Timer.{
  Label, Timer, new_timer, start, stop, lookup, measured, TimeoutChecker, check_save,
  mark_iteration, convert_to_seconds,
}
use nemo_rl_vlm.Timer.Laws.{stop-start, Event, check, begin, mark, saves, saves-le_one}

abbrev label : Label
label = 97 ∷ []

abbrev running : Timer
running = record { timers = []; start_times = (label, 5) ∷ [] }

started : start 5 label new_timer ≡ ok running
unfolding start
started = refl

stop-start_example :
    (t : Timer) × (stop 8 label running ≡ ok (t, 3))
    × (lookup label t.start_times ≡ none)
    × (lookup label t.timers ≡ some (measured (lookup label new_timer.timers) ++ 3 ∷ []))
stop-start_example = stop-start label 5 8 new_timer running started

three_hours_45 : convert_to_seconds (0 ∷ 3 ∷ 45 ∷ 0 ∷ []) ≡ ok 13500
unfolding convert_to_seconds
three_hours_45 = refl

-- A limit of 10, with the average of the iterations counted in.
abbrev checker : TimeoutChecker
checker = record {
  last_save_time = some 10;
  start_time = 0;
  last_saved = false;
  iteration_times = [];
  previous_iteration_time = none;
  fit_last_save_time = true;
}

-- Two iterations of 4: at 8 the next one would reach the limit.
abbrev events : List Event
events = begin 0 ∷ mark 4 ∷ check 4 ∷ mark 8 ∷ check 8 ∷ check 12 ∷ []

one_save : saves events checker ≡ 1
unfolding check_save mark_iteration
one_save = refl

mark_first : mark_iteration 4 checker ≡ raise unbound_local_error
unfolding mark_iteration
mark_first = refl

saves-le_one_example : saves events checker ≤ 1
saves-le_one_example = saves-le_one events checker
