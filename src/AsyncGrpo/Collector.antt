-- ===== src/AsyncGrpo/Collector.antt =====
-- `AsyncTrajectoryCollector` (nemo_rl/algorithms/async_utils.py): its fields, the methods that the
-- trainer calls, one pass of the collection loop, and what a prompt-group worker does to them. A wait on
-- an event or a semaphore answers none while it blocks. `last` stands for the answer of the replay
-- buffer's `get_last_target_weight_already_generated`. Threads are numbered; prints have no model.
pub mod Targets
pub mod Threads
pub mod Workers
mod Tests
use nemo_rl_vlm.Prelude.{
  ℕ, zero, suc, ◌+◌, ◌-◌, ◌*◌, List, [], ◌∷◌, ◌++◌, map, Option, none, some, Bool, true, false, not,
  ◌&&◌, ◌||◌, ltb, ◌==◌, if◌then◌else◌, range_from, length,
}
use nemo_rl_vlm.Prelude.Int.{ℤ, pos, ltb_ℤ}

-- The entries of `master_config` that the collector reads.
pub record Config : Type 0 where
  pub num_prompts_per_step : ℕ
  pub max_trajectory_age_steps : ℕ
  pub async_engine : Bool
  pub in_flight_weight_updates : Bool

pub record Worker : Type 0 where
  pub thread : ℕ
  pub generation_weight_version : ℕ
  pub target_weight_version : ℕ
  pub prompt_idx : ℕ

pub record Collector : Type 0 where
  pub config : Config
  pub running : Bool
  pub manual_pause_cleared : Bool
  pub refit_pause_cleared : Bool
  pub current_weight_version : ℕ
  pub initial_weight_version : ℕ
  pub last_limit_warning_version : Option ℕ
  pub generation_limit_cleared : Bool
  pub inflight_threads : List Worker
  pub inflight_sema : ℕ
  pub generating_targets : List ℕ

-- `n or 1`
abbrev pub or_one : ℕ → ℕ
or_one zero = 1
or_one (suc n) = suc n

abbrev pub max_inflight : Config → ℕ
max_inflight config = or_one (config.num_prompts_per_step * config.max_trajectory_age_steps)

unfoldable pub init : Config → ℕ → Collector
init config start_step = record {
  config = config;
  running = false;
  manual_pause_cleared = true;
  refit_pause_cleared = true;
  current_weight_version = start_step;
  initial_weight_version = start_step;
  last_limit_warning_version = none;
  generation_limit_cleared = true;
  inflight_threads = [];
  inflight_sema = max_inflight config;
  generating_targets = [];
}

unfoldable pub calculate_target_weights : ℕ → Collector → List ℕ
calculate_target_weights version c =
    let age = c.config.max_trajectory_age_steps in
    if version == c.initial_weight_version
    then range_from c.initial_weight_version (age + 1)
    else map (λ i. version + i) (range_from 1 age)

abbrev pub contains : ℕ → List ℕ → Bool
contains t [] = false
contains t (u ∷ us) = t == u || contains t us

-- `_generating_targets.discard(t)`, on a set kept as a list without repetitions.
abbrev pub discard : ℕ → List ℕ → List ℕ
discard t [] = []
discard t (u ∷ us) = let rest = discard t us in if t == u then rest else u ∷ rest

-- `t > last and t not in self._generating_targets`
abbrev pub needs_generation : ℤ → List ℕ → ℕ → Bool
needs_generation last generating t = ltb_ℤ last (pos t) && not (contains t generating)

-- The first of the targets that passes.
unfoldable pub first_needed : ℤ → List ℕ → List ℕ → Option ℕ
first_needed last generating [] = none
first_needed last generating (t ∷ ts) =
    let rest = first_needed last generating ts in
    if needs_generation last generating t then some t else rest

unfoldable pub get_next_target_for_generation : ℤ → ℕ → Collector → Option ℕ × Collector
unfolding calculate_target_weights first_needed
get_next_target_for_generation last version c =
    elim (first_needed last c.generating_targets (calculate_target_weights version c)) [
      | none ↦ (none, c)
      | some t ↦ (some t, record c { generating_targets = t ∷ c.generating_targets })
    ]

unfoldable pub set_weight_version : ℕ → Collector → Collector
set_weight_version version c = record c {
  current_weight_version = version;
  generation_limit_cleared = true;
}

-- `for t in targets: if …: return False`, then `return True`.
unfoldable pub none_needed : ℤ → List ℕ → List ℕ → Bool
none_needed last generating [] = true
none_needed last generating (t ∷ ts) =
    let rest = none_needed last generating ts in
    if needs_generation last generating t then false else rest

unfoldable pub should_pause_for_generation_limits : ℤ → Collector → Bool
unfolding calculate_target_weights none_needed
should_pause_for_generation_limits last c =
    none_needed last c.generating_targets (calculate_target_weights c.current_weight_version c)

abbrev pub pause : Collector → Collector
pause c = record c { manual_pause_cleared = false }

abbrev pub resume : Collector → Collector
resume c = record c { manual_pause_cleared = true }

-- `prepare_for_refit` first clears the event; the call returns once `may_refit` holds, at once if the
-- engine takes weight updates in flight, and otherwise when no thread is in flight.
abbrev pub prepare_for_refit : Collector → Collector
prepare_for_refit c = record c { refit_pause_cleared = false }

unfoldable pub may_refit : Collector → Bool
may_refit c =
    (c.config.async_engine && c.config.in_flight_weight_updates) || length c.inflight_threads == 0

abbrev pub resume_after_refit : Collector → Collector
resume_after_refit c = record c { refit_pause_cleared = true }

-- Where the collection loop stands in the pass for one batch.
pub data Place : Type 0 where
  at_manual_pause at_manual_wait at_refit_pause at_refit_wait at_limits at_warning : Place
  at_limit_wait at_batch stopped : Place

-- A wait: none while the event is cleared.
abbrev pub wait : Bool → Place → Collector → Option (Place × Collector)
wait true next c = some (next, c)
wait false next c = none

abbrev pub same_version : Option ℕ → ℕ → Bool
same_version none v = false
same_version (some w) v = w == v

-- The next move of the loop; at_batch is where `_process_batch` is called.
unfoldable pub loop_step : ℤ → Place → Collector → Option (Place × Collector)
unfolding should_pause_for_generation_limits
loop_step last at_manual_pause c =
    some (if not c.manual_pause_cleared && c.running then at_manual_wait else at_refit_pause, c)
loop_step last at_manual_wait c = wait c.manual_pause_cleared at_refit_pause c
loop_step last at_refit_pause c =
    some (if not c.refit_pause_cleared && c.running then at_refit_wait else at_limits, c)
loop_step last at_refit_wait c = wait c.refit_pause_cleared at_limits c
loop_step last at_limits c =
    if should_pause_for_generation_limits last c && c.running
    then some (at_warning, c)
    else some (if c.running then at_batch else stopped, c)
loop_step last at_warning c =
    if same_version c.last_limit_warning_version c.current_weight_version
    then some (at_limit_wait, c)
    else some (
      at_limit_wait,
      record c {
        last_limit_warning_version = some c.current_weight_version;
        generation_limit_cleared = false;
      },
    )
loop_step last at_limit_wait c =
    wait c.generation_limit_cleared (if c.running then at_batch else stopped) c
loop_step last at_batch c = some (if c.running then at_manual_pause else stopped, c)
loop_step last stopped c = some (stopped, record c { running = false })

-- `self._inflight_sema.acquire()` before a worker's thread: none while no permit is free.
unfoldable pub acquire : Collector → Option Collector
acquire c = elim c.inflight_sema [
  | zero ↦ none
  | suc permits ↦ some (record c { inflight_sema = permits })
]

-- `self._inflight_threads.add(worker)`, of a new thread. The start of the thread changes nothing here; if it fails,
-- the thread stays in the set, and its permit is not released.
unfoldable pub add_thread : Worker → Collector → Collector
add_thread worker c = record c { inflight_threads = worker ∷ c.inflight_threads }

abbrev pub alive : (ℕ → Bool) → List Worker → List Worker
alive is_alive [] = []
alive is_alive (w ∷ ws) =
    let rest = alive is_alive ws in if is_alive w.thread then w ∷ rest else rest

-- `_cleanup_finished_threads`, where `is_alive` is what each thread answers.
unfoldable pub cleanup_finished_threads : (ℕ → Bool) → Collector → Collector
cleanup_finished_threads is_alive c = record c {
  inflight_threads = alive is_alive c.inflight_threads;
}

-- The reservation is released when the first prompt group is in the buffer.
unfoldable pub buffered : Worker → Collector → Collector
buffered worker c =
    if worker.prompt_idx == 0
    then record c { generating_targets = discard worker.target_weight_version c.generating_targets }
    else c

abbrev pub without : ℕ → List Worker → List Worker
without thread [] = []
without thread (w ∷ ws) =
    let rest = without thread ws in if thread == w.thread then ws else w ∷ rest

-- The worker's `finally`, in three steps, each with its own lock: the reservation is released,
unfoldable pub release_reservation : Worker → Collector → Collector
release_reservation worker c = record c {
  generating_targets = discard worker.target_weight_version c.generating_targets;
}

-- the record of the thread is removed, if it is there,
unfoldable pub detach : Worker → Collector → Collector
detach worker c = record c { inflight_threads = without worker.thread c.inflight_threads }

-- and `self._inflight_sema.release()`.
unfoldable pub release : Collector → Collector
release c = record c { inflight_sema = c.inflight_sema + 1 }
